-- ===== src/Config/Tests.antt =====
-- config.py on a small host.
use emma.Common.{
  ok_injective, ℕ, ◌≡◌, ◌++◌, ap, refl, true, false, Option, none, some, List, [], ◌∷◌, Text, lit,
  ok, err, Dict, Outcome, Bool, starts_with, lookup, lookup-append, text_eq, All, is_empty, decimal,
  read_digits, read_digits-decimal, if◌then◌else◌,
}
use mathlib.Core.Path.{subst}
use emma.Facts.Tools.{Integer}
use emma.Config.{
  Host, Config, Reading, contents, load_config, load_from, missing_variable, not_positive,
}
use emma.Config.Environment.{variables, load_config-environment}
use emma.Config.Valid.{IsValid, LoadFault, load_config_lem}

abbrev as_integer : Option ℕ → Option Integer
as_integer none = none
as_integer (some n) = some (record { negative = false; size = n })

-- A root of the project in front of a path that does not start with it.
abbrev host : Host
host = record {
  load_dotenv = λ environ. ok environ;
  lower = λ t. t;
  int = λ t. as_integer (read_digits 0 t);
  expanduser = λ t. some t;
  is_absolute = λ t. starts_with (47 ∷ []) t;
  anchor = λ t. 47 ∷ t;
  read_text = λ t. contents (lit "Sei EMMA. ");
}

abbrev environ : Dict Text
environ =
    (lit "ANTHROPIC_API_KEY", lit "sk")
    ∷ (lit "TELEGRAM_BOT_TOKEN", lit " t ")
    ∷ (lit "TELEGRAM_ALLOWED_USER_ID", lit "7")
    ∷ []

load_config_lem_example : Outcome (IsValid host) (LoadFault host environ) (load_config host environ)
unfolding starts_with
load_config_lem_example =
    load_config_lem host environ (λ k. ap as_integer (read_digits-decimal k)) (λ path. refl)

loaded :
    load_config host environ
    ≡ ok (record {
      llm_provider = lit "anthropic";
      anthropic_api_key = lit "sk";
      anthropic_model = lit "claude-sonnet-4-6";
      groq_api_key = [];
      groq_model = lit "llama-3.3-70b-versatile";
      telegram_bot_token = lit "t";
      telegram_allowed_user_id = 7;
      max_history_messages = 20;
      memory_db_path = lit "/data/emma.db";
      system_prompt_path = lit "/prompts/system_prompt.txt";
      backup_dir = lit "/mnt/backup/emma";
      backup_keep = 14;
    })
unfolding load_config load_from emma.Config.api_keys emma.Config.build_config
    emma.Config.read_system_prompt emma.Config.value_of emma.Config.require_variable
    emma.Config.optional_variable emma.Config.positive_int emma.Config.resolve starts_with lit
    emma.Common.lookup emma.Common.text_eq emma.Common.mem_text emma.Common.strip emma.Common.lstrip
    emma.Common.rstrip emma.Common.is_space decimal read_digits
loaded = refl

-- A blank token counts as missing.
no_token :
    load_config host ((lit "TELEGRAM_BOT_TOKEN", lit " ") ∷ environ)
    ≡ err (missing_variable (lit "TELEGRAM_BOT_TOKEN"))
unfolding load_config load_from emma.Config.api_keys emma.Config.build_config emma.Config.value_of
    emma.Config.require_variable emma.Config.optional_variable lit emma.Common.lookup
    emma.Common.text_eq emma.Common.mem_text emma.Common.strip emma.Common.lstrip emma.Common.rstrip
    emma.Common.is_space
no_token = refl

-- A .env file that says something else.
abbrev other_host : Host
other_host = record host {
  load_dotenv = λ e. ok (e ++ ((lit "TELEGRAM_BOT_TOKEN", lit "other") ∷ []));
}

abbrev complete : Dict Text
complete =
    (lit "LLM_PROVIDER", lit "groq")
    ∷ (lit "ANTHROPIC_API_KEY", [])
    ∷ (lit "GROQ_API_KEY", lit "gsk")
    ∷ (lit "ANTHROPIC_MODEL", [])
    ∷ (lit "GROQ_MODEL", [])
    ∷ (lit "TELEGRAM_BOT_TOKEN", lit "t")
    ∷ (lit "TELEGRAM_ALLOWED_USER_ID", lit "7")
    ∷ (lit "MAX_HISTORY_MESSAGES", lit "0")
    ∷ (lit "MEMORY_DB_PATH", [])
    ∷ (lit "SYSTEM_PROMPT_PATH", [])
    ∷ (lit "BACKUP_DIR", [])
    ∷ (lit "BACKUP_KEEP", [])
    ∷ []

complete_set : All (λ name. (v : Text) × (lookup name complete ≡ some v)) variables
unfolding lookup text_eq lit
complete_set = (
  (_, refl),
  (
    (_, refl),
    (
      (_, refl),
      (
        (_, refl),
        (
          (_, refl),
          (
            (_, refl),
            ((_, refl), ((_, refl), ((_, refl), ((_, refl), ((_, refl), ((_, refl), tt)))))),
          ),
        ),
      ),
    ),
  ),
)

load_config-environment_instance : load_config other_host complete ≡ load_from other_host complete
load_config-environment_instance =
    load_config-environment other_host complete
      (λ e d name v l h.
        subst (λ x. lookup name x ≡ some v) (ok_injective l)
          (lookup-append name v e ((lit "TELEGRAM_BOT_TOKEN", lit "other") ∷ []) h))
      _ refl complete_set
