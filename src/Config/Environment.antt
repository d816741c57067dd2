-- ===== src/Config/Environment.antt =====
-- That the environment wins over the .env file.
use emma.Common.{ok, ◌≡◌, refl, some, List, [], ◌∷◌, Text, lit, lookup, Dict, All, decimal}
use emma.Config.{
  Host, value_of, require_variable, optional_variable, api_keys, build_config, load_from,
  load_config, default_anthropic_model, default_groq_model, default_max_history_messages,
  default_memory_db_path, default_system_prompt_path, default_backup_dir, default_backup_keep,
  default_llm_provider,
}

-- The variables of the module.
abbrev pub variables : List Text
variables =
    lit "LLM_PROVIDER"
    ∷ lit "ANTHROPIC_API_KEY"
    ∷ lit "GROQ_API_KEY"
    ∷ lit "ANTHROPIC_MODEL"
    ∷ lit "GROQ_MODEL"
    ∷ lit "TELEGRAM_BOT_TOKEN"
    ∷ lit "TELEGRAM_ALLOWED_USER_ID"
    ∷ lit "MAX_HISTORY_MESSAGES"
    ∷ lit "MEMORY_DB_PATH"
    ∷ lit "SYSTEM_PROMPT_PATH"
    ∷ lit "BACKUP_DIR"
    ∷ lit "BACKUP_KEEP"
    ∷ []

module _ (host : Host) (a b : Dict Text) where
  require_same :
      (name : Text)
      → value_of a name ≡ value_of b name
      → require_variable a name ≡ require_variable b name
  unfolding require_variable
  require_same name e = rw e refl

  optional_same :
      (name default : Text)
      → value_of a name ≡ value_of b name
      → optional_variable a name default ≡ optional_variable b name default
  unfolding optional_variable
  optional_same name default e = rw e refl

  api_keys_same :
      (provider : Text)
      → value_of a (lit "ANTHROPIC_API_KEY") ≡ value_of b (lit "ANTHROPIC_API_KEY")
      → value_of a (lit "GROQ_API_KEY") ≡ value_of b (lit "GROQ_API_KEY")
      → api_keys a provider ≡ api_keys b provider
  unfolding api_keys
  api_keys_same provider e f =
      rw (api_keys, require_same _ e, require_same _ f, optional_same _ [] e, optional_same _ [] f)
        refl

  build_config_same :
      All (λ name. value_of a name ≡ value_of b name) variables
      → (provider : Text) (keys : Text × Text)
      → build_config host a provider keys ≡ build_config host b provider keys
  unfolding build_config
  build_config_same
        (_, (_, (_, (am, (gm, (token, (user, (history, (db, (prompt, (backup, (keep, _))))))))))))
        provider (k, l) =
      rw
        (
          build_config,
          optional_same _ default_anthropic_model am,
          optional_same _ default_groq_model gm,
          require_same _ token,
          require_same _ user,
          optional_same _ (decimal default_max_history_messages) history,
          optional_same _ default_memory_db_path db,
          optional_same _ default_system_prompt_path prompt,
          optional_same _ default_backup_dir backup,
          optional_same _ (decimal default_backup_keep) keep,
        )
        refl

  load_same :
      All (λ name. value_of a name ≡ value_of b name) variables
      → load_from host a ≡ load_from host b
  unfolding load_from
  load_same h =
      let build = build_config_same h in
      simp (
        load_from,
        optional_same _ default_llm_provider h.0,
        λ (p : Text). api_keys_same p h.1.0 h.1.1.0,
        build,
      )

kept_all :
    (host : Host) (environ : Dict Text)
    → (d : Dict Text) → host.load_dotenv environ ≡ ok d
    → ((e d : Dict Text) (name v : Text)
        → host.load_dotenv e ≡ ok d
        → lookup name e ≡ some v
        → lookup name d ≡ some v)
    → (names : List Text) → All (λ name. (v : Text) × (lookup name environ ≡ some v)) names
    → All (λ name. value_of d name ≡ value_of environ name) names
unfolding value_of
kept_all host environ d l keeps [] h = tt
kept_all host environ d l keeps (name ∷ names) ((v, e), h) =
    (rw (value_of, keeps environ d name v l e, e) refl, kept_all host environ d l keeps names h)

-- If the environment sets every variable of the module, a .env file that can be read does not matter: `load_config` does what
-- it would do on the environment alone. python-dotenv is assumed to keep what is set, as it does with
-- `override=False`.
pub load_config-environment :
    (host : Host) (environ : Dict Text)
    → ((e d : Dict Text) (name v : Text)
        → host.load_dotenv e ≡ ok d
        → lookup name e ≡ some v
        → lookup name d ≡ some v)
    → (d : Dict Text) → host.load_dotenv environ ≡ ok d
    → All (λ name. (v : Text) × (lookup name environ ≡ some v)) variables
    → load_config host environ ≡ load_from host environ
unfolding load_config
load_config-environment host environ keeps d l set_all =
    rw l (load_same host d environ (kept_all host environ d l keeps variables set_all))
