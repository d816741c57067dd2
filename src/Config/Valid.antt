-- ===== src/Config/Valid.antt =====
-- What config.py promises: a configuration that is loaded is valid, and an error blames what is wrong.
use emma.Common.{
  Result-cases, ℕ, suc, ◌<◌, ◌≡◌, refl, sym, Outcome-self, err_injective, inl, inr, true, false,
  none, some, List, [], ◌∷◌, Text, lit, text_eq, mem_text, is_empty, decimal, ◌==◌, ◌||◌,
  if◌then◌else◌, Result, ok, err, Exc, Dict, Outcome, returns, raises, >>=-Outcome, Bool-cases,
  Option-cases, arith,
}
use emma.Facts.Tools.{Integer}
use emma.Config.{
  Host, Config, Reading, contents, unreadable, not_utf8, supported_providers, default_llm_provider,
  default_anthropic_model, default_groq_model, default_system_prompt_path, missing_variable,
  not_integer, not_positive, unsupported_provider, prompt_unreadable, prompt_not_utf8, no_home,
  read_system_prompt, value_of, require_variable, optional_variable, positive_int, resolve,
  api_keys, build_config, load_from, load_config,
}

abbrev chosen_key : Config → Text
chosen_key c =
    if text_eq c.llm_provider (lit "anthropic") then c.anthropic_api_key else c.groq_api_key

pub record IsValid (host : Host) (c : Config) : Type 0 where
  pub provider_supported : mem_text c.llm_provider supported_providers ≡ true
  pub key_given : is_empty (chosen_key c) ≡ false
  pub token_given : is_empty c.telegram_bot_token ≡ false
  pub user_positive : 0 < c.telegram_allowed_user_id
  pub history_positive : 0 < c.max_history_messages
  pub keep_positive : 0 < c.backup_keep
  pub anthropic_model_given : is_empty c.anthropic_model ≡ false
  pub groq_model_given : is_empty c.groq_model ≡ false
  pub db_path_absolute : host.is_absolute c.memory_db_path ≡ true
  pub prompt_path_absolute : host.is_absolute c.system_prompt_path ≡ true
  pub backup_dir_absolute : host.is_absolute c.backup_dir ≡ true
  pub prompt_readable : (text : Text) × (read_system_prompt host c ≡ ok text)

abbrev pub mandatory : List Text
mandatory =
    lit "ANTHROPIC_API_KEY"
    ∷ lit "GROQ_API_KEY"
    ∷ lit "TELEGRAM_BOT_TOKEN"
    ∷ lit "TELEGRAM_ALLOWED_USER_ID"
    ∷ []

abbrev pub numeric : List Text
numeric = lit "TELEGRAM_ALLOWED_USER_ID" ∷ lit "MAX_HISTORY_MESSAGES" ∷ lit "BACKUP_KEEP" ∷ []

abbrev pub paths : List Text
paths = lit "MEMORY_DB_PATH" ∷ lit "SYSTEM_PROMPT_PATH" ∷ lit "BACKUP_DIR" ∷ []

-- Where the personality is looked for.
abbrev pub prompt_path : Host → Dict Text → Result Exc Text
prompt_path host environ =
    resolve host (optional_variable environ (lit "SYSTEM_PROMPT_PATH") default_system_prompt_path)

-- What is wrong with an environment, with the exception that says so.
pub data Fault (host : Host) (environ : Dict Text) (e : Exc) : Type 0 where
  unsupported :
      (provider : Text)
      → provider ≡ host.lower (optional_variable environ (lit "LLM_PROVIDER") default_llm_provider)
      → mem_text provider supported_providers ≡ false
      → e ≡ unsupported_provider provider
      → Fault host environ e
  missing :
      (name : Text)
      → mem_text name mandatory ≡ true
      → is_empty (value_of environ name) ≡ true
      → e ≡ missing_variable name
      → Fault host environ e
  malformed :
      (name : Text)
      → mem_text name numeric ≡ true
      → is_empty (value_of environ name) ≡ false
      → host.int (value_of environ name) ≡ none
      → e ≡ not_integer name (value_of environ name)
      → Fault host environ e
  too_small :
      (name : Text) (value : Integer)
      → mem_text name numeric ≡ true
      → is_empty (value_of environ name) ≡ false
      → host.int (value_of environ name) ≡ some value
      → (value.negative || (value.size == 0)) ≡ true
      → e ≡ not_positive name value
      → Fault host environ e
  homeless :
      (name default : Text)
      → mem_text name paths ≡ true
      → host.expanduser (optional_variable environ name default) ≡ none
      → e ≡ no_home
      → Fault host environ e
  prompt_missing :
      (path why : Text)
      → prompt_path host environ ≡ ok path
      → host.read_text path ≡ unreadable why
      → e ≡ prompt_unreadable path why
      → Fault host environ e
  prompt_garbled :
      (path why : Text)
      → prompt_path host environ ≡ ok path
      → host.read_text path ≡ not_utf8 why
      → e ≡ prompt_not_utf8 path why
      → Fault host environ e

are_mandatory :
    (mem_text (lit "ANTHROPIC_API_KEY") mandatory ≡ true)
    × (mem_text (lit "GROQ_API_KEY") mandatory ≡ true)
    × (mem_text (lit "TELEGRAM_BOT_TOKEN") mandatory ≡ true)
    × (mem_text (lit "TELEGRAM_ALLOWED_USER_ID") mandatory ≡ true)
unfolding mem_text text_eq lit
are_mandatory = (refl, refl, refl, refl)

are_numeric :
    (mem_text (lit "TELEGRAM_ALLOWED_USER_ID") numeric ≡ true)
    × (mem_text (lit "MAX_HISTORY_MESSAGES") numeric ≡ true)
    × (mem_text (lit "BACKUP_KEEP") numeric ≡ true)
unfolding mem_text text_eq lit
are_numeric = (refl, refl, refl)

are_paths :
    (mem_text (lit "MEMORY_DB_PATH") paths ≡ true)
    × (mem_text (lit "SYSTEM_PROMPT_PATH") paths ≡ true)
    × (mem_text (lit "BACKUP_DIR") paths ≡ true)
unfolding mem_text text_eq lit
are_paths = (refl, refl, refl)

defaults_given : (is_empty default_anthropic_model ≡ false) × (is_empty default_groq_model ≡ false)
unfolding lit
defaults_given = (refl, refl)

module _ (host : Host) (environ : Dict Text) where
  require_variable_lem :
      (name : Text)
      → mem_text name mandatory ≡ true
      → Outcome
          (λ v. (v ≡ value_of environ name) × (is_empty v ≡ false))
          (Fault host environ)
          (require_variable environ name)
  unfolding require_variable
  require_variable_lem name m = elim (Bool-cases (is_empty (value_of environ name))) [
    | inl e ↦ rw e (raises (missing name m e refl))
    | inr e ↦ rw e (returns (refl, e))
  ]

  optional_variable_lem :
      (name default : Text)
      → is_empty default ≡ false
      → is_empty (optional_variable environ name default) ≡ false
  unfolding optional_variable
  optional_variable_lem name default d = elim (Bool-cases (is_empty (value_of environ name))) [
    | inl e ↦ rw e d
    | inr e ↦ rw e e
  ]

  positive_int_lem :
      (name : Text)
      → mem_text name numeric ≡ true
      → is_empty (value_of environ name) ≡ false
      → Outcome (λ n. 0 < n) (Fault host environ) (positive_int host name (value_of environ name))
  unfolding positive_int
  positive_int_lem name m given = elim (Option-cases (host.int (value_of environ name))) [
    | inl e ↦ rw (positive_int, e) (raises (malformed name m given e refl))
    | inr (value, e) ↦ elim (Bool-cases (value.negative || (value.size == 0))) [
      | inl z ↦ rw (positive_int, e, z) ((raises (too_small name value m given e z refl)))
      | inr z ↦ rw (positive_int, e, z) ((returns (ground arith)))
    ]
  ]

  resolve_lem :
      ((path : Text) → host.is_absolute (host.anchor path) ≡ true)
      → (name default : Text) → mem_text name paths ≡ true
      → Outcome
          (λ p.
            (host.is_absolute p ≡ true)
            × (resolve host (optional_variable environ name default) ≡ ok p))
          (Fault host environ)
          (resolve host (optional_variable environ name default))
  unfolding resolve
  resolve_lem anchored name default m =
      let raw = optional_variable environ name default in
      elim (Option-cases (host.expanduser raw)) [
        | inl e ↦ rw (resolve, e) (raises (homeless name default m e refl))
        | inr (path, e) ↦ elim (Bool-cases (host.is_absolute path)) [
          | inl a ↦ rw (resolve, e, a) (returns (a, refl))
          | inr a ↦ rw (resolve, e, a) (returns (anchored path, refl))
        ]
      ]

  positive_int-decimal :
      (name : Text) (n : ℕ)
      → host.int (decimal (suc n)) ≡ some (record { negative = false; size = suc n })
      → positive_int host name (decimal (suc n)) ≡ ok (suc n)
  unfolding positive_int
  positive_int-decimal name n printed = rw (positive_int, printed) (ground arith)

  -- A number with a default: what the variable says, or the default.
  defaulted_int_lem :
      (name : Text) (n : ℕ)
      → ((k : ℕ) → host.int (decimal k) ≡ some (record { negative = false; size = k }))
      → mem_text name numeric ≡ true
      → Outcome
          (λ k. 0 < k)
          (Fault host environ)
          (positive_int host name (optional_variable environ name (decimal (suc n))))
  unfolding optional_variable
  defaulted_int_lem name n printed m = elim (Bool-cases (is_empty (value_of environ name))) [
    | inl e ↦ rw e (rw (positive_int-decimal name n (printed (suc n))) (returns (omega arith)))
    | inr e ↦ rw e (positive_int_lem name m e)
  ]

  prompt-Fault :
      (c : Config) (r : Reading) (e : Exc)
      → prompt_path host environ ≡ ok c.system_prompt_path
      → host.read_text c.system_prompt_path ≡ r
      → read_system_prompt host c ≡ err e
      → Fault host environ e
  unfolding read_system_prompt
  prompt-Fault c (contents text) e q f h = cc (rw (read_system_prompt, f) at h)
  prompt-Fault c (unreadable why) e q f h =
      prompt_missing c.system_prompt_path why q f
        (sym (err_injective (rw (read_system_prompt, f) at h)))
  prompt-Fault c (not_utf8 why) e q f h =
      prompt_garbled c.system_prompt_path why q f
        (sym (err_injective (rw (read_system_prompt, f) at h)))

  -- The key of the provider is given.
  abbrev KeyGiven : Text → Text × Text → Type 0
  KeyGiven provider keys =
      is_empty (if text_eq provider (lit "anthropic") then keys.0 else keys.1) ≡ false

  api_keys_lem :
      (provider : Text)
      → Outcome (KeyGiven provider) (Fault host environ) (api_keys environ provider)
  unfolding api_keys
  api_keys_lem provider = elim (Bool-cases (text_eq provider (lit "anthropic"))) [
    | inl e ↦
        rw (api_keys, e)
          (>>=-Outcome (require_variable_lem (lit "ANTHROPIC_API_KEY") are_mandatory.0)
            (λ key given. returns (rw e given.1)))
    | inr e ↦
        rw (api_keys, e)
          (>>=-Outcome (require_variable_lem (lit "GROQ_API_KEY") are_mandatory.1)
            (λ key given. returns (rw e given.1)))
  ]

  module _ (printed : (k : ℕ) → host.int (decimal k) ≡ some (record { negative = false; size = k }))
      (anchored : (path : Text) → host.is_absolute (host.anchor path) ≡ true) where
    user_lem :
        (raw : Text)
        → (raw ≡ value_of environ (lit "TELEGRAM_ALLOWED_USER_ID")) × (is_empty raw ≡ false)
        → Outcome
            (λ k. 0 < k)
            (Fault host environ)
            (positive_int host (lit "TELEGRAM_ALLOWED_USER_ID") raw)
    user_lem raw (same, given) =
        rw same (positive_int_lem (lit "TELEGRAM_ALLOWED_USER_ID") are_numeric.0 (rw same at given))

    -- All but what is said of the prompt.
    build_config_lem :
        (provider : Text) (keys : Text × Text)
        → mem_text provider supported_providers ≡ true
        → KeyGiven provider keys
        → Outcome
            (λ c.
              (prompt_path host environ ≡ ok c.system_prompt_path)
              × ((text : Text) → read_system_prompt host c ≡ ok text → IsValid host c))
            (Fault host environ)
            (build_config host environ provider keys)
    unfolding build_config
    build_config_lem provider (anthropic_key, groq_key) supported given =
        >>=-Outcome (require_variable_lem (lit "TELEGRAM_BOT_TOKEN") are_mandatory.2) (λ token t.
          >>=-Outcome (require_variable_lem (lit "TELEGRAM_ALLOWED_USER_ID") are_mandatory.3)
            (λ raw r. >>=-Outcome (user_lem raw r) (λ user u.
              >>=-Outcome (defaulted_int_lem (lit "MAX_HISTORY_MESSAGES") 19 printed are_numeric.1)
                (λ messages m.
                  >>=-Outcome (resolve_lem anchored (lit "MEMORY_DB_PATH") _ are_paths.0) (λ db d.
                    >>=-Outcome (resolve_lem anchored (lit "SYSTEM_PROMPT_PATH") _ are_paths.1)
                      (λ prompt p.
                        >>=-Outcome (resolve_lem anchored (lit "BACKUP_DIR") _ are_paths.2)
                          (λ backup b.
                            >>=-Outcome
                              (defaulted_int_lem (lit "BACKUP_KEEP") 13 printed are_numeric.2)
                              (λ keep k. returns (
                                p.1,
                                λ text read. record {
                                  provider_supported = supported;
                                  key_given = given;
                                  token_given = t.1;
                                  user_positive = u;
                                  history_positive = m;
                                  keep_positive = k;
                                  anthropic_model_given =
                                      optional_variable_lem _ _ defaults_given.0;
                                  groq_model_given = optional_variable_lem _ _ defaults_given.1;
                                  db_path_absolute = d.0;
                                  prompt_path_absolute = p.0;
                                  backup_dir_absolute = b.0;
                                  prompt_readable = (text, read);
                                },
                              )))))))))

    load_from_lem : Outcome (IsValid host) (Fault host environ) (load_from host environ)
    unfolding load_from
    load_from_lem =
        let provider =
          host.lower (optional_variable environ (lit "LLM_PROVIDER") default_llm_provider) in
        elim (Bool-cases (mem_text provider supported_providers)) [
          | inl e ↦
              rw (load_from, e)
                (>>=-Outcome (api_keys_lem provider) (λ keys k.
                  >>=-Outcome (build_config_lem provider keys e k) (λ c v.
                    >>=-Outcome
                      (Outcome-self (read_system_prompt host c)
                        (λ x h. prompt-Fault c _ x v.0 refl h))
                      (λ text read. returns (v.1 text read)))))
          | inr e ↦ rw (load_from, e) (raises (unsupported provider refl e refl))
        ]

-- What is wrong with the start: the .env file cannot be read, or the environment has a fault.
pub data LoadFault (host : Host) (environ : Dict Text) (e : Exc) : Type 0 where
  unreadable_env : host.load_dotenv environ ≡ err e → LoadFault host environ e
  faulty :
      (d : Dict Text) → host.load_dotenv environ ≡ ok d → Fault host d e → LoadFault host environ e

faulty_outcome :
    (host : Host) (environ d : Dict Text) (out : Result Exc Config)
    → host.load_dotenv environ ≡ ok d
    → Outcome (IsValid host) (Fault host d) out
    → Outcome (IsValid host) (LoadFault host environ) out
faulty_outcome host environ d _ l (returns v) = returns v
faulty_outcome host environ d _ l (raises f) = raises (faulty d l f)

-- Whatever the environment, `load_config` either returns a valid configuration (its provider is
-- supported and has its key, the token and the models are given, the numbers are positive, the paths
-- absolute, the personality readable), or raises an exception that names what is wrong with the
-- environment, a fault of it that is really there, or lets through what reading the .env file raised.
-- It is assumed that Python reads back a natural number that it printed, and that an anchored path
-- is absolute.
pub load_config_lem :
    (host : Host) (environ : Dict Text)
    → ((k : ℕ) → host.int (decimal k) ≡ some (record { negative = false; size = k }))
    → ((path : Text) → host.is_absolute (host.anchor path) ≡ true)
    → Outcome (IsValid host) (LoadFault host environ) (load_config host environ)
unfolding load_config
load_config_lem host environ printed anchored = elim (Result-cases (host.load_dotenv environ)) [
  | inr (e, l) ↦ rw l (raises (unreadable_env l))
  | inl (d, l) ↦
      rw (load_config, l)
        (faulty_outcome host environ d _ l (load_from_lem host d printed anchored))
]
