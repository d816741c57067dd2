-- ===== src/Config.antt =====
-- config.py: the settings, read once from the environment.
-- What the interpreter's host gives is a parameter: the variables that python-dotenv adds, the reading of a
-- text as an integer, the paths and the file of the personality. A path is its text.
use emma.Common.{
  ℕ, ◌+◌, Bool, true, false, Option, none, some, List, [], ◌∷◌, ◌++◌, Text, lit, strip, text_eq,
  mem_text, lookup, Dict, is_empty, decimal, ◌==◌, ◌&&◌, ◌||◌, if◌then◌else◌, Result, ok, err, Exc,
  ◌>>=◌, config_error, runtime_error,
}
use emma.Facts.Tools.{Integer, print_integer}
pub mod Valid
pub mod Environment
mod Tests

-- What `read_text(encoding="utf-8")` does: the text, or an OSError or a UnicodeDecodeError with its words.
pub data Reading : Type 0 where
  contents : Text → Reading
  unreadable : Text → Reading
  not_utf8 : Text → Reading

pub record Host : Type 0 where
  -- The environment after `load_dotenv(..., override=False)`, or what it raises of a file that it
  -- cannot read.
  pub load_dotenv : Dict Text → Result Exc (Dict Text)
  pub lower : Text → Text
  -- `int(raw)`, or none for its ValueError.
  pub int : Text → Option Integer
  -- `Path(raw).expanduser()`, or none for its RuntimeError.
  pub expanduser : Text → Option Text
  pub is_absolute : Text → Bool
  -- `(PROJECT_ROOT / path).resolve()`
  pub anchor : Text → Text
  pub read_text : Text → Reading

abbrev pub supported_providers : List Text
supported_providers = lit "anthropic" ∷ lit "groq" ∷ []

abbrev pub default_llm_provider : Text
default_llm_provider = lit "anthropic"

abbrev pub default_anthropic_model : Text
default_anthropic_model = lit "claude-sonnet-4-6"

abbrev pub default_groq_model : Text
default_groq_model = lit "llama-3.3-70b-versatile"

abbrev pub default_max_history_messages : ℕ
default_max_history_messages = 20

abbrev pub default_system_prompt_path : Text
default_system_prompt_path = lit "prompts/system_prompt.txt"

abbrev pub default_memory_db_path : Text
default_memory_db_path = lit "data/emma.db"

abbrev pub default_backup_dir : Text
default_backup_dir = lit "/mnt/backup/emma"

abbrev pub default_backup_keep : ℕ
default_backup_keep = 14

pub record Config : Type 0 where
  pub llm_provider : Text
  pub anthropic_api_key : Text
  pub anthropic_model : Text
  pub groq_api_key : Text
  pub groq_model : Text
  pub telegram_bot_token : Text
  pub telegram_allowed_user_id : ℕ
  pub max_history_messages : ℕ
  pub memory_db_path : Text
  pub system_prompt_path : Text
  pub backup_dir : Text
  pub backup_keep : ℕ

-- The errors of the module, by what they say.
abbrev pub config_exc : Text → Exc
config_exc message = record { kind = config_error; message = message }

unfoldable pub missing_variable : Text → Exc
missing_variable name = config_exc (
    lit "required environment variable "
    ++ (name ++ lit " is missing or empty; copy .env.example to .env and fill it in"))

unfoldable pub not_integer : Text → Text → Exc
not_integer name raw = config_exc (name ++ (lit " must be an integer, got '" ++ (raw ++ lit "'")))

unfoldable pub not_positive : Text → Integer → Exc
not_positive name value =
    config_exc (name ++ (lit " must be greater than zero, got " ++ print_integer value))

unfoldable pub unsupported_provider : Text → Exc
unsupported_provider provider =
    config_exc
      (lit "LLM_PROVIDER must be one of ('anthropic', 'groq'), got '" ++ (provider ++ lit "'"))

unfoldable pub prompt_unreadable : Text → Text → Exc
prompt_unreadable path why =
    config_exc (
      lit "cannot read the system prompt at '" ++ (path ++ (lit "' (SYSTEM_PROMPT_PATH): " ++ why)))

unfoldable pub prompt_not_utf8 : Text → Text → Exc
prompt_not_utf8 path why = config_exc (
    lit "the system prompt at '"
    ++ (path ++ (lit "' (SYSTEM_PROMPT_PATH) is not valid UTF-8: " ++ why)))

abbrev pub no_home : Exc
no_home = record { kind = runtime_error; message = lit "Could not determine home directory." }

-- `Config.read_system_prompt`
unfoldable pub read_system_prompt : Host → Config → Result Exc Text
read_system_prompt host c = elim (host.read_text c.system_prompt_path) [
  | contents text ↦ ok (strip text)
  | unreadable why ↦ err (prompt_unreadable c.system_prompt_path why)
  | not_utf8 why ↦ err (prompt_not_utf8 c.system_prompt_path why)
]

-- `os.environ.get(name, "").strip()`
unfoldable pub value_of : Dict Text → Text → Text
value_of environ name = elim (lookup name environ) [ none ↦ strip [] | some v ↦ strip v ]

-- `_require`
unfoldable pub require_variable : Dict Text → Text → Result Exc Text
require_variable environ name =
    if is_empty (value_of environ name)
    then err (missing_variable name)
    else ok (value_of environ name)

-- `_optional`
unfoldable pub optional_variable : Dict Text → Text → Text → Text
optional_variable environ name default =
    if is_empty (value_of environ name) then default else value_of environ name

-- `_positive_int`
unfoldable pub positive_int : Host → Text → Text → Result Exc ℕ
positive_int host name raw = elim (host.int raw) [
  | none ↦ err (not_integer name raw)
  | some value ↦
      if value.negative || (value.size == 0) then err (not_positive name value) else ok value.size
]

-- `_resolve`
unfoldable pub resolve : Host → Text → Result Exc Text
resolve host raw = elim (host.expanduser raw) [
  | none ↦ err no_home
  | some path ↦ ok (if host.is_absolute path then path else host.anchor path)
]

-- The two keys, the one of the chosen provider required.
unfoldable pub api_keys : Dict Text → Text → Result Exc (Text × Text)
api_keys environ provider =
    if text_eq provider (lit "anthropic")
    then (require_variable environ (lit "ANTHROPIC_API_KEY") >>= λ key.
        ok (key, optional_variable environ (lit "GROQ_API_KEY") []))
    else (require_variable environ (lit "GROQ_API_KEY") >>= λ key.
        ok (optional_variable environ (lit "ANTHROPIC_API_KEY") [], key))

-- `Config(...)`, its arguments in the order in which they are computed
unfoldable pub build_config : Host → Dict Text → Text → Text × Text → Result Exc Config
build_config host environ provider (anthropic_key, groq_key) = do
  token ← require_variable environ (lit "TELEGRAM_BOT_TOKEN")
  raw_user ← require_variable environ (lit "TELEGRAM_ALLOWED_USER_ID")
  user ← positive_int host (lit "TELEGRAM_ALLOWED_USER_ID") raw_user
  messages ← positive_int host (lit "MAX_HISTORY_MESSAGES") (
      optional_variable environ (lit "MAX_HISTORY_MESSAGES") (decimal default_max_history_messages))
  db_path ← resolve host (optional_variable environ (lit "MEMORY_DB_PATH") default_memory_db_path)
  prompt_path ←
      resolve host (optional_variable environ (lit "SYSTEM_PROMPT_PATH") default_system_prompt_path)
  backup ← resolve host (optional_variable environ (lit "BACKUP_DIR") default_backup_dir)
  keep ←
      positive_int host (lit "BACKUP_KEEP")
        (optional_variable environ (lit "BACKUP_KEEP") (decimal default_backup_keep))
  ok (record {
    llm_provider = provider;
    anthropic_api_key = anthropic_key;
    anthropic_model = optional_variable environ (lit "ANTHROPIC_MODEL") default_anthropic_model;
    groq_api_key = groq_key;
    groq_model = optional_variable environ (lit "GROQ_MODEL") default_groq_model;
    telegram_bot_token = token;
    telegram_allowed_user_id = user;
    max_history_messages = messages;
    memory_db_path = db_path;
    system_prompt_path = prompt_path;
    backup_dir = backup;
    backup_keep = keep;
  })

unfoldable pub load_from : Host → Dict Text → Result Exc Config
unfolding api_keys build_config
load_from host environ =
    let provider =
      host.lower (optional_variable environ (lit "LLM_PROVIDER") default_llm_provider) in
    if mem_text provider supported_providers
    then (api_keys environ provider >>= λ keys.
        build_config host environ provider keys >>= λ config.
        read_system_prompt host config >>= λ prompt. ok config)
    else err (unsupported_provider provider)

unfoldable pub load_config : Host → Dict Text → Result Exc Config
load_config host environ = host.load_dotenv environ >>= load_from host
