-- ===== src/App/Wiring/Exit.antt =====
-- How `main` of main.py ends.
use emma.Common.{
  ℕ, ◌≡◌, ◌⊎◌, refl, ap, ◌∙◌, inl, inr, true, false, Option, some, List, Text, lit, text_eq, Dict,
  decimal, ◌<◌, Result, ok, err, Exc, config_error, Outcome-ok, Outcome-err, Result-cases,
  Option-cases, Bool-cases, arith,
}
use emma.Config.{
  Host, Config, load_config, read_system_prompt, no_home, missing_variable, not_integer,
  not_positive, unsupported_provider, prompt_unreadable, prompt_not_utf8,
}
use emma.Config.Valid
use emma.Config.Valid.{
  Fault, unsupported, missing, malformed, too_small, homeless, prompt_missing, prompt_garbled,
  load_config_lem,
}
use emma.Retry.{default_max_attempts}
use emma.Llm.Clients.{Client, default_max_tokens, no_groq, anthropic_client, groq_client}
use emma.Memory.Sqlite.{Sqlite, sqlite, Row}
use emma.App.Catalogue.{Outside}
use emma.App.Wiring.{
  Providers, Application, Complete, choose_model, anthropic_with, groq_with, anthropic_model,
  groq_model, router_of, create_app, exit_code, run_main, Serving, Ended, exited, raised, served,
}
use emma.App.Wiring.Distinct.{all_tools-registered}

-- A fault is one of the configuration, or a home directory that cannot be found.
Fault-kind :
    {host : Host} {environ : Dict Text} {e : Exc}
    → Fault host environ e
    → (e.kind ≡ config_error) ⊎ (e ≡ no_home)
unfolding missing_variable not_integer not_positive unsupported_provider prompt_unreadable
    prompt_not_utf8
Fault-kind (unsupported provider p m e) = inl (ap (λ x. x.kind) e)
Fault-kind (missing name m v e) = inl (ap (λ x. x.kind) e)
Fault-kind (malformed name m g i e) = inl (ap (λ x. x.kind) e)
Fault-kind (too_small name value m g i n e) = inl (ap (λ x. x.kind) e)
Fault-kind (homeless name default m x e) = inr e
Fault-kind (prompt_missing path why p r e) = inl (ap (λ x. x.kind) e)
Fault-kind (prompt_garbled path why p r e) = inl (ap (λ x. x.kind) e)

sqlite_lem :
    (n : ℕ) (rows : List Row) (last_id : ℕ) → 0 < n → (s : Sqlite) × (sqlite n rows last_id ≡ ok s)
unfolding sqlite
sqlite_lem n rows last_id h =
    (record { max_messages = n; rows = rows; last_id = last_id; is_open = false }, ground arith)

abbrev client_named : Text → Text → Client
client_named name model = record {
  model = model;
  max_tokens = default_max_tokens;
  retry = record { name = name; max_attempts = default_max_attempts; backoff_seconds = 1 };
}

-- Three attempts are enough for the constructors: the choice fails only for want of the groq package.
chosen :
    (providers : Providers) (c : Config)
    → ((m : Complete × Text) × (choose_model providers c ≡ ok m))
      ⊎ ((text_eq c.llm_provider (lit "groq") ≡ true)
          × (providers.groq_installed ≡ false)
          × (choose_model providers c ≡ err no_groq))
unfolding choose_model anthropic_model groq_model anthropic_client groq_client
chosen providers c = elim (Bool-cases (text_eq c.llm_provider (lit "groq"))) [
  | inr e ↦
      let client = client_named (lit "Anthropic") c.anthropic_model in
      inl (anthropic_with providers c client, rw (choose_model, e) refl)
  | inl e ↦ elim (Bool-cases providers.groq_installed) [
    | inl i ↦
        let client = client_named (lit "Groq") c.groq_model in
        inl (groq_with providers c client, rw (choose_model, e, groq_model, groq_client, i) refl)
    | inr i ↦ inr (e, i, rw (choose_model, e, groq_model, groq_client, i) refl)
  ]
]

module _ (host : Host) (o : Outside) (providers : Providers) (build_telegram : Text → Option Exc)
    (database : List Row × ℕ) where
  -- The ways in which building the application of a configuration can go.
  pub data Built (c : Config) (out : Result Exc Application) : Type 0 where
    whole : (app : Application) → out ≡ ok app → Built c out
    no_package :
        text_eq c.llm_provider (lit "groq") ≡ true
        → providers.groq_installed ≡ false
        → out ≡ err no_groq
        → Built c out
    no_adapter :
        (e : Exc) → build_telegram c.telegram_bot_token ≡ some e → out ≡ err e → Built c out

  build_with :
      (c : Config) (prompt : Text) (client : Complete) (model : Text)
      → Valid.IsValid host c
      → read_system_prompt host c ≡ ok prompt
      → choose_model providers c ≡ ok (client, model)
      → Built c (create_app host o providers build_telegram database c)
  unfolding create_app
  build_with c prompt client model v p m =
      let (memory, s) =
        sqlite_lem c.max_history_messages database.0 database.1 v.history_positive in
      let (index, t, found, guarded) = all_tools-registered o client prompt (λ w. w.now) in
      elim (Option-cases (build_telegram c.telegram_bot_token)) [
        | inl e ↦
            whole
              (record {
                router = router_of o client prompt (λ w. w.now);
                memory = memory;
                active_model = model;
              })
              (rw (create_app, p, m, s, t, e) refl)
        | inr (x, e) ↦ no_adapter x e (rw (create_app, p, m, s, t, e) refl)
      ]

  create_app_lem :
      (c : Config)
      → Valid.IsValid host c
      → Built c (create_app host o providers build_telegram database c)
  unfolding create_app
  create_app_lem c v =
      let (prompt, p) = v.prompt_readable in
      elim (chosen providers c) [
        | inl (m, e) ↦ build_with c prompt m.0 m.1 v p e
        | inr (g, i, e) ↦ no_package g i (rw (create_app, p, e) refl)
      ]

-- How `main` ends, with what made it end so.
pub data Ending (host : Host) (o : Outside) (providers : Providers)
    (build_telegram : Text → Option Exc) (database : List Row × ℕ) (serve : Application → Serving)
    (environ : Dict Text) (out : Ended) : Type 0 where
  -- The configuration is valid and the application was built and handed to uvicorn.
  served_app :
      (c : Config) (app : Application)
      → load_config host environ ≡ ok c
      → Valid.IsValid host c
      → create_app host o providers build_telegram database c ≡ ok app
      → out ≡ served (serve app)
      → Ending host o providers build_telegram database serve environ out
  -- The environment has a fault, which a ConfigError tells of.
  misconfigured :
      (d : Dict Text) (e : Exc)
      → host.load_dotenv environ ≡ ok d
      → Fault host d e
      → load_config host environ ≡ err e
      → e.kind ≡ config_error
      → out ≡ exited 2
      → Ending host o providers build_telegram database serve environ out
  -- The groq package is asked for and is not there.
  no_package :
      providers.groq_installed ≡ false
      → out ≡ exited 2
      → Ending host o providers build_telegram database serve environ out
  -- A home directory cannot be found.
  no_home_directory :
      load_config host environ ≡ err no_home
      → out ≡ raised no_home
      → Ending host o providers build_telegram database serve environ out
  -- The .env file cannot be read.
  unreadable_env :
      (e : Exc)
      → host.load_dotenv environ ≡ err e
      → out ≡ exit_code serve (err e)
      → Ending host o providers build_telegram database serve environ out
  -- The library refuses the token.
  no_adapter :
      (c : Config) (e : Exc)
      → load_config host environ ≡ ok c
      → build_telegram c.telegram_bot_token ≡ some e
      → out ≡ exit_code serve (err e)
      → Ending host o providers build_telegram database serve environ out

module _ (host : Host) (o : Outside) (providers : Providers) (build_telegram : Text → Option Exc)
    (database : List Row × ℕ) (serve : Application → Serving) (environ : Dict Text) where
  exit_code-config_error : (e : Exc) → e.kind ≡ config_error → exit_code serve (err e) ≡ exited 2
  unfolding exit_code
  exit_code-config_error e k = rw (exit_code, k) refl

  home_raised : exit_code serve (err no_home) ≡ raised no_home
  unfolding exit_code
  home_raised = refl

  abbrev MainEnds : Ended → Type 0
  MainEnds out = Ending host o providers build_telegram database serve environ out

  Built-Ending :
      (c : Config)
      → load_config host environ ≡ ok c
      → Valid.IsValid host c
      → Built host o providers build_telegram database c
          (create_app host o providers build_telegram database c)
      → MainEnds (run_main host o providers build_telegram database serve environ)
  unfolding run_main exit_code
  Built-Ending c l v (Built.whole app e) = Ending.served_app c app l v e (rw (run_main, l, e) refl)
  Built-Ending c l v (Built.no_package g i e) = Ending.no_package i (rw (run_main, l, e) refl)
  Built-Ending c l v (Built.no_adapter x b e) = Ending.no_adapter c x l b (rw (run_main, l, e) refl)

  unbuilt_ending :
      (e : Exc)
      → load_config host environ ≡ err e
      → Valid.LoadFault host environ e
      → MainEnds (run_main host o providers build_telegram database serve environ)
  unfolding run_main
  unbuilt_ending e l (Valid.unreadable_env u) = Ending.unreadable_env e u (rw (run_main, l) refl)
  unbuilt_ending e l (Valid.faulty d u fault) = elim (Fault-kind fault) [
    | inl k ↦ Ending.misconfigured d e u fault l k (rw (run_main, l) (exit_code-config_error e k))
    | inr h ↦
        Ending.no_home_directory (l ∙ ap err h)
          (rw (run_main, l) (ap (λ x. exit_code {A = Application} serve (err x)) h ∙ home_raised))
  ]

-- `main` ends in one of six ways: as serving the application of a valid configuration ends, with 0 if
-- uvicorn returns, and else with the code or the exception of uvicorn; with 2 where the environment
-- has a fault that a ConfigError tells of; with 2 where the groq package is missing; with the
-- exception of a home directory that cannot be found; or with what python-dotenv raises of the .env
-- file or the Telegram library of the token, as the handlers of `main` take it. So the stores and
-- the router, which gets the tools with their names, raise nothing when they are built. It is assumed
-- that Python reads back a natural number that it printed, and that an anchored path is absolute.
pub run_main_lem :
    (host : Host) (o : Outside) (providers : Providers) (build_telegram : Text → Option Exc)
    (database : List Row × ℕ) (serve : Application → Serving) (environ : Dict Text)
    → ((k : ℕ) → host.int (decimal k) ≡ some (record { negative = false; size = k }))
    → ((path : Text) → host.is_absolute (host.anchor path) ≡ true)
    → Ending host o providers build_telegram database serve environ
        (run_main host o providers build_telegram database serve environ)
run_main_lem host o providers build_telegram database serve environ printed anchored =
    let sound = load_config_lem host environ printed anchored in
    elim (Result-cases (load_config host environ)) [
      | inl (c, l) ↦
          let v = Outcome-ok sound c l in
          Built-Ending host o providers build_telegram database serve environ c l v
            (create_app_lem host o providers build_telegram database c v)
      | inr (e, l) ↦
          unbuilt_ending host o providers build_telegram database serve environ e l
            (Outcome-err sound e l)
    ]
