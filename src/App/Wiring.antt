-- ===== src/App/Wiring.antt =====
-- `create_app` and `main` of main.py: the choice of the model, the stores, the tools and the router.
use emma.Common.{
  Float, ℕ, Bool, true, false, Option, none, some, Dict, List, [], ◌∷◌, ◌++◌, Text, lit, text_eq,
  map, Result, ok, err, Exc, config_error, missing_dependency, if◌then◌else◌, ◌>>=◌,
}
use emma.Retry.{default_max_attempts}
use emma.Llm.{LlmError, LlmResponse, Message}
use emma.Llm.Json.{Json, Fields}
use emma.Llm.Ladder.{Failure, Env}
use emma.Llm.Clients.{
  Client, AnthropicPayload, AnthropicReply, GroqPayload, GroqCompletion, default_max_tokens,
  anthropic_client, groq_client, anthropic_complete, groq_complete,
}
use emma.Config.{Host, Config, load_config, read_system_prompt}
use emma.Memory.Sqlite
use emma.Memory.Sqlite.{Sqlite, sqlite, Row}
use emma.Router.{Router, Tool, Schema, default_max_tool_iterations, tools_by_name}
use emma.Development.Context.{context_line}
use emma.Facts.Context.{snapshot}
use emma.App.Catalogue.{
  Assistant, Outside, gate, request_development, work_status, answer_question, abandon_development,
  running_version, list_tools, remember_fact, forget_fact, current_time, remove_tool, enable_tool,
}
pub mod Distinct
pub mod Exit

abbrev pub development_tools : Outside → List (Tool Assistant)
development_tools o =
    request_development o ∷ work_status o ∷ answer_question o ∷ abandon_development o ∷ []

abbrev pub introspection_tools : Outside → List (Tool Assistant)
introspection_tools o = running_version o ∷ []

abbrev pub facts_tools : Outside → List (Tool Assistant)
facts_tools o = remember_fact o ∷ forget_fact o ∷ []

abbrev pub clock_tools : Outside → List (Tool Assistant)
clock_tools o = current_time o ∷ []

-- `names` is what `describes` told the remover.
abbrev pub toolstate_tools : Outside → List Text → List (Tool Assistant)
toolstate_tools o names = remove_tool o names ∷ enable_tool o ∷ []

-- `all_tools`, less the inventory
unfoldable pub other_tools : Outside → List Text → List (Tool Assistant)
other_tools o names =
    development_tools o
    ++ (introspection_tools o ++ (facts_tools o ++ (clock_tools o ++ toolstate_tools o names)))

-- The tuple before `describes` was called: names and descriptions do not change by it.
unfoldable pub undescribed : Outside → List (Tool Assistant)
unfolding other_tools
undescribed o = other_tools o [] ++ (list_tools [] ∷ [])

unfoldable pub all_tools : Outside → List (Tool Assistant)
unfolding other_tools undescribed
all_tools o = other_tools o (map (λ t. t.name) (undescribed o)) ++ (list_tools (undescribed o) ∷ [])

-- What `complete` is to the router.
abbrev pub Complete : Type 0
Complete =
    Text → List Message → Option (List Schema) → Assistant → Result LlmError LlmResponse × Assistant

-- The two services, by the key: what a payload comes to in the world. With the groq package, Python's float of a
-- header, and its json module.
pub record Providers : Type 0 where
  pub anthropic :
      (key : Text) → AnthropicPayload → Assistant → Result Failure AnthropicReply × Assistant
  pub groq : (key : Text) → GroqPayload → Assistant → Result Failure GroqCompletion × Assistant
  -- Whether the groq package is there to import.
  pub groq_installed : Bool
  pub float_of : Text → Option Float
  pub dumps : Fields → Text
  pub loads : Text → Option Json

-- A call in the world of the router, which keeps no trace of the attempts.
abbrev pub in_world :
    (Env Assistant → Result LlmError LlmResponse × Env Assistant)
    → Assistant
    → Result LlmError LlmResponse × Assistant
in_world call w =
    let (outcome, env) = call (record { world = w; trace = [] }) in (outcome, env.world)

abbrev pub anthropic_with : Providers → Config → Client → Complete × Text
anthropic_with providers c client = (
  (λ system messages tools. in_world (
      anthropic_complete providers.float_of (providers.anthropic c.anthropic_api_key) client system
        messages tools)),
  c.anthropic_model,
)

abbrev pub groq_with : Providers → Config → Client → Complete × Text
groq_with providers c client = (
  (λ system messages tools. in_world (
      groq_complete providers.float_of providers.dumps providers.loads
        (providers.groq c.groq_api_key) client system messages tools)),
  c.groq_model,
)

-- DEFAULT_BACKOFF_SECONDS is one second.
unfoldable pub anthropic_model : Providers → Config → Result Exc (Complete × Text)
unfolding anthropic_client
anthropic_model providers c =
    anthropic_client c.anthropic_model default_max_tokens default_max_attempts 1 >>= λ client.
    ok (anthropic_with providers c client)

unfoldable pub groq_model : Providers → Config → Result Exc (Complete × Text)
unfolding groq_client
groq_model providers c =
    groq_client providers.groq_installed c.groq_model default_max_tokens default_max_attempts 1
    >>= λ client. ok (groq_with providers c client)

-- The branch on the provider: the client with the model it is for.
unfoldable pub choose_model : Providers → Config → Result Exc (Complete × Text)
unfolding anthropic_model groq_model
choose_model providers c =
    if text_eq c.llm_provider (lit "groq")
    then groq_model providers c
    else anthropic_model providers c

unfoldable pub router_of : Outside → Complete → Text → (Assistant → ℕ) → Router Assistant
unfolding all_tools
router_of o complete system_prompt now = record {
  complete = complete;
  system_prompt = system_prompt;
  tools = all_tools o;
  context_providers = (λ w. (context_line w.tasks, w)) ∷ (λ w. (snapshot w.facts, w)) ∷ [];
  tool_gate = some gate;
  max_tool_iterations = default_max_tool_iterations;
  now = now;
}

-- What is built. The stores are not open yet.
pub record Application : Type 0 where
  pub router : Router Assistant
  pub memory : Sqlite
  pub active_model : Text

-- `create_app`: `build_telegram` is what building the adapter of a token raises, if anything, and
-- `database` the rows of the file with the last id that it gave out.
unfoldable pub create_app :
    Host
    → Outside
    → Providers
    → (Text → Option Exc)
    → List Row × ℕ
    → Config
    → Result Exc Application
unfolding choose_model router_of
create_app host o providers build_telegram database c = do
  prompt ← read_system_prompt host c
  model ← choose_model providers c
  memory ← sqlite c.max_history_messages database.0 database.1
  index ← tools_by_name (router_of o model.0 prompt (λ w. w.now))
  elim (build_telegram c.telegram_bot_token) [
    | some e ↦ err e
    | none ↦ ok (record {
      router = router_of o model.0 prompt (λ w. w.now);
      memory = memory;
      active_model = model.1;
    })
  ]

-- What `uvicorn.run` comes to: it returns, ends the process with a code of its own, or raises.
pub data Serving : Type 0 where
  returned : Serving
  exits : ℕ → Serving
  fails : Exc → Serving

-- How the process ends: with an exit code, or with the traceback of an exception.
pub data Ended : Type 0 where
  exited : ℕ → Ended
  raised : Exc → Ended

-- What follows `uvicorn.run`.
unfoldable pub served : Serving → Ended
served returned = exited 0
served (exits code) = exited code
served (fails e) = raised e

-- What is raised in the `try` is caught if it is one of two classes.
unfoldable pub exit_code : {A : Type 0} → (A → Serving) → Result Exc A → Ended
unfolding served
exit_code serve (ok app) = served (serve app)
exit_code serve (err e) = elim e.kind [
  | config_error ↦ exited 2
  | missing_dependency ↦ exited 2
  | _ ↦ raised e
]

-- `raise SystemExit(main())`
unfoldable pub run_main :
    Host
    → Outside
    → Providers
    → (Text → Option Exc)
    → List Row × ℕ
    → (Application → Serving)
    → Dict Text
    → Ended
unfolding exit_code create_app
run_main host o providers build_telegram database serve environ =
    exit_code serve
      (load_config host environ >>= create_app host o providers build_telegram database)
