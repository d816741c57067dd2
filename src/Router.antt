-- ===== src/Router.antt =====
-- core/router.py: the canonical request and response, the tally of turns, the fallbacks and what
-- the router is built from. The model, the tools, the gate and the context providers are functions
-- of a world `W` that they may change; the conversation store has a state `M` of its own.
pub mod Tools
pub mod Loop
pub mod Handle
use emma.Common.{
  Float, is_below, round_over, map_ok, value_error, ℕ, ◌+◌, Bool, true, false, Option, none, some,
  List, [], ◌∷◌, ◌++◌, Text, lit, decimal, round_div, text_eq, Dict, lookup, insert, Result, ok,
  err, Exc, ltb, if◌then◌else◌, ◌>>=◌,
}
use emma.Llm.{LlmError, LlmResponse, Message}
use emma.Llm.Json.{Fields}
use emma.Memory.{StoredMessage}

pub record AssistantRequest : Type 0 where
  pub text : Text
  pub user_id : Text
  pub conversation_id : Text

pub record AssistantResponse : Type 0 where
  pub text : Text
  pub degraded : Bool
  pub reason : Option Text

-- The `Tool` protocol.
pub record Tool (W : Type 0) : Type 0 where
  pub name : Text
  pub description : Text
  pub input_schema : Fields
  pub run : Fields → W → Result Exc Text × W

-- A tool declaration, as `_tool_schemas` builds it for the API.
pub record Schema : Type 0 where
  pub name : Text
  pub description : Text
  pub input_schema : Fields

-- The fields of `Router`. `now` is `time.time()`, in ticks.
pub record Router (W : Type 0) : Type 0 where
  pub complete : Text → List Message → Option (List Schema) → W → Result LlmError LlmResponse × W
  pub system_prompt : Text
  pub tools : List (Tool W)
  pub context_providers : List (W → Result Exc Text × W)
  pub tool_gate : Option (W → Result Exc (List Text) × W)
  pub max_tool_iterations : ℕ
  pub now : W → ℕ

-- DEFAULT_MAX_TOOL_ITERATIONS
abbrev pub default_max_tool_iterations : ℕ
default_max_tool_iterations = 5

-- The `ConversationMemory` interface, as far as the router calls it.
pub record Memory (M : Type 0) : Type 0 where
  pub get_history : Text → M → Result Exc (List StoredMessage) × M
  pub append : Text → StoredMessage → M → Result Exc (Unit {0}) × M

unfoldable pub fallback_unavailable : Text
fallback_unavailable =
    lit "Non riesco a contattare il cervello in questo momento, riprova tra poco."

unfoldable pub fallback_quota : Text
fallback_quota =
    lit "Ho raggiunto il limite di richieste verso il modello. "
    ++ lit "Non e' un guasto: riprovare adesso non aiuta."

-- `round` raises for an infinity and for nan.
unfoldable pub quota_message : Option Float → Result Exc Text
unfolding round_over is_below
quota_message none = ok (fallback_quota ++ lit " Riprova piu' tardi.")
quota_message (some retry_after) =
    if is_below retry_after 90
    then map_ok (λ n. fallback_quota ++ (lit " Riprova fra circa " ++ (n ++ lit " secondi.")))
        (round_over retry_after 1)
    else map_ok (λ n. fallback_quota ++ (lit " Riprova fra circa " ++ (n ++ lit " minuti.")))
        (round_over retry_after 60)

unfoldable pub fallback_empty : Text
fallback_empty = lit "Non ho una risposta da darti su questo, riprova a chiedermelo."

unfoldable pub fallback_too_many_steps : Text
fallback_too_many_steps =
    lit "Mi sto perdendo in troppi passaggi per questa richiesta, riformulala pure."

pub record TurnStats : Type 0 where
  pub turns : ℕ
  pub degraded : ℕ
  pub last_reason : Option Text
  pub last_at : Option ℕ

abbrev pub no_turns : TurnStats
no_turns = record { turns = 0; degraded = 0; last_reason = none; last_at = none }

unfoldable pub record_turn : Option Text → ℕ → TurnStats → TurnStats
record_turn none now s = record s { turns = s.turns + 1 }
record_turn (some reason) now s = record s {
  turns = s.turns + 1;
  degraded = s.degraded + 1;
  last_reason = some reason;
  last_at = some now;
}

-- `_degrade`, less its log line
unfoldable pub degrade : Text → Text → AssistantResponse
degrade reason text = record { text = text; degraded = true; reason = some reason }

abbrev pub answer_with : Text → AssistantResponse
answer_with text = record { text = text; degraded = false; reason = none }

-- The loop of `__post_init__`, from the index made so far.
unfoldable pub index_tools :
    {W : Type 0} → List (Tool W) → Dict (Tool W) → Result Exc (Dict (Tool W))
index_tools [] by_name = ok by_name
index_tools (tool ∷ tools) by_name = elim (lookup tool.name by_name) [
  | none ↦ index_tools tools (insert tool.name tool by_name)
  | some earlier ↦
      err (record { kind = value_error; message = lit "duplicate tool name: " ++ tool.name })
]

-- `_tools_by_name` of a new router, or the ValueError.
unfoldable pub tools_by_name : {W : Type 0} → Router W → Result Exc (Dict (Tool W))
unfolding index_tools
tools_by_name r = index_tools r.tools []
