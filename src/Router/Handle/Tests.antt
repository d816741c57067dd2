-- ===== src/Router/Handle/Tests.antt =====
-- Turns of core/router.py against a scripted model.
use emma.Common.{
  infinite, overflow, ◌⊎◌, other_error, ℕ, zero, suc, ◌+◌, ◌≤◌, ◌≡◌, refl, Bool, true, false, not,
  ◌&&◌, Option, none, some, List, [], ◌∷◌, ◌++◌, Text, lit, Dict, Result, ok, err, Exc, arith,
  is_empty, mem_text, text_eq, if◌then◌else◌,
}
use emma.Llm.{
  quota_exceeded, LlmError, unavailable, other, LlmResponse, text_block, tool_use_block, Message,
  ToolUse, WireBlock, user, assistant, text, tool_uses, to_assistant_message,
}
use emma.Llm.Json.{end}
use emma.Llm.Ladder.Errors.{KeepsContract}
use emma.Memory as memory
use emma.Memory.{InMemory, window}
use emma.Router.{Router, Tool, Schema, AssistantRequest, AssistantResponse, no_turns, tools_by_name}
use emma.Router.Tools.{switched_off, tool_schemas, execute_tool, system_prompt_now}
use emma.Router.Tools.Gate.{
  declared, names, tool_schemas-declared, CallOutcome, execute_tool_outcome,
}
use emma.Router.Loop.{rounds, run_agentic_loop, is_final, final_answer, execute_all}
use emma.Llm.Groq.{append_all}
use emma.Router.Loop.Dialect.{follows, follows-rounds}
use emma.Router.Loop.Protocol.{Exchanges, rounds-Exchanges}
use emma.Router.Loop.Bounds.{Counts, ceiling, run_agentic_loop_count}
use emma.Router.Handle.{Turn, handle}
use emma.Router.Handle.Answers.{Unroundable, handle_answers, handle_escapes}
use emma.Router.Handle.Isolated.{as_store, handle-isolated}
use emma.Memory.Contract.{sqlite_keeps}
use emma.Memory.Sqlite
use emma.Memory.Sqlite.{Sqlite}
use emma.Memory.Sqlite.Refines.{IsValid}
use emma.Router.Handle.Effects.{one_if, in_memory_store, handle_tally, handle_history}

-- A tool that echoes nothing and touches nothing.
abbrev quiet : Tool ℕ
quiet = record {
  name = lit "current_time";
  description = lit "the time";
  input_schema = end;
  run = λ arguments w. (ok (lit "sono le nove"), w);
}

-- The model asks for the tool once, and then answers. The world counts its calls.
abbrev scripted : ℕ → Result LlmError LlmResponse × ℕ
scripted zero = (
  ok (record {
    blocks = tool_use_block (lit "t1") (lit "current_time") end ∷ [];
    stop_reason = some (lit "tool_use");
  }),
  1,
)
scripted (suc n) = (
  ok (record {
    blocks = text_block (lit "Sono le nove.") ∷ [];
    stop_reason = some (lit "end_turn");
  }),
  suc (suc n),
)

abbrev router : Router ℕ
router = record {
  complete = λ system messages tools w. scripted w;
  system_prompt = lit "Sei Emma.";
  tools = quiet ∷ [];
  context_providers = [];
  tool_gate = none;
  max_tool_iterations = 5;
  now = λ w. w;
}

abbrev by_name : Dict (Tool ℕ)
by_name = (lit "current_time", quiet) ∷ []

indexed : tools_by_name router ≡ ok by_name
unfolding tools_by_name emma.Common.lookup emma.Common.insert
indexed = refl

abbrev request : AssistantRequest
request = record { text = lit "che ore sono?"; user_id = lit "7"; conversation_id = lit "42" }

abbrev before : Turn ℕ InMemory
before = record {
  stats = no_turns;
  memory = record { max_messages = 20; conversations = [] };
  world = 0;
}

abbrev answer : AssistantResponse
answer = record { text = lit "Sono le nove."; degraded = false; reason = none }

answered : (handle router by_name in_memory_store request before).0 ≡ ok answer
unfolding handle run_agentic_loop rounds is_final final_answer execute_all execute_tool switched_off
    tool_schemas system_prompt_now text tool_uses emma.Llm.texts_of emma.Llm.tool_uses_of lit
    emma.Common.text_eq emma.Common.join emma.Common.strip emma.Common.lstrip emma.Common.rstrip
    emma.Common.is_space mem_text emma.Common.lookup
answered = refl

contract :
    (system : Text) (messages : List Message) (tools : Option (List Schema)) (w : ℕ)
    → KeepsContract (router.complete system messages tools w).0
contract system messages tools zero = tt
contract system messages tools (suc n) = tt

handle_answers_example :
    ((a : AssistantResponse) × ((handle router by_name in_memory_store request before).0 ≡ ok a)
      × (is_empty a.text ≡ false))
    ⊎ (Unroundable router
        × ((x : Exc) × ((handle router by_name in_memory_store request before).0 ≡ err x)
            × ((handle router by_name in_memory_store request before).1.stats ≡ no_turns)))
handle_answers_example = handle_answers router by_name contract in_memory_store request before

-- A server that asks to come back at infinity: the handler raises.
abbrev never_again : Router ℕ
never_again = record router {
  complete = λ system messages tools w. (err (quota_exceeded [] (some (infinite false))), w);
}

no_rounding : (handle never_again by_name in_memory_store request before).0 ≡ err overflow
unfolding handle run_agentic_loop rounds system_prompt_now emma.Router.Tools.tool_schemas
    switched_off emma.Router.Tools.offered emma.Router.Handle.catch_llm emma.Router.quota_message
    emma.Common.is_below emma.Common.round_over
no_rounding = refl

abbrev broken : Exc
broken = record { kind = other_error; message = lit "list index out of range" }

abbrev broken_router : Router ℕ
broken_router = record router { complete = λ system messages tools w. (err (other broken), w) }

handle_escapes_example :
    ((handle broken_router by_name in_memory_store request before).0 ≡ err broken)
    × ((handle broken_router by_name in_memory_store request before).1.stats ≡ no_turns)
handle_escapes_example =
    handle_escapes broken_router by_name broken (λ system messages tools w. refl) in_memory_store
      request before (omega arith)

handle_tally_instance :
    ((handle router by_name in_memory_store request before).1.stats.turns ≡ 0 + 1)
    × ((handle router by_name in_memory_store request before).1.stats.degraded ≡ 0 + one_if false)
    × ((handle router by_name in_memory_store request before).1.stats.last_reason ≡ none)
handle_tally_instance = handle_tally router by_name in_memory_store request before answer answered

handle_history_example :
    memory.get_history (handle router by_name in_memory_store request before).1.memory (lit "42")
    ≡ (if text_eq (lit "42") (lit "42") && not false
        then window 20 (
            window 20 (
              memory.get_history before.memory (lit "42")
              ++ (record { role = user; content = lit "che ore sono?" } ∷ []))
            ++ (record { role = assistant; content = lit "Sono le nove." } ∷ []))
        else memory.get_history before.memory (lit "42"))
handle_history_example = handle_history router by_name request before answer answered (lit "42")

tool_schemas-declared_instance :
    mem_text (lit "current_time") (declared (tool_schemas router (lit "current_time" ∷ []))) ≡ (
      mem_text (lit "current_time") (names router.tools)
      && not (mem_text (lit "current_time") (lit "current_time" ∷ [])))
tool_schemas-declared_instance =
    tool_schemas-declared router (lit "current_time" ∷ []) (lit "current_time")

abbrev call : ToolUse
call = record { id = lit "t1"; name = lit "current_time"; input = end }

execute_tool_outcome_example :
    CallOutcome router by_name call 3 (execute_tool router by_name call 3)
execute_tool_outcome_example = execute_tool_outcome router by_name call 3

rounds-Exchanges_example :
    (n : ℕ) × (added : List Message) × Exchanges n added
    × (n ≤ 5)
    × ((rounds router by_name 5 (lit "Sei Emma.") [] 0).1 ≡ [] ++ added)
rounds-Exchanges_example = rounds-Exchanges router by_name 5 (lit "Sei Emma.") [] 0

scripted_counts : (w : ℕ) → (scripted w).1 ≡ w + 1
scripted_counts zero = omega arith
scripted_counts (suc n) = omega arith

counts : Counts router by_name (λ w. w)
unfolding switched_off execute_tool system_prompt_now emma.Common.lookup
counts = record {
  model = λ system messages tools w. scripted_counts w;
  gate = λ w. refl;
  tool = λ call w. ground arith;
  prompt = λ w. refl;
}

run_agentic_loop_count_example :
    ((run_agentic_loop router by_name [] 0).2 ≤ 0 + 5)
    × ((run_agentic_loop router by_name [] 0).0 ≡ ok ceiling
        → (run_agentic_loop router by_name [] 0).2 ≡ 0 + 5)
run_agentic_loop_count_example = run_agentic_loop_count router by_name (λ w. w) counts [] 0

follows-rounds_example :
    (added : List Message) × ((rounds router by_name 5 (lit "Sei Emma.") [] 0).1 ≡ [] ++ added)
    × (follows [] (append_all (λ fields. lit "{}") added) ≡ true)
follows-rounds_example = follows-rounds router by_name (λ fields. lit "{}") 5 (lit "Sei Emma.") [] 0

-- A database in which another conversation has said something.
abbrev table : Sqlite
table = record {
  max_messages = 2;
  rows = record { id = 4; conv_id = lit "9"; role = user; content = lit "ciao"; ts = 0 } ∷ [];
  last_id = 4;
  is_open = true;
}

abbrev stored : Turn ℕ Sqlite
stored = record { stats = no_turns; memory = table; world = 0 }

elsewhere : text_eq request.conversation_id (lit "9") ≡ false
unfolding text_eq lit
elsewhere = refl

handle-isolated_example :
    IsValid (handle router by_name (as_store sqlite_keeps (λ m. 5)) request stored).1.memory
    × (Sqlite.get_history
          (handle router by_name (as_store sqlite_keeps (λ m. 5)) request stored).1.memory
          (lit "9")
        ≡ Sqlite.get_history table (lit "9"))
handle-isolated_example =
    handle-isolated sqlite_keeps (λ m. 5) router by_name request (lit "9") elsewhere stored
      (record { opened = refl; ascending = (omega arith, omega arith) })
