-- ===== src/App/Turns/Tests.antt =====
-- Two turns of the assistant in which the model has a fact remembered, and the theorem on the invariants applied there.
use emma.Common.{ℕ, ◌≡◌, refl, none, some, List, [], ◌∷◌, Text, lit, Dict, ok, arith}
use emma.Llm.{tool_use_block}
use emma.Llm.Json.{field, str, end}
use emma.Memory.{InMemory}
use emma.Router.{Tool, AssistantRequest, no_turns}
use emma.Router.Handle.{Turn}
use emma.Router.Handle.Effects.{in_memory_store}
use emma.App.Catalogue.{Assistant}
use emma.App.Wiring.{Complete, all_tools}
use emma.App.Wiring.Distinct.{index_of, tools_by_name_lem}
use emma.App.Tests.{outside, assistant}
use emma.App.Turns.Kept.{AllValid, turns, turns-AllValid}

-- A model that has the same fact remembered in every round.
abbrev insistent : Complete
insistent system messages tools w = (
  ok (record {
    blocks =
        tool_use_block (lit "c1") (lit "remember_fact")
          (field (lit "fact") (str (lit "la password del wifi e' X")) end)
        ∷ [];
    stop_reason = some (lit "tool_use");
  }),
  w,
)

abbrev request : AssistantRequest
request = record { text = lit "ricorda la password"; user_id = lit "7"; conversation_id = lit "c" }

abbrev start : Turn Assistant InMemory
start = record {
  stats = no_turns;
  memory = record { max_messages = 20; conversations = [] };
  world = assistant;
}

assistant-AllValid : AllValid outside.lower assistant
unfolding emma.Facts.active_facts emma.Common.select
assistant-AllValid = record {
  tasks_hold = record { opened = refl; ascending = omega arith; valid_tasks = tt };
  facts_hold = record {
    ascending = omega arith;
    sentences = tt;
    room = omega arith;
    distinct = tt;
  };
  switches_hold = tt;
}

abbrev index : Dict (Tool Assistant)
index = index_of (all_tools outside)

abbrev both : List AssistantRequest
both = request ∷ request ∷ []

turns-AllValid_example :
    AllValid outside.lower
      (turns outside insistent [] (λ w. w.now) index in_memory_store both start).world
turns-AllValid_example =
    turns-AllValid outside insistent [] (λ w. w.now) index in_memory_store
      (tools_by_name_lem outside insistent [] (λ w. w.now)) (λ system messages schemas w h. h) both
      start assistant-AllValid
