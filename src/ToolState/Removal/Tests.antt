-- ===== src/ToolState/Removal/Tests.antt =====
-- Runs of tools/toolstate at concrete inputs, and its theorems applied there.
use emma.Common.{
  ℕ, ◌≡◌, refl, ◌⊎◌, inl, inr, Bool, true, false, none, some, List, [], ◌∷◌, Text, lit, mem_text,
  Result, ok, err, Exc, arith,
}
use emma.Llm.Json.{Json, str, end, field, Fields}
use emma.Tasks.{TaskStore}
use emma.Router.{Router, Tool}
use emma.Router.Tools.{switched_off, tool_schemas}
use emma.Router.Tools.Gate.{declared}
use emma.ToolState
use emma.ToolState.{ToolStateStore, disabled}
use emma.ToolState.Rows.{Operation, steps, protected-declared, enable-disable}
use emma.ToolState.Removal.{Desk, argument, run_remove, in_words}
use emma.ToolState.Removal.Stages.{Stages, run_remove-Stages}
use emma.ToolState.Removal.Once.{filed_once}

abbrev all_on : ToolStateStore
all_on = record { rows = []; is_open = true }

abbrev weather : Text
weather = lit "meteo"

abbrev without_weather : ToolStateStore
without_weather = record {
  rows = record { name = weather; since = 1000; reason = [] } ∷ [];
  is_open = true;
}

abbrev no_tasks : TaskStore
no_tasks = record { tasks = []; last_id = 6; heartbeat = none; is_open = true }

abbrev desk : Desk
desk = record { state = without_weather; tasks = no_tasks }

abbrev please : Fields
please = field (lit "name") (str (lit "meteo ")) end

abbrev show : Json → Text
show value = lit "[...]"

abbrev registered : List Text
registered = lit "list_tools" ∷ weather ∷ []

ten_minutes : in_words 600 ≡ lit "10 minuti"
unfolding in_words lit emma.Common.round_div emma.Common.decimal
ten_minutes = refl

-- An hour later the job is filed, under the next number.
filed_number : (run_remove show registered please 4600 desk).1.tasks.last_id ≡ 7
unfolding run_remove argument lit mem_text emma.Common.strip emma.Common.lstrip emma.Common.rstrip
    emma.Common.is_space emma.Common.text_eq emma.Common.any emma.Llm.Json.get emma.Common.select
    emma.ToolState.disable emma.ToolState.insert_or_ignore emma.ToolState.disabled_since
    emma.ToolState.since_of emma.ToolState.Removal.first_stage emma.ToolState.Removal.second_stage
    emma.ToolState.Removal.file_removal emma.ToolState.Removal.existing_job
    emma.ToolState.Removal.removal_job emma.ToolState.Removal.removal_request
    emma.ToolState.Removal.first_job emma.Llm.Json.str_of emma.Tasks.open_tasks
    emma.Tasks.select_tasks emma.Tasks.create emma.Tasks.insert_task
filed_number = refl

weather_back_on :
    (s' : ToolStateStore) × (ToolState.disable all_on weather [] 1000 ≡ ok (true, s'))
    × (ToolState.enable s' weather ≡ ok (true, all_on))
unfolding lit mem_text emma.Common.text_eq emma.Common.any
weather_back_on = enable-disable all_on weather [] 1000 refl refl refl

run_remove-Stages_example :
    Stages registered
      (argument show (lit "name") please)
      (argument show (lit "reason") please)
      4600
      desk
      (run_remove show registered please 4600 desk)
run_remove-Stages_example = run_remove-Stages show registered please 4600 desk

filed_once_example :
    ((run_remove show registered please 4600 desk).1 ≡ desk)
    ⊎ ((later : ℕ)
        → (run_remove show registered please later
            (run_remove show registered please 4600 desk).1).1
          ≡ (run_remove show registered please 4600 desk).1)
unfolding argument lit emma.Common.strip emma.Common.lstrip emma.Common.rstrip emma.Common.is_space
    emma.Common.text_eq emma.Llm.Json.get emma.Llm.Json.str_of emma.ToolState.since_of
filed_once_example = filed_once show registered please 4600 desk 1000 refl

abbrev lister : Tool (Unit {0})
lister = record {
  name = lit "list_tools";
  description = [];
  input_schema = end;
  run = λ arguments w. (ok [], w);
}

abbrev all_off : List Operation
all_off = Operation.disable (lit "list_tools") [] 5 ∷ Operation.disable weather [] 6 ∷ []

abbrev gated : Router (Unit {0})
gated = record {
  complete = λ system messages tools w. (ok (record { blocks = []; stop_reason = none }), w);
  system_prompt = [];
  tools = lister ∷ [];
  context_providers = [];
  tool_gate = some (λ w. (disabled (steps all_off all_on), w));
  max_tool_iterations = 5;
  now = λ w. 0;
}

protected-declared_instance :
    mem_text (lit "list_tools") (declared (tool_schemas gated (switched_off gated tt).0)) ≡ true
unfolding lit mem_text emma.Common.text_eq
protected-declared_instance =
    protected-declared gated all_off all_on tt (lit "list_tools") refl tt refl refl
