-- ===== src/Tasks/Tests.antt =====
-- Runs of core/tasks.py at concrete inputs, and its theorems applied there.
use emma.Common.{
  value_error, ℕ, ◌≡◌, refl, inl, inr, Bool, true, false, not, none, some, List, [], ◌∷◌, ◌++◌,
  Text, lit, strip, is_empty, All, map, any, select, Result, ok, err, arith, ◌==◌, ◌&&◌,
}
use emma.Tasks
use emma.Tasks.{
  Task, TaskStore, new, pushed, queued, waiting_user, abandoned, known_stage, queued_tasks,
  is_waiting,
}
use emma.Tasks.Rows.{Operation, step, steps, commission, Commission, steps_keep}
use emma.Tasks.Valid.{IsValid, steps-IsValid}
use emma.Tasks.Turns.{Origin, queued_origin}
use emma.Tasks.Answers.{waits, record_answer_lem, advance_reopens}

abbrev first : Task
first = record {
  id = 1;
  request = lit "togli il meteo";
  stage = pushed;
  status = waiting_user;
  note = lit "procedo?";
  answer = [];
  created_at = 10;
  updated_at = 20;
}

abbrev second : Task
second = record {
  id = 3;
  request = lit "aggiungi un calendario";
  stage = new;
  status = abandoned;
  note = [];
  answer = [];
  created_at = 30;
  updated_at = 40;
}

abbrev two_tasks : TaskStore
two_tasks = record { tasks = first ∷ second ∷ []; last_id = 3; heartbeat = none; is_open = true }

two_tasks-IsValid : IsValid two_tasks
unfolding lit strip emma.Common.lstrip emma.Common.rstrip emma.Common.is_space
two_tasks-IsValid = record {
  opened = refl;
  ascending = (omega arith, (omega arith, omega arith));
  valid_tasks = (
    record { stripped = refl; readable = refl; status_holds = refl },
    (record { stripped = refl; readable = refl; status_holds = tt }, tt),
  );
}

abbrev evening : List Operation
evening =
    Operation.record_answer 1 (lit " va bene ") 50
    ∷ Operation.create (lit " ") 55
    ∷ Operation.create (lit "nuovo tono") 60
    ∷ Operation.advance 4 (lit "understood") (lit "chiaro?") 70
    ∷ []

-- The blank request takes no number.
evening_ids : map (λ t. t.id) (steps evening two_tasks).tasks ≡ 1 ∷ 3 ∷ 4 ∷ []
unfolding steps step Tasks.record_answer Tasks.create Tasks.advance Tasks.update Tasks.insert_task
    known_stage lit strip emma.Common.lstrip emma.Common.rstrip emma.Common.is_space
    emma.Common.text_eq emma.Common.lookup any
evening_ids = refl

unknown_stage :
    Tasks.advance two_tasks 1 (lit "merged") [] 50
    ≡ err (record { kind = value_error; message = lit "unknown stage 'merged'" })
unfolding Tasks.advance known_stage lit emma.Common.text_eq emma.Common.lookup
unknown_stage = refl

steps_keep_instance :
    (more : List Commission) × (map commission (steps evening two_tasks).tasks
      ≡ map commission two_tasks.tasks ++ more)
steps_keep_instance = steps_keep evening two_tasks refl

steps-IsValid_example : IsValid (steps evening two_tasks)
steps-IsValid_example = steps-IsValid evening two_tasks two_tasks-IsValid

abbrev yes : Operation
yes = Operation.record_answer 1 (lit " va bene ") 50

queued_origin_example :
    (ts : List Task) × (queued_tasks (step yes two_tasks) ≡ ok ts) × All (Origin yes two_tasks) ts
queued_origin_example = queued_origin yes two_tasks refl

record_answer_lem_instance :
    (recorded : Bool) × (s' : TaskStore) × (Tasks.record_answer two_tasks 1 (lit " va bene ") 50
      ≡ ok (recorded, s'))
    × (recorded ≡ (not (is_empty (strip (lit " va bene "))) && waits 1 two_tasks))
    × (recorded ≡ false → s' ≡ two_tasks)
    × (recorded ≡ true → waits 1 s' ≡ false)
record_answer_lem_instance = record_answer_lem two_tasks 1 (lit " va bene ") 50 refl

-- The abandoned task comes back.
advance_reopens_instance :
    (s' : TaskStore) × (Tasks.advance two_tasks 3 (lit "pushed") (lit "ok?") 50 ≡ ok (true, s'))
    × (waits 3 s' ≡ true)
unfolding known_stage lit emma.Common.text_eq emma.Common.lookup any
advance_reopens_instance =
    advance_reopens two_tasks 3 (lit "pushed") (lit "ok?") pushed 50 refl refl refl
