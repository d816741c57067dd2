-- ===== src/Tasks.antt =====
-- core/tasks.py: the queue of development requests.
-- The tables are values: the rows of `tasks` in the order of their ids, with the last id that
-- AUTOINCREMENT gave out, and the one row of `dev_heartbeat`. A method holds the lock from its
-- first statement to its last and is one step; an exception leaves the tables as they were. Times
-- are numbers of ticks since the epoch, read once in a method and passed to it as `now`.
use emma.Common.{
  Opening, open_connection, close_connection, Option, none, some, runtime_error, value_error, ℕ,
  ◌+◌, Bool, true, false, Option, none, some, List, [], ◌∷◌, ◌++◌, Text, lit, strip, lookup, Dict,
  is_empty, map, select, any, Result, ok, err, Exc, ◌==◌, ◌&&◌, ◌||◌, if◌then◌else◌,
}
pub mod Rows
pub mod Valid
pub mod Turns
pub mod Answers
mod Tests

pub data Stage : Type 0 where
  new : Stage
  understood : Stage
  implemented : Stage
  committed : Stage
  pushed : Stage
  deployed : Stage

pub data Status : Type 0 where
  queued : Status
  waiting_user : Status
  done : Status
  abandoned : Status

-- The names of the stages, in order, with what they name.
abbrev pub stage_order : Dict Stage
stage_order =
    (lit "new", new)
    ∷ (lit "understood", understood)
    ∷ (lit "implemented", implemented)
    ∷ (lit "committed", committed)
    ∷ (lit "pushed", pushed)
    ∷ (lit "deployed", deployed)
    ∷ []

-- `stage not in STAGE_ORDER`, and the stage that a name in it stands for
unfoldable pub known_stage : Text → Option Stage
unfolding lookup
known_stage stage = lookup stage stage_order

pub record Task : Type 0 where
  pub id : ℕ
  pub request : Text
  pub stage : Stage
  pub status : Status
  pub note : Text
  pub answer : Text
  pub created_at : ℕ
  pub updated_at : ℕ

pub record TaskStore : Type 0 where
  pub tasks : List Task
  pub last_id : ℕ
  pub heartbeat : Option ℕ
  pub is_open : Bool

abbrev pub is_queued : Task → Bool
is_queued t = elim t.status [ queued ↦ true | _ ↦ false ]

abbrev pub is_waiting : Task → Bool
is_waiting t = elim t.status [ waiting_user ↦ true | _ ↦ false ]

abbrev pub not_open : Exc
not_open = record {
  kind = runtime_error;
  message = lit "call open() on the task store before using it";
}

-- `_require_open`, in front of what needs the connection
abbrev pub require_open : {A : Type 0} → TaskStore → Result Exc A → Result Exc A
require_open s go = if s.is_open then go else err not_open

-- UPDATE tasks SET ... WHERE ..., and `cursor.rowcount > 0`
unfoldable pub update : (Task → Bool) → (Task → Task) → TaskStore → Bool × TaskStore
update selects change s =
    (any selects s.tasks, record s { tasks = map (λ t. if selects t then change t else t) s.tasks })

-- The INSERT of `create`
unfoldable pub insert_task : Text → ℕ → TaskStore → TaskStore
insert_task text now s =
    let task : Task = record {
      id = s.last_id + 1;
      request = text;
      stage = new;
      status = queued;
      note = [];
      answer = [];
      created_at = now;
      updated_at = now;
    } in
    record s { tasks = s.tasks ++ (task ∷ []); last_id = s.last_id + 1 }

unfoldable pub create : TaskStore → Text → ℕ → Result Exc (ℕ × TaskStore)
unfolding insert_task
create s request now =
    if is_empty (strip request)
    then err (record { kind = value_error; message = lit "a development request cannot be empty" })
    else require_open s (ok (s.last_id + 1, insert_task (strip request) now s))

unfoldable pub select_tasks : TaskStore → (Task → Bool) → Result Exc (List Task)
select_tasks s selects = require_open s (ok (select selects s.tasks))

unfoldable pub awaiting_user : TaskStore → Result Exc (List Task)
unfolding select_tasks
awaiting_user s = select_tasks s is_waiting

unfoldable pub open_tasks : TaskStore → Result Exc (List Task)
unfolding select_tasks
open_tasks s = select_tasks s (λ t. is_queued t || is_waiting t)

unfoldable pub queued_tasks : TaskStore → Result Exc (List Task)
unfolding select_tasks
queued_tasks s = select_tasks s is_queued

-- What the UPDATE of each method writes into a row.
abbrev pub answered : Text → ℕ → Task → Task
answered text now t = record t { answer = text; status = queued; updated_at = now }

abbrev pub parked : Stage → Text → ℕ → Task → Task
parked stage note now t = record t {
  stage = stage;
  note = note;
  answer = [];
  status = waiting_user;
  updated_at = now;
}

abbrev pub closed : Status → Stage → Text → ℕ → Task → Task
closed status stage note now t = record t {
  status = status;
  stage = stage;
  note = note;
  updated_at = now;
}

abbrev pub dropped : Text → ℕ → Task → Task
dropped note now t = record t { status = abandoned; note = note; updated_at = now }

unfoldable pub record_answer : TaskStore → ℕ → Text → ℕ → Result Exc (Bool × TaskStore)
unfolding update
record_answer s task_id answer now =
    if is_empty (strip answer)
    then ok (false, s)
    else require_open s
        (ok (update (λ t. (t.id == task_id) && is_waiting t) (answered (strip answer) now) s))

unfoldable pub last_seen : TaskStore → Result Exc (Option ℕ)
last_seen s = require_open s (ok s.heartbeat)

unfoldable pub advance : TaskStore → ℕ → Text → Text → ℕ → Result Exc (Bool × TaskStore)
unfolding update known_stage
advance s task_id stage note now = elim (known_stage stage) [
  | none ↦
      err (record { kind = value_error; message = lit "unknown stage '" ++ (stage ++ lit "'") })
  | some known ↦
      require_open s (ok (update (λ t. t.id == task_id) (parked known (strip note) now) s))
]

unfoldable pub close_with :
    TaskStore → ℕ → Status → Stage → Text → ℕ → Result Exc (Bool × TaskStore)
unfolding update
close_with s task_id status stage note now =
    require_open s (ok (update (λ t. t.id == task_id) (closed status stage (strip note) now) s))

unfoldable pub finish : TaskStore → ℕ → Text → ℕ → Result Exc (Bool × TaskStore)
unfolding close_with
finish s task_id note now = close_with s task_id done deployed note now

unfoldable pub abandon : TaskStore → ℕ → Text → ℕ → Result Exc (Bool × TaskStore)
unfolding update
abandon s task_id note now =
    require_open s (ok (update (λ t. t.id == task_id) (dropped (strip note) now) s))

unfoldable pub touch : TaskStore → ℕ → Result Exc TaskStore
touch s now = require_open s (ok (record s { heartbeat = some now }))

unfoldable pub open_store : Opening → TaskStore → Result Exc (Unit {0}) × TaskStore
unfolding open_connection
open_store o s =
    let (outcome, holds) = open_connection o s.is_open in (outcome, record s { is_open = holds })

unfoldable pub close_store : Option Exc → TaskStore → Result Exc (Unit {0}) × TaskStore
unfolding close_connection
close_store raised s =
    let (outcome, holds) = close_connection raised s.is_open in
    (outcome, record s { is_open = holds })
