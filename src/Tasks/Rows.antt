-- ===== src/Tasks/Rows.antt =====
-- What the methods of core/tasks.py do to the rows of the table, one row at a time.
use emma.Common.{
  select, ◌||◌, ℕ, ◌+◌, ◌≡◌, refl, ◌∙◌, sym, ap, ap₂, true, none, some, List, [], ◌∷◌, ◌++◌,
  append-nil, append_assoc, Text, strip, is_empty, map, map-append, Result, ok, err, Exc,
  Bool-cases, Option-cases, inl, inr, arith, ◌==◌, ◌&&◌, if◌then◌else◌,
}
use emma.Tasks
use emma.Tasks.{
  open_tasks, select_tasks, is_queued, Stage, Status, new, queued, done, deployed, Task, TaskStore,
  known_stage, is_waiting, update, insert_task, answered, parked, closed, dropped, close_with,
}

-- The calls that change a store.
pub data Operation : Type 0 where
  create : (request : Text) → (now : ℕ) → Operation
  record_answer : (task_id : ℕ) → (answer : Text) → (now : ℕ) → Operation
  advance : (task_id : ℕ) → (stage note : Text) → (now : ℕ) → Operation
  finish : (task_id : ℕ) → (note : Text) → (now : ℕ) → Operation
  abandon : (task_id : ℕ) → (note : Text) → (now : ℕ) → Operation
  touch : (now : ℕ) → Operation

-- The store that a call leaves, whether it returns or raises.
abbrev pub left_by : {A : Type 0} → TaskStore → Result Exc (A × TaskStore) → TaskStore
left_by s (ok (a, s')) = s'
left_by s (err e) = s

abbrev pub left_by_touch : TaskStore → Result Exc TaskStore → TaskStore
left_by_touch s (ok s') = s'
left_by_touch s (err e) = s

unfoldable pub step : Operation → TaskStore → TaskStore
step (Operation.create request now) s = left_by s (Tasks.create s request now)
step (Operation.record_answer i answer now) s = left_by s (Tasks.record_answer s i answer now)
step (Operation.advance i stage note now) s = left_by s (Tasks.advance s i stage note now)
step (Operation.finish i note now) s = left_by s (Tasks.finish s i note now)
step (Operation.abandon i note now) s = left_by s (Tasks.abandon s i note now)
step (Operation.touch now) s = left_by_touch s (Tasks.touch s now)

unfoldable pub steps : List Operation → TaskStore → TaskStore
steps [] s = s
steps (op ∷ ops) s = steps ops (step op s)

-- A call, seen from one row that is in the table already.
unfoldable pub moved : Operation → Task → Task
moved (Operation.create request now) t = t
moved (Operation.record_answer i answer now) t =
    if is_empty (strip answer)
    then t
    else if (t.id == i) && is_waiting t
    then answered (strip answer) now t
    else t
moved (Operation.advance i stage note now) t = elim (known_stage stage) [
  | none ↦ t
  | some known ↦ if t.id == i then parked known (strip note) now t else t
]
moved (Operation.finish i note now) t =
    if t.id == i then closed done deployed (strip note) now t else t
moved (Operation.abandon i note now) t = if t.id == i then dropped (strip note) now t else t
moved (Operation.touch now) t = t

-- The rows that a call adds, behind the last id.
unfoldable pub added : Operation → ℕ → List Task
added (Operation.create request now) last =
    if is_empty (strip request)
    then []
    else (record {
      id = last + 1;
      request = strip request;
      stage = new;
      status = queued;
      note = [];
      answer = [];
      created_at = now;
      updated_at = now;
    }
        ∷ [])
added op last = []

map_fixed : {A : Type 0} (f : A → A) → ((x : A) → f x ≡ x) → (xs : List A) → xs ≡ map f xs ++ []
map_fixed f h [] = refl
map_fixed f h (x ∷ xs) = ap₂ ◌∷◌ (sym (h x)) (map_fixed f h xs)

map_behind :
    {A : Type 0} (f : A → A) → ((x : A) → f x ≡ x) → (xs ys : List A) → xs ++ ys ≡ map f xs ++ ys
map_behind f h [] ys = refl
map_behind f h (x ∷ xs) ys = ap₂ ◌∷◌ (sym (h x)) (map_behind f h xs ys)

map_agrees :
    {A : Type 0} (f g : A → A) → ((x : A) → f x ≡ g x) → (xs : List A) → map f xs ≡ map g xs ++ []
map_agrees f g h [] = refl
map_agrees f g h (x ∷ xs) = ap₂ ◌∷◌ (h x) (map_agrees f g h xs)

-- On an open store a call works on every row by itself, and adds its new rows at the end.
pub tasks-step :
    (op : Operation) (s : TaskStore)
    → s.is_open ≡ true
    → (step op s).tasks ≡ map (moved op) s.tasks ++ added op s.last_id
unfolding step moved added Tasks.create Tasks.record_answer Tasks.advance Tasks.finish close_with
    Tasks.abandon Tasks.touch update insert_task
tasks-step (Operation.create request now) s o = elim (Bool-cases (is_empty (strip request))) [
  | inl e ↦ rw e (map_fixed _ (λ t. refl) s.tasks)
  | inr e ↦ rw (e, o) (map_behind _ (λ t. refl) s.tasks _)
]
tasks-step (Operation.record_answer i answer now) s o =
    elim (Bool-cases (is_empty (strip answer))) [
      | inl e ↦ rw e (map_fixed _ (λ t. rw e refl) s.tasks)
      | inr e ↦ rw (e, o) (map_agrees _ _ (λ t. rw e refl) s.tasks)
    ]
tasks-step (Operation.advance i stage note now) s o = elim (Option-cases (known_stage stage)) [
  | inl e ↦ rw (step, Tasks.advance, e) (map_fixed _ (λ t. rw (moved, e) refl) s.tasks)
  | inr (known, e) ↦
      rw (step, Tasks.advance, e) (rw o (map_agrees _ _ (λ t. rw (moved, e) refl) s.tasks))
]
tasks-step (Operation.finish i note now) s o = rw o (sym (append-nil _))
tasks-step (Operation.abandon i note now) s o = rw o (sym (append-nil _))
tasks-step (Operation.touch now) s o = rw o (map_fixed _ (λ t. refl) s.tasks)

pub is_open-step : (op : Operation) (s : TaskStore) → s.is_open ≡ true → (step op s).is_open ≡ true
unfolding step Tasks.create Tasks.record_answer Tasks.advance Tasks.finish close_with Tasks.abandon
    Tasks.touch update insert_task
is_open-step (Operation.create request now) s o = ground arith
is_open-step (Operation.record_answer i answer now) s o = ground arith
is_open-step (Operation.advance i stage note now) s o = elim (Option-cases (known_stage stage)) [
  | inl e ↦ rw (step, Tasks.advance, e) o
  | inr (known, e) ↦ rw (step, Tasks.advance, e) (rw o refl)
]
is_open-step (Operation.finish i note now) s o = rw o refl
is_open-step (Operation.abandon i note now) s o = rw o refl
is_open-step (Operation.touch now) s o = rw o refl

-- What no method changes of a task.
pub record Commission : Type 0 where
  pub id : ℕ
  pub request : Text
  pub created_at : ℕ

abbrev pub commission : Task → Commission
commission t = record { id = t.id; request = t.request; created_at = t.created_at }

pub commission-moved : (op : Operation) (t : Task) → commission (moved op t) ≡ commission t
unfolding moved
commission-moved (Operation.create request now) t = refl
commission-moved (Operation.record_answer i answer now) t = ground arith
commission-moved (Operation.advance i stage note now) t = elim (Option-cases (known_stage stage)) [
  | inl e ↦ rw (moved, e) refl
  | inr (known, e) ↦ rw (moved, e) (ground arith)
]
commission-moved (Operation.finish i note now) t = ground arith
commission-moved (Operation.abandon i note now) t = ground arith
commission-moved (Operation.touch now) t = refl

commissions-moved :
    (op : Operation) (ts : List Task) → map commission (map (moved op) ts) ≡ map commission ts
commissions-moved op [] = refl
commissions-moved op (t ∷ ts) = rw (commission-moved op t, commissions-moved op ts) refl

commissions-step :
    (op : Operation) (s : TaskStore)
    → s.is_open ≡ true
    → map commission (step op s).tasks
      ≡ map commission s.tasks ++ map commission (added op s.last_id)
commissions-step op s o =
    ap (map commission) (tasks-step op s o)
    ∙ map-append commission (map (moved op) s.tasks) (added op s.last_id)
    ∙ ap (λ x. x ++ map commission (added op s.last_id)) (commissions-moved op s.tasks)

-- Whatever is called on an open store, no task is lost, and none changes its number, its request or
-- the time of the request: the queue only grows, at its end.
pub steps_keep :
    (ops : List Operation) (s : TaskStore)
    → s.is_open ≡ true
    → (more : List Commission) × (map commission (steps ops s).tasks
        ≡ map commission s.tasks ++ more)
unfolding steps
steps_keep [] s o = ([], sym (append-nil _))
steps_keep (op ∷ ops) s o =
    let (more, e) = steps_keep ops (step op s) (is_open-step op s o) in
    (
      map commission (added op s.last_id) ++ more,
      e
          ∙ ap (λ x. x ++ more) (commissions-step op s o)
          ∙ append_assoc (map commission s.tasks) (map commission (added op s.last_id)) more,
    )

pub open_tasks_lem :
    (s : TaskStore)
    → s.is_open ≡ true
    → open_tasks s ≡ ok (select (λ t. is_queued t || is_waiting t) s.tasks)
unfolding open_tasks select_tasks
open_tasks_lem s opened = simp opened
