-- ===== src/Tasks/Valid.antt =====
-- The invariant of the task table of core/tasks.py.
use emma.Common.{
  Ascending, Ascending-snoc, ℕ, ◌≡◌, refl, ap, sym, ap₂, append-nil, ◌⊎◌, inl, inr, true, false,
  List, [], ◌∷◌, ◌++◌, strip, strip-strip, is_empty, All, map, map-append, Bool-cases, Option-cases,
  ◌==◌, ◌&&◌,
}
use mathlib.Core.Path.{subst}
use emma.Tasks
use emma.Tasks.{
  new, deployed, queued, waiting_user, done, abandoned, Task, TaskStore, is_waiting, known_stage,
  answered,
}
use emma.Tasks.Rows.{
  Operation, step, steps, moved, added, tasks-step, is_open-step, commission-moved,
}

-- What the status of a task says of the rest of its row: whose move it is, and why.
abbrev pub StatusHolds : Task → Type 0
StatusHolds t = elim t.status [
  | queued ↦ (is_empty t.answer ≡ false) ⊎ ((t.stage ≡ new) × (t.answer ≡ []) × (t.note ≡ []))
  | waiting_user ↦ t.answer ≡ []
  | done ↦ t.stage ≡ deployed
  | abandoned ↦ Unit
]

pub record TaskIsValid (t : Task) : Type 0 where
  pub stripped : strip t.request ≡ t.request
  pub readable : is_empty t.request ≡ false
  pub status_holds : StatusHolds t

pub record IsValid (s : TaskStore) : Type 0 where
  pub opened : s.is_open ≡ true
  pub ascending : Ascending 0 s.last_id (map (λ t. t.id) s.tasks)
  pub valid_tasks : All TaskIsValid s.tasks

StatusHolds-moved : (op : Operation) (t : Task) → StatusHolds t → StatusHolds (moved op t)
unfolding moved
StatusHolds-moved (Operation.create request now) t h = h
StatusHolds-moved (Operation.record_answer i answer now) t h =
    elim (Bool-cases (is_empty (strip answer))) [
      | inl e ↦ rw e h
      | inr e ↦ elim (Bool-cases ((t.id == i) && is_waiting t)) [
        | inl f ↦ rw (e, f) (inl e)
        | inr f ↦ rw (e, f) h
      ]
    ]
StatusHolds-moved (Operation.advance i stage note now) t h =
    elim (Option-cases (known_stage stage)) [
      | inl e ↦ rw (moved, e) h
      | inr (known, e) ↦ elim (Bool-cases (t.id == i)) [
        | inl f ↦ rw (moved, e, f) refl
        | inr f ↦ rw (moved, e, f) h
      ]
    ]
StatusHolds-moved (Operation.finish i note now) t h = elim (Bool-cases (t.id == i)) [
  | inl f ↦ rw f refl
  | inr f ↦ rw f h
]
StatusHolds-moved (Operation.abandon i note now) t h = elim (Bool-cases (t.id == i)) [
  | inl f ↦ rw f tt
  | inr f ↦ rw f h
]
StatusHolds-moved (Operation.touch now) t h = h

TaskIsValid-moved : (op : Operation) (t : Task) → TaskIsValid t → TaskIsValid (moved op t)
TaskIsValid-moved op t h =
    let same : t.request ≡ (moved op t).request =
      sym (ap (λ c. c.request) (commission-moved op t)) in
    record {
      stripped = subst (λ r. strip r ≡ r) same h.stripped;
      readable = subst (λ r. is_empty r ≡ false) same h.readable;
      status_holds = StatusHolds-moved op t h.status_holds;
    }

TaskIsValid-added : (op : Operation) (last : ℕ) → All TaskIsValid (added op last)
unfolding added
TaskIsValid-added (Operation.create request now) last =
    elim (Bool-cases (is_empty (strip request))) [
      | inl e ↦ rw e tt
      | inr e ↦ rw e (
        record {
          stripped = strip-strip request;
          readable = e;
          status_holds = inr (refl, refl, refl);
        },
        tt,
      )
    ]
TaskIsValid-added (Operation.record_answer i answer now) last = tt
TaskIsValid-added (Operation.advance i stage note now) last = tt
TaskIsValid-added (Operation.finish i note now) last = tt
TaskIsValid-added (Operation.abandon i note now) last = tt
TaskIsValid-added (Operation.touch now) last = tt

All-moved :
    (op : Operation) (ts us : List Task)
    → All TaskIsValid ts
    → All TaskIsValid us
    → All TaskIsValid (map (moved op) ts ++ us)
All-moved op [] us h k = k
All-moved op (t ∷ ts) us h k = (TaskIsValid-moved op t h.0, All-moved op ts us h.1 k)

ids-moved :
    (op : Operation) (ts : List Task) → map (λ t. t.id) (map (moved op) ts) ≡ map (λ t. t.id) ts
ids-moved op [] = refl
ids-moved op (t ∷ ts) = ap₂ ◌∷◌ (ap (λ c. c.id) (commission-moved op t)) (ids-moved op ts)

-- Every id given out is one more than the last.
Ascending-added :
    (op : Operation) (s : TaskStore) (is : List ℕ)
    → s.is_open ≡ true
    → Ascending 0 s.last_id is
    → Ascending 0 (step op s).last_id (is ++ map (λ t. t.id) (added op s.last_id))
unfolding step added Tasks.create Tasks.record_answer Tasks.advance Tasks.finish Tasks.close_with
    Tasks.abandon Tasks.touch Tasks.update Tasks.insert_task
Ascending-added (Operation.create request now) s is o h =
    elim (Bool-cases (is_empty (strip request))) [
      | inl e ↦ rw e (rw append-nil h)
      | inr e ↦ rw (e, o) (Ascending-snoc 0 s.last_id is h)
    ]
Ascending-added (Operation.record_answer i answer now) s is o h =
    elim (Bool-cases (is_empty (strip answer))) [
      | inl e ↦ rw e (rw append-nil h)
      | inr e ↦ rw (e, o) (rw append-nil h)
    ]
Ascending-added (Operation.advance i stage note now) s is o h =
    elim (Option-cases (known_stage stage)) [
      | inl e ↦ rw (step, Tasks.advance, e) (rw append-nil h)
      | inr (known, e) ↦ rw (step, Tasks.advance, e) (rw o (rw append-nil h))
    ]
Ascending-added (Operation.finish i note now) s is o h = rw o (rw append-nil h)
Ascending-added (Operation.abandon i note now) s is o h = rw o (rw append-nil h)
Ascending-added (Operation.touch now) s is o h = rw o (rw append-nil h)

step-IsValid : (op : Operation) (s : TaskStore) → IsValid s → IsValid (step op s)
step-IsValid op s h = record {
  opened = is_open-step op s h.opened;
  ascending =
      subst (λ ts. Ascending 0 (step op s).last_id (map (λ t. t.id) ts))
        (sym (tasks-step op s h.opened))
        (rw (map-append, ids-moved)
          (Ascending-added op s (map (λ t. t.id) s.tasks) h.opened h.ascending));
  valid_tasks =
      subst (All TaskIsValid) (sym (tasks-step op s h.opened))
        (All-moved op s.tasks (added op s.last_id) h.valid_tasks (TaskIsValid-added op s.last_id));
}

-- The table keeps its invariant, whatever is called: the ids ascend up to the last one given out,
-- every request is a stripped text that is not blank, a queued task is untouched or has an answer,
-- a task that waits for the user has none, and a task that is done is deployed.
pub steps-IsValid : (ops : List Operation) (s : TaskStore) → IsValid s → IsValid (steps ops s)
unfolding steps
steps-IsValid [] s h = h
steps-IsValid (op ∷ ops) s h = steps-IsValid ops (step op s) (step-IsValid op s h)
