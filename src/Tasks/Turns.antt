-- ===== src/Tasks/Turns.antt =====
-- Whose move it is in core/tasks.py: how a task comes to be the developer's.
use emma.Common.{
  ℕ, ◌+◌, ◌≡◌, refl, ap, sym, inl, inr, Bool, true, false, List, [], ◌∷◌, ◌++◌, Text, strip,
  is_empty, All, map, select, ok, arith, Bool-cases, Option-cases, ◌==◌, ◌&&◌,
}
use mathlib.Core.List.{Memᴰ}
use mathlib.Core.List.Memᴰ.{head, tail}
use mathlib.Core.Path.{subst}
use emma.Tasks
use emma.Tasks.{
  Stage, queued, waiting_user, done, abandoned, Task, TaskStore, is_queued, is_waiting, known_stage,
  answered, queued_tasks,
}
use emma.Tasks.Rows.{Operation, step, moved, added, tasks-step, is_open-step}

-- How a task comes to be among the queued ones.
pub data Origin (op : Operation) (s : TaskStore) (t' : Task) : Type 0 where
  stayed : Memᴰ t' s.tasks → is_queued t' ≡ true → Origin op s t'
  fresh :
      (request : Text) (now : ℕ)
      → op ≡ Operation.create request now
      → t'.id ≡ s.last_id + 1
      → t'.request ≡ strip request
      → Origin op s t'
  replied :
      (t : Task) (answer : Text) (now : ℕ)
      → Memᴰ t s.tasks
      → is_waiting t ≡ true
      → op ≡ Operation.record_answer t.id answer now
      → is_empty (strip answer) ≡ false
      → t' ≡ answered (strip answer) now t
      → Origin op s t'

==_sound : (a b : ℕ) → (a == b) ≡ true → a ≡ b
==_sound a b h = ground arith

not_both : false ≡ true → ⊥
not_both h = cc

&&_split : (a b : Bool) → (a && b) ≡ true → (a ≡ true) × (b ≡ true)
&&_split true b h = (refl, h)
&&_split false b h = absurd (not_both h)

Origin-moved :
    (op : Operation) (s : TaskStore) (t : Task)
    → Memᴰ t s.tasks
    → is_queued (moved op t) ≡ true
    → Origin op s (moved op t)
unfolding moved
Origin-moved (Operation.create request now) s t m q = stayed m q
Origin-moved (Operation.record_answer i answer now) s t m q =
    elim (Bool-cases (is_empty (strip answer))) [
      | inl e ↦ rw e (stayed m (rw e at q))
      | inr e ↦ elim (Bool-cases ((t.id == i) && is_waiting t)) [
        | inl f ↦
            let (same, waits) = &&_split _ _ f in
            rw (e, f)
              (replied t answer now m waits
                (ap (λ x. Operation.record_answer x answer now) (sym (==_sound t.id i same))) e
                refl)
        | inr f ↦ rw (e, f) (stayed m (rw (e, f) at q))
      ]
    ]
Origin-moved (Operation.advance i stage note now) s t m q =
    elim (Option-cases (known_stage stage)) [
      | inl e ↦ rw (moved, e) (stayed m (rw (moved, e) at q))
      | inr (known, e) ↦ elim (Bool-cases (t.id == i)) [
        | inl f ↦ absurd (not_both (rw (moved, e, f) at q))
        | inr f ↦ rw (moved, e, f) (stayed m (rw (moved, e, f) at q))
      ]
    ]
Origin-moved (Operation.finish i note now) s t m q = elim (Bool-cases (t.id == i)) [
  | inl f ↦ absurd (not_both (rw f at q))
  | inr f ↦ rw f (stayed m (rw f at q))
]
Origin-moved (Operation.abandon i note now) s t m q = elim (Bool-cases (t.id == i)) [
  | inl f ↦ absurd (not_both (rw f at q))
  | inr f ↦ rw f (stayed m (rw f at q))
]
Origin-moved (Operation.touch now) s t m q = stayed m q

Origin-added : (op : Operation) (s : TaskStore) → All (Origin op s) (added op s.last_id)
unfolding added
Origin-added (Operation.create request now) s = elim (Bool-cases (is_empty (strip request))) [
  | inl e ↦ rw e tt
  | inr e ↦ rw e (fresh request now refl refl refl, tt)
]
Origin-added (Operation.record_answer i answer now) s = tt
Origin-added (Operation.advance i stage note now) s = tt
Origin-added (Operation.finish i note now) s = tt
Origin-added (Operation.abandon i note now) s = tt
Origin-added (Operation.touch now) s = tt

All-select : (P : Task → Type 0) (p : Task → Bool) (ts : List Task) → All P ts → All P (select p ts)
unfolding select
All-select P p [] h = tt
All-select P p (t ∷ ts) h = elim (Bool-cases (p t)) [
  | inl e ↦ rw e (h.0, All-select P p ts h.1)
  | inr e ↦ rw e (All-select P p ts h.1)
]

Origin-select :
    (op : Operation) (s : TaskStore) (ts us : List Task)
    → ((t : Task) → Memᴰ t ts → Memᴰ t s.tasks)
    → All (Origin op s) us
    → All (Origin op s) (select is_queued (map (moved op) ts ++ us))
unfolding select
Origin-select op s [] us inside h = All-select (Origin op s) is_queued us h
Origin-select op s (t ∷ ts) us inside h =
    let rest = Origin-select op s ts us (λ u m. inside u (tail m)) h in
    elim (Bool-cases (is_queued (moved op t))) [
      | inl e ↦ rw e (Origin-moved op s t (inside t (head refl)) e, rest)
      | inr e ↦ rw e rest
    ]

-- A task is put before the developer in two ways only: it was just created, or it waited for the
-- user and an answer to it that is not blank was recorded. Every other queued task was queued
-- before the call, and is as it was. The store is open.
pub queued_origin :
    (op : Operation) (s : TaskStore)
    → s.is_open ≡ true
    → (ts : List Task) × (queued_tasks (step op s) ≡ ok ts) × All (Origin op s) ts
unfolding queued_tasks Tasks.select_tasks
queued_origin op s o = (
  select is_queued (step op s).tasks,
  rw (is_open-step op s o) refl,
  subst (λ ts. All (Origin op s) (select is_queued ts)) (sym (tasks-step op s o))
      (Origin-select op s s.tasks (added op s.last_id) (λ t m. m) (Origin-added op s)),
)
