-- ===== src/Tasks/Answers.antt =====
-- The two ends of a checkpoint in core/tasks.py: the question that `advance` puts, and the answer
-- that `record_answer` takes.
use emma.Common.{
  ℕ, ◌≡◌, refl, ap, ap₂, sym, ◌∙◌, inl, inr, Bool, true, false, not, some, List, [], ◌∷◌, Text,
  strip, is_empty, map, select, any, ok, arith, Bool-cases, ◌==◌, ◌&&◌, if◌then◌else◌,
}
use emma.Tasks
use emma.Tasks.{
  Stage, Task, TaskStore, is_waiting, known_stage, parked, answered, update, awaiting_user,
}

any-select :
    {A : Type 0} (p q : A → Bool) (xs : List A) → any p (select q xs) ≡ any (λ x. p x && q x) xs
unfolding any select
any-select p q [] = refl
any-select p q (x ∷ xs) = ground (arith, any-select p q xs)

-- An UPDATE that no row passes changes nothing.
pub map_unselected :
    {A : Type 0} (p : A → Bool) (f : A → A) (xs : List A)
    → any p xs ≡ false
    → map (λ x. if p x then f x else x) xs ≡ xs
unfolding any
map_unselected p f [] h = refl
map_unselected p f (x ∷ xs) h = elim (Bool-cases (p x)) [
  | inl e ↦ let bad : true ≡ false = rw e at h in cc
  | inr e ↦ rw e (ap₂ ◌∷◌ refl (map_unselected p f xs (rw e at h)))
]

-- Whether a task of this number waits for the user.
abbrev pub waits : ℕ → TaskStore → Bool
waits i s = any (λ t. t.id == i) (select is_waiting s.tasks)

answered_waits :
    (i : ℕ) (text : Text) (now : ℕ) (ts : List Task)
    → any
        (λ t. (t.id == i) && is_waiting t)
        (map (λ t. if (t.id == i) && is_waiting t then answered text now t else t) ts)
      ≡ false
unfolding any
answered_waits i text now [] = refl
answered_waits i text now (t ∷ ts) = elim (Bool-cases ((t.id == i) && is_waiting t)) [
  | inl e ↦ rw e (ground (arith, answered_waits i text now ts))
  | inr e ↦ rw e (rw e (answered_waits i text now ts))
]

-- Over an open store `record_answer` succeeds exactly if the text is not blank and a task of that
-- number is among those that wait for the user. If it does not, it changes nothing; if it does,
-- no task of that number waits any more, so the same question takes no second answer.
pub record_answer_lem :
    (s : TaskStore) (i : ℕ) (answer : Text) (now : ℕ)
    → s.is_open ≡ true
    → (recorded : Bool) × (s' : TaskStore) × (Tasks.record_answer s i answer now
        ≡ ok (recorded, s'))
      × (recorded ≡ (not (is_empty (strip answer)) && waits i s))
      × (recorded ≡ false → s' ≡ s)
      × (recorded ≡ true → waits i s' ≡ false)
unfolding Tasks.record_answer update
record_answer_lem s i answer now o = elim (Bool-cases (is_empty (strip answer))) [
  | inl e ↦ rw e (false, s, refl, refl, λ h. refl, λ h. cc)
  | inr e ↦ rw e (
    any (λ t. (t.id == i) && is_waiting t) s.tasks,
    (update (λ t. (t.id == i) && is_waiting t) (answered (strip answer) now) s).1,
    simp o,
    sym (any-select _ _ s.tasks),
    λ h. ap (λ ts. record s { tasks = ts }) (map_unselected _ _ s.tasks h),
    λ h. any-select _ _ _ ∙ answered_waits i (strip answer) now s.tasks,
  )
]

parked_waits :
    (i : ℕ) (stage : Stage) (note : Text) (now : ℕ) (ts : List Task)
    → any (λ t. t.id == i) ts ≡ true
    → any
        (λ t. (t.id == i) && is_waiting t)
        (map (λ t. if t.id == i then parked stage note now t else t) ts)
      ≡ true
unfolding any
parked_waits i stage note now [] h = h
parked_waits i stage note now (t ∷ ts) h = elim (Bool-cases (t.id == i)) [
  | inl e ↦ rw e (ground arith)
  | inr e ↦ rw e (rw e (parked_waits i stage note now ts (rw e at h)))
]

-- A checkpoint puts a task before the user whatever its stage and its status were: `advance` to a
-- stage that exists, on an open store that has the task, also brings back one that was done or
-- abandoned.
pub advance_reopens :
    (s : TaskStore) (i : ℕ) (stage note : Text) (known : Stage) (now : ℕ)
    → s.is_open ≡ true
    → known_stage stage ≡ some known
    → any (λ t. t.id == i) s.tasks ≡ true
    → (s' : TaskStore) × (Tasks.advance s i stage note now ≡ ok (true, s')) × (waits i s' ≡ true)
unfolding Tasks.advance update
advance_reopens s i stage note known now o k h =
    rw (Tasks.advance, k)
      (
        (update (λ t. t.id == i) (parked known (strip note) now) s).1,
        simp (o, h),
        any-select _ _ _ ∙ parked_waits i known (strip note) now s.tasks h,
      )
