-- ===== src/Development/Dropping/Once.antt =====
-- What `abandon_development` does to the rows of a valid store.
use emma.Common.{
  Ascending, ltb→lt, ltb→le, Bool-cases, ◌≡◌, refl, ap, sym, ◌∙◌, inl, inr, ◌≤◌, ◌<◌, arith, ℕ,
  Bool, true, false, Option, some, List, [], ◌∷◌, ◌++◌, Text, lit, strip, map, select, any, ltb,
  ◌==◌, ◌&&◌, ◌||◌, not, ok, if◌then◌else◌,
}
use emma.Llm.Json.{Json, Fields, get}
use emma.Facts.Tools.{Integer, int_of, print_integer}
use emma.Tasks
use emma.Tasks.{
  Stage, new, understood, implemented, committed, pushed, deployed, Task, TaskStore, is_queued,
  is_waiting, open_tasks, last_seen,
}
use emma.Tasks.{abandoned, abandon, dropped, update, select_tasks}
use emma.Tasks.Rows.{open_tasks_lem}
use emma.Tasks.Valid.{IsValid}
use emma.Tasks.Answers.{map_unselected}
use emma.Development.{text_argument}
use emma.Development.Dropping.{is_open_now, drop_note, run_abandon}

-- Dropping one job changes a row only if it is open and has the number: to abandoned, with the note. Its
-- request, its stage and its answer stay.
abbrev pub is_droppable : Integer → Task → Bool
is_droppable i t = (is_queued t || is_waiting t) && (not i.negative && (t.id == i.size))

abbrev pub dropped_job : Integer → Text → ℕ → Task → Task
dropped_job i note now t =
    if is_droppable i t
    then record t { status = abandoned; note = strip note; updated_at = now }
    else t

module _ (i : Integer) (hi : ℕ) where
  -- No id from `lo` on is at most `lo`.
  above_none :
      (lo : ℕ) (ts : List Task)
      → Ascending lo hi (map (λ t. t.id) ts)
      → i.size ≤ lo
      → (any (λ t. t.id == i.size) ts ≡ false) × (any (is_droppable i) ts ≡ false)
  unfolding any
  above_none lo [] h le = (refl, refl)
  above_none lo (t ∷ ts) h le =
      let differs : (t.id == i.size) ≡ false = ground arith in
      let rest = above_none t.id ts h.1 (omega arith) in
      (rw (differs, rest.0) refl, rw (differs, rest.1) (ground arith))

  droppable_above :
      (lo : ℕ) (ts : List Task)
      → Ascending lo hi (map (λ t. t.id) ts)
      → any (is_droppable i) ts ≡ true
      → lo < i.size
  droppable_above lo ts h k = elim (Bool-cases (ltb lo i.size)) [
    | inl e ↦ ltb→lt lo i.size e
    | inr e ↦ let none' = (above_none lo ts h (ltb→le lo i.size e)).1 in cc
  ]

  -- Where a row of that number is open, it is the only one of that number.
  drop_rows :
      (note : Text) (now lo : ℕ) (ts : List Task)
      → Ascending lo hi (map (λ t. t.id) ts)
      → any (is_droppable i) ts ≡ true
      → map (λ t. if t.id == i.size then dropped (strip note) now t else t) ts
        ≡ map (dropped_job i note now) ts
  unfolding any
  drop_rows note now lo [] h k = cc
  drop_rows note now lo (t ∷ ts) h k = elim (Bool-cases (is_droppable i t)) [
    | inl e ↦
        let same : (t.id == i.size) ≡ true = ground arith in
        let rest = above_none t.id ts h.1 (ground arith) in
        rw (e, same)
          (ap (◌∷◌ (dropped (strip note) now t))
            (map_unselected _ _ ts rest.0 ∙ sym (map_unselected _ _ ts rest.1)))
    | inr e ↦
        let more : any (is_droppable i) ts ≡ true = (rw e at k) in
        let below = droppable_above t.id ts h.1 more in
        let differs : (t.id == i.size) ≡ false = ground arith in
        rw (e, differs) (ap (◌∷◌ t) (drop_rows note now t.id ts h.1 more))
  ]

open_now_lem :
    (i : Integer) (ts : List Task)
    → is_open_now i (select (λ t. is_queued t || is_waiting t) ts) ≡ any (is_droppable i) ts
unfolding is_open_now any select
open_now_lem i [] = ground arith
open_now_lem i (t ∷ ts) = ground (arith, open_now_lem i ts)

droppable_numbered :
    (i : Integer) (ts : List Task)
    → any (is_droppable i) ts ≡ true
    → any (λ t. t.id == i.size) ts ≡ true
unfolding any
droppable_numbered i [] h = h
droppable_numbered i (t ∷ ts) h = ground (arith, droppable_numbered i ts)

abandon_lem :
    (s : TaskStore) (i : Integer) (note : Text) (now : ℕ)
    → IsValid s
    → any (is_droppable i) s.tasks ≡ true
    → Tasks.abandon s i.size note now
      ≡ ok (true, record s { tasks = map (dropped_job i note now) s.tasks })
unfolding Tasks.abandon update
abandon_lem s i note now v h =
    let rows = drop_rows i s.last_id note now 0 s.tasks v.ascending h in
    simp v.opened (rw (droppable_numbered i s.tasks h, rows) refl)

-- On a valid store, with a number that reads as an integer, `abandon_development` changes one row at most:
-- the open one of that number becomes abandoned, with the reason in its note, and its request, its stage and its
-- answer stay. Every other row stays as it is, a finished or abandoned one of that number too. The sentence
-- says that the job was abandoned exactly if there is such a row.
pub run_abandon_lem :
    (show : Json → Text) (parse : Text → Option Integer) (arguments : Fields) (now : ℕ)
    (s : TaskStore) (value : Json) (i : Integer)
    → IsValid s
    → get (lit "number") arguments ≡ some value
    → int_of parse value ≡ some i
    → run_abandon show parse arguments now s ≡ (
      ok (
          if any (is_droppable i) s.tasks
          then lit "Lavoro #"
            ++ (print_integer i ++ lit " abbandonato. Resta registrato, non e' stato cancellato.")
          else lit "Il lavoro #"
            ++ (print_integer i
                ++ lit " non esiste o non e' piu' aperto. Non ho abbandonato nulla.")),
      record s {
        tasks =
            map
              (dropped_job i (drop_note (strip (text_argument show (lit "reason") arguments))) now)
              s.tasks;
      },
    )
unfolding run_abandon
run_abandon_lem show parse arguments now s value i v given read =
    elim (Bool-cases (any (is_droppable i) s.tasks)) [
      | inl e ↦
          rw
            (
              run_abandon,
              given,
              read,
              open_tasks_lem s v.opened,
              open_now_lem i s.tasks,
              e,
              abandon_lem s i _ now v e,
            )
            refl
      | inr e ↦
          rw (run_abandon, given, read, open_tasks_lem s v.opened, open_now_lem i s.tasks, e)
            (ap
              (λ (ts : List Task). (
                ok (
                    lit "Il lavoro #"
                    ++ (print_integer i
                        ++ lit " non esiste o non e' piu' aperto. Non ho abbandonato nulla.")),
                record s { tasks = ts },
              ))
              (sym (map_unselected (is_droppable i) _ s.tasks e)))
    ]
