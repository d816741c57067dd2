-- ===== src/App/Turns.antt =====
-- The invariants of the stores of core/tasks.py, tools/facts/store.py and tools/toolstate/store.py, over the tools
-- that work on them and over a turn of core/router.py with the tools of main.py.
pub mod Kept
mod Tests
use emma.Common.{
  ℕ, ◌+◌, ◌≡◌, refl, ap, sym, ◌∙◌, inl, inr, Bool, true, false, Option, none, some, List, [], ◌∷◌,
  ◌++◌, Text, lit, is_empty, strip, Result, ok, err, Exc, Bool-cases, Option-cases, Result-cases,
  ltb, if◌then◌else◌,
}
use mathlib.Core.Path.{subst}
use emma.Llm.Json.{Json, Fields, get, str_of}
use emma.Tasks
use emma.Tasks.{TaskStore, open_tasks}
use emma.Tasks.Rows as rows
use emma.Tasks.Rows.{left_by}
use emma.Tasks.Valid as tasks
use emma.Facts
use emma.Facts.{FactStore}
use emma.Facts.Valid as facts
use emma.Facts.Tools.{Integer, int_of, run_remember, run_forget, forget_integer}
use emma.Development.{text_argument, run_request, answer_integer, run_answer}
use emma.Development.Dropping.{run_abandon, is_open_now, drop_note}

pub step-IsValid :
    (op : rows.Operation) (s : TaskStore) → tasks.IsValid s → tasks.IsValid (rows.step op s)
unfolding rows.steps
step-IsValid op s h = tasks.steps-IsValid (op ∷ []) s h

after-IsValid :
    (lower : Text → Text) (op : facts.Operation) (s : FactStore)
    → facts.IsValid lower s
    → facts.IsValid lower (facts.step lower op s)
unfolding facts.after_all
after-IsValid lower op s h = facts.after_all-IsValid lower (op ∷ []) s h

module _ (show : Json → Text) (parse : Text → Option Integer) (arguments : Fields) (now : ℕ) where
  pub run_request-IsValid :
      (s : TaskStore) → tasks.IsValid s → tasks.IsValid (run_request show arguments now s).1
  unfolding run_request rows.step
  run_request-IsValid s h =
      let text = text_argument show (lit "request") arguments in
      let kept : tasks.IsValid (left_by s (Tasks.create s text now)) =
        step-IsValid (rows.Operation.create text now) s h in
      elim (Result-cases (Tasks.create s text now)) [
        | inl (made, f) ↦ rw (run_request, f) (rw f at kept)
        | inr (e, f) ↦ elim (Bool-cases (emma.Development.is_value_error e)) [
          | inl g ↦ rw (run_request, f, g) h
          | inr g ↦ rw (run_request, f, g) h
        ]
      ]

  answer_integer-IsValid :
      (i : Integer) (answer : Text) (s : TaskStore)
      → tasks.IsValid s
      → tasks.IsValid (left_by s (answer_integer s i answer now))
  unfolding answer_integer rows.step
  answer_integer-IsValid i answer s h =
      let kept : tasks.IsValid (left_by s (Tasks.record_answer s i.size answer now)) =
        step-IsValid (rows.Operation.record_answer i.size answer now) s h in
      elim (Bool-cases (is_empty (strip answer))) [
        | inl e ↦ rw e h
        | inr e ↦ elim (Bool-cases s.is_open) [
          | inr o ↦ let bad : true ≡ false = sym h.opened ∙ o in cc
          | inl o ↦ elim (Bool-cases (emma.Facts.Tools.is_too_large i)) [
            | inl big ↦ rw (e, o, big) (rw o at h)
            | inr small ↦ elim (Bool-cases i.negative) [
              | inl n ↦ rw (e, o, small, n) (rw o at h)
              | inr n ↦ rw (e, o, small, n) (rw o at kept)
            ]
          ]
        ]
      ]

  pub run_answer-IsValid :
      (s : TaskStore) → tasks.IsValid s → tasks.IsValid (run_answer show parse arguments now s).1
  unfolding run_answer
  run_answer-IsValid s h = elim (Option-cases (get (lit "number") arguments)) [
    | inl e ↦ rw (run_answer, e) h
    | inr (value, e) ↦ elim (Option-cases (int_of parse value)) [
      | inl f ↦ rw (run_answer, e, f) h
      | inr (i, f) ↦
          let answer = text_argument show (lit "answer") arguments in
          let kept = answer_integer-IsValid i answer s h in
          elim (Result-cases (answer_integer s i answer now)) [
            | inr (x, g) ↦ rw (run_answer, e, f, g) h
            | inl ((true, s'), g) ↦ rw (run_answer, e, f, g) (rw g at kept)
            | inl ((false, s'), g) ↦ rw (run_answer, e, f, g) (rw g at kept)
          ]
    ]
  ]

  pub run_abandon-IsValid :
      (s : TaskStore) → tasks.IsValid s → tasks.IsValid (run_abandon show parse arguments now s).1
  unfolding rows.step run_abandon
  run_abandon-IsValid s h =
      let note = drop_note (strip (text_argument show (lit "reason") arguments)) in
      elim (Option-cases (get (lit "number") arguments)) [
        | inl e ↦ rw (run_abandon, e) h
        | inr (value, e) ↦ elim (Option-cases (int_of parse value)) [
          | inl f ↦ rw (run_abandon, e, f) h
          | inr (i, f) ↦ elim (Result-cases (open_tasks s)) [
            | inr (x, g) ↦ rw (run_abandon, e, f, g) h
            | inl (found, g) ↦ elim (Bool-cases (is_open_now i found)) [
              | inr o ↦ rw (run_abandon, e, f, g, o) h
              | inl o ↦
                  let kept : tasks.IsValid (left_by s (Tasks.abandon s i.size note now)) =
                    step-IsValid (rows.Operation.abandon i.size note now) s h in
                  elim (Result-cases (Tasks.abandon s i.size note now)) [
                    | inr (x, k) ↦ rw (run_abandon, e, f, g, o, k) h
                    | inl ((true, s'), k) ↦ rw (run_abandon, e, f, g, o, k) (rw k at kept)
                    | inl ((false, s'), k) ↦ rw (run_abandon, e, f, g, o, k) (rw k at kept)
                  ]
            ]
          ]
        ]
      ]

module _ (show : Json → Text) (parse : Text → Option Integer) (lower : Text → Text)
    (arguments : Fields) (now : ℕ) where
  -- What `remember_fact` is given.
  abbrev fact_of : Text
  fact_of = elim (get (lit "fact") arguments) [ none ↦ lit "" | some value ↦ str_of show value ]

  pub run_remember-IsValid :
      (s : FactStore)
      → facts.IsValid lower s
      → facts.IsValid lower (run_remember show lower arguments now s).1
  unfolding facts.step run_remember
  run_remember-IsValid s h =
      let kept : facts.IsValid lower (facts.left_by s (Facts.remember lower s fact_of now)) =
        after-IsValid lower (facts.Operation.remember fact_of now) s h in
      elim (Result-cases (Facts.remember lower s fact_of now)) [
        | inr (x, f) ↦ rw (run_remember, f) h
        | inl (((none, reason), s'), f) ↦ rw (run_remember, f) (rw f at kept)
        | inl (((some i, reason), s'), f) ↦
            elim (Bool-cases (emma.Common.text_eq reason emma.Facts.already)) [
              | inl g ↦ rw (run_remember, f, g) (rw f at kept)
              | inr g ↦ rw (run_remember, f, g) (rw f at kept)
            ]
      ]

  forget_integer-IsValid :
      (i : Integer) (s : FactStore)
      → facts.IsValid lower s
      → facts.IsValid lower (facts.left_by s (forget_integer s i now))
  unfolding facts.step forget_integer
  forget_integer-IsValid i s h =
      let kept = after-IsValid lower (facts.Operation.forget i.size now) s h in
      elim (Bool-cases s.is_open) [
        | inr o ↦ rw o (rw o at h)
        | inl o ↦ elim (Bool-cases (emma.Facts.Tools.is_too_large i)) [
          | inl big ↦ rw (o, big) (rw o at h)
          | inr small ↦ elim (Bool-cases i.negative) [
            | inl n ↦ rw (o, small, n) (rw o at h)
            | inr n ↦ rw (o, small, n) (rw o at kept)
          ]
        ]
      ]

  pub run_forget-IsValid :
      (s : FactStore)
      → facts.IsValid lower s
      → facts.IsValid lower (run_forget parse arguments now s).1
  unfolding run_forget
  run_forget-IsValid s h = elim (Option-cases (get (lit "number") arguments)) [
    | inl e ↦ rw (run_forget, e) h
    | inr (value, e) ↦ elim (Option-cases (int_of parse value)) [
      | inl f ↦ rw (run_forget, e, f) h
      | inr (i, f) ↦
          let kept = forget_integer-IsValid i s h in
          elim (Result-cases (forget_integer s i now)) [
            | inr (x, g) ↦ rw (run_forget, e, f, g) h
            | inl ((true, s'), g) ↦ rw (run_forget, e, f, g) (rw g at kept)
            | inl ((false, s'), g) ↦ rw (run_forget, e, f, g) (rw g at kept)
          ]
    ]
  ]
