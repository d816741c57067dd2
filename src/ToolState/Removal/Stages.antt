-- ===== src/ToolState/Removal/Stages.antt =====
-- What one run of `remove_tool` (tools/toolstate/tools.py) may do, branch by branch.
use emma.Common.{
  ℕ, ◌+◌, ◌≤◌, ◌≡◌, refl, inl, inr, true, false, none, some, List, [], ◌∷◌, ◌++◌, Text, lit,
  is_empty, mem_text, strip, any, Result, ok, err, Exc, ltb, ltb→le, Bool-cases, Option-cases,
  Result-cases,
}
use emma.Llm.Json.{Json, Fields}
use emma.Tasks
use emma.Tasks.{TaskStore}
use emma.ToolState.{
  SwitchedOff, not_open, protected, named, min_time_off_seconds, disable, insert_or_ignore,
  since_of, disabled_since,
}
use emma.ToolState.Removal.{
  Desk, argument, existing_job, removal_job, file_removal, second_stage, first_stage, run_remove,
}

-- What a run may answer and leave behind.
pub data Stages (names : List Text) (name reason : Text) (now : ℕ) (d : Desk)
    : Result Exc Text × Desk → Type 0 where
  nothing_done : (answer : Result Exc Text) → Stages names name reason now d (answer, d)
  switched_off :
      (answer : Text)
      → mem_text name names ≡ true
      → mem_text name protected ≡ false
      → since_of name d.state.rows ≡ none
      → Stages names name reason now d (
        ok answer,
        record d {
          state = record d.state {
            rows =
                d.state.rows ++ (record { name = name; since = now; reason = strip reason } ∷ []);
          };
        },
      )
  job_filed :
      (answer : Text) (since task_id : ℕ) (tasks : TaskStore)
      → mem_text name names ≡ true
      → mem_text name protected ≡ false
      → since_of name d.state.rows ≡ some since
      → since + min_time_off_seconds ≤ now
      → existing_job name d.tasks ≡ ok none
      → Tasks.create d.tasks (removal_job name reason) now ≡ ok (task_id, tasks)
      → Stages names name reason now d (ok answer, record d { tasks = tasks })

pub since_of-any :
    (name : Text) (rows : List SwitchedOff)
    → any (named name) rows ≡ true
    → (since : ℕ) × (since_of name rows ≡ some since)
unfolding any since_of
since_of-any name [] h = cc
since_of-any name (r ∷ rows) h = elim (Bool-cases (named name r)) [
  | inl e ↦ rw e (r.since, refl)
  | inr e ↦ rw e (since_of-any name rows (rw e at h))
]

since_of-none :
    (name : Text) (rows : List SwitchedOff)
    → any (named name) rows ≡ false
    → since_of name rows ≡ none
unfolding any since_of
since_of-none name [] h = refl
since_of-none name (r ∷ rows) h = elim (Bool-cases (named name r)) [
  | inl e ↦ let bad : true ≡ false = rw e at h in cc
  | inr e ↦ rw e (since_of-none name rows (rw e at h))
]

module _ (names : List Text) (name reason : Text) (now : ℕ) (d : Desk)
    (registered : mem_text name names ≡ true) (free : mem_text name protected ≡ false) where
  file_removal-Stages :
      (since : ℕ)
      → since_of name d.state.rows ≡ some since
      → since + min_time_off_seconds ≤ now
      → Stages names name reason now d (file_removal name reason now d)
  unfolding file_removal
  file_removal-Stages since e old = elim (Result-cases (existing_job name d.tasks)) [
    | inr (x, f) ↦ rw (file_removal, f) (nothing_done _)
    | inl (found, f) ↦ elim (Option-cases found) [
      | inr (job, g) ↦ rw (file_removal, f, g) (nothing_done _)
      | inl g ↦ elim (Result-cases (Tasks.create d.tasks (removal_job name reason) now)) [
        | inr (x, k) ↦ rw (file_removal, f, g, k) (nothing_done _)
        | inl (made, k) ↦
            rw (file_removal, f, g, k)
              (job_filed _ since made.0 made.1 registered free e old (rw g at f) k)
      ]
    ]
  ]

  second_stage-Stages :
      d.state.is_open ≡ true
      → any (named name) d.state.rows ≡ true
      → Stages names name reason now d (second_stage name reason now d)
  unfolding second_stage disabled_since
  second_stage-Stages o off =
      let (since, e) = since_of-any name d.state.rows off in
      let read : disabled_since d.state name ≡ ok (some since) = simp (o, e) in
      elim (Bool-cases (ltb now (since + min_time_off_seconds))) [
        | inl early ↦ rw (second_stage, read, early) (nothing_done _)
        | inr late ↦
            rw (second_stage, read, late)
              (file_removal-Stages since e (ltb→le now (since + min_time_off_seconds) late))
      ]

  first_stage-Stages : Stages names name reason now d (first_stage name reason now d)
  unfolding first_stage disable insert_or_ignore
  first_stage-Stages = elim (Bool-cases d.state.is_open) [
    | inr c ↦
        let e : disable d.state name reason now ≡ err not_open = simp (free, c) in
        rw (first_stage, e) (nothing_done _)
    | inl o ↦ elim (Bool-cases (any (named name) d.state.rows)) [
      | inl f ↦
          let e : disable d.state name reason now ≡ ok (false, d.state) = simp (free, o, f) in
          rw (first_stage, e) (second_stage-Stages o f)
      | inr f ↦
          let e : disable d.state name reason now
              ≡ ok (
                true,
                record d.state {
                  rows =
                      d.state.rows
                      ++ (record { name = name; since = now; reason = strip reason } ∷ []);
                },
              ) =
            simp (free, o, f) in
          rw (first_stage, e) (switched_off _ registered free (since_of-none name d.state.rows f))
    ]
  ]

-- Whatever it is asked, `remove_tool` does one of three things. It changes nothing; or it switches
-- off a registered, unprotected tool that was on; or it files one job for the removal of such a
-- tool, and then the tool had been off for an hour at least before this run, and no open job asked
-- for its removal.
pub run_remove-Stages :
    (show : Json → Text) (names : List Text) (arguments : Fields) (now : ℕ) (d : Desk)
    → Stages names
        (argument show (lit "name") arguments)
        (argument show (lit "reason") arguments)
        now
        d
        (run_remove show names arguments now d)
unfolding run_remove
run_remove-Stages show names arguments now d =
    let name = argument show (lit "name") arguments in
    let reason = argument show (lit "reason") arguments in
    elim (Bool-cases (is_empty name)) [
      | inl a ↦ rw a (nothing_done _)
      | inr a ↦ elim (Bool-cases (is_empty names)) [
        | inl b ↦ rw (a, b) (nothing_done _)
        | inr b ↦ elim (Bool-cases (mem_text name names)) [
          | inr c ↦ rw (a, b, c) (nothing_done _)
          | inl c ↦ elim (Bool-cases (mem_text name protected)) [
            | inl e ↦ rw (a, b, c, e) (nothing_done _)
            | inr e ↦ rw (a, b, c, e) (first_stage-Stages names name reason now d c e)
          ]
        ]
      ]
    ]
