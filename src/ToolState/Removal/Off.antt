-- ===== src/ToolState/Removal/Off.antt =====
-- That a tool is off after a run of `remove_tool`, and on after one of `enable_tool` (tools/toolstate/tools.py).
use emma.Common.{
  ℕ, ◌+◌, ◌≡◌, refl, ap, sym, ◌∙◌, inl, inr, true, false, not, List, [], ◌∷◌, ◌++◌, Text, lit,
  is_empty, mem_text, text_eq, text_eq_refl, text_eq_iff, strip, any, select, Result, ok, Exc, ltb,
  Bool-cases, Option-cases, Result-cases, arith,
}
use emma.Llm.Json.{Json, Fields}
use emma.Tasks
use emma.ToolState.{
  SwitchedOff, ToolStateStore, protected, named, min_time_off_seconds, disable, enable,
  insert_or_ignore, disabled_since,
}
use emma.ToolState.Removal.{
  Desk, argument, existing_job, removal_job, file_removal, second_stage, first_stage, run_remove,
  run_enable,
}
use emma.ToolState.Removal.Stages.{Stages, nothing_done, switched_off, job_filed, run_remove-Stages}

mem_text-is_empty :
    (name : Text) (names : List Text) → mem_text name names ≡ true → is_empty names ≡ false
unfolding mem_text
mem_text-is_empty name [] h = cc
mem_text-is_empty name (n ∷ names) h = refl

-- Filing the job of a removal leaves the switches alone.
file_removal-state :
    (name reason : Text) (now : ℕ) (d : Desk) → (file_removal name reason now d).1.state ≡ d.state
unfolding file_removal
file_removal-state name reason now d = elim (Result-cases (existing_job name d.tasks)) [
  | inr (x, f) ↦ rw (file_removal, f) refl
  | inl (found, f) ↦ elim (Option-cases found) [
    | inr (job, g) ↦ rw (file_removal, f, g) refl
    | inl g ↦ elim (Result-cases (Tasks.create d.tasks (removal_job name reason) now)) [
      | inl (made, h) ↦ rw (file_removal, f, g, h) refl
      | inr (x, h) ↦ rw (file_removal, f, g, h) refl
    ]
  ]
]

second_stage-state :
    (name reason : Text) (now : ℕ) (d : Desk) → (second_stage name reason now d).1.state ≡ d.state
unfolding second_stage
second_stage-state name reason now d = elim (Result-cases (disabled_since d.state name)) [
  | inr (x, f) ↦ rw (second_stage, f) refl
  | inl (found, f) ↦ elim (Option-cases found) [
    | inl g ↦ rw (second_stage, f, g) (file_removal-state name reason now d)
    | inr (since, g) ↦ elim (Bool-cases (ltb now (since + min_time_off_seconds))) [
      | inl e ↦ rw (second_stage, f, g, e) refl
      | inr e ↦ rw (second_stage, f, g, e) (file_removal-state name reason now d)
    ]
  ]
]

any_append :
    (name : Text) (rows more : List SwitchedOff)
    → any (named name) rows ≡ true
    → any (named name) (rows ++ more) ≡ true
unfolding any
any_append name [] more h = cc
any_append name (r ∷ rows) more h = elim (Bool-cases (named name r)) [
  | inl e ↦ rw e refl
  | inr e ↦ rw e (any_append name rows more (rw e at h))
]

any_last :
    (name : Text) (rows : List SwitchedOff) (row : SwitchedOff)
    → named name row ≡ true
    → any (named name) (rows ++ (row ∷ [])) ≡ true
unfolding any
any_last name [] row h = rw (any, h) refl
any_last name (r ∷ rows) row h = ground (arith, any_last name rows row h)

-- A store that is open, with the tool off.
abbrev pub IsOff : Text → ToolStateStore → Type 0
IsOff name s = (s.is_open ≡ true) × (any (named name) s.rows ≡ true)

first_stage-IsOff :
    (name reason : Text) (now : ℕ) (d : Desk)
    → d.state.is_open ≡ true
    → mem_text name protected ≡ false
    → IsOff name (first_stage name reason now d).1.state
unfolding first_stage disable insert_or_ignore
first_stage-IsOff name reason now d o p = elim (Bool-cases (any (named name) d.state.rows)) [
  | inl e ↦
      let off : disable d.state name reason now ≡ ok (false, d.state) =
        rw (disable, p) (simp (o, e)) in
      let same = second_stage-state name reason now d in rw (first_stage, off) (rw same (o, e))
  | inr e ↦
      let row : SwitchedOff = record { name = name; since = now; reason = strip reason } in
      let on : disable d.state name reason now
          ≡ ok (true, record d.state { rows = d.state.rows ++ (row ∷ []) }) =
        rw (disable, p) (simp (o, e)) in
      rw (first_stage, on) (o, any_last name d.state.rows row (text_eq_refl name))
]

module _ (show : Json → Text) (names : List Text) (arguments : Fields) where
  -- The first run for a tool that there is and that may be switched off, and any later one, leave it off.
  pub run_remove-IsOff :
      (now : ℕ) (d : Desk)
      → d.state.is_open ≡ true
      → mem_text (argument show (lit "name") arguments) names ≡ true
      → mem_text (argument show (lit "name") arguments) protected ≡ false
      → is_empty (argument show (lit "name") arguments) ≡ false
      → IsOff (argument show (lit "name") arguments) (run_remove show names arguments now d).1.state
  unfolding run_remove
  run_remove-IsOff now d o m p e =
      rw (e, mem_text-is_empty _ names m, m, p)
        (first_stage-IsOff (argument show (lit "name") arguments)
          (argument show (lit "reason") arguments) now d o p)

  Stages-IsOff :
      (name other reason : Text) (now : ℕ) (d : Desk) (out : Result Exc Text × Desk)
      → Stages names other reason now d out
      → IsOff name d.state
      → IsOff name out.1.state
  Stages-IsOff name other reason now d _ (nothing_done answer) h = h
  Stages-IsOff name other reason now d _ (switched_off answer r f on) h =
      (h.0, any_append name d.state.rows _ h.1)
  Stages-IsOff name other reason now d _ (job_filed answer s i ts r f o old none_yet c) h = h

  -- No run of `remove_tool` switches a tool on.
  pub run_remove-keeps :
      (name : Text) (now : ℕ) (d : Desk)
      → IsOff name d.state
      → IsOff name (run_remove show names arguments now d).1.state
  run_remove-keeps name now d =
      Stages-IsOff name _ _ now d _ (run_remove-Stages show names arguments now d)

any-select :
    (name other : Text) (rows : List SwitchedOff)
    → text_eq other name ≡ false
    → any (named name) rows ≡ true
    → any (named name) (select (λ row. not (named other row)) rows) ≡ true
unfolding any select
any-select name other [] n h = cc
any-select name other (r ∷ rows) n h = elim (Bool-cases (named name r)) [
  | inl e ↦
      let here : named other r ≡ false =
        ap (text_eq other) (sym ((text_eq_iff name r.name).0 e)) ∙ n in
      rw here (rw e refl)
  | inr e ↦
      let rest = any-select name other rows n (rw e at h) in
      elim (Bool-cases (named other r)) [ inl f ↦ rw f rest | inr f ↦ rw f (rw e rest) ]
]

any_none :
    (name : Text) (rows : List SwitchedOff)
    → any (named name) (select (λ row. not (named name row)) rows) ≡ false
unfolding any select
any_none name [] = refl
any_none name (r ∷ rows) = elim (Bool-cases (named name r)) [
  | inl e ↦ rw e (any_none name rows)
  | inr e ↦ rw e (rw e (any_none name rows))
]

module _ (show : Json → Text) (arguments : Fields) where
  -- `enable_tool` leaves off every tool but the one that it is given.
  pub run_enable-keeps :
      (name : Text) (d : Desk)
      → text_eq (argument show (lit "name") arguments) name ≡ false
      → IsOff name d.state
      → IsOff name (run_enable show arguments d).1.state
  unfolding run_enable enable
  run_enable-keeps name d n h =
      elim (Bool-cases (is_empty (argument show (lit "name") arguments))) [
        | inl e ↦ rw e h
        | inr e ↦
            elim (Bool-cases (any (named (argument show (lit "name") arguments)) d.state.rows)) [
              | inl f ↦ rw (e, h.0, f) (refl, any-select name _ d.state.rows n h.1)
              | inr f ↦ rw (e, h.0, f) (refl, any-select name _ d.state.rows n h.1)
            ]
      ]

  -- The one that it is given is on.
  pub run_enable-on :
      (d : Desk)
      → d.state.is_open ≡ true
      → is_empty (argument show (lit "name") arguments) ≡ false
      → ((run_enable show arguments d).1.state.is_open ≡ true)
        × (any
              (named (argument show (lit "name") arguments))
              (run_enable show arguments d).1.state.rows
            ≡ false)
  unfolding run_enable enable
  run_enable-on d o e =
      elim (Bool-cases (any (named (argument show (lit "name") arguments)) d.state.rows)) [
        | inl f ↦ rw (e, o, f) (refl, any_none _ d.state.rows)
        | inr f ↦ rw (e, o, f) (refl, any_none _ d.state.rows)
      ]
