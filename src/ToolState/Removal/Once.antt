-- ===== src/ToolState/Removal/Once.antt =====
-- `remove_tool` (tools/toolstate/tools.py) when it is asked again.
use emma.Common.{
  ℕ, ◌+◌, ◌≡◌, refl, ap, sym, ◌∙◌, ◌⊎◌, inl, inr, Bool, true, false, none, some, List, [], ◌∷◌,
  ◌++◌, append_assoc, Text, lit, is_empty, is_space, lstrip, rstrip, strip, starts_with,
  starts_with-append, select, select-append, Result, ok, err, Exc, Bool-cases, ok_injective, ◌||◌,
  if◌then◌else◌,
}
use mathlib.Core.Path.{subst}
use emma.Llm.Json.{Json, Fields}
use emma.Tasks
use emma.Tasks.{Task, TaskStore, open_tasks, insert_task}
use emma.ToolState.{since_of}
use emma.ToolState.Removal.{
  Desk, argument, removal_request, removal_job, first_job, existing_job, run_remove,
}
use emma.ToolState.Removal.Stages.{Stages, nothing_done, switched_off, job_filed, run_remove-Stages}

is_empty-snoc : (xs : Text) (c : ℕ) → is_empty (xs ++ (c ∷ [])) ≡ false
is_empty-snoc [] c = refl
is_empty-snoc (x ∷ xs) c = refl

-- A text that ends in no blank keeps its end.
rstrip-snoc : (xs : Text) (c : ℕ) → is_space c ≡ false → rstrip (xs ++ (c ∷ [])) ≡ xs ++ (c ∷ [])
unfolding rstrip
rstrip-snoc [] c h = rw h refl
rstrip-snoc (x ∷ xs) c h =
    rw (rstrip-snoc xs c h, is_empty-snoc xs c)
      (elim (Bool-cases (is_space x)) [ inl e ↦ rw e refl | inr e ↦ rw e refl ])

strip_same :
    (c : ℕ) (xs : Text) (d : ℕ)
    → is_space c ≡ false
    → is_space d ≡ false
    → strip (c ∷ (xs ++ (d ∷ []))) ≡ c ∷ (xs ++ (d ∷ []))
unfolding strip lstrip
strip_same c xs d h k = rw h (rstrip-snoc (c ∷ xs) d k)

-- What `create` stores of the job is the text that it is given.
strip-removal_job :
    (name reason : Text)
    → (strip (removal_job name reason) ≡ removal_job name reason)
      × (is_empty (removal_job name reason) ≡ false)
unfolding removal_job removal_request lit is_space
strip-removal_job name reason =
    let opening = lit "imuovere del tutto lo strumento " ++ (name ++ lit " dalla codebase") in
    let middle = if is_empty reason then [] else lit " (" ++ (reason ++ lit ")") in
    let last = lit ". Togliere anche la sua riga dalla tabella tool_state" in
    let e : removal_job name reason ≡ 114 ∷ ((opening ++ (middle ++ last)) ++ (46 ∷ [])) =
      ap (◌∷◌ 114) (
        ap (λ x. opening ++ x) (sym (append_assoc middle last (46 ∷ [])))
        ∙ sym (append_assoc opening (middle ++ last) (46 ∷ []))) in
    (ap strip e ∙ strip_same 114 (opening ++ (middle ++ last)) 46 refl refl ∙ sym e, refl)

first_job-append :
    (marker : Text) (xs ys : List Task)
    → first_job marker xs ≡ none
    → first_job marker (xs ++ ys) ≡ first_job marker ys
unfolding first_job
first_job-append marker [] ys h = refl
first_job-append marker (x ∷ xs) ys h = elim (Bool-cases (starts_with marker x.request)) [
  | inl e ↦ let bad : some x.id ≡ none = rw e at h in cc
  | inr e ↦ rw e (first_job-append marker xs ys (rw e at h))
]

existing_job-open :
    (name : Text) (tasks : TaskStore)
    → tasks.is_open ≡ true
    → existing_job name tasks
      ≡ ok (
          first_job
            (removal_request name)
            (select (λ t. Tasks.is_queued t || Tasks.is_waiting t) tasks.tasks))
unfolding existing_job open_tasks Tasks.select_tasks
existing_job-open name tasks o = rw o refl

create-open :
    (tasks : TaskStore) (text : Text) (now : ℕ) (made : ℕ × TaskStore)
    → is_empty (strip text) ≡ false
    → Tasks.create tasks text now ≡ ok made
    → (tasks.is_open ≡ true) × ((tasks.last_id + 1, insert_task (strip text) now tasks) ≡ made)
unfolding Tasks.create
create-open tasks text now made h e = elim (Bool-cases tasks.is_open) [
  | inl o ↦
      let good : Tasks.create tasks text now
          ≡ ok (tasks.last_id + 1, insert_task (strip text) now tasks) =
        rw h (rw o refl) in
      (o, ok_injective (sym good ∙ e))
  | inr c ↦ let bad : err Tasks.not_open ≡ ok made = simp (h, c) at e in cc
]

abbrev is_open_task : Task → Bool
is_open_task t = Tasks.is_queued t || Tasks.is_waiting t

starts-removal_job :
    (name reason : Text)
    → starts_with (removal_request name) (strip (removal_job name reason)) ≡ true
unfolding removal_job
starts-removal_job name reason =
    rw ((strip-removal_job name reason).0) (starts_with-append (removal_request name) _)

found-insert_task :
    (marker text : Text) (now : ℕ) (tasks : TaskStore)
    → first_job marker (select is_open_task tasks.tasks) ≡ none
    → starts_with marker text ≡ true
    → first_job marker (select is_open_task (insert_task text now tasks).tasks)
      ≡ some (tasks.last_id + 1)
unfolding insert_task
found-insert_task marker text now tasks h k = rw select-append (
    first_job-append marker (select is_open_task tasks.tasks) _ h
    ∙ (unfold select first_job in rw k refl))

-- The job that was filed is the one that is found.
filed_found :
    (name reason : Text) (now task_id : ℕ) (tasks filed : TaskStore)
    → existing_job name tasks ≡ ok none
    → Tasks.create tasks (removal_job name reason) now ≡ ok (task_id, filed)
    → existing_job name filed ≡ ok (some (tasks.last_id + 1))
unfolding insert_task
filed_found name reason now task_id tasks filed h e =
    let job = removal_job name reason in
    let (same, readable) = strip-removal_job name reason in
    let (o, f) = create-open tasks job now (task_id, filed) (ap is_empty same ∙ readable) e in
    let before : first_job (removal_request name) (select is_open_task tasks.tasks) ≡ none =
      ok_injective (sym (existing_job-open name tasks o) ∙ h) in
    subst (λ ts. existing_job name ts ≡ ok (some (tasks.last_id + 1))) (ap (λ p. p.1) f)
      (existing_job-open name (insert_task (strip job) now tasks) o
        ∙ ap ok (
            found-insert_task (removal_request name) (strip job) now tasks before
              (starts-removal_job name reason)))

-- A tool that is off and whose job is found stays as it is.
settled :
    (names : List Text) (name reason : Text) (now : ℕ) (d : Desk) (out : Result Exc Text × Desk)
    (since job : ℕ)
    → since_of name d.state.rows ≡ some since
    → existing_job name d.tasks ≡ ok (some job)
    → Stages names name reason now d out
    → out.1 ≡ d
settled names name reason now d _ since job off found (nothing_done answer) = refl
settled names name reason now d _ since job off found (switched_off answer r f on) =
    let bad : some since ≡ none = sym off ∙ on in cc
settled names name reason now d _ since job off found
      (job_filed answer s i ts r f o old none_yet c) =
    let bad : ok (some job) ≡ ok none = sym found ∙ none_yet in cc

module _ (show : Json → Text) (names : List Text) (arguments : Fields) where
  abbrev ask : ℕ → Desk → Result Exc Text × Desk
  ask now d = run_remove show names arguments now d

  abbrev asked : Text
  asked = argument show (lit "name") arguments

  filed-settled :
      (now : ℕ) (d : Desk) (out : Result Exc Text × Desk) (since : ℕ)
      → since_of asked d.state.rows ≡ some since
      → Stages names asked (argument show (lit "reason") arguments) now d out
      → (out.1 ≡ d) ⊎ ((later : ℕ) → (ask later out.1).1 ≡ out.1)
  filed-settled now d _ since off (nothing_done answer) = inl refl
  filed-settled now d _ since off (switched_off answer r f on) =
      let bad : some since ≡ none = sym off ∙ on in cc
  filed-settled now d _ since off (job_filed answer s i ts r f o old none_yet c) = inr (λ later.
      settled names asked (argument show (lit "reason") arguments) later (record d { tasks = ts }) _
        since (d.tasks.last_id + 1) off
        (filed_found asked (argument show (lit "reason") arguments) now i d.tasks ts none_yet c)
        (run_remove-Stages show names arguments later (record d { tasks = ts })))

  -- Of a tool that is off, a removal is filed once: a run that changes anything is followed by none
  -- that does. However much later the same is asked again, the switches and the queue stay as they
  -- are.
  pub filed_once :
      (now : ℕ) (d : Desk) (since : ℕ)
      → since_of asked d.state.rows ≡ some since
      → ((ask now d).1 ≡ d) ⊎ ((later : ℕ) → (ask later (ask now d).1).1 ≡ (ask now d).1)
  filed_once now d since off =
      filed-settled now d _ since off (run_remove-Stages show names arguments now d)
