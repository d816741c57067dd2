-- ===== src/App/Turns/Kept.antt =====
-- That a turn of core/router.py with the tools of main.py keeps the invariants of the stores.
use emma.Common.{
  ℕ, ◌≡◌, ap, sym, ◌∙◌, inl, inr, true, false, Option, List, [], ◌∷◌, Text, lit, Dict, lookup, All,
  is_empty, Result, ok, Exc, ok_injective, Bool-cases, Result-cases,
}
use emma.Llm.{Message}
use emma.Llm.Json.{Json, Fields}
use emma.Tasks
use emma.Tasks.Rows as task_rows
use emma.Tasks.Valid as tasks
use emma.Facts.Valid as facts
use emma.ToolState
use emma.ToolState.{disabled, enable, named}
use emma.ToolState.Rows as switches
use emma.ToolState.Removal.{Desk, argument, run_remove, run_enable}
use emma.ToolState.Removal.Stages.{Stages, nothing_done, switched_off, job_filed, run_remove-Stages}
use emma.Router.{Tool, Schema, Memory, AssistantRequest, tools_by_name}
use emma.Router.Handle.{Turn, handle}
use emma.Router.Handle.Preserved.{Keeps, handle-keeps}
use emma.Router.Tools as router_tools
use emma.App.Catalogue.{
  Assistant, Outside, desk_of, request_development, work_status, answer_question,
  abandon_development, running_version, list_tools, remember_fact, forget_fact, current_time,
  remove_tool, enable_tool,
}
use emma.App.Wiring.{Complete, all_tools, other_tools, router_of}
use emma.App.Wiring.Distinct.{index_of, tools_by_name_lem}
use emma.App.Switches.{lookup-All}
use emma.App.Turns.{
  step-IsValid, run_request-IsValid, run_answer-IsValid, run_abandon-IsValid, run_remember-IsValid,
  run_forget-IsValid,
}

-- The stores of the process, each with its invariant.
pub record AllValid (lower : Text → Text) (w : Assistant) : Type 0 where
  pub tasks_hold : tasks.IsValid w.tasks
  pub facts_hold : facts.IsValid lower w.facts
  pub switches_hold : switches.IsValid w.state

abbrev DeskIsValid : Desk → Type 0
DeskIsValid d = tasks.IsValid d.tasks × switches.IsValid d.state

Stages-DeskIsValid :
    (names : List Text) (name reason : Text) (now : ℕ) (d : Desk) (out : Result Exc Text × Desk)
    → Stages names name reason now d out
    → DeskIsValid d
    → DeskIsValid out.1
unfolding task_rows.step
Stages-DeskIsValid names name reason now d _ (nothing_done answer) h = h
Stages-DeskIsValid names name reason now d _ (switched_off answer r free on) h =
    (h.0, switches.All-snoc d.state.rows _ h.1 free)
Stages-DeskIsValid names name reason now d _ (job_filed answer s i ts r free o old none_yet c) h =
    let kept : tasks.IsValid (
        task_rows.left_by d.tasks
          (Tasks.create d.tasks (emma.ToolState.Removal.removal_job name reason) now)) =
      step-IsValid (task_rows.Operation.create (emma.ToolState.Removal.removal_job name reason) now)
        d.tasks h.0 in
    ((rw c at kept), h.1)

run_enable-DeskIsValid :
    (show : Json → Text) (arguments : Fields) (d : Desk)
    → DeskIsValid d
    → DeskIsValid (run_enable show arguments d).1
unfolding run_enable switches.steps switches.step
run_enable-DeskIsValid show arguments d h =
    let name = argument show (lit "name") arguments in
    let kept : switches.IsValid (switches.left_by d.state (enable d.state name)) =
      switches.steps-IsValid (switches.Operation.enable name ∷ []) d.state h.1 in
    elim (Bool-cases (is_empty name)) [
      | inl e ↦ rw e h
      | inr e ↦ elim (Result-cases (enable d.state name)) [
        | inr (x, f) ↦ rw (e, f) h
        | inl ((true, s), f) ↦ rw (e, f) (h.0, (rw f at kept))
        | inl ((false, s), f) ↦ rw (e, f) (h.0, (rw f at kept))
      ]
    ]

module _ (o : Outside) where
  abbrev ToolKeeps : Tool Assistant → Type 0
  ToolKeeps t =
      (arguments : Fields) (w : Assistant)
      → AllValid o.lower w
      → AllValid o.lower (t.run arguments w).1

  list_tools-keeps : (tools : List (Tool Assistant)) → ToolKeeps (list_tools tools)
  unfolding list_tools emma.Introspection.run_inventory emma.Introspection.switched_off
  list_tools-keeps [] arguments w h = h
  list_tools-keeps (t ∷ tools) arguments w h = elim (Result-cases (disabled w.state)) [
    | inl (off, f) ↦ rw f h
    | inr (x, f) ↦ rw f h
  ]

  all_tools-keeps : All ToolKeeps (all_tools o)
  unfolding all_tools other_tools request_development work_status answer_question
      abandon_development running_version remember_fact forget_fact current_time remove_tool
      enable_tool
  all_tools-keeps = (
    (λ a w h. record {
      tasks_hold = run_request-IsValid o.show o.parse a w.now w.tasks h.tasks_hold;
      facts_hold = h.facts_hold;
      switches_hold = h.switches_hold;
    }),
    (
      (λ a w h. h),
      (
        (λ a w h. record {
          tasks_hold = run_answer-IsValid o.show o.parse a w.now w.tasks h.tasks_hold;
          facts_hold = h.facts_hold;
          switches_hold = h.switches_hold;
        }),
        (
          (λ a w h. record {
            tasks_hold = run_abandon-IsValid o.show o.parse a w.now w.tasks h.tasks_hold;
            facts_hold = h.facts_hold;
            switches_hold = h.switches_hold;
          }),
          (
            (λ a w h. h),
            (
              (λ a w h. record {
                tasks_hold = h.tasks_hold;
                facts_hold =
                    run_remember-IsValid o.show o.parse o.lower a w.now w.facts h.facts_hold;
                switches_hold = h.switches_hold;
              }),
              (
                (λ a w h. record {
                  tasks_hold = h.tasks_hold;
                  facts_hold =
                      run_forget-IsValid o.show o.parse o.lower a w.now w.facts h.facts_hold;
                  switches_hold = h.switches_hold;
                }),
                (
                  (λ a w h. h),
                  (
                    (λ a w h.
                        let kept =
                          Stages-DeskIsValid _ _ _ w.now (desk_of w) _
                            (run_remove-Stages o.show _ a w.now (desk_of w))
                            (h.tasks_hold, h.switches_hold) in
                        record {
                          tasks_hold = kept.0;
                          facts_hold = h.facts_hold;
                          switches_hold = kept.1;
                        }),
                    (
                      (λ a w h.
                          let kept =
                            run_enable-DeskIsValid o.show a (desk_of w)
                              (h.tasks_hold, h.switches_hold) in
                          record {
                            tasks_hold = kept.0;
                            facts_hold = h.facts_hold;
                            switches_hold = kept.1;
                          }),
                      (list_tools-keeps _, tt),
                    ),
                  ),
                ),
              ),
            ),
          ),
        ),
      ),
    ),
  )

module _ {M : Type 0} (o : Outside) (complete : Complete) (system_prompt : Text)
    (now : Assistant → ℕ) (index : Dict (Tool Assistant)) (store : Memory M) where
  -- Turns one after the other, whatever each answers.
  abbrev pub turns : List AssistantRequest → Turn Assistant M → Turn Assistant M
  turns [] t = t
  turns (request ∷ requests) t =
      turns requests (handle (router_of o complete system_prompt now) index store request t).1

  gate-keeps :
      (w : Assistant)
      → AllValid o.lower w
      → AllValid o.lower (router_tools.switched_off (router_of o complete system_prompt now) w).1
  unfolding router_tools.switched_off router_of
  gate-keeps w h = elim (Result-cases (disabled w.state)) [
    | inl (off, f) ↦ rw f h
    | inr (x, f) ↦ rw f h
  ]

  wired-Keeps :
      tools_by_name (router_of o complete system_prompt now) ≡ ok index
      → ((system : Text) (messages : List Message) (schemas : Option (List Schema)) (w : Assistant)
          → AllValid o.lower w
          → AllValid o.lower (complete system messages schemas w).1)
      → Keeps (AllValid o.lower) (router_of o complete system_prompt now) index
  unfolding router_of
  wired-Keeps e k = record {
    complete = k;
    gate = gate-keeps;
    providers = ((λ w h. h), ((λ w h. h), tt));
    tools = λ name t found arguments w h.
        let same : index ≡ index_of (all_tools o) =
          ok_injective (sym e ∙ tools_by_name_lem o complete system_prompt now) in
        (lookup-All (ToolKeeps o) name (all_tools o) t (all_tools-keeps o)
            (ap (lookup name) (sym same) ∙ found)).0
          arguments w h;
  }

  -- Whatever the user writes and whatever the model answers and calls, any number of turns keep the
  -- invariants of the queue, of the facts and of the switches, also where a turn raises. It is
  -- assumed that the router took the tools, and that nothing breaks the invariants while the model
  -- is being asked.
  pub turns-AllValid :
      tools_by_name (router_of o complete system_prompt now) ≡ ok index
      → ((system : Text) (messages : List Message) (schemas : Option (List Schema)) (w : Assistant)
          → AllValid o.lower w
          → AllValid o.lower (complete system messages schemas w).1)
      → (requests : List AssistantRequest) (t : Turn Assistant M) → AllValid o.lower t.world
      → AllValid o.lower (turns requests t).world
  turns-AllValid e k [] t h = h
  turns-AllValid e k (request ∷ requests) t h = turns-AllValid e k requests _ (
      handle-keeps (AllValid o.lower) (router_of o complete system_prompt now) index
        (wired-Keeps e k) store request t h)
