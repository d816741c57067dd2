-- ===== src/App/Switches.antt =====
-- The tools of main.py behind the gate of core/router.py: what `remove_tool` and `enable_tool` (tools/toolstate/tools.py)
-- do to the calls that come after.
pub mod Registered
pub mod Gated
mod Tests
use emma.Common.{
  ℕ, ◌≡◌, ◌⊎◌, refl, ap, sym, ◌∙◌, inl, inr, Bool, true, false, none, some, List, [], ◌∷◌, ◌++◌,
  Text, lit, text_eq, text_eq_iff, mem_text, is_empty, any, lookup, ◌||◌, ◌&&◌, Option, map, All,
  Dict, Result, ok, err, Exc, ok_injective, Bool-cases, Option-cases, Result-cases,
}
use mathlib.Core.Path.{subst}
use emma.Llm.{ToolUse, WireBlock}
use emma.Router.{Tool, Router, tools_by_name}
use emma.Router.Tools.{tool_result, tool_outcome, switched_off, execute_tool, tool_schemas}
use emma.Router.Tools.Gate.{
  CallOutcome, refused, ran, declared, names, execute_tool_outcome, tool_schemas-declared,
}
use emma.ToolState.{SwitchedOff, protected, named, disabled}
use emma.ToolState.Removal.{argument}
use emma.ToolState.Removal.Off.{
  IsOff, run_remove-IsOff, run_remove-keeps, run_enable-keeps, run_enable-on,
}
use emma.App.Catalogue.{
  Assistant, Outside, gate, request_development, work_status, answer_question, abandon_development,
  running_version, list_tools, remember_fact, forget_fact, current_time, remove_tool, enable_tool,
}
use emma.App.Wiring.{Complete, all_tools, other_tools, undescribed, router_of}
use emma.App.Wiring.Distinct.{index_of, tools_by_name_lem}

pub mem_text-any :
    (name : Text) (rows : List SwitchedOff)
    → mem_text name (map (λ row. row.name) rows) ≡ any (named name) rows
unfolding mem_text any
mem_text-any name [] = refl
mem_text-any name (r ∷ rows) = ap (λ b. (text_eq name r.name || b)) (mem_text-any name rows)

-- A tool that is found under a name has what all have, and that name.
pub lookup-All :
    (P : Tool Assistant → Type 0) (name : Text) (tools : List (Tool Assistant)) (t : Tool Assistant)
    → All P tools
    → lookup name (index_of tools) ≡ some t
    → P t × (name ≡ t.name)
unfolding lookup
lookup-All P name [] t h e = cc
lookup-All P name (u ∷ tools) t h e = elim (Bool-cases (text_eq u.name name)) [
  | inl f ↦
      let found : some u ≡ some t = rw f at e in
      let same : u ≡ t = cc in
      (subst P same h.0, sym ((text_eq_iff u.name name).0 f) ∙ ap (λ x. x.name) same)
  | inr f ↦ lookup-All P name tools t h.1 (rw f at e)
]

-- Whether a call is one of `enable_tool` for a tool.
abbrev pub switches_on : Outside → Text → ToolUse → Bool
switches_on o name call =
    text_eq call.name (lit "enable_tool") && text_eq (argument o.show (lit "name") call.input) name

-- What a tool may do to the switch of `name`: a tool that is off stays off, but for a call that switches it on.
abbrev pub Keeps : Outside → Text → Tool Assistant → Type 0
Keeps o name t =
    (call : ToolUse) (w : Assistant)
    → call.name ≡ t.name
    → switches_on o name call ≡ false
    → IsOff name w.state
    → IsOff name (t.run call.input w).1.state

enable_tool-Keeps : (o : Outside) (name : Text) → Keeps o name (enable_tool o)
unfolding enable_tool
enable_tool-Keeps o name call w e n h =
    let here : text_eq call.name (lit "enable_tool") ≡ true =
      (text_eq_iff call.name (lit "enable_tool")).1 e in
    run_enable-keeps o.show call.input name (record { state = w.state; tasks = w.tasks })
      (rw here at n) h

remove_tool-Keeps :
    (o : Outside) (name : Text) (names : List Text) → Keeps o name (remove_tool o names)
unfolding remove_tool
remove_tool-Keeps o name names call w e n h =
    run_remove-keeps o.show names call.input name w.now
      (record { state = w.state; tasks = w.tasks }) h

list_tools-Keeps :
    (o : Outside) (name : Text) (tools : List (Tool Assistant)) → Keeps o name (list_tools tools)
unfolding list_tools emma.Introspection.run_inventory emma.Introspection.switched_off
list_tools-Keeps o name [] call w e n h = h
list_tools-Keeps o name (t ∷ tools) call w e n h = elim (Result-cases (disabled w.state)) [
  | inl (off, f) ↦ rw f h
  | inr (x, f) ↦ rw f h
]

pub all_tools-Keeps : (o : Outside) (name : Text) → All (Keeps o name) (all_tools o)
unfolding all_tools other_tools request_development work_status answer_question abandon_development
    running_version remember_fact forget_fact current_time
all_tools-Keeps o name = (
  (λ call w e n h. h),
  (
    (λ call w e n h. h),
    (
      (λ call w e n h. h),
      (
        (λ call w e n h. h),
        (
          (λ call w e n h. h),
          (
            (λ call w e n h. h),
            (
              (λ call w e n h. h),
              (
                (λ call w e n h. h),
                (
                  remove_tool-Keeps o name _,
                  (enable_tool-Keeps o name, (list_tools-Keeps o name _, tt)),
                ),
              ),
            ),
          ),
        ),
      ),
    ),
  ),
)
