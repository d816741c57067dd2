-- ===== src/App/Switches/Gated.antt =====
-- That a tool that was switched off is refused until it is switched on, with the tools and the gate of main.py.
use emma.Common.{
  ℕ, ◌≡◌, refl, ap, sym, ◌∙◌, inl, inr, true, false, some, List, [], ◌∷◌, ◌++◌, Text, lit, mem_text,
  is_empty, any, lookup, map, All, Dict, Result, ok, err, Exc, arith, ok_injective, Result-cases,
}
use mathlib.Core.Path.{subst}
use emma.Llm.{ToolUse, WireBlock}
use emma.Router.{Tool, Router, tools_by_name}
use emma.Router.Tools.{tool_result, tool_outcome, switched_off, execute_tool, tool_schemas}
use emma.Router.Tools.Gate.{
  CallOutcome, refused, ran, declared, names, execute_tool_outcome, tool_schemas-declared,
}
use emma.ToolState.{ToolStateStore, protected, named, disabled}
use emma.ToolState.Rows.{IsValid, protected_is_on}
use emma.ToolState.Removal.{run_remove, run_enable, argument}
use emma.ToolState.Removal.Off.{IsOff, run_remove-IsOff, run_enable-on}
use emma.App.Catalogue.{desk_of, Assistant, Outside, remove_tool, enable_tool}
use emma.App.Wiring.{Complete, all_tools, undescribed, router_of}
use emma.App.Wiring.Distinct.{index_of, tools_by_name_lem}
use emma.App.Switches.Registered.{
  registered_named, found_named, enable_tool-protected, same_names, remove_tool-found,
  enable_tool-found, remove_tool-state, enable_tool-state,
}
use emma.App.Switches.{mem_text-any, lookup-All, switches_on, Keeps, all_tools-Keeps}

-- A store that is open, with the tool on.
abbrev IsOn : Text → ToolStateStore → Type 0
IsOn name s = (s.is_open ≡ true) × (any (named name) s.rows ≡ false)

-- The text of the refusal.
abbrev pub refusal : Text → Text
refusal name =
    lit "lo strumento "
    ++ (name ++ lit " e' disattivato: non posso usarlo finche' non viene riattivato")

outcome-state :
    (call_id : Text) (out : Result Exc Text × Assistant)
    → (tool_outcome call_id out).1.state ≡ out.1.state
outcome-state call_id (ok output, w) = refl
outcome-state call_id (err e, w) = refl

module _ (o : Outside) (complete : Complete) (system_prompt : Text) (now : Assistant → ℕ) where
  abbrev pub wired : Router Assistant
  wired = router_of o complete system_prompt now

  -- What calls one after the other leave of the world.
  abbrev pub after_calls : Dict (Tool Assistant) → List ToolUse → Assistant → Assistant
  after_calls index [] w = w
  after_calls index (call ∷ calls) w = after_calls index calls (execute_tool wired index call w).1

  -- What the gate of the program answers is the table.
  gated :
      (w : Assistant)
      → w.state.is_open ≡ true
      → switched_off wired w ≡ (map (λ row. row.name) w.state.rows, w)
  unfolding switched_off router_of disabled
  gated w h = rw h refl

  gated_same : (w : Assistant) → (switched_off wired w).1 ≡ w
  unfolding switched_off router_of
  gated_same w = elim (Result-cases (disabled w.state)) [
    | inl (off, f) ↦ rw f refl
    | inr (x, f) ↦ rw f refl
  ]

  refused_when_off :
      (index : Dict (Tool Assistant)) (call : ToolUse) (w : Assistant)
      → IsOff call.name w.state
      → execute_tool wired index call w ≡ (tool_result call.id (refusal call.name) true, w)
  unfolding execute_tool
  refused_when_off index call w h =
      rw (gated w h.0) (rw (mem_text-any call.name w.state.rows, h.1) refl)

  runs_when_on :
      (index : Dict (Tool Assistant)) (call : ToolUse) (w : Assistant) (t : Tool Assistant)
      → w.state.is_open ≡ true
      → any (named call.name) w.state.rows ≡ false
      → lookup call.name index ≡ some t
      → execute_tool wired index call w ≡ tool_outcome call.id (t.run call.input w)
  unfolding execute_tool
  runs_when_on index call w t h on e = rw (gated w h) (
      rw (mem_text-any call.name w.state.rows, on)
        (rw e (ap (λ x. tool_outcome call.id (t.run call.input x)) (gated_same w))))

  outcome-IsOff :
      (name : Text) (index : Dict (Tool Assistant)) (call : ToolUse) (w : Assistant)
      (out : WireBlock × Assistant)
      → tools_by_name wired ≡ ok index
      → switches_on o name call ≡ false
      → CallOutcome wired index call w out
      → IsOff name w.state
      → IsOff name out.1.state
  outcome-IsOff name index call w _ e n (refused content) h =
      subst (λ x. IsOff name x.state) (sym (gated_same w)) h
  outcome-IsOff name index call w _ e n (ran tool found on) h =
      let same : index ≡ index_of (all_tools o) =
        ok_injective (sym e ∙ tools_by_name_lem o complete system_prompt now) in
      let (keeps, known) =
        lookup-All (Keeps o name) call.name (all_tools o) tool (all_tools-Keeps o name)
          (ap (lookup call.name) (sym same) ∙ found) in
      subst (IsOff name)
        (sym (outcome-state call.id (tool.run call.input (switched_off wired w).1)))
        (subst (λ x. IsOff name (tool.run call.input x).1.state) (sym (gated_same w))
          (keeps call w known n h))

  after_calls-IsOff :
      (name : Text) (index : Dict (Tool Assistant)) (calls : List ToolUse) (w : Assistant)
      → tools_by_name wired ≡ ok index
      → All (λ call. switches_on o name call ≡ false) calls
      → IsOff name w.state
      → IsOff name (after_calls index calls w).state
  after_calls-IsOff name index [] w e n h = h
  after_calls-IsOff name index (call ∷ calls) w e n h =
      after_calls-IsOff name index calls _ e n.1
        (outcome-IsOff name index call w _ e n.0 (execute_tool_outcome wired index call w) h)

  not_declared :
      (name : Text) (w : Assistant)
      → IsOff name w.state
      → mem_text name (declared (tool_schemas wired (switched_off wired w).0)) ≡ false
  not_declared name w h =
      rw (tool_schemas-declared, gated w h.0)
        (rw (mem_text-any name w.state.rows, h.1) (ground arith))

  -- A call of a tool that is on and found under its name.
  called :
      (index : Dict (Tool Assistant)) (call : ToolUse) (name : Text) (w : Assistant)
      (t : Tool Assistant)
      → tools_by_name wired ≡ ok index
      → w.state.is_open ≡ true
      → any (named name) w.state.rows ≡ false
      → call.name ≡ name
      → lookup name (index_of (all_tools o)) ≡ some t
      → (execute_tool wired index call w).1.state ≡ (t.run call.input w).1.state
  called index call name w t e o' on r f =
      let same : index ≡ index_of (all_tools o) =
        ok_injective (sym e ∙ tools_by_name_lem o complete system_prompt now) in
      ap (λ x. x.1.state)
        (runs_when_on index call w t o' (ap (λ n. any (named n) w.state.rows) r ∙ on)
          (rw (same, r) f))
      ∙ outcome-state call.id (t.run call.input w)

  removed :
      (index : Dict (Tool Assistant)) (call : ToolUse) (name : Text) (w : Assistant)
      → tools_by_name wired ≡ ok index
      → w.state.is_open ≡ true
      → any (named (lit "remove_tool")) w.state.rows ≡ false
      → call.name ≡ lit "remove_tool"
      → argument o.show (lit "name") call.input ≡ name
      → mem_text name (names (all_tools o)) ≡ true
      → mem_text name protected ≡ false
      → IsOff name (execute_tool wired index call w).1.state
  removed index call name w e o' on r a m p =
      let named_so : IsOff name
          (run_remove o.show (names (undescribed o)) call.input w.now (desk_of w)).1.state =
        subst
          (λ n.
            IsOff n
              (run_remove o.show (names (undescribed o)) call.input w.now (desk_of w)).1.state)
          a
          (run_remove-IsOff o.show (names (undescribed o)) call.input w.now (desk_of w) o'
            (ap (λ n. mem_text n (names (undescribed o))) a
              ∙ (ap (mem_text name) (same_names o) ∙ m))
            (ap (λ n. mem_text n protected) a ∙ p) (ap is_empty a ∙ registered_named o name m)) in
      subst (IsOff name)
        (sym (
          called index call (lit "remove_tool") w (remove_tool o (names (undescribed o))) e o' on r
            (remove_tool-found o)
          ∙ remove_tool-state o (names (undescribed o)) call.input w))
        named_so

  enabled :
      (index : Dict (Tool Assistant)) (call : ToolUse) (name : Text) (w : Assistant)
      → tools_by_name wired ≡ ok index
      → w.state.is_open ≡ true
      → any (named (lit "enable_tool")) w.state.rows ≡ false
      → call.name ≡ lit "enable_tool"
      → argument o.show (lit "name") call.input ≡ name
      → is_empty name ≡ false
      → IsOn name (execute_tool wired index call w).1.state
  enabled index call name w e o' on r a full =
      let named_so : IsOn name (run_enable o.show call.input (desk_of w)).1.state =
        subst (λ n. IsOn n (run_enable o.show call.input (desk_of w)).1.state) a
          (run_enable-on o.show call.input (desk_of w) o' (ap is_empty a ∙ full)) in
      subst (IsOn name)
        (sym (
          called index call (lit "enable_tool") w (enable_tool o) e o' on r (enable_tool-found o)
          ∙ enable_tool-state o call.input w))
        named_so

  -- Once the model has called `remove_tool` for a tool that is registered and not protected, the
  -- model is no longer told of that tool and a call of it is refused, with nothing run and nothing
  -- changed: at once, and after any sequence of calls that has no call of `enable_tool` for it. It
  -- is assumed that the router took the tools, that the table of the switches is open and that
  -- `remove_tool` itself was on.
  pub refused_until_switched_on :
      (index : Dict (Tool Assistant)) (removal later : ToolUse) (between : List ToolUse)
      (w : Assistant)
      → tools_by_name wired ≡ ok index
      → w.state.is_open ≡ true
      → any (named (lit "remove_tool")) w.state.rows ≡ false
      → removal.name ≡ lit "remove_tool"
      → argument o.show (lit "name") removal.input ≡ later.name
      → mem_text later.name (names (all_tools o)) ≡ true
      → mem_text later.name protected ≡ false
      → All (λ call. switches_on o later.name call ≡ false) between
      → let after = after_calls index between (execute_tool wired index removal w).1 in
        (execute_tool wired index later after
          ≡ (tool_result later.id (refusal later.name) true, after))
        × (mem_text later.name (declared (tool_schemas wired (switched_off wired after).0)) ≡ false)
  refused_until_switched_on index removal later between w e o' on r a m p n =
      let off =
        after_calls-IsOff later.name index between _ e n
          (removed index removal later.name w e o' on r a m p) in
      (refused_when_off index later _ off, not_declared later.name _ off)

  -- Once the model has called `enable_tool` for a registered tool, a call of that tool is run. It is
  -- assumed that the router took the tools and that the table of the switches is open and has no
  -- protected tool in it.
  pub runs_once_switched_on :
      (index : Dict (Tool Assistant)) (call later : ToolUse) (w : Assistant) (t : Tool Assistant)
      → tools_by_name wired ≡ ok index
      → w.state.is_open ≡ true
      → IsValid w.state
      → call.name ≡ lit "enable_tool"
      → argument o.show (lit "name") call.input ≡ later.name
      → lookup later.name index ≡ some t
      → let after = (execute_tool wired index call w).1 in
        execute_tool wired index later after ≡ tool_outcome later.id (t.run later.input after)
  runs_once_switched_on index call later w t e o' valid r a f =
      let same = ok_injective (sym e ∙ tools_by_name_lem o complete system_prompt now) in
      let full = found_named o later.name t (ap (lookup later.name) (sym same) ∙ f) in
      let on : any (named (lit "enable_tool")) w.state.rows ≡ false =
        sym (mem_text-any (lit "enable_tool") w.state.rows)
        ∙ protected_is_on (lit "enable_tool") w.state.rows enable_tool-protected valid in
      let (open_still, on_now) = enabled index call later.name w e o' on r a full in
      runs_when_on index later _ t open_still on_now f
