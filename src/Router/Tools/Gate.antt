-- ===== src/Router/Tools/Gate.antt =====
-- The gate of core/router.py: what is offered and what is run.
use emma.Common.{
  ◌≡◌, refl, ap, true, false, not, ◌&&◌, Option, none, some, List, [], ◌∷◌, Text, text_eq,
  text_eq_iff, mem_text, map, select, is_empty, Dict, lookup, Result, ok, err, Exc, arith,
  Bool-cases, Option-cases, inl, inr, if◌then◌else◌,
}
use emma.Llm.{WireBlock, tool_result as tool_result_block, wire_text, tool_use, unknown, ToolUse}
use emma.Router.{Router, Tool, Schema}
use emma.Router.Tools.{
  tool_result, switched_off, declaration, offered, tool_schemas, tool_outcome, execute_tool,
}

-- The names declared to the model.
abbrev pub declared : Option (List Schema) → List Text
declared none = []
declared (some schemas) = map (λ s. s.name) schemas

mem_text_same :
    (n : Text) (off : List Text) (m : Text) → text_eq n m ≡ true → mem_text n off ≡ mem_text m off
mem_text_same n off m e = ap (λ x. mem_text x off) ((text_eq_iff n m).0 e)

module _ {W : Type 0} where
  abbrev pub names : List (Tool W) → List Text
  names tools = map (λ t. t.name) tools

  names-select :
      (n : Text) (off : List Text) (tools : List (Tool W))
      → mem_text n (names (select (λ t. not (mem_text t.name off)) tools))
        ≡ (mem_text n (names tools) && not (mem_text n off))
  unfolding select mem_text
  names-select n off [] = refl
  names-select n off (t ∷ ts) = elim (Bool-cases (text_eq n t.name)) [
    | inl e ↦ ground (arith, names-select n off ts, mem_text_same n off t.name e)
    | inr e ↦ ground (arith, names-select n off ts)
  ]

  names-declaration :
      (tools : List (Tool W)) → map (λ s. s.name) (map declaration tools) ≡ names tools
  names-declaration [] = refl
  names-declaration (t ∷ ts) = ap (◌∷◌ t.name) (names-declaration ts)

  declared_offered :
      (tools : List (Tool W))
      → declared (if is_empty tools then none else some (map declaration tools)) ≡ names tools
  declared_offered [] = refl
  declared_offered (t ∷ ts) = names-declaration (t ∷ ts)

  -- The model is told of exactly the registered tools that are not switched off.
  pub tool_schemas-declared :
      (r : Router W) (off : List Text) (n : Text)
      → mem_text n (declared (tool_schemas r off))
        ≡ (mem_text n (names r.tools) && not (mem_text n off))
  unfolding tool_schemas offered
  tool_schemas-declared r off n = rw declared_offered (names-select n off r.tools)

  -- What one call may do: answer as an error with nothing run, or run the tool registered under
  -- its name, which the gate did not switch off.
  pub data CallOutcome (r : Router W) (by_name : Dict (Tool W)) (call : ToolUse) (w : W)
      : WireBlock × W → Type 0 where
    refused :
        (content : Text)
        → CallOutcome r by_name call w (tool_result call.id content true, (switched_off r w).1)
    ran :
        (tool : Tool W)
        → lookup call.name by_name ≡ some tool
        → mem_text call.name (switched_off r w).0 ≡ false
        → CallOutcome r by_name call w
            (tool_outcome call.id (tool.run call.input (switched_off r w).1))

  -- A tool runs only if it is registered and the gate, asked at the call, does not name it; in
  -- every other case the world changes by the gate's answer alone and the model is told.
  pub execute_tool_outcome :
      (r : Router W) (by_name : Dict (Tool W)) (call : ToolUse) (w : W)
      → CallOutcome r by_name call w (execute_tool r by_name call w)
  unfolding execute_tool
  execute_tool_outcome r by_name call w =
      elim (Bool-cases (mem_text call.name (switched_off r w).0)) [
        | inl off ↦ rw (off, execute_tool) (refused _)
        | inr on ↦ elim (Option-cases (lookup call.name by_name)) [
          | inl e ↦ rw (on, execute_tool) (rw e (refused _))
          | inr (tool, e) ↦ rw (on, execute_tool) (rw e (ran tool e on))
        ]
      ]

-- The call that a block answers.
abbrev pub answered : WireBlock → Text
answered (tool_result_block id content e) = id
answered (wire_text t) = []
answered (tool_use id name input) = []
answered unknown = []

module _ {W : Type 0} where
  answered-tool_outcome :
      (call_id : Text) (out : Result Exc Text × W) → answered (tool_outcome call_id out).0 ≡ call_id
  unfolding tool_result
  answered-tool_outcome call_id (ok output, w) = refl
  answered-tool_outcome call_id (err e, w) = refl

  answered-outcome :
      (r : Router W) (by_name : Dict (Tool W)) (call : ToolUse) (w : W) {out : WireBlock × W}
      → CallOutcome r by_name call w out
      → answered out.0 ≡ call.id
  unfolding tool_result
  answered-outcome r by_name call w (refused content) = refl
  answered-outcome r by_name call w (ran tool e on) =
      answered-tool_outcome call.id (tool.run call.input (switched_off r w).1)

  pub answered-execute_tool :
      (r : Router W) (by_name : Dict (Tool W)) (call : ToolUse) (w : W)
      → answered (execute_tool r by_name call w).0 ≡ call.id
  answered-execute_tool r by_name call w =
      answered-outcome r by_name call w (execute_tool_outcome r by_name call w)
