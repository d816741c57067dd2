-- ===== src/Router/Tools.antt =====
-- core/router.py: the gate, the declarations, one tool call, and the system prompt of a turn.
pub mod Gate
use emma.Common.{
  Bool, true, false, not, Option, none, some, List, [], ◌∷◌, ◌++◌, Text, lit, newline, join, strip,
  is_empty, text_eq, mem_text, map, select, Dict, lookup, Result, ok, err, Exc, if◌then◌else◌,
}
use emma.Llm.{WireBlock, tool_result as tool_result_block, ToolUse, blank_line}
use emma.Llm.Json.{Fields}
use emma.Router.{Router, Tool, Schema}

-- `_tool_result`
unfoldable pub tool_result : Text → Text → Bool → WireBlock
tool_result call_id content is_error = tool_result_block call_id content is_error

-- What a snapshot adds to the lines: nothing if it raised or is empty.
abbrev pub snapshot_lines : Result Exc Text → List Text
snapshot_lines (ok []) = []
snapshot_lines (ok (c ∷ cs)) = strip (c ∷ cs) ∷ []
snapshot_lines (err e) = []

module _ {W : Type 0} where
  -- What a gate that answers, or fails to, is taken to say.
  abbrev pub gate_answer : Result Exc (List Text) × W → List Text × W
  gate_answer (ok names, w) = (names, w)
  gate_answer (err e, w) = ([], w)

  unfoldable pub switched_off : Router W → W → List Text × W
  switched_off r w = elim r.tool_gate [ none ↦ ([], w) | some disabled ↦ gate_answer (disabled w) ]

  abbrev pub declaration : Tool W → Schema
  declaration tool = record {
    name = tool.name;
    description = tool.description;
    input_schema = tool.input_schema;
  }

  unfoldable pub offered : Router W → List Text → List (Tool W)
  offered r off = select (λ tool. not (mem_text tool.name off)) r.tools

  unfoldable pub tool_schemas : Router W → List Text → Option (List Schema)
  unfolding offered
  tool_schemas r off =
      let tools = offered r off in if is_empty tools then none else some (map declaration tools)

  abbrev pub tool_outcome : Text → Result Exc Text × W → WireBlock × W
  tool_outcome call_id (ok output, w) = (tool_result call_id output false, w)
  tool_outcome call_id (err e, w) = (tool_result call_id (lit "tool error: " ++ e.message) true, w)

  -- `by_name` is `_tools_by_name`.
  unfoldable pub execute_tool : Router W → Dict (Tool W) → ToolUse → W → WireBlock × W
  unfolding switched_off tool_result
  execute_tool r by_name call w =
      let (off, w') = switched_off r w in
      if mem_text call.name off
      then (
        tool_result call.id
            (lit "lo strumento "
              ++ (call.name
                  ++ lit " e' disattivato: non posso usarlo finche' non viene riattivato"))
            true,
        w',
      )
      else elim (lookup call.name by_name) [
        | none ↦ (tool_result call.id (lit "unknown tool: " ++ call.name) true, w')
        | some tool ↦ tool_outcome call.id (tool.run call.input w')
      ]

  unfoldable pub gather : List (W → Result Exc Text × W) → W → List Text × W
  gather [] w = ([], w)
  gather (provider ∷ providers) w =
      let (snapshot, w') = provider w in
      let (lines, w'') = gather providers w' in (snapshot_lines snapshot ++ lines, w'')

  unfoldable pub system_prompt_now : Router W → W → Text × W
  unfolding gather
  system_prompt_now r w =
      if is_empty r.context_providers
      then (r.system_prompt, w)
      else let (lines, w') = gather r.context_providers w in
        if is_empty lines
        then (r.system_prompt, w')
        else (r.system_prompt ++ (blank_line ++ join newline lines), w')
