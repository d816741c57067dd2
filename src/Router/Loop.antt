-- ===== src/Router/Loop.antt =====
-- core/router.py: `_run_agentic_loop`.
pub mod Protocol
pub mod Bounds
pub mod Outcome
pub mod Dialect
use emma.Common.{
  ℕ, zero, suc, Bool, true, false, not, ◌||◌, Option, none, some, List, [], ◌∷◌, ◌++◌, Text, lit,
  is_empty, text_eq, Dict, Result, ok, err, if◌then◌else◌,
}
use emma.Llm.{
  LlmError, LlmResponse, Message, WireBlock, ToolUse, blocks, user, text, tool_uses,
  to_assistant_message,
}
use emma.Router.{
  Router, Tool, AssistantResponse, degrade, answer_with, fallback_empty, fallback_too_many_steps,
}
use emma.Router.Tools.{switched_off, tool_schemas, execute_tool, system_prompt_now}

-- `reply.stop_reason != "tool_use" or not tool_uses`
unfoldable pub is_final : LlmResponse → Bool
is_final reply = elim reply.stop_reason [
  | none ↦ true
  | some reason ↦ not (text_eq reason (lit "tool_use")) || is_empty (tool_uses reply)
]

unfoldable pub final_answer : LlmResponse → AssistantResponse
final_answer reply =
    if is_empty (text reply)
    then degrade (lit "empty_answer") fallback_empty
    else answer_with (text reply)

abbrev pub results_message : List WireBlock → Message
results_message results = record { role = user; content = blocks results }

module _ {W : Type 0} (r : Router W) (by_name : Dict (Tool W)) where
  -- `for call in tool_uses`
  unfoldable pub execute_all : List ToolUse → W → List WireBlock × W
  execute_all [] w = ([], w)
  execute_all (call ∷ calls) w =
      let (block, w') = execute_tool r by_name call w in
      let (rest, w'') = execute_all calls w' in (block ∷ rest, w'')

  -- The rounds that are left: the answer, or what the model raised, with the messages then.
  unfoldable pub rounds :
      ℕ → Text → List Message → W → Result LlmError AssistantResponse × List Message × W
  rounds zero system messages w =
      (ok (degrade (lit "tool_loop_ceiling") fallback_too_many_steps), messages, w)
  rounds (suc left) system messages w =
      let (off, w₁) = switched_off r w in
      let (outcome, w₂) = r.complete system messages (tool_schemas r off) w₁ in
      elim outcome [
        | err e ↦ (err e, messages, w₂)
        | ok reply ↦ elim (is_final reply) [
          | true ↦ (ok (final_answer reply), messages, w₂)
          | false ↦
              let (results, w₃) = execute_all (tool_uses reply) w₂ in
              rounds left system
                (messages ++ (to_assistant_message reply ∷ results_message results ∷ [])) w₃
        ]
      ]

  unfoldable pub run_agentic_loop :
      List Message → W → Result LlmError AssistantResponse × List Message × W
  unfolding rounds
  run_agentic_loop messages w =
      let (system, w') = system_prompt_now r w in rounds r.max_tool_iterations system messages w'
