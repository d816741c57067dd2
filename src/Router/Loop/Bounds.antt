-- ===== src/Router/Loop/Bounds.antt =====
-- How often core/router.py's loop asks the model.
use emma.Common.{
  ℕ, zero, suc, ◌+◌, ◌≤◌, ◌≡◌, ◌≢◌, refl, ap, ◌∙◌, Option, List, [], ◌∷◌, ◌++◌, Text, lit, Dict,
  Result, ok, Result-cases, ok_injective, arith, Bool-cases, inl, inr,
}
use emma.Llm.{LlmError, LlmResponse, Message, ToolUse, tool_uses, to_assistant_message}
use emma.Router.{Router, Tool, Schema, AssistantResponse, degrade, fallback_too_many_steps}
use emma.Router.Tools.{switched_off, tool_schemas, execute_tool, system_prompt_now}
use emma.Router.Loop.{
  is_final, final_answer, execute_all, results_message, rounds, run_agentic_loop,
}

-- The answer of a loop that ran out of rounds.
abbrev pub ceiling : AssistantResponse
ceiling = degrade (lit "tool_loop_ceiling") fallback_too_many_steps

final_answer-ne-ceiling : (reply : LlmResponse) → final_answer reply ≢ ceiling
unfolding final_answer degrade lit
final_answer-ne-ceiling reply e = ground arith

-- `count` counts the calls of the model: `complete` adds one, and nothing else of a turn does.
pub record Counts {W : Type 0} (r : Router W) (by_name : Dict (Tool W)) (count : W → ℕ)
    : Type 0 where
  pub model :
      (system : Text) (messages : List Message) (tools : Option (List Schema)) (w : W)
      → count (r.complete system messages tools w).1 ≡ count w + 1
  pub gate : (w : W) → count (switched_off r w).1 ≡ count w
  pub tool : (call : ToolUse) (w : W) → count (execute_tool r by_name call w).1 ≡ count w
  pub prompt : (w : W) → count (system_prompt_now r w).1 ≡ count w

module _ {W : Type 0} (r : Router W) (by_name : Dict (Tool W)) (count : W → ℕ)
    (c : Counts r by_name count) where
  count-execute_all :
      (calls : List ToolUse) (w : W) → count (execute_all r by_name calls w).1 ≡ count w
  unfolding execute_all
  count-execute_all [] w = refl
  count-execute_all (call ∷ calls) w =
      count-execute_all calls (execute_tool r by_name call w).1 ∙ c.tool call w

  -- What a loop of at most `left` rounds may return at `out`.
  abbrev Within : ℕ → W → Result LlmError AssistantResponse × List Message × W → Type 0
  Within left w out =
      (count out.2 ≤ count w + left) × (out.0 ≡ ok ceiling → count out.2 ≡ count w + left)

  rounds_count :
      (left : ℕ) (system : Text) (messages : List Message) (w : W)
      → Within left w (rounds r by_name left system messages w)
  unfolding rounds
  rounds_count zero system messages w = (omega arith, λ e. omega arith)
  rounds_count (suc left) system messages w =
      let (off, w₁) = switched_off r w in
      let (outcome, w₂) = r.complete system messages (tool_schemas r off) w₁ in
      let asked : count w₂ ≡ count w + 1 =
        c.model system messages (tool_schemas r off) w₁ ∙ ap (λ n. n + 1) (c.gate w) in
      elim (Result-cases outcome) [
        | inr (x, e) ↦ (rw (e, rounds) (omega (arith, asked)), rw (e, rounds) (λ p. cc))
        | inl (reply, e) ↦ elim (Bool-cases (is_final reply)) [
          | inl f ↦ (
            rw (e, rounds) (rw f (omega (arith, asked))),
            rw (e, rounds) (rw f (λ p. absurd (final_answer-ne-ceiling reply (ok_injective p)))),
          )
          | inr f ↦
              let (results, w₃) = execute_all r by_name (tool_uses reply) w₂ in
              let pair = to_assistant_message reply ∷ results_message results ∷ [] in
              let ih = rounds_count left system (messages ++ pair) w₃ in
              let same = count-execute_all (tool_uses reply) w₂ in
              (
                rw (e, rounds) (rw f (omega (arith, asked, same, ih.0))),
                rw (e, rounds) (rw f (λ p. omega (arith, asked, same, ih.1 p))),
              )
        ]
      ]

  -- A turn asks the model at most `max_tool_iterations` times, and exactly that often if it ends at
  -- the ceiling.
  pub run_agentic_loop_count :
      (messages : List Message) (w : W)
      → (count (run_agentic_loop r by_name messages w).2 ≤ count w + r.max_tool_iterations)
        × ((run_agentic_loop r by_name messages w).0 ≡ ok ceiling
            → count (run_agentic_loop r by_name messages w).2 ≡ count w + r.max_tool_iterations)
  unfolding run_agentic_loop
  run_agentic_loop_count messages w =
      let (system, w') = system_prompt_now r w in
      let (bound, exact) = rounds_count r.max_tool_iterations system messages w' in
      (omega (arith, bound, c.prompt w), λ e. omega (arith, exact e, c.prompt w))
