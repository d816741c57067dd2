-- ===== src/Router/Loop/Outcome.antt =====
-- The three ways in which core/router.py's loop can end.
use emma.Common.{
  ℕ, zero, suc, ◌≡◌, ◌++◌, Option, List, [], ◌∷◌, Text, lit, Dict, Result, ok, err, Result-cases,
  Bool-cases, inl, inr,
}
use emma.Llm.{LlmError, LlmResponse, Message, tool_uses, to_assistant_message}
use emma.Router.{Router, Tool, Schema, AssistantResponse, degrade, fallback_too_many_steps}
use emma.Router.Tools.{switched_off, tool_schemas, system_prompt_now}
use emma.Router.Loop.{
  is_final, final_answer, execute_all, results_message, rounds, run_agentic_loop,
}

pub data Outcome {W : Type 0} (r : Router W) : Result LlmError AssistantResponse → Type 0 where
  ceiling : Outcome r (ok (degrade (lit "tool_loop_ceiling") fallback_too_many_steps))
  final : (reply : LlmResponse) → Outcome r (ok (final_answer reply))
  raised :
      (x : LlmError) (system : Text) (messages : List Message) (tools : Option (List Schema))
      (w : W)
      → (r.complete system messages tools w).0 ≡ err x
      → Outcome r (err x)

module _ {W : Type 0} (r : Router W) (by_name : Dict (Tool W)) where
  rounds-Outcome :
      (left : ℕ) (system : Text) (messages : List Message) (w : W)
      → Outcome r (rounds r by_name left system messages w).0
  unfolding rounds
  rounds-Outcome zero system messages w = ceiling
  rounds-Outcome (suc left) system messages w =
      let (off, w₁) = switched_off r w in
      let (outcome, w₂) = r.complete system messages (tool_schemas r off) w₁ in
      elim (Result-cases outcome) [
        | inr (x, e) ↦ rw (e, rounds) (raised x system messages (tool_schemas r off) w₁ e)
        | inl (reply, e) ↦ elim (Bool-cases (is_final reply)) [
          | inl f ↦ rw (e, rounds) (rw f (final reply))
          | inr f ↦
              let (results, w₃) = execute_all r by_name (tool_uses reply) w₂ in
              let pair = to_assistant_message reply ∷ results_message results ∷ [] in
              rw (e, rounds) (rw f (rounds-Outcome left system (messages ++ pair) w₃))
        ]
      ]

  -- The loop ends with the ceiling, with the answer of a final reply, or with what the model raised.
  pub run_agentic_loop-Outcome :
      (messages : List Message) (w : W) → Outcome r (run_agentic_loop r by_name messages w).0
  unfolding run_agentic_loop
  run_agentic_loop-Outcome messages w =
      let (system, w') = system_prompt_now r w in
      rounds-Outcome r.max_tool_iterations system messages w'
