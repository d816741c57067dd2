-- ===== src/Router/Handle/Preserved.antt =====
-- core/router.py: what every tool, provider, gate and call of the model keeps of the world, a whole turn keeps.
use emma.Common.{
  ℕ, zero, suc, ◌≡◌, Option, some, List, [], ◌∷◌, ◌++◌, Text, Dict, lookup, All, Result, ok, err,
  Exc, Result-cases, Bool-cases, inl, inr, is_empty, map,
}
use emma.Llm.{LlmError, LlmResponse, Message, ToolUse, WireBlock, tool_uses}
use emma.Router.{Router, Tool, Schema, Memory, AssistantRequest, AssistantResponse}
use emma.Router.Tools.{switched_off, execute_tool, tool_outcome, gather, system_prompt_now}
use emma.Router.Tools.Gate.{CallOutcome, refused, ran, execute_tool_outcome}
use emma.Router.Loop.{is_final, execute_all, rounds, run_agentic_loop}
use emma.Router.Handle.{
  Turn, wire_message, user_message, history_or_none, catch_llm, finish, handle,
}

-- What the parts of a router keep of the world.
pub record Keeps {W : Type 0} (P : W → Type 0) (r : Router W) (by_name : Dict (Tool W))
    : Type 0 where
  pub complete :
      (system : Text) (messages : List Message) (schemas : Option (List Schema)) (w : W)
      → P w
      → P (r.complete system messages schemas w).1
  pub gate : (w : W) → P w → P (switched_off r w).1
  pub providers : All (λ provider. (w : W) → P w → P (provider w).1) r.context_providers
  pub tools :
      (name : Text) (t : Tool W)
      → lookup name by_name ≡ some t
      → (arguments : emma.Llm.Json.Fields) (w : W) → P w
      → P (t.run arguments w).1

module _ {W : Type 0} (P : W → Type 0) (r : Router W) (by_name : Dict (Tool W))
    (keeps : Keeps P r by_name) where
  tool_outcome-keeps :
      (call_id : Text) (out : Result Exc Text × W) → P out.1 → P (tool_outcome call_id out).1
  tool_outcome-keeps call_id (ok output, w) h = h
  tool_outcome-keeps call_id (err e, w) h = h

  CallOutcome-keeps :
      (call : ToolUse) (w : W) (out : WireBlock × W)
      → CallOutcome r by_name call w out
      → P w
      → P out.1
  CallOutcome-keeps call w _ (refused content) h = keeps.gate w h
  CallOutcome-keeps call w _ (ran tool found on) h =
      tool_outcome-keeps call.id _ (keeps.tools call.name tool found call.input _ (keeps.gate w h))

  execute_all-keeps : (calls : List ToolUse) (w : W) → P w → P (execute_all r by_name calls w).1
  unfolding execute_all
  execute_all-keeps [] w h = h
  execute_all-keeps (call ∷ calls) w h =
      execute_all-keeps calls _
        (CallOutcome-keeps call w _ (execute_tool_outcome r by_name call w) h)

  gather-keeps :
      (providers : List (W → Result Exc Text × W))
      → All (λ provider. (w : W) → P w → P (provider w).1) providers
      → (w : W) → P w
      → P (gather providers w).1
  unfolding gather
  gather-keeps [] k w h = h
  gather-keeps (provider ∷ providers) k w h = gather-keeps providers k.1 _ (k.0 w h)

  system_prompt_now-keeps : (w : W) → P w → P (system_prompt_now r w).1
  unfolding system_prompt_now
  system_prompt_now-keeps w h = elim (Bool-cases (is_empty r.context_providers)) [
    | inl e ↦ rw e h
    | inr e ↦ rw e (elim (Bool-cases (is_empty (gather r.context_providers w).0)) [
      | inl f ↦ rw f (gather-keeps r.context_providers keeps.providers w h)
      | inr f ↦ rw f (gather-keeps r.context_providers keeps.providers w h)
    ])
  ]

  rounds-keeps :
      (left : ℕ) (system : Text) (messages : List Message) (w : W)
      → P w
      → P (rounds r by_name left system messages w).2
  unfolding rounds
  rounds-keeps zero system messages w h = h
  rounds-keeps (suc left) system messages w h =
      let off = (switched_off r w).0 in
      let asked =
        r.complete system messages (emma.Router.Tools.tool_schemas r off) (switched_off r w).1 in
      let after : P asked.1 = keeps.complete system messages _ _ (keeps.gate w h) in
      elim (Result-cases asked.0) [
        | inr (e, f) ↦ rw (rounds, f) after
        | inl (reply, f) ↦ elim (Bool-cases (is_final reply)) [
          | inl g ↦ rw (rounds, f, g) after
          | inr g ↦
              rw (rounds, f, g)
                (rounds-keeps left system _ _ (execute_all-keeps (tool_uses reply) _ after))
        ]
      ]

  finish-world :
      {M : Type 0} (store : Memory M) (request : AssistantRequest) (answer : AssistantResponse)
      (t : Turn W M)
      → P t.world
      → P (finish r by_name store request answer t).world
  unfolding finish
  finish-world store request answer t h = elim (Bool-cases answer.degraded) [
    | inl d ↦ rw d h
    | inr d ↦ rw d h
  ]

  -- However a turn ends, it keeps what the parts keep.
  pub handle-keeps :
      {M : Type 0} (store : Memory M) (request : AssistantRequest) (t : Turn W M)
      → P t.world
      → P (handle r by_name store request t).1.world
  unfolding run_agentic_loop handle
  handle-keeps store request t h =
      let (history, m) = history_or_none (store.get_history request.conversation_id t.memory) in
      let messages = map wire_message history ++ (user_message request.text ∷ []) in
      let looped = run_agentic_loop r by_name messages t.world in
      let after : P looped.2 =
        rounds-keeps r.max_tool_iterations _ messages _ (system_prompt_now-keeps t.world h) in
      elim (Result-cases (catch_llm looped.0)) [
        | inr (e, f) ↦ rw (handle, f) after
        | inl (answer, f) ↦
            rw (handle, f)
              (finish-world store request answer (record t { memory = m; world = looped.2 }) after)
      ]
