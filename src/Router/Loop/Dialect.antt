-- ===== src/Router/Loop/Dialect.antt =====
-- What core/router.py's loop adds to a conversation, in the messages of Groq (core/llm.py).
use emma.Common.{
  ℕ, zero, suc, ◌≡◌, refl, ap, sym, ◌∙◌, inl, inr, Bool, true, false, List, [], ◌∷◌, ◌++◌,
  append-nil, append_assoc, Text, text_eq, text_eq_refl, map, Dict, Result, ok, err, Exc,
  Result-cases, Bool-cases, ◌&&◌,
}
use emma.Llm.{
  LlmResponse, ContentBlock, text_block, tool_use_block, Message, WireBlock, tool_result, ToolUse,
  wire_block, tool_uses, tool_uses_of, to_assistant_message,
}
use emma.Llm.Json.{Fields}
use emma.Llm.Groq.{
  GroqMessage, system_message, user_message, assistant_message, tool_message, prose_of, calls_of,
  results_of, to_groq_message, append_all,
}
use emma.Router.{Router, Tool}
use emma.Router.Tools.{
  tool_result as result_block, switched_off, tool_schemas, execute_tool, tool_outcome,
}
use emma.Router.Tools.Gate.{CallOutcome, refused, ran, execute_tool_outcome}
use emma.Router.Loop.{is_final, results_message, execute_all, rounds}
use emma.Router.Loop.Protocol.{id_of}

-- Whether the messages answer what is asked: behind a message with calls stand the results of these
-- calls, in order, and no result stands anywhere else. `waiting` are the calls that still wait.
unfoldable pub follows : (waiting : List Text) → List GroqMessage → Bool
follows [] [] = true
follows (id ∷ ids) [] = false
follows [] (system_message t ∷ ms) = follows [] ms
follows [] (user_message t ∷ ms) = follows [] ms
follows [] (assistant_message t calls ∷ ms) = follows (map (λ c. c.id) calls) ms
follows [] (tool_message id t ∷ ms) = false
follows (i ∷ ids) (system_message t ∷ ms) = false
follows (i ∷ ids) (user_message t ∷ ms) = false
follows (i ∷ ids) (assistant_message t calls ∷ ms) = false
follows (i ∷ ids) (tool_message id t ∷ ms) = text_eq i id && follows ids ms

ids-calls_of :
    (dumps : Fields → Text) (bs : List ContentBlock)
    → map (λ c. c.id) (calls_of dumps (map wire_block bs)) ≡ map id_of (tool_uses_of bs)
unfolding calls_of wire_block tool_uses_of
ids-calls_of dumps [] = refl
ids-calls_of dumps (text_block t ∷ bs) = ids-calls_of dumps bs
ids-calls_of dumps (tool_use_block id name input ∷ bs) = ap (◌∷◌ id) (ids-calls_of dumps bs)

-- A block that answers the call, and nothing else.
abbrev IsResultOf : ToolUse → WireBlock → Type 0
IsResultOf call block =
    (content : Text) × (is_error : Bool) × (block ≡ tool_result call.id content is_error)

module _ {W : Type 0} (r : Router W) (by_name : Dict (Tool W)) where
  tool_outcome-IsResultOf :
      (call : ToolUse) (out : Result Exc Text × W) → IsResultOf call (tool_outcome call.id out).0
  unfolding result_block
  tool_outcome-IsResultOf call (ok output, w) = (output, false, refl)
  tool_outcome-IsResultOf call (err e, w) = (_, true, refl)

  outcome-IsResultOf :
      (call : ToolUse) (w : W) {out : WireBlock × W}
      → CallOutcome r by_name call w out
      → IsResultOf call out.0
  unfolding result_block
  outcome-IsResultOf call w (refused content) = (content, true, refl)
  outcome-IsResultOf call w (ran tool e on) =
      tool_outcome-IsResultOf call (tool.run call.input (switched_off r w).1)

  prose_of-execute_all :
      (calls : List ToolUse) (w : W) → prose_of (execute_all r by_name calls w).0 ≡ []
  unfolding execute_all prose_of
  prose_of-execute_all [] w = refl
  prose_of-execute_all (call ∷ calls) w =
      let (content, e, p) = outcome-IsResultOf call w (execute_tool_outcome r by_name call w) in
      rw p (prose_of-execute_all calls (execute_tool r by_name call w).1)

  follows-results :
      (calls : List ToolUse) (w : W) (rest : List GroqMessage)
      → follows (map id_of calls) (results_of (execute_all r by_name calls w).0 ++ rest)
        ≡ follows [] rest
  unfolding execute_all results_of follows
  follows-results [] w rest = refl
  follows-results (call ∷ calls) w rest =
      let (content, e, p) = outcome-IsResultOf call w (execute_tool_outcome r by_name call w) in
      rw p (rw text_eq_refl (follows-results calls (execute_tool r by_name call w).1 rest))

  to_groq_message-results_message :
      (dumps : Fields → Text) (bs : List WireBlock)
      → prose_of bs ≡ []
      → to_groq_message dumps (results_message bs) ≡ results_of bs
  unfolding to_groq_message
  to_groq_message-results_message dumps bs e = rw e (append-nil (results_of bs))

  follows-to_assistant_message :
      (dumps : Fields → Text) (reply : LlmResponse) (ms : List GroqMessage)
      → follows [] (to_groq_message dumps (to_assistant_message reply) ++ ms)
        ≡ follows (map id_of (tool_uses reply)) ms
  unfolding to_groq_message to_assistant_message follows tool_uses
  follows-to_assistant_message dumps reply ms =
      ap (λ ids. follows ids ms) (ids-calls_of dumps reply.blocks)

  -- One round, in front of what follows it.
  follows-round :
      (dumps : Fields → Text) (reply : LlmResponse) (w : W) (rest : List Message)
      → follows [] (
          append_all dumps (
            to_assistant_message reply
            ∷ results_message (execute_all r by_name (tool_uses reply) w).0
            ∷ rest))
        ≡ follows [] (append_all dumps rest)
  unfolding append_all
  follows-round dumps reply w rest =
      let results = (execute_all r by_name (tool_uses reply) w).0 in
      let more = append_all dumps rest in
      follows-to_assistant_message dumps reply
        (to_groq_message dumps (results_message results) ++ more)
      ∙ ap (λ ms. follows (map id_of (tool_uses reply)) (ms ++ more))
          (to_groq_message-results_message dumps results (prose_of-execute_all (tool_uses reply) w))
      ∙ follows-results (tool_uses reply) w more

  -- Whatever the model asks for and the tools answer, what the rounds add to the conversation
  -- reads, in the messages of Groq, as the protocol wants it: every message with calls is followed
  -- at once by one result for each of its calls, in their order, and there is no other result.
  pub follows-rounds :
      (dumps : Fields → Text) (left : ℕ) (system : Text) (messages : List Message) (w : W)
      → (added : List Message) × ((rounds r by_name left system messages w).1 ≡ messages ++ added)
        × (follows [] (append_all dumps added) ≡ true)
  unfolding rounds
  follows-rounds dumps zero system messages w =
      ([], sym (append-nil messages), unfold append_all follows in refl)
  follows-rounds dumps (suc left) system messages w =
      let (off, w₁) = switched_off r w in
      let (outcome, w₂) = r.complete system messages (tool_schemas r off) w₁ in
      let nothing : follows [] (append_all dumps []) ≡ true = unfold append_all follows in refl in
      elim (Result-cases outcome) [
        | inr (x, e) ↦ ([], rw (e, rounds) (sym (append-nil messages)), nothing)
        | inl (reply, e) ↦ elim (Bool-cases (is_final reply)) [
          | inl f ↦ ([], rw (e, rounds) (rw f (sym (append-nil messages))), nothing)
          | inr f ↦
              let (results, w₃) = execute_all r by_name (tool_uses reply) w₂ in
              let pair = to_assistant_message reply ∷ results_message results ∷ [] in
              let (added, p, good) = follows-rounds dumps left system (messages ++ pair) w₃ in
              (
                pair ++ added,
                rw (e, rounds) (rw f (p ∙ append_assoc messages pair added)),
                follows-round dumps reply w₂ added ∙ good,
              )
        ]
      ]
