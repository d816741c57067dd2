-- ===== src/Router/Loop/Protocol.antt =====
-- What core/router.py's loop adds to the conversation, as exchanges of two messages.
use emma.Common.{
  ℕ, zero, suc, ◌≤◌, ◌≡◌, refl, ap, sym, ◌∙◌, false, List, [], ◌∷◌, ◌++◌, append-nil, append_assoc,
  Text, map, is_empty, Dict, Result-cases, arith, Bool-cases, inl, inr,
}
use emma.Llm.{
  LlmResponse, ContentBlock, text_block, tool_use_block, Message, user, assistant, blocks,
  WireBlock, wire_text, tool_use, tool_result, unknown, ToolUse, wire_block, tool_uses,
  tool_uses_of, to_assistant_message,
}
use emma.Router.{Router, Tool}
use emma.Router.Tools.{switched_off, tool_schemas, execute_tool}
use emma.Router.Tools.Gate.{answered, answered-execute_tool}
use emma.Router.Loop.{is_final, execute_all, results_message, rounds}

-- The ids of the calls in a message, in order.
unfoldable pub use_ids : List WireBlock → List Text
use_ids [] = []
use_ids (tool_use id name input ∷ bs) = id ∷ use_ids bs
use_ids (wire_text t ∷ bs) = use_ids bs
use_ids (tool_result id content e ∷ bs) = use_ids bs
use_ids (unknown ∷ bs) = use_ids bs

abbrev pub id_of : ToolUse → Text
id_of call = call.id

use_ids-wire_block :
    (bs : List ContentBlock) → use_ids (map wire_block bs) ≡ map id_of (tool_uses_of bs)
unfolding use_ids wire_block tool_uses_of
use_ids-wire_block [] = refl
use_ids-wire_block (text_block t ∷ bs) = use_ids-wire_block bs
use_ids-wire_block (tool_use_block id name input ∷ bs) = ap (◌∷◌ id) (use_ids-wire_block bs)

is_empty-map {ℓ κ} :
    {A : Type ℓ} {B : Type κ} (f : A → B) (xs : List A) → is_empty (map f xs) ≡ is_empty xs
is_empty-map f [] = refl
is_empty-map f (x ∷ xs) = refl

-- The messages of `n` exchanges.
pub data Exchanges : ℕ → List Message → Type 0 where
  done : Exchanges zero []
  exchange :
      {n : ℕ} {rest : List Message} (calls results : List WireBlock)
      → (is_empty (use_ids calls) ≡ false)
      → map answered results ≡ use_ids calls
      → Exchanges n rest
      → Exchanges (suc n) (
          record { role = assistant; content = blocks calls }
          ∷ record { role = user; content = blocks results }
          ∷ rest)

module _ {W : Type 0} (r : Router W) (by_name : Dict (Tool W)) where
  -- Every call is answered, in the order of the calls, and nothing else is.
  pub answered-execute_all :
      (calls : List ToolUse) (w : W)
      → map answered (execute_all r by_name calls w).0 ≡ map id_of calls
  unfolding execute_all
  answered-execute_all [] w = refl
  answered-execute_all (call ∷ calls) w = rw (
    answered-execute_tool r by_name call w,
    answered-execute_all calls (execute_tool r by_name call w).1,
  )

  -- A reply that is not final asks for a tool.
  asks_of_not_final :
      (reply : LlmResponse) → is_final reply ≡ false → is_empty (tool_uses reply) ≡ false
  unfolding is_final
  asks_of_not_final reply e = ground arith

  one_exchange :
      (reply : LlmResponse) (w : W) {n : ℕ} {rest : List Message}
      → is_final reply ≡ false
      → Exchanges n rest
      → Exchanges (suc n) (
          to_assistant_message reply
          ∷ results_message (execute_all r by_name (tool_uses reply) w).0
          ∷ rest)
  unfolding to_assistant_message tool_uses
  one_exchange reply w e x =
      let ids = use_ids-wire_block reply.blocks in
      exchange _ _ (rw (ids, is_empty-map) (unfold tool_uses in asks_of_not_final reply e))
        (answered-execute_all (tool_uses reply) w ∙ sym ids) x

  -- The rounds only add to the conversation, at most one exchange for each round left: an exchange
  -- is the model's message with one call at least, then one message whose blocks carry the ids of
  -- exactly these calls, in their order.
  pub rounds-Exchanges :
      (left : ℕ) (system : Text) (messages : List Message) (w : W)
      → (n : ℕ) × (added : List Message) × Exchanges n added
        × (n ≤ left)
        × ((rounds r by_name left system messages w).1 ≡ messages ++ added)
  unfolding rounds
  rounds-Exchanges zero system messages w = (0, [], done, omega arith, sym (append-nil messages))
  rounds-Exchanges (suc left) system messages w =
      let (off, w₁) = switched_off r w in
      let (outcome, w₂) = r.complete system messages (tool_schemas r off) w₁ in
      elim (Result-cases outcome) [
        | inr (x, e) ↦ (0, [], done, omega arith, rw (e, rounds) (sym (append-nil messages)))
        | inl (reply, e) ↦ elim (Bool-cases (is_final reply)) [
          | inl f ↦ (0, [], done, omega arith, rw (e, rounds) (rw f (sym (append-nil messages))))
          | inr f ↦
              let (results, w₃) = execute_all r by_name (tool_uses reply) w₂ in
              let pair = to_assistant_message reply ∷ results_message results ∷ [] in
              let (n, added, x, h, p) = rounds-Exchanges left system (messages ++ pair) w₃ in
              (
                suc n,
                pair ++ added,
                one_exchange reply w₂ f x,
                omega (arith, h),
                rw (e, rounds) (rw f (p ∙ append_assoc messages pair added)),
              )
        ]
      ]
