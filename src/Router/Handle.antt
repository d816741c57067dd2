-- ===== src/Router/Handle.antt =====
-- core/router.py: `handle`, one full turn.
pub mod Answers
pub mod Effects
pub mod Preserved
pub mod Isolated
mod Tests
use emma.Common.{
  map_ok, ℕ, Bool, true, false, Option, none, some, List, [], ◌∷◌, ◌++◌, Text, lit, map, Dict,
  Result, ok, err, Exc, if◌then◌else◌,
}
use emma.Llm.{
  LlmError, unavailable, quota_exceeded, other, Message, Content, prose, user, assistant,
}
use emma.Memory.{StoredMessage}
use emma.Router.{
  Router, Tool, Memory, AssistantRequest, AssistantResponse, TurnStats, record_turn, degrade,
  quota_message, fallback_unavailable,
}
use emma.Router.Loop.{run_agentic_loop}

-- What a turn reads and writes.
pub record Turn (W M : Type 0) : Type 0 where
  pub stats : TurnStats
  pub memory : M
  pub world : W

abbrev pub wire_message : StoredMessage → Message
wire_message item = record { role = item.role; content = prose item.content }

abbrev pub user_message : Text → Message
user_message text = record { role = user; content = prose text }

-- The history, or none of it if the store fails.
abbrev pub history_or_none :
    {M : Type 0} → Result Exc (List StoredMessage) × M → List StoredMessage × M
history_or_none (ok history, m) = (history, m)
history_or_none (err e, m) = ([], m)

-- The `except` clauses around the loop. Any other exception escapes, and so does what the text for a
-- spent quota raises.
unfoldable pub catch_llm : Result LlmError AssistantResponse → Result Exc AssistantResponse
catch_llm (ok answer) = ok answer
catch_llm (err (quota_exceeded m retry_after)) =
    map_ok (degrade (lit "quota_exhausted")) (quota_message retry_after)
catch_llm (err (unavailable m)) = ok (degrade (lit "model_unreachable") fallback_unavailable)
catch_llm (err (other e)) = err e

module _ {W M : Type 0} (r : Router W) (by_name : Dict (Tool W)) (store : Memory M) where
  -- The two appends under one `try`: the second is not tried if the first raises.
  unfoldable pub remember : AssistantRequest → AssistantResponse → M → M
  remember request answer m =
      let (first, m') =
        store.append request.conversation_id (record { role = user; content = request.text }) m in
      elim first [
        | err e ↦ m'
        | ok _ ↦
            (store.append request.conversation_id
              (record { role = assistant; content = answer.text }) m').1
      ]

  -- What follows the answer: the tally, and the memory of a turn that did not degrade.
  unfoldable pub finish : AssistantRequest → AssistantResponse → Turn W M → Turn W M
  unfolding remember
  finish request answer t =
      if answer.degraded
      then record t { stats = record_turn answer.reason (r.now t.world) t.stats }
      else record t {
        stats = record_turn none (r.now t.world) t.stats;
        memory = remember request answer t.memory;
      }

  unfoldable pub handle : AssistantRequest → Turn W M → Result Exc AssistantResponse × Turn W M
  unfolding catch_llm finish
  handle request t =
      let (history, m) = history_or_none (store.get_history request.conversation_id t.memory) in
      let messages = map wire_message history ++ (user_message request.text ∷ []) in
      let (outcome, _, w) = run_agentic_loop r by_name messages t.world in
      let t' = record t { memory = m; world = w } in
      elim (catch_llm outcome) [
        | err e ↦ (err e, t')
        | ok answer ↦ (ok answer, finish request answer t')
      ]
