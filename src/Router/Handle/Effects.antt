-- ===== src/Router/Handle/Effects.antt =====
-- What a turn of core/router.py leaves behind: the tally, and the memory of the turn.
use emma.Common.{
  ℕ, ◌+◌, ◌≤◌, ◌≡◌, ◌≢◌, refl, ap, ap₂, ◌∙◌, Bool, true, false, not, ◌&&◌, none, [], ◌∷◌, ◌++◌,
  Text, Dict, map, Result, ok, err, Result-cases, ok_injective, arith, Bool-cases, Option-cases,
  inl, inr, text_eq, text_eq_refl, if◌then◌else◌,
}
use emma.Llm.{LlmError, unavailable, quota_exceeded, other, user, assistant}
use emma.Memory as memory
use emma.Memory.{StoredMessage, InMemory, window}
use emma.Memory.Histories.{get_history-append, max_messages-append}
use emma.Router.{
  Router, Tool, Memory, AssistantRequest, AssistantResponse, TurnStats, record_turn, degrade,
}
use emma.Router.Loop.{run_agentic_loop, final_answer}
use emma.Router.Loop.Outcome.{Outcome, ceiling, final, raised, run_agentic_loop-Outcome}
use emma.Router.Handle.{
  Turn, wire_message, user_message, history_or_none, catch_llm, remember, finish, handle,
}

-- More turns than degraded ones.
pub record IsValid (s : TurnStats) : Type 0 where
  pub fewer : s.degraded ≤ s.turns

abbrev pub one_if : Bool → ℕ
one_if true = 1
one_if false = 0

-- A degraded answer carries its reason.
abbrev pub HasReason : AssistantResponse → Type 0
HasReason a = a.degraded ≡ true → a.reason ≢ none

-- The in-process store of core/memory.py as the router's memory. It never raises.
abbrev pub in_memory_store : Memory InMemory
in_memory_store = record {
  get_history = λ c m. (ok (memory.get_history m c), m);
  append = λ c message m. (ok tt, memory.append m c message);
}

outcome-HasReason :
    {W : Type 0} {r : Router W} {o : Result LlmError AssistantResponse}
    → Outcome r o
    → (answer : AssistantResponse) → catch_llm o ≡ ok answer
    → HasReason answer
unfolding catch_llm degrade final_answer
outcome-HasReason ceiling answer e = λ d n. ground arith
outcome-HasReason (final reply) answer e = λ d n. ground arith
outcome-HasReason (raised (quota_exceeded m wait) s ms ts w p) answer e = λ d n. ground arith
outcome-HasReason (raised (unavailable m) s ms ts w p) answer e = λ d n. ground arith
outcome-HasReason (raised (other x) s ms ts w p) answer e = cc

err-ne-ok : {E A : Type 0} {x : E} {a : A} → ◌≢◌ {A = Result E A} (err x) (ok a)
err-ne-ok e = cc

module _ {W M : Type 0} (r : Router W) (by_name : Dict (Tool W)) (store : Memory M)
    (request : AssistantRequest) (t : Turn W M) where
  finish_tally :
      (answer : AssistantResponse)
      → HasReason answer
      → (u : Turn W M)
      → ((finish r by_name store request answer u).stats.turns ≡ u.stats.turns + 1)
        × ((finish r by_name store request answer u).stats.degraded
            ≡ u.stats.degraded + one_if answer.degraded)
        × ((finish r by_name store request answer u).stats.last_reason
            ≡ (if answer.degraded then answer.reason else u.stats.last_reason))
  unfolding finish record_turn
  finish_tally answer h u = elim (Bool-cases answer.degraded) [
    | inr fine ↦ (rw fine refl, rw fine (omega arith), rw fine refl)
    | inl bad ↦ elim (Option-cases answer.reason) [
      | inl n ↦ absurd (h bad n)
      | inr (reason, s) ↦ (rw (bad, s) refl, rw (bad, s) refl, rw (bad, s) refl)
    ]
  ]

  finish_memory :
      (answer : AssistantResponse) (u : Turn W M)
      → (finish r by_name store request answer u).memory
        ≡ (if answer.degraded then u.memory else remember r by_name store request answer u.memory)
  unfolding finish
  finish_memory answer u = elim (Bool-cases answer.degraded) [
    | inl d ↦ rw d refl
    | inr d ↦ rw d refl
  ]

  -- The turn as it stands when the answer is there.
  abbrev answering : Turn W M
  answering =
      let (history, m) = history_or_none (store.get_history request.conversation_id t.memory) in
      let messages = map wire_message history ++ (user_message request.text ∷ []) in
      record t { memory = m; world = (run_agentic_loop r by_name messages t.world).2 }

  abbrev outcome : Result LlmError AssistantResponse
  outcome =
      let (history, m) = history_or_none (store.get_history request.conversation_id t.memory) in
      let messages = map wire_message history ++ (user_message request.text ∷ []) in
      (run_agentic_loop r by_name messages t.world).0

  handle-finish :
      (answer : AssistantResponse)
      → (handle r by_name store request t).0 ≡ ok answer
      → (catch_llm outcome ≡ ok answer)
        × ((handle r by_name store request t).1 ≡ finish r by_name store request answer answering)
  unfolding handle
  handle-finish answer e = elim (Result-cases (catch_llm outcome)) [
    | inr (x, f) ↦ absurd (err-ne-ok (rw (f, handle) at e))
    | inl (a, f) ↦
        let same : a ≡ answer = ok_injective (rw (f, handle) at e) in
        (f ∙ ap ok same, rw (f, handle) (ap (λ z. finish r by_name store request z answering) same))
  ]

  -- Every turn that answers is counted once, among the degraded ones exactly if its answer is
  -- degraded; then its reason is kept, and else the last reason stays.
  pub handle_tally :
      (answer : AssistantResponse)
      → (handle r by_name store request t).0 ≡ ok answer
      → ((handle r by_name store request t).1.stats.turns ≡ t.stats.turns + 1)
        × ((handle r by_name store request t).1.stats.degraded
            ≡ t.stats.degraded + one_if answer.degraded)
        × ((handle r by_name store request t).1.stats.last_reason
            ≡ (if answer.degraded then answer.reason else t.stats.last_reason))
  handle_tally answer e =
      let (c, f) = handle-finish answer e in
      let h = outcome-HasReason (run_agentic_loop-Outcome r by_name _ t.world) answer c in
      rw f (finish_tally answer h answering)

  -- A turn that degrades leaves the store as reading it did; any other hands it the user's message
  -- and then the answer.
  pub handle_memory :
      (answer : AssistantResponse)
      → (handle r by_name store request t).0 ≡ ok answer
      → (handle r by_name store request t).1.memory ≡ (
          let m = (history_or_none (store.get_history request.conversation_id t.memory)).1 in
          if answer.degraded then m else remember r by_name store request answer m)
  handle_memory answer e =
      let (c, f) = handle-finish answer e in rw f (finish_memory answer answering)

and-false : (b : Bool) → (b && false) ≡ false
and-false true = refl
and-false false = refl

and-true : (b : Bool) → (b && true) ≡ b
and-true true = refl
and-true false = refl

two_appends :
    (m : InMemory) (c d : Text) (first second : StoredMessage)
    → memory.get_history (memory.append (memory.append m c first) c second) d ≡ (
        if text_eq c d
        then window m.max_messages
            (window m.max_messages (memory.get_history m c ++ (first ∷ [])) ++ (second ∷ []))
        else memory.get_history m d)
two_appends m c d first second =
    let m' = memory.append m c first in
    let outer = get_history-append m' c d second in
    let inner : memory.get_history m' c
        ≡ window m.max_messages (memory.get_history m c ++ (first ∷ [])) =
      rw text_eq_refl at (get_history-append m c c first) in
    elim (Bool-cases (text_eq c d)) [
      | inl t ↦ rw t (
          (rw t at outer)
          ∙ ap₂ (λ k h. window k (h ++ (second ∷ []))) (max_messages-append m c first) inner)
      | inr t ↦ rw t ((rw t at outer) ∙ (rw t at (get_history-append m c d first)))
    ]

-- Over the in-process store, a turn that does not degrade puts the request and the answer behind
-- the history of its conversation, each cut to the window, and a degraded one changes no history.
-- The other conversations read as before in both cases.
pub handle_history :
    {W : Type 0} (r : Router W) (by_name : Dict (Tool W)) (request : AssistantRequest)
    (t : Turn W InMemory) (answer : AssistantResponse)
    → (handle r by_name in_memory_store request t).0 ≡ ok answer
    → (c : Text)
    → memory.get_history (handle r by_name in_memory_store request t).1.memory c ≡ (
        if text_eq request.conversation_id c && not answer.degraded
        then window t.memory.max_messages (
            window t.memory.max_messages (
              memory.get_history t.memory request.conversation_id
              ++ (record { role = user; content = request.text } ∷ []))
            ++ (record { role = assistant; content = answer.text } ∷ []))
        else memory.get_history t.memory c)
unfolding remember
handle_history r by_name request t answer e c =
    rw (handle_memory r by_name in_memory_store request t answer e) (kept_if answer.degraded)
  where
    kept_if :
        (degraded : Bool)
        → memory.get_history
            (if degraded
              then t.memory
              else remember r by_name in_memory_store request answer t.memory)
            c
          ≡ (if text_eq request.conversation_id c && not degraded
              then window t.memory.max_messages (
                  window t.memory.max_messages (
                    memory.get_history t.memory request.conversation_id
                    ++ (record { role = user; content = request.text } ∷ []))
                  ++ (record { role = assistant; content = answer.text } ∷ []))
              else memory.get_history t.memory c)
    kept_if true = rw and-false refl
    kept_if false = rw and-true (two_appends t.memory request.conversation_id c _ _)
