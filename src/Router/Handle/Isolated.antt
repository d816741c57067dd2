-- ===== src/Router/Handle/Isolated.antt =====
-- core/router.py over any store that keeps the interface of core/memory.py: what a turn does to the other conversations.
use emma.Common.{
  ℕ, ◌≡◌, refl, ap, sym, ◌∙◌, inl, inr, false, List, [], ◌∷◌, ◌++◌, Text, text_eq, Dict, map,
  Result, ok, err, Exc, Result-cases, Bool-cases,
}
use mathlib.Core.Path.{subst}
use emma.Llm.{user, assistant}
use emma.Memory.{StoredMessage}
use emma.Memory.Contract.{ConversationMemory}
use emma.Router.{Router, Tool, Memory, AssistantRequest, AssistantResponse}
use emma.Router.Loop.{run_agentic_loop}
use emma.Router.Handle.{
  Turn, wire_message, user_message, history_or_none, catch_llm, remember, finish, handle,
}

-- What an append leaves, and whether it raised.
abbrev pub left_by : {S : Type 0} → S → Result Exc S → Result Exc (Unit {0}) × S
left_by s (ok s') = (ok tt, s')
left_by s (err e) = (err e, s)

history_or_none-same :
    {M : Type 0} (outcome : Result Exc (List StoredMessage)) (m : M)
    → (history_or_none (outcome, m)).1 ≡ m
history_or_none-same (ok history) m = refl
history_or_none-same (err e) m = refl

module _ {S : Type 0} (memory : ConversationMemory S) (now : StoredMessage → ℕ) where
  -- The store, as the router calls it; each append reads the clock.
  abbrev pub as_store : Memory S
  as_store = record {
    get_history = λ c s. (memory.get_history s c, s);
    append = λ c m s. left_by s (memory.append s c m (now m));
  }

  -- The store can be used, and a conversation reads as it did.
  abbrev pub Reads : Text → S → S → Type 0
  Reads d s s' = memory.Usable s' × (memory.get_history s' d ≡ memory.get_history s d)

  append-Reads :
      (c d : Text) (m : StoredMessage) (s : S)
      → memory.Usable s
      → text_eq c d ≡ false
      → Reads d s (as_store.append c m s).1 × ((as_store.append c m s).0 ≡ ok tt)
  append-Reads c d m s u n =
      let l = memory.appends s c m (now m) u in rw l.returned ((l.usable, l.isolated d n), refl)

  module _ {W : Type 0} (r : Router W) (by_name : Dict (Tool W)) (request : AssistantRequest)
      (d : Text) (other : text_eq request.conversation_id d ≡ false) where
    remember-Reads :
        (answer : AssistantResponse) (s : S)
        → memory.Usable s
        → Reads d s (remember r by_name as_store request answer s)
    unfolding remember
    remember-Reads answer s u =
        let c = request.conversation_id in
        let m : StoredMessage = record { role = user; content = request.text } in
        let m' : StoredMessage = record { role = assistant; content = answer.text } in
        let (first, done) = append-Reads c d m s u other in
        let (second, _) = append-Reads c d m' (as_store.append c m s).1 first.0 other in
        rw (remember, done) (second.0, second.1 ∙ first.1)

    finish-Reads :
        (answer : AssistantResponse) (t : Turn W S)
        → memory.Usable t.memory
        → Reads d t.memory (finish r by_name as_store request answer t).memory
    unfolding finish
    finish-Reads answer t u = elim (Bool-cases answer.degraded) [
      | inl e ↦ rw e (u, refl)
      | inr e ↦ rw e (remember-Reads answer t.memory u)
    ]

    -- Over any store that keeps the interface of ConversationMemory, the two of core/memory.py among
    -- them: however a turn in one conversation ends, a store that could be used can be used behind
    -- it, and every other conversation reads as before.
    pub handle-isolated :
        (t : Turn W S)
        → memory.Usable t.memory
        → Reads d t.memory (handle r by_name as_store request t).1.memory
    unfolding handle
    handle-isolated t u =
        let outcome = memory.get_history t.memory request.conversation_id in
        let (history, m) = history_or_none (outcome, t.memory) in
        let same : m ≡ t.memory = history_or_none-same outcome t.memory in
        let messages = map wire_message history ++ (user_message request.text ∷ []) in
        let (answered, _, w) = run_agentic_loop r by_name messages t.world in
        let usable : memory.Usable m = subst memory.Usable (sym same) u in
        let back : memory.get_history m d ≡ memory.get_history t.memory d =
          ap (λ x. memory.get_history x d) same in
        elim (Result-cases (catch_llm answered)) [
          | inr (e, f) ↦ rw (handle, f) (usable, back)
          | inl (answer, f) ↦
              let (kept, reads) = finish-Reads answer (record t { memory = m; world = w }) usable in
              rw (handle, f) (kept, reads ∙ back)
        ]
