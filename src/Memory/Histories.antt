-- ===== src/Memory/Histories.antt =====
-- What the methods of core/memory.py's InMemoryConversationMemory do to every history.
use emma.Common.{
  ℕ, ◌≡◌, ◌∙◌, refl, ap, none, some, List, [], ◌∷◌, ◌++◌, Text, text_eq, text_eq_iff, text_eq_refl,
  lookup, insert, lookup-insert, arith, Bool-cases, Option-cases, List-cases, inl, inr,
  if◌then◌else◌,
}
use emma.Memory.{
  StoredMessage, InMemory, window, drop_orphans, messages_of, get_history, prune_locked, append,
}

window-nil : (max : ℕ) → window max [] ≡ []
unfolding window drop_orphans
window-nil max = ground arith

get_history_some :
    (s : InMemory) (c : Text) (ms : List StoredMessage)
    → lookup c s.conversations ≡ some ms
    → get_history s c ≡ ms
unfolding get_history
get_history_some s c ms e = ground arith

get_history_none :
    (s : InMemory) (c : Text) → lookup c s.conversations ≡ none → get_history s c ≡ []
unfolding get_history
get_history_none s c e = ground arith

-- What is written under a key is read under it, and nothing else changes.
get_history-insert :
    (s : InMemory) (c d : Text) (ms : List StoredMessage)
    → get_history (record s { conversations = insert c ms s.conversations }) d
      ≡ (if text_eq c d then ms else get_history s d)
unfolding get_history
get_history-insert s c d ms = ground (arith, lookup-insert c ms s.conversations d)

prune_nothing :
    (s : InMemory) (c d : Text)
    → get_history s c ≡ []
    → get_history s d
      ≡ (if text_eq c d then window s.max_messages (get_history s c) else get_history s d)
prune_nothing s c d e = elim (Bool-cases (text_eq c d)) [
  | inl t ↦ rw (t, e, window-nil) (rw (← (text_eq_iff c d).0 t) e)
  | inr t ↦ rw t refl
]

prune_locked-none :
    (s : InMemory) (c : Text) → lookup c s.conversations ≡ none → prune_locked s c ≡ s
unfolding prune_locked
prune_locked-none s c e = rw (e, prune_locked) refl

prune_locked_nil :
    (s : InMemory) (c : Text) → lookup c s.conversations ≡ some [] → prune_locked s c ≡ s
unfolding prune_locked
prune_locked_nil s c e = rw (e, prune_locked) refl

prune_locked_cons :
    (s : InMemory) (c : Text) (m : StoredMessage) (ms : List StoredMessage)
    → lookup c s.conversations ≡ some (m ∷ ms)
    → prune_locked s c
      ≡ record s { conversations = insert c (window s.max_messages (m ∷ ms)) s.conversations }
unfolding prune_locked
prune_locked_cons s c m ms e = rw (e, prune_locked) refl

pub get_history-prune_locked :
    (s : InMemory) (c d : Text)
    → get_history (prune_locked s c) d
      ≡ (if text_eq c d then window s.max_messages (get_history s c) else get_history s d)
get_history-prune_locked s c d = elim (Option-cases (lookup c s.conversations)) [
  | inl e ↦ rw (prune_locked-none s c e) (prune_nothing s c d (get_history_none s c e))
  | inr (ms, e) ↦ elim (List-cases ms) [
    | inl n ↦
        let e' : lookup c s.conversations ≡ some [] = e ∙ ap some n in
        rw (prune_locked_nil s c e') (prune_nothing s c d (get_history_some s c [] e'))
    | inr (m, rest, n) ↦
        let e' : lookup c s.conversations ≡ some (m ∷ rest) = e ∙ ap some n in
        rw (prune_locked_cons s c m rest e', get_history_some s c (m ∷ rest) e')
          (get_history-insert s c d (window s.max_messages (m ∷ rest)))
  ]
]

pub max_messages-prune_locked :
    (s : InMemory) (c : Text) → (prune_locked s c).max_messages ≡ s.max_messages
unfolding prune_locked
max_messages-prune_locked s c = ground arith

pub max_messages-append :
    (s : InMemory) (c : Text) (m : StoredMessage) → (append s c m).max_messages ≡ s.max_messages
unfolding append messages_of
max_messages-append s c m = rw max_messages-prune_locked refl

append_lem :
    (s : InMemory) (c : Text) (m : StoredMessage)
    → append s c m
      ≡ prune_locked
          (record s { conversations = insert c (get_history s c ++ (m ∷ [])) s.conversations })
          c
unfolding append get_history
append_lem s c m = refl

-- Appending puts the message behind its conversation's history, cuts that to the window, and
-- leaves every other conversation as it was.
pub get_history-append :
    (s : InMemory) (c d : Text) (m : StoredMessage)
    → get_history (append s c m) d ≡ (
        if text_eq c d
        then window s.max_messages (get_history s c ++ (m ∷ []))
        else get_history s d)
get_history-append s c d m =
    let ms = get_history s c ++ (m ∷ []) in
    let s' = record s { conversations = insert c ms s.conversations } in
    let mine : get_history s' c ≡ ms = rw text_eq_refl at (get_history-insert s c c ms) in
    rw (append_lem, get_history-prune_locked s' c d)
      (rw mine (elim (Bool-cases (text_eq c d)) [
        | inl t ↦ rw t refl
        | inr t ↦ rw t (rw t at (get_history-insert s c d ms))
      ]))
