-- ===== src/Memory.antt =====
-- core/memory.py: a stored message, and the in-process store with its sliding window. A method runs
-- under the store's lock, so each is one step.
pub mod Window
pub mod Histories
pub mod Sqlite
pub mod Recovery
pub mod Contract
mod Tests
use emma.Common.{
  value_error, ℕ, zero, suc, ◌-◌, Option, none, some, List, [], ◌∷◌, ◌++◌, Text, lit, Dict, lookup,
  insert, length, drop, Result, ok, err, Exc, ltb, leb, if◌then◌else◌,
}
use emma.Llm.{Role, user, assistant}

pub record StoredMessage : Type 0 where
  pub role : Role
  pub content : Text

-- `while messages and messages[0].role != "user": del messages[0]`
unfoldable pub drop_orphans : List StoredMessage → List StoredMessage
drop_orphans [] = []
drop_orphans (m ∷ ms) =
    let rest = drop_orphans ms in elim m.role [ user ↦ m ∷ ms | assistant ↦ rest ]

-- What `_prune_locked` leaves of one conversation.
unfoldable pub window : ℕ → List StoredMessage → List StoredMessage
unfolding drop_orphans
window max_messages messages = drop_orphans (
    if ltb max_messages (length messages)
    then drop (length messages - max_messages) messages
    else messages)

pub record InMemory : Type 0 where
  pub max_messages : ℕ
  pub conversations : Dict (List StoredMessage)

-- `_conversations.get(conversation_id, ())`
unfoldable pub messages_of : InMemory → Text → List StoredMessage
messages_of s conversation_id = elim (lookup conversation_id s.conversations) [
  | none ↦ []
  | some messages ↦ messages
]

-- `InMemoryConversationMemory(max_messages)`
unfoldable pub in_memory : ℕ → Result Exc InMemory
in_memory max_messages =
    if leb max_messages 0
    then err (record { kind = value_error; message = lit "max_messages must be greater than zero" })
    else ok (record { max_messages = max_messages; conversations = [] })

unfoldable pub get_history : InMemory → Text → List StoredMessage
unfolding messages_of
get_history s conversation_id = messages_of s conversation_id

unfoldable pub prune_locked : InMemory → Text → InMemory
unfolding window
prune_locked s conversation_id = elim (lookup conversation_id s.conversations) [
  | none ↦ s
  | some messages ↦ elim messages [
    | [] ↦ s
    | m ∷ ms ↦ record s {
      conversations = insert conversation_id (window s.max_messages (m ∷ ms)) s.conversations;
    }
  ]
]

-- `defaultdict` makes the list of a conversation that is not there.
unfoldable pub append : InMemory → Text → StoredMessage → InMemory
unfolding prune_locked messages_of
append s conversation_id message =
    prune_locked
      (record s {
        conversations =
            insert conversation_id (messages_of s conversation_id ++ (message ∷ []))
              s.conversations;
      })
      conversation_id

unfoldable pub prune : InMemory → Text → InMemory
unfolding prune_locked
prune s conversation_id = prune_locked s conversation_id
