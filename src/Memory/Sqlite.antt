-- ===== src/Memory/Sqlite.antt =====
-- core/memory.py: SqliteConversationMemory. The statements that the source hands to SQLite are
-- written out over the table `messages`, a list of rows in the order of its INTEGER PRIMARY KEY
-- (so ORDER BY id is the list's order); `last_id` is what AUTOINCREMENT remembers. A failing disk
-- is not modelled here: the router takes a memory that may raise (Router).
pub mod Rows
pub mod Orphans
pub mod Pruning
pub mod Refines
mod Tests
use emma.Common.{
  runtime_error, value_error, ℕ, zero, suc, ◌+◌, ◌-◌, Bool, true, false, not, ◌||◌, Option, none,
  some, List, [], ◌∷◌, ◌++◌, Text, lit, text_eq, length, take, map, select, is_empty, Result, ok,
  err, Exc, ltb, leb, ◌==◌, if◌then◌else◌,
}
use emma.Llm.{Role, user, assistant}
use emma.Memory.{StoredMessage}

-- A row of `messages`.
pub record Row : Type 0 where
  pub id : ℕ
  pub conv_id : Text
  pub role : Role
  pub content : Text
  pub ts : ℕ

pub record Sqlite : Type 0 where
  pub max_messages : ℕ
  pub rows : List Row
  pub last_id : ℕ
  -- `self._db is not None`
  pub is_open : Bool

-- `SqliteConversationMemory(db_path, max_messages)` over the file's rows
unfoldable pub sqlite : ℕ → List Row → ℕ → Result Exc Sqlite
sqlite max_messages rows last_id =
    if leb max_messages 0
    then err (record { kind = value_error; message = lit "max_messages must be greater than zero" })
    else ok
        (record { max_messages = max_messages; rows = rows; last_id = last_id; is_open = false })

-- WHERE conv_id = ?
unfoldable pub conversation : Text → List Row → List Row
conversation conversation_id = select (λ r. text_eq conversation_id r.conv_id)

abbrev pub message_of : Row → StoredMessage
message_of r = record { role = r.role; content = r.content }

abbrev pub id_of : Row → ℕ
id_of r = r.id

-- `id IN (ids)`
unfoldable pub mem_id : ℕ → List ℕ → Bool
mem_id i [] = false
mem_id i (j ∷ js) = (i == j) || mem_id i js

-- DELETE FROM messages WHERE id IN (ids)
unfoldable pub delete_ids : List ℕ → List Row → List Row
unfolding mem_id
delete_ids ids = select (λ r. not (mem_id r.id ids))

-- `if ids: DELETE ...`, behind the test of `excess`
unfoldable pub delete_excess : ℕ → Text → List Row → List Row
unfolding conversation
delete_excess max_messages conversation_id rows =
    let count = length (conversation conversation_id rows) in
    let ids = take (count - max_messages) (map id_of (conversation conversation_id rows)) in
    if ltb max_messages count then if is_empty ids then rows else delete_ids ids rows else rows

-- SELECT id, role ... ORDER BY id LIMIT 1
unfoldable pub first_row : Text → List Row → Option Row
unfolding conversation
first_row conversation_id rows = elim (conversation conversation_id rows) [
  | [] ↦ none
  | r ∷ rs ↦ some r
]

-- `while row and row[1] != "user"`; each round deletes a row, so a round for each row is enough.
unfoldable pub delete_orphans : ℕ → Text → List Row → List Row
delete_orphans zero conversation_id rows = rows
delete_orphans (suc fuel) conversation_id rows = elim (first_row conversation_id rows) [
  | none ↦ rows
  | some r ↦ elim r.role [
    | user ↦ rows
    | assistant ↦ delete_orphans fuel conversation_id (delete_ids (r.id ∷ []) rows)
  ]
]

unfoldable pub prune_rows : ℕ → Text → List Row → List Row
unfolding delete_excess delete_orphans
prune_rows max_messages conversation_id rows =
    let kept = delete_excess max_messages conversation_id rows in
    delete_orphans (length kept) conversation_id kept

abbrev pub not_open : Exc
not_open = record {
  kind = runtime_error;
  message = lit "call open() on the conversation memory before using it";
}

-- `_require_open`, in front of what needs the connection
abbrev pub require_open : {A : Type 0} → Sqlite → Result Exc A → Result Exc A
require_open s go = if s.is_open then go else err not_open

unfoldable pub get_history : Sqlite → Text → Result Exc (List StoredMessage)
unfolding conversation
get_history s conversation_id =
    require_open s (ok (map message_of (conversation conversation_id s.rows)))

unfoldable pub prune_locked : Sqlite → Text → Sqlite
unfolding prune_rows
prune_locked s conversation_id = record s {
  rows = prune_rows s.max_messages conversation_id s.rows;
}

-- INSERT INTO messages(conv_id, role, content, ts)
unfoldable pub insert_row : Text → StoredMessage → ℕ → Sqlite → Sqlite
insert_row conversation_id message now s = record s {
  rows =
      s.rows
      ++ (record {
        id = s.last_id + 1;
        conv_id = conversation_id;
        role = message.role;
        content = message.content;
        ts = now;
      }
          ∷ []);
  last_id = s.last_id + 1;
}

unfoldable pub append : Sqlite → Text → StoredMessage → ℕ → Result Exc Sqlite
unfolding insert_row prune_locked
append s conversation_id message now =
    require_open s (ok (prune_locked (insert_row conversation_id message now s) conversation_id))

unfoldable pub prune : Sqlite → Text → Result Exc Sqlite
unfolding prune_locked
prune s conversation_id = require_open s (ok (prune_locked s conversation_id))
