-- ===== src/ToolState.antt =====
-- tools/toolstate/store.py: which tools are switched off.
-- The table is the list of its rows in the order of insertion. A method holds the lock and is one
-- step; an exception leaves the table as it was. Times are whole seconds since the epoch.
use emma.Common.{
  Opening, open_connection, close_connection, Option, none, some, runtime_error, ℕ, Bool, true,
  false, not, Option, none, some, List, [], ◌∷◌, ◌++◌, Text, lit, text_eq, mem_text, strip, map,
  select, any, Result, ok, err, Exc, leb, if◌then◌else◌,
}
pub mod Rows
pub mod Removal

abbrev pub protected : List Text
protected = lit "list_tools" ∷ lit "enable_tool" ∷ []

abbrev pub min_time_off_seconds : ℕ
min_time_off_seconds = 3600

pub record SwitchedOff : Type 0 where
  pub name : Text
  pub since : ℕ
  pub reason : Text

pub record ToolStateStore : Type 0 where
  pub rows : List SwitchedOff
  pub is_open : Bool

abbrev pub not_open : Exc
not_open = record {
  kind = runtime_error;
  message = lit "call open() on the tool state store before using it";
}

-- `_require_open`, in front of what needs the connection
abbrev pub require_open : {A : Type 0} → ToolStateStore → Result Exc A → Result Exc A
require_open s go = if s.is_open then go else err not_open

abbrev pub named : Text → SwitchedOff → Bool
named name row = text_eq name row.name

unfoldable pub disabled : ToolStateStore → Result Exc (List Text)
disabled s = require_open s (ok (map (λ row. row.name) s.rows))

-- ORDER BY disabled_at
unfoldable pub insert_by_since : SwitchedOff → List SwitchedOff → List SwitchedOff
insert_by_since row [] = row ∷ []
insert_by_since row (r ∷ rs) =
    let rest = insert_by_since row rs in if leb row.since r.since then row ∷ r ∷ rs else r ∷ rest

unfoldable pub oldest_first : List SwitchedOff → List SwitchedOff
unfolding insert_by_since
oldest_first [] = []
oldest_first (row ∷ rows) = insert_by_since row (oldest_first rows)

unfoldable pub switched_off : ToolStateStore → Result Exc (List SwitchedOff)
unfolding oldest_first
switched_off s = require_open s (ok (oldest_first s.rows))

-- SELECT disabled_at FROM tool_state WHERE name = ?
unfoldable pub since_of : Text → List SwitchedOff → Option ℕ
since_of name [] = none
since_of name (row ∷ rows) = if named name row then some row.since else since_of name rows

unfoldable pub disabled_since : ToolStateStore → Text → Result Exc (Option ℕ)
unfolding since_of
disabled_since s name = require_open s (ok (since_of name s.rows))

unfoldable pub is_disabled : ToolStateStore → Text → Result Exc Bool
unfolding disabled_since
is_disabled s name = elim (disabled_since s name) [
  | ok none ↦ ok false
  | ok (some since) ↦ ok true
  | err e ↦ err e
]

-- INSERT OR IGNORE, and `cursor.rowcount > 0`
unfoldable pub insert_or_ignore : SwitchedOff → ToolStateStore → Bool × ToolStateStore
insert_or_ignore row s =
    if any (named row.name) s.rows
    then (false, s)
    else (true, record s { rows = s.rows ++ (row ∷ []) })

unfoldable pub disable : ToolStateStore → Text → Text → ℕ → Result Exc (Bool × ToolStateStore)
unfolding insert_or_ignore
disable s name reason now =
    if mem_text name protected
    then ok (false, s)
    else require_open s
        (ok (insert_or_ignore (record { name = name; since = now; reason = strip reason }) s))

unfoldable pub enable : ToolStateStore → Text → Result Exc (Bool × ToolStateStore)
enable s name =
    require_open s (
      ok (any (named name) s.rows, record s { rows = select (λ row. not (named name row)) s.rows }))

unfoldable pub open_store : Opening → ToolStateStore → Result Exc (Unit {0}) × ToolStateStore
unfolding open_connection
open_store o s =
    let (outcome, holds) = open_connection o s.is_open in (outcome, record s { is_open = holds })

unfoldable pub close_store : Option Exc → ToolStateStore → Result Exc (Unit {0}) × ToolStateStore
unfolding close_connection
close_store raised s =
    let (outcome, holds) = close_connection raised s.is_open in
    (outcome, record s { is_open = holds })
