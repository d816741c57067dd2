-- ===== src/Common/Connection.antt =====
-- How a store of the program opens and closes its SQLite connection: what the library answers to
-- each call is given. A store is open if it holds a connection.
use mathlib.Core.Bool.{Bool, true, false}
use mathlib.Core.Option.{Option, none, some}
use emma.Common.Results.{Result, ok, err, Exc}

-- What is raised, if anything, where the directory is made, where the connection is made, and in the
-- statements that set it up.
pub record Opening : Type 0 where
  pub make_directory : Option Exc
  pub connect : Option Exc
  pub set_up : Option Exc

-- `self._db = await connect(...)` stands before the statements that set it up.
unfoldable pub open_connection : Opening → Bool → Result Exc (Unit {0}) × Bool
open_connection o holds = elim o.make_directory [
  | some e ↦ (err e, holds)
  | none ↦ elim o.connect [
    | some e ↦ (err e, holds)
    | none ↦ elim o.set_up [ some e ↦ (err e, true) | none ↦ (ok tt, true) ]
  ]
]

-- `if self._db is not None`: it is let go only after it was closed.
unfoldable pub close_connection : Option Exc → Bool → Result Exc (Unit {0}) × Bool
close_connection raised false = (ok tt, false)
close_connection none true = (ok tt, false)
close_connection (some e) true = (err e, true)
