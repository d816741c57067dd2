-- ===== src/App/Lifespan.antt =====
-- `lifespan` of main.py. What the components do to the process, the files and the network is done to a world `W`.
use mathlib.Core.List.{reverse}
use emma.Common.{
  Option, none, some, List, [], ◌∷◌, ◌++◌, Text, lit, Result, ok, err, Exc, Step, attempt_all,
}
pub mod Unwinding

-- A component that is opened at the start and closed at the end, under the name that the log gives it.
pub record Part (W : Type 0) : Type 0 where
  pub name : Text
  pub start : W → Result Exc (Unit {0}) × W
  pub stop : W → Result Exc (Unit {0}) × W

-- A component's two coroutines.
pub record Managed (W : Type 0) : Type 0 where
  pub open_it : W → Result Exc (Unit {0}) × W
  pub close_it : W → Result Exc (Unit {0}) × W

module _ {W : Type 0} where
  abbrev named_part : Text → Managed W → Part W
  named_part name m = record { name = name; start = m.open_it; stop = m.close_it }

  -- The pairs of `open` and `started.append` in the `try`; the adapter's are its `start` and `stop`.
  abbrev pub components : (memory tasks facts tool_state telegram : Managed W) → List (Part W)
  components memory tasks facts tool_state telegram =
      named_part (lit "conversation memory") memory
      ∷ named_part (lit "task queue") tasks
      ∷ named_part (lit "fact store") facts
      ∷ named_part (lit "tool state") tool_state
      ∷ named_part (lit "telegram adapter") telegram
      ∷ []

  -- What `started.append` is given.
  abbrev pub stop_of : Part W → Step W
  stop_of p = (p.name, p.stop)

  -- `shut_down`: newest first
  unfoldable pub shut_down : List (Step W) → W → W
  shut_down started w = attempt_all (reverse started) w

  -- What an `await` in the `try` leads to: the next statement, or the handler with the exception and what is in
  -- `started` then.
  abbrev pub then_on :
      (W → (Option Exc × List (Step W)) × W)
      → List (Step W)
      → Result Exc (Unit {0}) × W
      → (Option Exc × List (Step W)) × W
  then_on next started (err e, w) = ((some e, started), w)
  then_on next started (ok _, w) = next w

  -- The body of the `try` that opens the components.
  unfoldable pub open_parts : List (Part W) → List (Step W) → W → (Option Exc × List (Step W)) × W
  open_parts [] started w = ((none, started), w)
  open_parts (p ∷ ps) started w =
      then_on (open_parts ps (started ++ (stop_of p ∷ []))) started (p.start w)

  -- Up to the `yield`: what was started, and the files that changed since the deploy. `drifted` is what
  -- `modified_since_deploy` answers, outside the `try`.
  -- The handler closes what was opened and raises again.
  abbrev pub unwound :
      List Text → (Option Exc × List (Step W)) × W → Result Exc (List (Step W) × List Text) × W
  unwound files ((some e, started), w) = (err e, shut_down started w)
  unwound files ((none, started), w) = (ok (started, files), w)

  unfoldable pub start_up :
      Step W
      → Result Exc (List Text)
      → List (Part W)
      → W
      → Result Exc (List (Step W) × List Text) × W
  unfolding open_parts shut_down
  start_up client (err e) parts w = (err e, w)
  start_up client (ok files) parts w = unwound files (open_parts parts (client ∷ []) w)

  -- `yield`, and `shut_down` whether the server returns or raises
  abbrev pub served :
      (W → Result Exc (Unit {0}) × W)
      → Result Exc (List (Step W) × List Text) × W
      → Result Exc (Unit {0}) × W
  served serve (err e, w) = (err e, w)
  served serve (ok (started, files), w) =
      let (outcome, w') = serve w in (outcome, shut_down started w')

  -- The whole of it: `serve` is what the server does between the two halves.
  unfoldable pub lifespan :
      Step W
      → Result Exc (List Text)
      → List (Part W)
      → (W → Result Exc (Unit {0}) × W)
      → W
      → Result Exc (Unit {0}) × W
  unfolding start_up
  lifespan client drifted parts serve w = served serve (start_up client drifted parts w)
