-- ===== src/Common/Sequence.antt =====
-- Ids that AUTOINCREMENT gives out: numbers that ascend.
use Prim.Native.Nat.{ℕ, ◌+◌, ◌≤◌, ◌<◌}
use mathlib.Core.List.{List, [], ◌∷◌, ◌++◌}
use native.Mathlib.Omega.{arith}

-- Above `lo` and up to `hi`.
abbrev pub Ascending : ℕ → ℕ → List ℕ → Type 0
Ascending lo hi [] = lo ≤ hi
Ascending lo hi (i ∷ is) = (lo < i) × Ascending i hi is

pub Ascending-snoc :
    (lo hi : ℕ) (is : List ℕ) → Ascending lo hi is → Ascending lo (hi + 1) (is ++ ((hi + 1) ∷ []))
Ascending-snoc lo hi [] h = (omega arith, omega arith)
Ascending-snoc lo hi (i ∷ is) h = (h.0, Ascending-snoc i hi is h.1)
