-- ===== src/Common/Rounding.antt =====
-- Python's `round(a / b)` on a quotient of naturals: to the nearest, a half to the even side.
use Prim.Native.Nat.{ℕ, ◌+◌, ◌*◌, ◌/◌, ◌%◌}
use emma.Common.Tests.{ltb, ◌==◌, if◌then◌else◌}

unfoldable pub round_div : ℕ → ℕ → ℕ
round_div a b =
    let q = a / b in
    let r = a % b in
    if ltb (2 * r) b then q else if ltb b (2 * r) then q + 1 else if q % 2 == 0 then q else q + 1
