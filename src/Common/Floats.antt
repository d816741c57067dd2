-- ===== src/Common/Floats.antt =====
-- Python's float, as far as the program reads one: a number with a sign over a power of two, an
-- infinity, or nan.
use Prim.Native.Nat.{ℕ, ◌*◌, ◌^◌}
use mathlib.Core.Bool.{Bool, true, false, not, ◌&&◌, ◌||◌}
use mathlib.Core.List.{◌++◌}
use emma.Common.Tests.{ltb, ◌==◌, if◌then◌else◌}
use emma.Common.Texts.{Text, lit}
use emma.Common.Decimal.{decimal}
use emma.Common.Rounding.{round_div}
use emma.Common.Results.{Result, ok, err, Exc, value_error, other_error}

-- `finite negative m k` is m / 2 ^ k with a sign.
pub data Float : Type 0 where
  finite : (negative : Bool) → (numerator exponent : ℕ) → Float
  infinite : (negative : Bool) → Float
  nan : Float

abbrev pub is_finite : Float → Bool
is_finite (finite negative m k) = true
is_finite (infinite negative) = false
is_finite nan = false

-- `x > n`
unfoldable pub exceeds : Float → ℕ → Bool
exceeds (finite true m k) n = false
exceeds (finite false m k) n = ltb (n * 2 ^ k) m
exceeds (infinite negative) n = not negative
exceeds nan n = false

-- `x < n`
unfoldable pub is_below : Float → ℕ → Bool
is_below (finite true m k) n = ltb 0 m || ltb 0 n
is_below (finite false m k) n = ltb m (n * 2 ^ k)
is_below (infinite negative) n = negative
is_below nan n = false

-- `f"{x:.0f}"`
unfoldable pub print_whole : Float → Text
unfolding round_div
print_whole (finite true m k) = lit "-" ++ decimal (round_div m (2 ^ k))
print_whole (finite false m k) = decimal (round_div m (2 ^ k))
print_whole (infinite true) = lit "-inf"
print_whole (infinite false) = lit "inf"
print_whole nan = lit "nan"

-- What `round` raises.
abbrev pub overflow : Exc
overflow = record { kind = other_error; message = lit "cannot convert float infinity to integer" }

abbrev pub no_number : Exc
no_number = record { kind = value_error; message = lit "cannot convert float NaN to integer" }

-- `str(round(x / d))`. The quotient is not rounded to a float before it is rounded to an integer.
unfoldable pub round_over : Float → ℕ → Result Exc Text
unfolding round_div
round_over (finite negative m k) d =
    let n = round_div m (2 ^ k * d) in
    if negative && not (n == 0) then ok (lit "-" ++ decimal n) else ok (decimal n)
round_over (infinite negative) d = err overflow
round_over nan d = err no_number
