-- ===== src/Common/Decimal.antt =====
-- A natural number as Python prints it: f"{n}", f"{n:02d}".
use Prim.Native.Nat.{ℕ, zero, suc, ◌+◌, ◌-◌, ◌*◌, ◌/◌, ◌%◌, ◌<◌}
use mathlib.Core.Path.{◌≡◌, ap}
use mathlib.Core.Logic.{inl, inr}
use mathlib.Core.Bool.{◌&&◌}
use mathlib.Core.Option.{Option, none, some}
use native.Mathlib.Omega.{arith}
use mathlib.Core.List.{[], ◌∷◌}
use emma.Common.Tests.{ltb, leb, Bool-cases, if◌then◌else◌}
use emma.Common.Texts.{Text}

-- The digits of `n` in front of `acc`; `suc n` is fuel enough, since each round divides by ten.
digits : ℕ → ℕ → Text → Text
digits zero n acc = acc
digits (suc f) n acc =
    let rest = digits f (n / 10) ((48 + n % 10) ∷ acc) in if ltb n 10 then (48 + n) ∷ acc else rest

unfoldable pub decimal : ℕ → Text
unfolding digits
decimal n = digits (suc n) n []

unfoldable pub two_digits : ℕ → Text
unfolding decimal
two_digits n = if ltb n 10 then 48 ∷ decimal n else decimal n

-- A run of digits, read on from `acc`.
unfoldable pub read_digits : ℕ → Text → Option ℕ
read_digits acc [] = some acc
read_digits acc (c ∷ cs) =
    let rest = read_digits (acc * 10 + (c - 48)) cs in if leb 48 c && leb c 57 then rest else none

read_digits-digits :
    (f n : ℕ) (acc : Text) → n < f → read_digits 0 (digits f n acc) ≡ read_digits n acc
unfolding digits read_digits
read_digits-digits zero n acc h = elim h [ ]
read_digits-digits (suc f) n acc h = elim (Bool-cases (ltb n 10)) [
  | inl small ↦ rw small (ground arith)
  | inr large ↦
      let same : n / 10 * 10 + (48 + n % 10 - 48) ≡ n = omega arith in
      rw (large, read_digits-digits f (n / 10) ((48 + n % 10) ∷ acc) (ground arith))
        (ground (arith, ap (λ (m : ℕ). read_digits m acc) same))
]

-- What is printed in decimal reads back as the number.
pub read_digits-decimal : (n : ℕ) → read_digits 0 (decimal n) ≡ some n
unfolding decimal read_digits
read_digits-decimal n = read_digits-digits (suc n) n [] (omega arith)
