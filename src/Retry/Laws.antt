-- ===== src/Retry/Laws.antt =====
-- The pauses of core/retry.py and their sum.
use native.Mathlib.Nat.{pow-succ'}
use emma.Common.{
  ℕ, zero, suc, ◌+◌, ◌-◌, ◌*◌, ◌^◌, ◌≤◌, ◌<◌, ◌≡◌, map, arith, Bool-cases, inl, inr, ltb, ltb→lt,
  ltb→le,
}
use emma.Retry.{backoff_delay, pause_before_retry, range_from, sum, remaining_backoff, slept}

-- The pauses of `n` attempts from `start` on.
abbrev pauses : ℕ → ℕ → ℕ → ℕ
pauses base start n = sum (map (λ later. backoff_delay later base) (range_from start n))

-- One step of the sum.
pub remaining_backoff-step :
    (attempt max base : ℕ)
    → remaining_backoff attempt max base
      ≡ slept (pause_before_retry attempt max base) + remaining_backoff (attempt + 1) max base
unfolding remaining_backoff pause_before_retry
remaining_backoff-step attempt max base = elim (Bool-cases (ltb attempt max)) [
  | inl more ↦
      let m : attempt < max = ltb→lt attempt max more in
      let e : max - attempt ≡ suc (max - (attempt + 1)) = omega arith in rw (e, more)
  | inr last ↦
      let m : max ≤ attempt = ltb→le attempt max last in
      let d : max - attempt ≡ 0 = omega arith in
      let e : max - (attempt + 1) ≡ 0 = omega arith in rw (d, e, last)
]

backoff_delay-suc :
    (start base : ℕ) → 0 < start → backoff_delay (start + 1) base ≡ 2 * backoff_delay start base
unfolding backoff_delay
backoff_delay-suc start base h =
    let e : start + 1 - 1 ≡ suc (start - 1) = omega arith in rw (e, pow-succ') (grind arith)

-- The pauses double, so with the next one's half they make a power of two.
pauses_closed :
    (base n start : ℕ)
    → 0 < start
    → pauses base start n + backoff_delay start base ≡ backoff_delay (start + n) base
unfolding range_from sum
pauses_closed base zero start h = let e : start + zero ≡ start = omega arith in rw e (omega arith)
pauses_closed base (suc n) start h =
    let e : start + 1 + n ≡ start + suc n = omega arith in
    let ih : pauses base (start + 1) n + backoff_delay (start + 1) base
        ≡ backoff_delay (start + suc n) base =
      rw e at (pauses_closed base n (start + 1) (omega arith)) in
    omega (arith, ih, backoff_delay-suc start base h)

-- From an attempt on, counted from 1 up to the ceiling, the waits that are left are those of a
-- doubling series: with the base times 2 ^ (attempt - 1) they make the base times 2 ^ (max - 1).
pub remaining_backoff_closed :
    (attempt max base : ℕ)
    → 0 < attempt
    → attempt ≤ max
    → remaining_backoff attempt max base + base * 2 ^ (attempt - 1) ≡ base * 2 ^ (max - 1)
unfolding remaining_backoff
remaining_backoff_closed attempt max base pos h =
    let e : attempt + (max - attempt) ≡ max = omega arith in
    unfold backoff_delay in rw e at (pauses_closed base (max - attempt) attempt pos)
