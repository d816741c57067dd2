-- ===== src/Retry.antt =====
-- core/retry.py: the retry policy. Times are whole ticks of a unit that the caller chooses, where
-- the source has floating seconds; attempts count from 1, as the source's do.
pub mod Laws
mod Tests
use emma.Common.{
  ℕ, zero, suc, ◌+◌, ◌-◌, ◌*◌, ◌^◌, Option, none, some, List, [], ◌∷◌, map, ltb, if◌then◌else◌,
}

-- DEFAULT_MAX_ATTEMPTS
abbrev pub default_max_attempts : ℕ
default_max_attempts = 3

unfoldable pub backoff_delay : ℕ → ℕ → ℕ
backoff_delay attempt base = base * 2 ^ (attempt - 1)

-- The pause that is slept, if one is.
unfoldable pub pause_before_retry : ℕ → ℕ → ℕ → Option ℕ
pause_before_retry attempt max_attempts base =
    if ltb attempt max_attempts then some (backoff_delay attempt base) else none

-- `range(start, start + n)`
unfoldable pub range_from : ℕ → ℕ → List ℕ
range_from start zero = []
range_from start (suc n) = start ∷ range_from (start + 1) n

unfoldable pub sum : List ℕ → ℕ
sum [] = 0
sum (x ∷ xs) = x + sum xs

unfoldable pub remaining_backoff : ℕ → ℕ → ℕ → ℕ
unfolding range_from sum
remaining_backoff attempt max_attempts base =
    sum (map (λ later. backoff_delay later base) (range_from attempt (max_attempts - attempt)))

-- What one call of `pause_before_retry` adds to the time slept.
abbrev pub slept : Option ℕ → ℕ
slept none = 0
slept (some t) = t
