-- ===== src/Retry/Tests.antt =====
-- Runs of core/retry.py.
use emma.Common.{◌+◌, ◌*◌, ◌^◌, ◌≡◌, refl, some, none, arith}
use emma.Retry.{default_max_attempts, remaining_backoff, backoff_delay, pause_before_retry}
use emma.Retry.Laws.{remaining_backoff_closed}

default_pauses :
    (remaining_backoff 1 default_max_attempts 1 ≡ 3)
    × (pause_before_retry 1 3 1 ≡ some 1)
    × (pause_before_retry 2 3 1 ≡ some 2)
    × (pause_before_retry 3 3 1 ≡ none)
unfolding remaining_backoff backoff_delay pause_before_retry
default_pauses = (refl, refl, refl, refl)

three_seconds_left : remaining_backoff 1 3 1 + 1 * 2 ^ 0 ≡ 1 * 2 ^ 2
three_seconds_left = remaining_backoff_closed 1 3 1 (omega arith) (omega arith)
