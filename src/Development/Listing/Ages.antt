-- ===== src/Development/Listing/Ages.antt =====
-- What `_describe_age` of tools/development.py says against the age it was given.
use emma.Common.{ℕ, ◌+◌, ◌*◌, ◌≤◌, ◌<◌, round_div, arith}
use emma.Development.Listing.{Age, under_a_minute, minutes, hours, days, age_of}

-- `n` units of `unit` seconds is the age to the nearest, at least one of them.
abbrev Nearest : ℕ → ℕ → ℕ → Type 0
Nearest unit n seconds =
    (1 ≤ n) × (2 * (unit * n) ≤ 2 * seconds + unit) × (2 * seconds ≤ 2 * (unit * n) + unit)

-- What a sentence says of an age in seconds.
abbrev pub Says : Age → ℕ → Type 0
Says under_a_minute seconds = seconds < 60
Says (minutes n) seconds = Nearest 60 n seconds
Says (hours n) seconds = Nearest 3600 n seconds
Says (days n) seconds = Nearest 86400 n seconds

-- Whatever the age, the sentence is true of it: "less than a minute" is said only below sixty
-- seconds, and a number of minutes, hours or days is at least one and within half a unit of the age.
pub age_of-Says : (seconds : ℕ) → Says (age_of seconds) seconds
unfolding age_of round_div
age_of-Says seconds = ground arith
