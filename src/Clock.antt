-- ===== src/Clock.antt =====
-- tools/clock.py: what time it is where the user is. The moments are given.
use emma.Common.{
  ◌≡◌, refl, ℕ, zero, suc, Bool, true, false, Option, none, some, List, [], ◌∷◌, Text, lit, decimal,
  two_digits, join, if◌then◌else◌,
}

pub record Moment : Type 0 where
  pub year : ℕ
  -- From 1, January, to 12.
  pub month : ℕ
  pub day : ℕ
  pub hour : ℕ
  pub minute : ℕ
  -- From 0, Monday, to 6.
  pub weekday : ℕ

abbrev pub day_names : List Text
day_names =
    lit "lunedi'"
    ∷ lit "martedi'"
    ∷ lit "mercoledi'"
    ∷ lit "giovedi'"
    ∷ lit "venerdi'"
    ∷ lit "sabato"
    ∷ lit "domenica"
    ∷ []

abbrev pub month_names : List Text
month_names =
    []
    ∷ lit "gennaio"
    ∷ lit "febbraio"
    ∷ lit "marzo"
    ∷ lit "aprile"
    ∷ lit "maggio"
    ∷ lit "giugno"
    ∷ lit "luglio"
    ∷ lit "agosto"
    ∷ lit "settembre"
    ∷ lit "ottobre"
    ∷ lit "novembre"
    ∷ lit "dicembre"
    ∷ []

-- `names[i]`; a moment of the calendar has its index in range.
unfoldable pub name_at : List Text → ℕ → Text
name_at [] i = []
name_at (n ∷ ns) zero = n
name_at (n ∷ ns) (suc i) = name_at ns i

-- `_now`: the moment in the zone, if its database is there, or else that of the system's clock, and
-- whether it was.
unfoldable pub now_or_system : Option Moment → Moment → Moment × Bool
now_or_system (some zoned) system = (zoned, true)
now_or_system none system = (system, false)

-- `describe_now`
unfoldable pub describe_now : Option Moment → Moment → Text
unfolding name_at now_or_system
describe_now zoned system =
    let (now, exact) = now_or_system zoned system in
    join [] (
      lit "Sono le "
      ∷ two_digits now.hour
      ∷ lit ":"
      ∷ two_digits now.minute
      ∷ lit " di "
      ∷ name_at day_names now.weekday
      ∷ lit " "
      ∷ decimal now.day
      ∷ lit " "
      ∷ name_at month_names now.month
      ∷ lit " "
      ∷ decimal now.year
      ∷ lit "."
      ∷ (if exact
          then []
          else lit " (ora di sistema: il fuso non e' verificabile su questa macchina)")
      ∷ [])

-- A Wednesday in September.
one_evening :
    describe_now
      (some (record { year = 2026; month = 9; day = 2; hour = 21; minute = 5; weekday = 2 }))
      (record { year = 2026; month = 9; day = 2; hour = 19; minute = 5; weekday = 2 })
    ≡ lit "Sono le 21:05 di mercoledi' 2 settembre 2026."
unfolding describe_now join lit two_digits decimal
one_evening = refl
