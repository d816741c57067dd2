-- ===== src/Common/Steps.antt =====
-- Named steps that are all attempted: a step that raises does not keep the rest from running.
use mathlib.Core.Path.{◌≡◌, refl}
use mathlib.Core.List.{List, [], ◌∷◌, ◌++◌}
use emma.Common.Results.{Result, Exc}
use emma.Common.Texts.{Text}

-- What the step changes is in the world that it returns, whether it raised or not.
abbrev pub Step : Type 0 → Type 0
Step W = Text × (W → Result Exc (Unit {0}) × W)

module _ {W : Type 0} where
  -- `for name, stop in steps: try: await stop() ... except Exception: log`
  unfoldable pub attempt_all : List (Step W) → W → W
  attempt_all [] w = w
  attempt_all ((name, stop) ∷ steps) w = attempt_all steps (stop w).1

  pub attempt_all-append :
      (xs ys : List (Step W)) (w : W) → attempt_all (xs ++ ys) w ≡ attempt_all ys (attempt_all xs w)
  unfolding attempt_all
  attempt_all-append [] ys w = refl
  attempt_all-append ((name, stop) ∷ xs) ys w = attempt_all-append xs ys (stop w).1
