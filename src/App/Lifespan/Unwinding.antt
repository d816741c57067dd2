-- ===== src/App/Lifespan/Unwinding.antt =====
-- What is closed, and in which order, whichever component fails to open.
use emma.Common.{◌≡◌, refl, ap, List, [], ◌∷◌, ◌++◌, Result, ok, err, Exc, Step}
use emma.App.Lifespan.{Part}

module _ {W : Type 0} where
  -- Every part is opened, in order, and none raises.
  pub data Opened : List (Part W) → W → W → Type 0 where
    nothing : {w : W} → Opened [] w w
    more :
        {p : Part W} {ps : List (Part W)} {w w' w'' : W}
        → p.start w ≡ (ok tt, w')
        → Opened ps w' w''
        → Opened (p ∷ ps) w w''

  -- The parts are closed from the last to the first, whatever each of them raises.
  pub closed_backwards : List (Part W) → W → W
  closed_backwards [] w = w
  closed_backwards (p ∷ ps) w = (p.stop (closed_backwards ps w)).1

  -- What opening the parts comes to.
  pub data Opening (parts : List (Part W)) (w : W) : Type 0 where
    complete : (w' : W) → Opened parts w w' → Opening parts w
    failed :
        (before : List (Part W)) (p : Part W) (after : List (Part W)) (e : Exc) (w' w'' : W)
        → parts ≡ before ++ (p ∷ after)
        → Opened before w w'
        → p.start w' ≡ (err e, w'')
        → Opening parts w

  opening : (parts : List (Part W)) (w : W) → Opening parts w
  opening [] w = complete w nothing
  opening (p ∷ ps) w = first p ps w (p.start w) refl (λ w'. opening ps w')
    where
      first :
          (p : Part W) (ps : List (Part W)) (w : W) (r : Result Exc (Unit {0}) × W)
          → p.start w ≡ r
          → ((w' : W) → Opening ps w')
          → Opening (p ∷ ps) w
      first p ps w (err e, w') s rest = failed [] p ps e w w' refl nothing s
      first p ps w (ok tt, w') s rest = elim (rest w') [
        | complete w'' o ↦ complete w'' (more s o)
        | failed before q after e v v' split o raised ↦
            failed (p ∷ before) q after e v v' (ap (◌∷◌ p) split) (more s o) raised
      ]

-- The two ways in which a run of the server can go once the deploy was looked at: `out` is its outcome with the
-- world that it leaves.
pub data Run {W : Type 0} (client : Step W) (parts : List (Part W))
    (serve : W → Result Exc (Unit {0}) × W) (w : W) (out : Result Exc (Unit {0}) × W) : Type 0 where
  -- Every component was opened, in order; the server ran; every component was closed, in the reverse order, and
  -- then the model client.
  whole :
      (w' : W)
      → Opened parts w w'
      → out ≡ ((serve w').0, (client.1 (closed_backwards parts (serve w').1)).1)
      → Run client parts serve w out
  -- A component raised. Those before it were closed, in the reverse order, and then the model client; it and those
  -- after it were not closed, and the exception went on.
  cut_short :
      (before : List (Part W)) (p : Part W) (after : List (Part W)) (e : Exc) (w' w'' : W)
      → parts ≡ before ++ (p ∷ after)
      → Opened before w w'
      → p.start w' ≡ (err e, w'')
      → out ≡ (err e, (client.1 (closed_backwards before w'')).1)
      → Run client parts serve w out
