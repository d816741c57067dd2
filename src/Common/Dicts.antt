-- ===== src/Common/Dicts.antt =====
-- Python's `dict` with text keys, as the list of its items.
use mathlib.Core.Path.{◌≡◌, refl}
use mathlib.Core.List.{List, [], ◌∷◌, ◌++◌}
use mathlib.Core.Option.{Option, none, some}
use native.Mathlib.Omega.{arith}
use emma.Common.Tests.{if◌then◌else◌}
use emma.Common.Texts.{Text, text_eq, text_eq_iff}

abbrev pub Dict {ℓ} : Type ℓ → Type ℓ
Dict V = List (Text × V)

module _ {ℓ} {V : Type ℓ} where
  -- `d.get(key)`
  unfoldable pub lookup : Text → Dict V → Option V
  lookup key [] = none
  lookup key ((k, v) ∷ d) = if text_eq k key then some v else lookup key d

  -- `d[key] = value`
  unfoldable pub insert : Text → V → Dict V → Dict V
  insert key v [] = (key, v) ∷ []
  insert key v ((k, w) ∷ d) = if text_eq k key then (k, v) ∷ d else (k, w) ∷ insert key v d

  pub lookup-insert :
      (key : Text) (v : V) (d : Dict V) (j : Text)
      → lookup j (insert key v d) ≡ (if text_eq key j then some v else lookup j d)
  unfolding lookup insert
  lookup-insert key v [] j = refl
  lookup-insert key v ((k, w) ∷ d) j =
      ground (arith, lookup-insert key v d j, text_eq_iff k key, text_eq_iff k j, text_eq_iff key j)

  -- What is set stays set when items are put behind it.
  pub lookup-append :
      (key : Text) (v : V) (d e : Dict V) → lookup key d ≡ some v → lookup key (d ++ e) ≡ some v
  unfolding lookup
  lookup-append key v [] e h = cc
  lookup-append key v ((k, w) ∷ d) e h = ground (arith, lookup-append key v d e)
