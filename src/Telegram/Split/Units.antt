-- ===== src/Telegram/Split/Units.antt =====
-- The limit of adapters/telegram.py counts code points, and Telegram's counts UTF-16 units.
use emma.Common.{
  ℕ, zero, suc, ◌+◌, ◌*◌, ◌≤◌, ◌≡◌, refl, inl, inr, false, [], ◌∷◌, Text, length, All, ltb, ltb→lt,
  arith, Bool-cases, List-cases, if◌then◌else◌,
}
use emma.Telegram.Split.{split_from, split_message}

-- The UTF-16 code units of a text: two for a code point outside the first plane.
unfoldable pub utf16_length : Text → ℕ
utf16_length [] = 0
utf16_length (c ∷ cs) = (if ltb c 65536 then 1 else 2) + utf16_length cs

utf16_length-double :
    (text : Text) → All (λ c. 65536 ≤ c) text → utf16_length text ≡ 2 * length text
unfolding utf16_length
utf16_length-double [] h = refl
utf16_length-double (c ∷ cs) h = elim (Bool-cases (ltb c 65536)) [
  | inl e ↦ absurd (omega (arith, ltb→lt c 65536 e, h.0))
  | inr e ↦ rw e (omega (arith, utf16_length-double cs h.1))
]

split_from-short :
    (fuel limit : ℕ) (text : Text) → length text ≤ limit → split_from fuel limit text ≡ text ∷ []
unfolding split_from
split_from-short zero limit text h = refl
split_from-short (suc fuel) limit text h =
    let e : ltb limit (length text) ≡ false = ground arith in rw e refl

-- A message within the limit is one chunk, and if all its characters lie outside the first plane,
-- as most emoji do, that chunk has twice as many UTF-16 units as characters.
pub split_message-units :
    (limit : ℕ) (text : Text)
    → length text ≤ limit
    → All (λ c. 65536 ≤ c) text
    → (split_message limit text ≡ text ∷ []) × (utf16_length text ≡ 2 * length text)
unfolding split_message
split_message-units limit text h k = elim (List-cases text) [
  | inl e ↦ (rw e refl, utf16_length-double text k)
  | inr (c, cs, e) ↦ (
    rw e (split_from-short (length (c ∷ cs)) limit (c ∷ cs) (rw e at h)),
    utf16_length-double text k,
  )
]
