-- ===== src/Telegram/Split/Visible.antt =====
-- What the chunks of adapters/telegram.py hold of the message.
use emma.Common.{
  ℕ, zero, suc, ◌≡◌, refl, ap, sym, ◌∙◌, inl, inr, true, not, some, List, [], ◌∷◌, ◌++◌, append-nil,
  Text, length, take, drop, take-append-drop, select, select-append, is_space, rstrip, ltb,
  Bool-cases, Option-cases, List-cases,
}
use emma.Telegram.Split.{char_at, newline_cut, split_from, split_message}
use emma.Telegram.Split.Chunks.{char_at-take, char_at-newline_cut}

-- The characters of a text that are no blanks.
unfoldable pub visible : Text → Text
visible text = select (λ c. not (is_space c)) text

unfoldable pub concat : List Text → Text
concat [] = []
concat (t ∷ ts) = t ++ concat ts

pub visible-append : (s t : Text) → visible (s ++ t) ≡ visible s ++ visible t
unfolding visible
visible-append s t = select-append _ s t

visible-rstrip : (s : Text) → visible (rstrip s) ≡ visible s
unfolding visible rstrip select
visible-rstrip [] = refl
visible-rstrip (c ∷ cs) = elim (Bool-cases (is_space c)) [
  | inr e ↦ rw e (rw e (ap (◌∷◌ c) (visible-rstrip cs)))
  | inl e ↦ elim (List-cases (rstrip cs)) [
    | inl f ↦ let g : [] ≡ visible cs = ap visible (sym f) ∙ visible-rstrip cs in rw (e, f) g
    | inr (x, rest, f) ↦
        let g : visible (x ∷ rest) ≡ visible cs = ap visible (sym f) ∙ visible-rstrip cs in
        rw (e, f) (rw e g)
  ]
]

-- Leaving out a blank leaves the visible text as it is.
visible-skip :
    (i : ℕ) (r : Text) (c : ℕ)
    → char_at i r ≡ some c
    → is_space c ≡ true
    → visible (take i r) ++ visible (drop (suc i) r) ≡ visible r
unfolding visible char_at select
visible-skip i [] c h k = cc
visible-skip zero (x ∷ r) c h k = let f : x ≡ c = cc in rw f (rw k refl)
visible-skip (suc i) (x ∷ r) c h k = elim (Bool-cases (is_space x)) [
  | inl e ↦ rw e (visible-skip i r c h k)
  | inr e ↦ rw e (ap (◌∷◌ x) (visible-skip i r c h k))
]

newline_is_space : is_space 10 ≡ true
unfolding is_space
newline_is_space = refl

visible-split_from :
    (fuel limit : ℕ) (r : Text) → visible (concat (split_from fuel limit r)) ≡ visible r
unfolding split_from concat
visible-split_from zero limit r = ap visible (append-nil r)
visible-split_from (suc fuel) limit r = elim (Bool-cases (ltb limit (length r))) [
  | inr e ↦ rw e (ap visible (append-nil r))
  | inl e ↦ elim (Option-cases (newline_cut limit (take limit r))) [
    | inl f ↦
        rw (split_from, e, f)
          (rw (visible-append, visible-rstrip, visible-split_from fuel limit (drop limit r))
            (sym (visible-append (take limit r) (drop limit r))
              ∙ ap visible (take-append-drop limit r)))
    | inr (cut, f) ↦
        rw (split_from, e, f)
          (rw (visible-append, visible-rstrip, visible-split_from fuel limit (drop (suc cut) r))
            (visible-skip cut r 10
              (char_at-take cut limit r 10 (char_at-newline_cut limit cut (take limit r) f))
              newline_is_space))
  ]
]

-- The chunks in order hold every visible character of the message, in order and once: what the
-- cutting drops is blanks.
pub visible-split_message :
    (limit : ℕ) (text : Text) → visible (concat (split_message limit text)) ≡ visible text
unfolding split_message concat
visible-split_message limit text = elim (List-cases text) [
  | inl e ↦ rw e refl
  | inr (c, cs, e) ↦ rw e (visible-split_from (length (c ∷ cs)) limit (c ∷ cs))
]
