-- ===== src/Telegram/Split/Chunks.antt =====
-- The size of the chunks that adapters/telegram.py cuts a message into.
use emma.Common.{
  ℕ, zero, suc, ◌≤◌, ◌<◌, ◌≡◌, ap, ◌∙◌, ◌/◌, inl, inr, none, some, [], ◌∷◌, Text, length, take,
  drop, is_empty, All, length-drop, length-take-le, length-rstrip-le, ltb, ltb→le, arith,
  Bool-cases, Option-cases, ◌==◌, ==_iff,
}
use mathlib.Core.Path.{subst}
use emma.Telegram.Split.{char_at, rfind_newline, step_back, newline_cut, split_from, split_message}

pub char_at-lt : (i : ℕ) (w : Text) (c : ℕ) → char_at i w ≡ some c → i < length w
unfolding char_at
char_at-lt i [] c h = cc
char_at-lt zero (x ∷ w) c h = omega arith
char_at-lt (suc i) (x ∷ w) c h = omega (arith, char_at-lt i w c h)

pub char_at-take :
    (i n : ℕ) (w : Text) (c : ℕ) → char_at i (take n w) ≡ some c → char_at i w ≡ some c
unfolding char_at
char_at-take i zero w c h = cc
char_at-take i (suc n) [] c h = h
char_at-take zero (suc n) (x ∷ w) c h = h
char_at-take (suc i) (suc n) (x ∷ w) c h = char_at-take i n w c h

char_at-rfind_newline : (i : ℕ) (w : Text) → rfind_newline w ≡ some i → char_at i w ≡ some 10
unfolding rfind_newline char_at
char_at-rfind_newline i [] h = cc
char_at-rfind_newline i (c ∷ w) h = elim (Option-cases (rfind_newline w)) [
  | inr (j, e) ↦
      let g : some (suc j) ≡ some i = rw e at h in
      let f : suc j ≡ i = cc in
      subst (λ k. char_at k (c ∷ w) ≡ some 10) f (char_at-rfind_newline j w e)
  | inl e ↦ elim (Bool-cases (c == 10)) [
    | inl d ↦
        let g : some 0 ≡ some i = rw (e, d) at h in
        let f : 0 ≡ i = cc in
        subst (λ k. char_at k (c ∷ w) ≡ some 10) f (ap some ((==_iff c 10).0 d))
    | inr d ↦ let bad : none ≡ some i = rw (e, d) at h in cc
  ]
]

char_at-step_back : (i : ℕ) (w : Text) → char_at i w ≡ some 10 → char_at (step_back i w) w ≡ some 10
unfolding step_back
char_at-step_back zero w h = h
char_at-step_back (suc i) w h = elim (Option-cases (char_at i w)) [
  | inl e ↦ rw e h
  | inr (c, e) ↦ elim (Bool-cases (c == 10)) [
    | inl d ↦ rw (e, d) (e ∙ ap some ((==_iff c 10).0 d))
    | inr d ↦ rw (e, d) h
  ]
]

-- A cut that is not the hard one falls on a newline of the window.
pub char_at-newline_cut :
    (limit i : ℕ) (w : Text) → newline_cut limit w ≡ some i → char_at i w ≡ some 10
unfolding newline_cut
char_at-newline_cut limit i w h = elim (Option-cases (rfind_newline w)) [
  | inl e ↦ let bad : none ≡ some i = rw (newline_cut, e) at h in cc
  | inr (j, e) ↦ elim (Bool-cases (ltb j (limit / 2))) [
    | inl f ↦ let bad : none ≡ some i = rw (newline_cut, e, f) at h in cc
    | inr f ↦
        let g : some (step_back j w) ≡ some i = rw (newline_cut, e, f) at h in
        let k : step_back j w ≡ i = cc in
        subst (λ x. char_at x w ≡ some 10) k (char_at-step_back j w (char_at-rfind_newline j w e))
  ]
]

cut-lt : (limit cut : ℕ) (r : Text) → newline_cut limit (take limit r) ≡ some cut → cut < limit
cut-lt limit cut r h = omega (
  arith,
  char_at-lt cut (take limit r) 10 (char_at-newline_cut limit cut (take limit r) h),
  length-take-le limit r,
)

split_from-fits :
    (fuel limit : ℕ) (r : Text)
    → 0 < limit
    → length r ≤ fuel
    → All (λ chunk. length chunk ≤ limit) (split_from fuel limit r)
unfolding split_from
split_from-fits zero limit r l h = (omega arith, tt)
split_from-fits (suc fuel) limit r l h = elim (Bool-cases (ltb limit (length r))) [
  | inr e ↦ rw e (ltb→le limit (length r) e, tt)
  | inl e ↦ elim (Option-cases (newline_cut limit (take limit r))) [
    | inl f ↦
        rw (split_from, e, f)
          (
            omega (arith, length-rstrip-le (take limit r), length-take-le limit r),
            split_from-fits fuel limit (drop limit r) l (omega (arith, length-drop limit r)),
          )
    | inr (cut, f) ↦
        rw (split_from, e, f)
          (
            omega
                (arith, length-rstrip-le (take cut r), length-take-le cut r, cut-lt limit cut r f),
            split_from-fits fuel limit (drop (suc cut) r) l
                (omega (arith, length-drop (suc cut) r)),
          )
  ]
]

-- With a limit of one character at least, every message is cut into chunks of at most the limit,
-- the last one too: the loop ends by itself.
pub split_message-fits :
    (limit : ℕ) (text : Text)
    → 0 < limit
    → All (λ chunk. length chunk ≤ limit) (split_message limit text)
unfolding split_message
split_message-fits limit text l = elim (Bool-cases (is_empty text)) [
  | inl e ↦ rw e (omega arith, tt)
  | inr e ↦ rw e (split_from-fits (length text) limit text l (omega arith))
]
