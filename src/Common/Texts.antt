-- ===== src/Common/Texts.antt =====
-- Python's `str` as the list of its code points, with the methods that the program calls.
use Prim.Native.Nat.{ℕ, ◌≤◌}
use Prim.Native.Char.{code}
use Prim.Native.String.{String}
use mathlib.Core.Path.{◌≡◌, refl, sym, ap, ◌∙◌}
use mathlib.Core.Logic.{◌↔◌}
use mathlib.Core.Bool.{Bool, true, false, ◌&&◌, ◌||◌}
use mathlib.Core.List.{List, [], ◌∷◌, ◌++◌, append-nil, append_assoc}
use native.Mathlib.Omega.{arith}
use emma.Common.Tests.{leb, ◌==◌, if◌then◌else◌}
use emma.Common.Lists.{length, is_empty, All, All-imp}

abbrev pub Text : Type 0
Text = List ℕ

-- A literal of the source.
unfoldable pub lit : String → Text
lit String.[] = []
lit (String.◌∷◌ c s) = code c ∷ lit s

abbrev pub newline : Text
newline = 10 ∷ []

-- `s == t`
unfoldable pub text_eq : Text → Text → Bool
text_eq [] [] = true
text_eq [] (y ∷ ys) = false
text_eq (x ∷ xs) [] = false
text_eq (x ∷ xs) (y ∷ ys) = (x == y) && text_eq xs ys

pub text_eq_iff : (s t : Text) → (text_eq s t ≡ true) ↔ (s ≡ t)
unfolding text_eq
text_eq_iff [] [] = ground arith
text_eq_iff [] (y ∷ ys) = ground arith
text_eq_iff (x ∷ xs) [] = ground arith
text_eq_iff (x ∷ xs) (y ∷ ys) = ground (arith, text_eq_iff xs ys)

pub text_eq_refl : (s : Text) → text_eq s s ≡ true
text_eq_refl s = (text_eq_iff s s).1 refl

-- `name in names`
unfoldable pub mem_text : Text → List Text → Bool
mem_text s [] = false
mem_text s (t ∷ ts) = text_eq s t || mem_text s ts

-- `str.isspace` of one code point, as `strip` and `split` test it.
unfoldable pub is_space : ℕ → Bool
is_space c =
    (leb 9 c && leb c 13)
    || (leb 28 c && leb c 32)
    || (c == 133)
    || (c == 160)
    || (c == 5760)
    || (leb 8192 c && leb c 8202)
    || (c == 8232)
    || (c == 8233)
    || (c == 8239)
    || (c == 8287)
    || (c == 12288)

-- `s.lstrip()`
unfoldable pub lstrip : Text → Text
lstrip [] = []
lstrip (c ∷ cs) = let rest = lstrip cs in if is_space c then rest else c ∷ cs

-- `s.rstrip()`
unfoldable pub rstrip : Text → Text
rstrip [] = []
rstrip (c ∷ cs) = let rest = rstrip cs in if is_space c && is_empty rest then [] else c ∷ rest

-- `s.strip()`
unfoldable pub strip : Text → Text
strip s = rstrip (lstrip s)

-- `sep.join(parts)`
unfoldable pub join : Text → List Text → Text
join sep [] = []
join sep (t ∷ []) = t
join sep (t ∷ u ∷ ts) = t ++ (sep ++ join sep (u ∷ ts))

-- `s.startswith(prefix)`, the arguments turned round
unfoldable pub starts_with : Text → Text → Bool
starts_with [] s = true
starts_with (p ∷ ps) [] = false
starts_with (p ∷ ps) (c ∷ cs) = (p == c) && starts_with ps cs

pub length-rstrip-le : (s : Text) → length (rstrip s) ≤ length s
unfolding rstrip
length-rstrip-le [] = omega arith
length-rstrip-le (c ∷ cs) = ground (arith, length-rstrip-le cs)

pub length-lstrip-le : (s : Text) → length (lstrip s) ≤ length s
unfolding lstrip
length-lstrip-le [] = omega arith
length-lstrip-le (c ∷ cs) = ground (arith, length-lstrip-le cs)

rstrip-rstrip : (s : Text) → rstrip (rstrip s) ≡ rstrip s
unfolding rstrip
rstrip-rstrip [] = refl
rstrip-rstrip (c ∷ cs) = ground (arith, rstrip-rstrip cs)

-- `lstrip` leaves a text alone that `rstrip` made from one with no blank in front.
lstrip-rstrip-lstrip : (s : Text) → lstrip (rstrip (lstrip s)) ≡ rstrip (lstrip s)
unfolding lstrip rstrip
lstrip-rstrip-lstrip [] = refl
lstrip-rstrip-lstrip (c ∷ cs) = ground (arith, lstrip-rstrip-lstrip cs)

-- Stripping twice is stripping once.
pub strip-strip : (s : Text) → strip (strip s) ≡ strip s
unfolding strip
strip-strip s = ap rstrip (lstrip-rstrip-lstrip s) ∙ rstrip-rstrip (lstrip s)

pub starts_with-append : (p s : Text) → starts_with p (p ++ s) ≡ true
unfolding starts_with
starts_with-append [] s = refl
starts_with-append (c ∷ cs) s = ground (arith, starts_with-append cs s)

-- `part in whole`, with what stands around it.
pub record Contains (part whole : Text) : Type 0 where
  pub before : Text
  pub after : Text
  pub around : whole ≡ before ++ (part ++ after)

pub Contains-refl : (t : Text) → Contains t t
Contains-refl t = record { before = []; after = []; around = sym (append-nil t) }

pub Contains-self : (t after : Text) → Contains t (t ++ after)
Contains-self t after = record { before = []; after = after; around = refl }

pub Contains-append : (s : Text) {t u : Text} → Contains t u → Contains t (s ++ u)
Contains-append s c = record {
  before = s ++ c.before;
  after = c.after;
  around = rw c.around (sym (append_assoc s c.before _));
}

pub Contains-append_left : (s : Text) {t u : Text} → Contains t u → Contains t (u ++ s)
Contains-append_left s c = record {
  before = c.before;
  after = c.after ++ s;
  around = rw c.around (simp append_assoc);
}

pub Contains-trans : {t u v : Text} → Contains t u → Contains u v → Contains t v
Contains-trans c d = record {
  before = d.before ++ c.before;
  after = c.after ++ d.after;
  around = rw (d.around, c.around) (simp append_assoc);
}

-- Every part stands in the joined text.
pub join-Contains : (sep : Text) (ts : List Text) → All (λ t. Contains t (join sep ts)) ts
unfolding join
join-Contains sep [] = tt
join-Contains sep (t ∷ []) = (Contains-refl t, tt)
join-Contains sep (t ∷ u ∷ ts) = (
  Contains-self t (sep ++ join sep (u ∷ ts)),
  All-imp (λ v h. Contains-append t (Contains-append sep h)) (u ∷ ts) (join-Contains sep (u ∷ ts)),
)
