-- ===== src/Telegram/Split.antt =====
-- `_split_message` of adapters/telegram.py. The loop is recursion on fuel: every round takes at
-- least one character, so the length of the text is enough.
use emma.Common.{
  ℕ, zero, suc, ◌-◌, ◌/◌, Bool, true, false, Option, none, some, List, [], ◌∷◌, Text, length, take,
  drop, is_empty, rstrip, ltb, ◌==◌, ◌+◌, if◌then◌else◌,
}
pub mod Chunks
pub mod Visible
pub mod Units
pub mod Accepted
mod Tests

abbrev pub max_message_length : ℕ
max_message_length = 4000

-- `text[i]`, or none past the end
unfoldable pub char_at : ℕ → Text → Option ℕ
char_at i [] = none
char_at zero (c ∷ cs) = some c
char_at (suc i) (c ∷ cs) = char_at i cs

-- `window.rfind("\n")`, with none for -1
unfoldable pub rfind_newline : Text → Option ℕ
rfind_newline [] = none
rfind_newline (c ∷ cs) = elim (rfind_newline cs) [
  | some i ↦ some (suc i)
  | none ↦ if c == 10 then some 0 else none
]

abbrev pub is_newline : Option ℕ → Bool
is_newline none = false
is_newline (some c) = c == 10

-- `if cut > 0 and window[cut - 1] == "\n": cut -= 1`
unfoldable pub step_back : ℕ → Text → ℕ
unfolding char_at
step_back zero window = zero
step_back (suc i) window = if is_newline (char_at i window) then i else suc i

-- Where the window is cut at a newline, or none for the hard cut at the limit.
unfoldable pub newline_cut : ℕ → Text → Option ℕ
unfolding rfind_newline step_back
newline_cut limit window = elim (rfind_newline window) [
  | none ↦ none
  | some cut ↦ if ltb cut (limit / 2) then none else some (step_back cut window)
]

-- The rounds of the loop, and the last chunk.
unfoldable pub split_from : ℕ → ℕ → Text → List Text
unfolding newline_cut
split_from zero limit remaining = remaining ∷ []
split_from (suc fuel) limit remaining =
    if ltb limit (length remaining)
    then elim (newline_cut limit (take limit remaining)) [
      | none ↦ rstrip (take limit remaining) ∷ split_from fuel limit (drop limit remaining)
      | some cut ↦ rstrip (take cut remaining) ∷ split_from fuel limit (drop (suc cut) remaining)
    ]
    else remaining ∷ []

unfoldable pub split_message : ℕ → Text → List Text
unfolding split_from
split_message limit text = if is_empty text then [] ∷ [] else split_from (length text) limit text
