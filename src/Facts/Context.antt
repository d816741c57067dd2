-- ===== src/Facts/Context.antt =====
-- `FactsContext` of tools/facts/tools.py: the facts that are put in front of the model.
use emma.Common.{
  ℕ, zero, suc, ◌+◌, ◌≤◌, ◌≡◌, refl, inl, inr, true, false, List, [], ◌∷◌, ◌++◌, Text, lit, newline,
  is_empty, join, length, decimal, map, Result, ok, err, Exc, ltb, ltb→lt, ltb→le, arith,
  Bool-cases, if◌then◌else◌,
}
use emma.Facts.{Fact, FactStore, active}

abbrev pub max_context_chars : ℕ
max_context_chars = 4000

unfoldable pub fact_line : Fact → Text
fact_line fact = lit "- #" ++ (decimal fact.id ++ (lit ": " ++ fact.text))

-- The loop of `snapshot`, from `used` characters on: the lines, and how many are dropped.
unfoldable pub lines_from : ℕ → List Fact → List Text × ℕ
lines_from used [] = ([], 0)
lines_from used (fact ∷ facts) = elim (ltb max_context_chars (used + length (fact_line fact))) [
  | true ↦ let (lines, dropped) = lines_from used facts in (lines, dropped + 1)
  | false ↦
      let (lines, dropped) = lines_from (used + length (fact_line fact)) facts in
      (fact_line fact ∷ lines, dropped)
]

-- `if dropped: lines.append(...)`
unfoldable pub dropped_line : ℕ → List Text
dropped_line zero = []
dropped_line (suc n) =
    (lit "- (altri " ++ (decimal (suc n) ++ lit " fatti non entrano in questo spazio)")) ∷ []

unfoldable pub context_heading : Text
context_heading =
    lit
      "Cose che l'utente ti ha chiesto di ricordare. Sono vere e attuali, e valgono piu' della conversazione recente se le due si contraddicono. Il numero serve solo per dimenticarle: non citarlo se l'utente non parla di dimenticare."

unfoldable pub snapshot : FactStore → Result Exc Text
unfolding lines_from dropped_line context_heading
snapshot s = elim (active s) [
  | err e ↦ err e
  | ok facts ↦
      let (lines, dropped) = lines_from 0 facts in
      ok (
        if is_empty facts
        then []
        else context_heading ++ (newline ++ join newline (lines ++ dropped_line dropped)))
]

-- The characters of all lines.
unfoldable pub total : List Text → ℕ
total [] = 0
total (t ∷ ts) = length t + total ts

-- From `used` characters on, within the ceiling, the lines of the facts fit in what is left of it,
-- and every fact has its line or is counted as dropped. If the lines of all the facts fit, every
-- fact has its line, in order, and none is dropped.
pub lines_from-fits :
    (used : ℕ) (facts : List Fact)
    → used ≤ max_context_chars
    → (used + total (lines_from used facts).0 ≤ max_context_chars)
      × (length (lines_from used facts).0 + (lines_from used facts).1 ≡ length facts)
      × (used + total (map fact_line facts) ≤ max_context_chars
          → lines_from used facts ≡ (map fact_line facts, 0))
unfolding lines_from total
lines_from-fits used [] h = (omega arith, omega arith, λ k. refl)
lines_from-fits used (fact ∷ facts) h =
    elim (Bool-cases (ltb max_context_chars (used + length (fact_line fact)))) [
      | inl e ↦
          let (fits, all, whole) = lines_from-fits used facts h in
          rw (lines_from, e)
            (fits, omega (arith, all), λ k. absurd (omega (arith, ltb→lt _ _ e, k)))
      | inr e ↦
          let (fits, all, whole) =
            lines_from-fits (used + length (fact_line fact)) facts (ltb→le _ _ e) in
          rw (lines_from, e)
            (omega (arith, fits), omega (arith, all), λ k. rw (whole (omega (arith, k))) refl)
    ]
