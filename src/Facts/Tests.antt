-- ===== src/Facts/Tests.antt =====
-- Runs of tools/facts at concrete inputs, and its theorems applied there.
use emma.Common.{
  ℕ, ◌+◌, ◌≤◌, ◌≡◌, refl, true, false, not, Option, none, some, List, [], ◌∷◌, Text, lit, length,
  map, any, select, Result, ok, err, Exc, arith, ◌==◌,
}
use emma.Facts
use emma.Facts.{Fact, FactStore, already, active_facts, clean}
use emma.Facts.Tools.{run_forget, Integer}
use emma.Llm.Json.{int, end, field}
use emma.Facts.Valid.{IsValid, Operation, after_all, after_all-IsValid}
use emma.Facts.Forgotten.{forget_lem}
use emma.Facts.Remembered.{remember-remember}
use emma.Facts.Context.{max_context_chars, fact_line, lines_from, total, lines_from-fits}

-- A `lower` that is enough for the texts of this file.
abbrev lower : Text → Text
lower text = text

abbrev garden : Fact
garden = record { id = 2; text = lit "il tosaerba e' rosso"; created_at = 5; forgotten_at = none }

abbrev one_fact : FactStore
one_fact = record { facts = garden ∷ []; last_id = 2; is_open = true }

-- Blanks are folded.
clean_folds : clean (lit "  un   fatto ") ≡ lit "un fatto"
unfolding clean emma.Facts.words_from emma.Common.join emma.Common.is_space lit
clean_folds = refl

one_fact-IsValid : IsValid lower one_fact
unfolding lit active_facts select
one_fact-IsValid = record {
  ascending = (omega arith, omega arith);
  sentences = ((refl, omega arith), tt);
  room = omega arith;
  distinct = (tt, tt);
}

abbrev changes : List Operation
changes = Operation.remember (lit "Sara compie gli anni a maggio") 9 ∷ Operation.forget 2 10 ∷ []

after_all-IsValid_instance : IsValid lower (after_all lower changes one_fact)
after_all-IsValid_instance = after_all-IsValid lower changes one_fact one_fact-IsValid

forget_lem_instance :
    (s' : FactStore) × (Facts.forget one_fact 2 10
      ≡ ok (any (λ f. f.id == 2) (active_facts one_fact), s'))
    × (active_facts s' ≡ select (λ f. not (f.id == 2)) (active_facts one_fact))
    × (map (λ f. f.id) s'.facts ≡ map (λ f. f.id) one_fact.facts)
forget_lem_instance = forget_lem one_fact 2 10 refl

remember-remember_example :
    Facts.remember lower one_fact (lit " il tosaerba  e' rosso") 20
    ≡ ok ((some 2, already), one_fact)
unfolding Facts.remember clean emma.Facts.words_from emma.Facts.remember_locked
    emma.Facts.first_same active_facts select emma.Common.join emma.Common.is_space
    emma.Common.text_eq lit
remember-remember_example =
    remember-remember lower one_fact (lit "il tosaerba e' rosso") 7 2 already one_fact refl 20

lines_from-fits_instance :
    (0 + total (lines_from 0 (garden ∷ [])).0 ≤ max_context_chars)
    × (length (lines_from 0 (garden ∷ [])).0 + (lines_from 0 (garden ∷ [])).1 ≡ 1)
    × (0 + total (map fact_line (garden ∷ [])) ≤ max_context_chars
        → lines_from 0 (garden ∷ []) ≡ (map fact_line (garden ∷ []), 0))
lines_from-fits_instance = lines_from-fits 0 (garden ∷ []) (omega arith)

no_reading : Text → Option Integer
no_reading text = none

-- A negative number is read, and no fact has it.
forget_negative :
    (run_forget no_reading (field (lit "number") (int true 2) end) 9 one_fact).0
    ≡ ok (lit "Il fatto #-2 non esiste o l'avevo gia' dimenticato.")
unfolding run_forget lit emma.Llm.Json.get emma.Common.text_eq emma.Facts.Tools.int_of
    emma.Facts.Tools.forget_integer emma.Common.decimal
forget_negative = refl
