-- ===== src/Facts/Valid.antt =====
-- The invariant of the facts table of tools/facts/store.py.
use emma.Common.{
  ℕ, suc, ◌+◌, ◌≤◌, ◌≡◌, refl, ap, sym, ◌∙◌, inl, inr, Bool, false, Option, none, some, List, [],
  ◌∷◌, ◌++◌, Text, is_empty, length, length-append, map, map-append, select, select-append, All,
  Result, ok, err, Exc, ltb→le, arith, Bool-cases, Ascending, Ascending-snoc, any, length-select-le,
}
use mathlib.Core.Path.{subst}
use emma.Facts
use emma.Facts.Forgotten.{after, ids-forget, active-forget, others}
use emma.Facts.Remembered.{Remembering, unopened, refused, known, recorded, remember-Remembering}
use emma.Facts.{
  Fact, FactStore, max_active_facts, max_fact_length, clean, is_active, active_facts, same_fact,
  first_same, insert_fact, remember_locked, is_target, forgotten,
}

-- A fact is a text that is neither empty nor too long.
abbrev pub IsSentence : Fact → Type 0
IsSentence f = (is_empty f.text ≡ false) × (length f.text ≤ max_fact_length)

-- No two facts of the list are the same but for the case.
abbrev pub Distinct : (Text → Text) → List Fact → Type 0
Distinct lower [] = Unit
Distinct lower (f ∷ fs) = All (λ g. same_fact lower g.text f ≡ false) fs × Distinct lower fs

pub record IsValid (lower : Text → Text) (s : FactStore) : Type 0 where
  pub ascending : Ascending 0 s.last_id (map (λ f. f.id) s.facts)
  pub sentences : All IsSentence s.facts
  pub room : length (active_facts s) ≤ max_active_facts
  pub distinct : Distinct lower (active_facts s)

pub data Operation : Type 0 where
  remember : (text : Text) → (now : ℕ) → Operation
  forget : (fact_id now : ℕ) → Operation

abbrev pub left_by : {A : Type 0} → FactStore → Result Exc (A × FactStore) → FactStore
left_by s (ok (a, s')) = s'
left_by s (err e) = s

unfoldable pub step : (Text → Text) → Operation → FactStore → FactStore
step lower (Operation.remember text now) s = left_by s (Facts.remember lower s text now)
step lower (Operation.forget fact_id now) s = left_by s (Facts.forget s fact_id now)

unfoldable pub after_all : (Text → Text) → List Operation → FactStore → FactStore
after_all lower [] s = s
after_all lower (op ∷ ops) s = after_all lower ops (step lower op s)

All-snoc :
    (fs : List Fact) (f : Fact) → All IsSentence fs → IsSentence f → All IsSentence (fs ++ (f ∷ []))
All-snoc [] f h k = (k, tt)
All-snoc (g ∷ fs) f h k = (h.0, All-snoc fs f h.1 k)

first_same-none :
    (lower : Text → Text) (cleaned : Text) (fs : List Fact)
    → first_same lower cleaned fs ≡ none
    → All (λ g. same_fact lower cleaned g ≡ false) fs
unfolding first_same
first_same-none lower cleaned [] h = tt
first_same-none lower cleaned (f ∷ fs) h = elim (Bool-cases (same_fact lower cleaned f)) [
  | inl e ↦ let bad : some f.id ≡ none = rw e at h in cc
  | inr e ↦ (e, first_same-none lower cleaned fs (rw e at h))
]

other-snoc :
    (lower : Text → Text) (f new : Fact) (fs : List Fact)
    → All (λ g. same_fact lower g.text f ≡ false) fs
    → same_fact lower new.text f ≡ false
    → All (λ g. same_fact lower g.text f ≡ false) (fs ++ (new ∷ []))
other-snoc lower f new [] h k = (k, tt)
other-snoc lower f new (g ∷ fs) h k = (h.0, other-snoc lower f new fs h.1 k)

Distinct-snoc :
    (lower : Text → Text) (new : Fact) (fs : List Fact)
    → Distinct lower fs
    → All (λ g. same_fact lower new.text g ≡ false) fs
    → Distinct lower (fs ++ (new ∷ []))
Distinct-snoc lower new [] h k = (tt, tt)
Distinct-snoc lower new (f ∷ fs) h k =
    (other-snoc lower f new fs h.0 k.0, Distinct-snoc lower new fs h.1 k.1)

insert_fact-IsValid :
    (lower : Text → Text) (cleaned : Text) (now : ℕ) (s : FactStore)
    → IsValid lower s
    → is_empty cleaned ≡ false
    → length cleaned ≤ max_fact_length
    → first_same lower cleaned (active_facts s) ≡ none
    → suc (length (active_facts s)) ≤ max_active_facts
    → IsValid lower (insert_fact cleaned now s)
unfolding insert_fact
insert_fact-IsValid lower cleaned now s h e l f m =
    let new : Fact = record {
      id = s.last_id + 1;
      text = cleaned;
      created_at = now;
      forgotten_at = none;
    } in
    let grown : active_facts (insert_fact cleaned now s) ≡ active_facts s ++ (new ∷ []) =
      unfold active_facts in
      (select-append is_active s.facts (new ∷ [])
        ∙ ap (λ x. select is_active s.facts ++ x) (unfold select in refl)) in
    record {
      ascending = rw map-append (Ascending-snoc 0 s.last_id (map (λ f. f.id) s.facts) h.ascending);
      sentences = All-snoc s.facts new h.sentences (e, l);
      room =
          subst (λ fs. length fs ≤ max_active_facts) (sym grown)
            (rw length-append (omega (arith, m)));
      distinct = subst (Distinct lower) (sym grown) (
          Distinct-snoc lower new (active_facts s) h.distinct
            (first_same-none lower cleaned (active_facts s) f));
    }

Remembering-IsValid :
    (lower : Text → Text) (text : Text) (now : ℕ) (s : FactStore)
    {out : Result Exc ((Option ℕ × Text) × FactStore)}
    → IsValid lower s
    → Remembering lower s text now out
    → IsValid lower (left_by s out)
Remembering-IsValid lower text now s h (unopened c) = h
Remembering-IsValid lower text now s h (refused reason) = h
Remembering-IsValid lower text now s h (known i a b c d) = h
Remembering-IsValid lower text now s h (recorded a b c d m) =
    insert_fact-IsValid lower (clean text) now s h a
      (ltb→le max_fact_length (length (clean text)) b) d m

sentences-forget :
    (fact_id now : ℕ) (fs : List Fact) → All IsSentence fs → All IsSentence (after fact_id now fs)
sentences-forget fact_id now [] h = tt
sentences-forget fact_id now (f ∷ fs) h = elim (Bool-cases (is_target fact_id f)) [
  | inl e ↦ rw e (h.0, sentences-forget fact_id now fs h.1)
  | inr e ↦ rw e (h.0, sentences-forget fact_id now fs h.1)
]

other-select :
    (lower : Text → Text) (p : Fact → Bool) (f : Fact) (fs : List Fact)
    → All (λ g. same_fact lower g.text f ≡ false) fs
    → All (λ g. same_fact lower g.text f ≡ false) (select p fs)
unfolding select
other-select lower p f [] h = tt
other-select lower p f (g ∷ fs) h = elim (Bool-cases (p g)) [
  | inl e ↦ rw e (h.0, other-select lower p f fs h.1)
  | inr e ↦ rw e (other-select lower p f fs h.1)
]

Distinct-select :
    (lower : Text → Text) (p : Fact → Bool) (fs : List Fact)
    → Distinct lower fs
    → Distinct lower (select p fs)
unfolding select
Distinct-select lower p [] h = tt
Distinct-select lower p (f ∷ fs) h = elim (Bool-cases (p f)) [
  | inl e ↦ rw e (other-select lower p f fs h.0, Distinct-select lower p fs h.1)
  | inr e ↦ rw e (Distinct-select lower p fs h.1)
]

forget-IsValid :
    (lower : Text → Text) (fact_id now : ℕ) (s : FactStore)
    → IsValid lower s
    → IsValid lower (left_by s (Facts.forget s fact_id now))
unfolding Facts.forget
forget-IsValid lower fact_id now s h = elim (Bool-cases s.is_open) [
  | inr c ↦
      let same : Facts.forget s fact_id now ≡ err Facts.not_open = simp c in
      subst (λ x. IsValid lower (left_by s x)) (sym same) h
  | inl c ↦
      let gone : FactStore = record s { facts = after fact_id now s.facts } in
      let done : Facts.forget s fact_id now ≡ ok (any (is_target fact_id) s.facts, gone) = simp c in
      let fewer : active_facts gone ≡ select (others fact_id) (active_facts s) =
        unfold active_facts in active-forget fact_id now s.facts in
      subst (λ x. IsValid lower (left_by s x)) (sym done)
        (record {
          ascending = rw (ids-forget fact_id now s.facts) h.ascending;
          sentences = sentences-forget fact_id now s.facts h.sentences;
          room =
              rw fewer (omega (arith, h.room, length-select-le (others fact_id) (active_facts s)));
          distinct = rw fewer (Distinct-select lower (others fact_id) (active_facts s) h.distinct);
        })
]

-- Whatever is remembered and forgotten, the table keeps its invariant: the ids ascend up to the
-- last one given out, every fact is a text of 300 characters at most that is not empty, no more
-- than 50 facts are active, and no two active facts are the same but for the case.
pub after_all-IsValid :
    (lower : Text → Text) (ops : List Operation) (s : FactStore)
    → IsValid lower s
    → IsValid lower (after_all lower ops s)
unfolding after_all step
after_all-IsValid lower [] s h = h
after_all-IsValid lower (Operation.remember text now ∷ ops) s h =
    after_all-IsValid lower ops _
      (Remembering-IsValid lower text now s h (remember-Remembering lower s text now))
after_all-IsValid lower (Operation.forget fact_id now ∷ ops) s h =
    after_all-IsValid lower ops _ (forget-IsValid lower fact_id now s h)
