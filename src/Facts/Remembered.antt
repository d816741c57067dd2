-- ===== src/Facts/Remembered.antt =====
-- What `remember` of tools/facts/store.py does, on every branch.
use emma.Common.{
  ℕ, ◌+◌, ◌<◌, ◌≡◌, refl, ap, sym, ◌∙◌, inl, inr, true, false, Option, none, some, List, [], ◌∷◌,
  ◌++◌, Text, text_eq_refl, is_empty, length, select, select-append, Result, ok, err, Exc, ltb, leb,
  arith, Bool-cases, Option-cases, ok_injective,
}
use mathlib.Core.Path.{subst}
use emma.Facts
use emma.Facts.{
  Fact, FactStore, not_open, max_active_facts, max_fact_length, clean, is_active, active_facts,
  same_fact, first_same, insert_fact, remember_locked, too_long, no_room, already,
}

pub data Remembering (lower : Text → Text) (s : FactStore) (text : Text) (now : ℕ)
    : Result Exc ((Option ℕ × Text) × FactStore) → Type 0 where
  unopened : s.is_open ≡ false → Remembering lower s text now (err not_open)
  refused : (reason : Text) → Remembering lower s text now (ok ((none, reason), s))
  known :
      (fact_id : ℕ)
      → is_empty (clean text) ≡ false
      → ltb max_fact_length (length (clean text)) ≡ false
      → s.is_open ≡ true
      → first_same lower (clean text) (active_facts s) ≡ some fact_id
      → Remembering lower s text now (ok ((some fact_id, already), s))
  recorded :
      is_empty (clean text) ≡ false
      → ltb max_fact_length (length (clean text)) ≡ false
      → s.is_open ≡ true
      → first_same lower (clean text) (active_facts s) ≡ none
      → length (active_facts s) < max_active_facts
      → Remembering lower s text now
          (ok ((some (s.last_id + 1), []), insert_fact (clean text) now s))

module _ (lower : Text → Text) (s : FactStore) (text : Text) where
  module _ (readable : is_empty (clean text) ≡ false)
      (fits : ltb max_fact_length (length (clean text)) ≡ false) where
    remember-locked :
        (now : ℕ) (out : (Option ℕ × Text) × FactStore)
        → s.is_open ≡ true
        → remember_locked lower s (clean text) now ≡ out
        → Facts.remember lower s text now ≡ ok out
    unfolding Facts.remember
    remember-locked now out c e = rw (readable, fits) (simp c (ap ok e))

    remember-unopened :
        (now : ℕ) → s.is_open ≡ false → Facts.remember lower s text now ≡ err not_open
    unfolding Facts.remember
    remember-unopened now c = rw (readable, fits) (simp c)

    pub remember-known :
        (now fact_id : ℕ)
        → s.is_open ≡ true
        → first_same lower (clean text) (active_facts s) ≡ some fact_id
        → Facts.remember lower s text now ≡ ok ((some fact_id, already), s)
    unfolding remember_locked
    remember-known now fact_id c d =
        remember-locked now ((some fact_id, already), s) c (rw (remember_locked, d) refl)

    locked-Remembering :
        (now : ℕ)
        → s.is_open ≡ true
        → Remembering lower s text now (Facts.remember lower s text now)
    unfolding remember_locked
    locked-Remembering now c =
        elim (Option-cases (first_same lower (clean text) (active_facts s))) [
          | inr (fact_id, d) ↦
              subst (Remembering lower s text now) (sym (remember-known now fact_id c d))
                (known fact_id readable fits c d)
          | inl d ↦ elim (Bool-cases (leb max_active_facts (length (active_facts s)))) [
            | inl full ↦
                subst (Remembering lower s text now)
                  (sym (
                    remember-locked now ((none, no_room), s) c
                      (rw (remember_locked, d, full) refl)))
                  (refused no_room)
            | inr free ↦
                subst (Remembering lower s text now)
                  (sym (
                    remember-locked now ((some (s.last_id + 1), []), insert_fact (clean text) now s)
                      c (rw (remember_locked, d, free) refl)))
                  (recorded readable fits c d (ground arith))
          ]
        ]

  pub remember-Remembering :
      (now : ℕ) → Remembering lower s text now (Facts.remember lower s text now)
  unfolding Facts.remember
  remember-Remembering now = elim (Bool-cases (is_empty (clean text))) [
    | inl a ↦ rw a (refused _)
    | inr a ↦ elim (Bool-cases (ltb max_fact_length (length (clean text)))) [
      | inl b ↦ rw (a, b) (refused _)
      | inr b ↦ elim (Bool-cases s.is_open) [
        | inr c ↦
            subst (Remembering lower s text now) (sym (remember-unopened a b now c)) (unopened c)
        | inl c ↦ locked-Remembering a b now c
      ]
    ]
  ]

first_same-snoc :
    (lower : Text → Text) (cleaned : Text) (fs : List Fact) (new : Fact)
    → first_same lower cleaned fs ≡ none
    → same_fact lower cleaned new ≡ true
    → first_same lower cleaned (fs ++ (new ∷ [])) ≡ some new.id
unfolding first_same
first_same-snoc lower cleaned [] new h k = rw k refl
first_same-snoc lower cleaned (f ∷ fs) new h k = elim (Bool-cases (same_fact lower cleaned f)) [
  | inl e ↦ let bad : some f.id ≡ none = rw e at h in cc
  | inr e ↦ rw e (first_same-snoc lower cleaned fs new (rw e at h) k)
]

recorded_is_first :
    (lower : Text → Text) (cleaned : Text) (now : ℕ) (s : FactStore)
    → first_same lower cleaned (active_facts s) ≡ none
    → first_same lower cleaned (active_facts (insert_fact cleaned now s)) ≡ some (s.last_id + 1)
unfolding insert_fact active_facts select first_same
recorded_is_first lower cleaned now s h =
    rw select-append
      (first_same-snoc lower cleaned (select is_active s.facts) _ h (text_eq_refl (lower cleaned)))

again :
    (lower : Text → Text) (s : FactStore) (text : Text) (now : ℕ)
    {out : Result Exc ((Option ℕ × Text) × FactStore)}
    → Remembering lower s text now out
    → (fact_id : ℕ) (reason : Text) (s' : FactStore) → out ≡ ok ((some fact_id, reason), s')
    → (later : ℕ) → Facts.remember lower s' text later ≡ ok ((some fact_id, already), s')
again lower s text now (unopened c) i reason s' e later = cc
again lower s text now (refused x) i reason s' e later =
    let bad : none ≡ some i = ap (λ p. p.0.0) (ok_injective e) in cc
again lower s text now (known j a b c d) i reason s' e later =
    let same : ((some j, already), s) ≡ ((some i, reason), s') = ok_injective e in
    let number : some j ≡ some i = ap (λ p. p.0.0) same in
    subst (λ u. Facts.remember lower u text later ≡ ok ((some i, already), u)) (ap (λ p. p.1) same)
      (remember-known lower s text a b later i c (d ∙ number))
again lower s text now (recorded a b c d m) i reason s' e later =
    let new = insert_fact (clean text) now s in
    let same : ((some (s.last_id + 1), []), new) ≡ ((some i, reason), s') = ok_injective e in
    let number : some (s.last_id + 1) ≡ some i = ap (λ p. p.0.0) same in
    subst (λ u. Facts.remember lower u text later ≡ ok ((some i, already), u)) (ap (λ p. p.1) same)
      (remember-known lower new text a b later i (unfold insert_fact in c)
        (recorded_is_first lower (clean text) now s d ∙ number))

-- A fact that was remembered is known by its number: asked to remember the same text again, the
-- store gives the number that it gave before, says that it has it, and does not change.
pub remember-remember :
    (lower : Text → Text) (s : FactStore) (text : Text) (now fact_id : ℕ) (reason : Text)
    (s' : FactStore)
    → Facts.remember lower s text now ≡ ok ((some fact_id, reason), s')
    → (later : ℕ) → Facts.remember lower s' text later ≡ ok ((some fact_id, already), s')
remember-remember lower s text now fact_id reason s' e later =
    again lower s text now (remember-Remembering lower s text now) fact_id reason s' e later
