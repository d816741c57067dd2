-- ===== src/Facts/Forgotten.antt =====
-- What `forget` of tools/facts/store.py does to the table.
use emma.Common.{
  ℕ, ◌≡◌, refl, ap, inl, inr, Bool, true, not, List, [], ◌∷◌, map, any, select, ok, arith,
  Bool-cases, ◌==◌, if◌then◌else◌,
}
use emma.Facts
use emma.Facts.{Fact, FactStore, is_active, active_facts, is_target, forgotten}

-- Every fact but those of this number.
abbrev pub others : ℕ → Fact → Bool
others fact_id f = not (f.id == fact_id)

-- What is active after `forget` was active before.
module _ (fact_id now : ℕ) where
  abbrev pub after : List Fact → List Fact
  after fs = map (λ f. if is_target fact_id f then forgotten now f else f) fs

  pub ids-forget : (fs : List Fact) → map (λ f. f.id) (after fs) ≡ map (λ f. f.id) fs
  ids-forget [] = refl
  ids-forget (f ∷ fs) = elim (Bool-cases (is_target fact_id f)) [
    | inl e ↦ rw e (ap (◌∷◌ f.id) (ids-forget fs))
    | inr e ↦ rw e (ap (◌∷◌ f.id) (ids-forget fs))
  ]

  pub active-forget :
      (fs : List Fact) → select is_active (after fs) ≡ select (others fact_id) (select is_active fs)
  unfolding select
  active-forget [] = refl
  active-forget (f ∷ fs) = elim (Bool-cases (is_active f)) [
    | inl a ↦ elim (Bool-cases (f.id == fact_id)) [
      | inl e ↦ rw (e, a) (rw e (active-forget fs))
      | inr e ↦ rw (e, a) (rw e (ap (◌∷◌ f) (active-forget fs)))
    ]
    | inr a ↦ elim (Bool-cases (f.id == fact_id)) [
      | inl e ↦ rw (e, a) (rw a (active-forget fs))
      | inr e ↦ rw (e, a) (active-forget fs)
    ]
  ]

any-select-active :
    (fact_id : ℕ) (fs : List Fact)
    → any (is_target fact_id) fs ≡ any (λ f. f.id == fact_id) (select is_active fs)
unfolding any select
any-select-active fact_id [] = refl
any-select-active fact_id (f ∷ fs) = elim (Bool-cases (is_active f)) [
  | inl a ↦ rw a (rw (any-select-active fact_id fs) (ground arith))
  | inr a ↦ rw a (rw (any-select-active fact_id fs) (ground arith))
]

-- On an open store `forget` succeeds exactly if the number is that of an active fact. The active
-- facts are then the others, in their order, and no row leaves the table: the numbers are the same.
pub forget_lem :
    (s : FactStore) (fact_id now : ℕ)
    → s.is_open ≡ true
    → (s' : FactStore) × (Facts.forget s fact_id now
        ≡ ok (any (λ f. f.id == fact_id) (active_facts s), s'))
      × (active_facts s' ≡ select (λ f. not (f.id == fact_id)) (active_facts s))
      × (map (λ f. f.id) s'.facts ≡ map (λ f. f.id) s.facts)
unfolding Facts.forget active_facts
forget_lem s fact_id now c = (
  record s { facts = after fact_id now s.facts },
  rw⁻¹ (any-select-active fact_id s.facts) (simp c),
  active-forget fact_id now s.facts,
  ids-forget fact_id now s.facts,
)
