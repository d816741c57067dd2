-- ===== src/Memory/Recovery/Laws.antt =====
-- The recovery of core/memory.py: when it acts, what it keeps and what it restores.
use emma.Common.{
  ◌≡◌, refl, ap, ◌∙◌, true, false, not, ◌&&◌, Bool-cases, Option, none, some, List, [], ◌∷◌, ◌++◌,
  arith, ◌⊎◌, inl, inr, append_assoc,
}
use emma.Memory.Recovery.{
  Files, Faults, Engine, is_usable, quarantine, exists, move_aside, restore, recover, found, heal,
}

-- `b` stands in the list.
abbrev pub Kept : {B : Type 0} → B → List B → Type 0
Kept {B} b bs = (pre : List B) × (post : List B) × (bs ≡ pre ++ (b ∷ post))

-- The newest healthy file of a list of generations, the newest first.
unfoldable pub newest_healthy : {B : Type 0} → Engine B → List (Option B) → Option B
newest_healthy engine [] = none
newest_healthy engine (none ∷ older) = newest_healthy engine older
newest_healthy engine (some b ∷ older) = elim (engine.healthy b) [
  | true ↦ some b
  | false ↦ newest_healthy engine older
]

Kept-quarantine_self : {B : Type 0} (b : B) (ks : List B) → Kept b (quarantine (some b) ks)
Kept-quarantine_self b ks = (ks, [], refl)

Kept-quarantine :
    {B : Type 0} (b : B) (o : Option B) {ks : List B} → Kept b ks → Kept b (quarantine o ks)
Kept-quarantine b none k = k
Kept-quarantine b (some x) (pre, post, e) =
    (pre, post ++ (x ∷ []), ap (λ z. z ++ (x ∷ [])) e ∙ append_assoc pre (b ∷ post) (x ∷ []))

module _ {B : Type 0} (engine : Engine B) (faults : Faults) (fs : Files B) where
  restore-quarantined : (gs : Files B) → (restore engine faults gs).quarantined ≡ gs.quarantined
  unfolding restore
  restore-quarantined gs = ground arith

  -- A healthy database is opened as it is: recovery needs a failed check.
  pub heal_healthy :
      (b : B)
      → fs.live ≡ some b
      → engine.healthy (engine.attach (some b) fs.wal) ≡ true
      → heal engine faults fs ≡ fs
  unfolding heal found is_usable
  heal_healthy b e h = ground arith

  stays_put : faults.rename_live ≡ true → recover engine faults fs ≡ fs
  unfolding recover move_aside
  stays_put e = rw e refl

  moved-Kept :
      (b : B)
      → fs.live ≡ some b
      → faults.rename_live ≡ false
      → Kept b (move_aside engine faults fs).0.quarantined
  unfolding move_aside
  moved-Kept b e r =
      let k = Kept-quarantine_self b fs.quarantined in
      rw (r, e)
        (elim (Bool-cases (exists fs.wal && faults.rename_wal)) [
          | inl w ↦ rw w k
          | inr w ↦ rw w (elim (Bool-cases (exists fs.shm && faults.rename_shm)) [
            | inl m ↦ rw m (Kept-quarantine b fs.wal k)
            | inr m ↦ rw m (Kept-quarantine b fs.shm (Kept-quarantine b fs.wal k))
          ])
        ])

  recover-quarantined :
      (recover engine faults fs).quarantined ≡ (move_aside engine faults fs).0.quarantined
  unfolding recover
  recover-quarantined = elim (Bool-cases (move_aside engine faults fs).1) [
    | inl d ↦ rw d (restore-quarantined (move_aside engine faults fs).0)
    | inr d ↦ rw d refl
  ]

  -- Whatever fails, the database file that was there is there still, or it is in quarantine.
  pub heal_keeps :
      (b : B)
      → fs.live ≡ some b
      → ((heal engine faults fs).live ≡ some b) ⊎ Kept b (heal engine faults fs).quarantined
  unfolding heal
  heal_keeps b e =
      elim (Bool-cases (exists fs.live && not (is_usable engine (found engine faults fs)))) [
        | inr fine ↦ rw fine (inl e)
        | inl broken ↦ rw broken (elim (Bool-cases faults.rename_live) [
          | inl r ↦ rw (stays_put r) (inl e)
          | inr r ↦ rw recover-quarantined (inr (moved-Kept b e r))
        ])
      ]

  -- With no call failing, a damaged file gives way to the newest healthy snapshot, or to none.
  pub heal_restores :
      (b : B)
      → fs.live ≡ some b
      → engine.healthy (engine.attach (some b) fs.wal) ≡ false
      → faults.rename_live ≡ false
      → faults.rename_wal ≡ false
      → faults.rename_shm ≡ false
      → faults.copy_snapshot ≡ false
      → faults.copy_snapshot_prev ≡ false
      → (heal engine faults fs).live ≡ newest_healthy engine (fs.snapshot ∷ fs.snapshot_prev ∷ [])
  unfolding heal found is_usable recover move_aside restore newest_healthy
  heal_restores b e h r w m c p = ground arith
