-- ===== src/Memory/Recovery/Rotation.antt =====
-- Opening a database and rotating its snapshots (core/memory.py: open, _write_snapshot).
use emma.Common.{
  ◌≡◌, refl, ap, ◌∙◌, true, false, not, ◌&&◌, Bool-cases, Option-cases, Option, none, some, ok,
  arith, ◌⊎◌, inl, inr,
}
use emma.Memory.Recovery.{
  Files, Faults, Engine, is_usable, exists, move_aside, try_candidate, restore, recover, rotate,
  discard, found, Database, write_snapshot, heal, connect, open_memory,
}

-- A healthy snapshot to go back to.
abbrev pub HasUsable : {B : Type 0} → Engine B → Files B → Type 0
HasUsable engine fs =
    (is_usable engine fs.snapshot ≡ true) ⊎ (is_usable engine fs.snapshot_prev ≡ true)

-- The database file, if there is one, is healthy.
abbrev pub LiveHealthy : {B : Type 0} → Engine B → Option B → Type 0
LiveHealthy engine none = Unit
LiveHealthy engine (some b) = engine.healthy b ≡ true

module _ {B : Type 0} (engine : Engine B) (faults : Faults) where
  -- A snapshot failing or not, the database and what is in quarantine stay as they are, and if a
  -- discarded copy can be deleted, nothing is raised and no half-written copy is left.
  pub write_snapshot_frame :
      (live : B) (fs : Files B)
      → ((write_snapshot engine faults live fs).1.live ≡ fs.live)
        × ((write_snapshot engine faults live fs).1.quarantined ≡ fs.quarantined)
        × (faults.unlink_after ≡ false
            → ((write_snapshot engine faults live fs).0 ≡ ok tt)
              × ((write_snapshot engine faults live fs).1.tmp ≡ none))
  unfolding write_snapshot discard rotate
  write_snapshot_frame live fs = (ground arith, ground arith, λ u. (ground arith, ground arith))

  -- A snapshot that can be restored is not lost by writing another, if the one in place is healthy,
  -- or there is none in place, or the new copy's rename does not fail.
  pub write_snapshot-HasUsable :
      (live : B) (fs : Files B)
      → HasUsable engine fs
      → (is_usable engine fs.snapshot ≡ true) ⊎ ((fs.snapshot ≡ none) ⊎ (faults.rotate_tmp ≡ false))
      → HasUsable engine (write_snapshot engine faults live fs).1
  unfolding write_snapshot discard rotate is_usable
  write_snapshot-HasUsable live fs u h = ground arith

  -- An unhealthy snapshot in place is not checked before it is rotated: if the new copy is written
  -- and verifies, and the first rename does not fail, the unhealthy snapshot takes the place of
  -- the previous one, whatever that was, and if the second rename then fails no usable snapshot is
  -- left.
  pub write_snapshot_loses :
      (live s : B) (fs : Files B)
      → fs.snapshot ≡ some s
      → engine.healthy s ≡ false
      → engine.healthy (engine.vacuum_copy live) ≡ true
      → faults.unlink_before ≡ false
      → faults.vacuum ≡ false
      → faults.rotate_snapshot ≡ false
      → ((write_snapshot engine faults live fs).1.snapshot_prev ≡ some s)
        × (faults.rotate_tmp ≡ true → ¬ (HasUsable engine (write_snapshot engine faults live fs).1))
  unfolding write_snapshot discard rotate is_usable
  write_snapshot_loses live s fs e h c b v r = (ground arith, λ t u. ground arith)

  -- With no call failing there are two generations: the new copy and what was in place.
  pub write_snapshot_rotates :
      (live s : B) (fs : Files B)
      → fs.snapshot ≡ some s
      → engine.healthy (engine.vacuum_copy live) ≡ true
      → faults.unlink_before ≡ false
      → faults.vacuum ≡ false
      → faults.rotate_snapshot ≡ false
      → faults.rotate_tmp ≡ false
      → ((write_snapshot engine faults live fs).1.snapshot ≡ some (engine.vacuum_copy live))
        × ((write_snapshot engine faults live fs).1.snapshot_prev ≡ some s)
  unfolding write_snapshot discard rotate
  write_snapshot_rotates live s fs e c b v r t = (ground arith, ground arith)

  -- What a connection would read in the files passes the check.
  abbrev pub Sound : Files B → Type 0
  Sound fs = engine.healthy (engine.attach fs.live fs.wal) ≡ true

  module _ (fresh : engine.healthy (engine.attach none none) ≡ true)
      (alone : (b : B) → engine.attach (some b) none ≡ b) (rename_live : faults.rename_live ≡ false)
      (rename_wal : faults.rename_wal ≡ false) (rename_shm : faults.rename_shm ≡ false)
      (copy_snapshot : faults.copy_snapshot ≡ false)
      (copy_snapshot_prev : faults.copy_snapshot_prev ≡ false) where
    attached : (o : Option B) → LiveHealthy engine o → engine.healthy (engine.attach o none) ≡ true
    attached none h = fresh
    attached (some b) h = ap engine.healthy (alone b) ∙ h

    restore-LiveHealthy :
        (fs : Files B) → fs.live ≡ none → LiveHealthy engine (restore engine faults fs).live
    unfolding restore try_candidate
    restore-LiveHealthy fs e = ground arith

    restore-wal : (fs : Files B) → (restore engine faults fs).wal ≡ fs.wal
    unfolding restore try_candidate
    restore-wal fs = ground arith

    moved :
        (fs : Files B)
        → ((move_aside engine faults fs).0.live ≡ none)
          × ((move_aside engine faults fs).0.wal ≡ none)
          × ((move_aside engine faults fs).1 ≡ true)
    unfolding move_aside
    moved fs = (ground arith, ground arith, ground arith)

    recover-Sound : (fs : Files B) → Sound (recover engine faults fs)
    unfolding recover
    recover-Sound fs =
        let (l, w, d) = moved fs in
        rw (d, restore-wal (move_aside engine faults fs).0, w)
          (attached (restore engine faults (move_aside engine faults fs).0).live
            (restore-LiveHealthy (move_aside engine faults fs).0 l))

    passes :
        (fs : Files B)
        → (fs.live ≡ none → fs.wal ≡ none)
        → (exists fs.live && not (is_usable engine (found engine faults fs))) ≡ false
        → Sound fs
    unfolding is_usable found
    passes fs n e = elim (Option-cases fs.live) [
      | inl l ↦ rw (l, n l) fresh
      | inr (b, l) ↦ ground arith
    ]

    heal-Sound : (fs : Files B) → (fs.live ≡ none → fs.wal ≡ none) → Sound (heal engine faults fs)
    unfolding heal
    heal-Sound fs n =
        elim (Bool-cases (exists fs.live && not (is_usable engine (found engine faults fs)))) [
          | inl broken ↦ rw broken (recover-Sound fs)
          | inr fine ↦ rw fine (passes fs n fine)
        ]

    -- Whatever is in the files, and whichever snapshots are gone or damaged, `open` raises nothing
    -- and the database that it ends with, on disk and in the connection, passes its check. This
    -- needs: a new file passes the check; a file without a log is read as it is; no log lies there
    -- without a database file; and the directory, the three renames, the two copies, the
    -- connection, its first statements and the deletion of a discarded copy do not fail. The
    -- snapshot that `open` takes may fail at every other step.
    pub open_memory_sound :
        (d : Database B)
        → (d.files.live ≡ none → d.files.wal ≡ none)
        → faults.make_directory ≡ false
        → faults.connect ≡ false
        → faults.set_up ≡ false
        → faults.unlink_after ≡ false
        → (b : B) × ((open_memory engine faults d).0 ≡ ok tt)
          × ((open_memory engine faults d).1.connection ≡ some b)
          × ((open_memory engine faults d).1.files.live ≡ some b)
          × (engine.healthy b ≡ true)
    unfolding open_memory connect
    open_memory_sound d n m c s u =
        let (live, fs) = connect engine faults (heal engine faults d.files) in
        let (l, q, r) = write_snapshot_frame live fs in
        (live, rw (m, c, s) (r u).0, rw (m, c, s) refl, rw (m, c, s) l, heal-Sound d.files n)
