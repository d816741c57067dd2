-- ===== src/Memory/Recovery/Session.antt =====
-- core/memory.py: `open` and `close` of SqliteConversationMemory over the files, and what a restart finds.
use emma.Common.{◌≡◌, refl, ap, ◌∙◌, true, false, Option, none, some, List, [], ◌∷◌, Exc, arith}
use emma.Memory.Recovery.{
  Files, Faults, Engine, Database, open_memory, close_memory, discard, found, write_snapshot,
  rotate, heal, connect, recover, restore, move_aside, try_candidate, is_usable,
}

-- A write that is committed.
abbrev pub commit : {B : Type 0} → B → Database B → Database B
commit b d = record { files = record d.files { live = some b; wal = none }; connection = some b }

abbrev pub commit_all : {B : Type 0} → List B → Database B → Database B
commit_all [] d = d
commit_all (b ∷ bs) d = commit_all bs (commit b d)

-- What stands in the database at the end.
abbrev pub last : {B : Type 0} → B → List B → B
last b [] = b
last b (b' ∷ bs) = last b' bs

-- Every call succeeds.
abbrev pub no_faults : Faults
no_faults = record {
  make_directory = false;
  rename_live = false;
  rename_wal = false;
  rename_shm = false;
  copy_snapshot = false;
  copy_snapshot_prev = false;
  connect = false;
  set_up = false;
  unlink_before = false;
  vacuum = false;
  unlink_after = false;
  rotate_snapshot = false;
  rotate_tmp = false;
}

module _ {B : Type 0} (engine : Engine B) where
  abbrev pub closed_files : Files B → Database B
  closed_files fs = record { files = fs; connection = none }

  -- What a restart reads.
  abbrev pub reopened : Files B → Option B
  reopened fs = (open_memory engine no_faults (closed_files fs)).1.connection

  -- A damaged database is replaced by the copy in place.
  restores_snapshot :
      (fs : Files B) (damaged copy : B)
      → fs.live ≡ some damaged
      → engine.healthy (engine.attach (some damaged) fs.wal) ≡ false
      → fs.snapshot ≡ some copy
      → engine.healthy copy ≡ true
      → reopened fs ≡ some (engine.attach (some copy) none)
  unfolding open_memory heal found discard connect recover restore move_aside try_candidate
      is_usable write_snapshot rotate
  restores_snapshot fs damaged copy l d s h = ground arith

  restores_previous :
      (fs : Files B) (damaged worse copy : B)
      → fs.live ≡ some damaged
      → engine.healthy (engine.attach (some damaged) fs.wal) ≡ false
      → fs.snapshot ≡ some worse
      → engine.healthy worse ≡ false
      → fs.snapshot_prev ≡ some copy
      → engine.healthy copy ≡ true
      → reopened fs ≡ some (engine.attach (some copy) none)
  unfolding open_memory heal found discard connect recover restore move_aside try_candidate
      is_usable write_snapshot rotate
  restores_previous fs damaged worse copy l d s w p h = ground arith

  -- Opening a database that is sound reads it and takes a copy of it.
  opens :
      (fs : Files B) (file : B)
      → fs.live ≡ some file
      → engine.healthy (engine.attach (some file) fs.wal) ≡ true
      → engine.healthy (engine.vacuum_copy (engine.attach (some file) fs.wal)) ≡ true
      → ((open_memory engine no_faults (closed_files fs)).1.connection
          ≡ some (engine.attach (some file) fs.wal))
        × ((open_memory engine no_faults (closed_files fs)).1.files.snapshot
            ≡ some (engine.vacuum_copy (engine.attach (some file) fs.wal)))
  unfolding open_memory heal found discard connect is_usable write_snapshot rotate
  opens fs file l h c = (ground arith, ground arith)

  commits :
      (bs : List B) (b : B) (d : Database B)
      → d.connection ≡ some b
      → ((commit_all bs d).connection ≡ some (last b bs))
        × ((commit_all bs d).files.snapshot ≡ d.files.snapshot)
  commits [] b d e = (e, refl)
  commits (b' ∷ bs) b d e = commits bs b' (commit b' d) refl

  -- Closing copies what the connection reads, and keeps the copy that was in place as the previous one.
  closes :
      (raised : Option Exc) (d : Database B) (b copy : B)
      → d.connection ≡ some b
      → engine.healthy (engine.vacuum_copy b) ≡ true
      → d.files.snapshot ≡ some copy
      → ((close_memory engine no_faults raised d).1.files.snapshot ≡ some (engine.vacuum_copy b))
        × ((close_memory engine no_faults raised d).1.files.snapshot_prev ≡ some copy)
  unfolding close_memory discard write_snapshot rotate
  closes none d b copy c h s = (ground arith, ground arith)
  closes (some e) d b copy c h s = (ground arith, ground arith)

-- The database is damaged, with whatever stands beside it.
abbrev pub damage : {B : Type 0} → B → Option B → Option B → Files B → Files B
damage broken wal shm fs = record fs { live = some broken; wal = wal; shm = shm }

module _ {B : Type 0} (engine : Engine B) where
  abbrev pub session : Files B → List B → Database B
  session fs bs = commit_all bs (open_memory engine no_faults (closed_files engine fs)).1

  abbrev pub closed : Option Exc → Files B → List B → Files B
  closed raised fs bs = (close_memory engine no_faults raised (session fs bs)).1.files

  -- A session opens a sound database, reading the log beside it, and commits any writes. If what lies
  -- on the disk is damaged in a crash, the next open reads the copy of what the session began with; if
  -- it is damaged after the session was closed, even with an error, the copy of what the session ended
  -- with; and if the newer copy is damaged too, the copy of what it began with. It is assumed that no
  -- call fails but the closing of the connection, that the copies that VACUUM INTO makes at the start
  -- and at the end pass the check, that what is damaged does not, and that SQLite reads a file with no
  -- log beside it as it is.
  pub restart_restores :
      (raised : Option Exc) (fs : Files B) (file b broken worse : B) (bs : List B)
      (wal shm : Option B)
      → ((c : B) → engine.attach (some c) none ≡ c)
      → fs.live ≡ some file
      → engine.attach (some file) fs.wal ≡ b
      → engine.healthy b ≡ true
      → engine.healthy (engine.vacuum_copy b) ≡ true
      → engine.healthy (engine.vacuum_copy (last b bs)) ≡ true
      → engine.healthy (engine.attach (some broken) wal) ≡ false
      → engine.healthy worse ≡ false
      → (reopened engine (damage broken wal shm (session fs bs).files)
          ≡ some (engine.vacuum_copy b))
        × (reopened engine (damage broken wal shm (closed raised fs bs))
            ≡ some (engine.vacuum_copy (last b bs)))
        × (reopened engine
              (record (damage broken wal shm (closed raised fs bs)) { snapshot = some worse })
            ≡ some (engine.vacuum_copy b))
  restart_restores raised fs file b broken worse bs wal shm alone l a h c c' d w =
      let (reads, copied) =
        opens engine fs file l (ap engine.healthy a ∙ h)
          (ap (λ x. engine.healthy (engine.vacuum_copy x)) a ∙ c) in
      let (reads', kept) = commits engine bs b _ (reads ∙ ap some a) in
      let copied' = kept ∙ (copied ∙ ap (λ x. some (engine.vacuum_copy x)) a) in
      let (newer, older) =
        closes engine raised (session fs bs) (last b bs) (engine.vacuum_copy b) reads' c' copied' in
      (
        restores_snapshot engine _ broken (engine.vacuum_copy b) refl d copied' c
            ∙ ap some (alone (engine.vacuum_copy b)),
        restores_snapshot engine _ broken (engine.vacuum_copy (last b bs)) refl d newer c'
            ∙ ap some (alone (engine.vacuum_copy (last b bs))),
        restores_previous engine _ broken worse (engine.vacuum_copy b) refl d refl w older c
            ∙ ap some (alone (engine.vacuum_copy b)),
      )
