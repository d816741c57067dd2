-- ===== src/Memory/Recovery.antt =====
-- core/memory.py: opening the database file, recovering it from corruption, and the two generations
-- of snapshots. What a file holds is a type `B`; SQLite's integrity check, VACUUM INTO and what a
-- connection reads are parameters, and so is which calls fail.
pub mod Laws
pub mod Rotation
pub mod Session
mod Tests
use emma.Common.{
  os_error, runtime_error, Bool, true, false, not, ◌&&◌, Option, none, some, List, [], ◌∷◌, ◌++◌,
  Text, lit, Result, ok, err, Exc, if◌then◌else◌,
}

-- The files of one database directory. Quarantined files carry the time stamp in their names, so
-- they pile up; the newest stands last.
pub record Files (B : Type 0) : Type 0 where
  pub live : Option B
  pub wal : Option B
  pub shm : Option B
  pub snapshot : Option B
  pub snapshot_prev : Option B
  pub tmp : Option B
  pub quarantined : List B

-- Which calls of the system and of SQLite raise in one call of the method.
pub record Faults : Type 0 where
  pub make_directory : Bool
  pub rename_live : Bool
  pub rename_wal : Bool
  pub rename_shm : Bool
  pub copy_snapshot : Bool
  pub copy_snapshot_prev : Bool
  -- `aiosqlite.connect`, and the statements behind it
  pub connect : Bool
  pub set_up : Bool
  -- the `unlink` in front of VACUUM INTO, and the one that discards a copy
  pub unlink_before : Bool
  pub vacuum : Bool
  pub unlink_after : Bool
  pub rotate_snapshot : Bool
  pub rotate_tmp : Bool

-- The files, and what the connection reads if there is one.
pub record Database (B : Type 0) : Type 0 where
  pub files : Files B
  pub connection : Option B

-- What a call that fails raises.
abbrev pub io_error : Exc
io_error = record { kind = os_error; message = lit "input/output error" }

-- What SQLite does with a file.
pub record Engine (B : Type 0) : Type 0 where
  -- `PRAGMA integrity_check` answers "ok"
  pub healthy : B → Bool
  -- the copy that VACUUM INTO writes
  pub vacuum_copy : B → B
  -- what a connection reads in a file, which it makes where there is none, with the write-ahead log
  -- that lies beside it, if there is one
  pub attach : (file log : Option B) → B
  -- what a copy of a file leaves if it fails half way
  pub torn_copy : B → Option B

module _ {B : Type 0} (engine : Engine B) where
  -- `candidate.exists() and _file_is_healthy(candidate)`
  unfoldable pub is_usable : Option B → Bool
  is_usable none = false
  is_usable (some b) = engine.healthy b

abbrev pub quarantine {ℓ} : {B : Type ℓ} → Option B → List B → List B
quarantine none kept = kept
quarantine (some b) kept = kept ++ (b ∷ [])

abbrev pub exists {ℓ} : {B : Type ℓ} → Option B → Bool
exists none = false
exists (some b) = true

module _ {B : Type 0} (engine : Engine B) (faults : Faults) where
  -- The `try` that moves the damaged file and its companions aside: what is on disk behind it, and
  -- whether it came to its end.
  unfoldable pub move_aside : Files B → Files B × Bool
  move_aside fs =
      if faults.rename_live
      then (fs, false)
      else let moved = record fs { live = none; quarantined = quarantine fs.live fs.quarantined } in
        if exists fs.wal && faults.rename_wal
        then (moved, false)
        else let moved' = record moved {
          wal = none;
          quarantined = quarantine fs.wal moved.quarantined;
        } in
          if exists fs.shm && faults.rename_shm then (moved', false) else (
            record moved' { shm = none; quarantined = quarantine fs.shm moved'.quarantined },
            true,
          )

  -- One round of the `for candidate in (snapshot, snapshot_prev)` loop: the files, and whether it
  -- returned. A copy that raises may leave a torn file behind.
  unfoldable pub try_candidate : Option B → Bool → Files B → Files B × Bool
  try_candidate none fails fs = (fs, false)
  try_candidate (some b) fails fs =
      if engine.healthy b
      then if fails
        then (record fs { live = engine.torn_copy b }, false)
        else (record fs { live = some b }, true)
      else (fs, false)

  unfoldable pub restore : Files B → Files B
  unfolding try_candidate
  restore fs =
      let (first, done) = try_candidate fs.snapshot faults.copy_snapshot fs in
      if done then first else (try_candidate fs.snapshot_prev faults.copy_snapshot_prev first).0

  unfoldable pub recover : Files B → Files B
  unfolding move_aside restore
  recover fs = let (moved, done) = move_aside fs in if done then restore moved else moved

  -- `tmp.unlink(missing_ok=True)` in the handlers
  unfoldable pub discard : Files B → Result Exc (Unit {0}) × Files B
  discard fs = if faults.unlink_after then (err io_error, fs) else (ok tt, record fs { tmp = none })

  -- `tmp.replace(...)` over the rotation's `try`; a failure discards the new copy.
  unfoldable pub rotate : Files B → Result Exc (Unit {0}) × Files B
  unfolding discard
  rotate fs =
      if exists fs.snapshot && faults.rotate_snapshot
      then discard fs
      else let shifted =
          if exists fs.snapshot
          then record fs { snapshot = none; snapshot_prev = fs.snapshot }
          else fs in
        if faults.rotate_tmp
        then discard shifted
        else (ok tt, record shifted { tmp = none; snapshot = fs.tmp })

  -- `live` is the open database.
  unfoldable pub write_snapshot : B → Files B → Result Exc (Unit {0}) × Files B
  unfolding rotate
  write_snapshot live fs =
      if faults.unlink_before
      then discard fs
      else if faults.vacuum
      then discard (record fs { tmp = engine.torn_copy live })
      else let made = record fs { tmp = some (engine.vacuum_copy live) } in
        if engine.healthy (engine.vacuum_copy live) then rotate made else discard made

  -- What the check of the live file reads.
  unfoldable pub found : Files B → Option B
  found fs = elim fs.live [ none ↦ none | some b ↦ some (engine.attach (some b) fs.wal) ]

  -- `if self._db_path.exists() and not await self._file_is_healthy(...)`
  unfoldable pub heal : Files B → Files B
  unfolding is_usable found recover
  heal fs = if exists fs.live && not (is_usable engine (found fs)) then recover fs else fs

  -- What `aiosqlite.connect` opens, and the files, which hold from there on what it reads.
  unfoldable pub connect : Files B → B × Files B
  connect fs =
      let b = engine.attach fs.live fs.wal in
      (b, record fs { live = some b; wal = none; shm = none })

  -- (The message also names the directory and the error.)
  unfoldable pub open_memory : Database B → Result Exc (Unit {0}) × Database B
  unfolding heal connect write_snapshot
  open_memory d =
      if faults.make_directory
      then (
        err (record { kind = runtime_error; message = lit "cannot create the database directory" }),
        d,
      )
      else let fs = heal d.files in
        if faults.connect
        then (err io_error, record d { files = fs })
        else let (live, fs') = connect fs in
          if faults.set_up
          then (err io_error, record { files = fs'; connection = some live })
          else let (outcome, fs'') = write_snapshot live fs' in
            (outcome, record { files = fs''; connection = some live })

  -- `raised` is what closing the connection raises, if anything.
  unfoldable pub close_memory : Option Exc → Database B → Result Exc (Unit {0}) × Database B
  unfolding write_snapshot
  close_memory raised d = elim d.connection [
    | none ↦ (ok tt, d)
    | some live ↦
        let (outcome, fs) = write_snapshot live d.files in
        elim outcome [
          | err e ↦ (err e, record d { files = fs })
          | ok _ ↦ elim raised [
            | none ↦ (ok tt, record { files = fs; connection = none })
            | some e ↦ (err e, record d { files = fs })
          ]
        ]
  ]
