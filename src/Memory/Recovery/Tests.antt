-- ===== src/Memory/Recovery/Tests.antt =====
-- Runs of the recovery of core/memory.py. A file is a number, healthy if it is even.
use emma.Common.{
  ℕ, ◌+◌, ◌*◌, ◌%◌, ◌≡◌, refl, Bool, true, Option, none, some, [], ◌∷◌, Result, Exc, ok, ◌==◌, ◌⊎◌,
  inr,
}
use emma.Memory.Recovery.{
  Files, Faults, Engine, Database, open_memory, is_usable, write_snapshot, found, heal,
}
use emma.Memory.Recovery.Laws.{Kept, newest_healthy, heal_keeps, heal_restores}
use emma.Memory.Recovery.Session.{
  no_faults, damage, session, closed, reopened, closed_files, restart_restores,
}
use emma.Memory.Recovery.Rotation.{
  HasUsable, write_snapshot-HasUsable, write_snapshot_loses, open_memory_sound,
}

-- A log of its own makes nothing; beside a file it adds its writes.
abbrev attach : (file log : Option ℕ) → ℕ
attach none log = 0
attach (some b) none = b
attach (some b) (some w) = b + 2 * w

abbrev engine : Engine ℕ
engine = record {
  healthy = λ b. b % 2 == 0;
  vacuum_copy = λ b. b;
  attach = attach;
  torn_copy = λ b. none;
}

-- A damaged database, a damaged snapshot and a healthy one behind it.
abbrev damaged : Files ℕ
damaged = record {
  live = some 7;
  wal = some 3;
  shm = none;
  snapshot = some 5;
  snapshot_prev = some 4;
  tmp = none;
  quarantined = [];
}

second_generation_restored : (heal engine no_faults damaged).live ≡ some 4
unfolding heal found is_usable
second_generation_restored = refl

heal_keeps_example :
    ((heal engine no_faults damaged).live ≡ some 7)
    ⊎ Kept 7 (heal engine no_faults damaged).quarantined
heal_keeps_example = heal_keeps engine no_faults damaged 7 refl

heal_restores_instance :
    (heal engine no_faults damaged).live ≡ newest_healthy engine (some 5 ∷ some 4 ∷ [])
heal_restores_instance = heal_restores engine no_faults damaged 7 refl refl refl refl refl refl refl

four-HasUsable : HasUsable engine damaged
unfolding is_usable
four-HasUsable = inr refl

write_snapshot-HasUsable_example : HasUsable engine (write_snapshot engine no_faults 8 damaged).1
write_snapshot-HasUsable_example =
    write_snapshot-HasUsable engine no_faults 8 damaged four-HasUsable (inr (inr refl))

abbrev rename_fails : Faults
rename_fails = record no_faults { rotate_tmp = true }

write_snapshot_loses_example :
    ((write_snapshot engine rename_fails 8 damaged).1.snapshot_prev ≡ some 5)
    × (◌≡◌ {A = Bool} true true
        → ¬ (HasUsable engine (write_snapshot engine rename_fails 8 damaged).1))
write_snapshot_loses_example =
    write_snapshot_loses engine rename_fails 8 5 damaged refl refl refl refl refl refl

-- The rotation fails, after the recovery.
abbrev opened : Result Exc (Unit {0}) × Database ℕ
opened = open_memory engine rename_fails (closed_files engine damaged)

open_memory_sound_example :
    (b : ℕ) × (opened.0 ≡ ok tt)
    × (opened.1.connection ≡ some b)
    × (opened.1.files.live ≡ some b)
    × (engine.healthy b ≡ true)
open_memory_sound_example =
    open_memory_sound engine rename_fails refl (λ b. refl) refl refl refl refl refl
      (closed_files engine damaged) (λ e. cc) refl refl refl refl

-- A database of 12 that two writes make 14 and 16, damaged to 7 behind them.
abbrev sound : Files ℕ
sound = record damaged { live = some 12; wal = none }

restart_restores_example :
    (reopened engine (damage 7 (some 3) none (session engine sound (14 ∷ 16 ∷ [])).files) ≡ some 12)
    × (reopened engine (damage 7 (some 3) none (closed engine none sound (14 ∷ 16 ∷ []))) ≡ some 16)
    × (reopened engine (record (damage 7 (some 3) none (closed engine none sound (14 ∷ 16 ∷ []))) {
      snapshot = some 9;
    })
        ≡ some 12)
restart_restores_example =
    restart_restores engine none sound 12 12 7 9 (14 ∷ 16 ∷ []) (some 3) none (λ b. refl) refl refl
      refl refl refl refl refl
