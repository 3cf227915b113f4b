-- ===== src/LockedApply/Conflict.antt =====
-- internal/lockedapply/cache.go: the name of a conflict copy.
use file_sync_engine.Prelude.{ℕ, zero, suc, String, Option, none, some}
use file_sync_engine.Block.Manifest.{Bytes}
use file_sync_engine.Block.Assemble.{Disk}
use file_sync_engine.LockedApply.Paths.{conflict_candidate}

abbrev pub conflict_suffix : String
conflict_suffix = ".sync-conflict-locked-apply"

-- `nextConflictPath`: the first free candidate from index `i`. `none` is fuel that ran out.
unfoldable pub next_conflict_path : Disk → String → String → ℕ → ℕ → Option String
unfolding conflict_candidate
next_conflict_path disk final suffix zero i = none
next_conflict_path disk final suffix (suc fuel) i =
    let later = next_conflict_path disk final suffix fuel (suc i) in
    free_or (disk (conflict_candidate final suffix i)) (conflict_candidate final suffix i) later
  where
    free_or : Option Bytes → String → Option String → Option String
    free_or none candidate later = some candidate
    free_or (some taken) candidate later = later
