-- ===== src/Tests/Apply.antt =====
-- Pending writes, deletes that wait, and the retry of a locked file at concrete inputs.
use file_sync_engine.Prelude.{
  ℕ, ◌*◌, ◌≡◌, ◌↔◌, refl, ap, String, true, false, none, some, [], ◌∷◌, arith, str_eq,
  if◌then◌else◌,
}
use file_sync_engine.Prelude.Lists.{In}
use file_sync_engine.Prelude.Map.{lookup}
use file_sync_engine.Block.Manifest.{Bytes, Manifest}
use file_sync_engine.Block.Assemble.{Disk, write_at}
use file_sync_engine.Metadata.Changes.{FolderSummary}
use file_sync_engine.ApplyGate.{
  SkippedDelete, VerifiedStagedBlock, PendingWrite, Gate, or_nil, values, ready_skipped_deletes,
  pending_write, mark_pending_write_committed,
}
use file_sync_engine.ApplyGate.Ready.{IsReady, ready_skipped_deletes-IsReady}
use file_sync_engine.LockedApply.Paths.{safe_root_path}
use file_sync_engine.LockedApply.{ApplyWorld, applied, retry_pending}
use file_sync_engine.LockedApply.Retried.{Retried, retry_pending-Retried, retry_pending-content}
use file_sync_engine.Tests.Parts.{hasher, content, target, target_built, same_bytes}

abbrev staged : ℕ → ℕ → Bytes → VerifiedStagedBlock hasher
staged index size bytes = record { index = index; offset = index * 2; size = size; hash = bytes }

-- The base is a file of one block with the byte 9.
abbrev base : Manifest hasher
base = record {
  path = "f";
  size = 1;
  block_size = 2;
  blocks = record { index = 0; offset = 0; size = 1; hash = 9 ∷ [] } ∷ [];
}

abbrev owed : PendingWrite hasher
owed = record {
  folder_id = "docs";
  path = "f";
  manifest = target;
  expected_base_manifest = some base;
  required_metadata_cursor = 0;
  required_metadata_state_hash = "";
  verified_blocks = staged 0 2 (1 ∷ 2 ∷ []) ∷ staged 1 1 (3 ∷ []) ∷ [];
  committed = false;
  reason = "busy";
}

abbrev delayed : SkippedDelete
delayed = record {
  folder_id = "docs";
  path = "old";
  required_metadata_cursor = 4;
  required_metadata_state_hash = "";
  required_writes = "f" ∷ [];
  reason = "";
}

abbrev gate : Gate hasher
gate = record {
  pending_writes = ("docs", ("f", owed) ∷ []) ∷ [];
  skipped_deletes = ("docs", ("old", delayed) ∷ []) ∷ [];
}

abbrev current : FolderSummary
current = record { folder_id = "docs"; cursor = 5; files = 1; tombstones = 0; state_hash = "x" }

ready_skipped_deletes-IsReady_example :
    In delayed (ready_skipped_deletes hasher "docs" current gate) ↔ (
      In delayed (values (or_nil (lookup "docs" gate.skipped_deletes)))
      × IsReady hasher current (or_nil (lookup "docs" gate.pending_writes)) delayed)
ready_skipped_deletes-IsReady_example =
    ready_skipped_deletes-IsReady hasher "docs" current gate delayed

abbrev name_digest : String → String
name_digest text = "00"

-- The file was changed to the byte 8; the blocks are in the cache.
abbrev disk : Disk
disk path =
    if str_eq path "/home/sync/f"
    then some (8 ∷ [])
    else if str_eq path "/home/sync/.sync/locked-apply/f-00/block-000000"
    then some (1 ∷ 2 ∷ [])
    else if str_eq path "/home/sync/.sync/locked-apply/f-00/block-000001"
    then some (3 ∷ [])
    else none

abbrev world : ApplyWorld hasher
world = record { disk = disk; gate = gate }

f_safe : safe_root_path "/" "/home/sync" "f" ≡ some "/home/sync/f"
unfolding safe_root_path
f_safe = refl

f_owed : pending_write hasher "docs" "f" gate ≡ some owed
unfolding pending_write
f_owed = refl

f_applied :
    (retry_pending hasher "/" name_digest 3 "/home/sync" "docs" "f" world).result
    ≡ some (applied true)
unfolding retry_pending pending_write same_bytes write_at mark_pending_write_committed
f_applied = refl

f_own : (w : PendingWrite hasher) → pending_write hasher "docs" "f" gate ≡ some w → w.path ≡ "f"
f_own w e =
    let same : w ≡ owed = ground (arith, e, f_owed) in ap (λ (x : PendingWrite hasher). x.path) same

retry_pending-Retried_example :
    Retried hasher "/" "/home/sync" "docs" "f" world
      (retry_pending hasher "/" name_digest 3 "/home/sync" "docs" "f" world).world
retry_pending-Retried_example =
    retry_pending-Retried hasher "/" name_digest 3 "/home/sync" "docs" "f" world true f_applied
      f_own

retry_pending-content_example :
    (retry_pending hasher "/" name_digest 3 "/home/sync" "docs" "f" world).world.disk "/home/sync/f"
    ≡ some content
retry_pending-content_example =
    retry_pending-content hasher "/" name_digest 3 "/home/sync" "docs" "f" "/home/sync/f" "f" world
      true owed content (omega arith) f_applied f_safe f_owed refl target_built
      (λ new stored n m e. e)
