-- ===== src/LockedApply.antt =====
-- internal/lockedapply/cache.go: the cache of a file that could not be replaced because it was in
-- use, and the retry. The disk maps a path to its bytes; the temporary files have fresh names and
-- are no paths of it, and the folders that `MkdirAll` makes and the errors of the disk are not
-- modelled. The current directory is a parameter, and so is the text of the digest in the name of
-- a cache folder. The blocks of a manifest are hashed by the hasher.
pub mod Paths
pub mod Conflict
pub mod Staged
pub mod Cached
pub mod Retry
pub mod Replaced
pub mod Retried
use Prim.Native.String.{◌++◌ as cat}
use file_sync_engine.Prelude.{
  ℕ, zero, suc, ◌+◌, String, Bool, true, false, not, ◌&&◌, ◌||◌, Option, none, some, List, [], ◌∷◌,
  ◌++◌, ltb, ◌==◌, str_eq, if◌then◌else◌,
}
use file_sync_engine.Prelude.Lists.{length}
use file_sync_engine.Prelude.Sort.{sort_stable}
use file_sync_engine.Block.Manifest.{Bytes, Hasher, Block, Manifest, block_at, build_manifest}
use file_sync_engine.Block.Assemble.{Disk, write_at, replace_file}
use file_sync_engine.ApplyGate.{
  VerifiedStagedBlock, PendingWrite, Gate, save_pending_write, pending_write,
  mark_pending_write_committed,
}
use file_sync_engine.LockedApply.Paths.{safe_root_path, cache_dir, block_path, conflict_candidate}
use file_sync_engine.LockedApply.Conflict.{conflict_suffix, next_conflict_path}
use file_sync_engine.LockedApply.Staged.{
  BlockData, verify_blocks, equal_manifests, assemble_cached_blocks,
}

module _ (h : Hasher) where
  -- The disk and the store of pending writes.
  pub record ApplyWorld : Type 0 where
    pub disk : Disk
    pub gate : Gate h

  pub record PersistOptions : Type 0 where
    pub root : String
    pub folder_id : String
    pub path : String
    pub manifest : Manifest h
    pub expected_base_manifest : Option (Manifest h)
    pub blocks : List (BlockData h)
    pub reason : String

  -- The bytes of the last given block with an index, `byIndex[i]`.
  unfoldable pub bytes_at : ℕ → List (BlockData h) → Option Bytes
  bytes_at i [] = none
  bytes_at i (b ∷ blocks) = last_of (bytes_at i blocks) b (b.index == i)
    where
      last_of : Option Bytes → BlockData h → Bool → Option Bytes
      last_of (some later) b here = some later
      last_of none b true = some b.bytes
      last_of none b false = none

  -- The loop over the verified blocks: one file each.
  unfoldable pub write_blocks :
      String → List (BlockData h) → List (VerifiedStagedBlock h) → Disk → Disk
  unfolding bytes_at block_path replace_file
  write_blocks cache blocks [] disk = disk
  write_blocks cache blocks (v ∷ verified) disk = write_blocks cache blocks verified (
      replace_file (block_path cache v.index)
        (elim (bytes_at v.index blocks) [ none ↦ [] | some bytes ↦ bytes ]) disk)

  named_manifest : Manifest h → String → Manifest h
  named_manifest m path = if str_eq m.path "" then record m { path = path } else m

  unfoldable pub new_pending_write : PersistOptions → List (VerifiedStagedBlock h) → PendingWrite h
  unfolding named_manifest
  new_pending_write o verified = record {
    folder_id = o.folder_id;
    path = o.path;
    manifest = named_manifest o.manifest o.path;
    expected_base_manifest = o.expected_base_manifest;
    required_metadata_cursor = 0;
    required_metadata_state_hash = "";
    verified_blocks = verified;
    committed = false;
    reason = o.reason;
  }

  -- What a call made of the world, and its result; `none` is an error.
  pub record ApplyOutcome (R : Type 0) : Type 0 where
    pub world : ApplyWorld
    pub result : Option R

  abbrev fails : {R : Type 0} → ApplyWorld → ApplyOutcome R
  fails w = record { world = w; result = none }

  pub record CachedApply : Type 0 where
    pub path : String
    pub blocks : ℕ

  unfoldable pub persist_verified :
      String → PersistOptions → List (VerifiedStagedBlock h) → ApplyWorld → ApplyOutcome CachedApply
  unfolding write_blocks new_pending_write
  persist_verified cache o verified w =
      let disk = write_blocks cache o.blocks verified w.disk in
      elim (save_pending_write h (new_pending_write o verified) w.gate) [
        | none ↦ fails (record w { disk = disk })
        | some gate ↦ record {
          world = record { disk = disk; gate = gate };
          result = some (record { path = cache; blocks = length verified });
        }
      ]

  unfoldable pub persist :
      String → (String → String) → PersistOptions → ApplyWorld → ApplyOutcome CachedApply
  unfolding safe_root_path verify_blocks persist_verified cache_dir
  persist cwd name_digest o w = elim (safe_root_path cwd o.root o.path) [
    | none ↦ fails w
    | some final ↦
        if str_eq o.folder_id "" then fails w else elim (verify_blocks h o.manifest o.blocks) [
          | none ↦ fails w
          | some verified ↦ persist_verified (cache_dir name_digest o.root o.path) o verified w
        ]
  ]

  pub data RetryResult : Type 0 where
    applied : (conflict_created : Bool) → RetryResult
    base_mismatch : RetryResult
    nothing_to_do : (missing : Bool) → RetryResult

  -- After the rename over the file: the write is marked in the store.
  unfoldable pub commit_on : Disk → Bool → ApplyWorld → Option (Gate h) → ApplyOutcome RetryResult
  commit_on disk conflict w none = fails (record w { disk = disk })
  commit_on disk conflict w (some gate) = record {
    world = record { disk = disk; gate = gate };
    result = some (applied conflict);
  }

  -- The paths of one retry; `target` is the path that the pending write names.
  pub record RetryPaths : Type 0 where
    pub final : String
    pub target : Option String
    pub cache : String
    pub folder : String
    pub path : String

  unfoldable pub install :
      String → RetryPaths → Bool → ApplyWorld → Option Bytes → ApplyOutcome RetryResult
  unfolding commit_on replace_file
  install target paths conflict w none = fails w
  install target paths conflict w (some staged) =
      commit_on (replace_file target staged w.disk) conflict w
        (mark_pending_write_committed h paths.folder paths.path w.gate)

  -- The end of `RetryPending`, on a disk on which a conflict copy may have been made.
  unfoldable pub finish_retry :
      Option String → RetryPaths → PendingWrite h → Bool → ApplyWorld → ApplyOutcome RetryResult
  unfolding assemble_cached_blocks install
  finish_retry none paths pending conflict w = fails w
  finish_retry (some target) paths pending conflict w =
      install target paths conflict w (assemble_cached_blocks h w.disk paths.cache pending)

  -- With the conflict copy that is made, where the fuel suffices for a name.
  unfoldable pub retry_over :
      Option String → RetryPaths → PendingWrite h → Bytes → ApplyWorld → ApplyOutcome RetryResult
  unfolding finish_retry replace_file
  retry_over none paths pending current w = fails w
  retry_over (some copy) paths pending current w =
      finish_retry paths.target paths pending true
        (record w { disk = replace_file copy current w.disk })

  -- The comparison of the file that is there with the base that the write expects.
  unfoldable pub retry_on :
      ℕ
      → RetryPaths
      → PendingWrite h
      → Manifest h
      → Bytes
      → ApplyWorld
      → Option (Manifest h)
      → ApplyOutcome RetryResult
  unfolding equal_manifests next_conflict_path finish_retry retry_over
  retry_on fuel paths pending base current w none = fails w
  retry_on fuel paths pending base current w (some now) =
      if equal_manifests h now base
      then finish_retry paths.target paths pending false w
      else retry_over (next_conflict_path w.disk paths.final conflict_suffix fuel 0) paths pending
          current w

  unfoldable pub retry_file :
      ℕ
      → RetryPaths
      → PendingWrite h
      → Manifest h
      → Option Bytes
      → ApplyWorld
      → ApplyOutcome RetryResult
  unfolding retry_on build_manifest
  retry_file fuel paths pending base none w = record {
    world = w;
    result = if base.block_size == 0 then none else some base_mismatch;
  }
  retry_file fuel paths pending base (some current) w =
      retry_on fuel paths pending base current w
        (build_manifest h paths.path base.block_size current)

  unfoldable pub retry_write :
      ℕ → RetryPaths → PendingWrite h → Option (Manifest h) → ApplyWorld → ApplyOutcome RetryResult
  unfolding retry_file
  retry_write fuel paths pending none w = record { world = w; result = some base_mismatch }
  retry_write fuel paths pending (some base) w =
      retry_file fuel paths pending base (w.disk paths.final) w

  unfoldable pub retry_found :
      ℕ → RetryPaths → PendingWrite h → ApplyWorld → ApplyOutcome RetryResult
  unfolding retry_write
  retry_found fuel paths pending w =
      if pending.committed
      then record { world = w; result = some (nothing_to_do false) }
      else retry_write fuel paths pending pending.expected_base_manifest w

  abbrev pub retry_paths :
      String → (String → String) → String → String → String → String → PendingWrite h → RetryPaths
  retry_paths cwd name_digest root folder path final pending = record {
    final = final;
    target = safe_root_path cwd root pending.path;
    cache = cache_dir name_digest root pending.path;
    folder = folder;
    path = path;
  }

  -- `RetryPending` once the path is safe, with the write that the store has.
  unfoldable pub retry_stored :
      String
      → (String → String)
      → ℕ
      → String
      → String
      → String
      → String
      → Option (PendingWrite h)
      → ApplyWorld
      → ApplyOutcome RetryResult
  unfolding safe_root_path cache_dir retry_found
  retry_stored cwd name_digest fuel root folder path final none w = record {
    world = w;
    result = some (nothing_to_do true);
  }
  retry_stored cwd name_digest fuel root folder path final (some pending) w =
      retry_found fuel (retry_paths cwd name_digest root folder path final pending) pending w

  unfoldable pub retry_safe :
      String
      → (String → String)
      → ℕ
      → String
      → String
      → String
      → Option String
      → ApplyWorld
      → ApplyOutcome RetryResult
  unfolding retry_stored
  retry_safe cwd name_digest fuel root folder path none w = fails w
  retry_safe cwd name_digest fuel root folder path (some final) w =
      retry_stored cwd name_digest fuel root folder path final (pending_write h folder path w.gate)
        w

  -- `RetryPending`. The fuel is the number of conflict names that are tried.
  unfoldable pub retry_pending :
      String
      → (String → String)
      → ℕ
      → String
      → String
      → String
      → ApplyWorld
      → ApplyOutcome RetryResult
  unfolding safe_root_path retry_safe
  retry_pending cwd name_digest fuel root folder path w =
      retry_safe cwd name_digest fuel root folder path (safe_root_path cwd root path) w
