-- ===== src/LockedApply/Staged.antt =====
-- internal/lockedapply/cache.go: the blocks that are verified and cached, and the file that is
-- assembled from them.
use file_sync_engine.Prelude.{
  ℕ, String, Bool, true, false, ◌&&◌, Option, none, some, List, [], ◌∷◌, ltb, ◌==◌, if◌then◌else◌,
}
use file_sync_engine.Prelude.Lists.{length}
use file_sync_engine.Prelude.Sort.{sort_stable}
use file_sync_engine.Block.Manifest.{Bytes, Hasher, Block, Manifest, block_at, build_manifest}
use file_sync_engine.Block.Assemble.{Disk, write_at}
use file_sync_engine.ApplyGate.{VerifiedStagedBlock, PendingWrite}
use file_sync_engine.LockedApply.Paths.{block_path}

module _ (h : Hasher) where
  open h use {same, digest}

  pub record BlockData : Type 0 where
    pub index : ℕ
    pub bytes : Bytes

  abbrev pub staged_of : Block h → VerifiedStagedBlock h
  staged_of b = record { index = b.index; offset = b.offset; size = b.size; hash = b.hash }

  -- `len(data) == want.Size && sha256(data) == want.Hash`
  abbrev pub is_content : Block h → Bytes → Bool
  is_content want bytes = length bytes == want.size && same (digest bytes) want.hash

  -- The loop of `verifyBlocks`: a block that the manifest has not, or whose bytes are others, is an
  -- error.
  unfoldable pub verify_each : Manifest h → List BlockData → Option (List (VerifiedStagedBlock h))
  unfolding block_at
  verify_each m [] = some []
  verify_each m (b ∷ blocks) = checked (block_at h b.index m.blocks) b (verify_each m blocks)
    where
      checked :
          Option (Block h)
          → BlockData
          → Option (List (VerifiedStagedBlock h))
          → Option (List (VerifiedStagedBlock h))
      checked none b rest = none
      checked (some want) b none = none
      checked (some want) b (some rest) =
          if is_content want b.bytes then some (staged_of want ∷ rest) else none

  unfoldable pub verify_blocks : Manifest h → List BlockData → Option (List (VerifiedStagedBlock h))
  unfolding verify_each
  verify_blocks m blocks = sorted (verify_each m blocks)
    where
      sorted : Option (List (VerifiedStagedBlock h)) → Option (List (VerifiedStagedBlock h))
      sorted none = none
      sorted (some bs) =
          some (sort_stable (λ (a b : VerifiedStagedBlock h). ltb a.index b.index) bs)

  unfoldable pub manifests_equal_blocks : List (Block h) → List (Block h) → Bool
  manifests_equal_blocks [] [] = true
  manifests_equal_blocks [] (b ∷ ys) = false
  manifests_equal_blocks (a ∷ xs) [] = false
  manifests_equal_blocks (a ∷ xs) (b ∷ ys) =
      a.index == b.index
      && a.offset == b.offset
      && a.size == b.size
      && same a.hash b.hash
      && manifests_equal_blocks xs ys

  unfoldable pub equal_manifests : Manifest h → Manifest h → Bool
  unfolding manifests_equal_blocks
  equal_manifests a b = a.size == b.size && manifests_equal_blocks a.blocks b.blocks

  -- `verifiedByIndex[i]`: the map keeps the last block with an index.
  unfoldable pub verified_at : ℕ → List (VerifiedStagedBlock h) → Option (VerifiedStagedBlock h)
  verified_at i [] = none
  verified_at i (b ∷ blocks) = last_of (verified_at i blocks) b (b.index == i)
    where
      last_of :
          Option (VerifiedStagedBlock h)
          → VerifiedStagedBlock h
          → Bool
          → Option (VerifiedStagedBlock h)
      last_of (some later) b here = some later
      last_of none b true = some b
      last_of none b false = none

  -- The checks of one block of the manifest, and its bytes.
  unfoldable pub cached_block :
      Block h → Option (VerifiedStagedBlock h) → Option Bytes → Option Bytes
  cached_block want none content = none
  cached_block want (some v) none = none
  cached_block want (some v) (some content) =
      if v.offset == want.offset
        && v.size == want.size
        && same v.hash want.hash
        && is_content want content
      then some content
      else none

  unfoldable pub write_cached :
      Disk → String → List (VerifiedStagedBlock h) → List (Block h) → Bytes → Option Bytes
  unfolding verified_at cached_block block_path
  write_cached disk cache verified [] staged = some staged
  write_cached disk cache verified (want ∷ blocks) staged =
      elim (cached_block want (verified_at want.index verified)
        (disk (block_path cache want.index))) [
          | none ↦ none
          | some content ↦
              write_cached disk cache verified blocks (write_at want.offset content staged)
        ]

  -- The end of `assembleCachedBlocks`: the staging file is checked against the manifest.
  unfoldable pub checked_file : Manifest h → Option Bytes → Option Bytes
  unfolding build_manifest equal_manifests
  checked_file want none = none
  checked_file want (some staged) = elim (build_manifest h want.path want.block_size staged) [
    | none ↦ none
    | some got ↦ if equal_manifests got want then some staged else none
  ]

  unfoldable pub assemble_cached_blocks : Disk → String → PendingWrite h → Option Bytes
  unfolding write_cached checked_file
  assemble_cached_blocks disk cache w =
      checked_file w.manifest (write_cached disk cache w.verified_blocks w.manifest.blocks [])
