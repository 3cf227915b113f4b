-- ===== src/Block/Assemble/Content.antt =====
-- A file that is assembled is the file that the target manifest was built from.
use file_sync_engine.Prelude.{
  ℕ, ◌<◌, ◌≡◌, ◌≢◌, String, Bool, true, some, List, [], arith, eq_iff, ap, ◌∙◌, subst, Option-cases,
  inl, inr,
}
use file_sync_engine.Prelude.Lists.{length}
use file_sync_engine.Block.Manifest.{
  Bytes, Hasher, Manifest, build_blocks, build_manifest, blocks_match,
}
use file_sync_engine.Block.Manifest.Content.{CollisionFree, build_blocks-content}
use file_sync_engine.Block.Assemble.{Disk, replace_file, copy_blocks, verify_manifest, assemble}

module _ (h : Hasher) where
  pub built_blocks :
      (path : String) (size : ℕ) (bytes : Bytes) (m : Manifest h)
      → build_manifest h path size bytes ≡ some m
      → m.blocks ≡ build_blocks h size (length bytes) 0 bytes
  unfolding build_manifest
  built_blocks path size bytes m built = ground arith

  verified_blocks :
      (staged : Bytes) (target : Manifest h)
      → verify_manifest h staged target ≡ true
      → blocks_match h (build_blocks h target.block_size (length staged) 0 staged) target.blocks
        ≡ true
  unfolding verify_manifest build_manifest
  verified_blocks staged target verified = ground arith

  -- What a verified staging file satisfies, against the file of the manifest.
  verify_manifest-content :
      (path : String) (staged original : Bytes) (target : Manifest h)
      (positive : 0 < target.block_size)
      → build_manifest h path target.block_size original ≡ some target
      → verify_manifest h staged target ≡ true
      → CollisionFree h target.block_size positive staged original
      → staged ≡ original
  verify_manifest-content path staged original target positive built verified free =
      build_blocks-content h target.block_size positive (length staged) (length original) 0 0 staged
        original (omega arith) (omega arith) free
        (subst
          (λ blocks.
            blocks_match h (build_blocks h target.block_size (length staged) 0 staged) blocks
            ≡ true)
          (built_blocks path target.block_size original target built)
          (verified_blocks staged target verified))

  staged_file :
      (disk : Disk) (target_path : String) (target : Manifest h) (sources : List (Manifest h))
      (ready : Bool) (after : Disk)
      → assemble h disk target_path target sources ready ≡ some after
      → (staged : Bytes) × (verify_manifest h staged target ≡ true)
        × (after ≡ replace_file target_path staged disk)
  unfolding assemble
  staged_file disk target_path target sources ready after done =
      elim (Option-cases (copy_blocks h disk sources target.blocks [])) [
        | inl e ↦ absurd (ground (arith, e))
        | inr s ↦ (s.0, ground (arith, s.1), ground (arith, s.1))
      ]

  -- An assembly that succeeds puts the very file the target manifest was built from at the target
  -- path, and changes no other path. Conditions: the manifest was built with a positive block size,
  -- and no block of the file that was written collides under the hash with another of the original.
  pub assemble-content :
      (disk : Disk) (target_path path : String) (target : Manifest h) (sources : List (Manifest h))
      (ready : Bool) (original : Bytes) (after : Disk) (positive : 0 < target.block_size)
      → assemble h disk target_path target sources ready ≡ some after
      → build_manifest h path target.block_size original ≡ some target
      → ((new : Bytes)
          → after target_path ≡ some new
          → CollisionFree h target.block_size positive new original)
      → (after target_path ≡ some original) × ((p : String) → p ≢ target_path → after p ≡ disk p)
  unfolding replace_file
  assemble-content disk target_path path target sources ready original after positive done built
        free =
      let s = staged_file disk target_path target sources ready after done in
      let stored : after target_path ≡ some s.0 =
        ground (arith, ap (λ d. d target_path) s.2, eq_iff target_path target_path) in
      let same_file =
        verify_manifest-content path s.0 original target positive built s.1 (free s.0 stored) in
      (
        stored ∙ ap some same_file,
        (λ p other. ground (arith, ap (λ d. d p) s.2, eq_iff p target_path, other)),
      )
