-- ===== src/LockedApply/Cached.antt =====
-- What is assembled from cached blocks is the file that the manifest was built from.
use file_sync_engine.Prelude.{
  ℕ, ◌<◌, ◌≡◌, refl, subst, String, true, Option, none, some, List, [], ◌∷◌, arith, Option-cases,
  inl, inr,
}
use file_sync_engine.Prelude.Lists.{length}
use file_sync_engine.Block.Manifest.{
  Bytes, Hasher, Block, Manifest, build_blocks, build_manifest, blocks_match,
}
use file_sync_engine.Block.Manifest.Content.{CollisionFree, build_blocks-content}
use file_sync_engine.Block.Assemble.Content.{built_blocks}
use file_sync_engine.Block.Assemble.{Disk}
use file_sync_engine.ApplyGate.{PendingWrite}
use file_sync_engine.LockedApply.Staged.{
  manifests_equal_blocks, equal_manifests, checked_file, write_cached, assemble_cached_blocks,
}

module _ (h : Hasher) where
  manifests_equal_blocks-match :
      (xs ys : List (Block h)) → manifests_equal_blocks h xs ys ≡ true → blocks_match h xs ys ≡ true
  unfolding manifests_equal_blocks blocks_match
  manifests_equal_blocks-match [] [] e = refl
  manifests_equal_blocks-match [] (y ∷ ys) e = ground (arith, e)
  manifests_equal_blocks-match (x ∷ xs) [] e = ground (arith, e)
  manifests_equal_blocks-match (x ∷ xs) (y ∷ ys) e =
      ground (arith, e, manifests_equal_blocks-match xs ys)

  -- Files with equal manifests are the same file.
  pub equal_manifests-content :
      (path other : String) (size : ℕ) (staged original : Bytes) (got want : Manifest h)
      (positive : 0 < size)
      → build_manifest h path size staged ≡ some got
      → build_manifest h other size original ≡ some want
      → equal_manifests h got want ≡ true
      → CollisionFree h size positive staged original
      → staged ≡ original
  unfolding equal_manifests
  equal_manifests-content path other size staged original got want positive b c e free =
      let match = manifests_equal_blocks-match got.blocks want.blocks (ground (arith, e)) in
      build_blocks-content h size positive (length staged) (length original) 0 0 staged original
        (omega arith) (omega arith) free
        (subst
          (λ (xs : List (Block h)).
            blocks_match h xs (build_blocks h size (length original) 0 original) ≡ true)
          (built_blocks h path size staged got b)
          (subst (λ (ys : List (Block h)). blocks_match h got.blocks ys ≡ true)
            (built_blocks h other size original want c) match))

  -- What the check of the staging file says.
  pub assembled :
      (disk : Disk) (cache : String) (w : PendingWrite h) (staged : Bytes)
      → assemble_cached_blocks h disk cache w ≡ some staged
      → (got : Manifest h) × (build_manifest h w.manifest.path w.manifest.block_size staged
          ≡ some got)
        × (equal_manifests h got w.manifest ≡ true)
  unfolding assemble_cached_blocks checked_file
  assembled disk cache w staged e =
      checked (write_cached h disk cache w.verified_blocks w.manifest.blocks []) e
    where
      checked :
          (o : Option Bytes)
          → checked_file h w.manifest o ≡ some staged
          → (got : Manifest h) × (build_manifest h w.manifest.path w.manifest.block_size staged
              ≡ some got)
            × (equal_manifests h got w.manifest ≡ true)
      checked none e = absurd (ground (arith, e))
      checked (some bytes) e =
          elim (Option-cases (build_manifest h w.manifest.path w.manifest.block_size bytes)) [
            | inl n ↦ absurd (ground (arith, n, e))
            | inr g ↦
                let same : bytes ≡ staged = ground (arith, e, g.1) in
                (
                  g.0,
                  subst
                      (λ (b : Bytes).
                        build_manifest h w.manifest.path w.manifest.block_size b ≡ some g.0)
                      same g.1,
                  ground (arith, e, g.1),
                )
          ]
