-- ===== src/Block/Manifest/Content.antt =====
-- A manifest determines the content: two files whose blocks match are the same bytes, unless two
-- of their blocks collide under the hash.
use file_sync_engine.Prelude.{
  ℕ, zero, suc, ◌+◌, ◌≤◌, ◌<◌, ◌≡◌, refl, true, [], ◌∷◌, ◌++◌, arith, ltb, if◌then◌else◌, sym, ◌∙◌,
  Bool-cases, inl, inr,
}
use mathlib.Core.Path.{ap₂}
use file_sync_engine.Prelude.Lists.{
  length, take, drop, take-append-drop, length-drop, length-take, drop-drop,
}
use file_sync_engine.Block.Manifest.{Bytes, Hasher, build_blocks, blocks_match}

module _ (h : Hasher) (block_size : ℕ) (positive : 0 < block_size) where
  open h use {same, digest}

  -- No block of one file has the digest of another block of the other file.
  abbrev pub CollisionFree : Bytes → Bytes → Type 0
  CollisionFree a b =
      (n m : ℕ)
      → digest (take block_size (drop n a)) ≡ digest (take block_size (drop m b))
      → take block_size (drop n a) ≡ take block_size (drop m b)

  drop-CollisionFree :
      (a b : Bytes) → CollisionFree a b → CollisionFree (drop block_size a) (drop block_size b)
  drop-CollisionFree a b free n m =
      rw (drop-drop n block_size a, drop-drop m block_size b)
        (free (block_size + n) (block_size + m))

  build_nothing : (fuel i : ℕ) → build_blocks h block_size fuel i [] ≡ []
  unfolding build_blocks
  build_nothing zero i = refl
  build_nothing (suc fuel) i = refl

  drop_all : (n : ℕ) (xs : Bytes) → length xs ≤ n → drop n xs ≡ []
  drop_all zero [] l = refl
  drop_all zero (x ∷ xs) l = absurd (omega arith)
  drop_all (suc n) [] l = refl
  drop_all (suc n) (x ∷ xs) l = drop_all n xs (omega arith)

  -- The early end after a short block changes nothing: no byte is left.
  short_last :
      (fuel i : ℕ) (xs : Bytes)
      → (if ltb (length (take block_size xs)) block_size
          then []
          else build_blocks h block_size fuel i (drop block_size xs))
        ≡ build_blocks h block_size fuel i (drop block_size xs)
  short_last fuel i xs = elim (Bool-cases (ltb (length (take block_size xs)) block_size)) [
    | inl short ↦
        rw (short, drop_all block_size xs (ground (arith, length-take block_size xs)))
          (sym (build_nothing fuel i))
    | inr full ↦ rw full refl
  ]

  -- A match of two files with a block each: the first chunks have one digest, and the rests match.
  split_match :
      (fa fb i j x y : ℕ) (a b : Bytes)
      → blocks_match h
          (build_blocks h block_size (suc fa) i (x ∷ a))
          (build_blocks h block_size (suc fb) j (y ∷ b))
        ≡ true
      → (same (digest (take block_size (x ∷ a))) (digest (take block_size (y ∷ b))) ≡ true)
        × (blocks_match h
              (build_blocks h block_size fa (i + 1) (drop block_size (x ∷ a)))
              (build_blocks h block_size fb (j + 1) (drop block_size (y ∷ b)))
            ≡ true)
  unfolding build_blocks blocks_match
  split_match fa fb i j x y a b m =
      let e =
        ap₂ (blocks_match h) (short_last fa (i + 1) (x ∷ a)) (short_last fb (j + 1) (y ∷ b)) in
      (ground arith, ground (arith, e))

  -- Two files whose lists of blocks match, sizes and hashes, are the same bytes: for a positive
  -- block size, fuel of the length of each file at least, and files of which no block of the one
  -- collides under the hash with another block of the other.
  pub build_blocks-content :
      (fa fb i j : ℕ) (a b : Bytes)
      → length a ≤ fa
      → length b ≤ fb
      → CollisionFree a b
      → blocks_match h (build_blocks h block_size fa i a) (build_blocks h block_size fb j b) ≡ true
      → a ≡ b
  unfolding build_blocks blocks_match
  build_blocks-content zero fb i j [] [] la lb free m = refl
  build_blocks-content zero zero i j [] (y ∷ b) la lb free m = absurd (omega arith)
  build_blocks-content zero (suc fb) i j [] (y ∷ b) la lb free m = cc
  build_blocks-content zero fb i j (x ∷ a) b la lb free m = absurd (omega arith)
  build_blocks-content (suc fa) zero i j [] [] la lb free m = refl
  build_blocks-content (suc fa) (suc fb) i j [] [] la lb free m = refl
  build_blocks-content (suc fa) zero i j [] (y ∷ b) la lb free m = absurd (omega arith)
  build_blocks-content (suc fa) (suc fb) i j [] (y ∷ b) la lb free m = cc
  build_blocks-content (suc fa) zero i j (x ∷ a) [] la lb free m = cc
  build_blocks-content (suc fa) (suc fb) i j (x ∷ a) [] la lb free m = cc
  build_blocks-content (suc fa) zero i j (x ∷ a) (y ∷ b) la lb free m = absurd (omega arith)
  build_blocks-content (suc fa) (suc fb) i j (x ∷ a) (y ∷ b) la lb free m =
      let m2 = split_match fa fb i j x y a b m in
      let rest =
        build_blocks-content fa fb (i + 1) (j + 1) (drop block_size (x ∷ a))
          (drop block_size (y ∷ b)) (omega (arith, length-drop block_size (x ∷ a), positive))
          (omega (arith, length-drop block_size (y ∷ b), positive)) (drop-CollisionFree _ _ free)
          m2.1 in
      sym (take-append-drop block_size (x ∷ a))
      ∙ ap₂ ◌++◌ (free 0 0 ((h.same_iff _ _).0 m2.0)) rest
      ∙ take-append-drop block_size (y ∷ b)
