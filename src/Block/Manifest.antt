-- ===== src/Block/Manifest.antt =====
-- internal/block/manifest.go. A file is its list of bytes. SHA-256 is a parameter: a type of
-- digests with an equality test, and the digest of a list of bytes. An error of the disk while a
-- manifest is built is not modelled; the callers here read files that exist.
pub mod Content
pub mod Delta
use file_sync_engine.Prelude.{
  ℕ, zero, suc, ◌+◌, ◌*◌, String, ◌≡◌, ◌↔◌, Bool, true, false, not, ◌&&◌, ◌||◌, Option, none, some,
  List, [], ◌∷◌, ◌++◌, ltb, ◌==◌, if◌then◌else◌,
}
use file_sync_engine.Prelude.Lists.{length, take, drop}

abbrev pub Bytes : Type 0
Bytes = List ℕ

pub record Hasher : Type 1 where
  pub Digest : Type 0
  pub same : Digest → Digest → Bool
  pub same_iff : (a b : Digest) → (same a b ≡ true) ↔ (a ≡ b)
  pub digest : Bytes → Digest

module _ (h : Hasher) where
  open h use {Digest, same, digest}

  pub record Block : Type 0 where
    pub index : ℕ
    pub offset : ℕ
    pub size : ℕ
    pub hash : Digest

  -- The fields that planning and assembly read.
  pub record Manifest : Type 0 where
    pub path : String
    pub size : ℕ
    pub block_size : ℕ
    pub blocks : List Block

  -- The loop of `BuildManifest`: `io.ReadFull` takes a block, or what is left. The fuel bounds the
  -- rounds; a round takes a byte at least.
  unfoldable pub build_blocks : ℕ → ℕ → ℕ → Bytes → List Block
  build_blocks block_size zero index bytes = []
  build_blocks block_size (suc fuel) index [] = []
  build_blocks block_size (suc fuel) index (b ∷ bytes) =
      let chunk = take block_size (b ∷ bytes) in
      let rest = build_blocks block_size fuel (index + 1) (drop block_size (b ∷ bytes)) in
      record {
        index = index;
        offset = index * block_size;
        size = length chunk;
        hash = digest chunk;
      }
      ∷ (if ltb (length chunk) block_size then [] else rest)

  -- `none` is the error for a block size that is not positive.
  unfoldable pub build_manifest : String → ℕ → Bytes → Option Manifest
  unfolding build_blocks
  build_manifest path block_size bytes =
      if block_size == 0
      then none
      else some (record {
        path = path;
        size = length bytes;
        block_size = block_size;
        blocks = build_blocks block_size (length bytes) 0 bytes;
      })

  unfoldable pub or_else : Option Block → Option Block → Option Block
  or_else none o = o
  or_else (some c) o = some c

  -- `baseByIndex[i]`: the map keeps the last block with an index.
  unfoldable pub block_at : ℕ → List Block → Option Block
  unfolding or_else
  block_at i [] = none
  block_at i (b ∷ blocks) = or_else (block_at i blocks) (if b.index == i then some b else none)

  -- `have.Size == want.Size && bytes.Equal(have.Hash, want.Hash)`, for a block that is there.
  abbrev pub holds : Option Block → Block → Bool
  holds none want = false
  holds (some have) want = have.size == want.size && same have.hash want.hash

  -- The blocks of the target that the base does not have at their index.
  unfoldable pub plan_delta : List Block → List Block → List Block
  unfolding block_at
  plan_delta base [] = []
  plan_delta base (want ∷ target) =
      let rest = plan_delta base target in
      if holds (block_at want.index base) want then rest else want ∷ rest

  -- Equal sizes and hashes, block by block.
  unfoldable pub blocks_match : List Block → List Block → Bool
  blocks_match [] [] = true
  blocks_match [] (w ∷ want) = false
  blocks_match (g ∷ got) [] = false
  blocks_match (g ∷ got) (w ∷ want) =
      g.size == w.size && same g.hash w.hash && blocks_match got want
