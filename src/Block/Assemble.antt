-- ===== src/Block/Assemble.antt =====
-- internal/apply/assembler.go. The disk maps a path to its bytes. The staging file is the list of
-- bytes written so far; its name is fresh, so it is no path of the disk. `none` is an error: the
-- staging file is removed and the disk is as before. Errors of the disk itself are not modelled,
-- nor are the folders that `MkdirAll` makes; `before_rename` is the answer of the callback.
pub mod Content
use file_sync_engine.Prelude.{
  ℕ, zero, suc, ◌+◌, ◌-◌, String, ◌≡◌, Bool, true, false, ◌&&◌, Option, none, some, List, [], ◌∷◌,
  ◌++◌, ◌==◌, str_eq, if◌then◌else◌,
}
use file_sync_engine.Prelude.Lists.{length, take, drop}
use file_sync_engine.Block.Manifest.{Bytes, Hasher, Block, Manifest, build_manifest, blocks_match}

abbrev pub Disk : Type 0
Disk = String → Option Bytes

unfoldable zeros : ℕ → Bytes
zeros zero = []
zeros (suc n) = 0 ∷ zeros n

-- A write at an offset; a gap before it reads as zeros.
unfoldable pub write_at : ℕ → Bytes → Bytes → Bytes
unfolding zeros
write_at offset chunk file =
    take offset (file ++ zeros (offset - length file)) ++ chunk ++ drop (offset + length chunk) file

-- `os.Rename` over the target.
unfoldable pub replace_file : String → Bytes → Disk → Disk
replace_file path content disk p = if str_eq p path then some content else disk p

module _ (h : Hasher) where
  open h use {same}

  pub record BlockSource : Type 0 where
    pub path : String
    pub block : Block h

  -- The first block of a manifest with the key of `want`, its size and hash.
  unfoldable pub source_in : String → List (Block h) → Block h → Option (BlockSource)
  source_in path [] want = none
  source_in path (b ∷ blocks) want =
      let rest = source_in path blocks want in
      if b.size == want.size && same b.hash want.hash
      then some (record { path = path; block = b })
      else rest

  -- `indexSources(sources)[blockKey(want)]`: the first manifest that has such a block.
  unfoldable pub find_source : List (Manifest h) → Block h → Option (BlockSource)
  unfolding source_in
  find_source [] want = none
  find_source (m ∷ sources) want =
      let rest = find_source sources want in
      elim (source_in m.path m.blocks want) [ none ↦ rest | some s ↦ some s ]

  -- `io.CopyN` is an error where fewer bytes than the block has are left.
  unfoldable pub copy_block : Disk → Bytes → BlockSource → Block h → Option Bytes
  copy_block disk staged source want = elim (disk source.path) [
    | none ↦ none
    | some content ↦
        let chunk = take want.size (drop source.block.offset content) in
        if length chunk == want.size then some (write_at want.offset chunk staged) else none
  ]

  -- The loop over the blocks of the target.
  unfoldable pub copy_blocks : Disk → List (Manifest h) → List (Block h) → Bytes → Option Bytes
  unfolding copy_block find_source
  copy_blocks disk sources [] staged = some staged
  copy_blocks disk sources (want ∷ blocks) staged = elim (find_source sources want) [
    | none ↦ none
    | some source ↦ elim (copy_block disk staged source want) [
      | none ↦ none
      | some written ↦ copy_blocks disk sources blocks written
    ]
  ]

  unfoldable pub verify_manifest : Bytes → Manifest h → Bool
  verify_manifest staged want = elim (build_manifest h want.path want.block_size staged) [
    | none ↦ false
    | some got ↦
        got.size == want.size
        && length got.blocks == length want.blocks
        && blocks_match h got.blocks want.blocks
  ]

  -- `AssembleFromLocalBlocksBeforeRename`.
  unfoldable pub assemble : Disk → String → Manifest h → List (Manifest h) → Bool → Option Disk
  unfolding copy_blocks verify_manifest replace_file
  assemble disk target_path target sources before_rename =
      elim (copy_blocks disk sources target.blocks []) [
        | none ↦ none
        | some staged ↦
            if verify_manifest staged target
            then if before_rename then some (replace_file target_path staged disk) else none
            else none
      ]
