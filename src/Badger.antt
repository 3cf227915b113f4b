-- ===== src/Badger.antt =====
-- internal/state/badger_store.go: the metadata of one folder in the Badger store, a database of keys
-- and values. A key is a kind and the parts in base64, so keys with other parts are other keys: the
-- keys of a kind and folder are a function of the parts that are left. A call is one transaction;
-- the errors of the database and of JSON are not modelled.
pub mod Agree
pub mod Index
use file_sync_engine.Prelude.{
  ℕ, String, Bool, true, false, not, ◌&&◌, ◌||◌, Option, none, some, List, [], ◌∷◌, ◌++◌, ◌==◌,
  str_eq, if◌then◌else◌,
}
use file_sync_engine.Metadata.{Codec, IndexedBlock, RenameHint, revision_after}
use file_sync_engine.Metadata.Changes.{or_zero}

-- The values under the keys of a kind, by the path in the key.
abbrev pub Keyed : Type 0 → Type 0
Keyed V = String → Option V

unfoldable pub set_key : {V : Type 0} → String → V → Keyed V → Keyed V
set_key path v keys p = if str_eq path p then some v else keys p

unfoldable pub delete_key : {V : Type 0} → String → Keyed V → Keyed V
delete_key path keys p = if str_eq path p then none else keys p

-- The same key of the block index.
abbrev pub same_block_key : IndexedBlock → IndexedBlock → Bool
same_block_key a b = a.size == b.size && str_eq a.hash b.hash && a.index == b.index

abbrev pub has_key : IndexedBlock → List IndexedBlock → Bool
has_key b [] = false
has_key b (c ∷ blocks) = same_block_key b c || has_key b blocks

-- The keys of the block index of a path without those of some blocks.
unfoldable pub delete_blocks : List IndexedBlock → List IndexedBlock → List IndexedBlock
delete_blocks gone [] = []
delete_blocks gone (b ∷ blocks) =
    let rest = delete_blocks gone blocks in if has_key b gone then rest else b ∷ rest

module _ (codec : Codec) where
  open codec use {Content, damaged, blocks_of}

  pub record BadgerFolder : Type 0 where
    pub manifests : Keyed Content
    pub revisions : Keyed ℕ
    pub history : String → ℕ → Option Content
    pub tombstones : Keyed ℕ
    pub rename_hints : Keyed RenameHint
    pub cursor : Option ℕ
    pub block_index : String → List IndexedBlock

  -- `badgerNextFolderRevision`
  unfoldable pub next_folder_revision : BadgerFolder → ℕ
  unfolding revision_after
  next_folder_revision b = revision_after (or_zero b.cursor)

  abbrev pub blocks_at : Option Content → List IndexedBlock
  blocks_at none = []
  blocks_at (some m) = blocks_of m

  -- `badgerDeleteManifestRecords`
  unfoldable pub delete_manifest_records : String → BadgerFolder → BadgerFolder
  unfolding delete_key delete_blocks
  delete_manifest_records path b = record b {
    manifests = delete_key path b.manifests;
    revisions = delete_key path b.revisions;
    block_index = λ p.
        if str_eq path p
        then delete_blocks (blocks_at (b.manifests path)) (b.block_index p)
        else b.block_index p;
  }

  -- The manifest, the revision and the history of a path.
  unfoldable pub set_manifest : String → ℕ → Content → BadgerFolder → BadgerFolder
  unfolding set_key
  set_manifest path rev m b = record b {
    manifests = set_key path m b.manifests;
    revisions = set_key path rev b.revisions;
    history = λ p r. if str_eq path p && rev == r then some m else b.history p r;
  }

  unfoldable pub index_blocks : String → List IndexedBlock → BadgerFolder → BadgerFolder
  index_blocks path blocks b = record b {
    block_index = λ p. if str_eq path p then blocks ++ b.block_index p else b.block_index p;
  }

  unfoldable pub badger_save : String → Content → BadgerFolder → BadgerFolder
  unfolding next_folder_revision delete_manifest_records set_manifest delete_key index_blocks
  badger_save path m b =
      let rev = next_folder_revision b in
      let kept = set_manifest path rev m (delete_manifest_records path b) in
      let alive = record kept { tombstones = delete_key path kept.tombstones } in
      record (index_blocks path (if damaged m then [] else blocks_of m) alive) { cursor = some rev }

  unfoldable pub badger_delete : String → BadgerFolder → BadgerFolder
  unfolding next_folder_revision delete_manifest_records set_key
  badger_delete path b =
      let rev = next_folder_revision b in
      let gone = delete_manifest_records path b in
      record gone { tombstones = set_key path rev gone.tombstones; cursor = some rev }

  unfoldable pub badger_moved : String → String → Content → BadgerFolder → BadgerFolder
  unfolding next_folder_revision delete_manifest_records set_manifest set_key index_blocks
  badger_moved from to m b =
      let rev = next_folder_revision b in
      let gone = delete_manifest_records to (delete_manifest_records from b) in
      let dead = record gone { tombstones = set_key from rev gone.tombstones } in
      let kept = set_manifest to rev m dead in
      let hinted = record kept {
        rename_hints =
            set_key from (record { from_path = from; to_path = to; revision = rev })
              kept.rename_hints;
      } in
      record (index_blocks to (blocks_of m) hinted) { cursor = some rev }

  unfoldable pub badger_move :
      String → String → String → Content → BadgerFolder → Option BadgerFolder
  unfolding badger_moved
  badger_move folder_id from to m b =
      if str_eq folder_id "" || str_eq from "" || str_eq to ""
      then none
      else some (badger_moved from to m b)
