-- ===== src/Metadata.antt =====
-- internal/state/json_store.go: the metadata of one folder in the JSON store, which are the manifest,
-- the revision and the tombstone of each path, the history of the manifests and the hints of
-- renames. The store has a map for each, keyed by the folder first; a folder here is what those
-- maps hold for its id, and a map that is nil is empty. Loading and saving the snapshot, and their
-- errors, are not modelled. The manifests are a parameter, and so is the
-- digest of the items of a summary, which is SHA-256 over their text. A revision is a uint64.
pub mod Changes
pub mod Peer
pub mod History
pub mod News
pub mod View
pub mod Mirror
pub mod CatchUp
pub mod WellFormed
pub mod Renames
pub mod Compaction
pub mod Refresh
pub mod Asked
use file_sync_engine.Prelude.{
  ℕ, ◌+◌, ◌%◌, ◌^◌, String, Bool, ◌||◌, Option, none, some, List, [], ◌∷◌, str_eq, if◌then◌else◌,
}
use file_sync_engine.Prelude.Map.{Map, lookup, insert, erase}

-- A line of a summary: a path that is deleted, or a file.
pub data Item (M : Type 0) : Type 0 where
  deleted : String → ℕ → Item M
  file : String → ℕ → M → Item M

-- A block as the block index has it.
pub record IndexedBlock : Type 0 where
  pub size : ℕ
  pub hash : String
  pub index : ℕ

-- `Content` is `block.Manifest` and `empty` its zero value.
pub record Codec : Type 1 where
  pub Content : Type 0
  pub empty : Content
  pub damaged : Content → Bool
  pub blocks_of : Content → List IndexedBlock
  pub digest : List (Item Content) → String

pub record RenameHint : Type 0 where
  pub from_path : String
  pub to_path : String
  pub revision : ℕ

pub record CompactionSnapshot : Type 0 where
  pub folder_id : String
  pub cursor : ℕ
  pub state_hash : String
  pub files : ℕ
  pub tombstones : ℕ
  pub safe_cursor : ℕ
  pub compacted_tombstones : ℕ

unfoldable pub revision_after : ℕ → ℕ
revision_after cursor = (cursor + 1) % 2 ^ 64

module _ (codec : Codec) where
  open codec use {Content}

  pub record Folder : Type 0 where
    pub folder_id : String
    pub files : Map Content
    pub revisions : Map ℕ
    pub history : Map (List (ℕ × Content))
    pub tombstones : Map ℕ
    pub rename_hints : Map RenameHint
    pub cursor : ℕ
    pub compactions : List CompactionSnapshot

  abbrev pub past_or_nil : Option (List (ℕ × Content)) → List (ℕ × Content)
  past_or_nil none = []
  past_or_nil (some past) = past

  -- `snap.ManifestHistory[folderID][path][rev] = manifest`: the first entry of a revision counts.
  unfoldable pub remember :
      String → ℕ → Content → Map (List (ℕ × Content)) → Map (List (ℕ × Content))
  unfolding lookup insert
  remember path rev m history = insert path ((rev, m) ∷ past_or_nil (lookup path history)) history

  unfoldable pub save_manifest : String → Content → Folder → Folder
  unfolding revision_after insert erase remember
  save_manifest path m s =
      let rev = revision_after s.cursor in
      record s {
        cursor = rev;
        files = insert path m s.files;
        revisions = insert path rev s.revisions;
        history = remember path rev m s.history;
        tombstones = erase path s.tombstones;
      }

  unfoldable pub delete_manifest : String → Folder → Folder
  unfolding revision_after insert erase
  delete_manifest path s =
      let rev = revision_after s.cursor in
      record s {
        cursor = rev;
        files = erase path s.files;
        revisions = erase path s.revisions;
        tombstones = insert path rev s.tombstones;
      }

  unfoldable pub moved : String → String → Content → Folder → Folder
  unfolding revision_after insert erase remember
  moved from to m s =
      let rev = revision_after s.cursor in
      record s {
        cursor = rev;
        files = insert to m (erase from s.files);
        revisions = insert to rev (erase from s.revisions);
        tombstones = insert from rev s.tombstones;
        history = remember to rev m s.history;
        rename_hints =
            insert from (record { from_path = from; to_path = to; revision = rev }) s.rename_hints;
      }

  -- `none` is the error for an id or a path that is empty.
  unfoldable pub move_manifest : String → String → Content → Folder → Option Folder
  unfolding moved
  move_manifest from to m s =
      if str_eq s.folder_id "" || str_eq from "" || str_eq to ""
      then none
      else some (moved from to m s)
