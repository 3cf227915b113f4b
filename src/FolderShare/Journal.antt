-- ===== src/FolderShare/Journal.antt =====
-- internal/foldershare/sync.go: journal entries, and the two ways in which a local change enters
-- the journal. `byPath` is a map from paths to entries.
pub mod Laws
use file_sync_engine.Prelude.{
  String, ℕ, ◌≡◌, refl, Bool, true, false, not, ◌&&◌, Option, none, some, List, [], ◌∷◌, arith,
  if◌then◌else◌, str_eq,
}
use file_sync_engine.Prelude.Int.{ℤ, pos, leb_ℤ, add64}
use file_sync_engine.Prelude.Lists.{is_empty}
use file_sync_engine.Prelude.Map.{Map, lookup, insert}

-- One block in a file's metadata. The numbers are read from JSON, so they may have any sign.
pub record FileBlock : Type 0 where
  pub index : ℤ
  pub offset : ℤ
  pub size : ℤ
  pub hash : String

pub record Entry : Type 0 where
  pub path : String
  pub sha256 : String
  pub size : ℤ
  pub deleted : Bool
  pub revision : ℤ
  pub origin : String
  pub blocks : List FileBlock
  pub cursor : ℤ

-- What a scan found at a path.
pub record Scanned : Type 0 where
  pub sha : String
  pub size : ℤ
  pub blocks : List FileBlock

-- `revision := 1; if ok && current.Revision >= revision { revision = current.Revision + 1 }`
abbrev pub next_revision : Option Entry → ℤ
next_revision none = pos 1
next_revision (some current) =
    if leb_ℤ (pos 1) current.revision then add64 current.revision (pos 1) else pos 1

-- `Entry{Path: rel, SHA256: hash, ...}`: the fields not named are zero.
abbrev pub new_entry : String → String → Scanned → Option Entry → Entry
new_entry rel origin file current = record {
  path = rel;
  sha256 = file.sha;
  size = file.size;
  deleted = false;
  revision = next_revision current;
  origin = origin;
  blocks = file.blocks;
  cursor = pos 0;
}

-- The test `ok && !current.Deleted && current.SHA256 == hash`.
abbrev pub same_content : Option Entry → String → Bool
same_content none hash = false
same_content (some current) hash = not current.deleted && str_eq current.sha256 hash

note_current : Map Entry → String → String → Scanned → Option Entry → Map Entry
note_current by_path rel origin file none = insert rel (new_entry rel origin file none) by_path
note_current by_path rel origin file (some current) =
    if same_content (some current) file.sha
    then (if is_empty current.blocks && not (is_empty file.blocks)
        then insert rel (record current { blocks = file.blocks }) by_path
        else by_path)
    else insert rel (new_entry rel origin file (some current)) by_path

unfoldable pub note_local_file : Map Entry → String → String → Scanned → Map Entry
unfolding note_current
note_local_file by_path rel origin file = note_current by_path rel origin file (lookup rel by_path)

-- The entry that `markDeleted` writes over a live one.
abbrev pub tombstone : String → Entry → Entry
tombstone origin current = record current {
  deleted = true;
  sha256 = "";
  size = pos 0;
  blocks = [];
  revision = add64 current.revision (pos 1);
  origin = origin;
}

delete_current : Map Entry → String → String → Option Entry → Map Entry
delete_current by_path rel origin none = by_path
delete_current by_path rel origin (some current) =
    if current.deleted then by_path else insert rel (tombstone origin current) by_path

unfoldable pub mark_deleted : Map Entry → String → String → Map Entry
unfolding delete_current
mark_deleted by_path rel origin = delete_current by_path rel origin (lookup rel by_path)
