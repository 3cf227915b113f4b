-- ===== src/FolderShare/Scan.antt =====
-- internal/foldershare/sync.go: `scanFolder`, `absorbLocal` and `absorbPaths`, which bring the
-- state of the disk into the journal. The disk is an argument: what the walk meets, in its order,
-- and what `os.Stat` says of a path.
pub mod Absorb
pub mod Stable
use file_sync_engine.Prelude.{
  String, Bool, true, false, not, ◌||◌, Option, none, some, List, [], ◌∷◌, if◌then◌else◌,
}
use file_sync_engine.Prelude.Map.{Map, lookup, insert}
use file_sync_engine.Prelude.Text.{has_prefix, contains}
use file_sync_engine.Paths.Lexical.{is_abs, rel_path}
use file_sync_engine.Paths.Guards.{safe_rel, safe_join}
use file_sync_engine.FolderShare.Journal.{Entry, Scanned, note_local_file, mark_deleted}

-- A regular file of the walk: its path below the root, its last element, and what `InspectFile`
-- returns (`none` is an error).
pub record WalkedFile : Type 0 where
  pub rel : String
  pub base : String
  pub inspected : Option Scanned

-- The files that the walk passes over: the engine's own temporary files, and unsafe names.
unfoldable pub skipped : WalkedFile → Bool
skipped file =
    not (safe_rel file.rel) || has_prefix file.base ".fse-" || contains file.base ".fse-sync-"

-- The loop of `filepath.Walk`: the first file that cannot be read ends it.
unfoldable pub scan_walk : Map Scanned → List WalkedFile → Option (Map Scanned)
scan_walk out [] = some out
scan_walk out (file ∷ rest) = elim (skipped file) [
  | true ↦ scan_walk out rest
  | false ↦ elim file.inspected [
    | none ↦ none
    | some found ↦ scan_walk (insert file.rel found out) rest
  ]
]

-- The first loop of `absorbLocal`: every file seen is noted.
unfoldable pub note_all : String → Map Scanned → Map Entry → Map Entry
note_all origin [] by_path = by_path
note_all origin ((path, file) ∷ seen) by_path =
    note_all origin seen (note_local_file by_path path origin file)

mark_absent : Map Entry → String → String → Option Scanned → Map Entry
mark_absent by_path path origin none = mark_deleted by_path path origin
mark_absent by_path path origin (some file) = by_path

-- The second loop, over the entries as the range statement yields them: a live path that was not
-- seen is deleted.
unfoldable pub mark_missing : String → Map Scanned → Map Entry → Map Entry → Map Entry
unfolding mark_absent
mark_missing origin seen [] by_path = by_path
mark_missing origin seen ((path, current) ∷ entries) by_path =
    mark_missing origin seen entries
      (if current.deleted then by_path else mark_absent by_path path origin (lookup path seen))

unfoldable pub absorb_seen : String → Map Scanned → Map Entry → Map Entry
unfolding note_all mark_missing
absorb_seen origin seen by_path =
    let noted = note_all origin seen by_path in mark_missing origin seen noted noted

-- `none` is the error of the scan; the journal is then as it was.
unfoldable pub absorb_local : List WalkedFile → String → Map Entry → Option (Map Entry)
unfolding absorb_seen scan_walk
absorb_local walk origin by_path = elim (scan_walk [] walk) [
  | none ↦ none
  | some seen ↦ some (absorb_seen origin seen by_path)
]

-- What `os.Stat` and `InspectFile` say of a path that an event named.
pub data Stat : Type 0 where
  missing unreadable directory : Stat
  regular : Option Scanned → Stat

absorb_stat : Map Entry → String → String → Stat → Option (Map Entry)
absorb_stat by_path rel origin missing = some (mark_deleted by_path rel origin)
absorb_stat by_path rel origin unreadable = some by_path
absorb_stat by_path rel origin directory = some by_path
absorb_stat by_path rel origin (regular none) = none
absorb_stat by_path rel origin (regular (some file)) =
    some (note_local_file by_path rel origin file)

absorb_target : (String → Stat) → Map Entry → String → String → Option String → Option (Map Entry)
unfolding absorb_stat
absorb_target stat by_path rel origin none = some by_path
absorb_target stat by_path rel origin (some target) = absorb_stat by_path rel origin (stat target)

-- One event: an absolute path is taken relative to the root, and unsafe paths are passed over.
unfoldable pub absorb_path :
    (String → Stat) → String → String → Map Entry → String → Option (Map Entry)
unfolding absorb_target
absorb_path stat root origin by_path path =
    elim (if is_abs path then rel_path root path else some path) [
      | none ↦ some by_path
      | some rel ↦
          if not (safe_rel rel)
          then some by_path
          else absorb_target stat by_path rel origin (safe_join root rel)
    ]

-- A file that cannot be hashed ends the loop with its error.
unfoldable pub absorb_paths :
    (String → Stat) → String → String → Map Entry → List String → Option (Map Entry)
unfolding absorb_path
absorb_paths stat root origin by_path [] = some by_path
absorb_paths stat root origin by_path (path ∷ paths) =
    elim (absorb_path stat root origin by_path path) [
      | none ↦ none
      | some next ↦ absorb_paths stat root origin next paths
    ]
