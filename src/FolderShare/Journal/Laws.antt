-- ===== src/FolderShare/Journal/Laws.antt =====
-- What `noteLocalFile` and `markDeleted` leave at each path of the journal.
use file_sync_engine.Prelude.{
  String, ◌≡◌, refl, not, ◌&&◌, Option, none, some, arith, if◌then◌else◌, str_eq, eq_iff,
}
use file_sync_engine.Prelude.Lists.{is_empty}
use file_sync_engine.Prelude.Map.{Map, lookup, lookup-insert, Distinct, insert-Distinct}
use file_sync_engine.FolderShare.Journal.{
  Entry, Scanned, new_entry, same_content, tombstone, note_current, note_local_file, delete_current,
  mark_deleted,
}

-- The entry at a path after the scan found `file` there.
abbrev pub noted : String → String → Scanned → Option Entry → Entry
noted rel origin file none = new_entry rel origin file none
noted rel origin file (some current) =
    if same_content (some current) file.sha
    then (if is_empty current.blocks && not (is_empty file.blocks)
        then record current { blocks = file.blocks }
        else current)
    else new_entry rel origin file (some current)

-- The entry at a path after the scan did not find it.
abbrev pub gone : String → Option Entry → Option Entry
gone origin none = none
gone origin (some current) = some (if current.deleted then current else tombstone origin current)

module _ (m : Map Entry) (rel origin : String) where
  note_current_at :
      (file : Scanned) (p : String) (o : Option Entry)
      → lookup rel m ≡ o
      → lookup p (note_current m rel origin file o)
        ≡ (if str_eq rel p then some (noted rel origin file o) else lookup p m)
  unfolding note_current
  note_current_at file p none e = lookup-insert rel p _ m
  note_current_at file p (some c) e = ground (
    arith,
    eq_iff rel p,
    lookup-insert rel p (record c { blocks = file.blocks }) m,
    lookup-insert rel p (new_entry rel origin file (some c)) m,
  )

  -- A scan changes the entry of its own path only.
  pub lookup-note_local_file :
      (file : Scanned) (p : String)
      → lookup p (note_local_file m rel origin file)
        ≡ (if str_eq rel p then some (noted rel origin file (lookup rel m)) else lookup p m)
  unfolding note_local_file
  lookup-note_local_file file p = note_current_at file p (lookup rel m) refl

  delete_current_at :
      (p : String) (o : Option Entry)
      → lookup rel m ≡ o
      → lookup p (delete_current m rel origin o)
        ≡ (if str_eq rel p then gone origin o else lookup p m)
  unfolding delete_current
  delete_current_at p none e = ground (arith, eq_iff rel p)
  delete_current_at p (some c) e =
      ground (arith, eq_iff rel p, lookup-insert rel p (tombstone origin c) m)

  pub lookup-mark_deleted :
      (p : String)
      → lookup p (mark_deleted m rel origin)
        ≡ (if str_eq rel p then gone origin (lookup rel m) else lookup p m)
  unfolding mark_deleted
  lookup-mark_deleted p = delete_current_at p (lookup rel m) refl

  note_current-Distinct :
      (file : Scanned) (o : Option Entry) → Distinct m → Distinct (note_current m rel origin file o)
  unfolding note_current
  note_current-Distinct file none d = insert-Distinct rel _ m d
  note_current-Distinct file (some c) d = ground (
    arith,
    insert-Distinct rel (record c { blocks = file.blocks }) m,
    insert-Distinct rel (new_entry rel origin file (some c)) m,
  )

  pub note_local_file-Distinct :
      (file : Scanned) → Distinct m → Distinct (note_local_file m rel origin file)
  unfolding note_local_file
  note_local_file-Distinct file d = note_current-Distinct file (lookup rel m) d

  delete_current-Distinct :
      (o : Option Entry) → Distinct m → Distinct (delete_current m rel origin o)
  unfolding delete_current
  delete_current-Distinct none d = d
  delete_current-Distinct (some c) d = ground (arith, insert-Distinct rel (tombstone origin c) m)

  pub mark_deleted-Distinct : Distinct m → Distinct (mark_deleted m rel origin)
  unfolding mark_deleted
  mark_deleted-Distinct d = delete_current-Distinct (lookup rel m) d
