-- ===== src/FolderShare/Scan/Absorb.antt =====
-- `absorbLocal` path by path: what the journal holds afterwards depends only on what the scan and
-- the journal say of the path, whatever the order in which Go ranges over its maps.
use file_sync_engine.Prelude.{
  String, ◌≡◌, refl, not, ◌&&◌, Option, none, some, [], ◌∷◌, arith, if◌then◌else◌, str_eq, eq_iff,
}
use file_sync_engine.Prelude.Map.{Map, lookup, Distinct, is_some}
use file_sync_engine.FolderShare.Journal.{Entry, Scanned, note_local_file}
use file_sync_engine.FolderShare.Journal.Laws.{
  noted, gone, lookup-note_local_file, lookup-mark_deleted, note_local_file-Distinct,
  mark_deleted-Distinct,
}
use file_sync_engine.FolderShare.Scan.{note_all, mark_absent, mark_missing, absorb_seen}

-- What a scan leaves at a path.
abbrev pub absorbed : String → String → Option Scanned → Option Entry → Option Entry
absorbed path origin (some file) current = some (noted path origin file current)
absorbed path origin none current = gone origin current

-- After the first loop: a path that was seen is noted, any other stays.
abbrev after_notes : String → String → Option Scanned → Option Entry → Option Entry
after_notes path origin (some file) current = some (noted path origin file current)
after_notes path origin none current = current

lookup-note_all :
    (origin : String) (seen : Map Scanned) (m : Map Entry) (p : String)
    → Distinct seen
    → lookup p (note_all origin seen m) ≡ after_notes p origin (lookup p seen) (lookup p m)
unfolding note_all lookup
lookup-note_all origin [] m p d = refl
lookup-note_all origin ((q, file) ∷ seen) m p d = ground (
  arith,
  eq_iff q p,
  lookup-note_all origin seen (note_local_file m q origin file) p,
  lookup-note_local_file m q origin file p,
)

note_all-Distinct :
    (origin : String) (seen : Map Scanned) (m : Map Entry)
    → Distinct m
    → Distinct (note_all origin seen m)
unfolding note_all
note_all-Distinct origin [] m d = d
note_all-Distinct origin ((q, file) ∷ seen) m d =
    note_all-Distinct origin seen _ (note_local_file-Distinct m q origin file d)

-- After the second loop, given what the loop's own entries and the scan say of the path.
abbrev after_sweep : String → Option Entry → Option Scanned → Option Entry → Option Entry
after_sweep origin none file current = current
after_sweep origin (some entry) (some file) current = current
after_sweep origin (some entry) none current =
    if entry.deleted then current else gone origin current

mark_absent_at :
    (m : Map Entry) (path origin : String) (o : Option Scanned) (p : String)
    → lookup p (mark_absent m path origin o)
      ≡ (if str_eq path p && not (is_some o) then gone origin (lookup path m) else lookup p m)
unfolding mark_absent
mark_absent_at m path origin none p = ground (arith, lookup-mark_deleted m path origin p)
mark_absent_at m path origin (some file) p = ground arith

lookup-mark_missing :
    (origin : String) (seen : Map Scanned) (entries m : Map Entry) (p : String)
    → Distinct entries
    → lookup p (mark_missing origin seen entries m)
      ≡ after_sweep origin (lookup p entries) (lookup p seen) (lookup p m)
unfolding mark_missing lookup
lookup-mark_missing origin seen [] m p d = refl
lookup-mark_missing origin seen ((q, c) ∷ entries) m p d = ground (
  arith,
  eq_iff q p,
  lookup-mark_missing origin seen entries
      (if c.deleted then m else mark_absent m q origin (lookup q seen)) p,
  mark_absent_at m q origin (lookup q seen) p,
)

absorbed_of_parts :
    (path origin : String) (file : Option Scanned) (current : Option Entry)
    → after_sweep origin
        (after_notes path origin file current)
        file
        (after_notes path origin file current)
      ≡ absorbed path origin file current
absorbed_of_parts path origin (some file) current = ground arith
absorbed_of_parts path origin none none = refl
absorbed_of_parts path origin none (some c) = ground arith

-- After a scan of the whole folder, the entry of every path is the one that its old entry and the
-- file found there determine, for scan and journal maps in which each path stands once.
pub lookup-absorb_seen :
    (origin : String) (seen : Map Scanned) (m : Map Entry) (p : String)
    → Distinct seen
    → Distinct m
    → lookup p (absorb_seen origin seen m) ≡ absorbed p origin (lookup p seen) (lookup p m)
unfolding absorb_seen
lookup-absorb_seen origin seen m p ds dm =
    simp
      (
        lookup-mark_missing origin seen (note_all origin seen m) (note_all origin seen m) p
            (note_all-Distinct origin seen m dm),
        lookup-note_all origin seen m p ds,
      )
      (absorbed_of_parts p origin (lookup p seen) (lookup p m))

mark_absent-Distinct :
    (m : Map Entry) (path origin : String) (o : Option Scanned)
    → Distinct m
    → Distinct (mark_absent m path origin o)
unfolding mark_absent
mark_absent-Distinct m path origin none d = mark_deleted-Distinct m path origin d
mark_absent-Distinct m path origin (some file) d = d

mark_missing-Distinct :
    (origin : String) (seen : Map Scanned) (entries m : Map Entry)
    → Distinct m
    → Distinct (mark_missing origin seen entries m)
unfolding mark_missing
mark_missing-Distinct origin seen [] m d = d
mark_missing-Distinct origin seen ((q, c) ∷ entries) m d =
    mark_missing-Distinct origin seen entries _
      (ground (arith, mark_absent-Distinct m q origin (lookup q seen) d))

pub absorb_seen-Distinct :
    (origin : String) (seen : Map Scanned) (m : Map Entry)
    → Distinct m
    → Distinct (absorb_seen origin seen m)
unfolding absorb_seen
absorb_seen-Distinct origin seen m d =
    mark_missing-Distinct origin seen (note_all origin seen m) _ (note_all-Distinct origin seen m d)
