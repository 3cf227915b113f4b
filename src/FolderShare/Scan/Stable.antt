-- ===== src/FolderShare/Scan/Stable.antt =====
-- What a scan does to revisions: nothing where the content is unchanged, and a step up elsewhere.
use file_sync_engine.Prelude.{
  String, ◌≡◌, refl, ◌⊎◌, Option, none, some, arith, if◌then◌else◌, eq_iff, ap, sym, ◌∙◌,
}
use file_sync_engine.Prelude.Int.{◌<ℤ◌, CanRise, succ64-gt}
use text.Mathlib.TextPositions.{eq_refl}
use file_sync_engine.Prelude.Map.{Map, lookup, Distinct}
use file_sync_engine.FolderShare.Journal.{Entry, Scanned, next_revision}
use file_sync_engine.FolderShare.Scan.{absorb_seen}
use file_sync_engine.FolderShare.Scan.Absorb.{absorbed, lookup-absorb_seen, absorb_seen-Distinct}

absorbed_idem :
    (path origin : String) (file : Option Scanned) (current : Option Entry)
    → absorbed path origin file (absorbed path origin file current)
      ≡ absorbed path origin file current
absorbed_idem path origin none none = refl
absorbed_idem path origin none (some c) = ground arith
absorbed_idem path origin (some file) none = ground (arith, eq_refl file.sha)
absorbed_idem path origin (some file) (some c) = ground (arith, eq_refl file.sha)

-- A second scan of an unchanged folder leaves the entry of every path as the first one left it,
-- for scan and journal maps in which each path stands once.
pub absorb_seen_idem :
    (origin : String) (seen : Map Scanned) (m : Map Entry) (p : String)
    → Distinct seen
    → Distinct m
    → lookup p (absorb_seen origin seen (absorb_seen origin seen m))
      ≡ lookup p (absorb_seen origin seen m)
absorb_seen_idem origin seen m p ds dm =
    simp
      (
        lookup-absorb_seen origin seen (absorb_seen origin seen m) p ds
            (absorb_seen-Distinct origin seen m dm),
        lookup-absorb_seen origin seen m p ds dm,
      )
      (absorbed_idem p origin (lookup p seen) (lookup p m))

-- The hash of the file that the journal has at a path, if it has one.
abbrev pub live_hash : Option Entry → Option String
live_hash none = none
live_hash (some e) = if e.deleted then none else some e.sha256

abbrev pub seen_hash : Option Scanned → Option String
seen_hash none = none
seen_hash (some file) = some file.sha

next_revision-gt : (c : Entry) → CanRise c.revision → c.revision <ℤ next_revision (some c)
next_revision-gt c h = ground (arith, succ64-gt c.revision)

abbrev pub SameContent : Entry → Entry → Type 0
SameContent c e = (c.sha256 ≡ e.sha256) × (c.deleted ≡ e.deleted)

absorbed_revision :
    (path origin : String) (file : Option Scanned) (c e : Entry)
    → CanRise c.revision
    → absorbed path origin file (some c) ≡ some e
    → (SameContent c e × (c.revision ≡ e.revision))
      ⊎ (¬ SameContent c e × (c.revision <ℤ e.revision))
absorbed_revision path origin none c e h q = ground (arith, succ64-gt c.revision)
absorbed_revision path origin (some file) c e h q =
    ground (arith, eq_iff c.sha256 file.sha, next_revision-gt c h)

module _ (origin : String) (seen : Map Scanned) (m : Map Entry) (p : String) (ds : Distinct seen)
    (dm : Distinct m) where
  -- A scan raises the revision of a journaled path exactly when the hash or the deletion mark
  -- changed, and keeps it otherwise, provided that the old revision is below the largest int64 and
  -- that each path stands once in the scan and in the journal.
  pub absorb_seen-revision :
      (c e : Entry)
      → CanRise c.revision
      → lookup p m ≡ some c
      → lookup p (absorb_seen origin seen m) ≡ some e
      → SameContent c e × (c.revision ≡ e.revision) ⊎ ¬ SameContent c e × (c.revision <ℤ e.revision)
  absorb_seen-revision c e h old new = absorbed_revision p origin (lookup p seen) c e h (
      ap (absorbed p origin (lookup p seen)) (sym old)
      ∙ sym (lookup-absorb_seen origin seen m p ds dm)
      ∙ new)

  absorbed-live_hash :
      (file : Option Scanned) (current : Option Entry)
      → live_hash (absorbed p origin file current) ≡ seen_hash file
  absorbed-live_hash none none = refl
  absorbed-live_hash none (some c) = ground arith
  absorbed-live_hash (some file) none = refl
  absorbed-live_hash (some file) (some c) = ground (arith, eq_iff c.sha256 file.sha)

  -- After a scan the journal is live at exactly the paths that the scan saw, with their hashes,
  -- for scan and journal maps in which each path stands once.
  pub absorb_seen-live_hash :
      live_hash (lookup p (absorb_seen origin seen m)) ≡ seen_hash (lookup p seen)
  absorb_seen-live_hash =
      rw (lookup-absorb_seen origin seen m p ds dm)
        (absorbed-live_hash (lookup p seen) (lookup p m))
