-- ===== src/Metadata/WellFormed.antt =====
-- Every operation on a folder keeps it well formed.
use file_sync_engine.Prelude.{
  ℕ, ◌+◌, ◌≤◌, ◌<◌, ◌≡◌, ◌^◌, subst, String, Option, some, [], ◌∷◌, arith, str_eq, Bool-cases, inl,
  inr,
}
use file_sync_engine.Prelude.Lists.{All, All-map}
use file_sync_engine.Prelude.Map.{
  Map, lookup, insert, erase, lookup-insert, lookup-erase, insert-Distinct, erase-Distinct,
}
use file_sync_engine.Metadata.{
  Codec, RenameHint, Folder, revision_after, save_manifest, delete_manifest, moved, move_manifest,
}
use file_sync_engine.Metadata.History.{IsFolder, revision_after_id}

-- Every value of the map is at most `bound`.
abbrev Bounded : ℕ → Map ℕ → Type 0
Bounded bound m = (p : String) (r : ℕ) → lookup p m ≡ some r → r ≤ bound

insert-Bounded :
    (k : String) (v low bound : ℕ) (m : Map ℕ)
    → Bounded low m
    → low ≤ bound
    → v ≤ bound
    → Bounded bound (insert k v m)
insert-Bounded k v low bound m h l u p r e = ground (arith, lookup-insert k p v m, e, h p r, l, u)

erase-Bounded :
    (k : String) (low bound : ℕ) (m : Map ℕ)
    → Bounded low m
    → low ≤ bound
    → Bounded bound (erase k m)
erase-Bounded k low bound m h l p r e = ground (arith, lookup-erase k p m, e, h p r, l)

hints_later :
    (low bound : ℕ) (hints : Map RenameHint)
    → low ≤ bound
    → All (λ (h : String × RenameHint). h.1.revision ≤ low) hints
    → All (λ (h : String × RenameHint). h.1.revision ≤ bound) hints
hints_later low bound hints l h =
    All-map (λ (e : String × RenameHint) b. omega (arith, b, l)) hints h

insert-hints :
    (k : String) (hint : RenameHint) (bound : ℕ) (hints : Map RenameHint)
    → hint.revision ≤ bound
    → All (λ (h : String × RenameHint). h.1.revision ≤ bound) hints
    → All (λ (h : String × RenameHint). h.1.revision ≤ bound) (insert k hint hints)
unfolding insert
insert-hints k hint bound [] b h = (b, tt)
insert-hints k hint bound ((j, old) ∷ hints) b h = elim (Bool-cases (str_eq j k)) [
  | inl e ↦ rw e (b, h.1)
  | inr e ↦ rw e (h.0, insert-hints k hint bound hints b h.1)
]

module _ (codec : Codec) where
  open codec use {Content}

  pub save_manifest-IsFolder :
      (p : String) (m : Content) (s : Folder codec)
      → s.cursor + 1 < 2 ^ 64
      → IsFolder codec s
      → IsFolder codec (save_manifest codec p m s)
  unfolding save_manifest
  save_manifest-IsFolder p m s b h =
      let rev = revision_after s.cursor in
      let up : s.cursor ≤ rev = omega (arith, revision_after_id codec s.cursor b) in
      record {
        files_once = insert-Distinct p m s.files h.files_once;
        revisions_once = insert-Distinct p rev s.revisions h.revisions_once;
        tombstones_once = erase-Distinct p s.tombstones h.tombstones_once;
        revisions_known =
            insert-Bounded p rev s.cursor rev s.revisions h.revisions_known up (omega arith);
        tombstones_known = erase-Bounded p s.cursor rev s.tombstones h.tombstones_known up;
        hints_known = hints_later s.cursor rev s.rename_hints up h.hints_known;
      }

  delete_manifest-IsFolder :
      (p : String) (s : Folder codec)
      → s.cursor + 1 < 2 ^ 64
      → IsFolder codec s
      → IsFolder codec (delete_manifest codec p s)
  unfolding delete_manifest
  delete_manifest-IsFolder p s b h =
      let rev = revision_after s.cursor in
      let up : s.cursor ≤ rev = omega (arith, revision_after_id codec s.cursor b) in
      record {
        files_once = erase-Distinct p s.files h.files_once;
        revisions_once = erase-Distinct p s.revisions h.revisions_once;
        tombstones_once = insert-Distinct p rev s.tombstones h.tombstones_once;
        revisions_known = erase-Bounded p s.cursor rev s.revisions h.revisions_known up;
        tombstones_known =
            insert-Bounded p rev s.cursor rev s.tombstones h.tombstones_known up (omega arith);
        hints_known = hints_later s.cursor rev s.rename_hints up h.hints_known;
      }

  pub moved-IsFolder :
      (p q : String) (m : Content) (s : Folder codec)
      → s.cursor + 1 < 2 ^ 64
      → IsFolder codec s
      → IsFolder codec (moved codec p q m s)
  unfolding moved
  moved-IsFolder p q m s b h =
      let rev = revision_after s.cursor in
      let up : s.cursor ≤ rev = omega (arith, revision_after_id codec s.cursor b) in
      record {
        files_once = insert-Distinct q m (erase p s.files) (erase-Distinct p s.files h.files_once);
        revisions_once =
            insert-Distinct q rev (erase p s.revisions)
              (erase-Distinct p s.revisions h.revisions_once);
        tombstones_once = insert-Distinct p rev s.tombstones h.tombstones_once;
        revisions_known =
            insert-Bounded q rev s.cursor rev (erase p s.revisions)
              (erase-Bounded p s.cursor s.cursor s.revisions h.revisions_known (omega arith)) up
              (omega arith);
        tombstones_known =
            insert-Bounded p rev s.cursor rev s.tombstones h.tombstones_known up (omega arith);
        hints_known =
            insert-hints p (record { from_path = p; to_path = q; revision = rev }) rev
              s.rename_hints (omega arith)
              (hints_later s.cursor rev s.rename_hints up h.hints_known);
      }

  -- The three changes of a folder.
  pub data FolderUpdate : Type 0 where
    saving : String → Content → FolderUpdate
    deleting : String → FolderUpdate
    moving : String → String → Content → FolderUpdate

  abbrev pub changed : FolderUpdate → Folder codec → Option (Folder codec)
  changed (saving p m) s = some (save_manifest codec p m s)
  changed (deleting p) s = some (delete_manifest codec p s)
  changed (moving p q m) s = move_manifest codec p q m s

  -- Every change that is not refused keeps a folder well formed: each path stands once among the
  -- manifests, the revisions and the tombstones, and no revision, tombstone or rename is above the
  -- cursor. Condition: the revisions stay below 2^64.
  pub changed-IsFolder :
      (change : FolderUpdate) (s after : Folder codec)
      → s.cursor + 1 < 2 ^ 64
      → IsFolder codec s
      → changed change s ≡ some after
      → IsFolder codec after
  unfolding move_manifest
  changed-IsFolder (saving p m) s after b h e =
      subst (IsFolder codec) (ground (arith, e)) (save_manifest-IsFolder p m s b h)
  changed-IsFolder (deleting p) s after b h e =
      subst (IsFolder codec) (ground (arith, e)) (delete_manifest-IsFolder p s b h)
  changed-IsFolder (moving p q m) s after b h e =
      subst (IsFolder codec) (ground (arith, e)) (moved-IsFolder p q m s b h)
