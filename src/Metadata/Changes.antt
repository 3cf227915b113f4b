-- ===== src/Metadata/Changes.antt =====
-- internal/state/json_store.go: what a folder tells a peer that knows it up to a cursor.
use file_sync_engine.Prelude.{
  ℕ, String, Bool, false, ◌&&◌, ◌||◌, Option, none, some, List, [], ◌∷◌, ◌++◌, map, ltb, leb, ◌==◌,
  str_eq, if◌then◌else◌,
}
use file_sync_engine.Prelude.Lists.{length, take}
use file_sync_engine.Prelude.Map.{Map, lookup, insert, erase}
use file_sync_engine.Prelude.Sort.{sort_stable}
use file_sync_engine.Prelude.Text.{str_lt}
use file_sync_engine.Prelude.Canonical.{by_key}
use file_sync_engine.Metadata.{Item, deleted, file, Codec, RenameHint, CompactionSnapshot, Folder}

pub data ChangeKind : Type 0 where
  upsert_change delete_change move_change : ChangeKind

pub record FolderSummary : Type 0 where
  pub folder_id : String
  pub cursor : ℕ
  pub files : ℕ
  pub tombstones : ℕ
  pub state_hash : String

abbrev pub or_zero : Option ℕ → ℕ
or_zero none = 0
or_zero (some n) = n

-- What the loop over the compaction snapshots has found: the latest safe cursor above the peer's.
unfoldable pub compacted_since :
    ℕ → Option CompactionSnapshot → List CompactionSnapshot → Option CompactionSnapshot
compacted_since cursor latest [] = latest
compacted_since cursor latest (s ∷ rest) =
    compacted_since cursor
      (if s.compacted_tombstones == 0 || leb s.safe_cursor cursor then latest else elim latest [
        | none ↦ some s
        | some found ↦ if ltb found.safe_cursor s.safe_cursor then some s else some found
      ])
      rest

-- `renameHintForDestination`
unfoldable pub hint_to : Map RenameHint → String → ℕ → Option RenameHint
hint_to [] to rev = none
hint_to ((from, hint) ∷ hints) to rev =
    if str_eq hint.to_path to && hint.revision == rev then some hint else hint_to hints to rev

abbrev pub renamed_at : ℕ → Option RenameHint → Bool
renamed_at rev none = false
renamed_at rev (some hint) = hint.revision == rev

-- A tombstone that a move made.
unfoldable pub is_renamed : Map RenameHint → String → ℕ → Bool
unfolding lookup
is_renamed hints rel rev = renamed_at rev (lookup rel hints)

unfoldable pub up_to : ℕ → Map ℕ → Map ℕ
up_to cursor [] = []
up_to cursor ((rel, rev) ∷ rest) =
    let others = up_to cursor rest in if leb rev cursor then (rel, rev) ∷ others else others

module _ (codec : Codec) where
  open codec use {Content, empty, digest}

  pub record FolderChange : Type 0 where
    pub kind : ChangeKind
    pub from_path : String
    pub path : String
    pub revision : ℕ
    pub manifest : Option Content

  pub record FolderChanges : Type 0 where
    pub folder_id : String
    pub from_cursor : ℕ
    pub to_cursor : ℕ
    pub state_hash : String
    pub changes : List FolderChange

  unfoldable pub file_items : Map ℕ → Map Content → List (Item Content)
  unfolding lookup
  file_items revisions [] = []
  file_items revisions ((rel, m) ∷ rest) =
      file rel (or_zero (lookup rel revisions)) m ∷ file_items revisions rest

  unfoldable pub deleted_items : Map ℕ → List (Item Content)
  deleted_items [] = []
  deleted_items ((rel, rev) ∷ rest) = deleted rel rev ∷ deleted_items rest

  -- The tagged paths in order: "d" comes before "f", and then the paths.
  unfoldable pub summary_items : Map Content → Map ℕ → Map ℕ → List (Item Content)
  unfolding file_items deleted_items
  summary_items files revisions tombstones =
      deleted_items (sort_stable by_key tombstones)
      ++ file_items revisions (sort_stable by_key files)

  unfoldable pub summary_of : String → Map Content → Map ℕ → Map ℕ → ℕ → FolderSummary
  unfolding summary_items
  summary_of folder_id files revisions tombstones cursor = record {
    folder_id = folder_id;
    cursor = cursor;
    files = length files;
    tombstones = length tombstones;
    state_hash = digest (summary_items files revisions tombstones);
  }

  unfoldable pub folder_summary : Folder codec → FolderSummary
  unfolding summary_of
  folder_summary s = summary_of s.folder_id s.files s.revisions s.tombstones s.cursor

  -- The loop over the history of a path: the revision that is selected, 0 at first, and its
  -- manifest.
  unfoldable pub select : ℕ → ℕ × Content → List (ℕ × Content) → ℕ × Content
  select cursor found [] = found
  select cursor found (past ∷ rest) =
      select cursor (if leb past.0 cursor && leb found.0 past.0 then past else found) rest

  unfoldable pub from_history : ℕ → Map (List (ℕ × Content)) → Map (ℕ × Content)
  unfolding select insert
  from_history cursor [] = []
  from_history cursor ((rel, past) ∷ rest) =
      let found = select cursor (0, empty) past in
      let others = from_history cursor rest in
      if found.0 == 0 then others else insert rel found others

  abbrev pub or_empty : Option Content → Content
  or_empty none = empty
  or_empty (some m) = m

  unfoldable pub manifest_of : Map Content → String → Content
  unfolding lookup
  manifest_of files rel = or_empty (lookup rel files)

  unfoldable pub with_current : ℕ → Map Content → Map ℕ → Map (ℕ × Content) → Map (ℕ × Content)
  unfolding lookup insert manifest_of
  with_current cursor files [] out = out
  with_current cursor files ((rel, rev) ∷ rest) out = with_current cursor files rest (
      if leb rev cursor
      then elim (lookup rel out) [
        | none ↦ insert rel (rev, manifest_of files rel) out
        | some found ↦ out
      ]
      else out)

  unfoldable pub without_deleted : ℕ → Map ℕ → Map (ℕ × Content) → Map (ℕ × Content)
  unfolding erase
  without_deleted cursor [] out = out
  without_deleted cursor ((rel, rev) ∷ rest) out =
      without_deleted cursor rest (if leb rev cursor then erase rel out else out)

  -- `manifestsAtCursorWithRevisions`: the revisions and manifests of the paths.
  unfoldable pub manifests_at_cursor : Folder codec → ℕ → Map (ℕ × Content)
  unfolding from_history with_current without_deleted
  manifests_at_cursor s cursor =
      without_deleted cursor s.tombstones
        (with_current cursor s.files s.revisions (from_history cursor s.history))

  abbrev revision_part : String × (ℕ × Content) → String × ℕ
  revision_part p = (p.0, p.1.0)

  abbrev manifest_part : String × (ℕ × Content) → String × Content
  manifest_part p = (p.0, p.1.1)

  unfoldable pub summary_at_cursor : Folder codec → ℕ → FolderSummary
  unfolding folder_summary summary_of manifests_at_cursor up_to
  summary_at_cursor s cursor =
      let past = manifests_at_cursor s cursor in
      if leb s.cursor cursor
      then folder_summary s
      else summary_of s.folder_id (map manifest_part past) (map revision_part past)
          (up_to cursor s.tombstones) cursor

  abbrev pub upsert_of : String → ℕ → Content → FolderChange
  upsert_of rel rev m = record {
    kind = upsert_change;
    from_path = "";
    path = rel;
    revision = rev;
    manifest = some m;
  }

  abbrev pub move_from : RenameHint → String → ℕ → Content → FolderChange
  move_from hint rel rev m = record {
    kind = move_change;
    from_path = hint.from_path;
    path = rel;
    revision = rev;
    manifest = some m;
  }

  abbrev pub removal : String → ℕ → FolderChange
  removal rel rev = record {
    kind = delete_change;
    from_path = "";
    path = rel;
    revision = rev;
    manifest = none;
  }

  abbrev pub move_or_upsert : Option RenameHint → String → ℕ → Content → FolderChange
  move_or_upsert none rel rev m = upsert_of rel rev m
  move_or_upsert (some hint) rel rev m = move_from hint rel rev m

  unfoldable pub revision_change : Map RenameHint → Map Content → String → ℕ → FolderChange
  unfolding hint_to manifest_of
  revision_change hints files rel rev =
      move_or_upsert (hint_to hints rel rev) rel rev (manifest_of files rel)

  -- The loop over the revisions.
  unfoldable pub revision_changes : ℕ → Map RenameHint → Map Content → Map ℕ → List FolderChange
  unfolding revision_change
  revision_changes cursor hints files [] = []
  revision_changes cursor hints files ((rel, rev) ∷ rest) =
      let others = revision_changes cursor hints files rest in
      if leb rev cursor then others else revision_change hints files rel rev ∷ others

  -- The loop over the tombstones.
  unfoldable pub tombstone_changes : ℕ → Map RenameHint → Map ℕ → List FolderChange
  unfolding is_renamed
  tombstone_changes cursor hints [] = []
  tombstone_changes cursor hints ((rel, rev) ∷ rest) =
      let others = tombstone_changes cursor hints rest in
      if leb rev cursor || is_renamed hints rel rev then others else removal rel rev ∷ others

  unfoldable pub before : FolderChange → FolderChange → Bool
  before a b = if a.revision == b.revision then str_lt a.path b.path else ltb a.revision b.revision

  unfoldable pub all_changes : Folder codec → ℕ → List FolderChange
  unfolding before revision_changes tombstone_changes
  all_changes s cursor = sort_stable before (
      revision_changes cursor s.rename_hints s.files s.revisions
      ++ tombstone_changes cursor s.rename_hints s.tombstones)

  -- `changes[len(changes)-1].Revision`
  unfoldable pub last_revision : List FolderChange → ℕ
  last_revision [] = 0
  last_revision (c ∷ []) = c.revision
  last_revision (c ∷ d ∷ rest) = last_revision (d ∷ rest)

  abbrev pub unless_compacted : Option CompactionSnapshot → FolderChanges → Option FolderChanges
  unless_compacted none message = some message
  unless_compacted (some snapshot) message = none

  -- `ChangesSinceLimit`, where a limit of 0 is none; `ChangesSince` has the limit 0. `none` is the
  -- error that tombstones the peer needs were compacted.
  unfoldable pub changes_since_limit : Folder codec → ℕ → ℕ → Option FolderChanges
  unfolding compacted_since all_changes last_revision summary_at_cursor
  changes_since_limit s cursor max_changes =
      let changes = all_changes s cursor in
      let cut = ltb 0 max_changes && ltb max_changes (length changes) in
      let kept = if cut then take max_changes changes else changes in
      let to = if cut then last_revision kept else s.cursor in
      unless_compacted (compacted_since cursor none s.compactions) (record {
        folder_id = s.folder_id;
        from_cursor = cursor;
        to_cursor = to;
        state_hash = (summary_at_cursor s to).state_hash;
        changes = kept;
      })
