-- ===== src/ApplyGate.antt =====
-- internal/state/json_store.go: the writes that a folder owes, and the deletes that wait for them.
-- A map of maps is keyed by the folder and then by the path; a map that is nil is empty. Loading
-- and saving the snapshot, and their errors, are not modelled. A cursor is a uint64.
pub mod Ready
use file_sync_engine.Prelude.{
  ℕ, String, Bool, true, false, not, ◌&&◌, ◌||◌, Option, none, some, List, [], ◌∷◌, ◌++◌, map, ltb,
  str_eq, if◌then◌else◌,
}
use file_sync_engine.Prelude.Map.{Map, lookup, insert, erase}
use file_sync_engine.Prelude.Canonical.{by_key}
use file_sync_engine.Prelude.Sort.{sort_stable}
use file_sync_engine.Prelude.Text.{str_lt}
use file_sync_engine.Block.Manifest.{Hasher, Manifest}
use file_sync_engine.Metadata.Changes.{FolderSummary}

pub record SkippedDelete : Type 0 where
  pub folder_id : String
  pub path : String
  pub required_metadata_cursor : ℕ
  pub required_metadata_state_hash : String
  pub required_writes : List String
  pub reason : String

-- What a map that is nil reads as.
abbrev pub or_nil : {V : Type 0} → Option (Map V) → Map V
or_nil none = []
or_nil (some m) = m

-- m[folder][path]
unfoldable pub lookup_in : {V : Type 0} → String → String → Map (Map V) → Option V
unfolding lookup
lookup_in folder path m = lookup path (or_nil (lookup folder m))

-- m[folder][path] = v, after the folder's map is made.
unfoldable pub insert_in : {V : Type 0} → String → String → V → Map (Map V) → Map (Map V)
unfolding lookup insert
insert_in folder path v m = insert folder (insert path v (or_nil (lookup folder m))) m

-- delete(m[folder], path)
unfoldable pub erase_in : {V : Type 0} → String → String → Map (Map V) → Map (Map V)
unfolding erase
erase_in folder path [] = []
erase_in folder path ((key, inner) ∷ rest) =
    let others = erase_in folder path rest in
    if str_eq key folder then (key, erase path inner) ∷ rest else (key, inner) ∷ others

unfoldable pub values : {V : Type 0} → Map V → List V
values [] = []
values ((key, v) ∷ rest) = v ∷ values rest

module _ (h : Hasher) where
  open h use {Digest}

  pub record VerifiedStagedBlock : Type 0 where
    pub index : ℕ
    pub offset : ℕ
    pub size : ℕ
    pub hash : Digest

  pub record PendingWrite : Type 0 where
    pub folder_id : String
    pub path : String
    pub manifest : Manifest h
    pub expected_base_manifest : Option (Manifest h)
    pub required_metadata_cursor : ℕ
    pub required_metadata_state_hash : String
    pub verified_blocks : List VerifiedStagedBlock
    pub committed : Bool
    pub reason : String

  pub record Gate : Type 0 where
    pub pending_writes : Map (Map PendingWrite)
    pub skipped_deletes : Map (Map SkippedDelete)

  -- `none` is an error, which leaves the store as it was.
  unfoldable pub save_pending_write : PendingWrite → Gate → Option Gate
  unfolding insert_in
  save_pending_write w g =
      if str_eq w.folder_id "" || str_eq w.path ""
      then none
      else some (record g { pending_writes = insert_in w.folder_id w.path w g.pending_writes })

  unfoldable pub pending_write : String → String → Gate → Option PendingWrite
  unfolding lookup_in
  pending_write folder path g = lookup_in folder path g.pending_writes

  unfoldable pub pending_writes_of : String → Gate → List PendingWrite
  unfolding lookup values
  pending_writes_of folder g =
      sort_stable (λ (a b : PendingWrite). str_lt a.path b.path)
        (values (or_nil (lookup folder g.pending_writes)))

  -- The update of a write that is there.
  unfoldable pub updated :
      String → String → (PendingWrite → PendingWrite) → Option PendingWrite → Gate → Option Gate
  unfolding insert_in
  updated folder path f none g = none
  updated folder path f (some w) g =
      some (record g { pending_writes = insert_in folder path (f w) g.pending_writes })

  unfoldable pub add_verified_staged_block :
      String → String → VerifiedStagedBlock → Gate → Option Gate
  unfolding updated pending_write
  add_verified_staged_block folder path b g =
      updated folder path (λ w. record w { verified_blocks = w.verified_blocks ++ (b ∷ []) })
        (pending_write folder path g) g

  unfoldable pub mark_pending_write_committed : String → String → Gate → Option Gate
  unfolding updated pending_write
  mark_pending_write_committed folder path g =
      updated folder path (λ w. record w { committed = true }) (pending_write folder path g) g

  unfoldable pub remove_pending_write : String → String → Gate → Gate
  unfolding erase_in
  remove_pending_write folder path g = record g {
    pending_writes = erase_in folder path g.pending_writes;
  }

  unfoldable pub save_skipped_delete : SkippedDelete → Gate → Option Gate
  unfolding insert_in
  save_skipped_delete d g =
      if str_eq d.folder_id "" || str_eq d.path ""
      then none
      else some (record g {
        skipped_deletes =
            insert_in d.folder_id d.path
              (record d { required_writes = sort_stable str_lt d.required_writes })
              g.skipped_deletes;
      })

  unfoldable pub remove_skipped_delete : String → String → Gate → Gate
  unfolding erase_in
  remove_skipped_delete folder path g = record g {
    skipped_deletes = erase_in folder path g.skipped_deletes;
  }

  unfoldable pub skipped_deletes_of : String → Gate → List SkippedDelete
  unfolding lookup values
  skipped_deletes_of folder g =
      sort_stable (λ (a b : SkippedDelete). str_lt a.path b.path)
        (values (or_nil (lookup folder g.skipped_deletes)))

  unfoldable pub metadata_prerequisites_met : SkippedDelete → FolderSummary → Bool
  metadata_prerequisites_met d current =
      not (ltb 0 d.required_metadata_cursor && ltb current.cursor d.required_metadata_cursor)
      && not (
          not (str_eq d.required_metadata_state_hash "")
          && not (str_eq current.state_hash d.required_metadata_state_hash))

  abbrev pub is_committed : Option PendingWrite → Bool
  is_committed none = false
  is_committed (some w) = w.committed

  unfoldable pub required_writes_committed : Map PendingWrite → List String → Bool
  unfolding lookup
  required_writes_committed writes [] = true
  required_writes_committed writes (path ∷ required) =
      is_committed (lookup path writes) && required_writes_committed writes required

  unfoldable pub is_ready : FolderSummary → Map PendingWrite → SkippedDelete → Bool
  unfolding metadata_prerequisites_met required_writes_committed
  is_ready current writes d =
      metadata_prerequisites_met d current && required_writes_committed writes d.required_writes

  -- The loop over the deletes of a folder.
  unfoldable pub ready_among :
      FolderSummary → Map PendingWrite → Map SkippedDelete → List SkippedDelete
  unfolding is_ready
  ready_among current writes [] = []
  ready_among current writes ((key, d) ∷ deletes) =
      let rest = ready_among current writes deletes in
      if is_ready current writes d then d ∷ rest else rest

  unfoldable pub ready_skipped_deletes : String → FolderSummary → Gate → List SkippedDelete
  unfolding ready_among lookup
  ready_skipped_deletes folder current g =
      sort_stable (λ (a b : SkippedDelete). str_lt a.path b.path)
        (ready_among current (or_nil (lookup folder g.pending_writes))
          (or_nil (lookup folder g.skipped_deletes)))
