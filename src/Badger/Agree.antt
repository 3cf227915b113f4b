-- ===== src/Badger/Agree.antt =====
-- The Badger store and the JSON store have the same metadata of a folder after the same changes.
use file_sync_engine.Prelude.{
  ℕ, ◌≡◌, refl, ap, subst, ◌∙◌, String, Bool, true, false, ◌&&◌, ◌||◌, Option, none, some, List, [],
  ◌∷◌, ◌==◌, str_eq, eq_iff, if◌then◌else◌, Bool-cases, inl, inr,
}
use file_sync_engine.Prelude.Map.{Map, lookup, insert, erase, lookup-insert, lookup-erase}
use file_sync_engine.Metadata.{
  Codec, RenameHint, Folder, revision_after, past_or_nil, remember, save_manifest, delete_manifest,
  moved, move_manifest,
}
use file_sync_engine.Metadata.Changes.{or_zero}
use file_sync_engine.Metadata.WellFormed.{FolderUpdate, saving, deleting, moving, changed}
use file_sync_engine.Badger.{
  BadgerFolder, set_key, delete_key, next_folder_revision, delete_manifest_records, set_manifest,
  index_blocks, badger_save, badger_delete, badger_moved, badger_move,
}

module _ (codec : Codec) where
  open codec use {Content}

  -- The manifest of a revision in the history of a path.
  abbrev pub past_at : ℕ → List (ℕ × Content) → Option Content
  past_at r [] = none
  past_at r (past ∷ rest) = if past.0 == r then some past.1 else past_at r rest

  abbrev pub past_of : ℕ → Option (List (ℕ × Content)) → Option Content
  past_of r none = none
  past_of r (some past) = past_at r past

  -- Both stores read the same under every path.
  pub record Agrees (s : Folder codec) (b : BadgerFolder codec) : Type 0 where
    pub files : (p : String) → lookup p s.files ≡ b.manifests p
    pub revisions : (p : String) → lookup p s.revisions ≡ b.revisions p
    pub history : (p : String) (r : ℕ) → past_of r (lookup p s.history) ≡ b.history p r
    pub tombstones : (p : String) → lookup p s.tombstones ≡ b.tombstones p
    pub rename_hints : (p : String) → lookup p s.rename_hints ≡ b.rename_hints p
    pub cursor : s.cursor ≡ or_zero b.cursor

  agrees-insert :
      {V : Type 0} (k : String) (v : V) (m : Map V) (keys : String → Option V)
      → ((p : String) → lookup p m ≡ keys p)
      → (p : String) → lookup p (insert k v m) ≡ set_key k v keys p
  unfolding set_key
  agrees-insert k v m keys h p =
      lookup-insert k p v m ∙ ap (λ o. if str_eq k p then some v else o) (h p)

  agrees-erase :
      {V : Type 0} (k : String) (m : Map V) (keys : String → Option V)
      → ((p : String) → lookup p m ≡ keys p)
      → (p : String) → lookup p (erase k m) ≡ delete_key k keys p
  unfolding delete_key
  agrees-erase k m keys h p = lookup-erase k p m ∙ ap (λ o. if str_eq k p then none else o) (h p)

  past_or_nil-reads :
      (r : ℕ) (o : Option (List (ℕ × Content))) → past_at r (past_or_nil codec o) ≡ past_of r o
  past_or_nil-reads r none = refl
  past_or_nil-reads r (some past) = refl

  remember-reads :
      (path p : String) (rev r : ℕ) (m : Content) (history : Map (List (ℕ × Content)))
      → past_of r (lookup p (remember codec path rev m history))
        ≡ (if str_eq path p && rev == r then some m else past_of r (lookup p history))
  unfolding remember
  remember-reads path p rev r m history =
      let past = (rev, m) ∷ past_or_nil codec (lookup path history) in
      let read = lookup-insert path p past history in
      elim (Bool-cases (str_eq path p)) [
        | inl e ↦
            let here : lookup p (insert path past history) ≡ some past = read ∙ rw e refl in
            let result : past_of r (lookup p (insert path past history))
                ≡ (if rev == r then some m else past_of r (lookup p history)) =
              ap (past_of r) here
              ∙ ap (λ (o : Option Content). if rev == r then some m else o)
                  (past_or_nil-reads r (lookup path history)
                    ∙ ap (λ (k : String). past_of r (lookup k history)) ((eq_iff path p).0 e)) in
            rw e result
        | inr e ↦
            let there : lookup p (insert path past history) ≡ lookup p history = read ∙ rw e refl in
            let result : past_of r (lookup p (insert path past history))
                ≡ past_of r (lookup p history) =
              ap (past_of r) there in
            rw e result
      ]

  agrees-remember :
      (path : String) (rev : ℕ) (m : Content) (history : Map (List (ℕ × Content)))
      (keys : String → ℕ → Option Content)
      → ((p : String) (r : ℕ) → past_of r (lookup p history) ≡ keys p r)
      → (p : String) (r : ℕ)
      → past_of r (lookup p (remember codec path rev m history))
        ≡ (if str_eq path p && rev == r then some m else keys p r)
  agrees-remember path rev m history keys h p r =
      remember-reads path p rev r m history
      ∙ ap (λ (o : Option Content). if str_eq path p && rev == r then some m else o) (h p r)

  -- A key that is deleted and then set is set.
  set-delete :
      {V : Type 0} (k : String) (v : V) (keys : String → Option V) (p : String)
      → set_key k v keys p ≡ set_key k v (delete_key k keys) p
  unfolding set_key delete_key
  set-delete k v keys p = elim (Bool-cases (str_eq k p)) [ inl e ↦ rw e refl | inr e ↦ rw e refl ]

  save-Agrees :
      (path : String) (m : Content) (s : Folder codec) (b : BadgerFolder codec)
      → Agrees s b
      → Agrees (save_manifest codec path m s) (badger_save codec path m b)
  unfolding save_manifest badger_save next_folder_revision delete_manifest_records set_manifest
      index_blocks
  save-Agrees path m s b h =
      let rev : revision_after s.cursor ≡ revision_after (or_zero b.cursor) =
        ap revision_after h.cursor in
      record {
        files = λ p.
            agrees-insert path m s.files b.manifests h.files p ∙ set-delete path m b.manifests p;
        revisions = λ p.
            agrees-insert path (revision_after s.cursor) s.revisions b.revisions h.revisions p
            ∙ set-delete path (revision_after s.cursor) b.revisions p
            ∙ ap (λ (r : ℕ). set_key path r (delete_key path b.revisions) p) rev;
        history = λ p r.
            agrees-remember path (revision_after s.cursor) m s.history b.history h.history p r
            ∙ ap (λ (n : ℕ). if str_eq path p && n == r then some m else b.history p r) rev;
        tombstones = agrees-erase path s.tombstones b.tombstones h.tombstones;
        rename_hints = h.rename_hints;
        cursor = rev;
      }

  delete-Agrees :
      (path : String) (s : Folder codec) (b : BadgerFolder codec)
      → Agrees s b
      → Agrees (delete_manifest codec path s) (badger_delete codec path b)
  unfolding delete_manifest badger_delete next_folder_revision delete_manifest_records
  delete-Agrees path s b h =
      let rev : revision_after s.cursor ≡ revision_after (or_zero b.cursor) =
        ap revision_after h.cursor in
      record {
        files = agrees-erase path s.files b.manifests h.files;
        revisions = agrees-erase path s.revisions b.revisions h.revisions;
        history = h.history;
        tombstones = λ p.
            agrees-insert path (revision_after s.cursor) s.tombstones b.tombstones h.tombstones p
            ∙ ap (λ (r : ℕ). set_key path r b.tombstones p) rev;
        rename_hints = h.rename_hints;
        cursor = rev;
      }

  moved-Agrees :
      (from to : String) (m : Content) (s : Folder codec) (b : BadgerFolder codec)
      → Agrees s b
      → Agrees (moved codec from to m s) (badger_moved codec from to m b)
  unfolding moved badger_moved next_folder_revision delete_manifest_records set_manifest
      index_blocks
  moved-Agrees from to m s b h =
      let rev : revision_after s.cursor ≡ revision_after (or_zero b.cursor) =
        ap revision_after h.cursor in
      let hint : ℕ → RenameHint = (λ r. record { from_path = from; to_path = to; revision = r }) in
      record {
        files = λ p.
            agrees-insert to m (erase from s.files) (delete_key from b.manifests)
              (agrees-erase from s.files b.manifests h.files) p
            ∙ set-delete to m (delete_key from b.manifests) p;
        revisions = λ p.
            agrees-insert to (revision_after s.cursor) (erase from s.revisions)
              (delete_key from b.revisions) (agrees-erase from s.revisions b.revisions h.revisions)
              p
            ∙ set-delete to (revision_after s.cursor) (delete_key from b.revisions) p
            ∙ ap (λ (r : ℕ). set_key to r (delete_key to (delete_key from b.revisions)) p) rev;
        history = λ p r.
            agrees-remember to (revision_after s.cursor) m s.history b.history h.history p r
            ∙ ap (λ (n : ℕ). if str_eq to p && n == r then some m else b.history p r) rev;
        tombstones = λ p.
            agrees-insert from (revision_after s.cursor) s.tombstones b.tombstones h.tombstones p
            ∙ ap (λ (r : ℕ). set_key from r b.tombstones p) rev;
        rename_hints = λ p.
            agrees-insert from (hint (revision_after s.cursor)) s.rename_hints b.rename_hints
              h.rename_hints p
            ∙ ap (λ (r : ℕ). set_key from (hint r) b.rename_hints p) rev;
        cursor = rev;
      }

  -- One update of each store; an update that is refused changes nothing.
  abbrev pub or_same : {A : Type 0} → A → Option A → A
  or_same a none = a
  or_same a (some b) = b

  abbrev pub json_step : FolderUpdate codec → Folder codec → Folder codec
  json_step update s = or_same s (changed codec update s)

  abbrev pub badger_changed :
      String → FolderUpdate codec → BadgerFolder codec → Option (BadgerFolder codec)
  badger_changed id (saving p m) b = some (badger_save codec p m b)
  badger_changed id (deleting p) b = some (badger_delete codec p b)
  badger_changed id (moving p q m) b = badger_move codec id p q m b

  abbrev pub badger_step : String → FolderUpdate codec → BadgerFolder codec → BadgerFolder codec
  badger_step id update b = or_same b (badger_changed id update b)

  abbrev pub json_run : List (FolderUpdate codec) → Folder codec → Folder codec
  json_run [] s = s
  json_run (update ∷ updates) s = json_run updates (json_step update s)

  abbrev pub badger_run :
      String → List (FolderUpdate codec) → BadgerFolder codec → BadgerFolder codec
  badger_run id [] b = b
  badger_run id (update ∷ updates) b = badger_run id updates (badger_step id update b)

  step-Agrees :
      (update : FolderUpdate codec) (s : Folder codec) (b : BadgerFolder codec)
      → Agrees s b
      → Agrees (json_step update s) (badger_step s.folder_id update b)
  unfolding move_manifest badger_move
  step-Agrees (saving p m) s b h = save-Agrees p m s b h
  step-Agrees (deleting p) s b h = delete-Agrees p s b h
  step-Agrees (moving p q m) s b h = by_test (str_eq s.folder_id "" || str_eq p "" || str_eq q "")
    where
      by_test :
          (test : Bool)
          → Agrees
              (or_same s (if test then none else some (moved codec p q m s)))
              (or_same b (if test then none else some (badger_moved codec p q m b)))
      by_test true = h
      by_test false = moved-Agrees p q m s b h

  json_step-folder_id :
      (update : FolderUpdate codec) (s : Folder codec)
      → (json_step update s).folder_id ≡ s.folder_id
  unfolding move_manifest moved save_manifest delete_manifest
  json_step-folder_id (saving p m) s = refl
  json_step-folder_id (deleting p) s = refl
  json_step-folder_id (moving p q m) s =
      by_test (str_eq s.folder_id "" || str_eq p "" || str_eq q "")
    where
      by_test :
          (test : Bool)
          → (or_same s (if test then none else some (moved codec p q m s))).folder_id ≡ s.folder_id
      by_test true = refl
      by_test false = refl

  -- The Badger store implements the JSON store: where both have the same metadata of a folder, they
  -- have the same after any series of saves, deletes and moves, which they refuse alike: the same
  -- manifest, revision, history, tombstone and rename hint of every path, and the same cursor.
  pub badger_run-Agrees :
      (updates : List (FolderUpdate codec)) (s : Folder codec) (b : BadgerFolder codec)
      → Agrees s b
      → Agrees (json_run updates s) (badger_run s.folder_id updates b)
  badger_run-Agrees [] s b h = h
  badger_run-Agrees (update ∷ updates) s b h =
      let after = json_step update s in
      let rest =
        badger_run-Agrees updates after (badger_step s.folder_id update b)
          (step-Agrees update s b h) in
      subst
        (λ (id : String).
          Agrees (json_run updates after)
            (badger_run id updates (badger_step s.folder_id update b)))
        (json_step-folder_id update s) rest
