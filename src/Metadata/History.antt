-- ===== src/Metadata/History.antt =====
-- What a series of saves and deletes makes of each path of a folder.
use file_sync_engine.Prelude.{
  ℕ, ◌+◌, ◌^◌, ◌≤◌, ◌<◌, ◌≡◌, refl, ◌∙◌, String, none, some, List, [], ◌∷◌, arith, str_eq,
  Bool-cases, inl, inr,
}
use file_sync_engine.Prelude.Lists.{length, All}
use file_sync_engine.Prelude.Map.{
  lookup, Distinct, lookup-insert, lookup-erase, insert-Distinct, erase-Distinct,
}
use file_sync_engine.Metadata.{
  Codec, RenameHint, Folder, revision_after, save_manifest, delete_manifest,
}

module _ (codec : Codec) where
  open codec use {Content}

  pub data Op : Type 0 where
    save : String → Content → Op
    delete : String → Op

  abbrev pub run_op : Op → Folder codec → Folder codec
  run_op (save path m) s = save_manifest codec path m s
  run_op (delete path) s = delete_manifest codec path s

  -- The first operation of the list is the last one made.
  abbrev pub run_ops : List Op → Folder codec → Folder codec
  run_ops [] s = s
  run_ops (op ∷ ops) s = run_op op (run_ops ops s)

  -- The maps of a folder: each key stands once, and no revision is above the cursor.
  pub record IsFolder (s : Folder codec) : Type 0 where
    pub files_once : Distinct s.files
    pub revisions_once : Distinct s.revisions
    pub tombstones_once : Distinct s.tombstones
    pub revisions_known : (p : String) (r : ℕ) → lookup p s.revisions ≡ some r → r ≤ s.cursor
    pub tombstones_known : (p : String) (r : ℕ) → lookup p s.tombstones ≡ some r → r ≤ s.cursor
    pub hints_known : All (λ (h : String × RenameHint). h.1.revision ≤ s.cursor) s.rename_hints

  -- What became of a path since the folder was `old`.
  pub data Fate (old new : Folder codec) (p : String) : Type 0 where
    untouched :
        lookup p new.files ≡ lookup p old.files
        → lookup p new.revisions ≡ lookup p old.revisions
        → lookup p new.tombstones ≡ lookup p old.tombstones
        → Fate old new p
    saved :
        (m : Content) (r : ℕ)
        → lookup p new.files ≡ some m
        → lookup p new.revisions ≡ some r
        → lookup p new.tombstones ≡ none
        → old.cursor < r
        → r ≤ new.cursor
        → Fate old new p
    deleted :
        (r : ℕ)
        → lookup p new.files ≡ none
        → lookup p new.revisions ≡ none
        → lookup p new.tombstones ≡ some r
        → old.cursor < r
        → r ≤ new.cursor
        → Fate old new p

  pub revision_after_id : (c : ℕ) → c + 1 < 2 ^ 64 → revision_after c ≡ c + 1
  unfolding revision_after
  revision_after_id c h = omega (arith, h)

  -- A path that an operation is not about keeps its fate.
  kept :
      (old s new : Folder codec) (p : String)
      → lookup p new.files ≡ lookup p s.files
      → lookup p new.revisions ≡ lookup p s.revisions
      → lookup p new.tombstones ≡ lookup p s.tombstones
      → s.cursor ≤ new.cursor
      → Fate old s p
      → Fate old new p
  kept old s new p f r t c (untouched a b d) = untouched (f ∙ a) (r ∙ b) (t ∙ d)
  kept old s new p f r t c (saved m n a b d l u) =
      saved m n (f ∙ a) (r ∙ b) (t ∙ d) l (omega (arith, u, c))
  kept old s new p f r t c (deleted n a b d l u) =
      deleted n (f ∙ a) (r ∙ b) (t ∙ d) l (omega (arith, u, c))

  run_op-Fate :
      (op : Op) (old s : Folder codec) (p : String)
      → old.cursor ≤ s.cursor
      → s.cursor + 1 < 2 ^ 64
      → Fate old s p
      → Fate old (run_op op s) p
  unfolding save_manifest delete_manifest
  run_op-Fate (save path m) old s p o c f =
      let next = revision_after_id s.cursor c in
      elim (Bool-cases (str_eq path p)) [
        | inl e ↦
            saved m (revision_after s.cursor) (lookup-insert path p m s.files ∙ rw e refl)
              (lookup-insert path p (revision_after s.cursor) s.revisions ∙ rw e refl)
              (lookup-erase path p s.tombstones ∙ rw e refl) (omega (arith, next, o)) (omega arith)
        | inr e ↦
            kept old s (save_manifest codec path m s) p (lookup-insert path p m s.files ∙ rw e refl)
              (lookup-insert path p (revision_after s.cursor) s.revisions ∙ rw e refl)
              (lookup-erase path p s.tombstones ∙ rw e refl) (omega (arith, next)) f
      ]
  run_op-Fate (delete path) old s p o c f =
      let next = revision_after_id s.cursor c in
      elim (Bool-cases (str_eq path p)) [
        | inl e ↦
            deleted (revision_after s.cursor) (lookup-erase path p s.files ∙ rw e refl)
              (lookup-erase path p s.revisions ∙ rw e refl)
              (lookup-insert path p (revision_after s.cursor) s.tombstones ∙ rw e refl)
              (omega (arith, next, o)) (omega arith)
        | inr e ↦
            kept old s (delete_manifest codec path s) p (lookup-erase path p s.files ∙ rw e refl)
              (lookup-erase path p s.revisions ∙ rw e refl)
              (lookup-insert path p (revision_after s.cursor) s.tombstones ∙ rw e refl)
              (omega (arith, next)) f
      ]

  -- What operations keep of the folder that they started with.
  pub record Since (old new : Folder codec) : Type 0 where
    pub files_once : Distinct new.files
    pub revisions_once : Distinct new.revisions
    pub tombstones_once : Distinct new.tombstones
    pub same_hints : new.rename_hints ≡ old.rename_hints
    pub same_compactions : new.compactions ≡ old.compactions
    pub same_id : new.folder_id ≡ old.folder_id
    pub fate : (p : String) → Fate old new p

  run_op-Since :
      (op : Op) (old s : Folder codec)
      → old.cursor ≤ s.cursor
      → s.cursor + 1 < 2 ^ 64
      → Since old s
      → Since old (run_op op s)
  unfolding save_manifest delete_manifest
  run_op-Since (save path m) old s o c h = record {
    files_once = insert-Distinct path m s.files h.files_once;
    revisions_once = insert-Distinct path (revision_after s.cursor) s.revisions h.revisions_once;
    tombstones_once = erase-Distinct path s.tombstones h.tombstones_once;
    same_hints = h.same_hints;
    same_compactions = h.same_compactions;
    same_id = h.same_id;
    fate = λ p. run_op-Fate (save path m) old s p o c (h.fate p);
  }
  run_op-Since (delete path) old s o c h = record {
    files_once = erase-Distinct path s.files h.files_once;
    revisions_once = erase-Distinct path s.revisions h.revisions_once;
    tombstones_once = insert-Distinct path (revision_after s.cursor) s.tombstones h.tombstones_once;
    same_hints = h.same_hints;
    same_compactions = h.same_compactions;
    same_id = h.same_id;
    fate = λ p. run_op-Fate (delete path) old s p o c (h.fate p);
  }

  run_op-cursor : (op : Op) (s : Folder codec) → (run_op op s).cursor ≡ revision_after s.cursor
  unfolding save_manifest delete_manifest
  run_op-cursor (save path m) s = refl
  run_op-cursor (delete path) s = refl

  pub run_ops-cursor :
      (ops : List Op) (s : Folder codec)
      → s.cursor + length ops < 2 ^ 64
      → (run_ops ops s).cursor ≡ s.cursor + length ops
  run_ops-cursor [] s h = omega arith
  run_ops-cursor (op ∷ ops) s h =
      let before = run_ops-cursor ops s (omega (arith, h)) in
      omega (
        arith,
        run_op-cursor op (run_ops ops s),
        before,
        revision_after_id (run_ops ops s).cursor (omega (arith, before, h)),
      )

  pub run_ops-Since :
      (ops : List Op) (s : Folder codec)
      → IsFolder s
      → s.cursor + length ops < 2 ^ 64
      → Since s (run_ops ops s)
  run_ops-Since [] s w h = record {
    files_once = w.files_once;
    revisions_once = w.revisions_once;
    tombstones_once = w.tombstones_once;
    same_hints = refl;
    same_compactions = refl;
    same_id = refl;
    fate = λ p. untouched refl refl refl;
  }
  run_ops-Since (op ∷ ops) s w h =
      let cursor = run_ops-cursor ops s (omega (arith, h)) in
      run_op-Since op s (run_ops ops s) (omega (arith, cursor)) (omega (arith, cursor, h))
        (run_ops-Since ops s w (omega (arith, h)))
