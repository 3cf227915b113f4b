-- ===== src/Metadata/CatchUp.antt =====
-- A peer that takes the changes since its cursor has the folder as it is.
use file_sync_engine.Prelude.{
  ℕ, ◌+◌, ◌≤◌, ◌<◌, ◌≡◌, ◌≢◌, ◌^◌, refl, ap, sym, ◌∙◌, subst, String, true, false, none, some, List,
  arith, str_eq, eq_iff, Bool-cases, inl, inr,
}
use file_sync_engine.Prelude.Lists.{All, All-map, length}
use file_sync_engine.Prelude.Map.{Map, lookup}
use file_sync_engine.Metadata.{Codec, Folder}
use file_sync_engine.Metadata.Changes.{
  FolderChange, FolderChanges, upsert_of, removal, or_empty, manifest_of, all_changes,
  compacted_since, changes_since_limit,
}
use file_sync_engine.Metadata.Peer.{PeerFolder, apply_peer_folder_changes}
use file_sync_engine.Metadata.History.{
  Op, run_ops, run_ops-cursor, run_ops-Since, IsFolder, Since, Fate, untouched, saved, deleted,
}
use file_sync_engine.Metadata.News.{
  IsNews, put, gone, Old, all_changes-IsNews, all_changes-saved, all_changes-deleted,
}
use file_sync_engine.Metadata.View.{
  View, view_eq, effect, view_after, Leaves, after-none, after-one, apply_changes-Applied,
}
use file_sync_engine.Metadata.Mirror.{
  folder_view, Mirrors, full_message, changes_since-full, accepted,
}

module _ (codec : Codec) where
  open codec use {Content}

  manifest_of-some :
      (files : Map Content) (p : String) (m : Content)
      → lookup p files ≡ some m
      → manifest_of codec files p ≡ m
  unfolding manifest_of
  manifest_of-some files p m h = ap (or_empty codec) h

  -- News of a path say what the folder has of it.
  news_leave :
      (old new : Folder codec) (p : String) (w : View codec)
      → ((r : ℕ)
          → lookup p new.revisions ≡ some r
          → old.cursor < r
          → record {
            file = some (manifest_of codec new.files p);
            revision = some r;
            deleted_at = none;
          }
            ≡ w)
      → ((r : ℕ)
          → lookup p new.tombstones ≡ some r
          → old.cursor < r
          → record { file = none; revision = none; deleted_at = some r } ≡ w)
      → (changes : List (FolderChange codec)) → All (IsNews codec old.cursor new) changes
      → Leaves codec p w changes
  news_leave old new p w f g changes n = All-map one changes n
    where
      one :
          (c : FolderChange codec)
          → IsNews codec old.cursor new c
          → str_eq c.path p ≡ true
          → effect codec c ≡ w
      one c (put q r h l) e =
          let key = (eq_iff q p).0 e in
          ap (λ (i : String). effect codec (upsert_of codec i r (manifest_of codec new.files i)))
            key
          ∙ f r (ap (λ (i : String). lookup i new.revisions) (sym key) ∙ h) l
      one c (gone q r h l) e =
          let key = (eq_iff q p).0 e in
          g r (ap (λ (i : String). lookup i new.tombstones) (sym key) ∙ h) l

  news_elsewhere :
      (old new : Folder codec) (p : String)
      → ((r : ℕ) → lookup p new.revisions ≡ some r → r ≤ old.cursor)
      → ((r : ℕ) → lookup p new.tombstones ≡ some r → r ≤ old.cursor)
      → (changes : List (FolderChange codec)) → All (IsNews codec old.cursor new) changes
      → All (λ (c : FolderChange codec). str_eq c.path p ≡ false) changes
  news_elsewhere old new p f g changes n = All-map one changes n
    where
      other_path : (q : String) → (q ≡ p → ⊥) → str_eq q p ≡ false
      other_path q h = elim (Bool-cases (str_eq q p)) [
        | inl e ↦ absurd (h ((eq_iff q p).0 e))
        | inr e ↦ e
      ]

      one : (c : FolderChange codec) → IsNews codec old.cursor new c → str_eq c.path p ≡ false
      one c (put q r h l) = other_path q (λ key.
          absurd
            (omega (arith, l, f r (ap (λ (i : String). lookup i new.revisions) (sym key) ∙ h))))
      one c (gone q r h l) = other_path q (λ key.
          absurd
            (omega (arith, l, g r (ap (λ (i : String). lookup i new.tombstones) (sym key) ∙ h))))

  -- The changes since the old cursor take a view of the old folder to one of the new folder.
  view_after-changes :
      (old new : Folder codec) (p : String)
      → IsFolder codec old
      → Since codec old new
      → view_after codec p (folder_view codec p old) (all_changes codec new old.cursor)
        ≡ folder_view codec p new
  view_after-changes old new p w h = by_fate (h.fate p)
    where
      hints : Old old.cursor new.rename_hints
      hints = subst (Old old.cursor) (sym h.same_hints) w.hints_known

      news : All (IsNews codec old.cursor new) (all_changes codec new old.cursor)
      news = all_changes-IsNews codec old.cursor new hints h.revisions_once h.tombstones_once

      by_fate :
          Fate codec old new p
          → view_after codec p (folder_view codec p old) (all_changes codec new old.cursor)
            ≡ folder_view codec p new
      by_fate (untouched f r t) =
          after-none codec p (folder_view codec p old) _ (
            news_elsewhere old new p (λ n e. w.revisions_known p n (sym r ∙ e))
              (λ n e. w.tombstones_known p n (sym t ∙ e)) _ news)
          ∙ view_eq codec p old.files new.files old.revisions new.revisions old.tombstones
              new.tombstones (sym f) (sym r) (sym t)
      by_fate (saved m n f r t l u) =
          after-one codec p (folder_view codec p old) (folder_view codec p new)
            (upsert_of codec p n (manifest_of codec new.files p)) _
            (news_leave old new p (folder_view codec p new)
              (λ k e b. ground (arith, f, r, t, e, manifest_of-some new.files p m f))
              (λ k e b. absurd (ground (arith, t, e))) _ news)
            (all_changes-saved codec old.cursor new p n hints r l) ((eq_iff p p).1 refl)
      by_fate (deleted n f r t l u) =
          after-one codec p (folder_view codec p old) (folder_view codec p new) (removal codec p n)
            _
            (news_leave old new p (folder_view codec p new) (λ k e b. absurd (ground (arith, r, e)))
              (λ k e b. ground (arith, f, r, t, e)) _ news)
            (all_changes-deleted codec old.cursor new p n hints t l) ((eq_iff p p).1 refl)

  known_after :
      (old new : Folder codec)
      → IsFolder codec old
      → Since codec old new
      → old.cursor ≤ new.cursor
      → ((p : String) (r : ℕ) → lookup p new.revisions ≡ some r → r ≤ new.cursor)
        × ((p : String) (r : ℕ) → lookup p new.tombstones ≡ some r → r ≤ new.cursor)
  known_after old new w h c = (λ p r e. revs p r e (h.fate p), λ p r e. tombs p r e (h.fate p))
    where
      revs :
          (p : String) (r : ℕ)
          → lookup p new.revisions ≡ some r
          → Fate codec old new p
          → r ≤ new.cursor
      revs p r e (untouched f g t) = omega (arith, c, w.revisions_known p r (sym g ∙ e))
      revs p r e (saved m n f g t l u) = ground (arith, g, e, u)
      revs p r e (deleted n f g t l u) = absurd (ground (arith, g, e))

      tombs :
          (p : String) (r : ℕ)
          → lookup p new.tombstones ≡ some r
          → Fate codec old new p
          → r ≤ new.cursor
      tombs p r e (untouched f g t) = omega (arith, c, w.tombstones_known p r (sym t ∙ e))
      tombs p r e (saved m n f g t l u) = absurd (ground (arith, t, e))
      tombs p r e (deleted n f g t l u) = ground (arith, t, e, u)

  -- Incremental replication is exact: where a peer has a folder as it was, and the folder then had
  -- any series of saves and deletes, the changes since the peer's cursor are accepted, and the peer
  -- then has every manifest, revision and tombstone as the folder has them, and its cursor.
  -- Conditions: the folder was well formed, with every revision and rename up to its cursor; no
  -- compaction is newer than the peer; the ids are not empty; and the revisions stay below 2^64.
  pub catch_up :
      (peer_id : String) (old : Folder codec) (ops : List (Op codec)) (peer : PeerFolder codec)
      → IsFolder codec old
      → Mirrors codec old peer
      → compacted_since old.cursor none old.compactions ≡ none
      → peer_id ≢ ""
      → old.folder_id ≢ ""
      → old.cursor + length ops < 2 ^ 64
      → (message : FolderChanges codec) × (changes_since_limit codec
            (run_ops codec ops old)
            old.cursor
            0
          ≡ some message)
        × (after : PeerFolder codec) × (apply_peer_folder_changes codec peer_id message peer
            ≡ some after)
        × Mirrors codec (run_ops codec ops old) after
  catch_up peer_id old ops peer w m k i j b =
      let new = run_ops codec ops old in
      let h = run_ops-Since codec ops old w b in
      let later : old.cursor ≤ new.cursor = omega (arith, run_ops-cursor codec ops old b) in
      let known = known_after old new w h later in
      let news =
        all_changes-IsNews codec old.cursor new
          (subst (Old old.cursor) (sym h.same_hints) w.hints_known) h.revisions_once
          h.tombstones_once in
      let a =
        apply_changes-Applied codec old.cursor new.cursor new (all_changes codec new old.cursor)
          peer news known.0 known.1 m.files_once m.revisions_once m.tombstones_once in
      let result =
        accepted codec peer_id new peer old.cursor i (λ e. j (sym h.same_id ∙ e)) m.cursor
          h.files_once h.tombstones_once a
          (λ p.
            a.views p
            ∙ ap (λ (v : View codec). view_after codec p v (all_changes codec new old.cursor))
                (m.views p)
            ∙ view_after-changes old new p w h) in
      (
        full_message codec new old.cursor,
        changes_since-full codec new old.cursor
            (ap (compacted_since old.cursor none) h.same_compactions ∙ k),
        result.0,
        result.1,
        result.2,
      )
