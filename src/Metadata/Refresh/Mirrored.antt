-- ===== src/Metadata/Refresh/Mirrored.antt =====
-- A full refresh makes the peer's copy a mirror of the folder.
use file_sync_engine.Prelude.{
  ℕ, ◌≡◌, ◌≢◌, refl, ap, sym, subst, ◌∙◌, String, ◌==◌, Option, none, some, [], ◌∷◌, arith, str_eq,
  eq_iff, if◌then◌else◌, Bool-cases, inl, inr,
}
use file_sync_engine.Prelude.Map.{Map, lookup, Distinct, lookup-insert, insert-Distinct}
use file_sync_engine.Metadata.{Codec, Folder}
use file_sync_engine.Metadata.Changes.{or_zero, folder_summary}
use file_sync_engine.Metadata.Peer.{PeerFolder, put_file}
use file_sync_engine.Metadata.View.{view_eq}
use file_sync_engine.Metadata.Mirror.{Mirrors}
use file_sync_engine.Metadata.Refresh.{
  refreshed_revision, named, put_all, refreshed_folder, replace_peer_folder,
}

module _ (codec : Codec) where
  open codec use {Content}

  -- A folder whose files, and no other paths, have a revision, which is not 0.
  pub record HasRevisions (s : Folder codec) : Type 0 where
    pub files_once : Distinct s.files
    pub unrevised : (p : String) → lookup p s.files ≡ none → lookup p s.revisions ≡ none
    pub revised : (p : String) → lookup p s.files ≢ none → or_zero (lookup p s.revisions) ≢ 0

  abbrev or_other : {V : Type 0} → Option V → Option V → Option V
  or_other none other = other
  or_other (some v) other = some v

  abbrev revision_at : ℕ → Option Content → Option ℕ → Option ℕ
  revision_at rev none other = other
  revision_at rev (some m) other = some rev

  or_other-none : (o : Option Content) → or_other o none ≡ o
  or_other-none none = refl
  or_other-none (some m) = refl

  put_all-files :
      (cursor : ℕ) (revisions : Map ℕ) (manifests : Map Content) (peer : PeerFolder codec)
      (p : String)
      → Distinct manifests
      → lookup p (put_all codec cursor revisions manifests peer).files
        ≡ or_other (lookup p manifests) (lookup p peer.files)
  unfolding put_all put_file lookup
  put_all-files cursor revisions [] peer p d = refl
  put_all-files cursor revisions ((path, m) ∷ rest) peer p d =
      let next = put_file codec path (refreshed_revision cursor revisions path) m peer in
      let ih = put_all-files cursor revisions rest next p d.1 in
      elim (Bool-cases (str_eq path p)) [
        | inl e ↦ ground (arith, ih, e, (eq_iff path p).0 e, d.0, lookup-insert path p m peer.files)
        | inr e ↦ ground (arith, ih, e, lookup-insert path p m peer.files)
      ]

  put_all-revisions :
      (cursor : ℕ) (revisions : Map ℕ) (manifests : Map Content) (peer : PeerFolder codec)
      (p : String)
      → Distinct manifests
      → lookup p (put_all codec cursor revisions manifests peer).revisions
        ≡ revision_at
            (refreshed_revision cursor revisions p)
            (lookup p manifests)
            (lookup p peer.revisions)
  unfolding put_all put_file lookup
  put_all-revisions cursor revisions [] peer p d = refl
  put_all-revisions cursor revisions ((path, m) ∷ rest) peer p d =
      let rev = refreshed_revision cursor revisions path in
      let next = put_file codec path rev m peer in
      let ih = put_all-revisions cursor revisions rest next p d.1 in
      elim (Bool-cases (str_eq path p)) [
        | inl e ↦
            ground (arith, ih, e, (eq_iff path p).0 e, d.0, lookup-insert path p rev peer.revisions)
        | inr e ↦ ground (arith, ih, e, lookup-insert path p rev peer.revisions)
      ]

  put_all-tombstones :
      (cursor : ℕ) (revisions : Map ℕ) (manifests : Map Content) (peer : PeerFolder codec)
      → (put_all codec cursor revisions manifests peer).tombstones ≡ peer.tombstones
  unfolding put_all put_file
  put_all-tombstones cursor revisions [] peer = refl
  put_all-tombstones cursor revisions ((path, m) ∷ rest) peer =
      put_all-tombstones cursor revisions rest
        (put_file codec path (refreshed_revision cursor revisions path) m peer)

  put_all-Distinct :
      (cursor : ℕ) (revisions : Map ℕ) (manifests : Map Content) (peer : PeerFolder codec)
      → Distinct peer.files
      → Distinct peer.revisions
      → Distinct (put_all codec cursor revisions manifests peer).files
        × Distinct (put_all codec cursor revisions manifests peer).revisions
  unfolding put_all put_file
  put_all-Distinct cursor revisions [] peer d e = (d, e)
  put_all-Distinct cursor revisions ((path, m) ∷ rest) peer d e =
      put_all-Distinct cursor revisions rest
        (put_file codec path (refreshed_revision cursor revisions path) m peer)
        (insert-Distinct path m peer.files d)
        (insert-Distinct path (refreshed_revision cursor revisions path) peer.revisions e)

  chosen_revision :
      (cursor : ℕ) (f : Option Content) (r : Option ℕ)
      → (f ≡ none → r ≡ none)
      → (f ≢ none → or_zero r ≢ 0)
      → revision_at (if or_zero r == 0 then cursor else or_zero r) f none ≡ r
  chosen_revision cursor none r u v = sym (u refl)
  chosen_revision cursor (some m) none u v = elim (v (λ e. ground (arith, e)) refl) [ ]
  chosen_revision cursor (some m) (some r) u v =
      let positive : r ≢ 0 = v (λ e. ground (arith, e)) in ground (arith, positive)

  -- After a full refresh from the summary, files and revisions of a folder without tombstones the
  -- node's copy mirrors the folder, whatever it was before. Conditions: the ids are not empty; each
  -- file, and no other path, has a revision, which is not 0.
  pub replace_peer_folder-Mirrors :
      (peer_id : String) (s : Folder codec) (peer : PeerFolder codec)
      → peer_id ≢ ""
      → s.folder_id ≢ ""
      → s.tombstones ≡ []
      → HasRevisions s
      → (after : PeerFolder codec) × (replace_peer_folder codec peer_id s.folder_id
            (folder_summary codec s)
            s.files
            s.revisions
            peer
          ≡ some after)
        × Mirrors codec s after
  unfolding replace_peer_folder named refreshed_folder folder_summary refreshed_revision
  replace_peer_folder-Mirrors peer_id s peer n k t h =
      let cleared = record peer { files = []; revisions = []; tombstones = [] } in
      let once = put_all-Distinct s.cursor s.revisions s.files cleared tt tt in
      let tombs = put_all-tombstones s.cursor s.revisions s.files cleared in
      (
        refreshed_folder codec s.folder_id (folder_summary codec s) s.files s.revisions peer,
        ground
            (arith, eq_iff peer_id "", eq_iff s.folder_id "", eq_iff s.folder_id s.folder_id, n, k),
        record {
          files_once = once.0;
          revisions_once = once.1;
          tombstones_once = subst Distinct (sym tombs) tt;
          cursor = refl;
          views = λ p.
              view_eq codec p _ _ _ _ _ _
                (put_all-files s.cursor s.revisions s.files cleared p h.files_once
                  ∙ or_other-none (lookup p s.files))
                (put_all-revisions s.cursor s.revisions s.files cleared p h.files_once
                  ∙ chosen_revision s.cursor (lookup p s.files) (lookup p s.revisions)
                      (h.unrevised p) (h.revised p))
                (ap (lookup p) (tombs ∙ sym t));
        },
      )
