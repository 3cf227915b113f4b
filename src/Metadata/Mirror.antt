-- ===== src/Metadata/Mirror.antt =====
-- A peer folder that mirrors a folder has its summary, and takes the message that makes it one.
use file_sync_engine.Prelude.{
  ℕ, ◌≡◌, ◌≢◌, refl, ap, ◌∙◌, String, true, false, ◌||◌, leb, ◌==◌, Option, none, some, List, [],
  ◌∷◌, ◌++◌, arith, str_eq, eq_iff,
}
use mathlib.Core.Path.{ap₂}
use file_sync_engine.Prelude.Map.{Map, lookup, Distinct}
use file_sync_engine.Prelude.Canonical.{by_key, sort_stable-eq}
use file_sync_engine.Prelude.Sort.{sort_stable}
use file_sync_engine.Metadata.{Codec, Folder, Item, file}
use file_sync_engine.Metadata.Changes.{
  FolderChanges, unless_compacted, all_changes, compacted_since, changes_since_limit,
  summary_at_cursor, folder_summary, summary_of, summary_items, file_items, deleted_items, or_zero,
}
use file_sync_engine.Metadata.Peer.{
  PeerFolder, peer_summary, stamped, verified, verified_if, apply_peer_folder_changes,
}
use file_sync_engine.Metadata.View.{View, read, view, Applied}

module _ (codec : Codec) where
  open codec use {Content}

  abbrev pub folder_view : String → Folder codec → View codec
  folder_view p s = read codec p s.files s.revisions s.tombstones

  -- A peer folder that has every path of a folder as it is, and its cursor.
  pub record Mirrors (s : Folder codec) (peer : PeerFolder codec) : Type 0 where
    pub files_once : Distinct peer.files
    pub revisions_once : Distinct peer.revisions
    pub tombstones_once : Distinct peer.tombstones
    pub cursor : peer.cursor ≡ s.cursor
    pub views : (p : String) → view codec p peer ≡ folder_view p s

  same_files :
      (a b : Map ℕ) (files : Map Content)
      → ((p : String) → lookup p a ≡ lookup p b)
      → file_items codec a files ≡ file_items codec b files
  unfolding file_items
  same_files a b [] h = refl
  same_files a b ((rel, m) ∷ files) h =
      ap₂ (λ (o : Option ℕ) (rest : List (Item Content)). file rel (or_zero o) m ∷ rest) (h rel)
        (same_files a b files h)

  -- A mirror has the summary of the folder.
  same_items :
      (s : Folder codec) (peer : PeerFolder codec)
      → Distinct s.files
      → Distinct s.tombstones
      → Mirrors s peer
      → summary_items codec peer.files peer.revisions peer.tombstones
        ≡ summary_items codec s.files s.revisions s.tombstones
  unfolding summary_items
  same_items s peer d e h =
      let tombs =
        sort_stable-eq peer.tombstones s.tombstones h.tombstones_once e
          (λ p. ap (λ (v : View codec). v.deleted_at) (h.views p)) in
      let files =
        sort_stable-eq peer.files s.files h.files_once d
          (λ p. ap (λ (v : View codec). v.file) (h.views p)) in
      ap₂ ◌++◌ (ap (deleted_items codec) tombs) (
        ap (file_items codec peer.revisions) files
        ∙ same_files peer.revisions s.revisions (sort_stable by_key s.files)
            (λ p. ap (λ (v : View codec). v.revision) (h.views p)))

  -- The message without a limit.
  abbrev pub full_message : Folder codec → ℕ → FolderChanges codec
  full_message s cursor = record {
    folder_id = s.folder_id;
    from_cursor = cursor;
    to_cursor = s.cursor;
    state_hash = (folder_summary codec s).state_hash;
    changes = all_changes codec s cursor;
  }

  summary_now :
      (s : Folder codec)
      → (summary_at_cursor codec s s.cursor).state_hash ≡ (folder_summary codec s).state_hash
  unfolding summary_at_cursor
  summary_now s = let now : leb s.cursor s.cursor ≡ true = ground arith in rw now refl

  pub changes_since-full :
      (s : Folder codec) (cursor : ℕ)
      → compacted_since cursor none s.compactions ≡ none
      → changes_since_limit codec s cursor 0 ≡ some (full_message s cursor)
  unfolding changes_since_limit summary_at_cursor
  changes_since-full s cursor h =
      ap
        (λ o. unless_compacted codec o (record {
          folder_id = s.folder_id;
          from_cursor = cursor;
          to_cursor = s.cursor;
          state_hash = (summary_at_cursor codec s s.cursor).state_hash;
          changes = all_changes codec s cursor;
        }))
        h
      ∙ ap
          (λ (x : String). some (record {
            folder_id = s.folder_id;
            from_cursor = cursor;
            to_cursor = s.cursor;
            state_hash = x;
            changes = all_changes codec s cursor;
          }))
          (summary_now s)

  verified-ok :
      (s : Folder codec) (cursor : ℕ) (peer : PeerFolder codec)
      → summary_items codec peer.files peer.revisions peer.tombstones
        ≡ summary_items codec s.files s.revisions s.tombstones
      → verified codec (full_message s cursor) peer
        ≡ some (stamped codec (full_message s cursor) peer)
  unfolding verified peer_summary folder_summary summary_of
  verified-ok s cursor peer h =
      let good : str_eq (peer_summary codec (full_message s cursor) peer).state_hash
            (folder_summary codec s).state_hash
          ≡ true =
        (eq_iff _ _).1 (ap codec.digest h) in
      rw good refl

  -- The peer takes a message whose changes make it a mirror.
  pub accepted :
      (peer_id : String) (s : Folder codec) (peer : PeerFolder codec) (cursor : ℕ)
      → peer_id ≢ ""
      → s.folder_id ≢ ""
      → peer.cursor ≡ cursor
      → Distinct s.files
      → Distinct s.tombstones
      → (a : Applied codec cursor s.cursor (all_changes codec s cursor) peer)
      → ((p : String) → view codec p a.after ≡ folder_view p s)
      → (after : PeerFolder codec) × (apply_peer_folder_changes codec peer_id
            (full_message s cursor)
            peer
          ≡ some after)
        × Mirrors s after
  unfolding apply_peer_folder_changes verified_if stamped
  accepted peer_id s peer cursor i j c d e a v =
      let mirror : Mirrors s (stamped codec (full_message s cursor) a.after) = record {
        files_once = a.files_once;
        revisions_once = a.revisions_once;
        tombstones_once = a.tombstones_once;
        cursor = refl;
        views = v;
      } in
      let items = same_items s (stamped codec (full_message s cursor) a.after) d e mirror in
      let named : (str_eq peer_id "" || str_eq s.folder_id "") ≡ false =
        ground (arith, eq_iff peer_id "", eq_iff s.folder_id "", i, j) in
      let here : (peer.cursor == cursor) ≡ true = ground (arith, c) in
      (
        stamped codec (full_message s cursor) a.after,
        rw named (
            rw here (
              ap (verified_if codec (full_message s cursor)) a.done
              ∙ verified-ok s cursor a.after items)),
        mirror,
      )
