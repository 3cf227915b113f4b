-- ===== src/Metadata/Asked.antt =====
-- internal/state/json_store.go: the summary that a peer sends when it asks for changes is kept in the
-- place where the node keeps its own copy's summary of the peer's folder.
use file_sync_engine.Prelude.{ℕ, ◌≡◌, ◌≢◌, ◌≤◌, refl, String, none, some, [], ◌∷◌, arith, eq_iff}
use file_sync_engine.Prelude.Lists.{All, All-map}
use file_sync_engine.Prelude.Map.{Map, lookup}
use file_sync_engine.Prelude.Sort.{sort_stable}
use file_sync_engine.Metadata.{Codec, RenameHint, Folder}
use file_sync_engine.Metadata.Changes.{
  FolderSummary, FolderChanges, compacted_since, revision_changes, tombstone_changes, all_changes,
  changes_since_limit, folder_summary, summary_of, summary_items,
}
use file_sync_engine.Metadata.Peer.{
  PeerFolder, apply_changes, peer_summary, verified, verified_if, apply_peer_folder_changes,
}
use file_sync_engine.Metadata.History.{IsFolder}
use file_sync_engine.Metadata.News.{Distinct-reads}
use file_sync_engine.Metadata.Mirror.{full_message, changes_since-full}

module _ (codec : Codec) where
  open codec use {Content}

  -- `SavePeerFolderState`
  unfoldable pub save_peer_folder_state : FolderSummary → PeerFolder codec → PeerFolder codec
  save_peer_folder_state summary peer = record peer { state = summary; cursor = summary.cursor }

  abbrev UpTo : ℕ → Map ℕ → Type 0
  UpTo cursor m = All (λ (e : String × ℕ). e.1 ≤ cursor) m

  known_UpTo :
      (known cursor : ℕ) (m : Map ℕ)
      → known ≤ cursor
      → All (λ (e : String × ℕ). lookup e.0 m ≡ some e.1) m
      → ((p : String) (r : ℕ) → lookup p m ≡ some r → r ≤ known)
      → UpTo cursor m
  known_UpTo known cursor m k reads h =
      All-map (λ (e : String × ℕ) (r : lookup e.0 m ≡ some e.1). omega (arith, h e.0 e.1 r, k)) m
        reads

  old_revisions :
      (cursor : ℕ) (hints : Map RenameHint) (files : Map Content) (m : Map ℕ)
      → UpTo cursor m
      → revision_changes codec cursor hints files m ≡ []
  unfolding revision_changes
  old_revisions cursor hints files [] h = refl
  old_revisions cursor hints files ((rel, rev) ∷ m) h =
      ground (arith, h.0, old_revisions cursor hints files m h.1)

  old_tombstones :
      (cursor : ℕ) (hints : Map RenameHint) (m : Map ℕ)
      → UpTo cursor m
      → tombstone_changes codec cursor hints m ≡ []
  unfolding tombstone_changes
  old_tombstones cursor hints [] h = refl
  old_tombstones cursor hints ((rel, rev) ∷ m) h =
      ground (arith, h.0, old_tombstones cursor hints m h.1)

  nothing_told :
      (s : Folder codec) (cursor : ℕ)
      → IsFolder codec s
      → s.cursor ≤ cursor
      → all_changes codec s cursor ≡ []
  unfolding all_changes sort_stable
  nothing_told s cursor w h =
      let revs = old_revisions cursor s.rename_hints s.files s.revisions (
        known_UpTo s.cursor cursor s.revisions h (Distinct-reads s.revisions w.revisions_once)
          w.revisions_known) in
      let tombs = old_tombstones cursor s.rename_hints s.tombstones (
        known_UpTo s.cursor cursor s.tombstones h (Distinct-reads s.tombstones w.tombstones_once)
          w.tombstones_known) in
      rw revs (rw tombs refl)

  hash_refused :
      (message : FolderChanges codec) (copy : PeerFolder codec)
      → (peer_summary codec message copy).state_hash ≢ message.state_hash
      → verified codec message copy ≡ none
  unfolding verified
  hash_refused message copy n =
      ground (arith, n, eq_iff (peer_summary codec message copy).state_hash message.state_hash)

  nothing_taken :
      (peer_id : String) (message : FolderChanges codec) (copy : PeerFolder codec)
      → message.changes ≡ []
      → copy.cursor ≡ message.from_cursor
      → (peer_summary codec message copy).state_hash ≢ message.state_hash
      → apply_peer_folder_changes codec peer_id message copy ≡ none
  unfolding apply_peer_folder_changes apply_changes verified_if
  nothing_taken peer_id message copy e c n =
      let taken : apply_changes codec message.from_cursor message.to_cursor message.changes copy
          ≡ some copy =
        rw e refl in
      let refused : verified_if codec message
            (apply_changes codec message.from_cursor message.to_cursor message.changes copy)
          ≡ none =
        rw taken (hash_refused message copy n) in
      ground (arith, refused, c)

  -- Once a peer has asked with a cursor into the node's own folder, the node asks with that cursor.
  -- Where it is at or above the cursor of the peer's folder, the peer answers without an error, and
  -- the node refuses the answer, unless its copy has the same digest as the peer's folder.
  pub save_peer_folder_state-refused :
      (peer_id : String) (s : Folder codec) (summary : FolderSummary) (peer : PeerFolder codec)
      → IsFolder codec s
      → s.cursor ≤ summary.cursor
      → compacted_since summary.cursor none s.compactions ≡ none
      → codec.digest (summary_items codec peer.files peer.revisions peer.tombstones)
        ≢ codec.digest (summary_items codec s.files s.revisions s.tombstones)
      → let saved = save_peer_folder_state summary peer in
        (message : FolderChanges codec) × (changes_since_limit codec s saved.state.cursor 0
          ≡ some message)
        × (apply_peer_folder_changes codec peer_id message saved ≡ none)
  unfolding save_peer_folder_state apply_peer_folder_changes apply_changes verified_if verified
      peer_summary folder_summary summary_of
  save_peer_folder_state-refused peer_id s summary peer w h c n =
      let told = nothing_told s summary.cursor w h in
      (
        full_message codec s summary.cursor,
        changes_since-full codec s summary.cursor c,
        nothing_taken peer_id (full_message codec s summary.cursor)
            (save_peer_folder_state summary peer) told refl n,
      )
