-- ===== src/Metadata/Peer.antt =====
-- internal/state/json_store.go: what a node knows of a folder of a peer, and how it takes the
-- changes that the peer tells.
use file_sync_engine.Prelude.{
  ℕ, String, not, ◌&&◌, ◌||◌, Option, none, some, List, [], ◌∷◌, ltb, leb, ◌==◌, str_eq,
  if◌then◌else◌,
}
use file_sync_engine.Prelude.Lists.{length}
use file_sync_engine.Prelude.Map.{Map, insert, erase}
use file_sync_engine.Metadata.{Codec, RenameHint}
use file_sync_engine.Metadata.Changes.{
  ChangeKind, upsert_change, delete_change, move_change, FolderSummary, FolderChange, FolderChanges,
  summary_of,
}

pub record PeerApplyCheckpoint : Type 0 where
  pub folder_id : String
  pub from_cursor : ℕ
  pub to_cursor : ℕ
  pub change_count : ℕ
  pub last_verified_cursor : ℕ
  pub last_verified_state_hash : String

module _ (codec : Codec) where
  open codec use {Content}

  -- What the peer maps hold for one peer and folder.
  pub record PeerFolder : Type 0 where
    pub files : Map Content
    pub revisions : Map ℕ
    pub tombstones : Map ℕ
    pub rename_hints : Map RenameHint
    pub cursor : ℕ
    pub state : FolderSummary
    pub checkpoint : Option PeerApplyCheckpoint

  unfoldable pub put_file : String → ℕ → Content → PeerFolder → PeerFolder
  unfolding insert
  put_file path rev m peer = record peer {
    files = insert path m peer.files;
    revisions = insert path rev peer.revisions;
  }

  unfoldable pub drop_file : String → ℕ → PeerFolder → PeerFolder
  unfolding insert erase
  drop_file path rev peer = record peer {
    files = erase path peer.files;
    revisions = erase path peer.revisions;
    tombstones = insert path rev peer.tombstones;
  }

  unfoldable pub clear_tombstone : String → PeerFolder → PeerFolder
  unfolding erase
  clear_tombstone path peer = record peer { tombstones = erase path peer.tombstones }

  unfoldable pub put_hint : FolderChange codec → PeerFolder → PeerFolder
  unfolding insert
  put_hint c peer = record peer {
    rename_hints =
        insert c.from_path
          (record { from_path = c.from_path; to_path = c.path; revision = c.revision })
          peer.rename_hints;
  }

  -- One change, by its kind; `none` is an error.
  unfoldable pub apply_kind : ChangeKind → FolderChange codec → PeerFolder → Option PeerFolder
  unfolding put_file drop_file clear_tombstone put_hint
  apply_kind upsert_change c peer = elim c.manifest [
    | none ↦ none
    | some m ↦ some (clear_tombstone c.path (put_file c.path c.revision m peer))
  ]
  apply_kind delete_change c peer = some (drop_file c.path c.revision peer)
  apply_kind move_change c peer = elim c.manifest [
    | none ↦ none
    | some m ↦
        if str_eq c.from_path ""
        then none
        else some
            (put_hint c (put_file c.path c.revision m (drop_file c.from_path c.revision peer)))
  ]

  -- The loop over the changes of a message from `from` to `to`.
  unfoldable pub apply_changes : ℕ → ℕ → List (FolderChange codec) → PeerFolder → Option PeerFolder
  unfolding apply_kind
  apply_changes from to [] peer = some peer
  apply_changes from to (c ∷ changes) peer =
      if leb c.revision from || ltb to c.revision then none else elim (apply_kind c.kind c peer) [
        | none ↦ none
        | some next ↦ apply_changes from to changes next
      ]

  unfoldable pub peer_summary : FolderChanges codec → PeerFolder → FolderSummary
  unfolding summary_of
  peer_summary changes peer =
      summary_of codec changes.folder_id peer.files peer.revisions peer.tombstones changes.to_cursor

  -- The cursor, the state and the checkpoint after a message.
  unfoldable pub stamped : FolderChanges codec → PeerFolder → PeerFolder
  unfolding peer_summary
  stamped changes peer =
      let summary = peer_summary changes peer in
      record peer {
        cursor = changes.to_cursor;
        state = summary;
        checkpoint = some (record {
          folder_id = changes.folder_id;
          from_cursor = changes.from_cursor;
          to_cursor = changes.to_cursor;
          change_count = length changes.changes;
          last_verified_cursor = summary.cursor;
          last_verified_state_hash = summary.state_hash;
        });
      }

  -- The check of the state hash after the loop.
  unfoldable pub verified : FolderChanges codec → PeerFolder → Option PeerFolder
  unfolding peer_summary stamped
  verified changes peer =
      if str_eq (peer_summary changes peer).state_hash changes.state_hash
      then some (stamped changes peer)
      else none

  unfoldable pub verified_if : FolderChanges codec → Option PeerFolder → Option PeerFolder
  unfolding verified
  verified_if changes none = none
  verified_if changes (some candidate) = verified changes candidate

  -- A message that does not start at the cursor is taken for one that was applied before, or is an
  -- error.
  unfoldable pub applied_before : FolderChanges codec → PeerFolder → Option PeerFolder
  applied_before changes peer =
      if peer.cursor == changes.to_cursor
        && peer.state.cursor == changes.to_cursor
        && str_eq peer.state.state_hash changes.state_hash
      then some peer
      else none

  -- `ApplyPeerFolderChanges`. With `none`, an error, the store keeps what it had.
  unfoldable pub apply_peer_folder_changes :
      String → FolderChanges codec → PeerFolder → Option PeerFolder
  unfolding apply_changes verified_if applied_before
  apply_peer_folder_changes peer_id changes peer =
      if str_eq peer_id "" || str_eq changes.folder_id ""
      then none
      else if not (peer.cursor == changes.from_cursor)
      then applied_before changes peer
      else verified_if changes
          (apply_changes changes.from_cursor changes.to_cursor changes.changes peer)
