-- ===== src/Metadata/Refresh.antt =====
-- internal/state/json_store.go: a full refresh of what a node knows of a folder of a peer.
pub mod Mirrored
use file_sync_engine.Prelude.{
  ℕ, String, not, Option, none, some, List, [], ◌∷◌, ◌||◌, ◌==◌, str_eq, if◌then◌else◌,
}
use file_sync_engine.Prelude.Lists.{length}
use file_sync_engine.Prelude.Map.{Map, lookup}
use file_sync_engine.Metadata.{Codec}
use file_sync_engine.Metadata.Changes.{FolderSummary, or_zero}
use file_sync_engine.Metadata.Peer.{PeerFolder, put_file}

-- The revision of a path, or the cursor where none is given.
unfoldable pub refreshed_revision : ℕ → Map ℕ → String → ℕ
unfolding lookup
refreshed_revision cursor revisions path =
    let rev = or_zero (lookup path revisions) in if rev == 0 then cursor else rev

unfoldable pub named : String → FolderSummary → FolderSummary
named folder_id summary =
    if str_eq summary.folder_id "" then record summary { folder_id = folder_id } else summary

module _ (codec : Codec) where
  open codec use {Content}

  -- The loop over the manifests.
  unfoldable pub put_all : ℕ → Map ℕ → Map Content → PeerFolder codec → PeerFolder codec
  unfolding put_file refreshed_revision
  put_all cursor revisions [] peer = peer
  put_all cursor revisions ((path, m) ∷ rest) peer =
      put_all cursor revisions rest
        (put_file codec path (refreshed_revision cursor revisions path) m peer)

  unfoldable pub refreshed_folder :
      String → FolderSummary → Map Content → Map ℕ → PeerFolder codec → PeerFolder codec
  unfolding put_all
  refreshed_folder folder_id summary manifests revisions peer =
      let cleared = record peer { files = []; revisions = []; tombstones = [] } in
      record (put_all summary.cursor revisions manifests cleared) {
        cursor = summary.cursor;
        state = summary;
        checkpoint = some (record {
          folder_id = folder_id;
          from_cursor = 0;
          to_cursor = summary.cursor;
          change_count = length manifests;
          last_verified_cursor = summary.cursor;
          last_verified_state_hash = summary.state_hash;
        });
      }

  -- `ReplacePeerFolderFromFullRefresh`; `none` is an error.
  unfoldable pub replace_peer_folder :
      String
      → String
      → FolderSummary
      → Map Content
      → Map ℕ
      → PeerFolder codec
      → Option (PeerFolder codec)
  unfolding named refreshed_folder
  replace_peer_folder peer_id folder_id summary manifests revisions peer =
      if str_eq peer_id ""
        || str_eq folder_id ""
        || not (str_eq (named folder_id summary).folder_id folder_id)
      then none
      else some (refreshed_folder folder_id (named folder_id summary) manifests revisions peer)
