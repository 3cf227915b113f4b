-- ===== src/Metadata/Compaction.antt =====
-- internal/state/json_store.go: the compaction of a folder's tombstones up to a cursor that is safe
-- for the peers of a policy.
pub mod Told
use file_sync_engine.Prelude.{
  ℕ, ◌-◌, String, Bool, ◌&&◌, Option, none, some, List, [], ◌∷◌, ◌++◌, ltb, leb, if◌then◌else◌,
}
use file_sync_engine.Prelude.Lists.{length}
use file_sync_engine.Prelude.Map.{Map, lookup, insert}
use file_sync_engine.Prelude.Sort.{sort_stable}
use file_sync_engine.Prelude.Text.{str_lt}
use file_sync_engine.Metadata.{Codec, CompactionSnapshot, Folder}
use file_sync_engine.Metadata.Changes.{or_zero, up_to, folder_summary}

pub record CompactionPolicy : Type 0 where
  pub peer_ids : List String
  pub retain_last_cursors : ℕ

pub record CompactionPlan : Type 0 where
  pub folder_id : String
  pub current_cursor : ℕ
  pub safe_cursor : ℕ
  pub peer_cursors : Map ℕ
  pub blocked_peers : List String
  pub eligible_tombstones : ℕ
  pub retained_tombstones : ℕ

-- The cursor of a peer's state, 0 for a peer without one.
unfoldable pub state_cursor : Map ℕ → String → ℕ
unfolding lookup
state_cursor states peer = or_zero (lookup peer states)

-- The loop over the peers of the policy: the least cursor of a peer.
unfoldable pub least_cursor : Map ℕ → List String → ℕ → ℕ
unfolding state_cursor
least_cursor states [] safe = safe
least_cursor states (peer ∷ peers) safe =
    let cursor = state_cursor states peer in
    least_cursor states peers (if ltb cursor safe then cursor else safe)

-- The same loop: the cursors of the peers.
unfoldable pub cursors_of : Map ℕ → List String → Map ℕ → Map ℕ
unfolding state_cursor insert
cursors_of states [] out = out
cursors_of states (peer ∷ peers) out =
    cursors_of states peers (insert peer (state_cursor states peer) out)

-- The same loop: the peers that are behind.
unfoldable pub blocked : Map ℕ → ℕ → List String → List String
unfolding state_cursor
blocked states current [] = []
blocked states current (peer ∷ peers) =
    let rest = blocked states current peers in
    if ltb (state_cursor states peer) current then peer ∷ rest else rest

-- The cursor above which the policy keeps every tombstone.
unfoldable pub retention_floor : ℕ → ℕ → ℕ
retention_floor current retain = if ltb retain current then current - retain else 0

unfoldable pub retained_safe : ℕ → ℕ → ℕ → ℕ
unfolding retention_floor
retained_safe current retain safe =
    if ltb 0 retain && ltb (retention_floor current retain) safe
    then retention_floor current retain
    else safe

-- The tombstones that a compaction keeps.
unfoldable pub kept_above : ℕ → Map ℕ → Map ℕ
kept_above safe [] = []
kept_above safe ((rel, rev) ∷ rest) =
    let others = kept_above safe rest in if leb rev safe then others else (rel, rev) ∷ others

unfoldable pub safe_of : CompactionPolicy → Map ℕ → ℕ → ℕ
unfolding least_cursor retained_safe
safe_of policy states current =
    retained_safe current policy.retain_last_cursors (least_cursor states policy.peer_ids current)

module _ (codec : Codec) where
  -- `metadataCompactionPlan`; `states` has the cursors of the peers' states.
  unfoldable pub compaction_plan : CompactionPolicy → Map ℕ → Folder codec → CompactionPlan
  unfolding safe_of cursors_of blocked up_to kept_above
  compaction_plan policy states s =
      let safe = safe_of policy states s.cursor in
      record {
        folder_id = s.folder_id;
        current_cursor = s.cursor;
        safe_cursor = safe;
        peer_cursors = cursors_of states policy.peer_ids [];
        blocked_peers = sort_stable str_lt (blocked states s.cursor policy.peer_ids);
        eligible_tombstones = length (up_to safe s.tombstones);
        retained_tombstones = length (kept_above safe s.tombstones);
      }

  -- The snapshot of a compaction up to a cursor.
  unfoldable pub compaction_snapshot : ℕ → Folder codec → CompactionSnapshot
  unfolding folder_summary up_to
  compaction_snapshot safe s =
      let before = folder_summary codec s in
      record {
        folder_id = s.folder_id;
        cursor = before.cursor;
        state_hash = before.state_hash;
        files = before.files;
        tombstones = before.tombstones;
        safe_cursor = safe;
        compacted_tombstones = length (up_to safe s.tombstones);
      }

  unfoldable pub compacted_to : ℕ → Folder codec → Folder codec
  unfolding kept_above compaction_snapshot
  compacted_to safe s = record s {
    tombstones = kept_above safe s.tombstones;
    compactions = s.compactions ++ compaction_snapshot safe s ∷ [];
  }

  -- `CompactFolderMetadata`: nothing is saved when no tombstone goes.
  unfoldable pub compact_folder : CompactionPolicy → Map ℕ → Folder codec → Folder codec
  unfolding compaction_plan compaction_snapshot compacted_to
  compact_folder policy states s =
      let safe = (compaction_plan policy states s).safe_cursor in
      if ltb 0 (compaction_snapshot safe s).compacted_tombstones then compacted_to safe s else s
