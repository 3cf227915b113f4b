-- ===== src/SyncPlan/Agree.antt =====
-- The decisions of two peers that look at one pair of versions fit together.
use file_sync_engine.Prelude.{◌≡◌, ◌≢◌, arith, eq_iff, ◌⊎◌}
use file_sync_engine.SyncPlan.{
  Action, send_receive, FileVersion, noop, send_local, apply_remote, conflict_copy, report_drift,
  decide, policy_for_mode,
}

-- The action that fits to the action of the other side.
unfoldable pub answer : Action → Action
answer noop = noop
answer send_local = apply_remote
answer apply_remote = send_local
answer conflict_copy = conflict_copy
answer report_drift = report_drift

-- Of two send-receive folders that hold versions of a file with different numbers or from
-- different devices, each decides what fits to the other's decision: one sends where the other
-- applies, and both keep a conflict copy or neither.
pub decide-answer :
    (local remote : FileVersion)
    → (local.version ≢ remote.version) ⊎ (local.device_id ≢ remote.device_id)
    → decide remote local send_receive ≡ answer (decide local remote send_receive)
unfolding decide policy_for_mode answer
decide-answer local remote differ = ground (
  arith,
  eq_iff local.hash remote.hash,
  eq_iff remote.hash local.hash,
  eq_iff local.device_id remote.device_id,
  eq_iff remote.device_id local.device_id,
)
