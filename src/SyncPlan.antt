-- ===== src/SyncPlan.antt =====
-- internal/syncplan/policy.go: what a folder does with a file that differs from a peer's.
pub mod Agree
use file_sync_engine.Prelude.{
  ℕ, String, Bool, true, false, not, ◌&&◌, ltb, ◌==◌, str_eq, if◌then◌else◌,
}

-- A folder mode is a string of the configuration; every other string is `send_receive`.
pub data FolderMode : Type 0 where
  send_receive : FolderMode
  send_only : FolderMode
  receive_only : FolderMode

pub record Policy : Type 0 where
  pub advertise_local_changes : Bool
  pub apply_remote_changes : Bool
  pub report_local_drift : Bool

unfoldable pub policy_for_mode : FolderMode → Policy
policy_for_mode send_only = record {
  advertise_local_changes = true;
  apply_remote_changes = false;
  report_local_drift = false;
}
policy_for_mode receive_only = record {
  advertise_local_changes = false;
  apply_remote_changes = true;
  report_local_drift = true;
}
policy_for_mode send_receive = record {
  advertise_local_changes = true;
  apply_remote_changes = true;
  report_local_drift = false;
}

-- `Version` is a uint64 that is only compared.
pub record FileVersion : Type 0 where
  pub path : String
  pub version : ℕ
  pub device_id : String
  pub hash : String

pub data Action : Type 0 where
  noop : Action
  send_local : Action
  apply_remote : Action
  conflict_copy : Action
  report_drift : Action

-- `Reason`, a text for the log, is left out, and so are the two paths of a conflict copy.
unfoldable pub decide : FileVersion → FileVersion → FolderMode → Action
unfolding policy_for_mode
decide local remote mode =
    let policy = policy_for_mode mode in
    if str_eq local.hash remote.hash
    then noop
    else if policy.report_local_drift
    then report_drift
    else if not policy.apply_remote_changes
    then send_local
    else if not policy.advertise_local_changes
    then apply_remote
    else if local.version == remote.version && not (str_eq local.device_id remote.device_id)
    then conflict_copy
    else if ltb local.version remote.version
    then apply_remote
    else send_local
