-- ===== src/ConfigSync/Merge.antt =====
-- internal/configsync/sync.go: `Merge`, which folds a remote replica into the local one. A loop
-- over one of Go's maps is a loop over the entries in some order. The counters of `MergeStats`,
-- which only report, are left out.
pub mod Foreign
pub mod Own
pub mod Isolation
pub mod Again
use file_sync_engine.Prelude.{
  String, Bool, true, false, not, ◌&&◌, ◌||◌, Option, none, some, List, [], ◌∷◌, if◌then◌else◌,
  str_eq,
}
use file_sync_engine.Prelude.Map.{Map, lookup, insert}
use file_sync_engine.Prelude.Sort.{sort_stable}
use file_sync_engine.Prelude.Text.{str_lt}
use file_sync_engine.ConfigSync.Clock.{Clock, later_than}
use file_sync_engine.ConfigSync.Guards.{rejects, valid_key, valid_instance_id, valid_code}
use file_sync_engine.ConfigSync.Replica.{
  Field, InstanceRecord, Connection, Edit, Status, pending, applied, superseded, unknown,
  OnboardingCommand, Action, issue, accept, other, Replica, record_or_empty, record_of, own_record,
  witness, put_own, upsert_edit,
}

-- `!ok || Compare(clock, current.Clock) > 0`, for a field and for a connection.
abbrev pub wins_field : Clock → Option Field → Bool
wins_field clock none = true
wins_field clock (some current) = later_than clock current.clock

abbrev pub wins_connection : Clock → Option Connection → Bool
wins_connection clock none = true
wins_connection clock (some current) = later_than clock current.clock

-- A field that the merge reads.
abbrev pub admitted : String → Field → Bool
admitted key field = valid_key key && not (rejects key field.value)

unfoldable pub merge_fields : Map Field → Map Field → Map Field
merge_fields mine [] = mine
merge_fields mine ((key, field) ∷ rest) =
    merge_fields
      (if admitted key field && wins_field field.clock (lookup key mine)
        then insert key (record field { key = key }) mine
        else mine)
      rest

-- The clocks of the fields that were read, in the loop's order.
unfoldable pub witness_fields : Replica → Map Field → Replica
unfolding witness
witness_fields r [] = r
witness_fields r ((key, field) ∷ rest) =
    witness_fields (if admitted key field then witness r field.clock else r) rest

unfoldable pub merge_record : Replica → String → InstanceRecord → Replica
unfolding merge_fields witness_fields
merge_record r id remote =
    if not (valid_instance_id id) || str_eq id r.instance_id
    then r
    else let seen = witness_fields r remote.fields in
      record seen {
        records =
            insert id
              (record (record_of r id) {
                fields = merge_fields (record_of r id).fields remote.fields;
              })
              r.records;
      }

unfoldable pub merge_records : Replica → Map InstanceRecord → Replica
unfolding merge_record
merge_records r [] = r
merge_records r ((id, remote) ∷ rest) = merge_records (merge_record r id remote) rest

unfoldable pub merge_connection : Replica → String → Connection → Replica
unfolding witness
merge_connection r id conn =
    if not (valid_instance_id id)
    then r
    else let seen = witness r conn.clock in
      if wins_connection conn.clock (lookup id r.connections)
      then record seen { connections = insert id conn r.connections }
      else seen

unfoldable pub merge_connections : Replica → Map Connection → Replica
unfolding merge_connection
merge_connections r [] = r
merge_connections r ((id, conn) ∷ rest) = merge_connections (merge_connection r id conn) rest

abbrev pub is_pending : Status → Bool
is_pending pending = true
is_pending applied = false
is_pending superseded = false
is_pending (unknown text) = false

-- An edit for this engine is applied to its own record if its clock wins there, and marked; any
-- other is stored as it came.
unfoldable pub merge_edit : Replica → Edit → Replica
unfolding witness upsert_edit
merge_edit r edit =
    let seen = witness r edit.clock in
    if str_eq edit.target r.instance_id && is_pending edit.status
    then (if valid_key edit.path && not (rejects edit.path edit.value)
        then (if wins_field edit.clock (lookup edit.path (own_record r).fields)
            then upsert_edit (put_own seen edit.path edit.value edit.deleted edit.clock)
                (record edit { status = applied })
            else upsert_edit seen (record edit { status = superseded }))
        else upsert_edit seen edit)
    else upsert_edit seen edit

unfoldable pub merge_edits : Replica → List Edit → Replica
unfolding merge_edit
merge_edits r [] = r
merge_edits r (edit ∷ rest) = merge_edits (merge_edit r edit) rest

abbrev pub readable_action : Action → String → Bool
readable_action issue text = true
readable_action accept text = str_eq text "" || valid_code text
readable_action (other name) text = false

-- A command of an unknown action, or an accept with a bad code, is passed over.
abbrev pub readable : OnboardingCommand → Bool
readable command =
    valid_instance_id command.target && readable_action command.action command.pairing_code

unfoldable pub upsert_command : OnboardingCommand → List OnboardingCommand → List OnboardingCommand
upsert_command command [] = command ∷ []
upsert_command command (c ∷ commands) =
    if str_eq c.id command.id
    then (if later_than command.clock c.clock then command ∷ commands else c ∷ commands)
    else c ∷ upsert_command command commands

unfoldable pub merge_onboarding : Replica → List OnboardingCommand → Replica
unfolding witness upsert_command
merge_onboarding r [] = r
merge_onboarding r (command ∷ rest) =
    let seen = witness r command.clock in
    merge_onboarding
      (if readable command
        then record seen { onboarding = upsert_command command r.onboarding }
        else r)
      rest

unfoldable pub merge : Replica → Replica → Replica
unfolding merge_records merge_connections merge_edits merge_onboarding
merge local remote =
    let named = record local {
      group_id = if str_eq local.group_id "" then remote.group_id else local.group_id;
    } in
    let merged =
      merge_onboarding
        (merge_edits (merge_connections (merge_records named remote.records) remote.connections)
          remote.edits)
        remote.onboarding in
    record merged {
      edits = sort_stable (λ (a b : Edit). str_lt a.id b.id) merged.edits;
      onboarding =
          sort_stable (λ (a b : OnboardingCommand). later_than b.clock a.clock) merged.onboarding;
    }
