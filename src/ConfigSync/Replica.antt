-- ===== src/ConfigSync/Replica.antt =====
-- internal/configsync/sync.go: one engine's copy of the settings, and its local writes.
use file_sync_engine.Prelude.{
  String, Bool, not, ◌||◌, Option, none, some, List, [], ◌∷◌, if◌then◌else◌, str_eq,
}
use file_sync_engine.Prelude.Int.{ℤ, pos}
use file_sync_engine.Prelude.Map.{Map, lookup, insert}
use file_sync_engine.ConfigSync.Clock.{Clock, tick_clock, witness_clock}
use file_sync_engine.ConfigSync.Guards.{Value, rejects, valid_key, valid_instance_id}

pub record Field : Type 0 where
  pub key : String
  pub value : Value
  pub deleted : Bool
  pub clock : Clock
  pub writer : String

pub record InstanceRecord : Type 0 where
  pub instance_id : String
  pub fields : Map Field

-- How to reach an engine: the clock, and the remaining fields as one value.
pub record Connection : Type 0 where
  pub instance_id : String
  pub details : Value
  pub clock : Clock

pub data Status : Type 0 where
  pending applied superseded : Status
  -- any other text that a peer may send
  unknown : String → Status

-- The id of an edit is a text made of the target, the path and the clock.
pub record Edit : Type 0 where
  pub id : String
  pub target : String
  pub path : String
  pub value : Value
  pub deleted : Bool
  pub clock : Clock
  pub origin : String
  pub status : Status

pub data Action : Type 0 where
  issue accept : Action
  other : String → Action

pub record OnboardingCommand : Type 0 where
  pub id : String
  pub target : String
  pub action : Action
  pub pairing_code : String
  pub expires : String
  pub status : String
  pub message : String
  pub clock : Clock
  pub origin : String

pub record Replica : Type 0 where
  pub group_id : String
  pub instance_id : String
  pub records : Map InstanceRecord
  pub connections : Map Connection
  pub edits : List Edit
  pub onboarding : List OnboardingCommand
  pub local_clock : Clock

-- `NewReplica`; `none` is its panic.
unfoldable pub new_replica : String → String → Option Replica
new_replica group_id instance_id =
    if not (valid_instance_id instance_id)
    then none
    else some (record {
      group_id = group_id;
      instance_id = instance_id;
      records = [];
      connections = [];
      edits = [];
      onboarding = [];
      local_clock = record { wall = pos 0; counter = 0; node_id = instance_id };
    })

-- `r.Records[id]`, with the zero record for a missing key and its id filled in.
abbrev pub record_or_empty : String → Option InstanceRecord → InstanceRecord
record_or_empty id none = record { instance_id = id; fields = [] }
record_or_empty id (some rec) = record rec { instance_id = id }

abbrev pub record_of : Replica → String → InstanceRecord
record_of r id = record_or_empty id (lookup id r.records)

abbrev pub own_record : Replica → InstanceRecord
own_record r = record_of r r.instance_id

unfoldable pub tick : Replica → ℤ → Replica
unfolding tick_clock
tick r wall = record r { local_clock = tick_clock r.local_clock r.instance_id wall }

unfoldable pub witness : Replica → Clock → Replica
unfolding witness_clock
witness r remote = record r { local_clock = witness_clock r.local_clock r.instance_id remote }

unfoldable pub put_own : Replica → String → Value → Bool → Clock → Replica
put_own r key value deleted clock = record r {
  records =
      insert r.instance_id
        (record (own_record r) {
          fields =
              insert key
                (record {
                  key = key;
                  value = value;
                  deleted = deleted;
                  clock = clock;
                  writer = r.instance_id;
                })
                (own_record r).fields;
        })
        r.records;
}

-- `none` is an error; the replica is then as it was.
unfoldable pub set_own : Replica → String → Value → Bool → ℤ → Option Replica
unfolding tick put_own
set_own r key value deleted wall =
    if not (valid_key key) || rejects key value
    then none
    else let ticked = tick r wall in some (put_own ticked key value deleted ticked.local_clock)

unfoldable pub upsert : Edit → List Edit → List Edit
upsert edit [] = edit ∷ []
upsert edit (e ∷ edits) = if str_eq e.id edit.id then edit ∷ edits else e ∷ upsert edit edits

unfoldable pub upsert_edit : Replica → Edit → Replica
unfolding upsert
upsert_edit r edit = record r { edits = upsert edit r.edits }

-- The edit that `QueueEdit` makes. `format` prints its id: "%s|%s|%d|%d|%s".
abbrev pub new_edit :
    (String → String → Clock → String) → Replica → String → String → Value → Bool → Status → Edit
new_edit format r target key value deleted status = record {
  id = format target key r.local_clock;
  target = target;
  path = key;
  value = value;
  deleted = deleted;
  clock = r.local_clock;
  origin = r.instance_id;
  status = status;
}

unfoldable pub queue_edit :
    (String → String → Clock → String)
    → Replica
    → String
    → String
    → Value
    → Bool
    → ℤ
    → Option Replica
unfolding tick put_own upsert_edit
queue_edit format r target key value deleted wall =
    if not (valid_instance_id target) || not (valid_key key) || rejects key value
    then none
    else let ticked = tick r wall in
      some (
        if str_eq target r.instance_id
        then upsert_edit (put_own ticked key value deleted ticked.local_clock)
            (new_edit format ticked target key value deleted applied)
        else upsert_edit ticked (new_edit format ticked target key value deleted pending))
