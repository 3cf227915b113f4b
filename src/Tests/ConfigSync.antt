-- ===== src/Tests/ConfigSync.antt =====
-- The replicas of the settings at concrete inputs: internal/configsync.
use file_sync_engine.Prelude.{none, ℕ, String, ◌≡◌, refl, ap, true, false, some, [], ◌∷◌, arith}
use file_sync_engine.Prelude.Int.{pos, pos_part}
use file_sync_engine.Prelude.Map.{Map, lookup, Distinct}
use file_sync_engine.ConfigSync.Clock.{Clock, later_than, tick_clock, witness_clock}
use file_sync_engine.ConfigSync.Clock.Order.{tick_witness_later}
use file_sync_engine.ConfigSync.Guards.{plain, valid_instance_id, valid_key, valid_code, rejects}
use file_sync_engine.ConfigSync.Replica.{
  Field, Edit, pending, applied, superseded, Replica, new_replica,
}
use file_sync_engine.ConfigSync.Merge.{merge_fields, merge_edit, merge, wins_field, admitted}
use file_sync_engine.ConfigSync.Merge.Foreign.{merge_fields_comm}
use file_sync_engine.ConfigSync.Merge.Own.{own_field, addressed, Follows}
use file_sync_engine.ConfigSync.Merge.Isolation.{merge-own_field}
use file_sync_engine.ConfigSync.Merge.Again.{find_edit, merge_edit_again}

good_id : valid_instance_id "11111111-1111-4111-8111-11111111111A" ≡ true
unfolding valid_instance_id
good_id = refl

short_id : valid_instance_id "11111111-1111-4111-8111-1111" ≡ false
unfolding valid_instance_id
short_id = refl

api_key_is_secret : rejects "gui.ApiKey" (plain "1") ≡ true
unfolding file_sync_engine.ConfigSync.Guards.secret_string
api_key_is_secret = refl

spaced_code : valid_code " abcd-efgh 1234-5678" ≡ true
unfolding valid_code
spaced_code = refl

no_replica : new_replica "g" "laptop" ≡ none
unfolding new_replica valid_instance_id
no_replica = refl

abbrev clock : ℕ → String → Clock
clock wall node = record { wall = pos wall; counter = 0; node_id = node }

abbrev field : ℕ → String → Field
field wall node = record {
  key = "gui.port";
  value = plain "1";
  deleted = false;
  clock = clock wall node;
  writer = node;
}

abbrev fields : ℕ → String → Map Field
fields wall node = ("gui.port", field wall node) ∷ []

fields-Distinct : (wall : ℕ) (node : String) → Distinct (fields wall node)
unfolding lookup
fields-Distinct wall node = (refl, tt)

tick_witness_later_example :
    (later_than
        (tick_clock (witness_clock (clock 1 "a") "a" (clock 2 "b")) "a" (pos 0))
        (clock 2 "b")
      ≡ true)
    × (later_than
          (tick_clock (witness_clock (clock 1 "a") "a" (clock 2 "b")) "a" (pos 0))
          (clock 1 "a")
        ≡ true)
tick_witness_later_example =
    tick_witness_later (clock 1 "a") (clock 2 "b") "a" (pos 0) (omega arith) (omega arith)

one_is_admitted : admitted "gui.port" (field 1 "a") ≡ true
unfolding valid_key file_sync_engine.ConfigSync.Guards.secret_string
    file_sync_engine.ConfigSync.Guards.secret_value
one_is_admitted = refl

two_is_admitted : admitted "gui.port" (field 2 "b") ≡ true
unfolding valid_key file_sync_engine.ConfigSync.Guards.secret_string
    file_sync_engine.ConfigSync.Guards.secret_value
two_is_admitted = refl

merge_fields_comm_example :
    lookup "gui.port" (merge_fields (fields 1 "a") (fields 2 "b"))
    ≡ lookup "gui.port" (merge_fields (fields 2 "b") (fields 1 "a"))
unfolding lookup
merge_fields_comm_example =
    merge_fields_comm (fields 1 "a") (fields 2 "b") "gui.port" (fields-Distinct 1 "a")
      (fields-Distinct 2 "b") (one_is_admitted, refl) (two_is_admitted, refl)
      (λ same. absurd (ground (arith, ap (λ (c : Clock). pos_part c.wall) same)))

abbrev id_a : String
id_a = "11111111-1111-4111-8111-11111111111a"

abbrev replica : Replica
replica = record {
  group_id = "g";
  instance_id = id_a;
  records = (id_a, record { instance_id = id_a; fields = fields 1 "a" }) ∷ [];
  connections = [];
  edits = [];
  onboarding = [];
  local_clock = clock 1 id_a;
}

abbrev edit : Edit
edit = record {
  id = "e1";
  target = id_a;
  path = "gui.port";
  value = plain "2";
  deleted = false;
  clock = clock 5 "b";
  origin = "b";
  status = pending;
}

abbrev relay : Replica
relay = record replica { instance_id = "22222222-2222-4222-8222-222222222222"; edits = edit ∷ [] }

edit-addressed : addressed id_a edit ≡ true
unfolding valid_key file_sync_engine.ConfigSync.Guards.secret_string
    file_sync_engine.ConfigSync.Guards.secret_value
edit-addressed = refl

edit_wins : wins_field (clock 5 "b") (own_field id_a "gui.port" replica) ≡ true
unfolding lookup later_than
edit_wins = refl

merge_edit_again_example :
    (find_edit "e1" (merge_edit replica edit).edits ≡ some (record edit { status = applied }))
    × (find_edit "e1" (merge_edit (merge_edit replica edit) edit).edits
        ≡ some (record edit { status = superseded }))
merge_edit_again_example = merge_edit_again replica edit edit-addressed edit_wins

merge-own_field_example :
    Follows id_a "gui.port"
      (edit ∷ [])
      (own_field id_a "gui.port" replica)
      (own_field id_a "gui.port" (merge replica relay))
merge-own_field_example = merge-own_field replica relay "gui.port"
