-- ===== src/ConfigSync/Merge/Own.antt =====
-- An engine's own record: other engines' records never reach it, and an edit does only when it is
-- addressed to this engine, pending, and later than what the record holds.
use file_sync_engine.Prelude.{
  String, ◌≡◌, refl, Bool, true, not, ◌&&◌, ◌||◌, Option, none, some, List, [], ◌∷◌, arith,
  if◌then◌else◌, if_rule, str_eq, eq_iff, sym, ◌⊎◌, inl, inr, subst,
}
use text.Mathlib.TextPositions.{eq_refl}
use file_sync_engine.Prelude.Lists.{In}
use file_sync_engine.Prelude.Map.{Map, lookup, lookup-insert}
use file_sync_engine.ConfigSync.Clock.{Clock}
use file_sync_engine.ConfigSync.Clock.Order.{later_than_trans}
use file_sync_engine.ConfigSync.Guards.{valid_instance_id, valid_key, rejects, Value}
use file_sync_engine.ConfigSync.Replica.{
  Field, InstanceRecord, Connection, Edit, OnboardingCommand, Replica, record_of, own_record,
  record_or_empty, witness, put_own,
}
use file_sync_engine.ConfigSync.Merge.{
  wins_field, admitted, merge_fields, witness_fields, merge_record, merge_records, merge_connection,
  merge_connections, is_pending, merge_edit, readable, upsert_command, merge_onboarding,
}

-- The replica is engine `me`'s, and `own` is its own record.
pub record Owns (me : String) (own : Option InstanceRecord) (r : Replica) : Type 0 where
  pub id : r.instance_id ≡ me
  pub stored : lookup me r.records ≡ own

module _ (me : String) (own : Option InstanceRecord) where
  witness-Owns : (r : Replica) (c : Clock) → Owns me own r → Owns me own (witness r c)
  unfolding witness
  witness-Owns r c h = record { id = h.id; stored = h.stored }

  witness_fields-Owns :
      (r : Replica) (fields : Map Field) → Owns me own r → Owns me own (witness_fields r fields)
  unfolding witness_fields
  witness_fields-Owns r [] h = h
  witness_fields-Owns r ((k, f) ∷ rest) h =
      witness_fields-Owns (if admitted k f then witness r f.clock else r) rest
        (if_rule (Owns me own) (admitted k f) _ _ (λ _. witness-Owns r f.clock h) (λ _. h))

  merge_record-Owns :
      (r : Replica) (id : String) (rec : InstanceRecord)
      → Owns me own r
      → Owns me own (merge_record r id rec)
  unfolding merge_record
  merge_record-Owns r id rec h =
      let seen = witness_fields-Owns r rec.fields h in
      if_rule (Owns me own) (not (valid_instance_id id) || str_eq id r.instance_id) _ _ (λ _. h)
        λ foreign. record {
          id = seen.id;
          stored = ground (
            arith,
            h.id,
            h.stored,
            eq_iff id me,
            lookup-insert id me
                (record (record_of r id) {
                  fields = merge_fields (record_of r id).fields rec.fields;
                })
                r.records,
          );
        }

  pub merge_records-Owns :
      (r : Replica) (records : Map InstanceRecord)
      → Owns me own r
      → Owns me own (merge_records r records)
  unfolding merge_records
  merge_records-Owns r [] h = h
  merge_records-Owns r ((id, rec) ∷ rest) h =
      merge_records-Owns (merge_record r id rec) rest (merge_record-Owns r id rec h)

  merge_connection-Owns :
      (r : Replica) (id : String) (conn : Connection)
      → Owns me own r
      → Owns me own (merge_connection r id conn)
  unfolding merge_connection
  merge_connection-Owns r id conn h = record {
    id = ground (arith, h.id);
    stored = ground (arith, h.stored);
  }

  pub merge_connections-Owns :
      (r : Replica) (conns : Map Connection)
      → Owns me own r
      → Owns me own (merge_connections r conns)
  unfolding merge_connections
  merge_connections-Owns r [] h = h
  merge_connections-Owns r ((id, conn) ∷ rest) h =
      merge_connections-Owns (merge_connection r id conn) rest (merge_connection-Owns r id conn h)

  pub merge_onboarding-Owns :
      (r : Replica) (commands : List OnboardingCommand)
      → Owns me own r
      → Owns me own (merge_onboarding r commands)
  unfolding merge_onboarding
  merge_onboarding-Owns r [] h = h
  merge_onboarding-Owns r (c ∷ rest) h =
      merge_onboarding-Owns
        (if readable c
          then record (witness r c.clock) { onboarding = upsert_command c r.onboarding }
          else r)
        rest
        (if_rule (Owns me own) (readable c) _ _ (λ _. record { id = h.id; stored = h.stored })
          (λ _. h))

-- The field that an applied edit leaves.
abbrev pub field_of : String → Edit → Field
field_of me e = record {
  key = e.path;
  value = e.value;
  deleted = e.deleted;
  clock = e.clock;
  writer = me;
}

abbrev pub own_field : String → String → Replica → Option Field
own_field me k r = lookup k (record_or_empty me (lookup me r.records)).fields

-- The edit is for this engine, waits to be applied, and passes the guards.
abbrev pub addressed : String → Edit → Bool
addressed me e =
    (str_eq e.target me && is_pending e.status)
    && (valid_key e.path && not (rejects e.path e.value))

pub merge_edit-id : (r : Replica) (e : Edit) → (merge_edit r e).instance_id ≡ r.instance_id
unfolding merge_edit put_own
merge_edit-id r e = ground arith

pub own_field-put_own :
    (k : String) (r : Replica) (key : String) (value : Value) (deleted : Bool) (clock : Clock)
    → own_field r.instance_id k (put_own r key value deleted clock) ≡ (
        if str_eq key k
        then some (record {
          key = key;
          value = value;
          deleted = deleted;
          clock = clock;
          writer = r.instance_id;
        })
        else own_field r.instance_id k r)
unfolding put_own
own_field-put_own k r key value deleted clock =
    rw (lookup-insert, eq_refl) (lookup-insert key k _ (own_record r).fields)

pub own_field-merge_edit :
    (k : String) (r : Replica) (e : Edit)
    → own_field r.instance_id k (merge_edit r e) ≡ (
        if addressed r.instance_id e
          && wins_field e.clock (own_field r.instance_id e.path r)
          && str_eq e.path k
        then some (field_of r.instance_id e)
        else own_field r.instance_id k r)
unfolding merge_edit
own_field-merge_edit k r e =
    ground (arith, own_field-put_own k (witness r e.clock) e.path e.value e.deleted e.clock)

-- The field is the old one, or the write of an edit of the list that was addressed to this engine
-- at this key, passed the guards, and is later than the old one.
abbrev pub Follows : String → String → List Edit → Option Field → Option Field → Type 0
Follows me k edits old new =
    (new ≡ old)
    ⊎ ((e : Edit) × In e edits
        × (addressed me e ≡ true)
        × (e.path ≡ k)
        × (new ≡ some (field_of me e))
        × (wins_field e.clock old ≡ true))

wins_trans :
    (e e' : Edit) (me : String) (old : Option Field)
    → wins_field e.clock (some (field_of me e')) ≡ true
    → wins_field e'.clock old ≡ true
    → wins_field e.clock old ≡ true
wins_trans e e' me none h h' = refl
wins_trans e e' me (some f) h h' = later_than_trans e.clock e'.clock f.clock h h'

module _ (me k : String) (edits : List Edit) (old : Option Field) where
  Follows-step :
      (e : Edit) (now : Option Field)
      → In e edits
      → addressed me e ≡ true
      → e.path ≡ k
      → wins_field e.clock now ≡ true
      → Follows me k edits old now
      → Follows me k edits old (some (field_of me e))
  Follows-step e now i a p w (inl same) =
      inr (e, i, a, p, refl, subst (λ o. wins_field e.clock o ≡ true) same w)
  Follows-step e now i a p w (inr (e', _, _, _, q, w')) =
      inr
        (e, i, a, p, refl, wins_trans e e' me old (subst (λ o. wins_field e.clock o ≡ true) q w) w')

  pub merge_edit-Follows :
      (r : Replica) (e : Edit)
      → me ≡ r.instance_id
      → In e edits
      → Follows me k edits old (own_field r.instance_id k r)
      → Follows me k edits old (own_field r.instance_id k (merge_edit r e))
  merge_edit-Follows r e mine i h = rw (own_field-merge_edit k r e) (
      if_rule (Follows me k edits old)
        (addressed r.instance_id e
          && wins_field e.clock (own_field r.instance_id e.path r)
          && str_eq e.path k)
        _ _
        (λ t.
          let here : e.path ≡ k = (eq_iff e.path k).0 (ground arith) in
          subst (λ (id : String). Follows me k edits old (some (field_of id e))) mine
            (Follows-step e (own_field r.instance_id k r) i
              (subst (λ (id : String). addressed id e ≡ true) (sym mine) (ground arith)) here
              (subst (λ (p : String). wins_field e.clock (own_field r.instance_id p r) ≡ true) here
                (ground arith))
              h))
        (λ _. h))
