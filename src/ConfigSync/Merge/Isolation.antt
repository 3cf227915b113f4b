-- ===== src/ConfigSync/Merge/Isolation.antt =====
-- The whole merge, seen from the engine's own record.
use file_sync_engine.Prelude.{
  String, ◌≡◌, refl, Option, List, [], ◌∷◌, ap, ◌∙◌, sym, inl, subst, str_eq, if◌then◌else◌,
}
use file_sync_engine.Prelude.Lists.{All, All-In-self, In}
use file_sync_engine.Prelude.Map.{lookup}
use file_sync_engine.ConfigSync.Replica.{Field, InstanceRecord, Edit, Replica, record_or_empty}
use file_sync_engine.ConfigSync.Merge.{
  merge_records, merge_connections, merge_edit, merge_edits, merge_onboarding, merge,
}
use file_sync_engine.ConfigSync.Merge.Own.{
  Owns, merge_records-Owns, merge_connections-Owns, merge_onboarding-Owns, own_field, Follows,
  merge_edit-Follows, merge_edit-id,
}

Owns-self : (r : Replica) → Owns r.instance_id (lookup r.instance_id r.records) r
Owns-self r = record { id = refl; stored = refl }

Owns-own_field :
    (me k : String) (own : Option InstanceRecord) (r : Replica)
    → Owns me own r
    → own_field me k r ≡ lookup k (record_or_empty me own).fields
Owns-own_field me k own r h = ap (λ o. lookup k (record_or_empty me o).fields) h.stored

merge_edits-Follows :
    (me k : String) (edits : List Edit) (old : Option Field) (r : Replica) (todo : List Edit)
    → r.instance_id ≡ me
    → All (λ e. In e edits) todo
    → Follows me k edits old (own_field me k r)
    → Follows me k edits old (own_field me k (merge_edits r todo))
unfolding merge_edits
merge_edits-Follows me k edits old r [] mine i h = h
merge_edits-Follows me k edits old r (e ∷ todo) mine i h =
    merge_edits-Follows me k edits old (merge_edit r e) todo (merge_edit-id r e ∙ mine) i.1 (
      subst (λ (id : String). Follows me k edits old (own_field id k (merge_edit r e))) mine
        (merge_edit-Follows me k edits old r e (sym mine) i.0
          (subst (λ (id : String). Follows me k edits old (own_field id k r)) (sym mine) h)))

merge_edits-id :
    (r : Replica) (edits : List Edit) → (merge_edits r edits).instance_id ≡ r.instance_id
unfolding merge_edits
merge_edits-id r [] = refl
merge_edits-id r (e ∷ edits) = merge_edits-id (merge_edit r e) edits ∙ merge_edit-id r e

module _ (local remote : Replica) (k : String) where
  before_edits : Replica
  before_edits =
      merge_connections
        (merge_records
          (record local {
            group_id = if str_eq local.group_id "" then remote.group_id else local.group_id;
          })
          remote.records)
        remote.connections

  before_Owns : Owns local.instance_id (lookup local.instance_id local.records) before_edits
  unfolding before_edits
  before_Owns =
      merge_connections-Owns _ _ _ remote.connections
        (merge_records-Owns _ _ _ remote.records (record { id = refl; stored = refl }))

  after_edits : Replica
  after_edits = merge_edits before_edits remote.edits

  after-Owns :
      Owns local.instance_id
        (lookup local.instance_id after_edits.records)
        (merge_onboarding after_edits remote.onboarding)
  unfolding after_edits
  after-Owns =
      merge_onboarding-Owns _ _ after_edits remote.onboarding
        (record { id = merge_edits-id before_edits remote.edits ∙ before_Owns.id; stored = refl })

  -- Whatever a remote replica holds, each field of the engine's own record after a merge is the
  -- one it was, or the write of one of the remote's edits that is addressed to this engine and
  -- this key, passes the guards, and has a later clock.
  pub merge-own_field :
      Follows local.instance_id k remote.edits
        (own_field local.instance_id k local)
        (own_field local.instance_id k (merge local remote))
  unfolding merge before_edits after_edits
  merge-own_field =
      subst (Follows local.instance_id k remote.edits (own_field local.instance_id k local))
        (sym (Owns-own_field local.instance_id k _ _ after-Owns))
        (merge_edits-Follows local.instance_id k remote.edits _ before_edits remote.edits
          before_Owns.id (All-In-self remote.edits)
          (inl (Owns-own_field local.instance_id k _ _ before_Owns)))
