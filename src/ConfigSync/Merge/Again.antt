-- ===== src/ConfigSync/Merge/Again.antt =====
-- An edit that arrives a second time: a relay that still holds it as pending makes the engine
-- forget that it applied the edit.
use file_sync_engine.Prelude.{
  String, ◌≡◌, true, false, Option, none, some, List, [], ◌∷◌, arith, if◌then◌else◌, str_eq, ◌∙◌,
}
use text.Mathlib.TextPositions.{eq_refl}
use file_sync_engine.ConfigSync.Clock.Order.{later_than_irrefl}
use file_sync_engine.ConfigSync.Replica.{Edit, Replica, applied, superseded, put_own, upsert}
use file_sync_engine.ConfigSync.Merge.{merge_edit, wins_field}
use file_sync_engine.ConfigSync.Merge.Own.{
  own_field, addressed, field_of, own_field-merge_edit, merge_edit-id,
}

-- The edit that a replica holds under an id.
pub find_edit : String → List Edit → Option Edit
find_edit id [] = none
find_edit id (e ∷ edits) = if str_eq e.id id then some e else find_edit id edits

find_edit-upsert : (e : Edit) (edits : List Edit) → find_edit e.id (upsert e edits) ≡ some e
unfolding find_edit upsert
find_edit-upsert e [] = ground (arith, eq_refl e.id)
find_edit-upsert e (x ∷ edits) = ground (arith, eq_refl e.id, find_edit-upsert e edits)

edits-superseded :
    (r : Replica) (e : Edit)
    → addressed r.instance_id e ≡ true
    → wins_field e.clock (own_field r.instance_id e.path r) ≡ false
    → (merge_edit r e).edits ≡ upsert (record e { status = superseded }) r.edits
unfolding merge_edit
edits-superseded r e mine loses = ground arith

edits-applied :
    (r : Replica) (e : Edit)
    → addressed r.instance_id e ≡ true
    → wins_field e.clock (own_field r.instance_id e.path r) ≡ true
    → (merge_edit r e).edits ≡ upsert (record e { status = applied }) r.edits
unfolding merge_edit put_own
edits-applied r e mine wins = ground arith

module _ (r : Replica) (e : Edit) (mine : addressed r.instance_id e ≡ true)
    (wins : wins_field e.clock (own_field r.instance_id e.path r) ≡ true) where
  field_written : own_field r.instance_id e.path (merge_edit r e) ≡ some (field_of r.instance_id e)
  field_written = own_field-merge_edit e.path r e ∙ ground (arith, eq_refl e.path)

  again_loses :
      wins_field e.clock (own_field (merge_edit r e).instance_id e.path (merge_edit r e)) ≡ false
  again_loses = rw (merge_edit-id r e, field_written) (later_than_irrefl e.clock)

  -- A pending edit for this engine that passes the guards and wins is marked as applied; when the
  -- same pending edit arrives again, the mark becomes superseded.
  pub merge_edit_again :
      (find_edit e.id (merge_edit r e).edits ≡ some (record e { status = applied }))
      × (find_edit e.id (merge_edit (merge_edit r e) e).edits
          ≡ some (record e { status = superseded }))
  merge_edit_again = (
    rw (edits-applied r e mine wins) (find_edit-upsert (record e { status = applied }) r.edits),
    rw (edits-superseded (merge_edit r e) e (rw merge_edit-id mine) again_loses)
        (find_edit-upsert (record e { status = superseded }) (merge_edit r e).edits),
  )
