-- ===== src/ConfigSync/Merge/Foreign.antt =====
-- The fields of another engine's record: the merge keeps the later of two writes, key by key.
use file_sync_engine.Prelude.{
  String, ◌≡◌, refl, true, ◌&&◌, Option, none, some, [], ◌∷◌, arith, if◌then◌else◌, eq_iff, sym,
}
use file_sync_engine.Prelude.Map.{Map, lookup, insert, lookup-insert, Distinct}
use file_sync_engine.ConfigSync.Clock.Order.{later_than_irrefl, later_than_total, later_than_asym}
use file_sync_engine.ConfigSync.Replica.{Field}
use file_sync_engine.ConfigSync.Merge.{wins_field, admitted, merge_fields}

-- The field at a key after the merge, from the remote field and the local one.
abbrev pub joined : String → Option Field → Option Field → Option Field
joined key none mine = mine
joined key (some field) mine =
    if admitted key field && wins_field field.clock mine
    then some (record field { key = key })
    else mine

-- The merge treats each key by itself: it takes the remote field where the guards admit it and its
-- clock is later or nothing is there, for a remote record in which each key stands once.
pub lookup-merge_fields :
    (mine theirs : Map Field) (k : String)
    → Distinct theirs
    → lookup k (merge_fields mine theirs) ≡ joined k (lookup k theirs) (lookup k mine)
unfolding merge_fields lookup
lookup-merge_fields mine [] k d = refl
lookup-merge_fields mine ((q, f) ∷ theirs) k d = ground (
  arith,
  eq_iff q k,
  lookup-merge_fields
      (if admitted q f && wins_field f.clock (lookup q mine)
        then insert q (record f { key = q }) mine
        else mine)
      theirs k,
  lookup-insert q k (record f { key = q }) mine,
)

joined_idem :
    (k : String) (theirs mine : Option Field)
    → joined k theirs (joined k theirs mine) ≡ joined k theirs mine
joined_idem k none mine = refl
joined_idem k (some f) none = ground (arith, later_than_irrefl f.clock)
joined_idem k (some f) (some g) = ground (arith, later_than_irrefl f.clock)

-- Merging the same record again changes no field, for a record in which each key stands once.
pub merge_fields_idem :
    (mine theirs : Map Field) (k : String)
    → Distinct theirs
    → lookup k (merge_fields (merge_fields mine theirs) theirs)
      ≡ lookup k (merge_fields mine theirs)
merge_fields_idem mine theirs k d =
    simp
      (
        lookup-merge_fields (merge_fields mine theirs) theirs k d,
        lookup-merge_fields mine theirs k d,
      )
      (joined_idem k (lookup k theirs) (lookup k mine))

-- A field that a merge reads, stored under its own key.
abbrev pub IsAdmitted : String → Option Field → Type 0
IsAdmitted k none = Unit {0}
IsAdmitted k (some f) = (admitted k f ≡ true) × (f.key ≡ k)

-- Writes with the same clock are the same write.
abbrev pub AgreeOnTies : Option Field → Option Field → Type 0
AgreeOnTies none g = Unit {0}
AgreeOnTies (some f) none = Unit {0}
AgreeOnTies (some f) (some g) = f.clock ≡ g.clock → f ≡ g

joined_comm :
    (k : String) (a b : Option Field)
    → IsAdmitted k a
    → IsAdmitted k b
    → AgreeOnTies a b
    → joined k a b ≡ joined k b a
joined_comm k none none ha hb t = refl
joined_comm k none (some g) ha hb t = ground arith
joined_comm k (some f) none ha hb t = ground arith
joined_comm k (some f) (some g) ha hb t = ground (
  arith,
  later_than_total f.clock g.clock,
  later_than_asym f.clock g.clock,
  later_than_asym g.clock f.clock,
)

-- Two engines that merge each other's copy of a record hold the same field at a key, if each key
-- stands once in both copies, the guards admit the fields at this key, which are stored under their
-- own key, and equal clocks mean equal writes there.
pub merge_fields_comm :
    (a b : Map Field) (k : String)
    → Distinct a
    → Distinct b
    → IsAdmitted k (lookup k a)
    → IsAdmitted k (lookup k b)
    → AgreeOnTies (lookup k a) (lookup k b)
    → lookup k (merge_fields a b) ≡ lookup k (merge_fields b a)
merge_fields_comm a b k da db ha hb t =
    simp (lookup-merge_fields a b k db, lookup-merge_fields b a k da)
      (sym (joined_comm k (lookup k a) (lookup k b) ha hb t))
