-- ===== src/Prelude/Canonical.antt =====
-- A map in the order of its keys is determined by what its keys read.
use Prim.Native.String.{String}
use mathlib.Core.Path.{◌≡◌, refl, sym, ap, ◌∙◌, subst}
use mathlib.Core.Path.{ap₂}
use mathlib.Core.Bool.{Bool, true, false}
use mathlib.Core.List.{[], ◌∷◌}
use mathlib.Core.Option.{none, some}
use mathlib.Core.Logic.{inl, inr, ◌≢◌}
use native.Mathlib.Omega.{arith}
use file_sync_engine.Prelude.Tests.{if◌then◌else◌, str_eq, eq_iff, Bool-cases}
use file_sync_engine.Prelude.Lists.{All}
use file_sync_engine.Prelude.Text.{str_lt, str_lt_irrefl, str_lt_trans, str_lt_total}
use file_sync_engine.Prelude.Map.{Map, lookup, Distinct}
use file_sync_engine.Prelude.Sort.{sort_stable, insert_sorted, insert_sorted-All}

above_of : (k j : String) → j ≢ k → str_lt j k ≡ false → str_lt k j ≡ true
above_of k j n l = elim (Bool-cases (str_lt k j)) [
  | inl e ↦ e
  | inr e ↦ absurd (n (str_lt_total j k l e))
]

module _ {V : Type 0} where
  abbrev pub by_key : String × V → String × V → Bool
  by_key a b = str_lt a.0 b.0

  -- Every key is above `k`.
  abbrev Above : String → Map V → Type 0
  Above k m = All (λ (e : String × V). str_lt k e.0 ≡ true) m

  abbrev Ascending : Map V → Type 0
  Ascending [] = Unit
  Ascending ((k, v) ∷ m) = Above k m × Ascending m

  Above-lookup : (k : String) (m : Map V) → Above k m → lookup k m ≡ none
  unfolding lookup
  Above-lookup k [] h = refl
  Above-lookup k ((j, w) ∷ m) h =
      ground (arith, eq_iff j k, h.0, str_lt_irrefl k, Above-lookup k m h.1, ap (λ q. str_lt q k))

  Above-trans : (k j : String) (m : Map V) → str_lt k j ≡ true → Above j m → Above k m
  Above-trans k j [] l h = tt
  Above-trans k j (e ∷ m) l h = (str_lt_trans k j e.0 l h.0, Above-trans k j m l h.1)

  fresh_key :
      (k j : String) (w : V) (m : Map V)
      → lookup k ((j, w) ∷ m) ≡ none
      → (j ≢ k) × (lookup k m ≡ none)
  unfolding lookup
  fresh_key k j w m h = elim (Bool-cases (str_eq j k)) [
    | inl same ↦ absurd (ground (arith, same, h))
    | inr other ↦ (λ e. ground (arith, eq_iff j k, e, other), ground (arith, other, h))
  ]

  insert_sorted-Ascending :
      (k : String) (v : V) (m : Map V)
      → lookup k m ≡ none
      → Ascending m
      → Ascending (insert_sorted by_key (k, v) m)
  unfolding insert_sorted
  insert_sorted-Ascending k v [] n a = (tt, tt)
  insert_sorted-Ascending k v ((j, w) ∷ m) n a =
      let f = fresh_key k j w m n in
      elim (Bool-cases (str_lt j k)) [
        | inl e ↦ rw e (
          insert_sorted-All by_key (λ (p : String × V). str_lt j p.0 ≡ true) (k, v) m e a.0,
          insert_sorted-Ascending k v m f.1 a.1,
        )
        | inr e ↦ rw e ((above_of k j f.0 e, Above-trans k j m (above_of k j f.0 e) a.0), a)
      ]

  lookup-insert_sorted :
      (q k : String) (v : V) (m : Map V)
      → lookup k m ≡ none
      → lookup q (insert_sorted by_key (k, v) m) ≡ lookup q ((k, v) ∷ m)
  unfolding insert_sorted lookup
  lookup-insert_sorted q k v [] n = refl
  lookup-insert_sorted q k v ((j, w) ∷ m) n =
      let f = fresh_key k j w m n in
      elim (Bool-cases (str_lt j k)) [
        | inl e ↦
            rw e (ground (arith, lookup-insert_sorted q k v m f.1, f.0, eq_iff j q, eq_iff k q))
        | inr e ↦ rw e refl
      ]

  lookup-sort_stable :
      (q : String) (m : Map V) → Distinct m → lookup q (sort_stable by_key m) ≡ lookup q m
  unfolding sort_stable lookup
  lookup-sort_stable q [] d = refl
  lookup-sort_stable q ((k, v) ∷ m) d =
      lookup-insert_sorted q k v (sort_stable by_key m) (lookup-sort_stable k m d.1 ∙ d.0)
      ∙ ap (λ o. if str_eq k q then some v else o) (lookup-sort_stable q m d.1)

  sort_stable-Ascending : (m : Map V) → Distinct m → Ascending (sort_stable by_key m)
  unfolding sort_stable
  sort_stable-Ascending [] d = tt
  sort_stable-Ascending ((k, v) ∷ m) d =
      insert_sorted-Ascending k v (sort_stable by_key m) (lookup-sort_stable k m d.1 ∙ d.0)
        (sort_stable-Ascending m d.1)

  reads_first : (k : String) (v : V) (m : Map V) → lookup k ((k, v) ∷ m) ≡ some v
  unfolding lookup
  reads_first k v m = ground (arith, eq_iff k k)

  -- A first key that is below the other map is read in one map only.
  not_below :
      (k j : String) (v w : V) (a b : Map V)
      → Above j b
      → lookup k ((k, v) ∷ a) ≡ lookup k ((j, w) ∷ b)
      → str_lt k j ≡ false
  not_below k j v w a b y h = elim (Bool-cases (str_lt k j)) [
    | inl e ↦ absurd (
        ground
          (arith, reads_first k v a, h, Above-lookup k ((j, w) ∷ b) (e, Above-trans k j b e y)))
    | inr e ↦ e
  ]

  same_tail :
      (k : String) (v : V) (a b : Map V)
      → Above k a
      → Above k b
      → ((q : String) → lookup q ((k, v) ∷ a) ≡ lookup q ((k, v) ∷ b))
      → (q : String) → lookup q a ≡ lookup q b
  unfolding lookup
  same_tail k v a b x y h q = elim (Bool-cases (str_eq k q)) [
    | inl e ↦
        let same = (eq_iff k q).0 e in
        subst (λ (p : String). lookup p a ≡ lookup p b) same
          (Above-lookup k a x ∙ sym (Above-lookup k b y))
    | inr e ↦ ground (arith, h q, e)
  ]

  -- Maps with ascending keys that read the same are the same.
  Ascending-eq :
      (a b : Map V) → Ascending a → Ascending b → ((q : String) → lookup q a ≡ lookup q b) → a ≡ b
  unfolding lookup
  Ascending-eq [] [] x y h = refl
  Ascending-eq [] ((j, w) ∷ b) x y h = absurd (ground (arith, h j, eq_iff j j))
  Ascending-eq ((k, v) ∷ a) [] x y h = absurd (ground (arith, h k, eq_iff k k))
  Ascending-eq ((k, v) ∷ a) ((j, w) ∷ b) x y h =
      let one_key : k ≡ j =
        str_lt_total k j (not_below k j v w a b y.0 (h k))
          (not_below j k w v b a x.0 (sym (h j))) in
      let one_value : v ≡ w = ground (arith, h k, eq_iff k k, eq_iff j k, sym one_key) in
      let first : (k, v) ≡ (j, w) = ap₂ (λ (q : String) (u : V). (q, u)) one_key one_value in
      let tail =
        same_tail k v a b x.0 (subst (λ (q : String). Above q b) (sym one_key) y.0)
          (λ q. h q ∙ ap (λ (e : String × V). lookup q (e ∷ b)) (sym first)) in
      ap₂ (λ (e : String × V) (m : Map V). e ∷ m) first (Ascending-eq a b x.1 y.1 tail)

  -- The values of a map in the order of its keys are determined by what the keys read.
  pub sort_stable-eq :
      (a b : Map V)
      → Distinct a
      → Distinct b
      → ((q : String) → lookup q a ≡ lookup q b)
      → sort_stable by_key a ≡ sort_stable by_key b
  sort_stable-eq a b d e h =
      Ascending-eq (sort_stable by_key a) (sort_stable by_key b) (sort_stable-Ascending a d)
        (sort_stable-Ascending b e)
        (λ q. lookup-sort_stable q a d ∙ h q ∙ sym (lookup-sort_stable q b e))
