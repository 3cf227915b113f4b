-- ===== src/Prelude/Sort.antt =====
-- `sort.SliceStable`: a stable sort by a Boolean order, and what every caller uses of it.
use mathlib.Core.Path.{◌≡◌}
use mathlib.Core.Bool.{Bool, true, false}
use mathlib.Core.List.{List, [], ◌∷◌, Perm}
use mathlib.Core.List.Perm
use mathlib.Core.Logic.{inl, inr}
use file_sync_engine.Prelude.Tests.{if◌then◌else◌, Bool-cases}
use file_sync_engine.Prelude.Lists.{All, In}

module _ {ℓ} {A : Type ℓ} (less : A → A → Bool) where
  unfoldable pub insert_sorted : A → List A → List A
  insert_sorted x [] = x ∷ []
  insert_sorted x (y ∷ ys) =
      let rest = insert_sorted x ys in if less y x then y ∷ rest else x ∷ y ∷ ys

  unfoldable pub sort_stable : List A → List A
  unfolding insert_sorted
  sort_stable [] = []
  sort_stable (x ∷ xs) = insert_sorted x (sort_stable xs)

  -- No element comes before one that it follows.
  abbrev pub IsSorted : List A → Type 0
  IsSorted [] = Unit
  IsSorted (x ∷ xs) = All (λ y. less y x ≡ false) xs × IsSorted xs

  pub insert_sorted-All {κ} :
      (P : A → Type κ) (x : A) (xs : List A) → P x → All P xs → All P (insert_sorted x xs)
  unfolding insert_sorted
  insert_sorted-All P x [] p ps = (p, tt)
  insert_sorted-All P x (y ∷ ys) p ps = elim (Bool-cases (less y x)) [
    | inl e ↦ rw e (ps.0, insert_sorted-All P x ys p ps.1)
    | inr e ↦ rw e (p, ps)
  ]

  pub sort_stable-All {κ} : (P : A → Type κ) (xs : List A) → All P xs → All P (sort_stable xs)
  unfolding sort_stable
  sort_stable-All P [] ps = tt
  sort_stable-All P (x ∷ xs) ps =
      insert_sorted-All P x (sort_stable xs) ps.0 (sort_stable-All P xs ps.1)

  insert_sorted-perm : (x : A) (xs : List A) → Perm (insert_sorted x xs) (x ∷ xs)
  unfolding insert_sorted
  insert_sorted-perm x [] = Perm.refl (x ∷ [])
  insert_sorted-perm x (y ∷ ys) = elim (Bool-cases (less y x)) [
    | inl e ↦ rw e (Perm.trans (Perm.cons y (insert_sorted-perm x ys)) (Perm.swap x y ys))
    | inr e ↦ rw e (Perm.refl (x ∷ y ∷ ys))
  ]

  -- A sorted list has the elements that it had.
  pub sort_stable-perm : (xs : List A) → Perm (sort_stable xs) xs
  unfolding sort_stable
  sort_stable-perm [] = Perm.refl []
  sort_stable-perm (x ∷ xs) =
      Perm.trans (insert_sorted-perm x (sort_stable xs)) (Perm.cons x (sort_stable-perm xs))

module _ {A : Type 0} (less : A → A → Bool) where
  insert_sorted-In : (x y : A) (xs : List A) → In y (x ∷ xs) → In y (insert_sorted less x xs)
  unfolding insert_sorted
  insert_sorted-In x y [] i = i
  insert_sorted-In x y (z ∷ zs) i = elim (Bool-cases (less z x)) [
    | inl e ↦ rw e (elim i [
      | inl h ↦ inr (insert_sorted-In x y zs (inl h))
      | inr t ↦ elim t [ inl h ↦ inl h | inr r ↦ inr (insert_sorted-In x y zs (inr r)) ]
    ])
    | inr e ↦ rw e i
  ]

  pub sort_stable-In : (xs : List A) (y : A) → In y xs → In y (sort_stable less xs)
  unfolding sort_stable
  sort_stable-In [] y i = i
  sort_stable-In (x ∷ xs) y i =
      insert_sorted-In x y (sort_stable less xs)
        (elim i [ inl h ↦ inl h | inr t ↦ inr (sort_stable-In xs y t) ])

module _ {ℓ} {A : Type ℓ} (less : A → A → Bool)
    (asym : (x y : A) → less x y ≡ true → less y x ≡ false)
    (neg_trans : (x y z : A) → less y x ≡ false → less z y ≡ false → less z x ≡ false) where
  insert_sorted-IsSorted :
      (x : A) (xs : List A) → IsSorted less xs → IsSorted less (insert_sorted less x xs)
  unfolding insert_sorted
  insert_sorted-IsSorted x [] s = (tt, tt)
  insert_sorted-IsSorted x (y ∷ ys) s = elim (Bool-cases (less y x)) [
    | inl e ↦ rw e (
      insert_sorted-All less (λ z. less z y ≡ false) x ys (asym y x e) s.0,
      insert_sorted-IsSorted x ys s.1,
    )
    | inr e ↦ rw e ((e, above x y ys e s.0), s)
  ]
    where
      above :
          (x y : A) (zs : List A)
          → less y x ≡ false
          → All (λ z. less z y ≡ false) zs
          → All (λ z. less z x ≡ false) zs
      above x y [] e h = tt
      above x y (z ∷ zs) e h = (neg_trans x y z e h.0, above x y zs e h.1)

  pub sort_stable-IsSorted : (xs : List A) → IsSorted less (sort_stable less xs)
  unfolding sort_stable
  sort_stable-IsSorted [] = tt
  sort_stable-IsSorted (x ∷ xs) =
      insert_sorted-IsSorted x (sort_stable less xs) (sort_stable-IsSorted xs)
