-- ===== src/Prelude/Map.antt =====
-- Go's `map[string]V` as an association list. `insert` keeps the place of a key, so a map in which
-- every key stands once stays such a map; the order of the list is the order of one iteration.
use Prim.Native.String.{String}
use mathlib.Core.Path.{◌≡◌, refl}
use mathlib.Core.Bool.{Bool, true, false}
use mathlib.Core.List.{List, [], ◌∷◌}
use mathlib.Core.Option.{Option, none, some}
use native.Mathlib.Omega.{arith}
use file_sync_engine.Prelude.Tests.{if◌then◌else◌, str_eq, eq_iff}

abbrev pub Map {ℓ} : Type ℓ → Type ℓ
Map V = List (String × V)

abbrev pub is_some {ℓ} : {A : Type ℓ} → Option A → Bool
is_some none = false
is_some (some a) = true

module _ {ℓ} {V : Type ℓ} where
  unfoldable pub lookup : String → Map V → Option V
  lookup k [] = none
  lookup k ((j, v) ∷ m) = if str_eq j k then some v else lookup k m

  -- m[k] = v
  unfoldable pub insert : String → V → Map V → Map V
  insert k v [] = (k, v) ∷ []
  insert k v ((j, w) ∷ m) = if str_eq j k then (j, v) ∷ m else (j, w) ∷ insert k v m

  -- delete(m, k)
  unfoldable pub erase : String → Map V → Map V
  erase k [] = []
  erase k ((j, w) ∷ m) = let rest = erase k m in if str_eq j k then rest else (j, w) ∷ rest

  -- Every key stands once.
  abbrev pub Distinct : Map V → Type ℓ
  Distinct [] = Unit
  Distinct ((k, v) ∷ m) = (lookup k m ≡ none) × Distinct m

  -- A key reads what was written to it, and another key what it read before.
  pub lookup-insert :
      (key asked : String) (value : V) (entries : Map V)
      → lookup asked (insert key value entries)
        ≡ (if str_eq key asked then some value else lookup asked entries)
  unfolding lookup insert
  lookup-insert key asked value [] = refl
  lookup-insert key asked value ((first, old) ∷ rest) = ground (
    arith,
    lookup-insert key asked value rest,
    eq_iff first key,
    eq_iff first asked,
    eq_iff key asked,
  )

  pub insert-Distinct : (k : String) (v : V) (m : Map V) → Distinct m → Distinct (insert k v m)
  unfolding insert lookup
  insert-Distinct k v [] d = ground arith
  insert-Distinct k v ((i, w) ∷ m) d =
      ground (arith, eq_iff i k, eq_iff k i, lookup-insert k i v m, insert-Distinct k v m)

  -- A key that is deleted reads nothing, and another key what it read before.
  pub lookup-erase :
      (key asked : String) (entries : Map V)
      → lookup asked (erase key entries) ≡ (if str_eq key asked then none else lookup asked entries)
  unfolding lookup erase
  lookup-erase key asked [] = ground arith
  lookup-erase key asked ((first, old) ∷ rest) =
      ground
        (arith, lookup-erase key asked rest, eq_iff first key, eq_iff first asked, eq_iff key asked)

  pub erase-Distinct : (k : String) (m : Map V) → Distinct m → Distinct (erase k m)
  unfolding erase lookup
  erase-Distinct k [] d = tt
  erase-Distinct k ((i, w) ∷ m) d = ground (arith, lookup-erase k i m, erase-Distinct k m)
