-- ===== src/Prelude/Dict.antt =====
-- `AHashMap` and `HashMap`: an association list. `insert` replaces the entry of its key, `remove`
-- drops every entry of its key. The order of the entries stands for the map's iteration order.
pub mod Keyed
use aptos_indexer_processors.Prelude.Tests.{if◌then◌else◌}
use aptos_indexer_processors.Prelude.Equality.{Equality, ◌==◌}
use aptos_indexer_processors.Prelude.Lists.{length}
use Prim.Native.Nat.{◌≤◌, ◌<◌}
use mathlib.Core.Path.{◌≡◌, refl}
use mathlib.Core.Logic.{◌≢◌, ◌⊎◌}
use mathlib.Core.Option.{Option, none, some}
use mathlib.Core.List.{List, [], ◌∷◌}
use native.Mathlib.Omega.{arith}

abbrev pub Dict {ℓ κ} : Type ℓ → Type κ → Type (ℓ ⊔ κ)
Dict K V = List (K × V)

module _ {ℓ κ} {K : Type ℓ} {V : Type κ} ⦃e : Equality K⦄ where
  unfoldable pub lookup : K → Dict K V → Option V
  lookup key [] = none
  lookup key ((other, found) ∷ rest) = if other == key then some found else lookup key rest

  unfoldable pub insert : K → V → Dict K V → Dict K V
  insert key new [] = (key, new) ∷ []
  insert key new ((other, old) ∷ rest) =
      if other == key then (key, new) ∷ rest else (other, old) ∷ insert key new rest

  unfoldable pub remove : K → Dict K V → Dict K V
  remove key [] = []
  remove key ((other, old) ∷ rest) =
      let less = remove key rest in if other == key then less else (other, old) ∷ less

  -- `extend`: the entries of the second map, one after the other.
  unfoldable pub extend : Dict K V → Dict K V → Dict K V
  extend dict [] = dict
  extend dict ((key, new) ∷ rest) = extend (insert key new dict) rest

  -- `entry(key).or_insert(new)`
  unfoldable pub or_insert : K → V → Dict K V → Dict K V
  or_insert key new dict = elim (lookup key dict) [ none ↦ insert key new dict | some _ ↦ dict ]

  unfoldable pub values : Dict K V → List V
  values [] = []
  values ((key, found) ∷ rest) = found ∷ values rest

  pub lookup-insert :
      (at key : K) (new : V) (dict : Dict K V)
      → lookup key (insert at new dict) ≡ (if at == key then some new else lookup key dict)
  unfolding lookup insert
  lookup-insert at key new [] = refl
  lookup-insert at key new ((other, old) ∷ rest) = ground (
    arith,
    e.same_iff other at,
    e.same_iff other key,
    e.same_iff at key,
    lookup-insert at key new rest,
  )

  pub lookup-insert_self :
      (key : K) (new : V) (dict : Dict K V) → lookup key (insert key new dict) ≡ some new
  lookup-insert_self key new dict =
      ground (arith, lookup-insert key key new dict, e.same_iff key key)

  pub lookup-insert_ne :
      (at key : K) (new : V) (dict : Dict K V)
      → ¬ (at ≡ key)
      → lookup key (insert at new dict) ≡ lookup key dict
  lookup-insert_ne at key new dict h =
      ground (arith, lookup-insert at key new dict, e.same_iff at key)

  pub lookup-insert_cases :
      (at key : K) (new found : V) (dict : Dict K V)
      → lookup key (insert at new dict) ≡ some found
      → ((at ≡ key) × (new ≡ found)) ⊎ ((¬ (at ≡ key)) × (lookup key dict ≡ some found))
  lookup-insert_cases at key new found dict h =
      ground (arith, lookup-insert at key new dict, e.same_iff at key)

  pub lookup-remove :
      (at key : K) (dict : Dict K V)
      → lookup key (remove at dict) ≡ (if at == key then none else lookup key dict)
  unfolding lookup remove
  lookup-remove at key [] = ground arith
  lookup-remove at key ((other, old) ∷ rest) = ground (
    arith,
    e.same_iff other at,
    e.same_iff other key,
    e.same_iff at key,
    lookup-remove at key rest,
  )

  pub length-remove_le : (k : K) (m : Dict K V) → length (remove k m) ≤ length m
  unfolding remove
  length-remove_le k [] = omega arith
  length-remove_le k ((i, w) ∷ m) = ground (arith, length-remove_le k m)

  -- Removing a key that is there makes the map smaller.
  pub length-remove_lt : (k : K) (m : Dict K V) → lookup k m ≢ none → length (remove k m) < length m
  unfolding lookup remove
  length-remove_lt k [] h = absurd (h refl)
  length-remove_lt k ((i, w) ∷ m) h = ground (arith, length-remove_le k m, length-remove_lt k m)

  pub lookup-pos : (k : K) (m : Dict K V) → lookup k m ≢ none → 0 < length m
  unfolding lookup
  lookup-pos k [] h = absurd (h refl)
  lookup-pos k (x ∷ m) h = omega arith

  -- A map in which no key is found is empty.
  pub eq-nil : (m : Dict K V) → ((k : K) → lookup k m ≡ none) → m ≡ []
  unfolding lookup
  eq-nil [] h = refl
  eq-nil ((i, w) ∷ m) h = ground (arith, h i, e.same_iff i i)
