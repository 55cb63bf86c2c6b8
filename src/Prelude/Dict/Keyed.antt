-- ===== src/Prelude/Dict/Keyed.antt =====
-- Maps whose entries have different keys, each the key of its own value.
use aptos_indexer_processors.Prelude.Tests.{Bool-cases}
use aptos_indexer_processors.Prelude.Equality.{Equality, ◌==◌}
use aptos_indexer_processors.Prelude.Lists.{All, All-map, Has}
use aptos_indexer_processors.Prelude.Sorted.{Order, DifferentKeys}
use aptos_indexer_processors.Prelude.Dict.{
  Dict, lookup, insert, extend, values, lookup-insert_self, lookup-insert_ne,
}
use mathlib.Core.Path.{◌≡◌, refl, sym, ap, ◌∙◌}
use mathlib.Core.Logic.{inl, inr, ◌↔◌}
use mathlib.Core.Option.{Option, none, some}
use mathlib.Core.List.{[], ◌∷◌}

abbrev pub or_else : {V : Type 0} → Option V → Option V → Option V
or_else none old = old
or_else (some new) old = some new

module _ {K V : Type 0} ⦃e : Equality K⦄ where
  abbrev pub Distinct : Dict K V → Type 0
  Distinct [] = Unit
  Distinct ((key, found) ∷ rest) = All (λ p. ¬ (key ≡ p.0)) rest × Distinct rest

  pub All-insert :
      (P : K × V → Type 0) (key : K) (new : V) (dict : Dict K V)
      → P (key, new)
      → All P dict
      → All P (insert key new dict)
  unfolding insert
  All-insert P key new [] here h = (here, tt)
  All-insert P key new ((other, old) ∷ rest) here h = elim (Bool-cases (other == key)) [
    | inl same ↦ rw same (here, h.1)
    | inr differ ↦ rw differ (h.0, All-insert P key new rest here h.1)
  ]

  pub insert-Distinct :
      (key : K) (new : V) (dict : Dict K V) → Distinct dict → Distinct (insert key new dict)
  unfolding insert
  insert-Distinct key new [] h = (tt, tt)
  insert-Distinct key new ((other, old) ∷ rest) h = elim (Bool-cases (other == key)) [
    | inl same ↦ rw same (
      All-map (λ p. ¬ (other ≡ p.0)) (λ p. ¬ (key ≡ p.0)) rest
          (λ p k l. k ((e.same_iff other key).0 same ∙ l)) h.0,
      h.1,
    )
    | inr differ ↦ rw differ (
      All-insert (λ p. ¬ (other ≡ p.0)) key new rest (λ l. cc (differ, (e.same_iff other key).1 l))
          h.0,
      insert-Distinct key new rest h.1,
    )
  ]

  -- Every value stands under its own key.
  abbrev pub OwnKeys : (V → K) → Dict K V → Type 0
  OwnKeys of dict = All (λ p. of p.1 ≡ p.0) dict

  pub insert-OwnKeys :
      (of : V → K) (key : K) (new : V) (dict : Dict K V)
      → of new ≡ key
      → OwnKeys of dict
      → OwnKeys of (insert key new dict)
  insert-OwnKeys of key new dict own h = All-insert (λ p. of p.1 ≡ p.0) key new dict own h

  pub extend-Distinct : (dict more : Dict K V) → Distinct dict → Distinct (extend dict more)
  unfolding extend
  extend-Distinct dict [] h = h
  extend-Distinct dict ((key, new) ∷ rest) h =
      extend-Distinct (insert key new dict) rest (insert-Distinct key new dict h)

  pub extend-OwnKeys :
      (of : V → K) (dict more : Dict K V)
      → OwnKeys of dict
      → OwnKeys of more
      → OwnKeys of (extend dict more)
  unfolding extend
  extend-OwnKeys of dict [] h k = h
  extend-OwnKeys of dict ((key, new) ∷ rest) h k =
      extend-OwnKeys of (insert key new dict) rest (insert-OwnKeys of key new dict k.0 h) k.1

  lookup-absent :
      (key : K) (dict : Dict K V) → All (λ p. ¬ (key ≡ p.0)) dict → lookup key dict ≡ none
  unfolding lookup
  lookup-absent key [] h = refl
  lookup-absent key ((other, found) ∷ rest) h = elim (Bool-cases (other == key)) [
    | inl same ↦ elim (h.0 (sym ((e.same_iff other key).0 same))) [ ]
    | inr differ ↦ rw differ (lookup-absent key rest h.1)
  ]

  -- The second map's entries come first.
  pub lookup-extend :
      (key : K) (dict more : Dict K V)
      → Distinct more
      → lookup key (extend dict more) ≡ or_else (lookup key more) (lookup key dict)
  unfolding extend lookup
  lookup-extend key dict [] h = refl
  lookup-extend key dict ((other, new) ∷ rest) h = elim (Bool-cases (other == key)) [
    | inl same ↦
        let is_key = (e.same_iff other key).0 same in
        let absent = lookup-absent key rest (rw is_key at h.0) in
        rw same (
          lookup-extend key (insert other new dict) rest h.1
          ∙ ap (λ o. or_else o (lookup key (insert other new dict))) absent
          ∙ rw (← is_key) (lookup-insert_self other new dict))
    | inr differ ↦ rw differ (
        lookup-extend key (insert other new dict) rest h.1
        ∙ ap (or_else (lookup key rest))
            (lookup-insert_ne other key new dict (λ l. cc (differ, (e.same_iff other key).1 l))))
  ]

  -- The values of a map with different keys are what its keys look up.
  pub Has-values :
      (row : V) (dict : Dict K V)
      → Distinct dict
      → Has row (values dict) ↔ ((key : K) × (lookup key dict ≡ some row))
  unfolding values lookup
  Has-values row [] h = (λ has. elim has [ ], λ found. cc found.1)
  Has-values row ((key, found) ∷ rest) h =
      let (to, from) = Has-values row rest h.1 in
      (
        λ has. elim has [
          | inl here ↦ (key, rw ((e.same_iff key key).1 refl) (ap some (sym here)))
          | inr later ↦
              let (at, there) = to later in
              elim (Bool-cases (key == at)) [
                | inl same ↦
                    cc (lookup-absent at rest (rw ((e.same_iff key at).0 same) at h.0), there)
                | inr differ ↦ (at, rw differ there)
              ]
        ],
        λ known.
            let (at, there) = known in
            elim (Bool-cases (key == at)) [
              | inl same ↦ let here : some found ≡ some row = rw same at there in inl (cc here)
              | inr differ ↦ inr (from (at, rw differ at there))
            ],
      )

  pub All-extend :
      (P : K × V → Type 0) (dict more : Dict K V)
      → All P dict
      → All P more
      → All P (extend dict more)
  unfolding extend
  All-extend P dict [] h k = h
  All-extend P dict ((key, new) ∷ rest) h k =
      All-extend P (insert key new dict) rest (All-insert P key new dict k.0 h) k.1

  pub All-lookup :
      (P : K × V → Type 0) (key : K) (found : V) (dict : Dict K V)
      → All P dict
      → lookup key dict ≡ some found
      → P (key, found)
  unfolding lookup
  All-lookup P key found [] h l = cc
  All-lookup P key found ((other, old) ∷ rest) h l = elim (Bool-cases (other == key)) [
    | inl same ↦
        let here : some old ≡ some found = rw same at l in
        let value : old ≡ found = cc here in
        rw (← value) (rw ((e.same_iff other key).0 same) at h.0)
    | inr differ ↦ All-lookup P key found rest h.1 (rw differ at l)
  ]

  All-both :
      (P Q : K × V → Type 0) (dict : Dict K V) → All P dict → All Q dict → All (λ p. P p × Q p) dict
  All-both P Q [] h k = tt
  All-both P Q (p ∷ rest) h k = ((h.0, k.0), All-both P Q rest h.1 k.1)

  All-values :
      (P : V → Type 0) (Q : K × V → Type 0) (dict : Dict K V)
      → ((p : K × V) → Q p → P p.1)
      → All Q dict
      → All P (values dict)
  unfolding values
  All-values P Q [] f h = tt
  All-values P Q ((key, found) ∷ rest) f h = (f (key, found) h.0, All-values P Q rest f h.1)

  pub values-DifferentKeys :
      ⦃order : Order K⦄ (of : V → K) (dict : Dict K V)
      → Distinct dict
      → OwnKeys of dict
      → DifferentKeys of (values dict)
  unfolding values
  values-DifferentKeys of [] distinct own = tt
  values-DifferentKeys of ((key, found) ∷ rest) distinct own = (
    All-values (λ v. ¬ (of found ≡ of v)) (λ p. (of p.1 ≡ p.0) × ¬ (key ≡ p.0)) rest
        (λ p h same. h.1 (sym own.0 ∙ same ∙ h.0))
        (All-both (λ p. of p.1 ≡ p.0) (λ p. ¬ (key ≡ p.0)) rest own.1 distinct.0),
    values-DifferentKeys of rest distinct.1 own.1,
  )
