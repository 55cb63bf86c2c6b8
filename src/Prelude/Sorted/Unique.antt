-- ===== src/Prelude/Sorted/Unique.antt =====
-- A sorted list with different keys is determined by its members.
use aptos_indexer_processors.Prelude.Tests.{Bool-cases}
use aptos_indexer_processors.Prelude.Lists.{All, Has}
use aptos_indexer_processors.Prelude.Sorted.{
  Order, insert_sorted, sort_by_key, Sorted, DifferentKeys, sort_by_key-Sorted,
}
use mathlib.Core.Path.{◌≡◌, refl, sym, ◌∙◌}
use mathlib.Core.Logic.{◌⊎◌, inl, inr, ◌↔◌}
use mathlib.Core.Bool.{true}
use mathlib.Core.List.{List, [], ◌∷◌}

abbrev pub SameMembers : {V : Type 0} → List V → List V → Type 0
SameMembers {V} xs ys = (a : V) → Has a xs ↔ Has a ys

All-Has : {V : Type 0} (P : V → Type 0) (xs : List V) → All P xs → (a : V) → Has a xs → P a
All-Has P [] h a has = elim has [ ]
All-Has P (x ∷ xs) h a (inl e) = rw e h.0
All-Has P (x ∷ xs) h a (inr has) = All-Has P xs h.1 a has

module _ {V K : Type 0} ⦃order : Order K⦄ (key : V → K) where
  Has-insert_sorted :
      (a x : V) (ys : List V) → Has a (insert_sorted key x ys) ↔ ((a ≡ x) ⊎ Has a ys)
  unfolding insert_sorted
  Has-insert_sorted a x [] = (λ h. h, λ h. h)
  Has-insert_sorted a x (y ∷ ys) = elim (Bool-cases (order.before (key y) (key x))) [
    | inl e ↦
        let (to, from) = Has-insert_sorted a x ys in
        rw e (
          λ h. elim h [
            | inl same ↦ inr (inl same)
            | inr later ↦ elim (to later) [ inl same ↦ inl same | inr has ↦ inr (inr has) ]
          ],
          λ h. elim h [
            | inl same ↦ inr (from (inl same))
            | inr later ↦ elim later [ inl same ↦ inl same | inr has ↦ inr (from (inr has)) ]
          ],
        )
    | inr e ↦ rw e (λ h. h, λ h. h)
  ]

  pub Has-sort_by_key : (a : V) (xs : List V) → Has a (sort_by_key key xs) ↔ Has a xs
  unfolding sort_by_key
  Has-sort_by_key a [] = (λ h. h, λ h. h)
  Has-sort_by_key a (x ∷ xs) =
      let (to, from) = Has-insert_sorted a x (sort_by_key key xs) in
      let (in_rest, of_rest) = Has-sort_by_key a xs in
      (
        λ h. elim (to h) [ inl same ↦ inl same | inr has ↦ inr (in_rest has) ],
        λ h. elim h [ inl same ↦ from (inl same) | inr has ↦ from (inr (of_rest has)) ],
      )

  -- A member of the rest comes after the head, so it is not the head.
  tail_member :
      (x y : V) (xs ys : List V)
      → Sorted key (x ∷ xs)
      → x ≡ y
      → SameMembers (x ∷ xs) (y ∷ ys)
      → (a : V) → Has a xs
      → Has a ys
  tail_member x y xs ys sx e same a has = elim ((same a).0 (inr has)) [
    | inl head ↦
        let after = All-Has (λ z. order.before (key x) (key z) ≡ true) xs sx.0 a has in
        elim (order.irreflexive (key x) (rw (head ∙ sym e) at after)) [ ]
    | inr later ↦ later
  ]

  heads_equal :
      (x y : V) (xs ys : List V)
      → Sorted key (x ∷ xs)
      → Sorted key (y ∷ ys)
      → SameMembers (x ∷ xs) (y ∷ ys)
      → x ≡ y
  heads_equal x y xs ys sx sy same = elim ((same x).0 (inl refl)) [
    | inl e ↦ e
    | inr x_later ↦ elim ((same y).1 (inl refl)) [
      | inl e ↦ sym e
      | inr y_later ↦
          elim (order.irreflexive (key x) (
            order.transitive (key x) (key y) (key x)
              (All-Has (λ z. order.before (key x) (key z) ≡ true) xs sx.0 y y_later)
              (All-Has (λ z. order.before (key y) (key z) ≡ true) ys sy.0 x x_later))) [ ]
    ]
  ]

  Sorted-unique : (xs ys : List V) → Sorted key xs → Sorted key ys → SameMembers xs ys → xs ≡ ys
  Sorted-unique [] [] sx sy same = refl
  Sorted-unique [] (y ∷ ys) sx sy same = elim ((same y).1 (inl refl)) [ ]
  Sorted-unique (x ∷ xs) [] sx sy same = elim ((same x).0 (inl refl)) [ ]
  Sorted-unique (x ∷ xs) (y ∷ ys) sx sy same =
      let heads = heads_equal x y xs ys sx sy same in
      let back : SameMembers (y ∷ ys) (x ∷ xs) = λ a. ((same a).1, (same a).0) in
      let tails = Sorted-unique xs ys sx.1 sy.1 (λ a.
        (tail_member x y xs ys sx heads same a, tail_member y x ys xs sy (sym heads) back a)) in
      cc (heads, tails)

  -- The order of rows with different keys makes no difference.
  pub sort_by_key_unique :
      (xs ys : List V)
      → DifferentKeys key xs
      → DifferentKeys key ys
      → SameMembers xs ys
      → sort_by_key key xs ≡ sort_by_key key ys
  sort_by_key_unique xs ys dx dy same =
      Sorted-unique (sort_by_key key xs) (sort_by_key key ys) (sort_by_key-Sorted key xs dx)
        (sort_by_key-Sorted key ys dy)
        (λ a.
          let (to, from) = Has-sort_by_key a xs in
          let (on, back) = Has-sort_by_key a ys in
          (λ h. back ((same a).0 (to h)), λ h. from ((same a).1 (on h))))
