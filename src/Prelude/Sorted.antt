-- ===== src/Prelude/Sorted.antt =====
-- `sort_by` with a key: a stable sort of a list, whose result for different keys does not depend on the
-- order of the list. Strings are compared as bytes, pairs part by part.
pub mod Unique
use aptos_indexer_processors.Prelude.Tests.{if◌then◌else◌, ltb, nat_beq, nat_beq_iff, Bool-cases}
use aptos_indexer_processors.Prelude.Equality.{Equality, Text, text_eq, ◌==◌}
use aptos_indexer_processors.Prelude.Lists.{All, All-map, Has}
use Prim.Native.Nat.{ℕ, ◌<◌}
use mathlib.Core.Path.{◌≡◌, refl, sym, ap, ◌∙◌}
use mathlib.Core.Logic.{◌⊎◌, inl, inr, ◌↔◌}
use mathlib.Core.Bool.{Bool, true, false, ◌&&◌, ◌||◌}
use mathlib.Core.List.{List, [], ◌∷◌}
use native.Mathlib.Omega.{arith}

-- `cmp` gives `Less`.
pub record Order (T : Type 0) : Type 0 where
  pub before : T → T → Bool
  pub irreflexive : (x : T) → ¬ (before x x ≡ true)
  pub transitive : (x y z : T) → before x y ≡ true → before y z ≡ true → before x z ≡ true
  pub total : (x y : T) → ¬ (x ≡ y) → (before x y ≡ true) ⊎ (before y x ≡ true)

abbrev pub text_before : Text → Text → Bool
text_before xs [] = false
text_before [] (y ∷ ys) = true
text_before (x ∷ xs) (y ∷ ys) = ltb x y || (nat_beq x y && text_before xs ys)

pub text_before_irreflexive : (xs : Text) → ¬ (text_before xs xs ≡ true)
text_before_irreflexive [] h = cc
text_before_irreflexive (x ∷ xs) h = ground (arith, text_before_irreflexive xs)

pub text_before_transitive :
    (xs ys zs : Text)
    → text_before xs ys ≡ true
    → text_before ys zs ≡ true
    → text_before xs zs ≡ true
text_before_transitive xs [] zs h k = cc
text_before_transitive xs (y ∷ ys) [] h k = cc
text_before_transitive [] (y ∷ ys) (z ∷ zs) h k = refl
text_before_transitive (x ∷ xs) (y ∷ ys) (z ∷ zs) h k =
    ground (arith, text_before_transitive xs ys zs)

pub text_before_total :
    (xs ys : Text) → ¬ (xs ≡ ys) → (text_before xs ys ≡ true) ⊎ (text_before ys xs ≡ true)
text_before_total [] [] h = elim (h refl) [ ]
text_before_total [] (y ∷ ys) h = inl refl
text_before_total (x ∷ xs) [] h = inr refl
text_before_total (x ∷ xs) (y ∷ ys) h = ground (arith, text_before_total xs ys)

instance abbrev pub text_order : Order Text
text_order = record {
  before = text_before;
  irreflexive = text_before_irreflexive;
  transitive = text_before_transitive;
  total = text_before_total;
}

module _ {A B : Type 0} ⦃e : Equality A⦄ (first : Order A) (second : Order B) where
  abbrev pub pair_before : A × B → A × B → Bool
  pair_before x y = first.before x.0 y.0 || (x.0 == y.0 && second.before x.1 y.1)

  pair_before_cases :
      (x y : A × B)
      → (pair_before x y ≡ true)
        ↔ ((first.before x.0 y.0 ≡ true) ⊎ ((x.0 ≡ y.0) × (second.before x.1 y.1 ≡ true)))
  pair_before_cases x y =
      (λ h. ground (arith, e.same_iff x.0 y.0), λ h. ground (arith, e.same_iff x.0 y.0))

  pub pair_before_transitive :
      (x y z : A × B) → pair_before x y ≡ true → pair_before y z ≡ true → pair_before x z ≡ true
  pair_before_transitive x y z h k = (pair_before_cases x z).1 (elim ((pair_before_cases x y).0 h) [
    | inl a ↦ elim ((pair_before_cases y z).0 k) [
      | inl b ↦ inl (first.transitive x.0 y.0 z.0 a b)
      | inr b ↦ inl (cc (a, b.0))
    ]
    | inr a ↦ elim ((pair_before_cases y z).0 k) [
      | inl b ↦ inl (cc (a.0, b))
      | inr b ↦ inr (a.0 ∙ b.0, second.transitive x.1 y.1 z.1 a.1 b.1)
    ]
  ])

  pub pair_before_total :
      (x y : A × B) → ¬ (x ≡ y) → (pair_before x y ≡ true) ⊎ (pair_before y x ≡ true)
  pair_before_total x y h = elim (Bool-cases (x.0 == y.0)) [
    | inl same ↦
        let heads = (e.same_iff x.0 y.0).0 same in
        elim (second.total x.1 y.1 (λ tails. h (λ i. (heads i, tails i)))) [
          | inl b ↦ inl ((pair_before_cases x y).1 (inr (heads, b)))
          | inr b ↦ inr ((pair_before_cases y x).1 (inr (sym heads, b)))
        ]
    | inr differ ↦ elim (first.total x.0 y.0 (λ heads. cc (differ, (e.same_iff x.0 y.0).1 heads))) [
      | inl b ↦ inl ((pair_before_cases x y).1 (inl b))
      | inr b ↦ inr ((pair_before_cases y x).1 (inl b))
    ]
  ]

  pub pair_before_irreflexive : (x : A × B) → ¬ (pair_before x x ≡ true)
  pair_before_irreflexive x h = elim ((pair_before_cases x x).0 h) [
    | inl a ↦ first.irreflexive x.0 a
    | inr a ↦ second.irreflexive x.1 a.1
  ]

-- The lexicographic order of tuples.
instance abbrev pub pair_order :
    {A B : Type 0} ⦃e : Equality A⦄ ⦃first : Order A⦄ ⦃second : Order B⦄ → Order (A × B)
pair_order ⦃e⦄ ⦃first⦄ ⦃second⦄ = record {
  before = pair_before first second;
  irreflexive = pair_before_irreflexive first second;
  transitive = pair_before_transitive first second;
  total = pair_before_total first second;
}

module _ {V K : Type 0} ⦃order : Order K⦄ (key : V → K) where
  unfoldable pub insert_sorted : V → List V → List V
  insert_sorted x [] = x ∷ []
  insert_sorted x (y ∷ ys) =
      let rest = insert_sorted x ys in if order.before (key y) (key x) then y ∷ rest else x ∷ y ∷ ys

  unfoldable pub sort_by_key : List V → List V
  unfolding insert_sorted
  sort_by_key [] = []
  sort_by_key (x ∷ xs) = insert_sorted x (sort_by_key xs)

  -- Keys that rise.
  abbrev pub Sorted : List V → Type 0
  Sorted [] = Unit
  Sorted (x ∷ xs) = All (λ y. order.before (key x) (key y) ≡ true) xs × Sorted xs

  abbrev pub DifferentKeys : List V → Type 0
  DifferentKeys [] = Unit
  DifferentKeys (x ∷ xs) = All (λ y. ¬ (key x ≡ key y)) xs × DifferentKeys xs

  All-insert_sorted :
      (P : V → Type 0) (x : V) (ys : List V) → P x → All P ys → All P (insert_sorted x ys)
  unfolding insert_sorted
  All-insert_sorted P x [] px h = (px, tt)
  All-insert_sorted P x (y ∷ ys) px h = elim (Bool-cases (order.before (key y) (key x))) [
    | inl e ↦ rw e (h.0, All-insert_sorted P x ys px h.1)
    | inr e ↦ rw e (px, h)
  ]

  pub All-sort_by_key : (P : V → Type 0) (xs : List V) → All P xs → All P (sort_by_key xs)
  unfolding sort_by_key
  All-sort_by_key P [] h = tt
  All-sort_by_key P (x ∷ xs) h =
      All-insert_sorted P x (sort_by_key xs) h.0 (All-sort_by_key P xs h.1)

  insert_sorted-Sorted :
      (x : V) (ys : List V)
      → Sorted ys
      → All (λ y. ¬ (key x ≡ key y)) ys
      → Sorted (insert_sorted x ys)
  unfolding insert_sorted
  insert_sorted-Sorted x [] h new = (tt, tt)
  insert_sorted-Sorted x (y ∷ ys) h new = elim (Bool-cases (order.before (key y) (key x))) [
    | inl e ↦ rw e (
      All-insert_sorted (λ z. order.before (key y) (key z) ≡ true) x ys e h.0,
      insert_sorted-Sorted x ys h.1 new.1,
    )
    | inr e ↦ elim (order.total (key x) (key y) new.0) [
      | inl less ↦ rw e (
        (
          less,
          All-map (λ z. order.before (key y) (key z) ≡ true)
              (λ z. order.before (key x) (key z) ≡ true) ys
              (λ z k. order.transitive (key x) (key y) (key z) less k) h.0,
        ),
        h,
      )
      | inr more ↦ cc (e, more)
    ]
  ]

  pub sort_by_key-Sorted : (xs : List V) → DifferentKeys xs → Sorted (sort_by_key xs)
  unfolding sort_by_key
  sort_by_key-Sorted [] h = tt
  sort_by_key-Sorted (x ∷ xs) h =
      insert_sorted-Sorted x (sort_by_key xs) (sort_by_key-Sorted xs h.1)
        (All-sort_by_key (λ y. ¬ (key x ≡ key y)) xs h.0)
