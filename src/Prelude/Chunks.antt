-- ===== src/Prelude/Chunks.antt =====
-- A list cut into chunks (`slice::chunks`, and `chunks` of `itertools`), and `Vec::retain`.
use aptos_indexer_processors.Prelude.Tests.{if◌then◌else◌}
use aptos_indexer_processors.Prelude.Lists.{
  length, take, drop, concat, All, take-append-drop, length-take_le, length-drop,
}
use Prim.Native.Nat.{ℕ, zero, suc, ◌≤◌}
use mathlib.Core.Path.{◌≡◌, refl, ◌∙◌, ap}
use mathlib.Core.Bool.{Bool}
use mathlib.Core.List.{List, [], ◌∷◌, ◌++◌}
use native.Mathlib.Omega.{arith}

module _ {A : Type 0} where
  -- Each round takes an element at least, so the length of the list is fuel enough.
  chunks_from : ℕ → ℕ → List A → List (List A)
  chunks_from zero n xs = []
  chunks_from (suc fuel) n [] = []
  chunks_from (suc fuel) n (x ∷ xs) = take n (x ∷ xs) ∷ chunks_from fuel n (drop n (x ∷ xs))

  unfoldable pub chunks : ℕ → List A → List (List A)
  unfolding chunks_from
  chunks n xs = chunks_from (length xs) n xs

  unfoldable pub retain : (A → Bool) → List A → List A
  retain p [] = []
  retain p (x ∷ xs) = let rest = retain p xs in if p x then x ∷ rest else rest

  -- A chunk is not empty and has at most `n` elements.
  abbrev pub IsChunk : ℕ → List A → Type 0
  IsChunk n c = (1 ≤ length c) × (length c ≤ n)

  take_pos : (n : ℕ) (x : A) (xs : List A) → 1 ≤ n → 1 ≤ length (take n (x ∷ xs))
  take_pos zero x xs h = absurd (omega arith)
  take_pos (suc n) x xs h = omega arith

  chunks_from_lem :
      (fuel n : ℕ) (xs : List A)
      → 1 ≤ n
      → length xs ≤ fuel
      → (concat (chunks_from fuel n xs) ≡ xs) × All (IsChunk n) (chunks_from fuel n xs)
  unfolding chunks_from
  chunks_from_lem zero n [] pos enough = (refl, tt)
  chunks_from_lem zero n (x ∷ xs) pos enough = absurd (omega arith)
  chunks_from_lem (suc fuel) n [] pos enough = (refl, tt)
  chunks_from_lem (suc fuel) n (x ∷ xs) pos enough =
      let some_taken = take_pos n x xs pos in
      let rest =
        chunks_from_lem fuel n (drop n (x ∷ xs)) pos
          (omega (arith, length-drop n (x ∷ xs), some_taken)) in
      (
        ap (λ r. take n (x ∷ xs) ++ r) rest.0 ∙ take-append-drop n (x ∷ xs),
        ((some_taken, length-take_le n (x ∷ xs)), rest.1),
      )

  -- The chunks put together are the list.
  pub concat-chunks : (n : ℕ) (xs : List A) → 1 ≤ n → concat (chunks n xs) ≡ xs
  unfolding chunks
  concat-chunks n xs pos = (chunks_from_lem (length xs) n xs pos (omega arith)).0

  pub All-chunks : (n : ℕ) (xs : List A) → 1 ≤ n → All (IsChunk n) (chunks n xs)
  unfolding chunks
  All-chunks n xs pos = (chunks_from_lem (length xs) n xs pos (omega arith)).1

  pub retain-append :
      (p : A → Bool) (xs ys : List A) → retain p (xs ++ ys) ≡ retain p xs ++ retain p ys
  unfolding retain
  retain-append p [] ys = refl
  retain-append p (x ∷ xs) ys = ground (arith, retain-append p xs ys)
