-- ===== src/Prelude/Equality.antt =====
-- Equality tests as an interface, with its instances for numbers and for texts. A text is the list of
-- its UTF-8 bytes.
use Prim.Native.Nat.{ℕ}
use Prim.Native.Char.{code}
use Prim.Native.String.{String}
use mathlib.Core.Path.{◌≡◌, refl, ap}
use mathlib.Core.Logic.{◌↔◌}
use mathlib.Core.Bool.{Bool, true, false, ◌&&◌}
use mathlib.Core.List.{List, [], ◌∷◌}
use native.Mathlib.Omega.{arith}
use aptos_indexer_processors.Prelude.Tests.{nat_beq, nat_beq_iff}

pub record Equality {ℓ} (T : Type ℓ) : Type ℓ where
  pub same : T → T → Bool
  pub same_iff : (x y : T) → (same x y ≡ true) ↔ (x ≡ y)

abbrev pub Text : Type 0
Text = List ℕ

abbrev pub same_text : Text → Text → Bool
same_text [] [] = true
same_text [] (y ∷ ys) = false
same_text (x ∷ xs) [] = false
same_text (x ∷ xs) (y ∷ ys) = nat_beq x y && same_text xs ys

pub same_text_iff : (xs ys : Text) → (same_text xs ys ≡ true) ↔ (xs ≡ ys)
same_text_iff [] [] = (λ _. refl, λ _. refl)
same_text_iff [] (y ∷ ys) = (λ h. cc, λ h. cc)
same_text_iff (x ∷ xs) [] = (λ h. cc, λ h. cc)
same_text_iff (x ∷ xs) (y ∷ ys) =
    (λ h. ground (arith, same_text_iff xs ys), λ h. ground (arith, same_text_iff xs ys))

instance abbrev pub text_eq : Equality Text
text_eq = record { same = same_text; same_iff = same_text_iff }

instance abbrev pub nat_eq : Equality ℕ
nat_eq = record { same = nat_beq; same_iff = nat_beq_iff }

infix 50 ◌==◌
abbrev pub ◌==◌ {ℓ} : {T : Type ℓ} ⦃equality : Equality T⦄ → T → T → Bool
◌==◌ ⦃equality⦄ x y = equality.same x y

-- The bytes of an ASCII literal.
abbrev pub bytes : String → Text
bytes String.[] = []
bytes (String.◌∷◌ letter letters) = code letter ∷ bytes letters

pub pair_same_iff {ℓ κ} :
    {S : Type ℓ} {T : Type κ} (e : Equality S) (f : Equality T) (x y : S × T)
    → ((e.same x.0 y.0 && f.same x.1 y.1) ≡ true) ↔ (x ≡ y)
pair_same_iff e f x y = (
  λ h.
      let heads : x.0 ≡ y.0 = ground (arith, e.same_iff x.0 y.0) in
      let tails : x.1 ≡ y.1 = ground (arith, f.same_iff x.1 y.1) in λ i. (heads i, tails i),
  λ h.
      let heads : x.0 ≡ y.0 = ap (λ p. p.0) h in
      let tails : x.1 ≡ y.1 = ap (λ p. p.1) h in
      ground (arith, e.same_iff x.0 y.0, f.same_iff x.1 y.1),
)

instance abbrev pub pair_eq {ℓ κ} :
    {S : Type ℓ} {T : Type κ} ⦃e : Equality S⦄ ⦃f : Equality T⦄ → Equality (S × T)
pair_eq ⦃e⦄ ⦃f⦄ = record {
  same = λ x y. e.same x.0 y.0 && f.same x.1 y.1;
  same_iff = pair_same_iff e f;
}
