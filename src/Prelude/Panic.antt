-- ===== src/Prelude/Panic.antt =====
-- Code that may panic: `unwrap`, `expect`, `panic!` and the assertions of library calls.
use mathlib.Core.Path.{◌≡◌, refl}
use mathlib.Core.Option.{Option, none, some}

pub data Outcome {ℓ} (A : Type ℓ) : Type ℓ where
  done : A → Outcome A
  panic : Outcome A

infixl 5 ◌>>=◌
abbrev pub ◌>>=◌ {ℓ κ} : {A : Type ℓ} {B : Type κ} → Outcome A → (A → Outcome B) → Outcome B
done a >>= f = f a
panic >>= f = panic

-- `unwrap` and `expect`.
abbrev pub unwrap {ℓ} : {A : Type ℓ} → Option A → Outcome A
unwrap none = panic
unwrap (some a) = done a

pub done-injective {ℓ} : {A : Type ℓ} {a b : A} → done a ≡ done b → a ≡ b
done-injective e = cc

pub panic-ne-done {ℓ} : {A : Type ℓ} {a : A} → panic ≡ done a → ⊥
panic-ne-done e = cc

-- Inversion of a chain that did not panic.
pub >>=-eq-done {ℓ κ} :
    {A : Type ℓ} {B : Type κ} (m : Outcome A) (f : A → Outcome B) {b : B}
    → (m >>= f) ≡ done b
    → (a : A) × (m ≡ done a) × (f a ≡ done b)
>>=-eq-done (done a) f h = (a, refl, h)
>>=-eq-done panic f h = cc

pub unwrap-eq-done {ℓ} : {A : Type ℓ} (o : Option A) {a : A} → unwrap o ≡ done a → o ≡ some a
unwrap-eq-done none h = cc
unwrap-eq-done (some x) h = cc (done-injective h)
