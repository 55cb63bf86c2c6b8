-- ===== src/Prelude/Int.antt =====
-- Signed integers over the native numbers (`i64` values, `BigDecimal` quantities without fraction).
use Prim.Native.Nat.{ℕ, suc, ◌+◌, ◌-◌, ◌≤◌}
use mathlib.Core.Bool.{Bool, true, false}
use mathlib.Core.Path.{◌≡◌, ap}
use mathlib.Core.Logic.{◌↔◌}
use aptos_indexer_processors.Prelude.Tests.{ltb, leb, nat_beq, nat_beq_iff, if◌then◌else◌}
use aptos_indexer_processors.Prelude.Equality.{Equality}

-- `negsuc n` is -(n + 1).
pub data ℤ : Type 0 where
  pos : ℕ → ℤ
  negsuc : ℕ → ℤ

abbrev pub pos_part : ℤ → ℕ
pos_part (pos n) = n
pos_part (negsuc n) = 0

abbrev pub neg_part : ℤ → ℕ
neg_part (pos n) = 0
neg_part (negsuc n) = suc n

-- a - b, as an integer.
abbrev pub sub_ℕ : ℕ → ℕ → ℤ
sub_ℕ a b = if leb b a then pos (a - b) else negsuc (b - a - 1)

infix 50 ◌≤ℤ◌
abbrev pub ◌≤ℤ◌ : ℤ → ℤ → Type 0
a ≤ℤ b = pos_part a + neg_part b ≤ pos_part b + neg_part a

abbrev pub ltb_ℤ : ℤ → ℤ → Bool
ltb_ℤ a b = ltb (pos_part a + neg_part b) (pos_part b + neg_part a)

abbrev pub leb_ℤ : ℤ → ℤ → Bool
leb_ℤ a b = leb (pos_part a + neg_part b) (pos_part b + neg_part a)

abbrev pub int_beq : ℤ → ℤ → Bool
int_beq (pos a) (pos b) = nat_beq a b
int_beq (pos a) (negsuc b) = false
int_beq (negsuc a) (pos b) = false
int_beq (negsuc a) (negsuc b) = nat_beq a b

pub int_beq_iff : (a b : ℤ) → (int_beq a b ≡ true) ↔ (a ≡ b)
int_beq_iff (pos a) (pos b) = (λ h. ap pos ((nat_beq_iff a b).0 h), λ h. (nat_beq_iff a b).1 (cc h))
int_beq_iff (pos a) (negsuc b) = (λ h. cc, λ h. cc)
int_beq_iff (negsuc a) (pos b) = (λ h. cc, λ h. cc)
int_beq_iff (negsuc a) (negsuc b) =
    (λ h. ap negsuc ((nat_beq_iff a b).0 h), λ h. (nat_beq_iff a b).1 (cc h))

instance abbrev pub int_eq : Equality ℤ
int_eq = record { same = int_beq; same_iff = int_beq_iff }
