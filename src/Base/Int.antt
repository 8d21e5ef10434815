-- ===== src/Base/Int.antt =====
-- `i32` and `i64` as integers: `negsuc n` is -(n + 1).
use Prim.Native.Nat.{ℕ, suc, ◌+◌, compare as compare_ℕ}
use mathlib.Core.Path.{◌≡◌}
use mathlib.Core.Logic.{◌↔◌}
use mathlib.Core.Bool.{Bool, true}
use native.Mathlib.Omega.{arith}
use synchrotron.Base.Tests.{ltb, nat_eq}
use synchrotron.Base.Order.{Ordering, IsTotalOrder}
use synchrotron.Base.Equality.{PartialEq}

pub data ℤ : Type 0 where
  pos : ℕ → ℤ
  negsuc : ℕ → ℤ

abbrev pub pos_part : ℤ → ℕ
pos_part (pos n) = n
pos_part (negsuc n) = 0

abbrev pub neg_part : ℤ → ℕ
neg_part (pos n) = 0
neg_part (negsuc n) = suc n

abbrev pub compare_ℤ : ℤ → ℤ → Ordering
compare_ℤ a b = compare_ℕ (pos_part a + neg_part b) (pos_part b + neg_part a)

abbrev pub ltb_ℤ : ℤ → ℤ → Bool
ltb_ℤ a b = ltb (pos_part a + neg_part b) (pos_part b + neg_part a)

abbrev pub int_beq : ℤ → ℤ → Bool
int_beq a b = nat_eq (pos_part a + neg_part b) (pos_part b + neg_part a)

pub int_beq_iff : (a b : ℤ) → (int_beq a b ≡ true) ↔ (a ≡ b)
int_beq_iff (pos m) (pos n) = ground arith
int_beq_iff (pos m) (negsuc n) = ground arith
int_beq_iff (negsuc m) (pos n) = ground arith
int_beq_iff (negsuc m) (negsuc n) = ground arith

instance abbrev pub ℤ_eq : PartialEq ℤ
ℤ_eq = record { tests = int_beq; decides = int_beq_iff }

pub compare_ℤ-IsTotalOrder : IsTotalOrder compare_ℤ
compare_ℤ-IsTotalOrder = record { flips = λ a b. ground arith; trans = λ a b c h k. ground arith }

pub compare_ℤ-eq : (a b : ℤ) → compare_ℤ a b ≡ Ordering.eq → a ≡ b
compare_ℤ-eq (pos m) (pos n) h = ground arith
compare_ℤ-eq (pos m) (negsuc n) h = ground arith
compare_ℤ-eq (negsuc m) (pos n) h = ground arith
compare_ℤ-eq (negsuc m) (negsuc n) h = ground arith
