-- ===== src/Prelude/Int.antt =====
-- Signed integers over the native numbers, and Go's `int32` conversion.
use ideacrawler.Prelude.Tests.{ltb, ◌==◌, if◌then◌else◌}
use Prim.Native.Nat.{ℕ, zero, suc, ◌+◌, ◌-◌, ◌%◌, ◌≤◌, ◌<◌}
use mathlib.Core.Path.{◌≡◌}
use mathlib.Core.Logic.{◌↔◌}
use mathlib.Core.Bool.{Bool, true, false}
use native.Mathlib.Omega.{arith}

-- `negsuc n` is -(n + 1).
pub data ℤ : Type 0 where
  pos : ℕ → ℤ
  negsuc : ℕ → ℤ

abbrev pub pos_part : ℤ → ℕ
pos_part (pos n) = n
pos_part (negsuc n) = 0

abbrev pub neg_part : ℤ → ℕ
neg_part (pos n) = 0
neg_part (negsuc n) = suc n

infix 50 ◌<ℤ◌ ◌≤ℤ◌
abbrev pub ◌≤ℤ◌ : ℤ → ℤ → Type 0
a ≤ℤ b = pos_part a + neg_part b ≤ pos_part b + neg_part a

abbrev pub ◌<ℤ◌ : ℤ → ℤ → Type 0
a <ℤ b = pos_part a + neg_part b < pos_part b + neg_part a

abbrev pub ltb_ℤ : ℤ → ℤ → Bool
ltb_ℤ a b = ltb (pos_part a + neg_part b) (pos_part b + neg_part a)

abbrev pub eqb_ℤ : ℤ → ℤ → Bool
eqb_ℤ a b = pos_part a + neg_part b == pos_part b + neg_part a

abbrev pub two_31 : ℕ
two_31 = 2147483648

abbrev pub two_32 : ℕ
two_32 = 4294967296

-- The int32 with the bit pattern `r`.
abbrev pub of_bits : ℕ → ℤ
of_bits r = if ltb r two_31 then pos r else negsuc (two_32 - 1 - r)

-- `int32(x)` of a wider integer: its low 32 bits, read in two's complement.
unfoldable pub int32 : ℤ → ℤ
int32 (pos n) = of_bits (n % two_32)
int32 (negsuc n) = of_bits (two_32 - 1 - n % two_32)

-- `x + 1` on int32.
unfoldable pub inc32 : ℤ → ℤ
inc32 (pos n) = int32 (pos (suc n))
inc32 (negsuc zero) = pos 0
inc32 (negsuc (suc n)) = negsuc n

pub int32_small : (n : ℕ) → n < two_31 → int32 (pos n) ≡ pos n
unfolding int32
int32_small n h = ground arith

pub inc32_small : (n : ℕ) → suc n < two_31 → inc32 (pos n) ≡ pos (suc n)
unfolding inc32
inc32_small n h = int32_small (suc n) h

pub int32_positive : (a v : ℤ) → pos 0 <ℤ a → a ≤ℤ v → v <ℤ pos two_31 → int32 v ≡ v
int32_positive a (pos n) above big small = int32_small n (omega arith)
int32_positive a (negsuc n) above big small = absurd (omega arith)

pub below_of : (a b : ℤ) → ltb_ℤ a b ≡ true → a <ℤ b
below_of a b h = ground (arith, h)

pub not_below_of : (a b : ℤ) → ltb_ℤ a b ≡ false → b ≤ℤ a
not_below_of a b h = ground (arith, h)

pub eqb_ℤ_iff : (a : ℤ) (k : ℕ) → (eqb_ℤ a (pos k) ≡ true) ↔ (a ≡ pos k)
eqb_ℤ_iff (pos n) k = ground arith
eqb_ℤ_iff (negsuc n) k = ground arith
