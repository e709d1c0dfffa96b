-- ===== src/Base/Bits.antt =====
-- The bitwise and of a word with a mask of its lowest bits.
use Prim.Native.Nat.{ℕ, zero, suc, ◌+◌, ◌*◌, ◌/◌, ◌%◌, ◌≤◌, min, bit_and, digits, bit_and-bitwise}
use mathlib.Core.Path.{◌≡◌, refl}
use native.Mathlib.Omega.{arith}

-- Digits beyond the number's own add nothing.
abbrev masked : ℕ → ℕ → ℕ → ℕ
masked count a b = digits (λ b. zero) min count a b

masked_enough : (n m a b : ℕ) → a ≤ n → a ≤ m → masked n a b ≡ masked m a b
masked_enough zero zero a b h k = refl
masked_enough zero (suc m) zero b h k = refl
masked_enough (suc n) zero zero b h k = refl
masked_enough (suc n) (suc m) zero b h k = refl
masked_enough zero m (suc a) b h k = absurd (omega arith)
masked_enough (suc n) zero (suc a) b h k = absurd (omega arith)
masked_enough (suc n) (suc m) (suc a) b h k =
    omega (arith, masked_enough n m (suc a / 2) (b / 2) (omega arith) (omega arith))

-- The lowest bit, and the and of the rest.
bit_and-halves : (a b : ℕ) → bit_and a b ≡ bit_and (a / 2) (b / 2) * 2 + min (a % 2) (b % 2)
bit_and-halves zero b = omega (arith, bit_and-bitwise 0 b, bit_and-bitwise 0 (b / 2))
bit_and-halves (suc a) b = omega (
  arith,
  bit_and-bitwise (suc a) b,
  bit_and-bitwise (suc a / 2) (b / 2),
  masked_enough a (suc a / 2) (suc a / 2) (b / 2) (omega arith) (omega arith),
)

no_bits : (n a : ℕ) → a ≤ n → bit_and a 0 ≡ 0
no_bits n zero h = refl
no_bits zero (suc a) h = absurd (omega arith)
no_bits (suc n) (suc a) h =
    omega (arith, bit_and-halves (suc a) 0, no_bits n (suc a / 2) (omega arith))

pub bit_and_zero : (a : ℕ) → bit_and a 0 ≡ 0
bit_and_zero a = no_bits a a (omega arith)

pub bit_and_one : (a : ℕ) → bit_and a 1 ≡ a % 2
bit_and_one a = omega (arith, bit_and-halves a 1, bit_and_zero (a / 2))

pub bit_and_three : (a : ℕ) → bit_and a 3 ≡ a % 4
bit_and_three a = omega (arith, bit_and-halves a 3, bit_and_one (a / 2))
