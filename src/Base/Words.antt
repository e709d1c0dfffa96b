-- ===== src/Base/Words.antt =====
-- The digits of a word, and setting one of them.
use Prim.Native.Nat.{
  ℕ, zero, suc, ◌+◌, ◌-◌, ◌*◌, ◌/◌, ◌%◌, ◌^◌, ◌≤◌, max, bit_or, digits, bit_or-bitwise,
}
use mathlib.Core.Path.{◌≡◌, refl, ◌∙◌, sym}
use native.Mathlib.Omega.{arith, pow_step}
use native.Mathlib.Nat.{div-div-eq-div-mul}
use voland.Base.Tests.{◌==◌, if◌then◌else◌}

abbrev pub bit : ℕ → ℕ → ℕ
bit n j = n / 2 ^ j % 2

div_pow_suc : (n j : ℕ) → n / 2 ^ suc j ≡ n / 2 / 2 ^ j
div_pow_suc n j = rw (pow_step 2 j) (sym (div-div-eq-div-mul n 2 (2 ^ j)))

abbrev joined : ℕ → ℕ → ℕ → ℕ
joined count a b = digits (λ b. b) max count a b

joined_enough : (n m a b : ℕ) → a ≤ n → a ≤ m → joined n a b ≡ joined m a b
joined_enough zero zero a b h k = refl
joined_enough zero (suc m) zero b h k = refl
joined_enough (suc n) zero zero b h k = refl
joined_enough (suc n) (suc m) zero b h k = refl
joined_enough zero m (suc a) b h k = absurd (omega arith)
joined_enough (suc n) zero (suc a) b h k = absurd (omega arith)
joined_enough (suc n) (suc m) (suc a) b h k =
    omega (arith, joined_enough n m (suc a / 2) (b / 2) (omega arith) (omega arith))

bit_or-halves : (a b : ℕ) → bit_or a b ≡ bit_or (a / 2) (b / 2) * 2 + max (a % 2) (b % 2)
bit_or-halves zero b = omega (arith, bit_or-bitwise 0 b, bit_or-bitwise 0 (b / 2))
bit_or-halves (suc a) b = omega (
  arith,
  bit_or-bitwise (suc a) b,
  bit_or-bitwise (suc a / 2) (b / 2),
  joined_enough a (suc a / 2) (suc a / 2) (b / 2) (omega arith) (omega arith),
)

nothing_joined : (n a : ℕ) → a ≤ n → bit_or a 0 ≡ a
nothing_joined n zero h = refl
nothing_joined zero (suc a) h = absurd (omega arith)
nothing_joined (suc n) (suc a) h =
    omega (arith, bit_or-halves (suc a) 0, nothing_joined n (suc a / 2) (omega arith))

-- `a | 1 << k` has digit `k` set and every other as in `a`.
pub bit-bit_or : (a k j : ℕ) → bit (bit_or a (2 ^ k)) j ≡ (if j == k then 1 else bit a j)
bit-bit_or a zero zero = omega (arith, bit_or-halves a 1)
bit-bit_or a zero (suc j) =
    let half : bit_or a 1 / 2 ≡ a / 2 =
      omega (arith, bit_or-halves a 1, nothing_joined (a / 2) (a / 2) (omega arith)) in
    rw (div_pow_suc (bit_or a 1) j, half, div_pow_suc a j) (ground arith)
bit-bit_or a (suc k) zero =
    let even : 2 ^ suc k % 2 ≡ 0 = omega (arith, pow_step 2 k) in
    let same : bit_or a (2 ^ suc k) % 2 ≡ a % 2 =
      omega (arith, bit_or-halves a (2 ^ suc k), even) in
    grind (arith, same)
bit-bit_or a (suc k) (suc j) =
    let whole : 2 ^ suc k / 2 ≡ 2 ^ k = omega (arith, pow_step 2 k) in
    let half : bit_or a (2 ^ suc k) / 2 ≡ bit_or (a / 2) (2 ^ k) =
      rw (← whole) (omega (arith, bit_or-halves a (2 ^ suc k))) in
    rw (div_pow_suc (bit_or a (2 ^ suc k)) j, half, div_pow_suc a j)
      (bit-bit_or (a / 2) k j ∙ ground arith)

-- A word whose digit `k` is set is at least `2 ^ k`.
bit-le : (a k : ℕ) → bit a k ≡ 1 → 2 ^ k ≤ a
bit-le a zero set = ground arith
bit-le a (suc k) set =
    let half : 2 ^ k ≤ a / 2 = bit-le (a / 2) k (rw (div_pow_suc a k) at set) in
    omega (arith, half, pow_step 2 k)

-- `a & ~(1 << k)`, of a word whose digit `k` is set, has it clear and every other digit as in `a`.
pub bit-clear : (a k j : ℕ) → bit a k ≡ 1 → bit (a - 2 ^ k) j ≡ (if j == k then 0 else bit a j)
bit-clear a zero zero set = omega (arith, set)
bit-clear a zero (suc j) set =
    let half : (a - 1) / 2 ≡ a / 2 = omega (arith, set) in
    rw (div_pow_suc (a - 1) j, half, div_pow_suc a j) (ground arith)
bit-clear a (suc k) zero set =
    let large = bit-le a (suc k) set in
    let same : (a - 2 ^ suc k) % 2 ≡ a % 2 = omega (arith, large, pow_step 2 k) in
    grind (arith, same)
bit-clear a (suc k) (suc j) set =
    let half : (a - 2 ^ suc k) / 2 ≡ a / 2 - 2 ^ k = omega (arith, pow_step 2 k) in
    rw (div_pow_suc (a - 2 ^ suc k) j, half, div_pow_suc a j)
      (bit-clear (a / 2) k j (rw (div_pow_suc a k) at set) ∙ ground arith)
