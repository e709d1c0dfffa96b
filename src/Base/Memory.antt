-- ===== src/Base/Memory.antt =====
-- Arrays and memories as functions from an index: one write, and the number of nonzero entries.
use Prim.Native.Nat.{ℕ, zero, suc, ◌+◌, ◌≤◌, ◌<◌}
use mathlib.Core.Path.{◌≡◌, refl, ap, fun_ext}
use mathlib.Core.Logic.{◌≢◌, inl, inr}
use native.Mathlib.Omega.{arith}
use voland.Base.Tests.{◌==◌, if◌then◌else◌, Bool-cases, ==_iff}

abbrev pub update {ℓ} : {A : Type ℓ} → (ℕ → A) → ℕ → A → ℕ → A
update f k v j = if j == k then v else f j

pub update_self {ℓ} : {A : Type ℓ} (f : ℕ → A) (k : ℕ) (v : A) → update f k v k ≡ v
update_self f k v = rw ((==_iff k k).1 refl)

pub update_ne {ℓ} : {A : Type ℓ} (f : ℕ → A) (k : ℕ) (v : A) (j : ℕ) → j ≢ k → update f k v j ≡ f j
update_ne f k v j ne = elim (Bool-cases (j == k)) [
  | inl e ↦ absurd (ne ((==_iff j k).0 e))
  | inr e ↦ rw e
]

-- How many of the entries below `n` are not zero.
abbrev pub flag : ℕ → ℕ
flag zero = 0
flag (suc k) = 1

pub flag_pos : (n : ℕ) → n ≢ 0 → flag n ≡ 1
flag_pos zero h = absurd (h refl)
flag_pos (suc n) h = refl

pub nonzero : (ℕ → ℕ) → ℕ → ℕ
nonzero f zero = 0
nonzero f (suc n) = nonzero f n + flag (f n)

nonzero-update_above : (f : ℕ → ℕ) (k v n : ℕ) → n ≤ k → nonzero (update f k v) n ≡ nonzero f n
unfolding nonzero
nonzero-update_above f k v zero h = refl
nonzero-update_above f k v (suc n) h =
    rw (update_ne f k v n (omega arith)) (omega (arith, nonzero-update_above f k v n (omega arith)))

-- A write moves the count by the entry's own flag.
pub nonzero-update :
    (f : ℕ → ℕ) (k v n : ℕ) → k < n → nonzero (update f k v) n + flag (f k) ≡ nonzero f n + flag v
unfolding nonzero
nonzero-update f k v zero h = elim h [ ]
nonzero-update f k v (suc n) h = elim (Bool-cases (n == k)) [
  | inl e ↦ rw (e, (==_iff n k).0 e) (omega (arith, nonzero-update_above f k v k (omega arith)))
  | inr e ↦ rw e (omega (arith, nonzero-update f k v n (ground arith)))
]

pub nonzero-le : (f : ℕ → ℕ) (n : ℕ) → nonzero f n ≤ n
unfolding nonzero
nonzero-le f zero = omega arith
nonzero-le f (suc n) = ground (arith, nonzero-le f n)

-- No nonzero entry is counted exactly when all are zero.
pub nonzero-eq-zero : (f : ℕ → ℕ) (n j : ℕ) → nonzero f n ≡ 0 → j < n → f j ≡ 0
unfolding nonzero
nonzero-eq-zero f zero j h lt = elim lt [ ]
nonzero-eq-zero f (suc n) j h lt = elim (Bool-cases (j == n)) [
  | inl e ↦ rw ((==_iff j n).0 e) (ground arith)
  | inr e ↦ nonzero-eq-zero f n j (omega arith) (ground arith)
]

pub nonzero_of_zero : (f : ℕ → ℕ) (n : ℕ) → ((j : ℕ) → j < n → f j ≡ 0) → nonzero f n ≡ 0
unfolding nonzero
nonzero_of_zero f zero h = refl
nonzero_of_zero f (suc n) h =
    rw (h n (omega arith)) (omega (arith, nonzero_of_zero f n (λ j lt. h j (omega arith))))

pub nonzero_ext : (f g : ℕ → ℕ) (n : ℕ) → ((j : ℕ) → f j ≡ g j) → nonzero f n ≡ nonzero g n
nonzero_ext f g n h = ap (λ k. nonzero k n) (fun_ext h)
