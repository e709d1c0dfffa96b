-- ===== src/Base/Bytes.antt =====
-- Equality of byte strings, as `memcmp` and `strcmp` decide it.
use Prim.Native.Nat.{ℕ}
use mathlib.Core.Path.{◌≡◌, refl, ap₂}
use mathlib.Core.Logic.{inl, inr}
use mathlib.Core.Bool.{Bool, true, false}
use mathlib.Core.List.{List, [], ◌∷◌}
use native.Mathlib.Omega.{arith}
use voland.Base.Tests.{◌==◌, if◌then◌else◌, Bool-cases, ==_iff}

-- `memcmp` or `strcmp` for equality, of byte strings.
abbrev pub same_bytes : List ℕ → List ℕ → Bool
same_bytes [] [] = true
same_bytes [] (b ∷ bs) = false
same_bytes (a ∷ rest) [] = false
same_bytes (a ∷ rest) (b ∷ bs) = let same = same_bytes rest bs in if a == b then same else false

pub same_bytes_self : (s : List ℕ) → same_bytes s s ≡ true
same_bytes_self [] = refl
same_bytes_self (a ∷ rest) =
    let here : (a == a) ≡ true = ground arith in rw here (same_bytes_self rest)

pub same_bytes→eq : (s t : List ℕ) → same_bytes s t ≡ true → s ≡ t
same_bytes→eq [] [] e = refl
same_bytes→eq [] (b ∷ bs) e = absurd cc
same_bytes→eq (a ∷ rest) [] e = absurd cc
same_bytes→eq (a ∷ rest) (b ∷ bs) e = elim (Bool-cases (a == b)) [
  | inl here ↦ ap₂ ◌∷◌ ((==_iff a b).0 here) (same_bytes→eq rest bs (rw here at e))
  | inr off ↦ absurd (cc (rw off at e))
]
