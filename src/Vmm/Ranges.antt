-- ===== src/Vmm/Ranges.antt =====
-- The validation loops of core/common/vmm.c decide what the pages of a range hold.
use voland.Base.{ℕ, zero, suc, ◌+◌, ◌≤◌, ◌<◌, ◌≡◌, ◌≢◌, arith, true, false}
use voland.Base.{inl, inr, eq_cases}
use voland.Vmm.{Context, pte_load}
use voland.Vmm.Map.{any_mapped, any_unmapped}

-- Every page of `n` from `vpn` on is unmapped, or mapped.
abbrev pub AllUnmapped : Context → ℕ → ℕ → Type 0
AllUnmapped ctx vpn n = (w : ℕ) → vpn ≤ w → w < vpn + n → pte_load ctx w ≡ 0

abbrev pub AllMapped : Context → ℕ → ℕ → Type 0
AllMapped ctx vpn n = (w : ℕ) → vpn ≤ w → w < vpn + n → pte_load ctx w ≢ 0

pub any_mapped-false :
    (ctx : Context) (vpn n : ℕ) → any_mapped ctx vpn n ≡ false → AllUnmapped ctx vpn n
unfolding any_mapped
any_mapped-false ctx vpn zero e w low high = absurd (omega arith)
any_mapped-false ctx vpn (suc n) e w low high = elim (eq_cases w vpn) [
  | inl a ↦ rw a (ground arith)
  | inr a ↦ any_mapped-false ctx (vpn + 1) n (ground arith) w (omega arith) (omega arith)
]

pub any_mapped-true :
    (ctx : Context) (vpn n : ℕ) → any_mapped ctx vpn n ≡ true → ¬ AllUnmapped ctx vpn n
unfolding any_mapped
any_mapped-true ctx vpn zero e h = cc
any_mapped-true ctx vpn (suc n) e h =
    any_mapped-true ctx (vpn + 1) n (ground (arith, h vpn (omega arith) (omega arith)))
      (λ w low high. h w (omega arith) (omega arith))

pub any_unmapped-false :
    (ctx : Context) (vpn n : ℕ) → any_unmapped ctx vpn n ≡ false → AllMapped ctx vpn n
unfolding any_unmapped
any_unmapped-false ctx vpn zero e w low high = absurd (omega arith)
any_unmapped-false ctx vpn (suc n) e w low high = elim (eq_cases w vpn) [
  | inl a ↦ rw a (ground arith)
  | inr a ↦ any_unmapped-false ctx (vpn + 1) n (ground arith) w (omega arith) (omega arith)
]

pub any_unmapped-true :
    (ctx : Context) (vpn n : ℕ) → any_unmapped ctx vpn n ≡ true → ¬ AllMapped ctx vpn n
unfolding any_unmapped
any_unmapped-true ctx vpn zero e h = cc
any_unmapped-true ctx vpn (suc n) e h =
    any_unmapped-true ctx (vpn + 1) n (ground (arith, h vpn (omega arith) (omega arith)))
      (λ w low high. h w (omega arith) (omega arith))
