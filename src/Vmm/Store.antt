-- ===== src/Vmm/Store.antt =====
-- A write to one page table entry of core/common/vmm.c, with its table's count adjusted, keeps the
-- invariant.
use voland.Base.{ℕ, ◌+◌, ◌/◌, ◌%◌, ◌≡◌, ◌≢◌, arith}
use voland.Base.{List, nonzero, flag, update, update_self, update_ne}
use voland.Base.{ap, inl, inr, eq_cases, nonzero-update, nonzero_ext}
use voland.Vmm.{Context, l2_entry_count, write_entry, pte_load}
use voland.Vmm.Inv.{Chain-transfer, IsSound, mapped_in}
use voland.Vmm.Pte.{pte_load-present, mapped_in-present}

-- `pte_store` at a page, with the counts replaced.
abbrev pub stored : Context → ℕ → ℕ → (ℕ → ℕ) → Context
stored ctx v pte counts = record ctx {
  tables = write_entry ctx.tables (ctx.l1 (v / l2_entry_count)) (v % l2_entry_count) pte;
  l2_mapped_count = counts;
}

module _ {ctx : Context} (free : List ℕ) (s : IsSound ctx free) (v pte : ℕ) (counts : ℕ → ℕ) where
  module _ (live : ctx.l1 (v / l2_entry_count) ≢ 0)
      (here : counts (v / l2_entry_count) + flag (pte_load ctx v)
        ≡ ctx.l2_mapped_count (v / l2_entry_count) + flag pte)
      (there : (i : ℕ) → i ≢ v / l2_entry_count → counts i ≡ ctx.l2_mapped_count i) where
    abbrev table : ℕ
    table = ctx.l1 (v / l2_entry_count)

    others : (u : ℕ) → u ≢ table → (j : ℕ) → (stored ctx v pte counts).tables u j ≡ ctx.tables u j
    others u ne j =
        rw (update_ne ctx.tables table (update (ctx.tables table) (v % l2_entry_count) pte) u ne)

    own_row :
        (j : ℕ)
        → (stored ctx v pte counts).tables table j
          ≡ update (ctx.tables table) (v % l2_entry_count) pte j
    own_row j =
        rw (update_self ctx.tables table (update (ctx.tables table) (v % l2_entry_count) pte))

    stored-counted : (i : ℕ) → counts i ≡ mapped_in (stored ctx v pte counts) i
    stored-counted i = elim (eq_cases i (v / l2_entry_count)) [
      | inl a ↦
          let row : nonzero ((stored ctx v pte counts).tables table) l2_entry_count
              ≡ nonzero (update (ctx.tables table) (v % l2_entry_count) pte) l2_entry_count =
            nonzero_ext _ _ l2_entry_count own_row in
          rw a (
            omega (
              arith,
              mapped_in-present (stored ctx v pte counts) (v / l2_entry_count) live,
              row,
              nonzero-update (ctx.tables table) (v % l2_entry_count) pte l2_entry_count
                  (omega arith),
              here,
              ap flag (pte_load-present ctx v live),
              s.counted (v / l2_entry_count),
              mapped_in-present ctx (v / l2_entry_count) live,
            ))
      | inr a ↦ elim (eq_cases (ctx.l1 i) 0) [
        | inl z ↦ ground (arith, there i a, s.counted i)
        | inr z ↦
            let ne : ctx.l1 i ≢ table = λ e. a (s.live_once i (v / l2_entry_count) z e) in
            let kept : nonzero ((stored ctx v pte counts).tables (ctx.l1 i)) l2_entry_count
                ≡ nonzero (ctx.tables (ctx.l1 i)) l2_entry_count =
              nonzero_ext _ _ l2_entry_count (others (ctx.l1 i) ne) in
            omega (
              arith,
              there i a,
              s.counted i,
              kept,
              mapped_in-present ctx i z,
              mapped_in-present (stored ctx v pte counts) i z,
            )
      ]
    ]

    pub stored-IsSound : IsSound (stored ctx v pte counts) free
    stored-IsSound = record {
      chain = Chain-transfer table _ free (s.apart (v / l2_entry_count) live) others s.chain;
      free_length = s.free_length;
      distinct = s.distinct;
      live_once = s.live_once;
      apart = s.apart;
      live_below = s.live_below;
      free_below = s.free_below;
      arena = omega (arith, s.arena);
      ram = omega (arith, s.ram);
      counted = stored-counted;
      budget = s.budget;
    }
