-- ===== src/Vmm/Release.antt =====
-- An L2 table whose last page is gone returns to the freelist (core/common/vmm.c, vmm_unmap and
-- l2_table_release).
use voland.Base.{ℕ, ◌+◌, ◌/◌, ◌%◌, ◌<◌, ◌≡◌, ◌≢◌, refl, arith}
use voland.Base.{List, ◌∷◌, All-map, nonzero, flag_pos, update, update_self, update_ne}
use voland.Base.{sym, ap, ◌∙◌, inl, inr, eq_cases, nonzero-update, nonzero_ext, nonzero-eq-zero}
use voland.Vmm.{Context, l2_entry_count, l1_entry_count, write_entry, pte_load}
use voland.Vmm.Inv.{Chain-transfer, IsSound, mapped_in}
use voland.Vmm.Pte.{mapped_in-present, mapped_in-absent}

-- The slot is emptied and its table released.
abbrev pub released : Context → ℕ → Context
released ctx index = record ctx {
  l1 = update ctx.l1 index 0;
  l2_freelist = ctx.l1 index;
  l2_free_count = ctx.l2_free_count + 1;
  tables = write_entry ctx.tables (ctx.l1 index) 0 ctx.l2_freelist;
}

module _ {ctx : Context} (free : List ℕ) (s : IsSound ctx free) (index : ℕ) where
  module _ (live : ctx.l1 index ≢ 0) (idle : ctx.l2_mapped_count index ≡ 0) where
    abbrev t : ℕ
    t = ctx.l1 index

    row_zero : (j : ℕ) → j < l2_entry_count → ctx.tables t j ≡ 0
    row_zero j lt =
        nonzero-eq-zero (ctx.tables t) l2_entry_count j
          (omega (arith, s.counted index, mapped_in-present ctx index live)) lt

    others : (u : ℕ) → u ≢ t → (j : ℕ) → (released ctx index).tables u j ≡ ctx.tables u j
    others u ne j = rw (update_ne ctx.tables t (update (ctx.tables t) 0 ctx.l2_freelist) u ne)

    link : (released ctx index).tables t 0 ≡ ctx.l2_freelist
    link =
        rw (update_self ctx.tables t (update (ctx.tables t) 0 ctx.l2_freelist))
          (update_self (ctx.tables t) 0 ctx.l2_freelist)

    rest_zero : (j : ℕ) → 0 < j → j < l2_entry_count → (released ctx index).tables t j ≡ 0
    rest_zero j pos lt =
        rw (update_self ctx.tables t (update (ctx.tables t) 0 ctx.l2_freelist))
          (update_ne (ctx.tables t) 0 ctx.l2_freelist j (omega arith) ∙ row_zero j lt)

    -- A slot that is still live is another one, unchanged.
    pub elsewhere : (i : ℕ) → (released ctx index).l1 i ≢ 0 → i ≢ index
    elsewhere i l e = l (rw (e, update_self ctx.l1 index 0))

    pub kept : (i : ℕ) → i ≢ index → (released ctx index).l1 i ≡ ctx.l1 i
    kept i ne = update_ne ctx.l1 index 0 i ne

    pub was_live : (i : ℕ) → (released ctx index).l1 i ≢ 0 → ctx.l1 i ≢ 0
    was_live i l z = l (kept i (elsewhere i l) ∙ z)

    not_t : (i : ℕ) → (released ctx index).l1 i ≢ 0 → ctx.l1 i ≢ t
    not_t i l e = elsewhere i l (s.live_once i index (was_live i l) e)

    released-counted : (i : ℕ) → ctx.l2_mapped_count i ≡ mapped_in (released ctx index) i
    released-counted i = elim (eq_cases i index) [
      | inl a ↦
          rw a
            (idle ∙ sym (mapped_in-absent (released ctx index) index (update_self ctx.l1 index 0)))
      | inr a ↦ elim (eq_cases (ctx.l1 i) 0) [
        | inl z ↦
            s.counted i
            ∙ mapped_in-absent ctx i z
            ∙ sym (mapped_in-absent (released ctx index) i (kept i a ∙ z))
        | inr z ↦
            let l : (released ctx index).l1 i ≢ 0 = λ e. z (sym (kept i a) ∙ e) in
            let same : nonzero ((released ctx index).tables (ctx.l1 i)) l2_entry_count
                ≡ nonzero (ctx.tables (ctx.l1 i)) l2_entry_count =
              nonzero_ext _ _ l2_entry_count (others (ctx.l1 i) (not_t i l)) in
            let there =
              ap (λ u. nonzero ((released ctx index).tables u) l2_entry_count) (kept i a) in
            omega (
              arith,
              s.counted i,
              mapped_in-present ctx i z,
              mapped_in-present (released ctx index) i l,
              same,
              there,
            )
      ]
    ]

    pub released-IsSound : index < l1_entry_count → IsSound (released ctx index) (t ∷ free)
    released-IsSound lt = record {
      chain = (
        refl,
        live,
        rest_zero,
        rw link (Chain-transfer t ctx.l2_freelist free (s.apart index live) others s.chain),
      );
      free_length = omega (arith, s.free_length);
      distinct = (s.apart index live, s.distinct);
      live_once = λ i j l e.
          s.live_once i j (was_live i l)
            (sym (kept i (elsewhere i l)) ∙ e ∙ kept j (elsewhere j (λ z. l (e ∙ z))));
      apart = λ i l. (
        (λ e. not_t i l (sym (e ∙ kept i (elsewhere i l)))),
        All-map (λ u ne e. ne (e ∙ kept i (elsewhere i l))) free (s.apart i (was_live i l)),
      );
      live_below = λ i l. rw (kept i (elsewhere i l)) (s.live_below i (was_live i l));
      free_below = (s.live_below index live, s.free_below);
      arena = omega (arith, s.arena);
      ram = omega (arith, s.ram);
      counted = released-counted;
      budget = omega (
        arith,
        nonzero-update ctx.l1 index 0 l1_entry_count lt,
        flag_pos (ctx.l1 index) live,
        s.budget,
      );
    }

    -- The table held no page, so none is lost.
    pub released-pte_load : (w : ℕ) → pte_load (released ctx index) w ≡ pte_load ctx w
    unfolding pte_load
    released-pte_load w =
        let i = w / l2_entry_count in
        elim (eq_cases i index) [
          | inl a ↦
              let own : ctx.l1 i ≡ t = ap ctx.l1 a in
              let row = row_zero (w % l2_entry_count) (omega arith) in ground (arith, row)
          | inr a ↦ elim (eq_cases (ctx.l1 i) 0) [
            | inl z ↦ ground arith
            | inr z ↦
                let ne : ctx.l1 i ≢ t = λ e. a (s.live_once i index z e) in
                ground (arith, others (ctx.l1 i) ne (w % l2_entry_count))
          ]
        ]
