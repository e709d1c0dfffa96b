-- ===== src/Vmm/Mapping.antt =====
-- What `vmm_map` of core/common/vmm.c does, on every branch.
use voland.Base.{ℕ, zero, suc, ◌+◌, ◌-◌, ◌*◌, ◌/◌, ◌%◌, ◌≤◌, ◌<◌, ◌≡◌, refl, arith, true, false}
use voland.Base.{ltb, leb, not, ◌||◌, ltb→lt}
use voland.Base.{Option, none, some, ap, inl, inr, Bool-cases}
use voland.Result.{Res, ok, err, out_of_memory}
use voland.Vmm.{
  Context, page_size, l2_entry_count, address_space_size, l2_tables_available, count_absent,
  count_absent_l2_slots, is_valid_page_range, is_page_aligned, perm_all,
}
use voland.Vmm.Inv.{IsValid}
use voland.Vmm.Map.{vmm_map, any_mapped}
use voland.Vmm.MapLoop.{needed, MappedPages, map_pages_lem}
use voland.Vmm.Ranges.{AllUnmapped, any_mapped-false, any_mapped-true}

-- The preconditions that vmm.h documents for `vmm_map`.
pub record MapArguments (ctx : Context) (gva pa size perms : ℕ) : Type 0 where
  pub gva_aligned : gva % page_size ≡ 0
  pub pa_aligned : pa % page_size ≡ 0
  pub size_aligned : size % page_size ≡ 0
  pub nonempty : 0 < size
  pub in_space : gva + size ≤ address_space_size
  pub in_ram : pa + size ≤ ctx.guest_ram_size
  pub perms_known : perms ≤ perm_all
  pub fresh : AllUnmapped ctx (gva / page_size) (size / page_size)

-- What `vmm_map` may give: never an abort; success exactly when the preconditions hold and the L2
-- tables suffice; and an unchanged context on each error.
abbrev pub Mapped : Context → ℕ → ℕ → ℕ → ℕ → Option (Res (Unit {0}) × Context) → Type 0
Mapped ctx gva pa size perms none = ⊥
Mapped ctx gva pa size perms (some (ok done, c)) =
    MapArguments ctx gva pa size perms
    × MappedPages ctx c (gva / page_size) pa perms (size / page_size)
Mapped ctx gva pa size perms (some (err out_of_memory, c)) =
    (c ≡ ctx)
    × MapArguments ctx gva pa size perms
    × (l2_tables_available ctx < count_absent_l2_slots ctx gva size)
Mapped ctx gva pa size perms (some (err code, c)) =
    (c ≡ ctx) × (¬ MapArguments ctx gva pa size perms)

slots-needed :
    (ctx : Context) (gva size n : ℕ)
    → gva % page_size ≡ 0
    → size ≡ suc n * page_size
    → count_absent_l2_slots ctx gva size ≡ needed ctx.l1 (gva / page_size) (suc n)
unfolding count_absent_l2_slots
slots-needed ctx gva size n aligned e =
    let last : (gva + size - 1) / page_size ≡ gva / page_size + n = omega arith in
    ap
      (λ l.
        count_absent ctx.l1 (gva / page_size / l2_entry_count)
          (l / l2_entry_count + 1 - gva / page_size / l2_entry_count))
      last

slots-needed_at :
    (ctx : Context) (gva size n : ℕ)
    → gva % page_size ≡ 0
    → size % page_size ≡ 0
    → 0 < size
    → size / page_size ≡ n
    → count_absent_l2_slots ctx gva size ≡ needed ctx.l1 (gva / page_size) n
slots-needed_at ctx gva size zero a b p e = absurd (omega arith)
slots-needed_at ctx gva size (suc n) a b p e = slots-needed ctx gva size n a (omega arith)

-- `vmm_map` never aborts. It succeeds exactly when the documented preconditions hold and enough L2
-- tables are left, and then maps the pages of the range in order onto guest memory with the given
-- permissions, leaves every other page, every byte of memory and the invariant; a failed call
-- leaves the context as it was, with RESULT_OUT_OF_MEMORY only for a lack of L2 tables.
pub vmm_map_lem :
    (ctx : Context) (gva pa size perms : ℕ)
    → IsValid ctx
    → Mapped ctx gva pa size perms (vmm_map ctx gva pa size perms)
unfolding vmm_map is_valid_page_range
vmm_map_lem ctx gva pa size perms v =
    let range = is_valid_page_range gva size in
    let bad_pa =
      not (is_page_aligned pa) || leb ctx.guest_ram_size pa || ltb (ctx.guest_ram_size - pa) size in
    elim (Bool-cases range) [
      | inr e ↦ rw e (refl, λ m. ground (arith, m))
      | inl e ↦ elim (Bool-cases bad_pa) [
        | inl f ↦ rw (e, f) (refl, λ m. ground (arith, m))
        | inr f ↦ elim (Bool-cases (ltb perm_all perms)) [
          | inl g ↦ rw (e, f, g) (refl, λ m. ground (arith, m))
          | inr g ↦ elim (Bool-cases (any_mapped ctx (gva / page_size) (size / page_size))) [
            | inl h ↦ rw (e, f, g, h) (refl, λ m. any_mapped-true ctx _ _ h m.fresh)
            | inr h ↦
                let m =
                  arguments e f g (any_mapped-false ctx (gva / page_size) (size / page_size) h) in
                let slots =
                  slots-needed_at ctx gva size (size / page_size) m.gva_aligned m.size_aligned
                    m.nonempty refl in
                elim (Bool-cases
                  (ltb (l2_tables_available ctx) (count_absent_l2_slots ctx gva size))) [
                    | inl k ↦ rw (e, f, g, h, k) (refl, m, ltb→lt _ _ k)
                    | inr k ↦
                        let (c, run, got) =
                          map_pages_lem (size / page_size) (gva / page_size) pa perms v
                            (omega (arith, m)) m.fresh m.pa_aligned (omega (arith, m))
                            (ground (arith, slots)) in
                        rw (e, f, g, h, k, run) (m, got)
                  ]
          ]
        ]
      ]
    ]
  where
    arguments :
        is_valid_page_range gva size ≡ true
        → (not (is_page_aligned pa)
            || leb ctx.guest_ram_size pa
            || ltb (ctx.guest_ram_size - pa) size)
          ≡ false
        → ltb perm_all perms ≡ false
        → AllUnmapped ctx (gva / page_size) (size / page_size)
        → MapArguments ctx gva pa size perms
    arguments e f g fresh = record {
      gva_aligned = ground arith;
      pa_aligned = ground arith;
      size_aligned = ground arith;
      nonempty = ground arith;
      in_space = ground arith;
      in_ram = ground arith;
      perms_known = ground arith;
      fresh = fresh;
    }
