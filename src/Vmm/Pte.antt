-- ===== src/Vmm/Pte.antt =====
-- Page table entries of core/common/vmm.c: what `pte_load` reads, and the fields of `make_pte`.
use voland.Base.{ℕ, ◌+◌, ◌*◌, ◌/◌, ◌%◌, ◌<◌, ◌≡◌, ◌≢◌, arith}
use voland.Base.{◌==◌, if◌then◌else◌, nonzero, inl, inr, eq_cases, ap}
use voland.Vmm.{Context, page_size, l2_entry_count, pte_load, pte_store, make_pte}
use voland.Vmm.Inv.{RamPlaced, mapped_in}
use voland.Vmm.Map.{set_perms}

module _ (ctx : Context) (v : ℕ) where
  pub pte_load-absent : ctx.l1 (v / l2_entry_count) ≡ 0 → pte_load ctx v ≡ 0
  unfolding pte_load
  pte_load-absent e = ground arith

  pub pte_load-present :
      ctx.l1 (v / l2_entry_count) ≢ 0
      → pte_load ctx v ≡ ctx.tables (ctx.l1 (v / l2_entry_count)) (v % l2_entry_count)
  unfolding pte_load
  pte_load-present ne = ground arith

  -- A nonzero entry stands in a table.
  pub pte_load-ne : pte_load ctx v ≢ 0 → ctx.l1 (v / l2_entry_count) ≢ 0
  pte_load-ne h e = h (pte_load-absent e)

pub mapped_in-absent : (ctx : Context) (i : ℕ) → ctx.l1 i ≡ 0 → mapped_in ctx i ≡ 0
mapped_in-absent ctx i e = ground arith

pub mapped_in-present :
    (ctx : Context) (i : ℕ)
    → ctx.l1 i ≢ 0
    → mapped_in ctx i ≡ nonzero (ctx.tables (ctx.l1 i)) l2_entry_count
mapped_in-present ctx i ne = ground arith

-- The entry of a page of guest RAM holds its address and its permissions, and is not 0.
pub make_pte_fields :
    (ctx : Context) (pa perms : ℕ)
    → RamPlaced ctx
    → pa % page_size ≡ 0
    → pa < ctx.guest_ram_size
    → (make_pte ctx pa perms / page_size * page_size ≡ ctx.guest_ram_base + pa)
      × (make_pte ctx pa perms % 8 ≡ perms % 8)
      × (make_pte ctx pa perms ≢ 0)
unfolding make_pte
make_pte_fields ctx pa perms r aligned lt = (omega arith, omega arith, omega arith)

pub set_perms_fields :
    (pte perms : ℕ)
    → (set_perms pte perms / page_size * page_size ≡ pte / page_size * page_size)
      × (set_perms pte perms % 8 ≡ perms % 8)
unfolding set_perms
set_perms_fields pte perms = (omega arith, omega arith)

-- A store to a page of a live table, where no two slots share a table, is read back at that page
-- and nowhere else.
pub pte_load-pte_store :
    (ctx : Context) (v pte w : ℕ)
    → ctx.l1 (v / l2_entry_count) ≢ 0
    → ((i j : ℕ) → ctx.l1 i ≢ 0 → ctx.l1 i ≡ ctx.l1 j → i ≡ j)
    → pte_load (pte_store ctx v pte) w ≡ (if w == v then pte else pte_load ctx w)
unfolding pte_load pte_store
pte_load-pte_store ctx v pte w live once =
    elim (eq_cases (w / l2_entry_count) (v / l2_entry_count)) [
      | inl same ↦
          let row : ctx.l1 (w / l2_entry_count) ≡ ctx.l1 (v / l2_entry_count) = ap ctx.l1 same in
          ground arith
      | inr other ↦
          let apart : ctx.l1 (w / l2_entry_count) ≢ 0
              → ctx.l1 (w / l2_entry_count) ≢ ctx.l1 (v / l2_entry_count) =
            λ ne e. other (once (w / l2_entry_count) (v / l2_entry_count) ne e) in
          ground arith
    ]
