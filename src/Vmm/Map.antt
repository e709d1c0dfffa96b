-- ===== src/Vmm/Map.antt =====
-- core/common/vmm.c: vmm_map, vmm_unmap and vmm_reprotect. Each checks its whole range, then commits
-- page by page; the loops run over the pages that are left.
use voland.Base.{ℕ, zero, suc, ◌+◌, ◌-◌, ◌*◌, ◌/◌, ◌%◌, Bool, false, ◌||◌, not}
use voland.Base.{Option, none, some, ltb, leb, ◌==◌, if◌then◌else◌, update, ◌>>=◌}
use voland.Result.{Res, ok, err, invalid_argument, out_of_memory}
use voland.Vmm.{
  Context, page_size, l2_entry_count, perm_all, is_page_aligned, is_valid_page_range, pte_load,
  pte_store, make_pte, l2_tables_available, l2_table_acquire, l2_table_release,
  count_absent_l2_slots, l2_table_for_vpn,
}

-- Whether some page of the range is mapped, or unmapped: the two validation loops.
unfoldable pub any_mapped : Context → ℕ → ℕ → Bool
any_mapped ctx vpn zero = false
any_mapped ctx vpn (suc n) = not (pte_load ctx vpn == 0) || any_mapped ctx (vpn + 1) n

unfoldable pub any_unmapped : Context → ℕ → ℕ → Bool
any_unmapped ctx vpn zero = false
any_unmapped ctx vpn (suc n) = pte_load ctx vpn == 0 || any_unmapped ctx (vpn + 1) n

-- The head of the commit loop: the slot of `vpn` gets a table if it has none.
unfoldable pub ensure_table : Context → ℕ → Option Context
ensure_table ctx vpn =
    let index = vpn / l2_entry_count in
    if ctx.l1 index == 0
    then elim (l2_table_acquire ctx) [
      | none ↦ none
      | some (table, c) ↦ some (record c { l1 = update c.l1 index table })
    ]
    else some ctx

-- The rest of the body: the entry is written and counted.
unfoldable pub enter_page : Context → ℕ → ℕ → ℕ → Context
enter_page ctx vpn guest_pa perms =
    let index = vpn / l2_entry_count in
    let c = pte_store ctx vpn (make_pte ctx guest_pa perms) in
    record c { l2_mapped_count = update c.l2_mapped_count index (c.l2_mapped_count index + 1) }

-- The commit loop of `vmm_map` over `n` pages.
unfoldable pub map_pages : Context → ℕ → ℕ → ℕ → ℕ → Option Context
map_pages ctx vpn guest_pa perms zero = some ctx
map_pages ctx vpn guest_pa perms (suc n) = ensure_table ctx vpn >>= λ c.
    map_pages (enter_page c vpn guest_pa perms) (vpn + 1) (guest_pa + page_size) perms n

-- `vmm_map`
unfoldable pub vmm_map : Context → ℕ → ℕ → ℕ → ℕ → Option (Res (Unit {0}) × Context)
vmm_map ctx gva guest_pa size perms =
    if not (is_valid_page_range gva size)
    then some (err invalid_argument, ctx)
    else if not (is_page_aligned guest_pa)
        || leb ctx.guest_ram_size guest_pa
        || ltb (ctx.guest_ram_size - guest_pa) size
    then some (err invalid_argument, ctx)
    else if ltb perm_all perms
    then some (err invalid_argument, ctx)
    else if any_mapped ctx (gva / page_size) (size / page_size)
    then some (err invalid_argument, ctx)
    else if ltb (l2_tables_available ctx) (count_absent_l2_slots ctx gva size)
    then some (err out_of_memory, ctx)
    else map_pages ctx (gva / page_size) guest_pa perms (size / page_size) >>= λ c. some (ok tt, c)

-- `require_range_mapped`
unfoldable pub require_range_mapped : Context → ℕ → ℕ → Res (Unit {0})
require_range_mapped ctx gva size =
    if not (is_valid_page_range gva size)
    then err invalid_argument
    else if any_unmapped ctx (gva / page_size) (size / page_size)
    then err invalid_argument
    else ok tt

-- The body of the loop of `vmm_unmap`: the entry is cleared and its table's count drops; a table
-- whose count reaches zero leaves its slot for the freelist.
unfoldable pub clear_page : Context → ℕ → Context
clear_page ctx vpn =
    let index = vpn / l2_entry_count in
    let c = pte_store ctx vpn 0 in
    let left = c.l2_mapped_count index - 1 in
    let d = record c { l2_mapped_count = update c.l2_mapped_count index left } in
    if left == 0
    then l2_table_release (record d { l1 = update d.l1 index 0 }) (l2_table_for_vpn d vpn)
    else d

unfoldable pub unmap_pages : Context → ℕ → ℕ → Context
unmap_pages ctx vpn zero = ctx
unmap_pages ctx vpn (suc n) = unmap_pages (clear_page ctx vpn) (vpn + 1) n

-- `vmm_unmap`
unfoldable pub vmm_unmap : Context → ℕ → ℕ → Res (Unit {0}) × Context
vmm_unmap ctx gva size = elim (require_range_mapped ctx gva size) [
  | err code ↦ (err code, ctx)
  | ok done ↦ (ok tt, unmap_pages ctx (gva / page_size) (size / page_size))
]

-- `(pte & VMM_PTE_HOST_MASK) | (perms & VMM_PTE_PERM_MASK)`: the parts share no bit.
unfoldable pub set_perms : ℕ → ℕ → ℕ
set_perms pte perms = pte / page_size * page_size + perms % 8

unfoldable pub reprotect_pages : Context → ℕ → ℕ → ℕ → Context
reprotect_pages ctx vpn perms zero = ctx
reprotect_pages ctx vpn perms (suc n) =
    reprotect_pages (pte_store ctx vpn (set_perms (pte_load ctx vpn) perms)) (vpn + 1) perms n

-- `vmm_reprotect`
unfoldable pub vmm_reprotect : Context → ℕ → ℕ → ℕ → Res (Unit {0}) × Context
vmm_reprotect ctx gva size perms =
    if ltb perm_all perms
    then (err invalid_argument, ctx)
    else elim (require_range_mapped ctx gva size) [
      | err code ↦ (err code, ctx)
      | ok done ↦ (ok tt, reprotect_pages ctx (gva / page_size) perms (size / page_size))
    ]
