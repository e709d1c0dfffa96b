-- ===== src/Vmm/Query.antt =====
-- core/common/vmm.c: vmm_query. Each loop takes one step of at least a page, so that as many rounds as
-- there are pages on that side are enough.
use voland.Base.{ℕ, zero, suc, ◌+◌, ◌-◌, ◌*◌, ◌/◌, ◌%◌, Bool, not, ◌&&◌}
use voland.Base.{Option, none, some, leb, ◌==◌, if◌then◌else◌}
use voland.Result.{Res, ok, err, invalid_argument}
use voland.Vmm.{
  Context, page_size, address_space_size, l2_entry_count, total_page_count, perm_none, pte_load,
}

-- `VMM_Region_Info`
pub record RegionInfo : Type 0 where
  pub base_gva : ℕ
  pub size : ℕ
  pub perms : ℕ
  pub is_mapped : Bool

-- `page_run_key`: the mapped bit, 8, is not one of the permission bits.
unfoldable pub page_run_key : Context → ℕ → ℕ
page_run_key ctx vpn = let pte = pte_load ctx vpn in if pte == 0 then 0 else pte % 8 + 8

-- `l2_slot_absent`
abbrev pub l2_slot_absent : Context → ℕ → Bool
l2_slot_absent ctx vpn = ctx.l1 (vpn / l2_entry_count) == 0

-- One round of the backward loop: where it goes on, unless it stops.
unfoldable pub back_step : Context → ℕ → ℕ → Option ℕ
back_step ctx key start =
    if start == 0
    then none
    else if key == 0 && start % l2_entry_count == 0 && l2_slot_absent ctx (start - 1)
    then some (start - l2_entry_count)
    else if not (page_run_key ctx (start - 1) == key)
    then none
    else some (start - 1)

unfoldable pub extend_back : Context → ℕ → ℕ → ℕ → ℕ
extend_back ctx key start zero = start
extend_back ctx key start (suc fuel) = elim (back_step ctx key start) [
  | none ↦ start
  | some next ↦ extend_back ctx key next fuel
]

-- One round of the forward loop.
unfoldable pub forward_step : Context → ℕ → ℕ → Option ℕ
forward_step ctx key end =
    if leb total_page_count end
    then none
    else if key == 0 && end % l2_entry_count == 0 && l2_slot_absent ctx end
    then some (end + l2_entry_count)
    else if not (page_run_key ctx end == key)
    then none
    else some (end + 1)

unfoldable pub extend_forward : Context → ℕ → ℕ → ℕ → ℕ
extend_forward ctx key end zero = end
extend_forward ctx key end (suc fuel) = elim (forward_step ctx key end) [
  | none ↦ end
  | some next ↦ extend_forward ctx key next fuel
]

-- `vmm_query`
unfoldable pub vmm_query : Context → ℕ → Res RegionInfo
vmm_query ctx gva =
    if leb address_space_size gva
    then err invalid_argument
    else let vpn = gva / page_size in
      let key = page_run_key ctx vpn in
      let hole = key == 0 in
      let start = extend_back ctx key vpn vpn in
      let end = extend_forward ctx key (vpn + 1) (total_page_count - (vpn + 1)) in
      ok (record {
        base_gva = start * page_size;
        size = (end - start) * page_size;
        perms = if hole then perm_none else key % 8;
        is_mapped = not hole;
      })
