-- ===== src/Hle/SvcMemory/Alias.antt =====
-- core/hle/kernel/svc_memory.c: hle_svc_map_memory and hle_svc_unmap_memory, which lend a part of
-- the heap to the stack region and take it back.
use voland.Base.{ℕ, ◌+◌, ◌-◌, ◌%◌, Bool, false, not, ◌&&◌, ◌||◌, update}
use voland.Base.{
  Option, none, some, List, [], ◌∷◌, ◌++◌, ltb, leb, ◌==◌, if◌then◌else◌, ◌>>=◌, length, get_or,
  set, take,
}
use voland.Result.{Res, ok, err}
use voland.Layout.{MemoryLayout}
use voland.AddressSpace.{address_region_contains}
use voland.Process.{Process, MemoryBorrow, max_heap_borrows}
use voland.Vmm.{Context, perm_none, perm_r, perm_rw, is_page_aligned}
use voland.Vmm.Map.{vmm_map, vmm_unmap, vmm_reprotect}
use voland.Vmm.Access.{vmm_guest_to_host}
use voland.Vmm.Query.{RegionInfo, vmm_query}
use voland.Hle.{
  HleContext, answer, result_success, result_out_of_memory, result_invalid_size,
  result_invalid_memory_state, result_invalid_memory_range,
}
use voland.Hle.SvcMemory.{asserted, guest_pa_of, vmm_run_covers}
pub mod Lend
pub mod Lending
pub mod RoundTrip

-- `process->heap_borrows` is set.
abbrev pub with_borrows : HleContext → List MemoryBorrow → HleContext
with_borrows context borrows = record context {
  process = record context.process { heap_borrows = borrows };
}

-- What follows `vmm_map` of the alias: the rollback of the source, or the record of the borrow.
abbrev pub alias_mapped : HleContext → ℕ → ℕ → ℕ → Res (Unit {0}) × Context → Option HleContext
alias_mapped context dst src size (err code, vmm) =
    asserted (vmm_reprotect vmm src size perm_rw) >>= λ undone.
    some (answer (record context { vmm = undone }) result_out_of_memory)
alias_mapped context dst src size (ok done, vmm) = some (
    answer
      (with_borrows (record context { vmm = vmm })
        (context.process.heap_borrows
          ++ (record { dst_base = dst; src_base = src; size = size } ∷ [])))
      result_success)

-- The source is hidden, and its pages mapped at `dst`.
unfoldable pub map_alias : HleContext → ℕ → ℕ → ℕ → ℕ → Option HleContext
map_alias context dst src size guest_pa =
    asserted (vmm_reprotect context.vmm src size perm_none) >>= λ hidden.
    vmm_map hidden dst guest_pa size perm_rw >>= alias_mapped context dst src size

-- What follows `vmm_guest_to_host` of the source.
abbrev pub lend : MemoryLayout → HleContext → ℕ → ℕ → ℕ → Res ℕ × Context → Option HleContext
lend layout context dst src size (err code, vmm) =
    some (answer (record context { vmm = vmm }) result_invalid_memory_state)
lend layout context dst src size (ok host, vmm) =
    map_alias (record context { vmm = vmm }) dst src size (guest_pa_of layout host)

-- The query of the destination: unmapped, and so for the whole range.
abbrev pub is_vacant : Res RegionInfo → ℕ → ℕ → Bool
is_vacant (err code) dst size = false
is_vacant (ok info) dst size = not info.is_mapped && vmm_run_covers info dst size

-- `hle_svc_map_memory`
unfoldable pub hle_svc_map_memory : MemoryLayout → HleContext → Option HleContext
hle_svc_map_memory layout context =
    let dst = context.x 0 in
    let src = context.x 1 in
    let size = context.x 2 in
    if size == 0
      || not (is_page_aligned size)
      || not (is_page_aligned dst)
      || not (is_page_aligned src)
    then some (answer context result_invalid_size)
    else if not (address_region_contains context.process.address_space.stack dst size)
        || not (address_region_contains context.process.address_space.heap src size)
    then some (answer context result_invalid_memory_range)
    else if leb max_heap_borrows (length context.process.heap_borrows)
    then some (answer context result_out_of_memory)
    else if not (is_vacant (vmm_query context.vmm dst) dst size)
    then some (answer context result_invalid_memory_state)
    else lend layout context dst src size (vmm_guest_to_host context.vmm src size perm_r)

abbrev pub is_borrow : ℕ → ℕ → ℕ → MemoryBorrow → Bool
is_borrow dst src size b = b.dst_base == dst && b.src_base == src && b.size == size

-- The search loop of `hle_svc_unmap_memory`, from index `i` on.
unfoldable pub borrow_index : ℕ → ℕ → ℕ → List MemoryBorrow → ℕ → Option ℕ
borrow_index dst src size [] i = none
borrow_index dst src size (b ∷ bs) i =
    if is_borrow dst src size b then some i else borrow_index dst src size bs (i + 1)

abbrev pub no_borrow : MemoryBorrow
no_borrow = record { dst_base = 0; src_base = 0; size = 0 }

-- `heap_borrows[index] = heap_borrows[--heap_borrow_count]`
unfoldable pub remove_borrow : List MemoryBorrow → ℕ → List MemoryBorrow
remove_borrow borrows i =
    let last = length borrows - 1 in take last (set borrows i (get_or borrows last no_borrow))

-- `hle_svc_unmap_memory`, with the borrow found at `i`.
unfoldable pub return_borrow : HleContext → ℕ → ℕ → ℕ → ℕ → Option HleContext
return_borrow context dst src size i = asserted (vmm_unmap context.vmm dst size) >>= λ unmapped.
    asserted (vmm_reprotect unmapped src size perm_rw) >>= λ vmm. some (
      answer
        (with_borrows (record context { vmm = vmm }) (remove_borrow context.process.heap_borrows i))
        result_success)

-- `hle_svc_unmap_memory`
unfoldable pub hle_svc_unmap_memory : HleContext → Option HleContext
hle_svc_unmap_memory context =
    let dst = context.x 0 in
    let src = context.x 1 in
    let size = context.x 2 in
    elim (borrow_index dst src size context.process.heap_borrows 0) [
      | none ↦ some (answer context result_invalid_memory_state)
      | some i ↦ return_borrow context dst src size i
    ]
