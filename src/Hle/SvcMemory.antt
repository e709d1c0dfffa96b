-- ===== src/Hle/SvcMemory.antt =====
-- core/hle/kernel/svc_memory.c: the four memory handlers. The layout of `layout_get` and the OS's
-- answer to a commit (`granted`) are parameters. A failed SWITCH_ASSERT_ALWAYS is `none`.
use voland.Base.{ℕ, zero, suc, ◌+◌, ◌-◌, ◌*◌, ◌/◌, ◌%◌, ◌^◌, Bool, true, false, not, ◌&&◌, ◌||◌}
use voland.Base.{Option, none, some, List, [], ◌∷◌, ◌++◌, ltb, leb, ◌==◌, if◌then◌else◌, ◌>>=◌}
use voland.Base.{update, length, get_or, set, take, replicate}
use voland.Result.{Res, ok, err}
use voland.Layout.{MemoryLayout}
use voland.AddressSpace.{AddressRegion, address_region_contains}
use voland.PageAllocator.{PageAllocator, page_allocator_allocate, page_allocator_free}
use voland.Process.{Process, MemoryBorrow, heap_size_granule, max_heap_borrows}
use voland.Vmm.{Context, page_size, perm_none, perm_r, perm_rw, is_page_aligned}
use voland.Vmm.Map.{vmm_map, vmm_unmap, vmm_reprotect}
use voland.Vmm.Access.{vmm_guest_to_host, vmm_write_block, write_bytes}
use voland.Vmm.Query.{RegionInfo, vmm_query}
use voland.Hle.{
  HleContext, answer, result_success, result_invalid_pointer, result_out_of_memory,
  result_invalid_size, result_invalid_memory_state, result_invalid_memory_range,
}
pub mod Alias
pub mod Query
pub mod Heap
pub mod Growing
pub mod SetHeapSize
pub mod MemoryType
pub mod MemoryInfo
pub mod Querying
mod Tests

-- `ranges_overlap`
unfoldable pub ranges_overlap : ℕ → ℕ → ℕ → ℕ → Bool
ranges_overlap a_base a_size b_base b_size =
    ltb a_base ((b_base + b_size) % 2 ^ 64) && ltb b_base ((a_base + a_size) % 2 ^ 64)

-- `find_borrow_by_dst`
unfoldable pub find_borrow_by_dst : List MemoryBorrow → ℕ → Option MemoryBorrow
find_borrow_by_dst [] gva = none
find_borrow_by_dst (b ∷ bs) gva =
    if address_region_contains (record { base = b.dst_base; size = b.size }) gva 1
    then some b
    else find_borrow_by_dst bs gva

-- `borrow_overlaps_src`
unfoldable pub borrow_overlaps_src : List MemoryBorrow → ℕ → ℕ → Bool
borrow_overlaps_src [] base size = false
borrow_overlaps_src (b ∷ bs) base size =
    ranges_overlap base size b.src_base b.size || borrow_overlaps_src bs base size

-- `HLE_Memory_Type`
abbrev pub memtype_unmapped : ℕ
memtype_unmapped = 0x00

abbrev pub memtype_code_static : ℕ
memtype_code_static = 0x03

abbrev pub memtype_heap : ℕ
memtype_heap = 0x05

abbrev pub memtype_weird_mapped_mem : ℕ
memtype_weird_mapped_mem = 0x07

abbrev pub memtype_mapped_memory : ℕ
memtype_mapped_memory = 0x0B

abbrev pub memtype_thread_local : ℕ
memtype_thread_local = 0x0C

abbrev pub memtype_normal : ℕ
memtype_normal = 0x02

abbrev pub is_some : Option MemoryBorrow → Bool
is_some none = false
is_some (some b) = true

-- `classify_type`
unfoldable pub classify_type : Process → ℕ → Bool → ℕ
classify_type process gva false = memtype_unmapped
classify_type process gva true =
    let as_ = process.address_space in
    if address_region_contains as_.code gva 1
    then memtype_code_static
    else if address_region_contains as_.heap gva 1
    then (if borrow_overlaps_src process.heap_borrows gva 1
        then memtype_weird_mapped_mem
        else memtype_heap)
    else if address_region_contains as_.stack gva 1
    then (if is_some (find_borrow_by_dst process.heap_borrows gva)
        then memtype_mapped_memory
        else memtype_normal)
    else if address_region_contains as_.tls_io gva 1
    then memtype_thread_local
    else memtype_unmapped

-- `vmm_run_covers`
abbrev pub vmm_run_covers : RegionInfo → ℕ → ℕ → Bool
vmm_run_covers info gva size =
    address_region_contains (record { base = info.base_gva; size = info.size }) gva size

-- SWITCH_ASSERT_ALWAYS on the success of a call that changes its object.
abbrev pub asserted {ℓ κ} : {A : Type ℓ} {S : Type κ} → Res A × S → Option S
asserted (ok a, s) = some s
asserted (err code, s) = none

-- `(uint64_t)(uintptr_t)host_ptr - layout_get()->guest_ram_base`
abbrev pub guest_pa_of : MemoryLayout → ℕ → ℕ
guest_pa_of layout host = (host + 2 ^ 64 - layout.guest_ram_base) % 2 ^ 64

-- `free_one_page`: what follows the borrow.
abbrev pub free_at_pointer :
    MemoryLayout → PageAllocator → ℕ → Res ℕ × Context → Option (Context × PageAllocator)
free_at_pointer layout pages count (err code, vmm) = none
free_at_pointer layout pages count (ok host, vmm) =
    asserted (page_allocator_free pages (guest_pa_of layout host) count) >>= λ p. some (vmm, p)

unfoldable pub free_one_page :
    MemoryLayout → Context → PageAllocator → ℕ → Option (Context × PageAllocator)
free_one_page layout vmm pages gva =
    free_at_pointer layout pages 1 (vmm_guest_to_host vmm gva page_size perm_r)

-- The loop of `free_and_unmap_heap_range`, over `n` pages.
unfoldable pub free_pages :
    MemoryLayout → Context → PageAllocator → ℕ → ℕ → Option (Context × PageAllocator)
free_pages layout vmm pages gva zero = some (vmm, pages)
free_pages layout vmm pages gva (suc n) = free_one_page layout vmm pages gva >>= λ r.
    let (v, p) = r in free_pages layout v p (gva + page_size) n

-- The two ways to release the backing: as one run, or page by page.
abbrev pub free_backing :
    MemoryLayout → PageAllocator → ℕ → ℕ → Res ℕ × Context → Option (Context × PageAllocator)
free_backing layout pages gva size (ok host, vmm) =
    free_at_pointer layout pages (size / page_size) (ok host, vmm)
free_backing layout pages gva size (err code, vmm) =
    free_pages layout vmm pages gva ((size + 4095) / page_size)

-- `free_and_unmap_heap_range`
unfoldable pub free_and_unmap_heap_range :
    MemoryLayout → Context → PageAllocator → ℕ → ℕ → Option (Context × PageAllocator)
free_and_unmap_heap_range layout vmm pages gva size =
    free_backing layout pages gva size (vmm_guest_to_host vmm gva size perm_r) >>= λ r.
    let (v, p) = r in asserted (vmm_unmap v gva size) >>= λ u. some (u, p)

-- The end of `hle_svc_set_heap_size`: X0 and X1 are set.
abbrev pub heap_answer : HleContext → HleContext
heap_answer context = record context {
  x = update (update context.x 0 result_success) 1 context.process.address_space.heap.base;
}

-- `process->heap_size = requested`, and the end of the handler.
abbrev pub resized : HleContext → ℕ → HleContext
resized context requested =
    heap_answer (record context { process = record context.process { heap_size = requested } })

-- The zeroing of the fresh range, with the pointer that `vmm_guest_to_host` gives.
abbrev pub clear_fresh : HleContext → ℕ → ℕ → Res ℕ × Context → Option HleContext
clear_fresh context requested grow_bytes (err code, vmm) = none
clear_fresh context requested grow_bytes (ok host, vmm) = some (
    resized
      (record context {
        vmm = record vmm { memory = write_bytes vmm.memory host (replicate grow_bytes 0) };
      })
      requested)

-- What follows `vmm_map` of the pages at `pa`: the rollback, or the zeroing.
abbrev pub mapped_fresh : HleContext → ℕ → ℕ → ℕ → ℕ → Res (Unit {0}) × Context → Option HleContext
mapped_fresh context requested gva pa grow_bytes (err code, vmm) =
    asserted (page_allocator_free context.pages pa (grow_bytes / page_size)) >>= λ p.
    some (answer (record context { vmm = vmm; pages = p }) result_out_of_memory)
mapped_fresh context requested gva pa grow_bytes (ok done, vmm) =
    clear_fresh (record context { vmm = vmm }) requested grow_bytes
      (vmm_guest_to_host vmm gva grow_bytes perm_rw)

-- What follows `page_allocator_allocate`.
abbrev pub map_fresh : HleContext → ℕ → Res ℕ × PageAllocator → Option HleContext
map_fresh context requested (err code, p) =
    some (answer (record context { pages = p }) result_out_of_memory)
map_fresh context requested (ok pa, p) =
    let grow_bytes = requested - context.process.heap_size in
    let gva = context.process.address_space.heap.base + context.process.heap_size in
    vmm_map context.vmm gva pa grow_bytes perm_rw
    >>= mapped_fresh (record context { pages = p }) requested gva pa grow_bytes

-- The growing arm of `hle_svc_set_heap_size`.
unfoldable pub grow_heap : (ℕ → ℕ → Bool) → MemoryLayout → HleContext → ℕ → Option HleContext
grow_heap granted layout context requested = map_fresh context requested (
    page_allocator_allocate granted layout context.pages
      ((requested - context.process.heap_size) / page_size))

-- The shrinking arm.
unfoldable pub shrink_heap : MemoryLayout → HleContext → ℕ → Option HleContext
shrink_heap layout context requested =
    let base = context.process.address_space.heap.base + requested in
    let size = context.process.heap_size - requested in
    if borrow_overlaps_src context.process.heap_borrows base size
    then some (answer context result_invalid_memory_state)
    else (free_and_unmap_heap_range layout context.vmm context.pages base size >>= λ r.
        let (v, p) = r in some (resized (record context { vmm = v; pages = p }) requested))

-- `hle_svc_set_heap_size`
unfoldable pub hle_svc_set_heap_size :
    (ℕ → ℕ → Bool) → MemoryLayout → HleContext → Option HleContext
hle_svc_set_heap_size granted layout context =
    let requested = context.x 1 in
    if not (requested % heap_size_granule == 0)
    then some (answer context result_invalid_size)
    else if ltb context.process.address_space.heap.size requested
    then some (answer context result_invalid_memory_range)
    else if ltb context.process.heap_size requested
    then grow_heap granted layout context requested
    else if ltb requested context.process.heap_size
    then shrink_heap layout context requested
    else some (heap_answer context)
