-- ===== src/Hle/SvcMemory/Tests.antt =====
-- Runs of core/hle/kernel/svc_memory.c at a process whose heap has two pages.
use voland.Base.{ℕ, ◌+◌, ◌-◌, ◌*◌, ◌≤◌, ◌<◌, ◌≡◌, ◌≢◌, refl, arith, true}
use voland.Base.{sym, ◌∙◌, Option, none, some, [], inl, inr, Bool-cases, ◌==◌, if◌then◌else◌}
use voland.AddressSpace.{AddressSpace, NpdmAddressSpace, address_region_contains}
use voland.Arena.{align_up, arena_allocate}
use voland.Layout.{MemoryLayout, guest_ram_size}
use voland.PageAllocator.{PageAllocator}
use voland.PageAllocator.Inv.{IsValid}
use voland.PageAllocator.Runs.{sum_runs}
use voland.Result.{Res, ok}
use voland.Ipc.{null_object, ipc_session_table_init}
use voland.Vmm.{
  Context, perm_rw, pte_load, pte_store, make_pte, l2_table_acquire, carve_table,
  is_valid_page_range, is_valid_byte_range, count_absent, count_absent_l2_slots,
}
use voland.Vmm.Create.{created_context, vmm_create_lem}
use voland.Vmm.Map.{
  vmm_map, vmm_reprotect, any_mapped, any_unmapped, map_pages, ensure_table, enter_page,
  require_range_mapped, reprotect_pages, set_perms,
}
use voland.Vmm.Access.{
  vmm_guest_to_host, vmm_translate_inline, contiguous_from, vmm_write_block, validate_byte_range,
  validate_from, copy_host_to_guest, chunk_of, write_bytes,
}
use voland.Vmm.Query.{vmm_query, page_run_key, back_step, extend_back, forward_step, extend_forward}
use voland.Vmm.MapLoop.{in_range, MappedPages}
use voland.Vmm.Mapping.{vmm_map_lem}
use voland.Vmm.Unmapping.{IsBacked, mapping_calls-IsBacked}
use voland.Hle.{HleContext, result_success}
use voland.Hle.SvcMemory.{hle_svc_set_heap_size, classify_type, borrow_overlaps_src}
use voland.Hle.SvcMemory.Alias.{hle_svc_map_memory, hle_svc_unmap_memory, map_alias}
use voland.Hle.SvcMemory.Alias.Lend.{HeapPages, LendOutcome}
use voland.Hle.SvcMemory.Alias.Lending.{hle_svc_map_memory_lem}
use voland.Hle.SvcMemory.Alias.RoundTrip.{hle_svc_unmap_memory-hle_svc_map_memory}
use voland.Hle.SvcMemory.Query.{hle_svc_query_memory, info_bytes, le_bytes, memory_info}
use voland.Hle.SvcMemory.Growing.{IsConsistent, GrowOutcome}
use voland.Hle.SvcMemory.SetHeapSize.{hle_svc_set_heap_size_lem}

abbrev layout : MemoryLayout
layout = record {
  guest_ram_base = 0x100000;
  ram_size = guest_ram_size;
  page_table_l1_base = 0;
  framebuffer_slot_base = 0;
  audio_ring_base = 0;
  gpu_ring_base = 0;
  gpu_completion_ring_base = 0;
  input_region_base = 0;
  trace_buffer_base = 0;
  breakpoint_region_base = 0;
}

abbrev start : Context
start = created_context layout 64 (λ _. 7)

start-IsBacked : IsBacked start
start-IsBacked =
    (vmm_create_lem layout 64 (λ _. 7) (omega arith) (omega arith) (omega arith) (omega arith)
      (omega arith)).1.backed

abbrev context_of : Option (Res (Unit {0}) × Context) → Context
context_of none = start
context_of (some (r, c)) = c

-- Two heap pages, from 0x10000 on.
abbrev heap_vmm : Context
heap_vmm = context_of (vmm_map start 0x10000 0x3000 8192 perm_rw)

heap_vmm_is : vmm_map start 0x10000 0x3000 8192 perm_rw ≡ some (ok tt, heap_vmm)
unfolding vmm_map is_valid_page_range any_mapped pte_load count_absent_l2_slots count_absent
    map_pages ensure_table l2_table_acquire carve_table arena_allocate align_up enter_page pte_store
    make_pte
heap_vmm_is = refl

heap_vmm-IsBacked : IsBacked heap_vmm
heap_vmm-IsBacked =
    (mapping_calls-IsBacked start 0x10000 0x3000 8192 perm_rw start-IsBacked).0 (ok tt) heap_vmm
      heap_vmm_is

abbrev address_space : AddressSpace
address_space = record {
  type = NpdmAddressSpace.bits_64_39;
  aslr = record { base = 0; size = 0x1000000 };
  code = record { base = 0; size = 0 };
  alias = record { base = 0; size = 0 };
  heap = record { base = 0x10000; size = 0x400000 };
  stack = record { base = 0x500000; size = 0x100000 };
  tls_io = record { base = 0x700000; size = 0x1000 };
}

abbrev pages : PageAllocator
pages = record { base_pa = 0; size_bytes = 0x10000000; used_bytes = 0x5000; free_runs = [] }

abbrev context_with : (ℕ → ℕ) → HleContext
context_with x = record {
  vmm = heap_vmm;
  process = record {
    address_space = address_space;
    main_thread_tls_gva = 0x700000;
    heap_size = 8192;
    heap_borrows = [];
  };
  pages = pages;
  sessions = ipc_session_table_init;
  sm_object = null_object;
  svc_call_count = 0;
  x = x;
}

-- X0, X1 and X2 for a loan of the second heap page to the stack region.
abbrev loan : ℕ → ℕ
loan i = if i == 0 then 0x501000 else if i == 1 then 0x11000 else 0x1000

abbrev context : HleContext
context = context_with loan

heap_run : MappedPages start heap_vmm 16 0x3000 perm_rw 2
heap_run =
    (rw heap_vmm_is at (vmm_map_lem start 0x10000 0x3000 8192 perm_rw start-IsBacked.valid)).1

start_page : (w : ℕ) → pte_load start w ≡ 0
unfolding pte_load
start_page w = refl

-- The two pages are open, and lie at 0x3000 and 0x4000 of guest RAM.
heap_page :
    (w : ℕ)
    → pte_load heap_vmm w ≢ 0
    → (16 ≤ w) × (w < 18) × (pte_load heap_vmm w ≡ 0x103000 + (w - 16) * 4096 + perm_rw)
unfolding make_pte
heap_page w ne = elim (Bool-cases (in_range 16 2 w)) [
  | inl on ↦
      let low : 16 ≤ w = ground arith in
      let high : w < 18 = ground arith in (low, high, rw on at (heap_run.pages w) ∙ omega arith)
  | inr off ↦ absurd (ne (rw off at (heap_run.pages w) ∙ start_page w))
]

heap-HeapPages : HeapPages context
heap-HeapPages w low high ne = inl (omega (arith, heap_page w ne))

same_ram : layout.guest_ram_base ≡ heap_vmm.guest_ram_base
same_ram = sym heap_run.ram_base

hle_svc_map_memory_lem_example :
    LendOutcome context 0x501000 0x11000 0x1000 (hle_svc_map_memory layout context)
hle_svc_map_memory_lem_example =
    hle_svc_map_memory_lem layout context heap_vmm-IsBacked same_ram heap-HeapPages

-- X0 and X2 for a MemoryInfo of the first heap page, to be written to the second.
abbrev querying : HleContext
querying = context_with (λ i. if i == 0 then 0x11000 else 0x10800)

abbrev after : Option HleContext → HleContext
after none = context
after (some d) = d

-- The page is heap memory.
heap_type : (after (hle_svc_query_memory querying)).vmm.memory 0x104010 ≡ 5
unfolding hle_svc_query_memory vmm_query page_run_key back_step extend_back forward_step
    extend_forward info_bytes le_bytes memory_info classify_type borrow_overlaps_src
    address_region_contains vmm_write_block validate_byte_range validate_from is_valid_byte_range
    vmm_translate_inline copy_host_to_guest chunk_of write_bytes vmm_map is_valid_page_range
    any_mapped pte_load count_absent_l2_slots count_absent map_pages ensure_table l2_table_acquire
    carve_table arena_allocate align_up enter_page pte_store make_pte
heap_type = refl

abbrev lent : HleContext
lent = after (hle_svc_map_memory layout context)

lent_is : hle_svc_map_memory layout context ≡ some lent
unfolding hle_svc_map_memory map_alias vmm_map is_valid_page_range any_mapped pte_load
    count_absent_l2_slots count_absent map_pages ensure_table l2_table_acquire carve_table
    arena_allocate align_up enter_page pte_store make_pte address_region_contains vmm_query
    page_run_key back_step extend_back forward_step extend_forward vmm_guest_to_host
    is_valid_byte_range vmm_translate_inline contiguous_from vmm_reprotect require_range_mapped
    any_unmapped reprotect_pages set_perms
lent_is = refl

lent_ok : lent.x 0 ≡ result_success
unfolding hle_svc_map_memory map_alias vmm_map is_valid_page_range any_mapped pte_load
    count_absent_l2_slots count_absent map_pages ensure_table l2_table_acquire carve_table
    arena_allocate align_up enter_page pte_store make_pte address_region_contains vmm_query
    page_run_key back_step extend_back forward_step extend_forward vmm_guest_to_host
    is_valid_byte_range vmm_translate_inline contiguous_from vmm_reprotect require_range_mapped
    any_unmapped reprotect_pages set_perms
lent_ok = refl

hle_svc_unmap_memory-hle_svc_map_memory_example :
    (e : HleContext) × (hle_svc_unmap_memory (record lent { x = loan }) ≡ some e)
    × (e.x 0 ≡ result_success)
    × (e.process ≡ context.process)
    × ((w : ℕ) → pte_load e.vmm w ≡ pte_load context.vmm w)
    × (e.vmm.memory ≡ context.vmm.memory)
    × IsBacked e.vmm
hle_svc_unmap_memory-hle_svc_map_memory_example =
    hle_svc_unmap_memory-hle_svc_map_memory layout context heap_vmm-IsBacked same_ram heap-HeapPages
      lent_is lent_ok

-- Registers for a heap of one granule.
abbrev growth : ℕ → ℕ
growth i = 0x200000

growing : HleContext
growing = context_with growth

pages-IsValid : IsValid pages
unfolding sum_runs
pages-IsValid = record {
  paged = record {
    base = omega arith;
    extent = omega arith;
    cursor = omega arith;
    within = omega arith;
  };
  runs = tt;
  once = λ x. ground arith;
  few = omega arith;
}

growing-IsConsistent : IsConsistent growing
unfolding growing sum_runs
growing-IsConsistent = record {
  backed = heap_vmm-IsBacked;
  valid = pages-IsValid;
  owned = λ w o ne lt. ground (arith, heap_page w ne, heap_run.ram_base);
}

hle_svc_set_heap_size_lem_example :
    GrowOutcome growing 0x200000 (hle_svc_set_heap_size (λ pa n. true) layout growing)
unfolding growing
hle_svc_set_heap_size_lem_example =
    hle_svc_set_heap_size_lem (λ pa n. true) layout growing growing-IsConsistent (omega arith)
