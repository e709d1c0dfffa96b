-- ===== src/Vmm/Tests.antt =====
-- Runs of core/common/vmm.c at concrete contexts: a fresh one, and one with two pages mapped.
use voland.Base.{ℕ, ◌+◌, ◌≤◌, ◌<◌, ◌≡◌, refl, arith, false}
use voland.Base.{Option, none, some, List, [], ◌∷◌, inl, inr, eq_cases}
use voland.Arena.{align_up, arena_allocate}
use voland.Layout.{MemoryLayout, guest_ram_size}
use voland.Result.{Res, ok}
use voland.Vmm.{
  Context, perm_r, perm_w, perm_rw, perm_rx, pte_load, pte_store, make_pte, vmm_create,
  l2_table_acquire, carve_table, is_valid_page_range, is_valid_byte_range, count_absent,
  count_absent_l2_slots,
}
use voland.Vmm.Map.{
  vmm_map, vmm_unmap, vmm_reprotect, any_mapped, map_pages, ensure_table, enter_page,
}
use voland.Vmm.Access.{
  done, vmm_translate_inline, validate_byte_range, validate_from, vmm_read, vmm_write,
  vmm_read_block, vmm_write_block, copy_host_to_guest, write_bytes, chunk_of,
}
use voland.Vmm.Query.{vmm_query}
use voland.Vmm.Create.{created_context, Fresh, vmm_create_lem}
use voland.Vmm.Mapping.{Mapped, vmm_map_lem}
use voland.Vmm.Unmapping.{
  IsBacked, Unmapped, Reprotected, vmm_unmap_lem, vmm_reprotect_lem, mapping_calls-IsBacked,
}
use voland.Vmm.Translate.{AllAccessible, host_of, validate_byte_range_lem}
use voland.Vmm.Transfers.{
  BlockRead, BlockWritten, vmm_read_block_lem, vmm_write_block_lem, vmm_read_block-vmm_write_block,
}
use voland.Vmm.Values.{vmm_read-vmm_read_block, vmm_write-vmm_write_block}
use voland.Vmm.Confined.{IsRamAddress, vmm_write_block-confined}
use voland.Vmm.Access.{vmm_guest_to_host}
use voland.Vmm.Pointers.{HostPointer, vmm_guest_to_host_lem}
use voland.Vmm.Runs.{Queried, vmm_query_lem}

abbrev layout : MemoryLayout
layout = record {
  guest_ram_base = 0x100000;
  ram_size = guest_ram_size;
  page_table_l1_base = 0;
  framebuffer_slot_base = 0;
  audio_ring_base = 0;
  gpu_ring_base = 0;
  gpu_completion_ring_base = 0;
  input_region_base = 0;
  trace_buffer_base = 0;
  breakpoint_region_base = 0;
}

abbrev zeros : ℕ → ℕ
zeros _ = 0

abbrev start : Context
start = created_context layout 64 zeros

vmm_create_lem_example :
    (vmm_create (some layout) false (some 64) zeros ≡ some start) × Fresh layout zeros start
vmm_create_lem_example =
    vmm_create_lem layout 64 zeros (omega arith) (omega arith) (omega arith) (omega arith)
      (omega arith)

start-IsBacked : IsBacked start
start-IsBacked = vmm_create_lem_example.1.backed

vmm_map_lem_example :
    Mapped start 0x10000 0x3000 8192 perm_rw (vmm_map start 0x10000 0x3000 8192 perm_rw)
vmm_map_lem_example = vmm_map_lem start 0x10000 0x3000 8192 perm_rw start-IsBacked.valid

abbrev context_of {ℓ} : {A : Type ℓ} → Option (A × Context) → Context
context_of none = start
context_of (some (r, c)) = c

-- Two pages, from 0x10000 on.
abbrev mapped : Context
mapped = context_of (vmm_map start 0x10000 0x3000 8192 perm_rw)

mapped_is : vmm_map start 0x10000 0x3000 8192 perm_rw ≡ some (ok tt, mapped)
unfolding vmm_map is_valid_page_range any_mapped pte_load count_absent_l2_slots count_absent
    map_pages ensure_table l2_table_acquire carve_table arena_allocate align_up enter_page pte_store
    make_pte
mapped_is = refl

mapped-IsBacked : IsBacked mapped
mapped-IsBacked =
    (mapping_calls-IsBacked start 0x10000 0x3000 8192 perm_rw start-IsBacked).0 (ok tt) mapped
      mapped_is

vmm_unmap_lem_example : Unmapped mapped 0x10000 4096 (vmm_unmap mapped 0x10000 4096)
vmm_unmap_lem_example = vmm_unmap_lem mapped 0x10000 4096 mapped-IsBacked.valid

vmm_reprotect_lem_example :
    Reprotected mapped 0x10000 8192 perm_rx (vmm_reprotect mapped 0x10000 8192 perm_rx)
vmm_reprotect_lem_example = vmm_reprotect_lem mapped 0x10000 8192 perm_rx mapped-IsBacked

mapping_calls-IsBacked_example :
    ((r : Res (Unit {0})) (c : Context)
      → vmm_map mapped 0x10000 0x5000 4096 perm_rx ≡ some (r, c)
      → IsBacked c)
    × IsBacked (vmm_unmap mapped 0x10000 4096).1
    × IsBacked (vmm_reprotect mapped 0x10000 4096 perm_rx).1
mapping_calls-IsBacked_example =
    mapping_calls-IsBacked mapped 0x10000 0x5000 4096 perm_rx mapped-IsBacked

translated : vmm_translate_inline mapped 0x10fff perm_w ≡ done 0x103fff
unfolding vmm_translate_inline vmm_map is_valid_page_range any_mapped pte_load count_absent_l2_slots
    count_absent map_pages ensure_table l2_table_acquire carve_table arena_allocate align_up
    enter_page pte_store make_pte
translated = refl

-- Two bytes on either side of a page boundary.
abbrev bytes : List ℕ
bytes = 7 ∷ 9 ∷ []

vmm_read_block_lem_example : BlockRead mapped 0x10fff 2 (vmm_read_block mapped 0x10fff 2)
vmm_read_block_lem_example = vmm_read_block_lem mapped 0x10fff 2

vmm_write_block_lem_example :
    BlockWritten mapped 0x10fff bytes (vmm_write_block mapped 0x10fff bytes)
vmm_write_block_lem_example = vmm_write_block_lem mapped 0x10fff bytes

vmm_read-vmm_read_block_example : vmm_read mapped 0x10fff 2 ≡ vmm_read_block mapped 0x10fff 2
vmm_read-vmm_read_block_example = vmm_read-vmm_read_block mapped 0x10fff 2 (omega arith)

vmm_write-vmm_write_block_example :
    vmm_write mapped 0x10fff bytes ≡ vmm_write_block mapped 0x10fff bytes
vmm_write-vmm_write_block_example = vmm_write-vmm_write_block mapped 0x10fff bytes (omega arith)

vmm_query_lem_example : Queried mapped 0x10fff (vmm_query mapped 0x10fff)
vmm_query_lem_example = vmm_query_lem mapped 0x10fff

abbrev written : Context
written = context_of (vmm_write_block mapped 0x10fff bytes)

written_is : vmm_write_block mapped 0x10fff bytes ≡ some (ok tt, written)
unfolding vmm_write_block validate_byte_range validate_from is_valid_byte_range copy_host_to_guest
    write_bytes chunk_of vmm_translate_inline vmm_map is_valid_page_range any_mapped pte_load
    count_absent_l2_slots count_absent map_pages ensure_table l2_table_acquire carve_table
    arena_allocate align_up enter_page pte_store make_pte
written_is = refl

vmm_write_block-confined_example :
    ((h : ℕ) → ¬ IsRamAddress mapped h → written.memory h ≡ mapped.memory h)
    × (written ≡ record mapped { memory = written.memory })
vmm_write_block-confined_example =
    vmm_write_block-confined mapped 0x10fff bytes mapped-IsBacked written_is

readable_is : validate_byte_range mapped 0x10fff 2 perm_r ≡ done tt
unfolding validate_byte_range validate_from is_valid_byte_range vmm_translate_inline vmm_map
    is_valid_page_range any_mapped pte_load count_absent_l2_slots count_absent map_pages
    ensure_table l2_table_acquire carve_table arena_allocate align_up enter_page pte_store make_pte
readable_is = refl

readable : AllAccessible mapped perm_r 0x10fff 0x11001
readable = rw readable_is at (validate_byte_range_lem mapped perm_r 0x10fff 2 (omega arith))

first_host : host_of mapped 0x10fff ≡ 0x103fff
unfolding host_of vmm_map is_valid_page_range any_mapped pte_load count_absent_l2_slots count_absent
    map_pages ensure_table l2_table_acquire carve_table arena_allocate align_up enter_page pte_store
    make_pte
first_host = refl

second_host : host_of mapped 0x11000 ≡ 0x104000
unfolding host_of vmm_map is_valid_page_range any_mapped pte_load count_absent_l2_slots count_absent
    map_pages ensure_table l2_table_acquire carve_table arena_allocate align_up enter_page pte_store
    make_pte
second_host = refl

host_at : (x : ℕ) → 0x10fff ≤ x → x < 0x11001 → host_of mapped x ≡ 0xf3000 + x
host_at x low high = elim (eq_cases x 0x10fff) [
  | inl a ↦ rw a first_host
  | inr a ↦ let b : x ≡ 0x11000 = omega arith in rw b second_host
]

vmm_read_block-vmm_write_block_example : vmm_read_block written 0x10fff 2 ≡ some (ok bytes, written)
vmm_read_block-vmm_write_block_example =
    vmm_read_block-vmm_write_block mapped 0x10fff bytes written_is readable
      (λ x y a b c d e. omega (arith, host_at x a b, host_at y c d, e))

vmm_guest_to_host_lem_example :
    HostPointer mapped perm_rw 0x10800 4096 (vmm_guest_to_host mapped 0x10800 4096 perm_rw)
vmm_guest_to_host_lem_example = vmm_guest_to_host_lem mapped 0x10800 4096 perm_rw
