-- ===== src/Layout/Regions.antt =====
-- How core/common/layout.c divides the linear memory.
use voland.Base.{ℕ, ◌+◌, ◌%◌, ◌≤◌, ◌<◌, ◌≡◌, none, some, arith, Bool, true}
use voland.Base.{◌↔◌, List, [], ◌∷◌}
use voland.Result.{Res, ok, err}
use voland.Arena.{align_up, arena_allocate}
use voland.Layout.{
  MemoryLayout, LayoutState, layout_create, layout_guest_ram_commit, guest_ram_size,
  page_table_l1_size, framebuffer_region_size, audio_ring_size, gpu_ring_size,
  gpu_completion_ring_size, input_region_size, trace_buffer_size, breakpoint_region_size,
  small_regions_size,
}

-- Each region (base, size) ends at or before the next one begins, and the last at or before `top`.
abbrev pub InOrder : List (ℕ × ℕ) → ℕ → Type 0
InOrder [] top = Unit
InOrder ((base, size) ∷ []) top = base + size ≤ top
InOrder ((base, size) ∷ (base', size') ∷ rest) top =
    (base + size ≤ base') × InOrder ((base', size') ∷ rest) top

abbrev pub small_regions : MemoryLayout → List (ℕ × ℕ)
small_regions l =
    (l.page_table_l1_base, page_table_l1_size)
    ∷ (l.framebuffer_slot_base, framebuffer_region_size)
    ∷ (l.audio_ring_base, audio_ring_size)
    ∷ (l.gpu_ring_base, gpu_ring_size)
    ∷ (l.gpu_completion_ring_base, gpu_completion_ring_size)
    ∷ (l.input_region_base, input_region_size)
    ∷ (l.trace_buffer_base, trace_buffer_size)
    ∷ (l.breakpoint_region_base, breakpoint_region_size)
    ∷ []

-- What a successful `layout_create` leaves, for a block at `memory` and guest RAM at `ram`.
abbrev pub Created : ℕ → ℕ → Res (Unit {0}) × LayoutState → Type 0
Created memory ram (ok done, some (layout, arena)) =
    InOrder (small_regions layout) (memory + small_regions_size)
    × (layout.page_table_l1_base ≡ memory)
    × (layout.guest_ram_base ≡ ram)
    × (layout.ram_size ≡ guest_ram_size)
    × (arena.used_bytes ≤ arena.capacity_bytes)
Created memory ram (ok done, none) = ⊥
Created memory ram (err code, state) = ⊥

-- Where the OS gives both blocks, `layout_create` succeeds: the arena has room for all eight
-- regions, which lie one behind the other without overlap inside the block, the L1 page table at
-- its start, and guest RAM is the reservation at its full size.
pub layout_create-Created :
    (memory ram : ℕ) → Created memory ram (layout_create (some memory) (some ram) none)
unfolding layout_create arena_allocate align_up
layout_create-Created memory ram = ground arith

-- `layout_guest_ram_commit` succeeds exactly for a nonempty range of whole pages inside guest RAM
-- which the OS grants.
pub layout_guest_ram_commit_iff :
    (granted : ℕ → ℕ → Bool) (layout : MemoryLayout) (pa size : ℕ)
    → (layout_guest_ram_commit granted (some layout) pa size ≡ ok tt) ↔ (
        (0 < size)
        × (pa % 4096 ≡ 0)
        × (size % 4096 ≡ 0)
        × (pa + size ≤ guest_ram_size)
        × (granted pa size ≡ true))
unfolding layout_guest_ram_commit
layout_guest_ram_commit_iff granted layout pa size = ground arith
