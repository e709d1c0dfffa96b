-- ===== src/Layout.antt =====
-- core/common/layout.h and layout.c: the regions of linear memory, and the commit of guest RAM. The
-- native build is modelled: guest RAM is an OS reservation of its own, and the eight other regions
-- come from one arena. The two allocations of the OS, and whether it grants a commit (Windows; it
-- always does elsewhere), are parameters. Log lines and the OS release calls are left out.
use voland.Base.{ℕ, ◌+◌, ◌-◌, ◌*◌, ◌%◌, Bool, true, false, ◌||◌, Option, none, some}
use voland.Base.{ltb, leb, ◌==◌, not, if◌then◌else◌, if◌then◌else◌}
use voland.Result.{Res, ok, err, out_of_memory, invalid_argument}
use voland.Arena.{Arena, arena_create, arena_allocate}
pub mod Regions
mod Tests

abbrev pub mib : ℕ
mib = 1024 * 1024

abbrev pub page_size : ℕ
page_size = 4096

-- LAYOUT_GUEST_RAM_SIZE: the application pool and the HLE carve-out.
abbrev pub guest_ram_size : ℕ
guest_ram_size = 3285 * mib + 48 * mib

abbrev pub page_table_l1_size : ℕ
page_table_l1_size = 8192 * 8

abbrev pub framebuffer_region_size : ℕ
framebuffer_region_size = 128 + 2 * (1920 * 1080 * 4)

abbrev pub audio_ring_size : ℕ
audio_ring_size = 8 + 4096 * 2 * 4

abbrev pub gpu_ring_size : ℕ
gpu_ring_size = 4 * 1024 * 1024

abbrev pub gpu_completion_ring_size : ℕ
gpu_completion_ring_size = 64 * 1024

abbrev pub input_region_size : ℕ
input_region_size = 8 * 32

abbrev pub trace_buffer_size : ℕ
trace_buffer_size = 8 + 65536 * 24

abbrev pub breakpoint_region_size : ℕ
breakpoint_region_size = 4096

-- LAYOUT_SMALL_REGIONS_SIZE: the capacity of the arena, with room for alignment.
abbrev pub small_regions_size : ℕ
small_regions_size =
    page_table_l1_size + framebuffer_region_size + audio_ring_size + gpu_ring_size
    + gpu_completion_ring_size + input_region_size + trace_buffer_size + breakpoint_region_size + 64

-- `Memory_Layout`
pub record MemoryLayout : Type 0 where
  pub guest_ram_base : ℕ
  pub ram_size : ℕ
  pub page_table_l1_base : ℕ
  pub framebuffer_slot_base : ℕ
  pub audio_ring_base : ℕ
  pub gpu_ring_base : ℕ
  pub gpu_completion_ring_base : ℕ
  pub input_region_base : ℕ
  pub trace_buffer_base : ℕ
  pub breakpoint_region_base : ℕ

-- `g_layout` with its storage; `none` while `g_layout_live` is 0.
abbrev pub LayoutState : Type 0
LayoutState = Option (MemoryLayout × Arena)

-- `layout_get`
pub layout_get : LayoutState → Option MemoryLayout
layout_get none = none
layout_get (some (layout, arena)) = some layout

-- What follows the calls of `arena_allocate`: a NULL among the nine pointers is the failure exit.
fill :
    Option ℕ
    → Option ℕ
    → Option ℕ
    → Option ℕ
    → Option ℕ
    → Option ℕ
    → Option ℕ
    → Option ℕ
    → Option ℕ
    → Option MemoryLayout
fill (some ram) (some l1) (some fb) (some au) (some gpu) (some gc) (some inp) (some tr) (some br) =
    some (record {
      guest_ram_base = ram;
      ram_size = guest_ram_size;
      page_table_l1_base = l1;
      framebuffer_slot_base = fb;
      audio_ring_base = au;
      gpu_ring_base = gpu;
      gpu_completion_ring_base = gc;
      input_region_base = inp;
      trace_buffer_base = tr;
      breakpoint_region_base = br;
    })
fill _ _ _ _ _ _ _ _ _ = none

-- The eight calls of `arena_allocate`, in the order of the code.
carve : Arena → Option ℕ → Option MemoryLayout × Arena
unfolding fill
carve a0 ram =
    let (l1, a1) = arena_allocate a0 page_table_l1_size 8 in
    let (fb, a2) = arena_allocate a1 framebuffer_region_size 8 in
    let (au, a3) = arena_allocate a2 audio_ring_size 8 in
    let (gpu, a4) = arena_allocate a3 gpu_ring_size 8 in
    let (gc, a5) = arena_allocate a4 gpu_completion_ring_size 8 in
    let (inp, a6) = arena_allocate a5 input_region_size 8 in
    let (tr, a7) = arena_allocate a6 trace_buffer_size 8 in
    let (br, a8) = arena_allocate a7 breakpoint_region_size 8 in
    (fill ram l1 fb au gpu gc inp tr br, a8)

-- `layout_create`: `memory` is what `malloc` gives for the arena, `ram` what the reservation gives.
pub layout_create : Option ℕ → Option ℕ → LayoutState → Res (Unit {0}) × LayoutState
unfolding carve arena_create
layout_create memory ram (some live) = (ok tt, some live)
layout_create memory ram none = elim (arena_create memory small_regions_size) [
  | none ↦ (err out_of_memory, none)
  | some arena ↦
      let (regions, arena') = carve arena ram in
      elim regions [
        | none ↦ (err out_of_memory, none)
        | some layout ↦ (ok tt, some (layout, arena'))
      ]
]

-- `layout_destroy`, without the release calls of the OS.
pub layout_destroy : LayoutState → LayoutState
layout_destroy state = none

-- `layout_guest_ram_commit`; `granted` is the answer of the OS to the commit of a range.
unfoldable pub layout_guest_ram_commit :
    (ℕ → ℕ → Bool) → Option MemoryLayout → ℕ → ℕ → Res (Unit {0})
layout_guest_ram_commit granted none guest_pa size = err invalid_argument
layout_guest_ram_commit granted (some layout) guest_pa size =
    if size == 0 || not (guest_pa % page_size == 0) || not (size % page_size == 0)
    then err invalid_argument
    else if leb guest_ram_size guest_pa || ltb (guest_ram_size - guest_pa) size
    then err invalid_argument
    else if granted guest_pa size
    then ok tt
    else err out_of_memory
