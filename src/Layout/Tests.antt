-- ===== src/Layout/Tests.antt =====
-- Runs of core/common/layout.c.
use voland.Base.{ℕ, Bool, ltb, none, some}
use voland.Layout.{MemoryLayout, guest_ram_size, layout_create}
use voland.Layout.Regions.{Created, layout_create-Created}

layout_create-Created_example : Created 64 0x100000 (layout_create (some 64) (some 0x100000) none)
layout_create-Created_example = layout_create-Created 64 0x100000

abbrev layout : MemoryLayout
layout = record {
  guest_ram_base = 0x100000;
  ram_size = guest_ram_size;
  page_table_l1_base = 64;
  framebuffer_slot_base = 0;
  audio_ring_base = 0;
  gpu_ring_base = 0;
  gpu_completion_ring_base = 0;
  input_region_base = 0;
  trace_buffer_base = 0;
  breakpoint_region_base = 0;
}

-- An OS that commits the first sixteen pages only.
abbrev some_granted : ℕ → ℕ → Bool
some_granted pa size = ltb pa 65536
