-- ===== src/Tls/Fixtures.antt =====
-- An allocator over a region of two pages, for the runs of tls.c and thread.c.
use voland.Base.{refl, arith, [], ◌∷◌}
use voland.Layout.{MemoryLayout, guest_ram_size}
use voland.Vmm.{Context}
use voland.Vmm.Create.{created_context, vmm_create_lem}
use voland.Vmm.Inv.{IsValid}
use voland.Tls.{TlsAllocator}
use voland.Tls.Changes.{IsPlaced}

abbrev pub layout : MemoryLayout
layout = record {
  guest_ram_base = 0x100000;
  ram_size = guest_ram_size;
  page_table_l1_base = 0;
  framebuffer_slot_base = 0;
  audio_ring_base = 0;
  gpu_ring_base = 0;
  gpu_completion_ring_base = 0;
  input_region_base = 0;
  trace_buffer_base = 0;
  breakpoint_region_base = 0;
}

abbrev pub start : Context
start = created_context layout 64 (λ _. 7)

pub start-IsValid : IsValid start
start-IsValid =
    (vmm_create_lem layout 64 (λ _. 7) (omega arith) (omega arith) (omega arith) (omega arith)
      (omega arith)).1.backed.valid

abbrev pub allocator : TlsAllocator
allocator = record {
  vmm = start;
  pages = record { base_pa = 0; size_bytes = 0x10000000; used_bytes = 0x5000; free_runs = [] };
  region = record { base = 0x700000; size = 0x2000 };
  mapped = record { gva = 0x700000; used_mask = 5 } ∷ [];
  blocks_in_use = 2;
}

pub allocator-IsPlaced : IsPlaced allocator
allocator-IsPlaced = record {
  pages = (refl, tt);
  aligned = refl;
  few = omega arith;
  room = omega arith;
  inside = omega arith;
}
