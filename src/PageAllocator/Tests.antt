-- ===== src/PageAllocator/Tests.antt =====
-- Runs of core/hle/kernel/page_allocator.c at an allocator with one run on its freelist.
use voland.Base.{ℕ, ◌≡◌, refl, arith, Bool, true, [], ◌∷◌}
use voland.Layout.{MemoryLayout, guest_ram_size, layout_guest_ram_commit}
use voland.Result.{ok}
use voland.PageAllocator.{
  PageAllocator, page_allocator_allocate, page_allocator_free, find_index, take_run,
}
use voland.PageAllocator.Runs.{sum_runs}
use voland.PageAllocator.Pages.{free_at}
use voland.PageAllocator.Inv.{IsValid}
use voland.PageAllocator.Calls.{
  Allocated, Freed, page_allocator_allocate_lem, page_allocator_free_lem,
  page_allocator_allocate-free,
}

abbrev layout : MemoryLayout
layout = record {
  guest_ram_base = 0x100000;
  ram_size = guest_ram_size;
  page_table_l1_base = 0;
  framebuffer_slot_base = 0;
  audio_ring_base = 0;
  gpu_ring_base = 0;
  gpu_completion_ring_base = 0;
  input_region_base = 0;
  trace_buffer_base = 0;
  breakpoint_region_base = 0;
}

-- Sixteen pages, eight behind the cursor; the third and fourth are free.
abbrev pages : PageAllocator
pages = record {
  base_pa = 0;
  size_bytes = 65536;
  used_bytes = 32768;
  free_runs = record { pa = 8192; page_count = 2 } ∷ [];
}

pages-IsValid : IsValid pages
unfolding sum_runs
pages-IsValid = record {
  paged = record { base = refl; extent = refl; cursor = refl; within = omega arith };
  runs = (
    record { above = omega arith; below = omega arith; aligned = refl; nonempty = omega arith },
    tt,
  );
  once = λ x. ground arith;
  few = omega arith;
}

abbrev all_granted : ℕ → ℕ → Bool
all_granted pa size = true

page_allocator_allocate_lem_example :
    Allocated pages 1 (page_allocator_allocate all_granted layout pages 1)
page_allocator_allocate_lem_example =
    page_allocator_allocate_lem all_granted layout pages 1 pages-IsValid

page_allocator_free_lem_example : Freed pages 16384 2 (page_allocator_free pages 16384 2)
unfolding sum_runs
page_allocator_free_lem_example =
    page_allocator_free_lem pages 16384 2 pages-IsValid (λ x. ground arith)

-- One page off the run.
abbrev taken : PageAllocator
taken = record pages { free_runs = record { pa = 12288; page_count = 1 } ∷ [] }

taken_is : page_allocator_allocate all_granted layout pages 1 ≡ (ok 8192, taken)
unfolding page_allocator_allocate find_index take_run layout_guest_ram_commit
taken_is = refl

page_allocator_allocate-free_example :
    (c : PageAllocator) × (page_allocator_free taken 8192 1 ≡ (ok tt, c))
    × ((x : ℕ) → free_at c x ≡ free_at pages x)
    × IsValid c
page_allocator_allocate-free_example =
    page_allocator_allocate-free all_granted layout pages 1 pages-IsValid taken_is
