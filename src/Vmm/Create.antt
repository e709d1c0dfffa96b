-- ===== src/Vmm/Create.antt =====
-- The context that `vmm_create` (core/common/vmm.c) starts from.
use voland.Base.{
  ℕ, ◌+◌, ◌%◌, ◌^◌, ◌≤◌, ◌<◌, ◌≡◌, ◌≢◌, refl, arith, some, false, true, [], nonzero_of_zero,
}
use voland.Arena.{arena_create}
use voland.Layout.{MemoryLayout}
use voland.Vmm.{
  Context, page_size, l1_entry_count, l2_arena_bytes, l2_table_alignment, pte_load, vmm_create,
  no_last_fault,
}
use voland.Vmm.Unmapping.{IsBacked}

-- The context right after creation, its L2 arena at `block`.
abbrev pub created_context : MemoryLayout → ℕ → (ℕ → ℕ) → Context
created_context layout block memory = record {
  l1 = λ _. 0;
  guest_ram_base = layout.guest_ram_base;
  guest_ram_size = layout.ram_size;
  l2_arena = record {
    base = block;
    capacity_bytes = l2_arena_bytes + l2_table_alignment;
    used_bytes = 0;
    owns_memory = true;
  };
  l2_freelist = 0;
  l2_free_count = 0;
  l2_carved_count = 0;
  l2_mapped_count = λ _. 0;
  last_fault = no_last_fault;
  tables = λ _ _. 0;
  memory = memory;
}

-- What the fresh context keeps.
pub record Fresh (layout : MemoryLayout) (memory : ℕ → ℕ) (ctx : Context) : Type 0 where
  pub backed : IsBacked ctx
  pub unmapped : (w : ℕ) → pte_load ctx w ≡ 0
  pub ram_base : ctx.guest_ram_base ≡ layout.guest_ram_base
  pub ram_size : ctx.guest_ram_size ≡ layout.ram_size
  pub same_memory : ctx.memory ≡ memory

-- Where no context is live, the OS gives the L2 arena, and guest RAM lies at whole pages,
-- `vmm_create` succeeds: every page of the new context is unmapped, it uses the layout's guest RAM,
-- and it satisfies the invariant of the mapping calls.
pub vmm_create_lem :
    (layout : MemoryLayout) (block : ℕ) (memory : ℕ → ℕ)
    → block ≢ 0
    → block + (l2_arena_bytes + l2_table_alignment) < 2 ^ 64
    → layout.guest_ram_base % page_size ≡ 0
    → 0 < layout.guest_ram_base
    → layout.guest_ram_base + layout.ram_size ≤ 2 ^ 64
    → (vmm_create (some layout) false (some block) memory
        ≡ some (created_context layout block memory))
      × Fresh layout memory (created_context layout block memory)
unfolding vmm_create arena_create pte_load
vmm_create_lem layout block memory ne wrap aligned placed inside = (
  refl,
  record {
    backed = record {
      valid = record {
        free = [];
        sound = record {
          chain = refl;
          free_length = refl;
          distinct = tt;
          live_once = λ i j live e. absurd (live refl);
          apart = λ i live. absurd (live refl);
          live_below = λ i live. absurd (live refl);
          free_below = tt;
          arena = record {
            placed = ne;
            used = refl;
            capacity = refl;
            carved = omega arith;
            no_wrap = wrap;
          };
          ram = record { aligned = aligned; placed = placed; no_wrap = inside };
          counted = λ i. refl;
          budget = omega (arith, nonzero_of_zero (λ _. 0) l1_entry_count (λ j lt. refl));
        };
        busy = λ i live. absurd (live refl);
      };
      backed = λ w live. absurd (live refl);
    };
    unmapped = λ w. refl;
    ram_base = refl;
    ram_size = refl;
    same_memory = refl;
  },
)
