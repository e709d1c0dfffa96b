-- ===== src/Arena.antt =====
-- core/common/arena.h and arena.c: the bump allocator behind every region of the emulator. The
-- block that `malloc` returns is a parameter (`none` for NULL); releasing it is not modelled.
use voland.Base.{ℕ, ◌+◌, ◌-◌, ◌*◌, ◌/◌, ◌%◌, ◌^◌, Option, none, some, ltb, if◌then◌else◌}
use voland.Base.{Bool, true, false}
pub mod Bounds
mod Tests

-- `Arena`; `base` is the address of the block, 0 for NULL.
pub record Arena : Type 0 where
  pub base : ℕ
  pub capacity_bytes : ℕ
  pub used_bytes : ℕ
  pub owns_memory : Bool

-- `size_t` addition.
abbrev pub add_size : ℕ → ℕ → ℕ
add_size a b = (a + b) % 2 ^ 64

-- `arena_create`
unfoldable pub arena_create : Option ℕ → ℕ → Option Arena
arena_create none capacity = none
arena_create (some memory) capacity =
    some (record { base = memory; capacity_bytes = capacity; used_bytes = 0; owns_memory = true })

-- `arena_create_in_place`; the abort on NULL is `none`.
pub arena_create_in_place : Option ℕ → ℕ → Option Arena
arena_create_in_place none capacity = none
arena_create_in_place (some memory) capacity =
    some (record { base = memory; capacity_bytes = capacity; used_bytes = 0; owns_memory = false })

-- `(value + (alignment - 1)) & ~(alignment - 1)` at a power of two, which the debug assertion asks
-- for: clearing the low bits is rounding down to a multiple.
unfoldable pub align_up : ℕ → ℕ → ℕ
align_up value alignment = add_size value (alignment - 1) / alignment * alignment

-- `arena_allocate`: the pointer, `none` for NULL, and the arena afterwards.
unfoldable pub arena_allocate : Arena → ℕ → ℕ → Option ℕ × Arena
arena_allocate arena size alignment =
    let aligned = align_up arena.used_bytes alignment in
    if ltb arena.capacity_bytes (add_size aligned size)
    then (none, arena)
    else (some (arena.base + aligned), record arena { used_bytes = add_size aligned size })

-- `arena_reset`
pub arena_reset : Arena → Arena
arena_reset arena = record arena { used_bytes = 0 }

-- `arena_destroy`, without the `free` of the block.
pub arena_destroy : Arena → Arena
arena_destroy arena = record { base = 0; capacity_bytes = 0; used_bytes = 0; owns_memory = false }
