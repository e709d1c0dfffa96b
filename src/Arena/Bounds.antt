-- ===== src/Arena/Bounds.antt =====
-- What `arena_allocate` (core/common/arena.c) promises: blocks inside the arena, aligned, disjoint.
use voland.Base.{ℕ, ◌+◌, ◌-◌, ◌/◌, ◌%◌, ◌^◌, ◌≤◌, ◌<◌, ◌≡◌, some, arith}
use native.Mathlib.Nat.{div-add-mod', mod-lt, mul-mod_left}
use voland.Arena.{Arena, add_size, align_up, arena_allocate}

-- `align_up` is the least multiple of the alignment that is not below the value.
pub align_up_bounds :
    (v a : ℕ)
    → 0 < a
    → v + a < 2 ^ 64
    → (v ≤ align_up v a) × (align_up v a < v + a) × (align_up v a % a ≡ 0)
unfolding align_up
align_up_bounds v a h w =
    let e : add_size v (a - 1) ≡ v + (a - 1) = omega arith in
    let x = v + (a - 1) in
    rw e (
      omega (arith, div-add-mod' x a, mod-lt x h),
      omega (arith, div-add-mod' x a, mod-lt x h),
      mul-mod_left (x / a) a,
    )

pub record IsValid (arena : Arena) : Type 0 where
  pub within : arena.used_bytes ≤ arena.capacity_bytes
  pub no_wrap : arena.base + arena.capacity_bytes < 2 ^ 64

-- A successful `arena_allocate` gives a block that starts at or after everything handed out so far,
-- at an offset that is a multiple of the alignment, ends within the capacity, and is wholly behind
-- the new cursor; the arena stays valid. Stated where the request itself does not wrap `size_t`.
pub arena_allocate-fits :
    (arena : Arena) (size alignment : ℕ) {p : ℕ} {after : Arena}
    → IsValid arena
    → 0 < alignment
    → arena.used_bytes + alignment + size < 2 ^ 64
    → arena_allocate arena size alignment ≡ (some p, after)
    → (arena.base + arena.used_bytes ≤ p)
      × ((p - arena.base) % alignment ≡ 0)
      × (p + size ≡ after.base + after.used_bytes)
      × (after.base ≡ arena.base)
      × IsValid after
unfolding arena_allocate
arena_allocate-fits arena size alignment v a w e =
    ground (arith, align_up_bounds arena.used_bytes alignment a (omega arith))
