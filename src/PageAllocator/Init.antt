-- ===== src/PageAllocator/Init.antt =====
-- What `page_allocator_init` and `page_allocator_reset` (core/hle/kernel/page_allocator.c) leave.
use voland.Base.{
  ℕ, ◌+◌, ◌-◌, ◌%◌, ◌≤◌, ◌<◌, ◌≡◌, refl, arith, not, ◌||◌, ◌&&◌, some, [], if◌then◌else◌, leb, ltb,
  ◌==◌, Bool-cases, inl, inr,
}
use voland.Result.{Res, ok, err, invalid_argument}
use voland.Layout.{MemoryLayout}
use voland.PageAllocator.{PageAllocator, page_allocator_init, page_allocator_reset}
use voland.PageAllocator.Runs.{sum_runs}
use voland.PageAllocator.Pages.{free_at}
use voland.PageAllocator.Inv.{IsValid}

-- Every byte of the extent is free, once, and no other.
abbrev pub AllFree : PageAllocator → Type 0
AllFree a =
    (x : ℕ) → free_at a x ≡ (if leb a.base_pa x && ltb x (a.base_pa + a.size_bytes) then 1 else 0)

-- The extents that `page_allocator_init` accepts.
abbrev pub IsExtent : MemoryLayout → ℕ → ℕ → Type 0
IsExtent layout base size =
    (base % 4096 ≡ 0) × (size % 4096 ≡ 0) × (0 < size) × (base + size ≤ layout.ram_size)

-- What `page_allocator_init` may give.
abbrev pub Initialised : MemoryLayout → ℕ → ℕ → Res PageAllocator → Type 0
Initialised layout base size (ok a) =
    IsExtent layout base size × (a.base_pa ≡ base) × (a.size_bytes ≡ size) × IsValid a × AllFree a
Initialised layout base size (err invalid_argument) = ¬ IsExtent layout base size
Initialised layout base size (err code) = ⊥

abbrev fresh : ℕ → ℕ → PageAllocator
fresh base size = record { base_pa = base; size_bytes = size; used_bytes = 0; free_runs = [] }

fresh-IsValid :
    (base size : ℕ)
    → base % 4096 ≡ 0
    → size % 4096 ≡ 0
    → IsValid (fresh base size) × AllFree (fresh base size)
unfolding sum_runs
fresh-IsValid base size p q = (
  record {
    paged = record { base = p; extent = q; cursor = omega arith; within = omega arith };
    runs = tt;
    once = λ x. ground (arith, free x);
    few = omega arith;
  },
  free,
)
  where
    free : AllFree (fresh base size)
    free x = ground arith

-- `page_allocator_init` accepts exactly the whole-page extents, not empty, within guest RAM. The new
-- allocator satisfies the invariant, and each byte of its extent is free, once, and no other byte.
pub page_allocator_init_lem :
    (layout : MemoryLayout) (base size : ℕ)
    → Initialised layout base size (page_allocator_init (some layout) base size)
unfolding page_allocator_init
page_allocator_init_lem layout base size =
    let unaligned = not (base % 4096 == 0) || not (size % 4096 == 0) in
    let outside = size == 0 || ltb layout.ram_size base || ltb (layout.ram_size - base) size in
    elim (Bool-cases unaligned) [
      | inl e ↦ rw e (λ p. ground (arith, p))
      | inr e ↦ elim (Bool-cases outside) [
        | inl f ↦ rw (e, f) (λ p. ground (arith, p))
        | inr f ↦
            let (v, free) = fresh-IsValid base size (ground arith) (ground arith) in
            rw (e, f) (ground arith, refl, refl, v, free)
      ]
    ]

-- `page_allocator_reset` keeps the invariant and makes every byte of the extent free, once, and no
-- other, whatever was handed out.
pub page_allocator_reset_lem :
    (a : PageAllocator)
    → IsValid a
    → IsValid (page_allocator_reset a) × AllFree (page_allocator_reset a)
unfolding page_allocator_reset
page_allocator_reset_lem a v = fresh-IsValid a.base_pa a.size_bytes v.paged.base v.paged.extent
