-- ===== src/Hle/SvcMemory/Growing.antt =====
-- The two ways in which `hle_svc_set_heap_size` of core/hle/kernel/svc_memory.c ends where the heap
-- does not shrink, and that mapping and zeroing fresh pages is the first.
use voland.Base.{ℕ, ◌+◌, ◌-◌, ◌*◌, ◌/◌, ◌%◌, ◌≤◌, ◌<◌, ◌≡◌, ◌≢◌, refl, arith, true, false}
use voland.Base.{leb, ltb, ◌&&◌, ◌⊎◌, inl, inr, Bool-cases, ◌∙◌, ap}
use voland.Base.{Bool, Option, some, replicate, update}
use voland.Result.{ok}
use voland.PageAllocator.{PageAllocator}
use voland.PageAllocator.Pages.{free_at, in_pages}
use voland.PageAllocator.Inv.{IsValid}
use voland.PageAllocator.Calls.{Allocated}
use voland.Vmm.{Context, page_size, pte_load, perm_rw}
use voland.Vmm.Access.{write_bytes}
use voland.Vmm.MapLoop.{in_range, MappedPages}
use voland.Vmm.Mapping.{MapArguments}
use voland.Vmm.Unmapping.{IsBacked}
use voland.Vmm.Translate.{host_of}
use voland.Vmm.Steps.{other_fields-IsBacked}
use voland.Hle.{HleContext, result_success}
use voland.Hle.SvcMemory.{resized}
use voland.Hle.SvcMemory.Heap.{IsOwned, write_bytes-zero, fresh_page, fresh-host_of}

-- What the handlers keep between two calls: the page tables' invariant and the allocator's, and that
-- no mapped page is free.
pub record IsConsistent (context : HleContext) : Type 0 where
  pub backed : IsBacked context.vmm
  pub valid : IsValid context.pages
  pub owned : IsOwned context.vmm context.pages

-- The end of the heap, and whether a page belongs to its growth to `requested` bytes.
abbrev pub heap_end : HleContext → ℕ
heap_end context = context.process.address_space.heap.base + context.process.heap_size

abbrev pub grows_at : HleContext → ℕ → ℕ → Bool
grows_at context requested w =
    in_range (heap_end context / page_size) ((requested - context.process.heap_size) / page_size) w

-- A call that brought the heap to `requested` bytes: the new pages were unmapped, are open and read
-- as zero, every other page is as it was, and so is every byte behind the pages mapped before.
pub record IsGrown (context d : HleContext) (requested : ℕ) : Type 0 where
  pub consistent : IsConsistent d
  pub fresh :
      (w : ℕ)
      → grows_at context requested w ≡ true
      → (pte_load context.vmm w ≡ 0) × (pte_load d.vmm w % page_size ≡ perm_rw)
  pub pages :
      (w : ℕ) → grows_at context requested w ≡ false → pte_load d.vmm w ≡ pte_load context.vmm w
  pub zeroed :
      (x : ℕ)
      → heap_end context ≤ x
      → x < context.process.address_space.heap.base + requested
      → d.vmm.memory (host_of d.vmm x) ≡ 0
  pub kept :
      (x : ℕ)
      → pte_load context.vmm (x / page_size) ≢ 0
      → d.vmm.memory (host_of d.vmm x) ≡ context.vmm.memory (host_of context.vmm x)
  pub frame : d ≡ record context {
    vmm = d.vmm;
    pages = d.pages;
    process = record context.process { heap_size = requested };
    x = update (update context.x 0 result_success) 1 context.process.address_space.heap.base;
  }

-- A call that failed: an error in X0, and pages, memory and the free bytes as they were.
pub record IsDenied (context d : HleContext) : Type 0 where
  pub code : d.x 0 ≢ result_success
  pub consistent : IsConsistent d
  pub vmm : d.vmm ≡ context.vmm
  pub free_bytes : (y : ℕ) → free_at d.pages y ≡ free_at context.pages y
  pub frame : d ≡ record context { pages = d.pages; x = update context.x 0 (d.x 0) }

abbrev pub GrowOutcome : HleContext → ℕ → Option HleContext → Type 0
GrowOutcome context requested r =
    (d : HleContext) × (r ≡ some d) × (IsGrown context d requested ⊎ IsDenied context d)

module _ (context : HleContext) (v : IsConsistent context) (requested : ℕ)
    (growing : context.process.heap_size < requested) where
  abbrev pub gva : ℕ
  gva = heap_end context

  abbrev pub size : ℕ
  size = requested - context.process.heap_size

  module _ (pa : ℕ) (p : PageAllocator)
      (allocated : Allocated context.pages (size / page_size) (ok pa, p)) (c : Context)
      (m : MapArguments context.vmm gva pa size perm_rw)
      (got : MappedPages context.vmm c (gva / page_size) pa perm_rw (size / page_size))
      (b : IsBacked c) where
    abbrev pub cleared : ℕ → ℕ
    cleared = write_bytes c.memory (context.vmm.guest_ram_base + pa) (replicate size 0)

    abbrev pub grown : HleContext
    grown = resized (record context { vmm = record c { memory = cleared }; pages = p }) requested

    -- A page that was mapped before is not in the fresh range.
    old_page : (w : ℕ) → pte_load context.vmm w ≢ 0 → pte_load c w ≡ pte_load context.vmm w
    old_page w ne = elim (Bool-cases (grows_at context requested w)) [
      | inl on ↦ absurd (ne (m.fresh w (ground arith) (ground arith)))
      | inr off ↦ rw off at (got.pages w)
    ]

    -- A byte that was not free is not among those allocated.
    not_allocated :
        (y : ℕ)
        → free_at context.pages y ≡ 0
        → (free_at p y ≡ 0) × (in_pages pa (size / page_size) y ≡ 0)
    not_allocated y z =
        let moved = allocated.0 y in (omega (arith, moved, z), omega (arith, moved, z))

    owned_page :
        (w o : ℕ)
        → pte_load c w ≢ 0
        → o < page_size
        → free_at p (pte_load c w / page_size * page_size + o - c.guest_ram_base) ≡ 0
    owned_page w o ne lt = elim (Bool-cases (grows_at context requested w)) [
      | inl on ↦
          let f = fresh_page v.backed m got w (ground arith) (ground arith) in
          let y = pte_load c w / page_size * page_size + o - c.guest_ram_base in
          let inside : in_pages pa (size / page_size) y ≡ 1 = ground (arith, f, got.ram_base) in
          omega (arith, allocated.0 y, inside, v.valid.once y)
      | inr off ↦
          let same : pte_load c w ≡ pte_load context.vmm w = rw off at (got.pages w) in
          rw (same, got.ram_base) (not_allocated _ (v.owned w o (λ z. ne (same ∙ z)) lt)).0
    ]

    grown-IsOwned : IsOwned (record c { memory = cleared }) p
    unfolding pte_load
    grown-IsOwned = λ w o ne lt. owned_page w o ne lt

    kept_byte :
        (x : ℕ)
        → pte_load context.vmm (x / page_size) ≢ 0
        → cleared (host_of c x) ≡ context.vmm.memory (host_of context.vmm x)
    unfolding host_of
    kept_byte x ne =
        let w = x / page_size in
        let y = pte_load context.vmm w / page_size * page_size + x % page_size in
        let off = (not_allocated _ (v.owned w (x % page_size) ne (omega arith))).1 in
        let inside = v.backed.backed w ne in
        let outside : (leb (context.vmm.guest_ram_base + pa) y
              && ltb y (context.vmm.guest_ram_base + pa + size))
            ≡ false =
          ground (arith, off, inside, m.size_aligned) in
        rw (old_page w ne) (
          write_bytes-zero size c.memory (context.vmm.guest_ram_base + pa) y
          ∙ rw outside (ap (λ (f : ℕ → ℕ). f y) got.memory))

    zeroed_byte :
        (x : ℕ)
        → gva ≤ x
        → x < context.process.address_space.heap.base + requested
        → cleared (host_of c x) ≡ 0
    zeroed_byte x low high =
        let at = fresh-host_of v.backed m got x low (omega arith) in
        let inside : (leb (context.vmm.guest_ram_base + pa) (host_of c x)
              && ltb (host_of c x) (context.vmm.guest_ram_base + pa + size))
            ≡ true =
          ground (arith, at) in
        write_bytes-zero size c.memory (context.vmm.guest_ram_base + pa) (host_of c x) ∙ rw inside

    pub grown-IsGrown : IsGrown context grown requested
    unfolding pte_load host_of
    grown-IsGrown = record {
      consistent = record {
        backed = other_fields-IsBacked c.last_fault cleared b;
        valid = allocated.1;
        owned = grown-IsOwned;
      };
      fresh = λ w on. (
        m.fresh w (ground arith) (ground arith),
        (fresh_page v.backed m got w (ground arith) (ground arith)).1,
      );
      pages = λ w off. rw off at (got.pages w);
      zeroed = λ x low high. zeroed_byte x low high;
      kept = λ x ne. kept_byte x ne;
      frame = refl;
    }
