-- ===== src/Hle/SvcMemory/SetHeapSize.antt =====
-- What `hle_svc_set_heap_size` of core/hle/kernel/svc_memory.c does where the heap does not shrink.
use voland.Base.{ℕ, ◌-◌, ◌/◌, ◌%◌, ◌≤◌, ◌<◌, ◌≡◌, refl, arith, false}
use voland.Base.{◌==◌, ltb, inl, inr, Bool-cases, ◌∙◌}
use mathlib.Core.Path.{subst}
use voland.Base.{Bool, Option, none, some, ◌>>=◌}
use voland.Result.{Res, ok, err, Code, out_of_memory}
use voland.Layout.{MemoryLayout}
use voland.PageAllocator.{PageAllocator, page_allocator_allocate}
use voland.PageAllocator.Pages.{free_at}
use voland.PageAllocator.Inv.{IsValid}
use voland.PageAllocator.Calls.{
  Allocated, page_allocator_allocate_lem, page_allocator_allocate-free,
}
use voland.Process.{heap_size_granule}
use voland.Vmm.{Context, page_size, perm_rw}
use voland.Vmm.Map.{vmm_map}
use voland.Vmm.Mapping.{Mapped, vmm_map_lem}
use voland.Vmm.Unmapping.{mapping_calls-IsBacked}
use voland.Hle.{
  HleContext, answer, result_out_of_memory, result_invalid_size, result_invalid_memory_range,
}
use voland.Hle.SvcMemory.{hle_svc_set_heap_size, grow_heap, map_fresh, mapped_fresh, heap_answer}
use voland.Hle.SvcMemory.Heap.{fresh-pointer}
use voland.Hle.SvcMemory.Growing.{IsConsistent, GrowOutcome, heap_end, grown, grown-IsGrown}

-- A refusal that leaves all but the allocator's representation.
denied :
    (context : HleContext) (p : PageAllocator) (requested code : ℕ)
    → 0 < code
    → IsConsistent context
    → IsValid p
    → ((y : ℕ) → free_at p y ≡ free_at context.pages y)
    → GrowOutcome context requested (some (answer (record context { pages = p }) code))
denied context p requested code pos v valid same = (
  _,
  refl,
  inr (record {
    code = λ z. omega (arith, z);
    consistent = record {
      backed = v.backed;
      valid = valid;
      owned = λ w o ne lt. same _ ∙ v.owned w o ne lt;
    };
    vmm = refl;
    free_bytes = same;
    frame = refl;
  }),
)

module _ (context : HleContext) (v : IsConsistent context) (requested : ℕ)
    (growing : context.process.heap_size < requested) where
  abbrev gva : ℕ
  gva = heap_end context

  abbrev size : ℕ
  size = requested - context.process.heap_size

  -- What follows the mapping.
  mapped_fresh-GrowOutcome :
      (granted : ℕ → ℕ → Bool) (layout : MemoryLayout) (pa : ℕ) (p : PageAllocator)
      → page_allocator_allocate granted layout context.pages (size / page_size) ≡ (ok pa, p)
      → (r : Option (Res (Unit {0}) × Context)) → vmm_map context.vmm gva pa size perm_rw ≡ r
      → Mapped context.vmm gva pa size perm_rw r
      → GrowOutcome context requested
          (r >>= mapped_fresh (record context { pages = p }) requested gva pa size)
  mapped_fresh-GrowOutcome granted layout pa p e none run m = absurd m
  mapped_fresh-GrowOutcome granted layout pa p e (some (ok done, c)) run (m, got) =
      let allocated =
        rw e at
          (page_allocator_allocate_lem granted layout context.pages (size / page_size) v.valid) in
      let b = (mapping_calls-IsBacked context.vmm gva pa size perm_rw v.backed).0 (ok done) c run in
      rw (fresh-pointer v.backed m got) (
        grown context v requested growing pa p allocated c m got b,
        refl,
        inl (grown-IsGrown context v requested growing pa p allocated c m got b),
      )
  mapped_fresh-GrowOutcome granted layout pa p e (some (err code, c)) run m =
      let (q, freed, back, valid) =
        page_allocator_allocate-free granted layout context.pages (size / page_size) v.valid e in
      rw (unchanged code m, freed)
        (denied context q requested result_out_of_memory (omega arith) v valid back)
    where
      unchanged :
          (code : Code)
          → Mapped context.vmm gva pa size perm_rw (some (err code, c))
          → c ≡ context.vmm
      unchanged out_of_memory m = m.0
      unchanged code m = m.0

  grow_heap_lem :
      (granted : ℕ → ℕ → Bool) (layout : MemoryLayout)
      → GrowOutcome context requested (grow_heap granted layout context requested)
  unfolding grow_heap
  grow_heap_lem granted layout =
      go (page_allocator_allocate granted layout context.pages (size / page_size)) refl
        (page_allocator_allocate_lem granted layout context.pages (size / page_size) v.valid)
    where
      go :
          (r : Res ℕ × PageAllocator)
          → page_allocator_allocate granted layout context.pages (size / page_size) ≡ r
          → Allocated context.pages (size / page_size) r
          → GrowOutcome context requested (map_fresh context requested r)
      go (ok pa, p) e a =
          mapped_fresh-GrowOutcome granted layout pa p e (vmm_map context.vmm gva pa size perm_rw)
            refl (vmm_map_lem context.vmm gva pa size perm_rw v.backed.valid)
      go (err code, p) e a = rw a (
          denied context context.pages requested result_out_of_memory (omega arith) v v.valid
            (λ y. refl))

-- No change of size.
same_size :
    (context : HleContext)
    → IsConsistent context
    → GrowOutcome context context.process.heap_size (some (heap_answer context))
same_size context v = (
  heap_answer context,
  refl,
  inl (record {
    consistent = record { backed = v.backed; valid = v.valid; owned = v.owned };
    fresh = λ w on. absurd (ground arith);
    pages = λ w off. refl;
    zeroed = λ x low high. absurd (omega arith);
    kept = λ x ne. refl;
    frame = refl;
  }),
)

-- `hle_svc_set_heap_size` never aborts where it does not shrink the heap. It either brings the heap
-- to the requested size: the new pages were unmapped, are open and read as zero, every other page is
-- as it was, and so is every byte behind the pages that were mapped before, so that no reused
-- physical page is one that the guest still sees; or X0 has an error, the page tables and memory are
-- as they were, and exactly the same bytes are free, after the rollback too. The page tables, the
-- allocator and the ownership of mapped pages stay consistent.
pub hle_svc_set_heap_size_lem :
    (granted : ℕ → ℕ → Bool) (layout : MemoryLayout) (context : HleContext)
    → IsConsistent context
    → context.process.heap_size ≤ context.x 1
    → GrowOutcome context (context.x 1) (hle_svc_set_heap_size granted layout context)
unfolding hle_svc_set_heap_size
hle_svc_set_heap_size_lem granted layout context v le =
    let requested = context.x 1 in
    let refuse = λ (code : ℕ) (pos : 0 < code).
      denied context context.pages requested code pos v v.valid (λ y. refl) in
    elim (Bool-cases (requested % heap_size_granule == 0)) [
      | inr e ↦ rw e (refuse result_invalid_size (omega arith))
      | inl e ↦ elim (Bool-cases (ltb context.process.address_space.heap.size requested)) [
        | inl f ↦ rw (e, f) (refuse result_invalid_memory_range (omega arith))
        | inr f ↦ elim (Bool-cases (ltb context.process.heap_size requested)) [
          | inl g ↦ rw (e, f, g) (grow_heap_lem context v requested (ground arith) granted layout)
          | inr g ↦
              let same : context.process.heap_size ≡ requested = ground arith in
              let no_shrink : ltb requested context.process.heap_size ≡ false = ground arith in
              rw (e, f, g, no_shrink)
                (subst (λ n. GrowOutcome context n (some (heap_answer context))) same
                  (same_size context v))
        ]
      ]
    ]
