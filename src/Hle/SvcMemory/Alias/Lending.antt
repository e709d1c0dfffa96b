-- ===== src/Hle/SvcMemory/Alias/Lending.antt =====
-- `hle_svc_map_memory` of core/hle/kernel/svc_memory.c as a whole: from the pointer that
-- `vmm_guest_to_host` gives to the source's pages, and the checks in front of it.
use voland.Base.{ℕ, ◌+◌, ◌-◌, ◌*◌, ◌/◌, ◌%◌, ◌≤◌, ◌<◌, ◌≡◌, refl, arith, true, not}
use voland.Base.{◌||◌, ◌==◌, leb, inl, inr, Bool-cases, bit_and, bit_and_one}
use voland.Base.{some, length}
use voland.Result.{Res, ok, err, memory_fault, not_contiguous, invalid_argument}
use voland.Layout.{MemoryLayout}
use voland.AddressSpace.{address_region_contains}
use voland.AddressSpace.Placement.{address_region_contains_iff}
use voland.Process.{max_heap_borrows}
use voland.Vmm.{Context, page_size, pte_load, perm_r, perm_rw, is_page_aligned}
use voland.Vmm.Unmapping.{IsBacked}
use voland.Vmm.Steps.{other_fields-IsBacked, other_fields-pte_load}
use voland.Vmm.Translate.{host_of}
use voland.Vmm.Pointers.{HostPointer, vmm_guest_to_host_lem}
use voland.Vmm.Access.{vmm_guest_to_host}
use voland.Vmm.Query.{vmm_query}
use voland.Hle.{
  HleContext, answer, result_out_of_memory, result_invalid_size, result_invalid_memory_state,
  result_invalid_memory_range,
}
use voland.Hle.SvcMemory.{guest_pa_of}
use voland.Hle.SvcMemory.Alias.{hle_svc_map_memory, lend, is_vacant}
use voland.Hle.SvcMemory.Alias.Lend.{HeapPages, IsHeapPage, IsSource, LendOutcome, map_alias_lem}

-- A readable heap page is open for writing too.
open_heap_page :
    (pte : ℕ) → IsHeapPage pte → bit_and pte perm_r ≡ perm_r → pte % page_size ≡ perm_rw
open_heap_page pte (inl e) r = e
open_heap_page pte (inr e) r = absurd (omega (arith, bit_and_one pte))

module _ (layout : MemoryLayout) (context : HleContext) (v : IsBacked context.vmm)
    (same_ram : layout.guest_ram_base ≡ context.vmm.guest_ram_base) (heap : HeapPages context)
    (dst src size : ℕ) where
  -- The range lies in the heap region.
  abbrev InHeap : Type 0
  InHeap =
      (context.process.address_space.heap.base ≤ src)
      × (src + size
          ≤ context.process.address_space.heap.base + context.process.address_space.heap.size)

  pointed-IsSource :
      (host : ℕ) (c : Context)
      → InHeap
      → src % page_size ≡ 0
      → size % page_size ≡ 0
      → HostPointer context.vmm perm_r src size (ok host, c)
      → IsSource context.vmm src size (guest_pa_of layout host)
  unfolding host_of
  pointed-IsSource host c inside src_aligned size_aligned (pos, known, same, all, adjacent) =
      record {
        src_aligned = src_aligned;
        size_aligned = size_aligned;
        nonempty = pos;
        in_space = omega (arith, (all (src + size - 1) (omega arith) (omega arith)).in_space);
        open_pages = λ i lt. open_at i lt;
      }
    where
      first : (host ≡ pte_load context.vmm (src / page_size) / page_size * page_size)
      first = omega (arith, adjacent src (omega arith) (omega arith))

      open_at :
          (i : ℕ)
          → i < size / page_size
          → (pte_load context.vmm (src / page_size + i) % page_size ≡ perm_rw)
            × (pte_load context.vmm (src / page_size + i) / page_size * page_size
                ≡ context.vmm.guest_ram_base + guest_pa_of layout host + i * page_size)
      open_at i lt =
          let x = src + i * page_size in
          let at : x / page_size ≡ src / page_size + i = omega arith in
          let a = all x (omega arith) (omega arith) in
          let here = adjacent x (omega arith) (omega arith) in
          let low = all src (omega arith) (omega arith) in
          (
            open_heap_page _
                (heap (src / page_size + i) (omega (arith, inside)) (omega (arith, inside))
                  (rw at at a.mapped))
                (rw at at a.permitted),
            omega (
              arith,
              rw at at here,
              first,
              same_ram,
              v.valid.sound.ram,
              v.backed (src / page_size) low.mapped,
            ),
          )

  -- A refusal that leaves every page.
  refused :
      (c : Context) (code : ℕ)
      → 0 < code
      → IsBacked c
      → ((w : ℕ) → pte_load c w ≡ pte_load context.vmm w)
      → c.memory ≡ context.vmm.memory
      → LendOutcome context dst src size (some (answer (record context { vmm = c }) code))
  refused c code pos b pages memory = (
    _,
    refl,
    inr (record {
      code = λ z. omega (arith, z);
      backed = b;
      pages = pages;
      memory = memory;
      frame = refl;
    }),
  )

  -- What the handler does with the verdict of `vmm_guest_to_host`.
  lend-LendOutcome :
      (r : Res ℕ × Context)
      → InHeap
      → src % page_size ≡ 0
      → size % page_size ≡ 0
      → HostPointer context.vmm perm_r src size r
      → LendOutcome context dst src size (lend layout context dst src size r)
  lend-LendOutcome (ok host, c) inside a b p =
      let s = pointed-IsSource host c inside a b p in
      rw (p.2) (map_alias_lem context v dst src size (guest_pa_of layout host) s)
  lend-LendOutcome (err invalid_argument, c) inside a b p =
      rw (p.0) (refused context.vmm _ (omega arith) v (λ w. refl) refl)
  lend-LendOutcome (err not_contiguous, c) inside a b p =
      rw (p.0) (refused context.vmm _ (omega arith) v (λ w. refl) refl)
  lend-LendOutcome (err memory_fault, c) inside a b p = rw (p.0) (
      refused (record context.vmm { last_fault = c.last_fault }) _ (omega arith)
        (other_fields-IsBacked c.last_fault context.vmm.memory v)
        (other_fields-pte_load context.vmm c.last_fault context.vmm.memory) refl)
  lend-LendOutcome (err _, c) inside a b p = absurd p

-- `hle_svc_map_memory` never aborts, whatever the guest's registers. It either lends the range: the
-- source's pages stand behind the destination, open for reading and writing, and are closed at the
-- source, the borrow is recorded, and no other page and no byte of memory changes; or X0 has an
-- error, and every page, the borrows and memory are as they were, after the rollback too. The
-- invariant holds afterwards. Stated for page tables in the invariant, and for a heap region whose
-- mapped pages are open or lent.
pub hle_svc_map_memory_lem :
    (layout : MemoryLayout) (context : HleContext)
    → IsBacked context.vmm
    → layout.guest_ram_base ≡ context.vmm.guest_ram_base
    → HeapPages context
    → LendOutcome context
        (context.x 0)
        (context.x 1)
        (context.x 2)
        (hle_svc_map_memory layout context)
unfolding hle_svc_map_memory
hle_svc_map_memory_lem layout context v same_ram heap =
    let dst = context.x 0 in
    let src = context.x 1 in
    let size = context.x 2 in
    let refuse = λ (code : ℕ) (pos : 0 < code).
      refused layout context v same_ram heap dst src size context.vmm code pos v (λ w. refl) refl in
    let bad =
      size == 0
      || not (is_page_aligned size)
      || not (is_page_aligned dst)
      || not (is_page_aligned src) in
    let outside =
      not (address_region_contains context.process.address_space.stack dst size)
      || not (address_region_contains context.process.address_space.heap src size) in
    elim (Bool-cases bad) [
      | inl e ↦ rw e (refuse result_invalid_size (omega arith))
      | inr e ↦ elim (Bool-cases outside) [
        | inl f ↦ rw (e, f) (refuse result_invalid_memory_range (omega arith))
        | inr f ↦ elim (Bool-cases (leb max_heap_borrows (length context.process.heap_borrows))) [
          | inl g ↦ rw (e, f, g) (refuse result_out_of_memory (omega arith))
          | inr g ↦ elim (Bool-cases (is_vacant (vmm_query context.vmm dst) dst size)) [
            | inr h ↦ rw (e, f, g, h) (refuse result_invalid_memory_state (omega arith))
            | inl h ↦
                let inside : address_region_contains context.process.address_space.heap src size
                    ≡ true =
                  ground arith in
                rw (e, f, g, h)
                  (lend-LendOutcome layout context v same_ram heap dst src size
                    (vmm_guest_to_host context.vmm src size perm_r)
                    ((address_region_contains_iff context.process.address_space.heap src size).0
                      inside)
                    (ground arith) (ground arith)
                    (vmm_guest_to_host_lem context.vmm src size perm_r))
          ]
        ]
      ]
    ]
