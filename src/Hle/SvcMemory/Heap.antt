-- ===== src/Hle/SvcMemory/Heap.antt =====
-- The fresh pages of `hle_svc_set_heap_size` (core/hle/kernel/svc_memory.c): they are open, adjacent,
-- zeroed, and in nobody else's use.
use voland.Base.{ℕ, zero, suc, ◌+◌, ◌-◌, ◌*◌, ◌/◌, ◌%◌, ◌≤◌, ◌<◌, ◌≡◌, ◌≢◌, arith, true}
use voland.Base.{leb, ltb, ◌&&◌, if◌then◌else◌, bit_and_three}
use voland.Base.{replicate, update}
use voland.Result.{Res, ok, err, memory_fault, not_contiguous, invalid_argument}
use voland.PageAllocator.{PageAllocator}
use voland.PageAllocator.Pages.{free_at}
use voland.Vmm.{Context, page_size, pte_load, make_pte, perm_rw}
use voland.Vmm.Access.{vmm_guest_to_host, write_bytes}
use voland.Vmm.MapLoop.{in_range, MappedPages}
use voland.Vmm.Mapping.{MapArguments}
use voland.Vmm.Unmapping.{IsBacked}
use voland.Vmm.Pte.{make_pte_fields}
use voland.Vmm.Translate.{AllAccessible, host_of}
use voland.Vmm.Pointers.{HostPointer, vmm_guest_to_host_lem}

-- `memset` to zero.
pub write_bytes-zero :
    (n : ℕ) (memory : ℕ → ℕ) (host y : ℕ)
    → write_bytes memory host (replicate n 0) y
      ≡ (if leb host y && ltb y (host + n) then 0 else memory y)
unfolding write_bytes
write_bytes-zero zero memory host y = ground arith
write_bytes-zero (suc n) memory host y =
    ground (arith, write_bytes-zero n (update memory host 0) (host + 1) y)

-- No mapped page is free in the allocator.
abbrev pub IsOwned : Context → PageAllocator → Type 0
IsOwned vmm pages =
    (w o : ℕ)
    → pte_load vmm w ≢ 0
    → o < page_size
    → free_at pages (pte_load vmm w / page_size * page_size + o - vmm.guest_ram_base) ≡ 0

module _ {vmm c : Context} (v : IsBacked vmm) {gva pa size : ℕ}
    (m : MapArguments vmm gva pa size perm_rw)
    (got : MappedPages vmm c (gva / page_size) pa perm_rw (size / page_size)) where
  -- A fresh page has its place in guest RAM, and is open.
  pub fresh_page :
      (w : ℕ)
      → gva / page_size ≤ w
      → w < gva / page_size + size / page_size
      → (pte_load c w / page_size * page_size
          ≡ vmm.guest_ram_base + pa + (w - gva / page_size) * page_size)
        × (pte_load c w % page_size ≡ perm_rw)
        × (pte_load c w ≢ 0)
  unfolding make_pte
  fresh_page w low high =
      let on : in_range (gva / page_size) (size / page_size) w ≡ true = ground arith in
      let at = pa + (w - gva / page_size) * page_size in
      let here = rw on at (got.pages w) in
      let f =
        make_pte_fields vmm at perm_rw v.valid.sound.ram (omega (arith, m)) (omega (arith, m)) in
      (omega (arith, here, f), omega (arith, here), omega (arith, here, f))

  fresh-AllAccessible : AllAccessible c perm_rw gva (gva + size)
  fresh-AllAccessible x low high =
      let p = fresh_page (x / page_size) (omega arith) (omega (arith, m)) in
      record {
        in_space = omega (arith, m);
        mapped = p.2;
        permitted = omega (arith, bit_and_three (pte_load c (x / page_size)), p);
      }

  pub fresh-host_of :
      (x : ℕ) → gva ≤ x → x < gva + size → host_of c x ≡ vmm.guest_ram_base + pa + (x - gva)
  unfolding host_of
  fresh-host_of x low high =
      let p = fresh_page (x / page_size) (omega arith) (omega (arith, m)) in omega (arith, p, m)

  -- The pointer to the fresh range is granted.
  pub fresh-pointer : vmm_guest_to_host c gva size perm_rw ≡ (ok (vmm.guest_ram_base + pa), c)
  fresh-pointer =
      go (vmm_guest_to_host c gva size perm_rw) (vmm_guest_to_host_lem c gva size perm_rw)
    where
      start : host_of c gva ≡ vmm.guest_ram_base + pa
      start = omega (arith, fresh-host_of gva (omega arith) (omega (arith, m)))

      go :
          (r : Res ℕ × Context)
          → HostPointer c perm_rw gva size r
          → r ≡ (ok (vmm.guest_ram_base + pa), c)
      go (ok host, d) (pos, known, same, all, adjacent) =
          let here = adjacent gva (omega arith) (omega arith) in
          let e : host ≡ vmm.guest_ram_base + pa = omega (arith, here, start) in rw (same, e)
      go (err invalid_argument, d) (same, off) =
          absurd (off (omega (arith, m), (omega arith, omega arith)))
      go (err memory_fault, d) (same, off) = absurd (off fresh-AllAccessible)
      go (err not_contiguous, d) (same, off) =
          absurd (off (λ x low high. omega (arith, fresh-host_of x low high, start)))
      go (err _, d) p = absurd p
