-- ===== src/Tls/Calls.antt =====
-- tls_allocate and tls_free of core/hle/kernel/tls.c against the set of blocks in use.
use voland.Base.{ℕ, ◌+◌, ◌-◌, ◌*◌, ◌/◌, ◌%◌, ◌^◌, ◌≤◌, ◌<◌, ◌≡◌, refl, arith, sym, ap, ◌∙◌}
use voland.Base.{Bool, true, false, not, ◌||◌, ◌&&◌, ltb, leb, ◌==◌, ◌>>=◌}
use voland.Base.{Option, none, some, [], ◌∷◌, length, length-append, inl, inr, Bool-cases}
use voland.Result.{Res, ok, err, invalid_argument}
use voland.Layout.{MemoryLayout}
use voland.AddressSpace.{address_region_contains}
use voland.AddressSpace.Placement.{address_region_contains_iff}
use voland.PageAllocator.{PageAllocator, page_allocator_allocate}
use voland.Vmm.{Context, page_size, perm_rw}
use voland.Vmm.Map.{vmm_map}
use voland.Vmm.Inv.{IsValid}
use voland.Vmm.Mapping.{Mapped, vmm_map_lem}
use voland.Tls.{
  TlsAllocator, is_used, block_bytes, page_at, pick_from, hand_out, tls_is_allocated, tls_free,
  new_page_mapped, new_page_allocated, map_new_page, on_new_page, tls_allocate,
}
use voland.Tls.Blocks.{tls_is_allocated_lem, locate_block_lem}
use voland.Tls.Changes.{
  IsPlaced, address_of, unmark-IsPlaced, unmark_lem, with_page, with_page-IsPlaced, with_page_lem,
  new_block-clear,
}
use voland.Tls.Allocation.{
  Served, Picked, pick_from_lem, hand_out_lem, other_fields, other_fields-IsPlaced,
}

-- Serving from an allocator with the same region and blocks.
transfer-Served :
    (a c : TlsAllocator) (r : Res ℕ × TlsAllocator)
    → a.region ≡ c.region
    → ((x : ℕ) → tls_is_allocated c x ≡ tls_is_allocated a x)
    → Served c r
    → Served a r
transfer-Served a c (ok gva, d) region same (at, clear, moved, v) =
    (rw region at, sym (same gva) ∙ clear, λ x. moved x ∙ ap (λ q. x == gva || q) (same x), v)
transfer-Served a c (err code, d) region same (kept, v) = (λ x. kept x ∙ same x, v)

-- What `tls_allocate` may answer: it always answers.
abbrev pub AllocateOutcome : TlsAllocator → Option (Res ℕ × TlsAllocator) → Type 0
AllocateOutcome a none = ⊥
AllocateOutcome a (some r) = Served a r

module _ (granted : ℕ → ℕ → Bool) (layout : MemoryLayout) where
  new_page_mapped_lem :
      (a : TlsAllocator) (r : Res (Unit {0}) × Context)
      → IsPlaced a
      → length a.mapped < 64
      → (length a.mapped + 1) * page_size ≤ a.region.size
      → Served a (on_new_page (new_page_mapped a (a.region.base + length a.mapped * page_size) r))
  new_page_mapped_lem a (err code, vmm) v few fits =
      (λ x. other_fields a vmm a.pages x, other_fields-IsPlaced a vmm a.pages v)
  new_page_mapped_lem a (ok done, vmm) v few fits =
      let c : TlsAllocator = record a { vmm = vmm } in
      let vc = other_fields-IsPlaced a vmm a.pages v in
      let w = with_page-IsPlaced c vc few fits in
      let long =
        length-append a.mapped
          (record { gva = a.region.base + length a.mapped * page_size; used_mask = 0 } ∷ []) in
      let last : (length (with_page c).mapped - 1) * 8 + 0 ≡ length a.mapped * 8 =
        omega (arith, long) in
      transfer-Served a (with_page c) (hand_out (with_page c) (length (with_page c).mapped - 1) 0)
        refl (λ x. with_page_lem c x vc w ∙ other_fields a vmm a.pages x)
        (hand_out_lem (with_page c) (length (with_page c).mapped - 1) 0 w (omega (arith, long))
          (omega arith)
          (rw last (new_block-clear a.mapped (a.region.base + length a.mapped * page_size))))

  new_page_allocated_lem :
      (a : TlsAllocator) (r : Res ℕ × PageAllocator)
      → IsPlaced a
      → IsValid a.vmm
      → length a.mapped < 64
      → (length a.mapped + 1) * page_size ≤ a.region.size
      → AllocateOutcome a (
          new_page_allocated a (a.region.base + length a.mapped * page_size) r >>= λ q.
          some (on_new_page q))
  new_page_allocated_lem a (err code, pages) v b few fits =
      (λ x. other_fields a a.vmm pages x, other_fields-IsPlaced a a.vmm pages v)
  new_page_allocated_lem a (ok pa, pages) v b few fits =
      go (vmm_map a.vmm (a.region.base + length a.mapped * page_size) pa page_size perm_rw)
        (vmm_map_lem a.vmm (a.region.base + length a.mapped * page_size) pa page_size perm_rw b)
    where
      gva : ℕ
      gva = a.region.base + length a.mapped * page_size

      c : TlsAllocator
      c = record a { pages = pages }

      go :
          (r : Option (Res (Unit {0}) × Context))
          → Mapped a.vmm gva pa page_size perm_rw r
          → AllocateOutcome a
              ((r >>= λ q. some (new_page_mapped c gva q)) >>= λ q. some (on_new_page q))
      go none m = m
      go (some r) m =
          transfer-Served a c (on_new_page (new_page_mapped c gva r)) refl
            (λ x. other_fields a a.vmm pages x)
            (new_page_mapped_lem c r (other_fields-IsPlaced a a.vmm pages v) few fits)

  map_new_page_lem :
      (a : TlsAllocator)
      → IsPlaced a
      → IsValid a.vmm
      → AllocateOutcome a (map_new_page granted layout a >>= λ q. some (on_new_page q))
  unfolding map_new_page
  map_new_page_lem a v b =
      let gva = a.region.base + length a.mapped * page_size in
      let at : gva % 2 ^ 64 ≡ gva = ground (arith, v.room, v.few) in
      elim (Bool-cases (leb 64 (length a.mapped))) [
        | inl full ↦ rw full (λ x. refl, v)
        | inr few ↦ elim (Bool-cases (address_region_contains a.region gva page_size)) [
          | inr out ↦ rw (few, at, out) (λ x. refl, v)
          | inl inside ↦
              let fits = (address_region_contains_iff a.region gva page_size).0 inside in
              rw (few, at, inside)
                (new_page_allocated_lem a (page_allocator_allocate granted layout a.pages 1) v b
                  (ground arith) (omega (arith, fits)))
        ]
      ]

  -- `tls_allocate`, on a region placed as it promises and the MMU's invariant, returns; it gives the
  -- address of a whole block inside the region that was not allocated, and from then on exactly that
  -- block and those allocated before are; or it fails, and those allocated before are. The placement
  -- of the pages is kept.
  pub tls_allocate_lem :
      (a : TlsAllocator)
      → IsPlaced a
      → IsValid a.vmm
      → AllocateOutcome a (tls_allocate granted layout a)
  unfolding tls_allocate
  tls_allocate_lem a v b = go (pick_from a.mapped 0) (pick_from_lem a.mapped 0)
    where
      go :
          (r : Option (ℕ × ℕ))
          → Picked a.mapped 0 r
          → AllocateOutcome a (elim r [
            | none ↦ map_new_page granted layout a >>= λ q. some (on_new_page q)
            | some (p, b) ↦ some (hand_out a p b)
          ])
      go none k = map_new_page_lem a v b
      go (some (p, b)) (low, lt, small, clear) =
          let off : p - 0 ≡ p = omega arith in
          let lt' : p < length a.mapped = omega (arith, lt) in
          let page : (p * 8 + b) / 8 ≡ p = omega (arith, small) in
          let block : (p * 8 + b) % 8 ≡ b = omega (arith, small) in
          hand_out_lem a p b v lt' small (rw (page, block, rw off at clear) (ground arith))

-- What freeing an address may give.
abbrev pub FreeOutcome : TlsAllocator → ℕ → Res (Unit {0}) × TlsAllocator → Type 0
FreeOutcome a gva (ok done, d) =
    (tls_is_allocated a gva ≡ true)
    × ((x : ℕ) → tls_is_allocated d x ≡ (not (x == gva) && tls_is_allocated a x))
    × IsPlaced d
FreeOutcome a gva (err code, d) =
    (code ≡ invalid_argument) × (d ≡ a) × (tls_is_allocated a gva ≡ false)

-- `tls_free` succeeds exactly on the address of a block that is allocated, and from then on that one
-- is not and every other is as before; otherwise it fails with RESULT_INVALID_ARGUMENT and changes
-- nothing. The placement of the pages is kept.
pub tls_free_lem : (a : TlsAllocator) (gva : ℕ) → IsPlaced a → FreeOutcome a gva (tls_free a gva)
unfolding tls_free
tls_free_lem a gva v =
    let base = a.region.base in
    let n = (gva - base) / block_bytes in
    let told = tls_is_allocated_lem a gva v.pages v.aligned in
    rw (FreeOutcome, locate_block_lem a gva v.pages v.aligned)
      (elim (Bool-cases
        (gva % block_bytes == 0 && (leb base gva && ltb (n / 8) (length a.mapped)))) [
          | inr off ↦ rw off (refl, refl, told ∙ ground arith)
          | inl here ↦ elim (Bool-cases (is_used (page_at a (n / 8)).used_mask (n % 8))) [
            | inr clear ↦ rw (here, clear) (refl, refl, told ∙ ground arith)
            | inl used ↦
                let at : address_of a (n / 8) (n % 8) ≡ gva = ground arith in
                rw (here, used)
                  (
                    told ∙ ground arith,
                    λ x. unmark_lem a (n / 8) (n % 8) x v (ground arith) (omega arith) used ∙ rw at,
                    unmark-IsPlaced a (n / 8) (n % 8) v,
                  )
          ]
        ])
