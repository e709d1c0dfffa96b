-- ===== src/AddressSpace/Placement.antt =====
-- What `address_space_init` and `address_region_contains` (core/hle/kernel/address_space.c) promise.
use voland.Base.{ℕ, ◌+◌, ◌-◌, ◌/◌, ◌%◌, ◌^◌, ◌≤◌, ◌<◌, ◌≡◌, ◌≢◌, refl, arith, true, ◌||◌}
use voland.Base.{ltb, ◌==◌, inl, inr, Bool-cases, ◌↔◌}
use native.Mathlib.Nat.{mod-lt}
use voland.Result.{Res, ok, err, invalid_argument, not_implemented}
use voland.AddressSpace.{
  NpdmAddressSpace, bits_64_39, AddressRegion, AddressSpace, space_start, space_end, align_up_page,
  mix_seed, aslr_granule, aslr_offset, place_around, address_space_init, address_region_contains,
  span, fixed_regions, alias_size, heap_size, stack_size, tls_io_size,
}

abbrev pub region_end : AddressRegion → ℕ
region_end r = r.base + r.size

-- A layout of the 39-bit space for `code_size` bytes of code.
pub record IsLayout (code_size : ℕ) (s : AddressSpace) : Type 0 where
  pub type : s.type ≡ bits_64_39
  pub code_holds : code_size ≤ s.code.size
  pub code_tight : s.code.size < code_size + 4096
  pub pages : (s.code.base % 4096 ≡ 0) × (s.code.size % 4096 ≡ 0)
  pub granular : (s.code.base - space_start) % aslr_granule ≡ 0
  pub low : space_start ≤ s.code.base
  pub in_order :
      (region_end s.code ≤ s.alias.base)
      × (region_end s.alias ≤ s.heap.base)
      × (region_end s.heap ≤ s.stack.base)
      × (region_end s.stack ≤ s.tls_io.base)
  pub high : region_end s.tls_io ≤ space_end
  pub sizes :
      (s.alias.size ≡ alias_size)
      × (s.heap.size ≡ heap_size)
      × (s.stack.size ≡ stack_size)
      × (s.tls_io.size ≡ tls_io_size)

-- The code fits beside the four fixed regions.
abbrev pub CodeFits : ℕ → Type 0
CodeFits code_size = (0 < code_size) × (code_size + fixed_regions ≤ span)

aslr_offset_bounds :
    (slack seed : ℕ)
    → (aslr_offset slack seed ≤ slack) × (aslr_offset slack seed % aslr_granule ≡ 0)
unfolding aslr_offset
aslr_offset_bounds slack seed =
    let granules = slack / aslr_granule in
    let m = mix_seed seed % (granules + 1) in
    let bound : m < granules + 1 = mod-lt (mix_seed seed) (omega arith) in ground (arith, bound)

-- What `address_space_init` may give.
abbrev pub Initialised : NpdmAddressSpace → ℕ → Res AddressSpace → Type 0
Initialised type code_size (ok s) = CodeFits code_size × (type ≡ bits_64_39) × IsLayout code_size s
Initialised type code_size (err invalid_argument) = ¬ CodeFits code_size
Initialised type code_size (err not_implemented) = type ≢ bits_64_39
Initialised type code_size (err code) = ⊥

place_around_lem :
    (code_size seed : ℕ)
    → 0 < code_size
    → code_size < 2 ^ 64
    → Initialised bits_64_39 code_size (place_around bits_64_39 code_size seed)
unfolding place_around align_up_page
place_around_lem code_size seed pos word =
    let bytes = align_up_page code_size in
    let slack = span - fixed_regions - bytes in
    let offset = aslr_offset_bounds slack seed in
    elim (Bool-cases (ltb bytes code_size || ltb (span - fixed_regions) bytes)) [
      | inl e ↦ rw e (λ fits. ground arith)
      | inr e ↦
          let room : (code_size ≤ bytes) × (bytes ≤ span - fixed_regions) = ground arith in
          rw e (
            (pos, omega (arith, room)),
            refl,
            record {
              type = refl;
              code_holds = room.0;
              code_tight = omega (arith, room);
              pages = (omega (arith, offset), omega arith);
              granular = omega (arith, offset);
              low = omega arith;
              in_order = (omega arith, omega arith, omega arith, omega arith);
              high = omega (arith, offset, room);
              sizes = (refl, refl, refl, refl);
            },
          )
    ]

-- `address_space_init` succeeds exactly for the 39-bit space and code, not empty, that fits beside
-- the fixed regions, whatever the seed. The regions then lie in the documented order without
-- overlap inside the space, the code region holds the code in whole pages, and the shift is a
-- multiple of the granule.
pub address_space_init_lem :
    (type : NpdmAddressSpace) (code_size seed : ℕ)
    → code_size < 2 ^ 64
    → Initialised type code_size (address_space_init type code_size seed)
unfolding address_space_init
address_space_init_lem type code_size seed word = elim (Bool-cases (code_size == 0)) [
  | inl e ↦ rw e (λ fits. ground arith)
  | inr e ↦ rw e (go type (ground arith))
]
  where
    go :
        (type : NpdmAddressSpace)
        → 0 < code_size
        → Initialised type code_size (elim type [
          | bits_64_39 ↦ place_around bits_64_39 code_size seed
          | _ ↦ err not_implemented
        ])
    go bits_64_39 pos = place_around_lem code_size seed pos word
    go _ pos = λ e. cc

-- `address_region_contains` decides whether the range lies in the region, also where its end would
-- wrap.
pub address_region_contains_iff :
    (region : AddressRegion) (gva size : ℕ)
    → (address_region_contains region gva size ≡ true)
      ↔ ((region.base ≤ gva) × (gva + size ≤ region.base + region.size))
unfolding address_region_contains
address_region_contains_iff region gva size = ground arith
