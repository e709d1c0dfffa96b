-- ===== src/AddressSpace.antt =====
-- core/hle/kernel/address_space.h and address_space.c: where the regions of a process's address
-- space lie.
use voland.Base.{ℕ, zero, suc, ◌+◌, ◌-◌, ◌*◌, ◌/◌, ◌%◌, ◌^◌, Bool, true, false, not, ◌||◌}
use voland.Base.{ltb, leb, ◌==◌, if◌then◌else◌, bit_xor}
use voland.Result.{Res, ok, err, invalid_argument, not_implemented}
pub mod Placement
mod Tests

-- `NPDM_Address_Space` (core/hle/loader/npdm.h)
pub data NpdmAddressSpace : Type 0 where
  bits_32 bits_64_36 bits_32_no_reserved bits_64_39 : NpdmAddressSpace

abbrev pub space_start : ℕ
space_start = 0x8000000

abbrev pub space_end : ℕ
space_end = 2 ^ 39

abbrev pub alias_size : ℕ
alias_size = 0x1000000000

abbrev pub heap_size : ℕ
heap_size = 0x180000000

abbrev pub stack_size : ℕ
stack_size = 0x80000000

abbrev pub tls_io_size : ℕ
tls_io_size = 0x1000000000

-- ADDRESS_SPACE_ASLR_GRANULE
abbrev pub aslr_granule : ℕ
aslr_granule = 0x200000

-- `Address_Region`
pub record AddressRegion : Type 0 where
  pub base : ℕ
  pub size : ℕ

-- `Address_Space`
pub record AddressSpace : Type 0 where
  pub type : NpdmAddressSpace
  pub aslr : AddressRegion
  pub code : AddressRegion
  pub alias : AddressRegion
  pub heap : AddressRegion
  pub stack : AddressRegion
  pub tls_io : AddressRegion

-- `align_up_page`
unfoldable pub align_up_page : ℕ → ℕ
align_up_page value = (value + 4095) % 2 ^ 64 / 4096 * 4096

-- `mix_seed`
pub mix_seed : ℕ → ℕ
mix_seed seed =
    let a = bit_xor seed (seed * 2 ^ 13 % 2 ^ 64) in
    let b = bit_xor a (a / 2 ^ 7) in bit_xor b (b * 2 ^ 17 % 2 ^ 64)

-- `fixed_regions` and `span`, the constants of `address_space_init`.
abbrev pub span : ℕ
span = space_end - space_start

abbrev pub fixed_regions : ℕ
fixed_regions = alias_size + heap_size + stack_size + tls_io_size

-- `aslr_offset`: whole granules of the slack; no seed, no shift.
unfoldable pub aslr_offset : ℕ → ℕ → ℕ
aslr_offset slack seed =
    let granules = slack / aslr_granule in
    if seed == 0
    then 0
    else if granules == 0
    then 0
    else mix_seed seed % (granules + 1) * aslr_granule

-- The regions one behind the other from `base` on.
abbrev pub place : NpdmAddressSpace → ℕ → ℕ → AddressSpace
place type base code_bytes =
    let alias_base = base + code_bytes in
    let heap_base = alias_base + alias_size in
    let stack_base = heap_base + heap_size in
    let tls_io_base = stack_base + stack_size in
    record {
      type = type;
      aslr = record { base = space_start; size = span };
      code = record { base = base; size = code_bytes };
      alias = record { base = alias_base; size = alias_size };
      heap = record { base = heap_base; size = heap_size };
      stack = record { base = stack_base; size = stack_size };
      tls_io = record { base = tls_io_base; size = tls_io_size };
    }

-- The part of `address_space_init` behind the checks of its arguments.
unfoldable pub place_around : NpdmAddressSpace → ℕ → ℕ → Res AddressSpace
place_around type code_size aslr_seed =
    let code_bytes = align_up_page code_size in
    if ltb code_bytes code_size || ltb (span - fixed_regions) code_bytes
    then err invalid_argument
    else let slack = span - fixed_regions - code_bytes in
      ok (place type (space_start + aslr_offset slack aslr_seed) code_bytes)

-- `address_space_init`
unfoldable pub address_space_init : NpdmAddressSpace → ℕ → ℕ → Res AddressSpace
address_space_init type code_size aslr_seed =
    if code_size == 0 then err invalid_argument else elim type [
      | bits_64_39 ↦ place_around bits_64_39 code_size aslr_seed
      | _ ↦ err not_implemented
    ]

-- `address_region_contains`
unfoldable pub address_region_contains : AddressRegion → ℕ → ℕ → Bool
address_region_contains region gva size =
    if ltb gva region.base
    then false
    else let offset = gva - region.base in
      if ltb region.size offset then false else leb size (region.size - offset)
