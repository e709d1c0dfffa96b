-- ===== src/Loader/Npdm/Capabilities.antt =====
-- core/hle/loader/npdm.c: the kernel capability descriptors. The three words of `svc_mask` are a
-- function of the word's index.
use voland.Base.{ℕ, zero, suc, ◌+◌, ◌*◌, ◌/◌, ◌%◌, ◌^◌, Bool, true, false, not, ◌||◌, bit_or}
use voland.Base.{ltb, leb, ◌==◌, if◌then◌else◌, update}
use voland.Result.{Res, ok, err, invalid_argument}
use voland.Loader.ByteSource.{byte_source_le32}

-- NPDM_SVC_COUNT, NPDM_MAX_CAPABILITY_COUNT, NPDM_CAP_PADDING, NPDM_CAP_SVC_MASK_BITS
abbrev pub svc_count : ℕ
svc_count = 0xC0

abbrev pub max_capability_count : ℕ
max_capability_count = 0x100

abbrev pub cap_padding : ℕ
cap_padding = 0xFFFFFFFF

abbrev pub svc_mask_bits : ℕ
svc_mask_bits = 24

-- `NPDM_Kernel_Capabilities`
pub record KernelCapabilities : Type 0 where
  pub has_thread_info : Bool
  pub lowest_priority : ℕ
  pub highest_priority : ℕ
  pub min_core : ℕ
  pub max_core : ℕ
  pub svc_mask : ℕ → ℕ
  pub has_kernel_version : Bool
  pub kernel_version_major : ℕ
  pub kernel_version_minor : ℕ
  pub has_handle_table_size : Bool
  pub handle_table_size : ℕ
  pub has_program_type : Bool
  pub program_type : ℕ
  pub enable_debug : Bool
  pub force_debug : Bool
  pub undecoded_descriptor_count : ℕ

abbrev pub no_capabilities : KernelCapabilities
no_capabilities = record {
  has_thread_info = false;
  lowest_priority = 0;
  highest_priority = 0;
  min_core = 0;
  max_core = 0;
  svc_mask = λ _. 0;
  has_kernel_version = false;
  kernel_version_major = 0;
  kernel_version_minor = 0;
  has_handle_table_size = false;
  handle_table_size = 0;
  has_program_type = false;
  program_type = 0;
  enable_debug = false;
  force_debug = false;
  undecoded_descriptor_count = 0;
}

-- The loop of `trailing_ones`, with `left` bits still to look at.
unfoldable pub count_ones : ℕ → ℕ → ℕ → ℕ
count_ones value count zero = count
count_ones value count (suc left) =
    let more = count_ones value (count + 1) left in
    if value / 2 ^ count % 2 == 1 then more else count

-- `trailing_ones`
unfoldable pub trailing_ones : ℕ → ℕ
trailing_ones value = count_ones value 0 32

-- `apply_thread_info`
unfoldable pub apply_thread_info : ℕ → KernelCapabilities → Res KernelCapabilities
apply_thread_info descriptor caps =
    if caps.has_thread_info
    then err invalid_argument
    else let lowest = descriptor / 2 ^ 4 % 2 ^ 6 in
      let highest = descriptor / 2 ^ 10 % 2 ^ 6 in
      let min_core = descriptor / 2 ^ 16 % 2 ^ 8 in
      let max_core = descriptor / 2 ^ 24 % 2 ^ 8 in
      if ltb 63 lowest || ltb 63 highest || ltb lowest highest
      then err invalid_argument
      else if ltb 3 min_core || ltb 3 max_core || ltb max_core min_core
      then err invalid_argument
      else ok (record caps {
        has_thread_info = true;
        lowest_priority = lowest;
        highest_priority = highest;
        min_core = min_core;
        max_core = max_core;
      })

-- `caps->svc_mask[svc / 64u] |= (uint64_t)1 << (svc % 64u)`
unfoldable pub allow : (ℕ → ℕ) → ℕ → ℕ → ℕ
allow mask svc = update mask (svc / 64) (bit_or (mask (svc / 64)) (2 ^ (svc % 64)))

-- The loop of `apply_system_calls`, with `left` bits still to look at.
unfoldable pub allow_bits : ℕ → ℕ → KernelCapabilities → ℕ → ℕ → Res KernelCapabilities
allow_bits mask index caps bit zero = ok caps
allow_bits mask index caps bit (suc left) =
    let svc = index * svc_mask_bits + bit in
    let skipped = allow_bits mask index caps (bit + 1) left in
    let allowed =
      allow_bits mask index (record caps { svc_mask = allow caps.svc_mask svc }) (bit + 1) left in
    if not (mask / 2 ^ bit % 2 == 1)
    then skipped
    else if leb svc_count svc
    then err invalid_argument
    else allowed

-- `apply_system_calls`
unfoldable pub apply_system_calls : ℕ → KernelCapabilities → Res KernelCapabilities
apply_system_calls descriptor caps =
    allow_bits (descriptor / 2 ^ 5 % 2 ^ 24) (descriptor / 2 ^ 29 % 2 ^ 3) caps 0 svc_mask_bits

-- The switch of `parse_capabilities`, on the type of a descriptor.
unfoldable pub apply_descriptor : ℕ → ℕ → KernelCapabilities → Res KernelCapabilities
apply_descriptor type descriptor caps =
    if type == 3
    then apply_thread_info descriptor caps
    else if type == 4
    then apply_system_calls descriptor caps
    else if type == 6 || type == 7 || type == 10 || type == 11
    then ok (record caps { undecoded_descriptor_count = caps.undecoded_descriptor_count + 1 })
    else if type == 13
    then ok (record caps { has_program_type = true; program_type = descriptor / 2 ^ 14 % 2 ^ 3 })
    else if type == 14
    then ok (record caps {
      has_kernel_version = true;
      kernel_version_minor = descriptor / 2 ^ 15 % 2 ^ 4;
      kernel_version_major = descriptor / 2 ^ 19 % 2 ^ 13;
    })
    else if type == 15
    then ok (record caps {
      has_handle_table_size = true;
      handle_table_size = descriptor / 2 ^ 16 % 2 ^ 10;
    })
    else if type == 16
    then ok (record caps {
      enable_debug = descriptor / 2 ^ 17 % 2 == 1;
      force_debug = descriptor / 2 ^ 18 % 2 == 1;
    })
    else err invalid_argument

-- One round of the loop.
unfoldable pub apply_word : ℕ → KernelCapabilities → Res KernelCapabilities
apply_word descriptor caps =
    if descriptor == cap_padding
    then ok caps
    else apply_descriptor (trailing_ones descriptor) descriptor caps

-- The loop of `parse_capabilities`, over the descriptors from `p` on.
unfoldable pub parse_words : (ℕ → ℕ) → ℕ → KernelCapabilities → ℕ → Res KernelCapabilities
parse_words bytes p caps zero = ok caps
parse_words bytes p caps (suc n) = elim (apply_word (byte_source_le32 bytes p) caps) [
  | err code ↦ err code
  | ok after ↦ parse_words bytes (p + 4) after n
]

-- `parse_capabilities`, of the bytes from `p` on.
unfoldable pub parse_capabilities : (ℕ → ℕ) → ℕ → ℕ → Res KernelCapabilities
parse_capabilities bytes p size =
    if not (size % 4 == 0)
    then err invalid_argument
    else if ltb max_capability_count (size / 4)
    then err invalid_argument
    else parse_words bytes p no_capabilities (size / 4)
