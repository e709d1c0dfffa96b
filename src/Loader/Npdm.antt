-- ===== src/Loader/Npdm.antt =====
-- core/hle/loader/npdm.h and npdm.c: a program's metadata. This file has the data, the three
-- sections and npdm_parse; Npdm/Capabilities decodes the kernel capabilities. The file is its bytes
-- by offset with its size; a pointer into it is an offset.
use voland.Base.{ℕ, ◌+◌, ◌-◌, ◌*◌, ◌/◌, ◌%◌, ◌^◌, Bool, true, false, not, ◌||◌, ◌&&◌}
use voland.Base.{List, [], ltb, leb, ◌==◌, if◌then◌else◌}
use voland.Result.{Res, ok, err, invalid_argument}
use voland.Vmm.Access.{read_bytes}
use voland.Loader.ByteSource.{byte_source_le32, byte_source_le64}
use voland.Loader.Npdm.Capabilities.{
  KernelCapabilities, no_capabilities, parse_capabilities, svc_count,
}
pub mod Capabilities
pub mod Svcs
pub mod Checked
pub mod Parsed
mod Tests

-- The magics and sizes of npdm.h.
abbrev pub meta_magic : ℕ
meta_magic = 0x4154454D

abbrev pub acid_magic : ℕ
acid_magic = 0x44494341

abbrev pub aci0_magic : ℕ
aci0_magic = 0x30494341

abbrev pub meta_header_size : ℕ
meta_header_size = 0x80

abbrev pub acid_header_size : ℕ
acid_header_size = 0x240

abbrev pub aci0_header_size : ℕ
aci0_header_size = 0x40

abbrev pub max_file_bytes : ℕ
max_file_bytes = 0x100000

abbrev pub priority_max : ℕ
priority_max = 63

abbrev pub core_max : ℕ
core_max = 3

-- `NPDM_Blob`
pub record Blob : Type 0 where
  pub offset : ℕ
  pub size : ℕ

-- The META part of `NPDM`.
pub record Meta : Type 0 where
  pub is_64bit_instruction : Bool
  pub address_space : ℕ
  pub optimize_memory_allocation : Bool
  pub disable_device_address_space_merge : Bool
  pub enable_alias_region_extra_size : Bool
  pub main_thread_priority : ℕ
  pub main_thread_core_number : ℕ
  pub main_thread_stack_size : ℕ
  pub system_resource_size : ℕ
  pub version : ℕ
  pub name : List ℕ
  pub product_code : List ℕ

-- The ACID part.
pub record Acid : Type 0 where
  pub is_production : Bool
  pub unqualified_approval : Bool
  pub program_id_min : ℕ
  pub program_id_max : ℕ
  pub capabilities : KernelCapabilities

-- The ACI0 part.
pub record Aci0 : Type 0 where
  pub program_id : ℕ
  pub fs_access_header : Blob
  pub service_access_control : Blob
  pub capabilities : KernelCapabilities

-- `NPDM`, which `npdm_parse` fills section by section.
pub record Npdm : Type 0 where
  pub meta : Meta
  pub acid : Acid
  pub aci0 : Aci0

-- `range_fits`
unfoldable pub range_fits : ℕ → ℕ → ℕ → Bool
range_fits offset size container_size =
    leb offset container_size && leb size (container_size - offset)

-- A flag of a byte or word.
abbrev pub has_flag : ℕ → ℕ → Bool
has_flag value k = value / 2 ^ k % 2 == 1

-- `parse_meta`
unfoldable pub parse_meta : (ℕ → ℕ) → Res Meta
parse_meta bytes =
    if not (byte_source_le32 bytes 0x00 == meta_magic)
    then err invalid_argument
    else let flags = bytes 0x0C in
      let address_space = flags / 2 ^ 1 % 8 in
      if ltb 3 address_space
      then err invalid_argument
      else if ltb priority_max (bytes 0x0E)
      then err invalid_argument
      else if ltb core_max (bytes 0x0F)
      then err invalid_argument
      else let stack_size = byte_source_le32 bytes 0x1C in
        if stack_size == 0 || not (stack_size % 0x1000 == 0)
        then err invalid_argument
        else ok (record {
          is_64bit_instruction = has_flag flags 0;
          address_space = address_space;
          optimize_memory_allocation = has_flag flags 4;
          disable_device_address_space_merge = has_flag flags 5;
          enable_alias_region_extra_size = has_flag flags 6;
          main_thread_priority = bytes 0x0E;
          main_thread_core_number = bytes 0x0F;
          main_thread_stack_size = stack_size;
          system_resource_size = byte_source_le32 bytes 0x14;
          version = byte_source_le32 bytes 0x18;
          name = read_bytes bytes 0x20 0x10;
          product_code = read_bytes bytes 0x30 0x10;
        })

-- `parse_acid`, of the section at `acid`.
unfoldable pub parse_acid : (ℕ → ℕ) → ℕ → ℕ → Res Acid
parse_acid bytes acid acid_size =
    if not (byte_source_le32 bytes (acid + 0x200) == acid_magic)
    then err invalid_argument
    else let flags = byte_source_le32 bytes (acid + 0x20C) in
      let caps_offset = byte_source_le32 bytes (acid + 0x230) in
      let caps_size = byte_source_le32 bytes (acid + 0x234) in
      if not (range_fits caps_offset caps_size acid_size)
      then err invalid_argument
      else elim (parse_capabilities bytes (acid + caps_offset) caps_size) [
        | err code ↦ err code
        | ok caps ↦ ok (record {
          is_production = has_flag flags 0;
          unqualified_approval = has_flag flags 1;
          program_id_min = byte_source_le64 bytes (acid + 0x210);
          program_id_max = byte_source_le64 bytes (acid + 0x218);
          capabilities = caps;
        })
      ]

-- `parse_aci0`, of the section at `aci0`, which is its offset in the file too.
unfoldable pub parse_aci0 : (ℕ → ℕ) → ℕ → ℕ → Res Aci0
parse_aci0 bytes aci0 aci0_size =
    if not (byte_source_le32 bytes aci0 == aci0_magic)
    then err invalid_argument
    else let fs_offset = byte_source_le32 bytes (aci0 + 0x20) in
      let fs_size = byte_source_le32 bytes (aci0 + 0x24) in
      let sac_offset = byte_source_le32 bytes (aci0 + 0x28) in
      let sac_size = byte_source_le32 bytes (aci0 + 0x2C) in
      let caps_offset = byte_source_le32 bytes (aci0 + 0x30) in
      let caps_size = byte_source_le32 bytes (aci0 + 0x34) in
      if not (range_fits fs_offset fs_size aci0_size)
        || not (range_fits sac_offset sac_size aci0_size)
        || not (range_fits caps_offset caps_size aci0_size)
      then err invalid_argument
      else elim (parse_capabilities bytes (aci0 + caps_offset) caps_size) [
        | err code ↦ err code
        | ok caps ↦ ok (record {
          program_id = byte_source_le64 bytes (aci0 + 0x10);
          fs_access_header = record { offset = (aci0 + fs_offset) % 2 ^ 32; size = fs_size };
          service_access_control = record {
            offset = (aci0 + sac_offset) % 2 ^ 32;
            size = sac_size;
          };
          capabilities = caps;
        })
      ]

-- The end of `npdm_parse`: the program id lies in the ACID's range.
abbrev pub checked_id : Npdm → Res Npdm
checked_id npdm =
    if ltb npdm.aci0.program_id npdm.acid.program_id_min
      || ltb npdm.acid.program_id_max npdm.aci0.program_id
    then err invalid_argument
    else ok npdm

-- The two sections behind META, whose ranges have been checked.
abbrev pub parse_sections : (ℕ → ℕ) → Meta → ℕ → ℕ → ℕ → ℕ → Res Npdm
parse_sections bytes meta acid acid_size aci0 aci0_size = elim (parse_acid bytes acid acid_size) [
  | err code ↦ err code
  | ok a ↦ elim (parse_aci0 bytes aci0 aci0_size) [
    | err code ↦ err code
    | ok b ↦ checked_id (record { meta = meta; acid = a; aci0 = b })
  ]
]

-- `npdm_parse`
unfoldable pub npdm_parse : (ℕ → ℕ) → ℕ → Res Npdm
npdm_parse bytes size =
    if ltb size meta_header_size || ltb max_file_bytes size
    then err invalid_argument
    else elim (parse_meta bytes) [
      | err code ↦ err code
      | ok meta ↦
          let aci0 = byte_source_le32 bytes 0x70 in
          let aci0_size = byte_source_le32 bytes 0x74 in
          let acid = byte_source_le32 bytes 0x78 in
          let acid_size = byte_source_le32 bytes 0x7C in
          if not (range_fits acid acid_size size) || ltb acid_size acid_header_size
          then err invalid_argument
          else if not (range_fits aci0 aci0_size size) || ltb aci0_size aci0_header_size
          then err invalid_argument
          else parse_sections bytes meta acid acid_size aci0 aci0_size
    ]

-- `npdm_svc_allowed`
unfoldable pub npdm_svc_allowed : Npdm → ℕ → Bool
npdm_svc_allowed npdm svc_id =
    if leb svc_count svc_id
    then false
    else has_flag (npdm.aci0.capabilities.svc_mask (svc_id / 64)) (svc_id % 64)
