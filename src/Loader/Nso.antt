-- ===== src/Loader/Nso.antt =====
-- core/hle/loader/nso.h and nso.c: the executables of a title. This file opens one; Nso/Segments reads
-- a segment. The three segments are a list in the order of `NSO_Segment_Kind`; `module_id` and
-- `module_name` are their bytes, the name without the terminator that is put behind it.
use voland.Base.{ℕ, zero, suc, ◌+◌, ◌-◌, ◌*◌, ◌/◌, ◌%◌, ◌^◌, Bool, true, false, not, ◌||◌, ◌&&◌}
use voland.Base.{Option, none, some, List, [], ◌∷◌, get_or, ltb, leb, ◌==◌, if◌then◌else◌}
use voland.Result.{Res, ok, err, invalid_argument, not_implemented}
use voland.Vmm.Access.{read_bytes}
use voland.Loader.ByteSource.{ByteSource, byte_source_read, byte_source_le32}
pub mod Segments
pub mod Layout
pub mod Opened
pub mod Content
mod Tests

-- The constants of nso.h.
abbrev pub nso_magic : ℕ
nso_magic = 0x304F534E

abbrev pub nso_version : ℕ
nso_version = 0

abbrev pub nso_header_size : ℕ
nso_header_size = 0x100

abbrev pub segment_count : ℕ
segment_count = 3

abbrev pub segment_alignment : ℕ
segment_alignment = 0x1000

abbrev pub max_segment_bytes : ℕ
max_segment_bytes = 0x20000000

abbrev pub max_module_name_bytes : ℕ
max_module_name_bytes = 0xFF

-- `NSO_Segment`
pub record Segment : Type 0 where
  pub file_offset : ℕ
  pub file_size : ℕ
  pub memory_offset : ℕ
  pub memory_size : ℕ
  pub is_compressed : Bool
  pub has_hash : Bool

-- `NSO_Rodata_Section`
pub record RodataSection : Type 0 where
  pub offset : ℕ
  pub size : ℕ

-- `NSO`
pub record Nso : Type 0 where
  pub source : ByteSource
  pub version : ℕ
  pub flags : ℕ
  pub segments : List Segment
  pub bss_size : ℕ
  pub image_size : ℕ
  pub execute_only_text : Bool
  pub module_id : List ℕ
  pub module_name : List ℕ
  pub api_info : RodataSection
  pub dynstr : RodataSection
  pub dynsym : RodataSection

-- `flags & (uint32_t)1 << k`
abbrev pub flag_set : ℕ → ℕ → Bool
flag_set flags k = flags / 2 ^ k % 2 == 1

-- `align_up`, at a power of two.
unfoldable pub align_up : ℕ → ℕ → ℕ
align_up value alignment = (value + alignment - 1) % 2 ^ 64 / alignment * alignment

-- `read_rodata_section`
abbrev pub read_rodata_section : (ℕ → ℕ) → ℕ → RodataSection
read_rodata_section header at = record {
  offset = byte_source_le32 header at;
  size = byte_source_le32 header (at + 0x4);
}

-- `rodata_section_in_bounds`
unfoldable pub rodata_section_in_bounds : RodataSection → ℕ → Bool
rodata_section_in_bounds section rodata_size =
    if section.size == 0
    then true
    else leb section.offset rodata_size && leb section.size (rodata_size - section.offset)

-- The decoding of segment `i`: its header stands at 0x10, 0x20 or 0x30, its file size at 0x60, 0x64
-- or 0x68, its flags are the bits `i` and `i + 3`.
unfoldable pub read_segment : (ℕ → ℕ) → ℕ → ℕ → Segment
read_segment header flags i =
    let raw = get_or (0x10 ∷ 0x20 ∷ 0x30 ∷ []) i 0 in
    record {
      file_offset = byte_source_le32 header raw;
      file_size = byte_source_le32 header (get_or (0x60 ∷ 0x64 ∷ 0x68 ∷ []) i 0);
      memory_offset = byte_source_le32 header (raw + 0x4);
      memory_size = byte_source_le32 header (raw + 0x8);
      is_compressed = flag_set flags i;
      has_hash = flag_set flags (i + 3);
    }

-- The checks of one segment: whether they pass.
unfoldable pub segment_fits : ℕ → Segment → Bool
segment_fits source_size segment =
    if ltb max_segment_bytes segment.memory_size
    then false
    else if ltb source_size segment.file_offset
        || ltb (source_size - segment.file_offset) segment.file_size
    then false
    else if not segment.is_compressed && not (segment.file_size == segment.memory_size)
    then false
    else segment.memory_offset % segment_alignment == 0

-- The first loop of `nso_open`, with `left` segments still to read: `none` where a check fails.
unfoldable pub read_segments : (ℕ → ℕ) → ℕ → ℕ → ℕ → ℕ → Option (List Segment)
read_segments header flags source_size i zero = some []
read_segments header flags source_size i (suc left) =
    let rest = read_segments header flags source_size (i + 1) left in
    let segment = read_segment header flags i in
    if not (segment_fits source_size segment)
    then none
    else elim rest [ none ↦ none | some others ↦ some (segment ∷ others) ]

-- The second loop: no segment starts before the end of the one before it.
unfoldable pub segments_in_order : Segment → List Segment → Bool
segments_in_order previous [] = true
segments_in_order previous (current ∷ rest) =
    let others = segments_in_order current rest in
    if ltb current.memory_offset (previous.memory_offset + previous.memory_size)
    then false
    else others

abbrev pub all_in_order : List Segment → Bool
all_in_order [] = true
all_in_order (first ∷ rest) = segments_in_order first rest

-- `out->segments[kind]`
abbrev pub no_segment : Segment
no_segment = record {
  file_offset = 0;
  file_size = 0;
  memory_offset = 0;
  memory_size = 0;
  is_compressed = false;
  has_hash = false;
}

abbrev pub rodata_of : List Segment → Segment
rodata_of segments = get_or segments 1 no_segment

abbrev pub data_of : List Segment → Segment
data_of segments = get_or segments 2 no_segment

-- What `nso_open` writes to `out` before the module name, once the segments have been checked.
unfoldable pub describe_nso : ByteSource → (ℕ → ℕ) → ℕ → List Segment → Nso
describe_nso source header flags segments =
    let last = data_of segments in
    let bss_size = byte_source_le32 header 0x3C in
    record {
      source = source;
      version = byte_source_le32 header 0x04;
      flags = flags;
      segments = segments;
      bss_size = bss_size;
      image_size = align_up (last.memory_offset + last.memory_size + bss_size) segment_alignment;
      execute_only_text = flag_set flags 6;
      module_id = read_bytes header 0x40 0x20;
      module_name = [];
      api_info = read_rodata_section header 0x88;
      dynstr = read_rodata_section header 0x90;
      dynsym = read_rodata_section header 0x98;
    }

-- The end of `nso_open`: the module name.
unfoldable pub with_module_name : ByteSource → ℕ → ℕ → Nso → Res Nso
with_module_name source name_offset name_size nso =
    let copy_size =
      if ltb max_module_name_bytes name_size then max_module_name_bytes else name_size in
    if name_size == 0
    then ok nso
    else if ltb source.size name_offset || ltb (source.size - name_offset) name_size
    then err invalid_argument
    else elim (byte_source_read source name_offset copy_size) [
      | err code ↦ err code
      | ok name ↦ ok (record nso { module_name = name })
    ]

-- `nso_open` after the first loop.
unfoldable pub check_segments : ByteSource → (ℕ → ℕ) → ℕ → List Segment → Res Nso
check_segments source header flags segments =
    let nso = describe_nso source header flags segments in
    let rodata_size = (rodata_of segments).memory_size in
    if not (all_in_order segments)
    then err invalid_argument
    else if not (rodata_section_in_bounds nso.api_info rodata_size)
        || not (rodata_section_in_bounds nso.dynstr rodata_size)
        || not (rodata_section_in_bounds nso.dynsym rodata_size)
    then err invalid_argument
    else with_module_name source (byte_source_le32 header 0x1C) (byte_source_le32 header 0x2C) nso

-- `nso_open` after the flags.
unfoldable pub open_segments : ByteSource → (ℕ → ℕ) → ℕ → Res Nso
open_segments source header flags = elim (read_segments header flags source.size 0 segment_count) [
  | none ↦ err invalid_argument
  | some segments ↦ check_segments source header flags segments
]

-- `nso_open` after the header has been read.
unfoldable pub open_header : ByteSource → (ℕ → ℕ) → Res Nso
open_header source header =
    let flags = byte_source_le32 header 0x0C in
    if not (byte_source_le32 header 0 == nso_magic)
    then err invalid_argument
    else if not (byte_source_le32 header 0x04 == nso_version)
    then err invalid_argument
    else if flag_set flags 7
    then err not_implemented
    else open_segments source header flags

-- `nso_open`
unfoldable pub nso_open : ByteSource → Res Nso
nso_open source =
    if ltb source.size nso_header_size
    then err invalid_argument
    else elim (byte_source_read source 0 nso_header_size) [
      | err code ↦ err code
      | ok bytes ↦ open_header source (λ i. get_or bytes i 0)
    ]

-- The digits of `k_digits`, and `nso_module_id_hex` without the terminator.
abbrev pub hex_digit : ℕ → ℕ
hex_digit n = if ltb n 10 then b'0' + n else b'a' + (n - 10)

unfoldable pub nso_module_id_hex : List ℕ → List ℕ
nso_module_id_hex [] = []
nso_module_id_hex (byte ∷ rest) =
    hex_digit (byte / 2 ^ 4) ∷ hex_digit (byte % 2 ^ 4) ∷ nso_module_id_hex rest
