-- ===== src/Loader/Nca.antt =====
-- core/hle/loader/nca_parse.h and nca_parse.c: the container of a title's content. A header is its
-- bytes by offset, an enumeration its value on the medium.
use voland.Base.{ℕ, zero, suc, ◌+◌, ◌-◌, ◌*◌, ◌%◌, ◌^◌, Bool, true, false, not, ◌||◌, ◌&&◌}
use voland.Base.{Option, none, some, List, [], ◌∷◌, get_or, ltb, leb, ◌==◌, if◌then◌else◌}
use voland.Result.{Res, ok, err, invalid_argument, not_implemented, encrypted_input}
use voland.Loader.ByteSource.{
  ByteSource, byte_source_read, byte_source_slice, byte_source_le32, byte_source_le64,
}
use voland.Loader.Exefs.{exefs_magic}
use voland.Loader.Romfs.Open.{header_size}
pub mod Open
pub mod Sections
mod Tests

-- The constants of nca_parse.h.
abbrev pub nca_header_size : ℕ
nca_header_size = 0xC00

abbrev pub section_count : ℕ
section_count = 4

abbrev pub media_unit_size : ℕ
media_unit_size = 0x200

abbrev pub nca3_magic : ℕ
nca3_magic = 0x3341434E

abbrev pub nca2_magic : ℕ
nca2_magic = 0x3241434E

abbrev pub nca0_magic : ℕ
nca0_magic = 0x3041434E

abbrev pub ivfc_magic : ℕ
ivfc_magic = 0x43465649

-- `NCA_Section_Info`
pub record SectionInfo : Type 0 where
  pub present : Bool
  pub offset : ℕ
  pub size : ℕ
  pub fs_type : ℕ
  pub hash_type : ℕ
  pub encryption_type_raw : ℕ
  pub data_offset : ℕ
  pub data_size : ℕ
  pub has_patch_info : Bool
  pub has_sparse_info : Bool
  pub has_compression_info : Bool

abbrev pub absent_section : SectionInfo
absent_section = record {
  present = false;
  offset = 0;
  size = 0;
  fs_type = 0;
  hash_type = 0;
  encryption_type_raw = 0;
  data_offset = 0;
  data_size = 0;
  has_patch_info = false;
  has_sparse_info = false;
  has_compression_info = false;
}

-- `NCA_Header_Info`
pub record HeaderInfo : Type 0 where
  pub magic : ℕ
  pub distribution_type : ℕ
  pub content_type : ℕ
  pub content_size : ℕ
  pub program_id : ℕ
  pub content_index : ℕ
  pub sdk_addon_version : ℕ
  pub sections : List SectionInfo

-- `byte_source_le16`
abbrev pub byte_source_le16 : (ℕ → ℕ) → ℕ → ℕ
byte_source_le16 bytes p = bytes p + bytes (p + 1) * 2 ^ 8

-- `bytes_all_zero`
unfoldable pub bytes_all_zero : (ℕ → ℕ) → ℕ → ℕ → Bool
bytes_all_zero bytes p zero = true
bytes_all_zero bytes p (suc n) =
    let rest = bytes_all_zero bytes (p + 1) n in if bytes p == 0 then rest else false

-- `locate_section_data`: the offset and the size, of the FsHeader at `fs`.
unfoldable pub locate_section_data : (ℕ → ℕ) → ℕ → ℕ → ℕ → Res (ℕ × ℕ)
locate_section_data header fs hash_type section_size =
    if hash_type == 1
    then ok (0, section_size)
    else if hash_type == 2 || hash_type == 5
    then (let layer_count = byte_source_le32 header (fs + 0x2C) in
        let region = fs + 0x30 + (layer_count - 1) * 0x10 in
        if layer_count == 0 || ltb 5 layer_count
        then err invalid_argument
        else ok (byte_source_le64 header region, byte_source_le64 header (region + 8)))
    else if hash_type == 3 || hash_type == 6
    then (let max_layers = byte_source_le32 header (fs + 0x14) in
        let level = fs + 0x18 + (max_layers - 2) * 0x18 in
        if not (byte_source_le32 header (fs + 0x08) == ivfc_magic)
        then err invalid_argument
        else if ltb max_layers 2 || leb 6 (max_layers - 2)
        then err invalid_argument
        else ok (byte_source_le64 header level, byte_source_le64 header (level + 8)))
    else err invalid_argument

-- What `parse_section` knows of a present section before its data is located.
unfoldable pub section_at : (ℕ → ℕ) → ℕ → ℕ → ℕ → SectionInfo
section_at header fs start_units end_units = record {
  present = true;
  offset = start_units * media_unit_size;
  size = (end_units - start_units) * media_unit_size;
  fs_type = header (fs + 0x02);
  hash_type = header (fs + 0x03);
  encryption_type_raw = header (fs + 0x04);
  data_offset = 0;
  data_size = 0;
  has_patch_info = not (bytes_all_zero header (fs + 0x100) 0x40);
  has_sparse_info = not (bytes_all_zero header (fs + 0x148) 0x30);
  has_compression_info = not (bytes_all_zero header (fs + 0x178) 0x28);
}

-- The end of `parse_section`: the data lies inside the section.
abbrev pub with_data : SectionInfo → Res (ℕ × ℕ) → Res SectionInfo
with_data section (err code) = err code
with_data section (ok (relative_offset, data_size)) =
    if ltb section.size relative_offset || ltb (section.size - relative_offset) data_size
    then err invalid_argument
    else ok
        (record section { data_offset = section.offset + relative_offset; data_size = data_size })

-- `parse_section`
unfoldable pub parse_section : (ℕ → ℕ) → ℕ → Res SectionInfo
parse_section header index =
    let entry = 0x240 + index * 0x10 in
    let start_units = byte_source_le32 header entry in
    let end_units = byte_source_le32 header (entry + 4) in
    let fs = 0x400 + index * 0x200 in
    let section = section_at header fs start_units end_units in
    if start_units == 0 && end_units == 0
    then ok absent_section
    else if ltb end_units start_units
    then err invalid_argument
    else if not (byte_source_le16 header fs == 2)
    then err invalid_argument
    else if ltb 1 section.fs_type
    then err invalid_argument
    else if ltb 6 section.hash_type
    then err invalid_argument
    else with_data section (locate_section_data header fs section.hash_type section.size)

-- The loop of `nca_parse_header`, with `left` sections still to parse.
abbrev pub section_before : Res SectionInfo → Res (List SectionInfo) → Res (List SectionInfo)
section_before (err code) rest = err code
section_before (ok section) (err code) = err code
section_before (ok section) (ok rest) = ok (section ∷ rest)

unfoldable pub parse_section_list : (ℕ → ℕ) → ℕ → ℕ → Res (List SectionInfo)
parse_section_list header index zero = ok []
parse_section_list header index (suc left) =
    section_before (parse_section header index) (parse_section_list header (index + 1) left)

-- The header with its sections.
abbrev pub header_with : (ℕ → ℕ) → Res (List SectionInfo) → Res HeaderInfo
header_with header (err code) = err code
header_with header (ok sections) = ok (record {
  magic = byte_source_le32 header 0x200;
  distribution_type = header 0x204;
  content_type = header 0x205;
  content_size = byte_source_le64 header 0x208;
  program_id = byte_source_le64 header 0x210;
  content_index = byte_source_le32 header 0x218;
  sdk_addon_version = byte_source_le32 header 0x21C;
  sections = sections;
})

-- `nca_parse_header`
unfoldable pub nca_parse_header : (ℕ → ℕ) → Res HeaderInfo
nca_parse_header header =
    let magic = byte_source_le32 header 0x200 in
    if magic == nca0_magic
    then err not_implemented
    else if not (magic == nca3_magic) && not (magic == nca2_magic)
    then err encrypted_input
    else if ltb 1 (header 0x204)
    then err invalid_argument
    else if ltb 5 (header 0x205)
    then err invalid_argument
    else header_with header (parse_section_list header 0 section_count)
