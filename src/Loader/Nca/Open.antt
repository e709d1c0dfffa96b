-- ===== src/Loader/Nca/Open.antt =====
-- core/hle/loader/nca_parse.c: opening a container, its sections' sources and their search.
use voland.Base.{ℕ, ◌+◌, ◌-◌, Bool, not, ◌||◌, ◌&&◌}
use voland.Base.{Option, none, some, List, [], ◌∷◌, get_or, ltb, leb, ◌==◌, if◌then◌else◌}
use voland.Result.{Res, ok, err, invalid_argument, not_implemented, encrypted_input}
use voland.Loader.ByteSource.{
  ByteSource, byte_source_read, byte_source_slice, byte_source_le32, byte_source_le64,
}
use voland.Loader.Exefs.{exefs_magic}
use voland.Loader.Romfs.Open.{header_size}
use voland.Loader.Nca.{
  SectionInfo, HeaderInfo, nca_parse_header, absent_section, nca_header_size, section_count,
}

-- `NCA_File`; the source of an absent section is `none`.
pub record NcaFile : Type 0 where
  pub source : ByteSource
  pub header : HeaderInfo
  pub section_sources : List (Option ByteSource)

-- One round of the loop of `nca_open`.
unfoldable pub section_source : ByteSource → ℕ → SectionInfo → Res (Option ByteSource)
section_source source content_size section =
    if not section.present
    then ok none
    else if ltb content_size section.offset || ltb (content_size - section.offset) section.size
    then err invalid_argument
    else elim (byte_source_slice source section.data_offset section.data_size) [
      | err code ↦ err code
      | ok slice ↦ ok (some slice)
    ]

abbrev pub source_before :
    Res (Option ByteSource) → Res (List (Option ByteSource)) → Res (List (Option ByteSource))
source_before (err code) rest = err code
source_before (ok source) (err code) = err code
source_before (ok source) (ok rest) = ok (source ∷ rest)

-- The loop.
unfoldable pub open_sections : ByteSource → ℕ → List SectionInfo → Res (List (Option ByteSource))
open_sections source content_size [] = ok []
open_sections source content_size (section ∷ rest) =
    source_before (section_source source content_size section)
      (open_sections source content_size rest)

-- `nca_open` after the header has been parsed.
abbrev pub file_with : ByteSource → HeaderInfo → Res (List (Option ByteSource)) → Res NcaFile
file_with source header (err code) = err code
file_with source header (ok sources) =
    ok (record { source = source; header = header; section_sources = sources })

abbrev pub with_header : ByteSource → Res HeaderInfo → Res NcaFile
with_header source (err code) = err code
with_header source (ok header) =
    if ltb source.size header.content_size
    then err invalid_argument
    else file_with source header (open_sections source header.content_size header.sections)

-- `nca_open`
unfoldable pub nca_open : ByteSource → Res NcaFile
nca_open source =
    if ltb source.size nca_header_size
    then err invalid_argument
    else elim (byte_source_read source 0 nca_header_size) [
      | err code ↦ err code
      | ok bytes ↦ with_header source (nca_parse_header (λ i. get_or bytes i 0))
    ]

-- `section_is_readable`
abbrev pub section_is_readable : SectionInfo → Bool
section_is_readable section =
    section.present
    && (not section.has_patch_info
        && (not section.has_sparse_info && not section.has_compression_info))

-- `nca_section_source`; NULL is `none`.
unfoldable pub nca_section_source : NcaFile → ℕ → Option ByteSource
nca_section_source nca index =
    if leb section_count index
    then none
    else if not (section_is_readable (get_or nca.header.sections index absent_section))
    then none
    else get_or nca.section_sources index none

-- The magic that the file system of a section starts with.
unfoldable pub probed : ℕ → ℕ → (ℕ → ℕ) → Res (Unit {0})
probed fs_type probe_size probe =
    if fs_type == 1
    then (if ltb probe_size 4 || not (byte_source_le32 probe 0 == exefs_magic)
        then err encrypted_input
        else ok tt)
    else if fs_type == 0
    then (if ltb probe_size 8 || not (byte_source_le64 probe 0 == header_size)
        then err encrypted_input
        else ok tt)
    else err invalid_argument

-- The read of the probe; a source is there for every present section.
abbrev pub probe_source : Option ByteSource → ℕ → ℕ → Res (Unit {0})
probe_source none fs_type probe_size = err invalid_argument
probe_source (some source) fs_type probe_size = elim (byte_source_read source 0 probe_size) [
  | err code ↦ err code
  | ok bytes ↦ probed fs_type probe_size (λ i. get_or bytes i 0)
]

-- `nca_probe_section`
unfoldable pub nca_probe_section : NcaFile → ℕ → Res (Unit {0})
nca_probe_section nca index =
    let section = get_or nca.header.sections index absent_section in
    let probe_size = if ltb section.data_size 16 then section.data_size else 16 in
    if leb section_count index
    then err invalid_argument
    else if not section.present
    then err invalid_argument
    else if not (section_is_readable section)
    then err not_implemented
    else probe_source (get_or nca.section_sources index none) section.fs_type probe_size

-- The loop of `nca_find_section`; -1 is `none`.
unfoldable pub find_section : List SectionInfo → ℕ → ℕ → Option ℕ
find_section [] fs_type index = none
find_section (section ∷ rest) fs_type index =
    let others = find_section rest fs_type (index + 1) in
    if section.present && section.fs_type == fs_type then some index else others

-- `nca_find_section`
unfoldable pub nca_find_section : NcaFile → ℕ → Option ℕ
nca_find_section nca fs_type = find_section nca.header.sections fs_type 0
