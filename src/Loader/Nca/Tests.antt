-- ===== src/Loader/Nca/Tests.antt =====
-- Runs of core/hle/loader/nca_parse.c on a header with one section.
use voland.Base.{ℕ, ◌≡◌, refl, List, [], ◌∷◌}
use voland.Result.{Res, ok, err}
use voland.Loader.ByteSource.{byte_source_le32, byte_source_le64}
use voland.Loader.Fixtures.{file_of, word_at}
use voland.Loader.Nca.{
  SectionInfo, HeaderInfo, bytes_all_zero, locate_section_data, section_at, parse_section,
  parse_section_list, nca_parse_header, nca3_magic,
}
use voland.Loader.Nca.Sections.{ParsedHeader, nca_parse_header_lem}

-- The words of a header whose section 0 is a directory of hashed files.
abbrev header_words : List (ℕ × ℕ)
header_words =
    (0x200, nca3_magic)
    ∷ (0x208, 0x4000)
    ∷ (0x240, 6)
    ∷ (0x244, 8)
    ∷ (0x400, 0x02010002)
    ∷ (0x42C, 1)
    ∷ (0x430, 0x100)
    ∷ (0x438, 0x300)
    ∷ []

-- Where the data of the sections lie.
abbrev data_ranges : List SectionInfo → List (ℕ × ℕ)
data_ranges [] = []
data_ranges (section ∷ rest) = (section.data_offset, section.data_size) ∷ data_ranges rest

abbrev ranges_of : Res HeaderInfo → List (ℕ × ℕ)
ranges_of (err code) = []
ranges_of (ok info) = data_ranges info.sections

one_section :
    ranges_of (nca_parse_header (file_of header_words))
    ≡ (0xD00, 0x300) ∷ (0, 0) ∷ (0, 0) ∷ (0, 0) ∷ []
unfolding nca_parse_header parse_section_list parse_section section_at locate_section_data
    bytes_all_zero byte_source_le32 byte_source_le64 file_of word_at
one_section = refl

nca_parse_header_lem_example :
    ParsedHeader (file_of header_words) (nca_parse_header (file_of header_words))
nca_parse_header_lem_example = nca_parse_header_lem (file_of header_words)
