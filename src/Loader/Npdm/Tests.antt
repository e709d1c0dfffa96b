-- ===== src/Loader/Npdm/Tests.antt =====
-- Runs of core/hle/loader/npdm.c on a file whose one descriptor lists SVC 1.
use voland.Base.{ℕ, ◌*◌, ◌^◌, ◌≡◌, refl, Bool, true, false, List, [], ◌∷◌}
use voland.Result.{Res, ok, err}
use voland.Loader.ByteSource.{byte_source_le32, byte_source_le64}
use voland.Loader.Fixtures.{word_at, file_of}
use voland.Loader.Npdm.{
  Npdm, meta_magic, acid_magic, aci0_magic, range_fits, parse_meta, parse_acid, parse_aci0,
  npdm_parse, npdm_svc_allowed,
}
use voland.Loader.Npdm.Capabilities.{
  count_ones, trailing_ones, allow, allow_bits, apply_system_calls, apply_descriptor, apply_word,
  parse_words, parse_capabilities,
}
use voland.Loader.Npdm.Parsed.{ParsedNpdm, npdm_parse_lem, AllowedBy, npdm_svc_allowed-npdm_parse}

abbrev words : List (ℕ × ℕ)
words =
    (0x00, meta_magic)
    ∷ (0x0C, 44 * 2 ^ 16)
    ∷ (0x1C, 0x1000)
    ∷ (0x70, 0x2C0)
    ∷ (0x74, 0x44)
    ∷ (0x78, 0x80)
    ∷ (0x7C, 0x240)
    ∷ (0x280, acid_magic)
    ∷ (0x298, 0xFFFF)
    ∷ (0x2C0, aci0_magic)
    ∷ (0x2D0, 1)
    ∷ (0x2F0, 0x40)
    ∷ (0x2F4, 4)
    ∷ (0x300, 0x4F)
    ∷ []

abbrev file : ℕ → ℕ
file = file_of words

-- The SVC's svc_answer on a parsed file.
abbrev svc_answer : Res Npdm → ℕ → Bool
svc_answer (ok npdm) svc = npdm_svc_allowed npdm svc
svc_answer (err code) svc = false

allowed_one : svc_answer (npdm_parse file 0x304) 1 ≡ true
unfolding npdm_parse npdm_svc_allowed range_fits parse_meta parse_acid parse_aci0 parse_capabilities
    parse_words apply_word apply_descriptor apply_system_calls allow_bits allow trailing_ones
    count_ones byte_source_le32 byte_source_le64 file_of word_at
allowed_one = refl

npdm_parse_lem_example : ParsedNpdm file 0x304 (npdm_parse file 0x304)
npdm_parse_lem_example = npdm_parse_lem file 0x304

npdm_svc_allowed-npdm_parse_example : AllowedBy file (npdm_parse file 0x304)
npdm_svc_allowed-npdm_parse_example = npdm_svc_allowed-npdm_parse file 0x304
