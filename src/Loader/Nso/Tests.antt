-- ===== src/Loader/Nso/Tests.antt =====
-- Runs of core/hle/loader/nso.c on a file with three raw segments of four bytes.
use voland.Base.{ℕ, ◌≡◌, refl, Bool, Option, none, List, [], ◌∷◌, get_or}
use mathlib.Core.Path.{subst}
use voland.Result.{Res, ok, err}
use voland.Vmm.Access.{read_bytes}
use voland.Loader.ByteSource.{byte_source_from_memory, byte_source_read, byte_source_le32}
use voland.Loader.Fixtures.{word_at, file_of, file_of_small}
use voland.Loader.Nso.{
  Nso, nso_magic, no_segment, align_up, rodata_section_in_bounds, read_segment, segment_fits,
  read_segments, segments_in_order, describe_nso, with_module_name, check_segments, open_segments,
  open_header, nso_open,
}
use voland.Loader.Nso.Segments.{nso_read_segment}
use voland.Loader.Nso.Opened.{OpenedNso, nso_open_lem}
use voland.Loader.Nso.Content.{SegmentRead, nso_read_segment_lem}

abbrev words : List (ℕ × ℕ)
words =
    (0x00, nso_magic)
    ∷ (0x10, 0x100)
    ∷ (0x18, 4)
    ∷ (0x20, 0x104)
    ∷ (0x24, 0x1000)
    ∷ (0x28, 4)
    ∷ (0x30, 0x108)
    ∷ (0x34, 0x2000)
    ∷ (0x38, 4)
    ∷ (0x3C, 0x20)
    ∷ (0x60, 4)
    ∷ (0x64, 4)
    ∷ (0x68, 4)
    ∷ (0x104, 0x04030201)
    ∷ []

abbrev file : ℕ → ℕ
file = file_of words

nso_open_lem_example : OpenedNso file 0x10C (nso_open (byte_source_from_memory file 0x10C))
nso_open_lem_example = nso_open_lem file 0x10C (file_of_small words)

-- A result, or another NSO for an error.
abbrev or_empty : Res Nso → Nso → Nso
or_empty (ok nso) other = nso
or_empty (err code) other = other

abbrev empty : Nso
empty = record {
  source = byte_source_from_memory file 0x10C;
  version = 0;
  flags = 0;
  segments = [];
  bss_size = 0;
  image_size = 0;
  execute_only_text = Bool.false;
  module_id = [];
  module_name = [];
  api_info = record { offset = 0; size = 0 };
  dynstr = record { offset = 0; size = 0 };
  dynsym = record { offset = 0; size = 0 };
}

abbrev the_nso : Nso
the_nso = or_empty (nso_open (byte_source_from_memory file 0x10C)) empty

accepted : nso_open (byte_source_from_memory file 0x10C) ≡ ok the_nso
unfolding nso_open open_header open_segments check_segments with_module_name describe_nso
    segments_in_order read_segments segment_fits read_segment rodata_section_in_bounds align_up
    byte_source_read byte_source_from_memory byte_source_le32 read_bytes file_of word_at
accepted = refl

-- A decoder that refuses everything.
abbrev no_decoder : List ℕ → ℕ → Option (List ℕ)
no_decoder bytes size = none

nso_read_segment_lem_example :
    SegmentRead file
      (get_or the_nso.segments 1 no_segment)
      1
      0x10
      (nso_read_segment no_decoder the_nso 1 none 0x10).0
nso_read_segment_lem_example =
    nso_read_segment_lem no_decoder file 0x10C the_nso 1 0x10 none
      (subst (OpenedNso file 0x10C) accepted (nso_open_lem file 0x10C (file_of_small words)))
