-- ===== src/Loader/Nca/Sections.antt =====
-- The sections that core/hle/loader/nca_parse.c reads from a header.
use voland.Base.{
  ℕ, zero, suc, ◌+◌, ◌-◌, ◌*◌, ◌≤◌, ◌≡◌, refl, arith, ◌⊎◌, Bool, true, false, not, ◌||◌, ◌&&◌,
}
use voland.Base.{List, length, All, ltb, leb, ◌==◌, inl, inr, Bool-cases, if◌then◌else◌}
use voland.Result.{Res, ok, err, invalid_argument, not_implemented, encrypted_input}
use voland.Loader.ByteSource.{byte_source_le32}
use voland.Loader.Nca.{
  SectionInfo, HeaderInfo, parse_section, parse_section_list, section_at, with_data, section_before,
  locate_section_data, header_with, nca_parse_header, absent_section, ivfc_magic, byte_source_le16,
  section_count, nca0_magic, nca2_magic, nca3_magic,
}

-- A property of both branches is one of the choice.
by_if : {A : Type 0} (P : A → Type 0) (b : Bool) {x y : A} → P x → P y → P (if b then x else y)
by_if P true holds other = holds
by_if P false other holds = holds

-- A section of the header is absent, or its data lies in it.
abbrev pub SectionInside : SectionInfo → Type 0
SectionInside section =
    (section ≡ absent_section)
    ⊎ ((section.present ≡ true)
        × (section.offset ≤ section.data_offset)
        × (section.data_offset + section.data_size ≤ section.offset + section.size))

abbrev pub ParsedSection : Res SectionInfo → Type 0
ParsedSection (err code) = code ≡ invalid_argument
ParsedSection (ok section) = SectionInside section

abbrev pub Located : Res (ℕ × ℕ) → Type 0
Located (err code) = code ≡ invalid_argument
Located (ok range) = Unit {0}

locate_section_data_lem :
    (header : ℕ → ℕ) (fs hash_type size : ℕ)
    → Located (locate_section_data header fs hash_type size)
unfolding locate_section_data
locate_section_data_lem header fs hash_type size =
    let layer_count = byte_source_le32 header (fs + 0x2C) in
    let max_layers = byte_source_le32 header (fs + 0x14) in
    by_if Located (hash_type == 1) tt (
      by_if Located (hash_type == 2 || hash_type == 5)
        (by_if Located (layer_count == 0 || ltb 5 layer_count) refl tt)
        (by_if Located (hash_type == 3 || hash_type == 6)
          (by_if Located (not (byte_source_le32 header (fs + 0x08) == ivfc_magic)) refl
            (by_if Located (ltb max_layers 2 || leb 6 (max_layers - 2)) refl tt))
          refl))

with_data_lem :
    (section : SectionInfo) (r : Res (ℕ × ℕ))
    → section.present ≡ true
    → Located r
    → ParsedSection (with_data section r)
with_data_lem section (err code) there located = located
with_data_lem section (ok (offset, size)) there located =
    elim (Bool-cases (ltb section.size offset || ltb (section.size - offset) size)) [
      | inl bad ↦ rw (ParsedSection, bad) refl
      | inr fits ↦ rw (ParsedSection, fits) (inr (there, omega arith, ground arith))
    ]

parse_section_lem : (header : ℕ → ℕ) (index : ℕ) → ParsedSection (parse_section header index)
unfolding parse_section section_at
parse_section_lem header index =
    let start_units = byte_source_le32 header (0x240 + index * 0x10) in
    let end_units = byte_source_le32 header (0x240 + index * 0x10 + 4) in
    let fs = 0x400 + index * 0x200 in
    let section = section_at header fs start_units end_units in
    by_if ParsedSection (start_units == 0 && end_units == 0) (inl refl) (
      by_if ParsedSection (ltb end_units start_units) refl (
        by_if ParsedSection (not (byte_source_le16 header fs == 2)) refl (
          by_if ParsedSection (ltb 1 section.fs_type) refl (
            by_if ParsedSection (ltb 6 section.hash_type) refl (
              with_data_lem section (locate_section_data header fs section.hash_type section.size)
                refl (locate_section_data_lem header fs section.hash_type section.size))))))

abbrev pub ParsedList : ℕ → Res (List SectionInfo) → Type 0
ParsedList count (err code) = code ≡ invalid_argument
ParsedList count (ok sections) = (length sections ≡ count) × All SectionInside sections

section_before_lem :
    (count : ℕ) (first : Res SectionInfo) (rest : Res (List SectionInfo))
    → ParsedSection first
    → ParsedList count rest
    → ParsedList (suc count) (section_before first rest)
section_before_lem count (err code) rest head tail = head
section_before_lem count (ok section) (err code) head tail = tail
section_before_lem count (ok section) (ok rest) head tail = (omega (arith, tail.0), (head, tail.1))

parse_section_list_lem :
    (header : ℕ → ℕ) (index left : ℕ) → ParsedList left (parse_section_list header index left)
unfolding parse_section_list
parse_section_list_lem header index zero = (refl, tt)
parse_section_list_lem header index (suc left) =
    section_before_lem left (parse_section header index)
      (parse_section_list header (index + 1) left) (parse_section_lem header index)
      (parse_section_list_lem header (index + 1) left)

-- What `nca_parse_header` may answer of a header.
abbrev pub ParsedHeader : (ℕ → ℕ) → Res HeaderInfo → Type 0
ParsedHeader header (ok info) =
    (info.magic ≡ byte_source_le32 header 0x200)
    × (((info.magic == nca2_magic) || (info.magic == nca3_magic)) ≡ true)
    × (length info.sections ≡ section_count)
    × All SectionInside info.sections
ParsedHeader header (err code) =
    let magic = byte_source_le32 header 0x200 in
    code ≡ (
      if magic == nca0_magic
      then not_implemented
      else if (magic == nca2_magic) || (magic == nca3_magic)
      then invalid_argument
      else encrypted_input)

header_with_lem :
    (header : ℕ → ℕ) (r : Res (List SectionInfo))
    → (byte_source_le32 header 0x200 == nca0_magic) ≡ false
    → ((byte_source_le32 header 0x200 == nca2_magic)
        || (byte_source_le32 header 0x200 == nca3_magic))
      ≡ true
    → ParsedList section_count r
    → ParsedHeader header (header_with header r)
header_with_lem header (err code) new known listed = rw (new, known) listed
header_with_lem header (ok sections) new known listed = (refl, known, listed.0, listed.1)

neither_lem : (a b : Bool) → (not b && not a) ≡ not (a || b)
neither_lem true true = refl
neither_lem true false = refl
neither_lem false true = refl
neither_lem false false = refl

-- `nca_parse_header` gives four sections, each absent or with its data inside the section, of a
-- header with the magic NCA2 or NCA3, and otherwise fails: with RESULT_NOT_IMPLEMENTED where the
-- magic is NCA0, with RESULT_ENCRYPTED_INPUT where it is none of the three, and with
-- RESULT_INVALID_ARGUMENT where it is NCA2 or NCA3.
pub nca_parse_header_lem : (header : ℕ → ℕ) → ParsedHeader header (nca_parse_header header)
unfolding nca_parse_header
nca_parse_header_lem header =
    let magic = byte_source_le32 header 0x200 in
    elim (Bool-cases (magic == nca0_magic)) [
      | inl old ↦ rw (old, ParsedHeader, old) refl
      | inr new ↦ elim (Bool-cases ((magic == nca2_magic) || (magic == nca3_magic))) [
        | inr unknown ↦
            rw
              (
                new,
                neither_lem (magic == nca2_magic) (magic == nca3_magic),
                unknown,
                ParsedHeader,
                new,
                unknown,
              )
              refl
        | inl known ↦
            rw (new, neither_lem (magic == nca2_magic) (magic == nca3_magic), known)
              (by_if (ParsedHeader header) (ltb 1 (header 0x204)) (rw (new, known) refl) (
                by_if (ParsedHeader header) (ltb 5 (header 0x205)) (rw (new, known) refl) (
                  header_with_lem header (parse_section_list header 0 section_count) new known
                    (parse_section_list_lem header 0 section_count))))
      ]
    ]
