-- ===== src/Loader/Nso/Layout.antt =====
-- The image that core/hle/loader/nso.c accepts: where its segments lie.
use voland.Base.{
  ℕ, zero, suc, ◌+◌, ◌-◌, ◌%◌, ◌^◌, ◌≤◌, ◌<◌, ◌≡◌, refl, arith, true, false, not, ◌||◌,
}
use voland.Base.{Option, none, some, List, [], ◌∷◌, get_or, length, All, ◌==◌}
use voland.Base.{inl, inr, Bool-cases, ◌⊎◌}
use voland.Loader.ByteSource.{ByteSource, byte_source_le32}
use voland.Loader.Nso.{
  Nso, Segment, RodataSection, align_up, read_rodata_section, rodata_section_in_bounds,
  read_segment, segment_fits, read_segments, segments_in_order, all_in_order, rodata_of, data_of,
  describe_nso,
}

-- A segment whose bytes lie in a file of `size` bytes and that starts at a page of a 32-bit image.
abbrev pub SegmentChecked : ℕ → Segment → Type 0
SegmentChecked size s =
    (s.file_offset + s.file_size ≤ size)
    × (s.memory_size ≤ 0x20000000)
    × (s.memory_offset < 2 ^ 32)
    × (s.memory_offset % 0x1000 ≡ 0)
    × ((s.is_compressed ≡ true) ⊎ (s.file_size ≡ s.memory_size))

-- Segments one behind the other, from `at` up to `top`.
abbrev pub Ascending : ℕ → List Segment → ℕ → Type 0
Ascending at [] top = at ≤ top
Ascending at (s ∷ rest) top =
    (at ≤ s.memory_offset) × Ascending (s.memory_offset + s.memory_size) rest top

-- A part of .rodata that is absent or inside it.
abbrev pub SectionInside : RodataSection → ℕ → Type 0
SectionInside section rodata_size =
    (section.size ≡ 0) ⊎ (section.offset + section.size ≤ rodata_size)

abbrev pub LaidOut : ℕ → Nso → Type 0
LaidOut size nso =
    (length nso.segments ≡ 3)
    × All (SegmentChecked size) nso.segments
    × Ascending 0 nso.segments (nso.image_size - nso.bss_size)
    × (nso.bss_size ≤ nso.image_size)
    × (nso.image_size % 0x1000 ≡ 0)
    × (SectionInside nso.api_info (rodata_of nso.segments).memory_size
        × SectionInside nso.dynstr (rodata_of nso.segments).memory_size
        × SectionInside nso.dynsym (rodata_of nso.segments).memory_size)

word_small :
    (header : ℕ → ℕ) (p : ℕ) → ((i : ℕ) → header i < 256) → byte_source_le32 header p < 2 ^ 32
unfolding byte_source_le32
word_small header p bytes = omega (arith, bytes p, bytes (p + 1), bytes (p + 2), bytes (p + 3))

align_up_lem :
    (value : ℕ)
    → value < 2 ^ 63
    → (value ≤ align_up value 0x1000) × (align_up value 0x1000 % 0x1000 ≡ 0)
unfolding align_up
align_up_lem value small = (omega arith, omega arith)

segment_checked :
    (size : ℕ) (s : Segment)
    → segment_fits size s ≡ true
    → s.memory_offset < 2 ^ 32
    → SegmentChecked size s
unfolding segment_fits
segment_checked size s fits small = (
  ground arith,
  ground arith,
  small,
  ground arith,
  (elim (Bool-cases s.is_compressed) [ inl packed ↦ inl packed | inr raw ↦ inr (ground arith) ]),
)

offset_small :
    (header : ℕ → ℕ) (flags i : ℕ)
    → ((j : ℕ) → header j < 256)
    → (read_segment header flags i).memory_offset < 2 ^ 32
unfolding read_segment
offset_small header flags i bytes =
    word_small header (get_or (0x10 ∷ 0x20 ∷ 0x30 ∷ []) i 0 + 0x4) bytes

abbrev pub SegmentsOf : ℕ → ℕ → Option (List Segment) → Type 0
SegmentsOf size count none = Unit
SegmentsOf size count (some segments) =
    (length segments ≡ count) × All (SegmentChecked size) segments

pub read_segments_lem :
    (header : ℕ → ℕ) (flags size i left : ℕ)
    → ((i : ℕ) → header i < 256)
    → SegmentsOf size left (read_segments header flags size i left)
unfolding read_segments
read_segments_lem header flags size i zero bytes = (refl, tt)
read_segments_lem header flags size i (suc left) bytes =
    elim (Bool-cases (segment_fits size (read_segment header flags i))) [
      | inr bad ↦ rw bad tt
      | inl fits ↦ rw fits (
          joined (read_segment header flags i) (read_segments header flags size (i + 1) left)
            (segment_checked size (read_segment header flags i) fits
              (offset_small header flags i bytes))
            (read_segments_lem header flags size (i + 1) left bytes))
    ]
  where
    joined :
        (segment : Segment) (r : Option (List Segment))
        → SegmentChecked size segment
        → SegmentsOf size left r
        → SegmentsOf size
            (suc left)
            (elim r [ none ↦ none | some others ↦ some (segment ∷ others) ])
    joined segment none checked more = tt
    joined segment (some others) checked more = (omega (arith, more.0), (checked, more.1))

section_inside :
    (section : RodataSection) (rodata_size : ℕ)
    → rodata_section_in_bounds section rodata_size ≡ true
    → SectionInside section rodata_size
unfolding rodata_section_in_bounds
section_inside section rodata_size fits = elim (Bool-cases (section.size == 0)) [
  | inl absent ↦ inl (ground arith)
  | inr present ↦ inr (ground arith)
]

-- Three segments in order, below `top`.
ascending :
    (segments : List Segment) (top : ℕ)
    → length segments ≡ 3
    → all_in_order segments ≡ true
    → (data_of segments).memory_offset + (data_of segments).memory_size ≤ top
    → Ascending 0 segments top
unfolding segments_in_order
ascending [] top three ordered ends = omega arith
ascending (p ∷ []) top three ordered ends = absurd (omega (arith, three))
ascending (p ∷ r ∷ []) top three ordered ends = absurd (omega (arith, three))
ascending (p ∷ r ∷ d ∷ []) top three ordered ends =
    (omega arith, (ground arith, (ground arith, ends)))
ascending (p ∷ r ∷ d ∷ e ∷ rest) top three ordered ends = absurd (omega (arith, three))

-- The last segment ends in an image of 33 bits.
data_end :
    (segments : List Segment) (size : ℕ)
    → length segments ≡ 3
    → All (SegmentChecked size) segments
    → (data_of segments).memory_offset + (data_of segments).memory_size < 2 ^ 33
data_end [] size three checked = absurd (omega (arith, three))
data_end (p ∷ []) size three checked = absurd (omega (arith, three))
data_end (p ∷ r ∷ []) size three checked = absurd (omega (arith, three))
data_end (p ∷ r ∷ d ∷ rest) size three checked = omega (arith, checked.1.1.0.1, checked.1.1.0.2)

pub describe_nso_lem :
    (source : ByteSource) (header : ℕ → ℕ) (flags size : ℕ) (segments : List Segment)
    → ((i : ℕ) → header i < 256)
    → SegmentsOf size 3 (some segments)
    → all_in_order segments ≡ true
    → (not (
          rodata_section_in_bounds
            (read_rodata_section header 0x88)
            (rodata_of segments).memory_size)
        || not (
            rodata_section_in_bounds
              (read_rodata_section header 0x90)
              (rodata_of segments).memory_size)
        || not (
            rodata_section_in_bounds
              (read_rodata_section header 0x98)
              (rodata_of segments).memory_size))
      ≡ false
    → LaidOut size (describe_nso source header flags segments)
unfolding describe_nso
describe_nso_lem source header flags size segments bytes checked ordered inside =
    let last = data_of segments in
    let bss = byte_source_le32 header 0x3C in
    let small = word_small header 0x3C bytes in
    let ends = data_end segments size checked.0 checked.1 in
    let up =
      align_up_lem (last.memory_offset + last.memory_size + bss) (omega (arith, small, ends)) in
    (
      checked.0,
      checked.1,
      ascending segments (align_up (last.memory_offset + last.memory_size + bss) 0x1000 - bss)
          checked.0 ordered (omega (arith, up.0)),
      omega (arith, up.0),
      up.1,
      (
        section_inside (read_rodata_section header 0x88) (rodata_of segments).memory_size
            (ground arith),
        section_inside (read_rodata_section header 0x90) (rodata_of segments).memory_size
            (ground arith),
        section_inside (read_rodata_section header 0x98) (rodata_of segments).memory_size
            (ground arith),
      ),
    )
