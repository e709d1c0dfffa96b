-- ===== src/Loader/Nso/Opened.antt =====
-- nso_open of core/hle/loader/nso.c as a whole.
use voland.Base.{ℕ, zero, suc, ◌+◌, ◌-◌, ◌<◌, ◌≡◌, refl, arith, not, ◌||◌}
use voland.Base.{Option, none, some, List, get_or, length, ltb, ◌==◌, if◌then◌else◌}
use voland.Base.{inl, inr, Bool-cases, ◌⊎◌}
use voland.Result.{Res, ok, err, Code, invalid_argument, not_implemented}
use voland.Vmm.Access.{read_bytes}
use voland.Loader.ByteSource.{byte_source_from_memory, byte_source_le32, memory_read, memory_size}
use voland.Loader.Nso.{
  Nso, Segment, max_module_name_bytes, nso_magic, nso_version, flag_set, read_segments,
  all_in_order, rodata_of, describe_nso, with_module_name, check_segments, open_segments,
  open_header, nso_open, rodata_section_in_bounds, read_rodata_section,
}
use voland.Loader.Nso.Layout.{LaidOut, SegmentsOf, read_segments_lem, describe_nso_lem}

abbrev pub IsRefused : Code → Type 0
IsRefused code = (code ≡ invalid_argument) ⊎ (code ≡ not_implemented)

-- What `nso_open` of a memory may answer.
abbrev pub OpenedNso : (ℕ → ℕ) → ℕ → Res Nso → Type 0
OpenedNso bytes size (ok nso) = (nso.source ≡ byte_source_from_memory bytes size) × LaidOut size nso
OpenedNso bytes size (err code) = IsRefused code

named :
    (bytes : ℕ → ℕ) (size offset length : ℕ) (nso : Nso)
    → nso.source ≡ byte_source_from_memory bytes size
    → LaidOut size nso
    → OpenedNso bytes size (with_module_name (byte_source_from_memory bytes size) offset length nso)
unfolding with_module_name
named bytes size offset length nso same laid =
    let source = byte_source_from_memory bytes size in
    let copy_size = if ltb max_module_name_bytes length then max_module_name_bytes else length in
    elim (Bool-cases (length == 0)) [
      | inl empty ↦ rw (OpenedNso, empty) (same, laid)
      | inr long ↦ elim (Bool-cases (ltb source.size offset || ltb (source.size - offset) length)) [
        | inl bad ↦ rw (OpenedNso, long, bad) (inl refl)
        | inr fits ↦
            rw
              (
                OpenedNso,
                long,
                fits,
                memory_read bytes size offset copy_size (ground (arith, memory_size bytes size)),
              )
              (same, laid)
      ]
    ]

check_segments_lem :
    (bytes header : ℕ → ℕ) (size flags : ℕ) (segments : List Segment)
    → ((i : ℕ) → header i < 256)
    → SegmentsOf size 3 (some segments)
    → OpenedNso bytes size
        (check_segments (byte_source_from_memory bytes size) header flags segments)
unfolding check_segments describe_nso
check_segments_lem bytes header size flags segments small segs =
    let source = byte_source_from_memory bytes size in
    let rodata_size = (rodata_of segments).memory_size in
    elim (Bool-cases (all_in_order segments)) [
      | inr bad ↦ rw (OpenedNso, bad) (inl refl)
      | inl ordered ↦
          elim (Bool-cases (
            not (rodata_section_in_bounds (read_rodata_section header 0x88) rodata_size)
            || not (rodata_section_in_bounds (read_rodata_section header 0x90) rodata_size)
            || not (rodata_section_in_bounds (read_rodata_section header 0x98) rodata_size))) [
              | inl bad ↦ rw (OpenedNso, ordered, bad) (inl refl)
              | inr inside ↦
                  rw (OpenedNso, ordered, inside)
                    (named bytes size (byte_source_le32 header 0x1C) (byte_source_le32 header 0x2C)
                      (describe_nso source header flags segments) refl
                      (describe_nso_lem source header flags size segments small segs ordered
                        inside))
            ]
    ]

open_segments_lem :
    (bytes header : ℕ → ℕ) (size flags : ℕ)
    → ((i : ℕ) → header i < 256)
    → OpenedNso bytes size (open_segments (byte_source_from_memory bytes size) header flags)
unfolding open_segments
open_segments_lem bytes header size flags small =
    rw (OpenedNso, memory_size bytes size)
      (checked (read_segments header flags size 0 3)
        (read_segments_lem header flags size 0 3 small))
  where
    checked :
        (r : Option (List Segment))
        → SegmentsOf size 3 r
        → OpenedNso bytes size (elim r [
          | none ↦ err invalid_argument
          | some segments ↦
              check_segments (byte_source_from_memory bytes size) header flags segments
        ])
    checked none segs = inl refl
    checked (some segments) segs = check_segments_lem bytes header size flags segments small segs

open_header_lem :
    (bytes header : ℕ → ℕ) (size : ℕ)
    → ((i : ℕ) → header i < 256)
    → OpenedNso bytes size (open_header (byte_source_from_memory bytes size) header)
unfolding open_header
open_header_lem bytes header size small =
    elim (Bool-cases (byte_source_le32 header 0 == nso_magic)) [
      | inr bad ↦ rw (OpenedNso, bad) (inl refl)
      | inl magic ↦ elim (Bool-cases (byte_source_le32 header 0x04 == nso_version)) [
        | inr bad ↦ rw (OpenedNso, magic, bad) (inl refl)
        | inl version ↦ elim (Bool-cases (flag_set (byte_source_le32 header 0x0C) 7)) [
          | inl zstd ↦ rw (OpenedNso, magic, version, zstd) (inr refl)
          | inr plain ↦
              rw (OpenedNso, magic, version, plain)
                (open_segments_lem bytes header size (byte_source_le32 header 0x0C) small)
        ]
      ]
    ]

-- What is read of bytes are bytes.
read_small :
    (bytes : ℕ → ℕ) (p n i : ℕ)
    → ((j : ℕ) → bytes j < 256)
    → get_or (read_bytes bytes p n) i 0 < 256
unfolding read_bytes
read_small bytes p zero i small = omega arith
read_small bytes p (suc n) zero small = small p
read_small bytes p (suc n) (suc i) small = read_small bytes (p + 1) n i small

-- `nso_open` of a file of bytes in memory refuses it, or accepts an image that is laid out: three
-- segments, each with its file bytes inside the file, at most 512 MB and starting at a page, as long
-- in the file as in memory where it is not compressed; in memory one behind the other without
-- overlapping, the last one and the .bss inside the image, whose size is a multiple of the page size;
-- and the three parts of .rodata absent or inside it.
pub nso_open_lem :
    (bytes : ℕ → ℕ) (size : ℕ)
    → ((i : ℕ) → bytes i < 256)
    → OpenedNso bytes size (nso_open (byte_source_from_memory bytes size))
unfolding nso_open
nso_open_lem bytes size small =
    let source = byte_source_from_memory bytes size in
    elim (Bool-cases (ltb source.size 0x100)) [
      | inl short ↦ rw (OpenedNso, short) (inl refl)
      | inr long ↦
          rw
            (
              OpenedNso,
              long,
              memory_read bytes size 0 0x100 (ground (arith, memory_size bytes size)),
            )
            (open_header_lem bytes (λ i. get_or (read_bytes bytes 0 0x100) i 0) size
              (λ i. read_small bytes 0 0x100 i small))
    ]
