-- ===== src/Loader/Nso/Content.antt =====
-- What nso_read_segment of core/hle/loader/nso.c puts into the output.
use voland.Base.{ℕ, zero, suc, ◌+◌, ◌≤◌, ◌<◌, ◌≡◌, refl, arith, true, false, ◌||◌}
use voland.Base.{
  Option, none, some, List, get_or, length, All-get_or, ltb, leb, ◌==◌, if◌then◌else◌,
}
use voland.Base.{inl, inr, Bool-cases, ◌⊎◌}
use voland.Result.{Res, ok, err, invalid_argument, out_of_memory}
use voland.Vmm.Access.{read_bytes}
use voland.Arena.{Arena, arena_allocate}
use voland.Loader.ByteSource.{byte_source_read, byte_source_from_memory, memory_read}
use voland.Loader.Nso.{Nso, Segment, no_segment, segment_count}
use voland.Loader.Nso.Segments.{
  decoded, staged, read_compressed, read_with_scratch, nso_read_segment,
}
use voland.Loader.Nso.Layout.{SegmentChecked}
use voland.Loader.Nso.Opened.{OpenedNso}

-- What reading a segment may answer.
abbrev pub SegmentRead : (ℕ → ℕ) → Segment → ℕ → ℕ → Res (List ℕ) → Type 0
SegmentRead bytes segment kind out_size (ok content) =
    (kind < 3)
    × (length content ≡ segment.memory_size)
    × (length content ≤ out_size)
    × ((segment.is_compressed ≡ true)
        ⊎ (content ≡ read_bytes bytes segment.file_offset segment.memory_size))
SegmentRead bytes segment kind out_size (err code) =
    ((code ≡ invalid_argument) ⊎ (code ≡ out_of_memory))
    × ((3 ≤ kind) ⊎ ((out_size < segment.memory_size) ⊎ (segment.is_compressed ≡ true)))

length-read_bytes : (bytes : ℕ → ℕ) (p n : ℕ) → length (read_bytes bytes p n) ≡ n
unfolding read_bytes
length-read_bytes bytes p zero = refl
length-read_bytes bytes p (suc n) = omega (arith, length-read_bytes bytes (p + 1) n)

module _ (lz4 : List ℕ → ℕ → Option (List ℕ)) where
  decoded_lem :
      (bytes : ℕ → ℕ) (segment : Segment) (kind out_size : ℕ) (r : Option (List ℕ))
      → kind < 3
      → segment.memory_size ≤ out_size
      → segment.is_compressed ≡ true
      → SegmentRead bytes segment kind out_size (decoded lz4 segment r)
  unfolding decoded
  decoded_lem bytes segment kind out_size none three fits packed = (inl refl, inr (inr packed))
  decoded_lem bytes segment kind out_size (some content) three fits packed =
      elim (Bool-cases (length content == segment.memory_size)) [
        | inr bad ↦ rw (SegmentRead, bad) (inl refl, inr (inr packed))
        | inl same ↦ rw (SegmentRead, same) (three, ground arith, ground arith, inl packed)
      ]

  staged_lem :
      (bytes : ℕ → ℕ) (size : ℕ) (nso : Nso) (segment : Segment) (s : Option ℕ × Arena)
      (kind out_size : ℕ)
      → nso.source ≡ byte_source_from_memory bytes size
      → segment.file_offset + segment.file_size ≤ size
      → kind < 3
      → segment.memory_size ≤ out_size
      → segment.is_compressed ≡ true
      → SegmentRead bytes segment kind out_size (staged lz4 nso segment s).0
  unfolding staged
  staged_lem bytes size nso segment (none, scratch) kind out_size same inside three fits packed =
      (inr refl, inr (inr packed))
  staged_lem bytes size nso segment (some buffer, scratch) kind out_size same inside three fits
        packed =
      rw (SegmentRead, same, memory_read bytes size segment.file_offset segment.file_size inside)
        (decoded_lem bytes segment kind out_size
          (lz4 (read_bytes bytes segment.file_offset segment.file_size) segment.memory_size) three
          fits packed)

  packed_lem :
      (bytes : ℕ → ℕ) (size : ℕ) (nso : Nso) (segment : Segment) (scratch : Option Arena)
      (kind out_size : ℕ)
      → nso.source ≡ byte_source_from_memory bytes size
      → segment.file_offset + segment.file_size ≤ size
      → kind < 3
      → segment.memory_size ≤ out_size
      → segment.is_compressed ≡ true
      → SegmentRead bytes segment kind out_size (read_with_scratch lz4 nso segment scratch).0
  unfolding read_with_scratch read_compressed
  packed_lem bytes size nso segment none kind out_size same inside three fits packed =
      (inl refl, inr (inr packed))
  packed_lem bytes size nso segment (some arena) kind out_size same inside three fits packed =
      elim (Bool-cases (ltb 0x7E000000 segment.file_size || ltb 0x7E000000 segment.memory_size)) [
        | inl bad ↦ rw (SegmentRead, bad) (inl refl, inr (inr packed))
        | inr small ↦
            rw (SegmentRead, small)
              (staged_lem bytes size nso segment
                (arena_allocate arena (if segment.file_size == 0 then 1 else segment.file_size) 1)
                kind out_size same inside three fits packed)
      ]

  -- A raw segment.
  raw_lem :
      (bytes : ℕ → ℕ) (size : ℕ) (nso : Nso) (segment : Segment) (kind out_size : ℕ)
      → nso.source ≡ byte_source_from_memory bytes size
      → segment.file_offset + segment.memory_size ≤ size
      → kind < 3
      → segment.memory_size ≤ out_size
      → SegmentRead bytes segment kind out_size
          (byte_source_read nso.source segment.file_offset segment.memory_size)
  raw_lem bytes size nso segment kind out_size same inside three fits =
      let all = length-read_bytes bytes segment.file_offset segment.memory_size in
      rw (SegmentRead, same, memory_read bytes size segment.file_offset segment.memory_size inside)
        (three, all, omega (arith, all), inr refl)

  raw_size :
      (size : ℕ) (segment : Segment)
      → SegmentChecked size segment
      → segment.is_compressed ≡ false
      → segment.file_offset + segment.memory_size ≤ size
  raw_size size segment checked raw = elim checked.4 [
    | inl packed ↦ absurd (cc)
    | inr same ↦ omega (arith, checked.0)
  ]

  read_lem :
      (bytes : ℕ → ℕ) (size : ℕ) (nso : Nso) (kind out_size : ℕ) (scratch : Option Arena)
      → nso.source ≡ byte_source_from_memory bytes size
      → (kind < 3 → SegmentChecked size (get_or nso.segments kind no_segment))
      → SegmentRead bytes
          (get_or nso.segments kind no_segment)
          kind
          out_size
          (nso_read_segment lz4 nso kind scratch out_size).0
  unfolding nso_read_segment
  read_lem bytes size nso kind out_size scratch same checked =
      let segment = get_or nso.segments kind no_segment in
      elim (Bool-cases (leb segment_count kind)) [
        | inl bad ↦ rw (SegmentRead, bad) (inl refl, inl (ground arith))
        | inr three ↦ elim (Bool-cases (ltb out_size segment.memory_size)) [
          | inl bad ↦ rw (SegmentRead, three, bad) (inl refl, inr (inl (ground arith)))
          | inr fits ↦ elim (Bool-cases segment.is_compressed) [
            | inr raw ↦
                rw (SegmentRead, three, fits, raw)
                  (raw_lem bytes size nso segment kind out_size same
                    (raw_size size segment (checked (ground arith)) raw) (ground arith)
                    (ground arith))
            | inl packed ↦
                rw (SegmentRead, three, fits, packed)
                  (packed_lem bytes size nso segment scratch kind out_size same
                    (checked (ground arith)).0 (ground arith) (ground arith) packed)
          ]
        ]
      ]

  -- On an NSO that `nso_open` accepted from a memory of `size` bytes, `nso_read_segment` gives exactly
  -- the segment's memory size of bytes, no more than the output holds, whatever the decoder answers;
  -- of a segment that is not compressed they are its bytes in the file. It fails, with
  -- RESULT_INVALID_ARGUMENT or RESULT_OUT_OF_MEMORY, only for a kind that does not exist, an output
  -- that is too small or a compressed segment.
  pub nso_read_segment_lem :
      (bytes : ℕ → ℕ) (size : ℕ) (nso : Nso) (kind out_size : ℕ) (scratch : Option Arena)
      → OpenedNso bytes size (ok nso)
      → SegmentRead bytes
          (get_or nso.segments kind no_segment)
          kind
          out_size
          (nso_read_segment lz4 nso kind scratch out_size).0
  nso_read_segment_lem bytes size nso kind out_size scratch opened =
      read_lem bytes size nso kind out_size scratch opened.0 (λ three.
        All-get_or (SegmentChecked size) nso.segments kind no_segment (omega (arith, opened.1.0))
          opened.1.1)
