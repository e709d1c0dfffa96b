-- ===== src/Loader/Nso/Segments.antt =====
-- core/hle/loader/nso.c: nso_read_segment. `lz4` is LZ4_decompress_safe, a library's: from the
-- compressed bytes and the size of the output, the bytes that it writes, or `none` for a malformed
-- stream. On success `out` begins with the bytes of the answer.
use voland.Base.{ℕ, not, ◌||◌}
use voland.Base.{Option, none, some, List, get_or, length, ltb, leb, ◌==◌, if◌then◌else◌}
use voland.Result.{Res, ok, err, invalid_argument, out_of_memory}
use voland.Arena.{Arena, arena_allocate}
use voland.Loader.ByteSource.{byte_source_read}
use voland.Loader.Nso.{Nso, Segment, segment_count, no_segment}

-- LZ4_MAX_INPUT_SIZE
abbrev pub lz4_max_input_size : ℕ
lz4_max_input_size = 0x7E000000

module _ (lz4 : List ℕ → ℕ → Option (List ℕ)) where
  -- What the decoder's answer gives.
  unfoldable pub decoded : Segment → Option (List ℕ) → Res (List ℕ)
  decoded segment none = err invalid_argument
  decoded segment (some bytes) =
      if not (length bytes == segment.memory_size) then err invalid_argument else ok bytes

  -- A compressed segment in the staging buffer that the arena gave.
  unfoldable pub staged : Nso → Segment → Option ℕ × Arena → Res (List ℕ) × Arena
  staged nso segment (none, scratch) = (err out_of_memory, scratch)
  staged nso segment (some buffer, scratch) =
      elim (byte_source_read nso.source segment.file_offset segment.file_size) [
        | err code ↦ (err code, scratch)
        | ok bytes ↦ (decoded segment (lz4 bytes segment.memory_size), scratch)
      ]

  unfoldable pub read_compressed : Nso → Segment → Arena → Res (List ℕ) × Arena
  read_compressed nso segment scratch =
      staged nso segment
        (arena_allocate scratch (if segment.file_size == 0 then 1 else segment.file_size) 1)

  -- `nso_read_segment` on a compressed segment; a NULL scratch arena is `none`.
  unfoldable pub read_with_scratch : Nso → Segment → Option Arena → Res (List ℕ) × Option Arena
  read_with_scratch nso segment none = (err invalid_argument, none)
  read_with_scratch nso segment (some arena) =
      let answer = read_compressed nso segment arena in
      if ltb lz4_max_input_size segment.file_size || ltb lz4_max_input_size segment.memory_size
      then (err invalid_argument, some arena)
      else (answer.0, some answer.1)

  -- `nso_read_segment`
  unfoldable pub nso_read_segment : Nso → ℕ → Option Arena → ℕ → Res (List ℕ) × Option Arena
  nso_read_segment nso kind scratch out_size =
      let segment = get_or nso.segments kind no_segment in
      if leb segment_count kind
      then (err invalid_argument, scratch)
      else if ltb out_size segment.memory_size
      then (err invalid_argument, scratch)
      else if not segment.is_compressed
      then (byte_source_read nso.source segment.file_offset segment.memory_size, scratch)
      else read_with_scratch nso segment scratch
