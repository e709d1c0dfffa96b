-- ===== src/Loader/ByteSource.antt =====
-- core/hle/loader/byte_source.h and byte_source.c: checked reads, slices, and the decoding of
-- little-endian fields. A source is its size with its read function; the platform's read functions
-- are not under the repository's control, so a source is an argument everywhere.
use voland.Base.{ℕ, zero, suc, ◌+◌, ◌-◌, ◌*◌, ◌%◌, ◌^◌, ◌≤◌, ◌<◌, ◌≡◌, refl, arith, false, ◌||◌}
use voland.Base.{List, [], ◌∷◌, get_or, ◌∙◌, ltb, ◌==◌, if◌then◌else◌, inl, inr, Bool-cases, ap}
use voland.Result.{Res, ok, err, invalid_argument}
use voland.Vmm.Access.{read_bytes}

-- `Byte_Source`, with `user` inside the function.
pub record ByteSource : Type 0 where
  pub size : ℕ
  pub read : ℕ → ℕ → Res (List ℕ)

-- `byte_source_read`
unfoldable pub byte_source_read : ByteSource → ℕ → ℕ → Res (List ℕ)
byte_source_read src offset size =
    if size == 0
    then ok []
    else if ltb src.size offset || ltb (src.size - offset) size
    then err invalid_argument
    else src.read offset size

-- `byte_source_from_memory`, with `memory_source_read`.
unfoldable pub byte_source_from_memory : (ℕ → ℕ) → ℕ → ByteSource
byte_source_from_memory bytes size = record {
  size = size;
  read = λ offset n. ok (read_bytes bytes offset n);
}

-- What `byte_source_slice` writes to `out->source`, with `slice_read`.
unfoldable pub window_of : ByteSource → ℕ → ℕ → ByteSource
window_of parent offset size = record {
  size = size;
  read = λ o n. byte_source_read parent ((offset + o) % 2 ^ 64) n;
}

-- `byte_source_slice`
unfoldable pub byte_source_slice : ByteSource → ℕ → ℕ → Res ByteSource
byte_source_slice parent offset size =
    if ltb parent.size offset || ltb (parent.size - offset) size
    then err invalid_argument
    else ok (window_of parent offset size)

-- `byte_source_le32` and `byte_source_le64`: the bytes share no bit, so the bitwise or is a sum.
unfoldable pub byte_source_le32 : (ℕ → ℕ) → ℕ → ℕ
byte_source_le32 bytes p =
    bytes p + bytes (p + 1) * 2 ^ 8 + bytes (p + 2) * 2 ^ 16 + bytes (p + 3) * 2 ^ 24

unfoldable pub byte_source_le64 : (ℕ → ℕ) → ℕ → ℕ
byte_source_le64 bytes p = byte_source_le32 bytes p + byte_source_le32 bytes (p + 4) * 2 ^ 32

-- A read of a memory within its size.
pub memory_read :
    (bytes : ℕ → ℕ) (size offset n : ℕ)
    → offset + n ≤ size
    → byte_source_read (byte_source_from_memory bytes size) offset n
      ≡ ok (read_bytes bytes offset n)
unfolding byte_source_read byte_source_from_memory read_bytes
memory_read bytes size offset zero inside = refl
memory_read bytes size offset (suc n) inside =
    let reach : (ltb size offset || ltb (size - offset) (suc n)) ≡ false = ground arith in
    let some_bytes : (suc n == 0) ≡ false = ground arith in rw (some_bytes, reach)

pub memory_size : (bytes : ℕ → ℕ) (size : ℕ) → (byte_source_from_memory bytes size).size ≡ size
unfolding byte_source_from_memory
memory_size bytes size = refl

-- A byte of what was read.
pub get_or-read_bytes :
    (bytes : ℕ → ℕ) (offset n i : ℕ)
    → i < n
    → get_or (read_bytes bytes offset n) i 0 ≡ bytes (offset + i)
unfolding read_bytes
get_or-read_bytes bytes offset zero i lt = absurd (omega (arith, lt))
get_or-read_bytes bytes offset (suc n) zero lt = ap bytes (omega arith)
get_or-read_bytes bytes offset (suc n) (suc i) lt =
    get_or-read_bytes bytes (offset + 1) n i (omega (arith, lt)) ∙ ap bytes (omega arith)

-- Fields of a table that shows the bytes from `base` on.
module _ (table bytes : ℕ → ℕ) (base limit : ℕ)
    (shown : (i : ℕ) → i < limit → table i ≡ bytes (base + i)) where
  pub byte_source_le32-shown :
      (p : ℕ) → p + 4 ≤ limit → byte_source_le32 table p ≡ byte_source_le32 bytes (base + p)
  unfolding byte_source_le32
  byte_source_le32-shown p room =
      let a = shown p (omega (arith, room)) in
      let b : table (p + 1) ≡ bytes (base + p + 1) =
        shown (p + 1) (omega (arith, room)) ∙ ap bytes (omega arith) in
      let c : table (p + 2) ≡ bytes (base + p + 2) =
        shown (p + 2) (omega (arith, room)) ∙ ap bytes (omega arith) in
      let d : table (p + 3) ≡ bytes (base + p + 3) =
        shown (p + 3) (omega (arith, room)) ∙ ap bytes (omega arith) in
      rw (a, b, c, d)

  pub byte_source_le64-shown :
      (p : ℕ) → p + 8 ≤ limit → byte_source_le64 table p ≡ byte_source_le64 bytes (base + p)
  unfolding byte_source_le64
  byte_source_le64-shown p room =
      let low = byte_source_le32-shown p (omega (arith, room)) in
      let high : byte_source_le32 table (p + 4) ≡ byte_source_le32 bytes (base + p + 4) =
        byte_source_le32-shown (p + 4) (omega (arith, room))
        ∙ ap (byte_source_le32 bytes) (omega arith) in
      rw (low, high)

-- Bytes of a shifted memory.
read_bytes_shift :
    (bytes : ℕ → ℕ) (offset n o : ℕ)
    → read_bytes bytes (offset + o) n ≡ read_bytes (λ i. bytes (offset + i)) o n
unfolding read_bytes
read_bytes_shift bytes offset zero o = refl
read_bytes_shift bytes offset (suc n) o =
    let next : offset + o + 1 ≡ offset + (o + 1) = omega arith in
    rw next (ap (λ r. bytes (offset + o) ∷ r) (read_bytes_shift bytes offset n (o + 1)))

-- The window reads as the memory that it shows.
pub window_of_memory :
    (bytes : ℕ → ℕ) (size offset window o n : ℕ)
    → size < 2 ^ 64
    → offset + window ≤ size
    → byte_source_read (window_of (byte_source_from_memory bytes size) offset window) o n
      ≡ byte_source_read (byte_source_from_memory (λ i. bytes (offset + i)) window) o n
unfolding byte_source_read byte_source_from_memory window_of
window_of_memory bytes size offset window o zero small fits = refl
window_of_memory bytes size offset window o (suc n) small fits =
    elim (Bool-cases (ltb window o || ltb (window - o) (suc n))) [
      | inl out ↦ rw out (ground arith)
      | inr inside ↦
          let at : (offset + o) % 2 ^ 64 ≡ offset + o = ground arith in
          let reach : (ltb size (offset + o) || ltb (size - (offset + o)) (suc n)) ≡ false =
            ground arith in
          rw (inside, at, reach) (ground (arith, read_bytes_shift bytes offset (suc n) o))
    ]

-- What `byte_source_slice` of a memory may give.
abbrev pub SliceOf : (ℕ → ℕ) → ℕ → ℕ → ℕ → Res ByteSource → Type 0
SliceOf bytes size offset window (ok s) =
    (s.size ≡ window)
    × (offset + window ≤ size)
    × ((o n : ℕ)
        → byte_source_read s o n
          ≡ byte_source_read (byte_source_from_memory (λ i. bytes (offset + i)) window) o n)
SliceOf bytes size offset window (err code) = (code ≡ invalid_argument) × (size < offset + window)

-- `byte_source_slice` of a memory succeeds exactly where the window lies inside it, also where the
-- window's end would wrap. Every read through the slice, wherever it points, then gives the bytes or
-- the error that a read of the window's memory alone would give, so that nothing outside the window
-- is ever read.
pub byte_source_slice_lem :
    (bytes : ℕ → ℕ) (size offset window : ℕ)
    → size < 2 ^ 64
    → SliceOf bytes size offset window
        (byte_source_slice (byte_source_from_memory bytes size) offset window)
unfolding byte_source_slice byte_source_from_memory window_of
byte_source_slice_lem bytes size offset window small =
    elim (Bool-cases (ltb size offset || ltb (size - offset) window)) [
      | inl bad ↦ rw bad (refl, ground arith)
      | inr fits ↦ rw fits (
        refl,
        ground arith,
        λ o n. window_of_memory bytes size offset window o n small (ground arith),
      )
    ]
