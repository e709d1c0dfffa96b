-- ===== src/Loader/Exefs/Opened.antt =====
-- What core/hle/loader/exefs.c gives of a directory that it opens.
use voland.Base.{ℕ, ◌+◌, ◌-◌, ◌*◌, ◌^◌, ◌≤◌, ◌<◌, ◌≡◌, refl, arith, ◌⊎◌, true, ◌||◌}
use voland.Base.{List, length, get_or, All}
use voland.Base.{ltb, ◌==◌, inl, inr, Bool-cases}
use voland.Result.{Res, ok, err, invalid_argument, out_of_memory}
use voland.Vmm.Access.{read_bytes}
use voland.Arena.{Arena}
use voland.Loader.ByteSource.{
  ByteSource, byte_source_read, byte_source_from_memory, byte_source_le32, memory_read, memory_size,
  get_or-read_bytes,
}
use voland.Loader.Exefs.{
  ExefsEntry, Exefs, Directory, read_entries, load_directory, allocate_tables, open_tables,
  exefs_open, exefs_find, exefs_magic, exefs_header_size, exefs_entry_size, max_file_count,
}
use voland.Loader.Exefs.Entries.{EntryInside, EntriesAt, EntriesOf, IsShown, read_entries_lem}
use voland.Loader.Exefs.Reads.{FoundEntry, find_entry_lem}

-- What `exefs_open` of a memory may answer.
abbrev pub OpenedExefs : (ℕ → ℕ) → ℕ → Res Exefs → Type 0
OpenedExefs bytes size (ok fs) =
    (length fs.entries ≡ byte_source_le32 bytes 0x04)
    × (length fs.entries ≤ max_file_count)
    × All (EntryInside size) fs.entries
    × EntriesAt bytes (byte_source_le32 bytes 0x04) (byte_source_le32 bytes 0x08) 0x10 fs.entries
    × ((name : List ℕ) → FoundEntry bytes size fs name fs.entries (exefs_find fs name))
OpenedExefs bytes size (err code) = (code ≡ invalid_argument) ⊎ (code ≡ out_of_memory)

-- The entries, as the directory's result.
listing : ByteSource → ℕ → Res (List ExefsEntry) → Res Exefs
listing source at r = elim r [
  | err code ↦ err code
  | ok entries ↦ ok (record { source = source; entries = entries; data_region_offset = at })
]

listing_lem :
    (bytes : ℕ → ℕ) (size at : ℕ) (r : Res (List ExefsEntry))
    → size < 2 ^ 64
    → byte_source_le32 bytes 0x04 ≤ 64
    → EntriesOf bytes size
        (byte_source_le32 bytes 0x04)
        (byte_source_le32 bytes 0x08)
        0x10
        (byte_source_le32 bytes 0x04)
        r
    → OpenedExefs bytes size (listing (byte_source_from_memory bytes size) at r)
unfolding listing exefs_find
listing_lem bytes size at (err code) small few failed = inl failed
listing_lem bytes size at (ok entries) small few (counted, inside, decoded) = (
  counted,
  omega (arith, counted),
  inside,
  decoded,
  λ name.
      find_entry_lem bytes size
        (record {
          source = byte_source_from_memory bytes size;
          entries = entries;
          data_region_offset = at;
        })
        name entries refl small inside,
)

-- The directory of a file that has room for both tables.
load_directory_lem :
    (bytes : ℕ → ℕ) (size : ℕ)
    → size < 2 ^ 64
    → exefs_header_size
        + byte_source_le32 bytes 0x04 * exefs_entry_size
        + byte_source_le32 bytes 0x08
      ≤ size
    → byte_source_le32 bytes 0x04 ≤ 64
    → OpenedExefs bytes size (
        load_directory
          (byte_source_from_memory bytes size)
          (byte_source_le32 bytes 0x04)
          (byte_source_le32 bytes 0x08))
unfolding load_directory listing
load_directory_lem bytes size small inside few =
    let count = byte_source_le32 bytes 0x04 in
    let strings = byte_source_le32 bytes 0x08 in
    let names = exefs_header_size + count * exefs_entry_size in
    let at = names + strings in
    let dir : Directory = record {
      raw_entries = λ i. get_or (read_bytes bytes exefs_header_size (count * exefs_entry_size)) i 0;
      string_table = λ i. get_or (read_bytes bytes names strings) i 0;
      string_table_size = strings;
      data_region_offset = at;
      data_region_size = (byte_source_from_memory bytes size).size - at;
    } in
    let shown : IsShown bytes size count strings dir = record {
      raw_entries = get_or-read_bytes bytes exefs_header_size (count * exefs_entry_size);
      string_table = get_or-read_bytes bytes names strings;
      string_table_size = refl;
      data_region_offset = refl;
      inside = rw (memory_size bytes size) (omega arith);
    } in
    rw
      (
        OpenedExefs,
        memory_read bytes size exefs_header_size (count * exefs_entry_size) (omega arith),
        memory_read bytes size names strings (omega arith),
      )
      (listing_lem bytes size at (read_entries dir 0 count) small few
        (read_entries_lem shown 0 count (omega arith)))

short_read :
    (bytes : ℕ → ℕ) (size : ℕ)
    → size < 16
    → byte_source_read (byte_source_from_memory bytes size) 0 16 ≡ err invalid_argument
unfolding byte_source_read byte_source_from_memory
short_read bytes size short =
    let refused : (ltb size 0 || ltb (size - 0) 16) ≡ true = ground arith in rw refused

open_tables_lem :
    (bytes : ℕ → ℕ) (size : ℕ) (arena : Arena)
    → size < 2 ^ 64
    → OpenedExefs bytes size
        (open_tables
          (byte_source_from_memory bytes size)
          arena
          (byte_source_le32 bytes 0x04)
          (byte_source_le32 bytes 0x08)).0
unfolding open_tables
open_tables_lem bytes size arena small =
    let source = byte_source_from_memory bytes size in
    let count = byte_source_le32 bytes 0x04 in
    let strings = byte_source_le32 bytes 0x08 in
    let room = exefs_header_size + count * exefs_entry_size + strings in
    elim (Bool-cases (ltb max_file_count count)) [
      | inl bad ↦ rw (OpenedExefs, bad) (inl refl)
      | inr few ↦ elim (Bool-cases (ltb 0x10000 strings)) [
        | inl bad ↦ rw (OpenedExefs, few, bad) (inl refl)
        | inr short ↦ elim (Bool-cases (ltb source.size room)) [
          | inl bad ↦ rw (OpenedExefs, few, short, bad) (inl refl)
          | inr fits ↦ elim (Bool-cases (allocate_tables arena count strings).0) [
            | inr full ↦ rw (OpenedExefs, few, short, fits, full) (inr refl)
            | inl there ↦
                rw (OpenedExefs, few, short, fits, there)
                  (load_directory_lem bytes size small (ground (arith, memory_size bytes size))
                    (ground arith))
          ]
        ]
      ]
    ]

-- `exefs_open` of a directory in memory, of fewer than 2^64 bytes, fails with
-- RESULT_INVALID_ARGUMENT or RESULT_OUT_OF_MEMORY, or gives as many entries as the header counts, at
-- most 64, all inside the memory. Each has the size that its 24 bytes state, the stated offset counted
-- from the end of the string table, and the name that stands, with its NUL, at the stated place of
-- that table. `exefs_find` then gives an entry that has the name asked for, or none where no entry has
-- it, and a read of at least one byte of the entry it gives is, also outside the entry, what a read of
-- the entry's own bytes alone would give.
pub exefs_open_lem :
    (bytes : ℕ → ℕ) (size : ℕ) (arena : Arena)
    → size < 2 ^ 64
    → OpenedExefs bytes size (exefs_open (byte_source_from_memory bytes size) arena).0
unfolding exefs_open byte_source_le32 read_bytes
exefs_open_lem bytes size arena small = elim (Bool-cases (ltb size 16)) [
  | inl short ↦ rw (OpenedExefs, short_read bytes size (ground arith)) (inl refl)
  | inr long ↦
      rw (OpenedExefs, memory_read bytes size 0 16 (ground arith))
        (elim (Bool-cases (byte_source_le32 bytes 0 == exefs_magic)) [
          | inr bad ↦ rw bad (inl refl)
          | inl magic ↦ rw magic (open_tables_lem bytes size arena small)
        ])
]
