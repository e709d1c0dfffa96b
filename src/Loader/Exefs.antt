-- ===== src/Loader/Exefs.antt =====
-- core/hle/loader/exefs.h and exefs.c: the directory of a title's executables. The arena's copies of
-- the two tables are their bytes by offset; an entry's name, a pointer into the string table, is the
-- list of its bytes before the terminator.
use voland.Base.{ℕ, zero, suc, ◌+◌, ◌-◌, ◌*◌, ◌%◌, ◌^◌, Bool, true, false, not, ◌||◌, ◌&&◌}
use voland.Base.{Option, none, some, List, [], ◌∷◌, map, length, get_or, same_bytes}
use voland.Base.{ltb, leb, ◌==◌, if◌then◌else◌}
use voland.Result.{Res, ok, err, invalid_argument, out_of_memory}
use voland.Arena.{Arena, arena_allocate}
use voland.Loader.ByteSource.{
  ByteSource, byte_source_read, byte_source_slice, byte_source_le32, byte_source_le64,
}
pub mod Entries
pub mod Reads
pub mod Opened
mod Tests

-- The constants of exefs.h.
abbrev pub exefs_magic : ℕ
exefs_magic = 0x30534650

abbrev pub exefs_header_size : ℕ
exefs_header_size = 0x10

abbrev pub exefs_entry_size : ℕ
exefs_entry_size = 0x18

abbrev pub max_file_count : ℕ
max_file_count = 64

abbrev pub max_string_table_bytes : ℕ
max_string_table_bytes = 0x10000

-- `ExeFS_Entry`, and `ExeFS`, whose `file_count` is the length of `entries`.
pub record ExefsEntry : Type 0 where
  pub name : List ℕ
  pub offset : ℕ
  pub size : ℕ

pub record Exefs : Type 0 where
  pub source : ByteSource
  pub entries : List ExefsEntry
  pub data_region_offset : ℕ

-- The string at `p` with its terminator within `left` bytes, as `memchr` finds it.
unfoldable pub terminated : (ℕ → ℕ) → ℕ → ℕ → Option (List ℕ)
terminated table p zero = none
terminated table p (suc left) =
    let rest = terminated table (p + 1) left in
    if table p == 0 then some [] else elim rest [ none ↦ none | some s ↦ some (table p ∷ s) ]

-- What the loop of `exefs_open` reads from: the two tables and the data region.
pub record Directory : Type 0 where
  pub raw_entries : ℕ → ℕ
  pub string_table : ℕ → ℕ
  pub string_table_size : ℕ
  pub data_region_offset : ℕ
  pub data_region_size : ℕ

-- One round of the loop, on the entry at `raw`.
unfoldable pub read_entry : Directory → ℕ → Res ExefsEntry
read_entry dir raw =
    let data_offset = byte_source_le64 dir.raw_entries raw in
    let data_size = byte_source_le64 dir.raw_entries (raw + 0x08) in
    let name_offset = byte_source_le32 dir.raw_entries (raw + 0x10) in
    if ltb dir.data_region_size data_offset || ltb (dir.data_region_size - data_offset) data_size
    then err invalid_argument
    else if leb dir.string_table_size name_offset
    then err invalid_argument
    else elim (terminated dir.string_table name_offset (dir.string_table_size - name_offset)) [
      | none ↦ err invalid_argument
      | some name ↦
          ok (record {
            name = name;
            offset = dir.data_region_offset + data_offset;
            size = data_size;
          })
    ]

-- An entry before the others.
abbrev pub before : ExefsEntry → Res (List ExefsEntry) → Res (List ExefsEntry)
before entry (err code) = err code
before entry (ok entries) = ok (entry ∷ entries)

-- The loop, with `left` entries still to read.
unfoldable pub read_entries : Directory → ℕ → ℕ → Res (List ExefsEntry)
read_entries dir raw zero = ok []
read_entries dir raw (suc left) = elim (read_entry dir raw) [
  | err code ↦ err code
  | ok entry ↦ before entry (read_entries dir (raw + exefs_entry_size) left)
]

-- `exefs_open` after the three allocations.
unfoldable pub load_directory : ByteSource → ℕ → ℕ → Res Exefs
load_directory source file_count string_table_size =
    let string_table_offset = exefs_header_size + file_count * exefs_entry_size in
    let data_region_offset = string_table_offset + string_table_size in
    elim (byte_source_read source exefs_header_size (file_count * exefs_entry_size)) [
      | err code ↦ err code
      | ok raw ↦ elim (byte_source_read source string_table_offset string_table_size) [
        | err code ↦ err code
        | ok strings ↦
            elim (read_entries
              (record {
                raw_entries = λ i. get_or raw i 0;
                string_table = λ i. get_or strings i 0;
                string_table_size = string_table_size;
                data_region_offset = data_region_offset;
                data_region_size = source.size - data_region_offset;
              })
              0 file_count) [
                | err code ↦ err code
                | ok entries ↦ ok (record {
                  source = source;
                  entries = entries;
                  data_region_offset = data_region_offset;
                })
              ]
      ]
    ]

-- The three allocations, all made before any is tested.
unfoldable pub allocate_tables : Arena → ℕ → ℕ → Bool × Arena
allocate_tables arena file_count string_table_size =
    let raw =
      arena_allocate arena (if file_count == 0 then 1 else file_count * exefs_entry_size) 1 in
    let strings = arena_allocate raw.1 (string_table_size + 1) 1 in
    let entries = arena_allocate strings.1 (if file_count == 0 then 24 else file_count * 24) 8 in
    (is_there raw.0 && (is_there strings.0 && is_there entries.0), entries.1)
  where
    is_there : Option ℕ → Bool
    is_there none = false
    is_there (some pointer) = true

-- `exefs_open` after the magic: the caps, the directory's room, the tables.
unfoldable pub open_tables : ByteSource → Arena → ℕ → ℕ → Res Exefs × Arena
open_tables source arena file_count string_table_size =
    if ltb max_file_count file_count
    then (err invalid_argument, arena)
    else if ltb max_string_table_bytes string_table_size
    then (err invalid_argument, arena)
    else if ltb source.size (exefs_header_size + file_count * exefs_entry_size + string_table_size)
    then (err invalid_argument, arena)
    else let tables = allocate_tables arena file_count string_table_size in
      if not tables.0
      then (err out_of_memory, tables.1)
      else (load_directory source file_count string_table_size, tables.1)

-- `exefs_open`
unfoldable pub exefs_open : ByteSource → Arena → Res Exefs × Arena
exefs_open source arena = elim (byte_source_read source 0 exefs_header_size) [
  | err code ↦ (err code, arena)
  | ok bytes ↦
      let header = λ (i : ℕ). get_or bytes i 0 in
      if not (byte_source_le32 header 0 == exefs_magic)
      then (err invalid_argument, arena)
      else open_tables source arena (byte_source_le32 header 0x04) (byte_source_le32 header 0x08)
]

-- The loop of `exefs_find`.
unfoldable pub find_entry : List ExefsEntry → List ℕ → Option ExefsEntry
find_entry [] name = none
find_entry (entry ∷ entries) name =
    let rest = find_entry entries name in if same_bytes entry.name name then some entry else rest

-- `exefs_find`
unfoldable pub exefs_find : Exefs → List ℕ → Option ExefsEntry
exefs_find fs name = find_entry fs.entries name

-- `exefs_read`
unfoldable pub exefs_read : Exefs → ExefsEntry → ℕ → ℕ → Res (List ℕ)
exefs_read fs entry offset size =
    if ltb entry.size offset || ltb (entry.size - offset) size
    then err invalid_argument
    else byte_source_read fs.source ((entry.offset + offset) % 2 ^ 64) size

-- `exefs_entry_source`
unfoldable pub exefs_entry_source : Exefs → ExefsEntry → Res ByteSource
exefs_entry_source fs entry = byte_source_slice fs.source entry.offset entry.size
