-- ===== src/Loader/Romfs/Open.antt =====
-- core/hle/loader/romfs.c: romfs_open. The tables are copied to the arena; what the copy holds is the
-- list of the bytes read. `decode_hash_table` decodes in place, each bucket from its own four bytes.
use voland.Base.{
  ℕ, ◌+◌, ◌-◌, ◌*◌, ◌/◌, ◌%◌, ◌^◌, ◌≤◌, ◌≡◌, refl, arith, Bool, true, false, not, ◌||◌,
}
use voland.Base.{Option, none, some, List, ltb, ◌==◌, if◌then◌else◌, get_or, inl, inr, Bool-cases}
use voland.Result.{Res, ok, err, invalid_argument, out_of_memory}
use voland.Arena.{Arena, arena_allocate}
use voland.Loader.ByteSource.{ByteSource, byte_source_read, byte_source_le32, byte_source_le64}
use voland.Loader.Romfs.{RomFs, DirEntry, root_dir_offset, romfs_dir_entry}

-- ROMFS_HEADER_SIZE, ROMFS_MAX_TABLE_BYTES
abbrev pub header_size : ℕ
header_size = 0x50

abbrev pub max_table_bytes : ℕ
max_table_bytes = 64 * 1024 * 1024

-- `Table_Range`
pub record TableRange : Type 0 where
  pub offset : ℕ
  pub size : ℕ

-- `validate_table`: whether it succeeds.
unfoldable pub validate_table : ByteSource → TableRange → Bool
validate_table source range =
    if ltb range.offset header_size
    then false
    else if ltb source.size range.offset || ltb (source.size - range.offset) range.size
    then false
    else not (ltb (2 ^ 32 - 1) range.size)

-- What the header says.
pub record Header : Type 0 where
  pub dir_hash : TableRange
  pub dir_table : TableRange
  pub file_hash : TableRange
  pub file_table : TableRange
  pub file_data_offset : ℕ

abbrev pub range_at : (ℕ → ℕ) → ℕ → TableRange
range_at header p = record {
  offset = byte_source_le64 header p;
  size = byte_source_le64 header (p + 8);
}

unfoldable pub read_header : (ℕ → ℕ) → Header
read_header header = record {
  dir_hash = range_at header 0x08;
  dir_table = range_at header 0x18;
  file_hash = range_at header 0x28;
  file_table = range_at header 0x38;
  file_data_offset = byte_source_le64 header 0x48;
}

-- The checks of `romfs_open` between the header and the loads: whether they pass.
unfoldable pub header_fits : ByteSource → Header → Bool
header_fits source h =
    if not (validate_table source h.dir_hash)
    then false
    else if not (validate_table source h.dir_table)
    then false
    else if not (validate_table source h.file_hash)
    then false
    else if not (validate_table source h.file_table)
    then false
    else if not (h.dir_hash.size % 4 == 0) || not (h.file_hash.size % 4 == 0)
    then false
    else if ltb max_table_bytes
        (h.dir_hash.size + h.dir_table.size + h.file_hash.size + h.file_table.size)
    then false
    else not (ltb source.size h.file_data_offset)

-- `load_table`
abbrev pub filled : ByteSource → TableRange → Option ℕ × Arena → Res (ℕ → ℕ) × Arena
filled source range (none, arena) = (err out_of_memory, arena)
filled source range (some buffer, arena) = elim (byte_source_read source range.offset range.size) [
  | err code ↦ (err code, arena)
  | ok bytes ↦ (ok (λ i. get_or bytes i 0), arena)
]

unfoldable pub load_table : ByteSource → Arena → TableRange → ℕ → Res (ℕ → ℕ) × Arena
load_table source arena range alignment =
    filled source range (arena_allocate arena (if range.size == 0 then 1 else range.size) alignment)

-- `decode_hash_table`
abbrev pub decode_hash_table : (ℕ → ℕ) → ℕ → ℕ
decode_hash_table table i = byte_source_le32 table (i * 4)

-- The end of `romfs_open`: the root must decode.
abbrev pub with_root : RomFs → Res RomFs
with_root fs = elim (romfs_dir_entry fs root_dir_offset) [ err code ↦ err code | ok root ↦ ok fs ]

unfoldable pub opened : ByteSource → Header → (ℕ → ℕ) → (ℕ → ℕ) → (ℕ → ℕ) → (ℕ → ℕ) → Res RomFs
opened source h dir_hash dir_table file_hash file_table = with_root (record {
  source = source;
  file_data_offset = h.file_data_offset;
  dir_table = dir_table;
  dir_table_size = h.dir_table.size;
  file_table = file_table;
  file_table_size = h.file_table.size;
  dir_hash_table = decode_hash_table dir_hash;
  dir_bucket_count = h.dir_hash.size / 4;
  file_hash_table = decode_hash_table file_hash;
  file_bucket_count = h.file_hash.size / 4;
})

-- `f` on a loaded table, or its error.
abbrev pub then_load :
    Res (ℕ → ℕ) × Arena → ((ℕ → ℕ) → Arena → Res RomFs × Arena) → Res RomFs × Arena
then_load (err code, arena) f = (err code, arena)
then_load (ok table, arena) f = f table arena

-- The four loads, in the order of the code.
unfoldable pub load_tables : ByteSource → Arena → Header → Res RomFs × Arena
load_tables source a h = then_load (load_table source a h.dir_hash 4) λ dir_hash b.
    then_load (load_table source b h.dir_table 1) λ dir_table c.
      then_load (load_table source c h.file_hash 4) λ file_hash d.
        then_load (load_table source d h.file_table 1)
          λ file_table e. (opened source h dir_hash dir_table file_hash file_table, e)

-- `romfs_open`
unfoldable pub romfs_open : ByteSource → Arena → Res RomFs × Arena
romfs_open source arena = elim (byte_source_read source 0 header_size) [
  | err code ↦ (err code, arena)
  | ok bytes ↦
      let header = λ (i : ℕ). get_or bytes i 0 in
      if not (byte_source_le64 header 0 == header_size)
      then (err invalid_argument, arena)
      else let h = read_header header in
        if not (header_fits source h)
        then (err invalid_argument, arena)
        else load_tables source arena h
]

-- What later calls rely on.
pub record IsOpen (source : ByteSource) (fs : RomFs) : Type 0 where
  pub same_source : fs.source ≡ source
  pub file_data : fs.file_data_offset ≤ source.size
  pub table_bytes : fs.dir_table_size + fs.file_table_size ≤ max_table_bytes
  pub root : (e : DirEntry) × (romfs_dir_entry fs root_dir_offset ≡ ok e)

abbrev pub OpenOutcome : ByteSource → Res RomFs × Arena → Type 0
OpenOutcome source (ok fs, arena) = IsOpen source fs
OpenOutcome source (err code, arena) = Unit {0}

opened-IsOpen :
    (source : ByteSource) (h : Header) (a b c d : ℕ → ℕ) (arena : Arena)
    → header_fits source h ≡ true
    → OpenOutcome source (opened source h a b c d, arena)
unfolding opened header_fits
opened-IsOpen source h a b c d arena fits =
    let fs : RomFs = record {
      source = source;
      file_data_offset = h.file_data_offset;
      dir_table = b;
      dir_table_size = h.dir_table.size;
      file_table = d;
      file_table_size = h.file_table.size;
      dir_hash_table = decode_hash_table a;
      dir_bucket_count = h.dir_hash.size / 4;
      file_hash_table = decode_hash_table c;
      file_bucket_count = h.file_hash.size / 4;
    } in
    go fs (romfs_dir_entry fs root_dir_offset) refl refl (ground (arith, fits))
      (ground (arith, fits))
  where
    go :
        (fs : RomFs) (r : Res DirEntry)
        → romfs_dir_entry fs root_dir_offset ≡ r
        → fs.source ≡ source
        → fs.file_data_offset ≤ source.size
        → fs.dir_table_size + fs.file_table_size ≤ max_table_bytes
        → OpenOutcome source (elim r [ err code ↦ err code | ok root ↦ ok fs ], arena)
    go fs (err code) e same data_in tables = tt
    go fs (ok root) e same data_in tables = record {
      same_source = same;
      file_data = data_in;
      table_bytes = tables;
      root = (root, e);
    }

then_load-OpenOutcome :
    (source : ByteSource) (r : Res (ℕ → ℕ) × Arena) (f : (ℕ → ℕ) → Arena → Res RomFs × Arena)
    → ((t : ℕ → ℕ) (a : Arena) → OpenOutcome source (f t a))
    → OpenOutcome source (then_load r f)
then_load-OpenOutcome source (err code, arena) f h = tt
then_load-OpenOutcome source (ok table, arena) f h = h table arena

-- An image that opens has its file data offset within the source, its tables within the arena's
-- budget, and a root directory that decodes.
pub romfs_open-IsOpen :
    (source : ByteSource) (arena : Arena) → OpenOutcome source (romfs_open source arena)
unfolding romfs_open load_tables
romfs_open-IsOpen source arena = go (byte_source_read source 0 header_size)
  where
    loaded :
        (h : Header) → header_fits source h ≡ true → OpenOutcome source (load_tables source arena h)
    loaded h fits =
        then_load-OpenOutcome source (load_table source arena h.dir_hash 4) _ λ dir_hash b.
          then_load-OpenOutcome source (load_table source b h.dir_table 1) _ λ dir_table c.
            then_load-OpenOutcome source (load_table source c h.file_hash 4) _ λ file_hash d.
              then_load-OpenOutcome source (load_table source d h.file_table 1) _ λ file_table e.
                opened-IsOpen source h dir_hash dir_table file_hash file_table e fits

    checked :
        (header : ℕ → ℕ)
        → OpenOutcome source (
            if not (byte_source_le64 header 0 == header_size)
            then (err invalid_argument, arena)
            else if not (header_fits source (read_header header))
            then (err invalid_argument, arena)
            else load_tables source arena (read_header header))
    checked header = elim (Bool-cases (byte_source_le64 header 0 == header_size)) [
      | inr e ↦ rw e tt
      | inl e ↦ elim (Bool-cases (header_fits source (read_header header))) [
        | inr f ↦ rw (e, f) tt
        | inl f ↦ rw (e, f) (loaded (read_header header) f)
      ]
    ]

    go :
        (r : Res (List ℕ))
        → OpenOutcome source (elim r [
          | err code ↦ (err code, arena)
          | ok bytes ↦
              let header = λ (i : ℕ). get_or bytes i 0 in
              if not (byte_source_le64 header 0 == header_size)
              then (err invalid_argument, arena)
              else let h = read_header header in
                if not (header_fits source h)
                then (err invalid_argument, arena)
                else load_tables source arena h
        ])
    go (err code) = tt
    go (ok bytes) = checked (λ i. get_or bytes i 0)
