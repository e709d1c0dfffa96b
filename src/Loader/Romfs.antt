-- ===== src/Loader/Romfs.antt =====
-- core/hle/loader/romfs.h and romfs.c: the read-only file system of a game. This file decodes entries
-- of the two tables and looks names up in the hash chains; Romfs/Open reads the tables, Romfs/Path
-- resolves paths. `romfs_open` leaves a file data offset within the source. A table is its bytes by offset; the `name` of an entry, a pointer into the table
-- with a length, is the list of its bytes.
use voland.Base.{ℕ, zero, suc, ◌+◌, ◌-◌, ◌*◌, ◌/◌, ◌%◌, ◌^◌, Bool, true, false, not, ◌||◌, ◌&&◌}
use voland.Base.{List, [], ◌∷◌, length, ltb, ◌==◌, if◌then◌else◌, same_bytes, bit_xor}
use voland.Result.{Res, ok, err, invalid_argument, not_found}
use voland.Vmm.Access.{read_bytes}
use voland.Loader.ByteSource.{
  ByteSource, byte_source_read, byte_source_slice, byte_source_le32, byte_source_le64,
}
pub mod Open
pub mod Path
pub mod Chains
pub mod Children
pub mod Walks
pub mod Resolve
mod Tests

-- ROMFS_DIR_ENTRY_FIXED_SIZE and the other constants of romfs.h.
abbrev pub dir_entry_fixed_size : ℕ
dir_entry_fixed_size = 0x18

abbrev pub file_entry_fixed_size : ℕ
file_entry_fixed_size = 0x20

abbrev pub name_alignment : ℕ
name_alignment = 4

abbrev pub no_entry : ℕ
no_entry = 0xFFFFFFFF

abbrev pub root_dir_offset : ℕ
root_dir_offset = 0

abbrev pub path_hash_seed : ℕ
path_hash_seed = 123456789

abbrev pub max_name_bytes : ℕ
max_name_bytes = 0x300

-- `RomFS`
pub record RomFs : Type 0 where
  pub source : ByteSource
  pub file_data_offset : ℕ
  pub dir_table : ℕ → ℕ
  pub dir_table_size : ℕ
  pub file_table : ℕ → ℕ
  pub file_table_size : ℕ
  pub dir_hash_table : ℕ → ℕ
  pub dir_bucket_count : ℕ
  pub file_hash_table : ℕ → ℕ
  pub file_bucket_count : ℕ

-- `RomFS_Dir_Entry`
pub record DirEntry : Type 0 where
  pub offset : ℕ
  pub parent : ℕ
  pub next_sibling : ℕ
  pub first_child_dir : ℕ
  pub first_child_file : ℕ
  pub name : List ℕ
  pub name_length : ℕ

-- `RomFS_File_Entry`
pub record FileEntry : Type 0 where
  pub offset : ℕ
  pub parent : ℕ
  pub next_sibling : ℕ
  pub data_offset : ℕ
  pub data_size : ℕ
  pub name : List ℕ
  pub name_length : ℕ

-- `check_entry_bounds`: whether it succeeds.
unfoldable pub check_entry_bounds : ℕ → ℕ → ℕ → ℕ → Bool
check_entry_bounds offset fixed_size table_size name_length =
    if offset == no_entry || not (offset % name_alignment == 0)
    then false
    else if ltb table_size offset || ltb (table_size - offset) fixed_size
    then false
    else not (ltb max_name_bytes name_length || ltb (table_size - offset - fixed_size) name_length)

-- `romfs_dir_entry`
unfoldable pub romfs_dir_entry : RomFs → ℕ → Res DirEntry
romfs_dir_entry fs offset =
    if offset == no_entry
      || ltb fs.dir_table_size offset
      || ltb (fs.dir_table_size - offset) dir_entry_fixed_size
    then err invalid_argument
    else let name_length = byte_source_le32 fs.dir_table (offset + 0x14) in
      if not (check_entry_bounds offset dir_entry_fixed_size fs.dir_table_size name_length)
      then err invalid_argument
      else ok (record {
        offset = offset;
        parent = byte_source_le32 fs.dir_table offset;
        next_sibling = byte_source_le32 fs.dir_table (offset + 0x04);
        first_child_dir = byte_source_le32 fs.dir_table (offset + 0x08);
        first_child_file = byte_source_le32 fs.dir_table (offset + 0x0C);
        name = read_bytes fs.dir_table (offset + dir_entry_fixed_size) name_length;
        name_length = name_length;
      })

-- `romfs_file_entry`
unfoldable pub romfs_file_entry : RomFs → ℕ → Res FileEntry
romfs_file_entry fs offset =
    if offset == no_entry
      || ltb fs.file_table_size offset
      || ltb (fs.file_table_size - offset) file_entry_fixed_size
    then err invalid_argument
    else let name_length = byte_source_le32 fs.file_table (offset + 0x1C) in
      if not (check_entry_bounds offset file_entry_fixed_size fs.file_table_size name_length)
      then err invalid_argument
      else let data_offset = byte_source_le64 fs.file_table (offset + 0x08) in
        let data_size = byte_source_le64 fs.file_table (offset + 0x10) in
        let data_region_size = fs.source.size - fs.file_data_offset in
        if ltb data_region_size data_offset || ltb (data_region_size - data_offset) data_size
        then err invalid_argument
        else ok (record {
          offset = offset;
          parent = byte_source_le32 fs.file_table offset;
          next_sibling = byte_source_le32 fs.file_table (offset + 0x04);
          data_offset = fs.file_data_offset + data_offset;
          data_size = data_size;
          name = read_bytes fs.file_table (offset + file_entry_fixed_size) name_length;
          name_length = name_length;
        })

-- The loop of `romfs_path_hash`: a rotation right by 5 of 32 bits, and the next byte.
unfoldable pub hash_bytes : ℕ → List ℕ → ℕ
hash_bytes hash [] = hash
hash_bytes hash (b ∷ bs) = hash_bytes (bit_xor (hash / 2 ^ 5 + hash % 2 ^ 5 * 2 ^ 27) b) bs

-- `romfs_path_hash`
unfoldable pub romfs_path_hash : ℕ → List ℕ → ℕ
romfs_path_hash parent_dir_offset name = hash_bytes (bit_xor parent_dir_offset path_hash_seed) name

-- The loop of `find_child_dir` and `find_child_file`, which differ in how an entry is decoded, where
-- its link stands and when it is the one: `steps` is `max_steps - step`.
unfoldable pub search_chain {ℓ} : {E : Type ℓ} → (ℕ → Res E) → (ℕ → ℕ) → (E → Bool) → ℕ → ℕ → Res E
search_chain decode link is_match zero offset =
    if offset == no_entry then err not_found else err invalid_argument
search_chain decode link is_match (suc steps) offset =
    let rest = search_chain decode link is_match steps (link offset) in
    if offset == no_entry then err not_found else elim (decode offset) [
      | err code ↦ err code
      | ok entry ↦ if is_match entry then ok entry else rest
    ]

abbrev pub is_dir_named : ℕ → List ℕ → DirEntry → Bool
is_dir_named parent name entry =
    entry.parent == parent && entry.name_length == length name && same_bytes entry.name name

abbrev pub is_file_named : ℕ → List ℕ → FileEntry → Bool
is_file_named parent name entry =
    entry.parent == parent && entry.name_length == length name && same_bytes entry.name name

-- The link fields, `next_in_bucket`.
abbrev pub dir_link : RomFs → ℕ → ℕ
dir_link fs offset = byte_source_le32 fs.dir_table (offset + 0x10)

abbrev pub file_link : RomFs → ℕ → ℕ
file_link fs offset = byte_source_le32 fs.file_table (offset + 0x18)

-- `max_steps`
abbrev pub dir_steps : RomFs → ℕ
dir_steps fs = fs.dir_table_size / dir_entry_fixed_size + 1

abbrev pub file_steps : RomFs → ℕ
file_steps fs = fs.file_table_size / file_entry_fixed_size + 1

-- `find_child_dir`
unfoldable pub find_child_dir : RomFs → ℕ → List ℕ → Res DirEntry
find_child_dir fs parent name =
    if fs.dir_bucket_count == 0
    then err not_found
    else search_chain (romfs_dir_entry fs) (dir_link fs) (is_dir_named parent name) (dir_steps fs)
        (fs.dir_hash_table (romfs_path_hash parent name % fs.dir_bucket_count))

-- `find_child_file`
unfoldable pub find_child_file : RomFs → ℕ → List ℕ → Res FileEntry
find_child_file fs parent name =
    if fs.file_bucket_count == 0
    then err not_found
    else search_chain (romfs_file_entry fs) (file_link fs) (is_file_named parent name)
        (file_steps fs) (fs.file_hash_table (romfs_path_hash parent name % fs.file_bucket_count))

-- `romfs_read_file`
unfoldable pub romfs_read_file : RomFs → FileEntry → ℕ → ℕ → Res (List ℕ)
romfs_read_file fs entry offset size =
    if ltb entry.data_size offset || ltb (entry.data_size - offset) size
    then err invalid_argument
    else byte_source_read fs.source ((entry.data_offset + offset) % 2 ^ 64) size

-- `romfs_file_source`
unfoldable pub romfs_file_source : RomFs → FileEntry → Res ByteSource
romfs_file_source fs entry = byte_source_slice fs.source entry.data_offset entry.data_size
