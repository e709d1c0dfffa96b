-- ===== src/Loader/Romfs/Tests.antt =====
-- Runs of core/hle/loader/romfs.c on an image with the directory `a` and the file `a/b`.
use voland.Base.{ℕ, ◌≤◌, ◌≡◌, refl, arith, true, false}
use voland.Base.{List, [], ◌∷◌, ◌++◌, get_or}
use voland.Result.{ok}
use voland.Vmm.Access.{read_bytes}
use voland.Hle.SvcMemory.Query.{le_bytes}
use voland.Loader.ByteSource.{byte_source_from_memory, byte_source_le32}
use voland.Loader.Romfs.{
  RomFs, no_entry, root_dir_offset, romfs_dir_entry, find_child_dir, search_chain,
  check_entry_bounds, romfs_path_hash, hash_bytes,
}
use voland.Loader.Romfs.Path.{romfs_find_dir, romfs_find_file}
use voland.Loader.Romfs.Children.{FoundDir, find_child_dir_lem}
use voland.Loader.Romfs.Walks.{descend, path_bytes}
use voland.Loader.Romfs.Resolve.{
  spelled, lookup_dir, lookup_file, romfs_find_lem, romfs_find_dir-two_separators,
}

abbrev name_a : List ℕ
name_a = b'a' ∷ []

abbrev name_b : List ℕ
name_b = b'b' ∷ []

dirs : List ℕ
unfolding le_bytes
dirs =
    le_bytes 4 0
    ++ (le_bytes 4 no_entry
        ++ (le_bytes 4 0x18
            ++ (le_bytes 4 no_entry
                ++ (le_bytes 4 no_entry
                    ++ (le_bytes 4 0
                        ++ (le_bytes 4 0
                            ++ (le_bytes 4 no_entry
                                ++ (le_bytes 4 no_entry
                                    ++ (le_bytes 4 0
                                        ++ (le_bytes 4 0
                                            ++ (le_bytes 4 1 ++ le_bytes 4 b'a')))))))))))

files : List ℕ
unfolding le_bytes
files =
    le_bytes 4 0x18
    ++ (le_bytes 4 no_entry
        ++ (le_bytes 8 0
            ++ (le_bytes 8 5 ++ (le_bytes 4 no_entry ++ (le_bytes 4 1 ++ le_bytes 4 b'b')))))

abbrev image : RomFs
image = record {
  source = byte_source_from_memory (λ i. i) 0x200;
  file_data_offset = 0x100;
  dir_table = λ i. get_or dirs i 0;
  dir_table_size = 0x34;
  file_table = λ i. get_or files i 0;
  file_table_size = 0x24;
  dir_hash_table = λ i. 0x18;
  dir_bucket_count = 1;
  file_hash_table = λ i. 0;
  file_bucket_count = 1;
}

find_child_dir_lem_example : FoundDir image 0 name_a (find_child_dir image 0 name_a)
find_child_dir_lem_example = find_child_dir_lem image 0 name_a

source_within : image.file_data_offset ≤ image.source.size
unfolding byte_source_from_memory
source_within = omega arith

romfs_find_lem_example :
    (romfs_find_dir image (spelled true false (path_bytes (name_a ∷ []) name_b))
      ≡ lookup_dir image (name_a ∷ []) name_b)
    × (romfs_find_file image (spelled true false (path_bytes (name_a ∷ []) name_b))
        ≡ lookup_file image false (name_a ∷ []) name_b)
romfs_find_lem_example =
    romfs_find_lem image true false (name_a ∷ []) name_b (omega arith) (omega arith) (omega arith)

down : descend image 0 (name_a ∷ []) ≡ ok 0x18
unfolding descend find_child_dir search_chain romfs_dir_entry check_entry_bounds romfs_path_hash
    hash_bytes byte_source_le32 read_bytes dirs
down = refl

-- `a//` resolves to the root.
romfs_find_dir-two_separators_example :
    romfs_find_dir image (spelled false true (path_bytes (name_a ∷ []) []))
    ≡ romfs_dir_entry image root_dir_offset
romfs_find_dir-two_separators_example =
    romfs_find_dir-two_separators image false name_a [] (omega arith) (omega arith) down
