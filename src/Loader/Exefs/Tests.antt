-- ===== src/Loader/Exefs/Tests.antt =====
-- Runs of core/hle/loader/exefs.c on a directory with the file `main` of three bytes.
use voland.Base.{ℕ, ◌≡◌, refl, arith, true, none, some, List, [], ◌∷◌, ◌++◌, get_or}
use voland.Result.{Res, ok, err}
use voland.Arena.{Arena, arena_allocate, align_up}
use voland.Vmm.Access.{read_bytes}
use voland.Hle.SvcMemory.Query.{le_bytes}
use voland.Loader.ByteSource.{
  byte_source_from_memory, byte_source_read, byte_source_le32, byte_source_le64,
}
use voland.Loader.Exefs.{
  Exefs, terminated, read_entry, read_entries, load_directory, allocate_tables, open_tables,
  exefs_open, find_entry, exefs_find, exefs_read, exefs_magic,
}
use voland.Loader.Exefs.Opened.{OpenedExefs, exefs_open_lem}

abbrev main_name : List ℕ
main_name = b'm' ∷ b'a' ∷ b'i' ∷ b'n' ∷ []

image : List ℕ
unfolding le_bytes
image =
    le_bytes 4 exefs_magic
    ++ (le_bytes 4 1
        ++ (le_bytes 4 5
            ++ (le_bytes 4 0
                ++ (le_bytes 8 0
                    ++ (le_bytes 8 3 ++ (le_bytes 8 0 ++ (main_name ++ (0 ∷ 7 ∷ 8 ∷ 9 ∷ []))))))))

bytes : ℕ → ℕ
bytes i = get_or image i 0

abbrev room : Arena
room = record { base = 0x1000; capacity_bytes = 0x1000; used_bytes = 0; owns_memory = true }

-- The content that a name leads to.
abbrev content : Res Exefs → List ℕ → Res (List ℕ)
content (err code) name = err code
content (ok fs) name = elim (exefs_find fs name) [ none ↦ ok [] | some e ↦ exefs_read fs e 1 2 ]

main_content :
    content (exefs_open (byte_source_from_memory bytes 0x30) room).0 main_name ≡ ok (8 ∷ 9 ∷ [])
unfolding exefs_open open_tables load_directory read_entries read_entry terminated allocate_tables
    exefs_find find_entry exefs_read byte_source_read byte_source_from_memory byte_source_le32
    byte_source_le64 read_bytes arena_allocate align_up image bytes
main_content = refl

exefs_open_lem_example :
    OpenedExefs bytes 0x30 (exefs_open (byte_source_from_memory bytes 0x30) room).0
exefs_open_lem_example = exefs_open_lem bytes 0x30 room (omega arith)
