-- ===== src/Loader/Romfs/Path.antt =====
-- core/hle/loader/romfs.c: walk_to_parent, romfs_find_dir and romfs_find_file. A path is the list of
-- its bytes before the NUL, and `cursor` with `end` the list of the bytes between them.
use voland.Base.{ℕ, zero, suc, ◌-◌, Bool, false, ◌||◌}
use voland.Base.{List, [], ◌∷◌, length, ltb, ◌==◌, if◌then◌else◌, get_or, take, drop}
use voland.Result.{Res, ok, err, invalid_argument}
use voland.Loader.Romfs.{
  RomFs, DirEntry, FileEntry, root_dir_offset, romfs_dir_entry, find_child_dir, find_child_file,
}

-- ROMFS_PATH_SEPARATOR, ROMFS_MAX_PATH_BYTES
abbrev pub separator : ℕ
separator = b'/'

abbrev pub max_path_bytes : ℕ
max_path_bytes = 0x301

-- The inner loop: the bytes before the next separator, and what follows from it on.
unfoldable pub component_of : List ℕ → List ℕ
component_of [] = []
component_of (b ∷ bs) = if b == separator then [] else b ∷ component_of bs

unfoldable pub after_component : List ℕ → List ℕ
after_component [] = []
after_component (b ∷ bs) = if b == separator then b ∷ bs else after_component bs

-- `*parent`, the bytes of `*leaf`, and `*had_trailing_separator`.
pub record Walked : Type 0 where
  pub parent : ℕ
  pub leaf : List ℕ
  pub trailing : Bool

-- The outer loop of `walk_to_parent` over the bytes from `cursor` to `end`; each round moves on by
-- at least one byte.
unfoldable pub walk : RomFs → Bool → ℕ → List ℕ → ℕ → Res Walked
walk fs trailing current bytes zero =
    ok (record { parent = current; leaf = []; trailing = trailing })
walk fs trailing current bytes (suc fuel) = elim bytes [
  | [] ↦ ok (record { parent = current; leaf = []; trailing = trailing })
  | b ∷ bs ↦
      let component = component_of (b ∷ bs) in
      let rest = after_component (b ∷ bs) in
      if length component == 0
      then err invalid_argument
      else if length rest == 0
      then ok (record { parent = current; leaf = component; trailing = trailing })
      else elim (find_child_dir fs current component) [
        | err code ↦ err code
        | ok dir ↦ walk fs trailing dir.offset (drop 1 rest) fuel
      ]
]

-- The separator at the start is skipped.
abbrev pub skip_leading : List ℕ → List ℕ
skip_leading [] = []
skip_leading (b ∷ bs) = if b == separator then bs else b ∷ bs

-- Whether the last byte is a separator, behind `cursor`.
abbrev pub ends_in_separator : List ℕ → Bool
ends_in_separator [] = false
ends_in_separator (b ∷ bs) = get_or (b ∷ bs) (length bs) 0 == separator

-- `walk_to_parent`
unfoldable pub walk_to_parent : RomFs → List ℕ → Res Walked
walk_to_parent fs path =
    if ltb max_path_bytes (length path)
    then err invalid_argument
    else let body = skip_leading path in
      let trailing = ends_in_separator body in
      let bytes = if trailing then take (length body - 1) body else body in
      walk fs trailing root_dir_offset bytes (length bytes)

-- `romfs_find_dir`
unfoldable pub romfs_find_dir : RomFs → List ℕ → Res DirEntry
romfs_find_dir fs path = elim (walk_to_parent fs path) [
  | err code ↦ err code
  | ok w ↦
      if length w.leaf == 0
      then romfs_dir_entry fs root_dir_offset
      else find_child_dir fs w.parent w.leaf
]

-- `romfs_find_file`
unfoldable pub romfs_find_file : RomFs → List ℕ → Res FileEntry
romfs_find_file fs path = elim (walk_to_parent fs path) [
  | err code ↦ err code
  | ok w ↦
      if length w.leaf == 0 || w.trailing
      then err invalid_argument
      else find_child_file fs w.parent w.leaf
]
