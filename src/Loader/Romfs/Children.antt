-- ===== src/Loader/Romfs/Children.antt =====
-- find_child_dir and find_child_file of core/hle/loader/romfs.c: what a lookup by name finds.
use voland.Base.{ℕ, ◌+◌, ◌%◌, ◌≤◌, ◌<◌, ◌≡◌, ◌≢◌, arith, true, false, ◌⊎◌, inl, inr}
use voland.Base.{List, length, ◌==◌, ==_iff, Bool-cases, All, same_bytes, same_bytes→eq}
use voland.Result.{Res, ok, err, not_found}
use voland.Loader.Romfs.{
  RomFs, DirEntry, FileEntry, romfs_dir_entry, romfs_file_entry, find_child_dir, find_child_file,
  is_dir_named, is_file_named, dir_link, file_link, dir_steps, file_steps, romfs_path_hash,
  dir_entry_fixed_size, file_entry_fixed_size,
}
use voland.Loader.Romfs.Chains.{
  IsChain, Meets, Searched, search_chain_lem, Meets-decoded, InTable, romfs_dir_entry_lem,
  romfs_file_entry_lem,
}

-- The first offset of the name's bucket.
abbrev pub dir_bucket : RomFs → ℕ → List ℕ → ℕ
dir_bucket fs parent name = fs.dir_hash_table (romfs_path_hash parent name % fs.dir_bucket_count)

abbrev pub file_bucket : RomFs → ℕ → List ℕ → ℕ
file_bucket fs parent name = fs.file_hash_table (romfs_path_hash parent name % fs.file_bucket_count)

-- What a lookup of a directory may give: the first entry of the bucket's chain with that parent and
-- name, decoded inside the table; no such entry in a chain that was read to its end; or a chain that
-- is broken or longer than the table could hold.
abbrev pub FoundDir : RomFs → ℕ → List ℕ → Res DirEntry → Type 0
FoundDir fs parent name (ok e) =
    (e.parent ≡ parent)
    × (e.name ≡ name)
    × InTable e.offset dir_entry_fixed_size (length name) fs.dir_table_size
    × ((front : List DirEntry) × Meets (romfs_dir_entry fs) (dir_link fs) (is_dir_named parent name)
          (dir_bucket fs parent name) front e)
FoundDir fs parent name (err not_found) =
    (fs.dir_bucket_count ≡ 0)
    ⊎ ((es : List DirEntry) × IsChain (romfs_dir_entry fs) (dir_link fs) (is_dir_named parent name)
          (dir_bucket fs parent name) es
        × All (λ e. is_dir_named parent name e ≡ false) es)
FoundDir fs parent name (err code) =
    (es : List DirEntry)
    → IsChain (romfs_dir_entry fs) (dir_link fs) (is_dir_named parent name)
        (dir_bucket fs parent name) es
    → dir_steps fs < length es

-- The same for a file, whose content then lies in the source.
abbrev pub FoundFile : RomFs → ℕ → List ℕ → Res FileEntry → Type 0
FoundFile fs parent name (ok e) =
    (e.parent ≡ parent)
    × (e.name ≡ name)
    × InTable e.offset file_entry_fixed_size (length name) fs.file_table_size
    × (e.data_offset + e.data_size ≤ fs.source.size)
    × ((front : List FileEntry) × Meets (romfs_file_entry fs) (file_link fs)
          (is_file_named parent name) (file_bucket fs parent name) front e)
FoundFile fs parent name (err not_found) =
    (fs.file_bucket_count ≡ 0)
    ⊎ ((es : List FileEntry) × IsChain (romfs_file_entry fs) (file_link fs)
          (is_file_named parent name) (file_bucket fs parent name) es
        × All (λ e. is_file_named parent name e ≡ false) es)
FoundFile fs parent name (err code) =
    (es : List FileEntry)
    → IsChain (romfs_file_entry fs) (file_link fs) (is_file_named parent name)
        (file_bucket fs parent name) es
    → file_steps fs < length es

module _ (fs : RomFs) (parent : ℕ) (name : List ℕ) where
  dir-never : (o : ℕ) → romfs_dir_entry fs o ≢ err not_found
  dir-never o e = absurd (cc (rw e at (romfs_dir_entry_lem fs o)))

  chain-FoundDir :
      (r : Res DirEntry)
      → Searched
          (romfs_dir_entry fs)
          (dir_link fs)
          (is_dir_named parent name)
          (dir_steps fs)
          (dir_bucket fs parent name)
          r
      → FoundDir fs parent name r
  chain-FoundDir (ok e) (front, m, hit, lt) =
      let (o, d) =
        Meets-decoded (romfs_dir_entry fs) (dir_link fs) (is_dir_named parent name) front
          (dir_bucket fs parent name) e m in
      let (at, table, same) = rw d at (romfs_dir_entry_lem fs o) in
      let len : e.name_length ≡ length name = ground arith in
      let named : same_bytes e.name name ≡ true = ground arith in
      (ground arith, same_bytes→eq e.name name named, rw (at, ← len) table, (front, m))
  chain-FoundDir (err not_found) (es, c, all, le) = inr (es, c, all)
  chain-FoundDir (err _) none_short = none_short

  -- A lookup ends, whatever the image. A directory that `find_child_dir` gives has the parent and
  -- the name that were asked for, is the first such entry of its bucket's chain, and lies with its
  -- name inside the table. It answers not-found only after a whole chain without a match, or
  -- without buckets; any other error only where no chain that the table could hold leads from the
  -- bucket to the end mark.
  pub find_child_dir_lem : FoundDir fs parent name (find_child_dir fs parent name)
  unfolding find_child_dir
  find_child_dir_lem = elim (Bool-cases (fs.dir_bucket_count == 0)) [
    | inl e ↦ rw e (inl ((==_iff fs.dir_bucket_count 0).0 e))
    | inr e ↦ rw e (
        chain-FoundDir _ (
          search_chain_lem (romfs_dir_entry fs) (dir_link fs) (is_dir_named parent name) dir-never
            (dir_steps fs) (dir_bucket fs parent name)))
  ]

module _ (fs : RomFs) (parent : ℕ) (name : List ℕ)
    (within : fs.file_data_offset ≤ fs.source.size) where
  file-never : (o : ℕ) → romfs_file_entry fs o ≢ err not_found
  file-never o e = absurd (cc (rw e at (romfs_file_entry_lem fs o within)))

  chain-FoundFile :
      (r : Res FileEntry)
      → Searched
          (romfs_file_entry fs)
          (file_link fs)
          (is_file_named parent name)
          (file_steps fs)
          (file_bucket fs parent name)
          r
      → FoundFile fs parent name r
  chain-FoundFile (ok e) (front, m, hit, lt) =
      let (o, d) =
        Meets-decoded (romfs_file_entry fs) (file_link fs) (is_file_named parent name) front
          (file_bucket fs parent name) e m in
      let (at, table, same, content) = rw d at (romfs_file_entry_lem fs o within) in
      let len : e.name_length ≡ length name = ground arith in
      let named : same_bytes e.name name ≡ true = ground arith in
      (ground arith, same_bytes→eq e.name name named, rw (at, ← len) table, content, (front, m))
  chain-FoundFile (err not_found) (es, c, all, le) = inr (es, c, all)
  chain-FoundFile (err _) none_short = none_short

  -- The same of `find_child_file`, where the file data offset lies within the source, as it does
  -- after `romfs_open`; the file's content then lies in the source.
  pub find_child_file_lem : FoundFile fs parent name (find_child_file fs parent name)
  unfolding find_child_file
  find_child_file_lem = elim (Bool-cases (fs.file_bucket_count == 0)) [
    | inl e ↦ rw e (inl ((==_iff fs.file_bucket_count 0).0 e))
    | inr e ↦ rw e (
        chain-FoundFile _ (
          search_chain_lem (romfs_file_entry fs) (file_link fs) (is_file_named parent name)
            file-never (file_steps fs) (file_bucket fs parent name)))
  ]
