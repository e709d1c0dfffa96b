-- ===== src/Loader/Romfs/Chains.antt =====
-- The bucket chains of core/hle/loader/romfs.c: what a search through one finds.
use voland.Base.{ℕ, zero, suc, ◌+◌, ◌-◌, ◌%◌, ◌≤◌, ◌<◌, ◌≡◌, ◌≢◌, refl, arith, Bool, true, false}
use voland.Base.{List, [], ◌∷◌, length, ◌==◌, if◌then◌else◌, inl, inr, Bool-cases, All, ==_iff}
use voland.Base.{ltb, ◌||◌}
use voland.Result.{Res, ok, err, Code, invalid_argument, not_found}
use voland.Vmm.Access.{read_bytes}
use voland.Loader.ByteSource.{byte_source_le32, byte_source_le64}
use voland.Loader.Romfs.{
  max_name_bytes, RomFs, DirEntry, FileEntry, no_entry, search_chain, romfs_dir_entry,
  romfs_file_entry, check_entry_bounds, dir_entry_fixed_size, file_entry_fixed_size,
}

module _ {E : Type 0} (decode : ℕ → Res E) (link : ℕ → ℕ) (is_match : E → Bool) where
  -- The entries of a chain from `offset` on, each decoded, to the end mark.
  abbrev pub IsChain : ℕ → List E → Type 0
  IsChain offset [] = offset ≡ no_entry
  IsChain offset (e ∷ es) = (offset ≢ no_entry) × (decode offset ≡ ok e) × IsChain (link offset) es

  -- The entries that a search from `offset` on passes, none of them a match, before it meets `e`.
  abbrev pub Meets : ℕ → List E → E → Type 0
  Meets offset [] e = (offset ≢ no_entry) × (decode offset ≡ ok e)
  Meets offset (f ∷ fs) e =
      (offset ≢ no_entry) × (decode offset ≡ ok f) × (is_match f ≡ false) × Meets (link offset) fs e

  -- What a search may give.
  abbrev pub Searched : ℕ → ℕ → Res E → Type 0
  Searched steps offset (ok e) =
      (front : List E) × Meets offset front e × (is_match e ≡ true) × (length front < steps)
  Searched steps offset (err not_found) =
      (es : List E) × IsChain offset es × All (λ e. is_match e ≡ false) es × (length es ≤ steps)
  Searched steps offset (err code) = (es : List E) → IsChain offset es → steps < length es

  abbrev NeverNotFound : Type 0
  NeverNotFound = (o : ℕ) → decode o ≢ err not_found

  -- One round further from the entry `f`.
  step-Searched :
      (steps offset : ℕ) (f : E) (r : Res E)
      → offset ≢ no_entry
      → decode offset ≡ ok f
      → is_match f ≡ false
      → Searched steps (link offset) r
      → Searched (suc steps) offset r
  step-Searched steps offset f (ok e) at d off (front, m, hit, lt) =
      (f ∷ front, (at, d, off, m), hit, omega arith)
  step-Searched steps offset f (err not_found) at d off (es, c, all, le) =
      (f ∷ es, (at, d, c), (off, all), omega arith)
  step-Searched steps offset f (err _) at d off none_short = λ es c. longer es c
    where
      longer : (es : List E) → IsChain offset es → suc steps < length es
      longer [] c = absurd (at c)
      longer (e ∷ es) c = omega (arith, none_short es c.2)

  -- A link that does not decode: no chain goes on from here.
  broken-Searched :
      (steps offset : ℕ) (code : Code)
      → offset ≢ no_entry
      → decode offset ≡ err code
      → code ≢ not_found
      → Searched (suc steps) offset (err code)
  broken-Searched steps offset not_found at d ne = absurd (ne refl)
  broken-Searched steps offset _ at d ne = λ es c. none_at es c
    where
      none_at : (es : List E) → IsChain offset es → suc steps < length es
      none_at [] c = absurd (at c)
      none_at (e ∷ es) c = absurd (cc (d, c.1))

  pub search_chain_lem :
      NeverNotFound
      → (steps offset : ℕ) → Searched steps offset (search_chain decode link is_match steps offset)
  unfolding search_chain
  search_chain_lem never zero offset = elim (Bool-cases (offset == no_entry)) [
    | inl e ↦ rw e ([], (==_iff offset no_entry).0 e, tt, omega arith)
    | inr e ↦ rw e (λ es c. longer es c (ground arith))
  ]
    where
      longer : (es : List E) → IsChain offset es → offset ≢ no_entry → 0 < length es
      longer [] c ne = absurd (ne c)
      longer (e ∷ es) c ne = omega arith
  search_chain_lem never (suc steps) offset = elim (Bool-cases (offset == no_entry)) [
    | inl e ↦ rw e ([], (==_iff offset no_entry).0 e, tt, omega arith)
    | inr e ↦
        rw e (go (ground arith) (decode offset) refl (search_chain_lem never steps (link offset)))
  ]
    where
      rest : Res E
      rest = search_chain decode link is_match steps (link offset)

      go :
          offset ≢ no_entry
          → (r : Res E) → decode offset ≡ r
          → Searched steps (link offset) rest
          → Searched (suc steps) offset (elim r [
            | err code ↦ err code
            | ok entry ↦ if is_match entry then ok entry else rest
          ])
      go at (err code) d ih =
          broken-Searched steps offset code at d (λ same. never offset (rw same at d))
      go at (ok f) d ih = elim (Bool-cases (is_match f)) [
        | inl hit ↦ rw hit ([], (at, d), hit, omega arith)
        | inr off ↦ rw off (step-Searched steps offset f rest at d off ih)
      ]

  -- What a search meets is the decoded entry of some offset.
  pub Meets-decoded :
      (front : List E) (offset : ℕ) (e : E) → Meets offset front e → (o : ℕ) × (decode o ≡ ok e)
  Meets-decoded [] offset e m = (offset, m.1)
  Meets-decoded (f ∷ front) offset e m = Meets-decoded front (link offset) e m.3

-- An entry that decodes is the one at its offset: aligned, with its name inside the table.
pub record InTable (offset fixed_size name_length table_size : ℕ) : Type 0 where
  pub aligned : offset % 4 ≡ 0
  pub present : offset ≢ no_entry
  pub inside : offset + fixed_size + name_length ≤ table_size
  pub short_name : name_length ≤ max_name_bytes

abbrev pub DecodedDir : RomFs → ℕ → Res DirEntry → Type 0
DecodedDir fs offset (ok e) =
    (e.offset ≡ offset)
    × InTable offset dir_entry_fixed_size e.name_length fs.dir_table_size
    × (e.name ≡ read_bytes fs.dir_table (offset + dir_entry_fixed_size) e.name_length)
DecodedDir fs offset (err code) = code ≡ invalid_argument

pub romfs_dir_entry_lem :
    (fs : RomFs) (offset : ℕ) → DecodedDir fs offset (romfs_dir_entry fs offset)
unfolding romfs_dir_entry check_entry_bounds
romfs_dir_entry_lem fs offset =
    let bad =
      offset == no_entry
      || ltb fs.dir_table_size offset
      || ltb (fs.dir_table_size - offset) dir_entry_fixed_size in
    let name_length = byte_source_le32 fs.dir_table (offset + 0x14) in
    elim (Bool-cases bad) [
      | inl e ↦ rw e refl
      | inr e ↦
          elim (Bool-cases
            (check_entry_bounds offset dir_entry_fixed_size fs.dir_table_size name_length)) [
              | inr f ↦ rw (e, f) refl
              | inl f ↦ rw (e, f) (refl, ground arith, refl)
            ]
    ]

abbrev pub DecodedFile : RomFs → ℕ → Res FileEntry → Type 0
DecodedFile fs offset (ok e) =
    (e.offset ≡ offset)
    × InTable offset file_entry_fixed_size e.name_length fs.file_table_size
    × (e.name ≡ read_bytes fs.file_table (offset + file_entry_fixed_size) e.name_length)
    × (e.data_offset + e.data_size ≤ fs.source.size)
DecodedFile fs offset (err code) = code ≡ invalid_argument

pub romfs_file_entry_lem :
    (fs : RomFs) (offset : ℕ)
    → fs.file_data_offset ≤ fs.source.size
    → DecodedFile fs offset (romfs_file_entry fs offset)
unfolding romfs_file_entry check_entry_bounds
romfs_file_entry_lem fs offset within =
    let bad =
      offset == no_entry
      || ltb fs.file_table_size offset
      || ltb (fs.file_table_size - offset) file_entry_fixed_size in
    let name_length = byte_source_le32 fs.file_table (offset + 0x1C) in
    let data_offset = byte_source_le64 fs.file_table (offset + 0x08) in
    let data_size = byte_source_le64 fs.file_table (offset + 0x10) in
    let region = fs.source.size - fs.file_data_offset in
    elim (Bool-cases bad) [
      | inl e ↦ rw e refl
      | inr e ↦
          elim (Bool-cases
            (check_entry_bounds offset file_entry_fixed_size fs.file_table_size name_length)) [
              | inr f ↦ rw (e, f) refl
              | inl f ↦
                  elim (Bool-cases
                    (ltb region data_offset || ltb (region - data_offset) data_size)) [
                      | inl g ↦ rw (e, f, g) refl
                      | inr g ↦ rw (e, f, g) (refl, ground arith, refl, ground arith)
                    ]
            ]
    ]
