-- ===== src/Loader/Exefs/Entries.antt =====
-- The entries that core/hle/loader/exefs.c decodes.
use voland.Base.{ℕ, zero, suc, ◌+◌, ◌-◌, ◌*◌, ◌≤◌, ◌<◌, ◌≡◌, ◌≢◌, refl, arith, ◌||◌, ap, sym, ◌∙◌}
use voland.Base.{Option, none, some, List, [], ◌∷◌, length, All}
use voland.Base.{ltb, leb, ◌==◌, inl, inr, Bool-cases}
use voland.Result.{Res, ok, err, invalid_argument}
use voland.Loader.ByteSource.{
  byte_source_le32, byte_source_le64, byte_source_le32-shown, byte_source_le64-shown,
}
use voland.Loader.Exefs.{ExefsEntry, Directory, terminated, read_entry, before, read_entries}

-- An entry's data lies inside the source.
abbrev pub EntryInside : ℕ → ExefsEntry → Type 0
EntryInside size entry = entry.offset + entry.size ≤ size

-- At `p` stands the text `s`, which a NUL ends.
abbrev pub HasText : (ℕ → ℕ) → ℕ → List ℕ → Type 0
HasText bytes p [] = bytes p ≡ 0
HasText bytes p (b ∷ s) = (bytes p ≡ b) × (b ≢ 0) × HasText bytes (p + 1) s

-- What exefs.h documents for the entry at `raw`, in a file of `count` entries with `strings` bytes of
-- names: its data counts from the end of the names, and its name lies in them.
pub record IsEntry (bytes : ℕ → ℕ) (count strings raw : ℕ) (entry : ExefsEntry) : Type 0 where
  pub offset : entry.offset ≡ 0x10 + count * 0x18 + strings + byte_source_le64 bytes raw
  pub size : entry.size ≡ byte_source_le64 bytes (raw + 8)
  pub name : HasText bytes (0x10 + count * 0x18 + byte_source_le32 bytes (raw + 0x10)) entry.name
  pub name_inside : byte_source_le32 bytes (raw + 0x10) + length entry.name < strings

-- Entries one after the other, from `raw` on.
abbrev pub EntriesAt : (ℕ → ℕ) → ℕ → ℕ → ℕ → List ExefsEntry → Type 0
EntriesAt bytes count strings raw [] = Unit
EntriesAt bytes count strings raw (entry ∷ entries) =
    IsEntry bytes count strings raw entry × EntriesAt bytes count strings (raw + 0x18) entries

-- The directory shows the file's tables.
pub record IsShown (bytes : ℕ → ℕ) (size count strings : ℕ) (dir : Directory) : Type 0 where
  pub raw_entries : (i : ℕ) → i < count * 0x18 → dir.raw_entries i ≡ bytes (0x10 + i)
  pub string_table : (i : ℕ) → i < strings → dir.string_table i ≡ bytes (0x10 + count * 0x18 + i)
  pub string_table_size : dir.string_table_size ≡ strings
  pub data_region_offset : dir.data_region_offset ≡ 0x10 + count * 0x18 + strings
  pub inside : dir.data_region_offset + dir.data_region_size ≤ size

-- What the loop may give.
abbrev pub EntriesOf : (ℕ → ℕ) → ℕ → ℕ → ℕ → ℕ → ℕ → Res (List ExefsEntry) → Type 0
EntriesOf bytes size count strings raw left (ok entries) =
    (length entries ≡ left)
    × All (EntryInside size) entries
    × EntriesAt bytes count strings raw entries
EntriesOf bytes size count strings raw left (err code) = code ≡ invalid_argument

abbrev EntryOf : (ℕ → ℕ) → ℕ → ℕ → ℕ → ℕ → Res ExefsEntry → Type 0
EntryOf bytes size count strings raw (ok entry) =
    EntryInside size entry × IsEntry bytes count strings raw entry
EntryOf bytes size count strings raw (err code) = code ≡ invalid_argument

-- What the search for a terminator may give.
abbrev Ended : (ℕ → ℕ) → ℕ → ℕ → Option (List ℕ) → Type 0
Ended table p left none = Unit
Ended table p left (some s) = HasText table p s × (length s < left)

terminated_lem : (table : ℕ → ℕ) (p left : ℕ) → Ended table p left (terminated table p left)
unfolding terminated
terminated_lem table p zero = tt
terminated_lem table p (suc left) = elim (Bool-cases (table p == 0)) [
  | inl nul ↦ rw nul (ground arith, omega arith)
  | inr more ↦
      rw more
        (longer (terminated table (p + 1) left) (terminated_lem table (p + 1) left) (ground arith))
]
  where
    longer :
        (r : Option (List ℕ))
        → Ended table (p + 1) left r
        → table p ≢ 0
        → Ended table p (suc left) (elim r [ none ↦ none | some s ↦ some (table p ∷ s) ])
    longer none e more = tt
    longer (some s) (text, short) more = ((refl, more, text), omega (arith, short))

-- A text that a table shows at `p` stands in the file.
HasText-shown :
    (table bytes : ℕ → ℕ) (base limit : ℕ)
    → ((i : ℕ) → i < limit → table i ≡ bytes (base + i))
    → (p : ℕ) (s : List ℕ) → p + length s < limit
    → HasText table p s
    → HasText bytes (base + p) s
HasText-shown table bytes base limit shown p [] within text =
    sym (shown p (omega (arith, within))) ∙ text
HasText-shown table bytes base limit shown p (b ∷ s) within (here, more, text) =
    let next : base + p + 1 ≡ base + (p + 1) = omega arith in
    (
      sym (shown p (omega (arith, within))) ∙ here,
      more,
      rw next (HasText-shown table bytes base limit shown (p + 1) s (omega (arith, within)) text),
    )

module _ {bytes : ℕ → ℕ} {size count strings : ℕ} {dir : Directory}
    (shown : IsShown bytes size count strings dir) where
  read_entry_lem :
      (raw : ℕ)
      → raw + 0x18 ≤ count * 0x18
      → EntryOf bytes size count strings (0x10 + raw) (read_entry dir raw)
  unfolding read_entry
  read_entry_lem raw room =
      let data_offset = byte_source_le64 dir.raw_entries raw in
      let data_size = byte_source_le64 dir.raw_entries (raw + 0x08) in
      let name_offset = byte_source_le32 dir.raw_entries (raw + 0x10) in
      elim (Bool-cases (
        ltb dir.data_region_size data_offset
        || ltb (dir.data_region_size - data_offset) data_size)) [
          | inl bad ↦ rw bad
          | inr fits ↦ elim (Bool-cases (leb dir.string_table_size name_offset)) [
            | inl bad ↦ rw (fits, bad)
            | inr named ↦
                rw (fits, named)
                  (with_name
                    (terminated dir.string_table name_offset (dir.string_table_size - name_offset))
                    (terminated_lem dir.string_table name_offset
                      (dir.string_table_size - name_offset))
                    (ground (arith, shown.inside)))
          ]
        ]
    where
      offset_is : byte_source_le64 dir.raw_entries raw ≡ byte_source_le64 bytes (0x10 + raw)
      offset_is =
          byte_source_le64-shown dir.raw_entries bytes 0x10 (count * 0x18) shown.raw_entries raw
            (omega (arith, room))

      size_is : byte_source_le64 dir.raw_entries (raw + 8) ≡ byte_source_le64 bytes (0x10 + raw + 8)
      size_is =
          byte_source_le64-shown dir.raw_entries bytes 0x10 (count * 0x18) shown.raw_entries
            (raw + 8) (omega (arith, room))
          ∙ ap (byte_source_le64 bytes) (omega arith)

      name_is :
          byte_source_le32 dir.raw_entries (raw + 16) ≡ byte_source_le32 bytes (0x10 + raw + 16)
      name_is =
          byte_source_le32-shown dir.raw_entries bytes 0x10 (count * 0x18) shown.raw_entries
            (raw + 16) (omega (arith, room))
          ∙ ap (byte_source_le32 bytes) (omega arith)

      with_name :
          (r : Option (List ℕ))
          → Ended dir.string_table
              (byte_source_le32 dir.raw_entries (raw + 0x10))
              (dir.string_table_size - byte_source_le32 dir.raw_entries (raw + 0x10))
              r
          → dir.data_region_offset
              + byte_source_le64 dir.raw_entries raw
              + byte_source_le64 dir.raw_entries (raw + 8)
            ≤ size
          → EntryOf bytes size count strings (0x10 + raw) (elim r [
            | none ↦ err invalid_argument
            | some name ↦ ok (record {
              name = name;
              offset = dir.data_region_offset + byte_source_le64 dir.raw_entries raw;
              size = byte_source_le64 dir.raw_entries (raw + 8);
            })
          ])
      with_name none ended fits = refl
      with_name (some s) (text, short) fits = (
        fits,
        record {
          offset = omega (arith, offset_is, shown.data_region_offset);
          size = size_is;
          name = rw (← name_is) (
              HasText-shown dir.string_table bytes (0x10 + count * 0x18) strings shown.string_table
                (byte_source_le32 dir.raw_entries (raw + 0x10)) s
                (omega (arith, short, shown.string_table_size)) text);
          name_inside = omega (arith, short, name_is, shown.string_table_size);
        },
      )

  pub read_entries_lem :
      (raw left : ℕ)
      → raw + left * 0x18 ≤ count * 0x18
      → EntriesOf bytes size count strings (0x10 + raw) left (read_entries dir raw left)
  unfolding read_entries
  read_entries_lem raw zero room = (refl, tt, tt)
  read_entries_lem raw (suc left) room =
      joined (read_entry dir raw) (read_entries dir (raw + 0x18) left)
        (read_entry_lem raw (omega (arith, room)))
        (read_entries_lem (raw + 0x18) left (omega (arith, room)))
    where
      joined :
          (first : Res ExefsEntry) (others : Res (List ExefsEntry))
          → EntryOf bytes size count strings (0x10 + raw) first
          → EntriesOf bytes size count strings (0x10 + (raw + 0x18)) left others
          → EntriesOf bytes size count strings
              (0x10 + raw)
              (suc left)
              (elim first [ err code ↦ err code | ok entry ↦ before entry others ])
      joined (err code) others one more = one
      joined (ok entry) (err code) one more = more
      joined (ok entry) (ok entries) one more =
          let next : 0x10 + raw + 0x18 ≡ 0x10 + (raw + 0x18) = omega arith in
          (omega (arith, more.0), (one.0, more.1), (one.1, rw next more.2))
