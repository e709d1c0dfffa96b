-- ===== src/Loader/Exefs/Reads.antt =====
-- Searching the entries and reading one of them, in core/hle/loader/exefs.c.
use voland.Base.{ℕ, suc, ◌+◌, ◌-◌, ◌^◌, ◌<◌, ◌≡◌, arith, false, ◌||◌}
use voland.Base.{Option, none, some, List, [], ◌∷◌, same_bytes, same_bytes→eq, All}
use voland.Base.{ltb, ◌==◌, inl, inr, Bool-cases}
use voland.Loader.ByteSource.{
  ByteSource, byte_source_read, byte_source_from_memory, window_of, window_of_memory,
}
use voland.Loader.Exefs.{ExefsEntry, Exefs, find_entry, exefs_read}
use voland.Loader.Exefs.Entries.{EntryInside}

-- The entry's own bytes, as a source.
abbrev pub content_of : (ℕ → ℕ) → ExefsEntry → ByteSource
content_of bytes entry = byte_source_from_memory (λ i. bytes (entry.offset + i)) entry.size

-- Reading an entry that lies inside.
exefs_read_lem :
    (bytes : ℕ → ℕ) (size : ℕ) (fs : Exefs) (entry : ExefsEntry) (offset n : ℕ)
    → fs.source ≡ byte_source_from_memory bytes size
    → size < 2 ^ 64
    → EntryInside size entry
    → exefs_read fs entry offset (suc n) ≡ byte_source_read (content_of bytes entry) offset (suc n)
unfolding exefs_read byte_source_from_memory byte_source_read window_of
exefs_read_lem bytes size fs entry offset n same small inside =
    let some_bytes : (suc n == 0) ≡ false = ground arith in
    let whole = window_of_memory bytes size entry.offset entry.size offset (suc n) small inside in
    elim (Bool-cases (ltb entry.size offset || ltb (entry.size - offset) (suc n))) [
      | inl bad ↦ rw (bad, some_bytes)
      | inr fits ↦ rw (fits, same, some_bytes) (rw (some_bytes, fits) at whole)
    ]

-- What a search for a name may give, and what reading the entry then gives.
abbrev pub FoundEntry : (ℕ → ℕ) → ℕ → Exefs → List ℕ → List ExefsEntry → Option ExefsEntry → Type 0
FoundEntry bytes size fs name entries none = All (λ e. same_bytes e.name name ≡ false) entries
FoundEntry bytes size fs name entries (some entry) =
    (entry.name ≡ name)
    × EntryInside size entry
    × ((offset n : ℕ)
        → exefs_read fs entry offset (suc n)
          ≡ byte_source_read (content_of bytes entry) offset (suc n))

pub find_entry_lem :
    (bytes : ℕ → ℕ) (size : ℕ) (fs : Exefs) (name : List ℕ) (entries : List ExefsEntry)
    → fs.source ≡ byte_source_from_memory bytes size
    → size < 2 ^ 64
    → All (EntryInside size) entries
    → FoundEntry bytes size fs name entries (find_entry entries name)
unfolding find_entry
find_entry_lem bytes size fs name [] same small inside = tt
find_entry_lem bytes size fs name (entry ∷ entries) same small inside =
    elim (Bool-cases (same_bytes entry.name name)) [
      | inl hit ↦ rw hit (
        same_bytes→eq entry.name name hit,
        inside.0,
        λ offset n. exefs_read_lem bytes size fs entry offset n same small inside.0,
      )
      | inr miss ↦ rw miss (
          passed (find_entry entries name) miss
            (find_entry_lem bytes size fs name entries same small inside.1))
    ]
  where
    passed :
        (r : Option ExefsEntry)
        → same_bytes entry.name name ≡ false
        → FoundEntry bytes size fs name entries r
        → FoundEntry bytes size fs name (entry ∷ entries) r
    passed none miss rest = (miss, rest)
    passed (some found) miss rest = rest
