-- ===== src/Loader/Romfs/Resolve.antt =====
-- romfs_find_dir and romfs_find_file of core/hle/loader/romfs.c on whole paths.
use voland.Base.{ℕ, zero, suc, ◌-◌, ◌≤◌, ◌≡◌, ◌≢◌, refl, arith, Bool, true, false}
use voland.Base.{List, [], ◌∷◌, ◌++◌, length, length-append, take, get_or, All, ◌∙◌, ap}
use voland.Base.{◌==◌, ltb, if◌then◌else◌, ◌||◌}
use voland.Result.{Res, ok, err, invalid_argument}
use voland.Loader.Romfs.{
  RomFs, DirEntry, FileEntry, root_dir_offset, romfs_dir_entry, find_child_dir, find_child_file,
}
use voland.Loader.Romfs.Path.{
  separator, max_path_bytes, walk, walk_to_parent, skip_leading, ends_in_separator, romfs_find_dir,
  romfs_find_file,
}
use voland.Loader.Romfs.Walks.{IsName, path_bytes, descend, walked, walk-path_bytes, walk-leaf}

-- A path may start with a separator, and may have one more at its end.
abbrev pub spelled : Bool → Bool → List ℕ → List ℕ
spelled lead trail p =
    let body = if trail then p ++ separator ∷ [] else p in if lead then separator ∷ body else body

-- The first byte is part of a name.
abbrev Starts : List ℕ → Type 0
Starts [] = ⊥
Starts (b ∷ bs) = b ≢ separator

Starts-append : (p q : List ℕ) → Starts p → Starts (p ++ q)
Starts-append [] q h = absurd h
Starts-append (b ∷ bs) q h = h

name-Starts : (c : List ℕ) → IsName c → Starts c
name-Starts [] h = absurd h
name-Starts (b ∷ bs) h = h.0

path_bytes-Starts :
    (front : List (List ℕ)) (leaf : List ℕ)
    → All IsName front
    → IsName leaf
    → Starts (path_bytes front leaf)
path_bytes-Starts [] leaf h k = name-Starts leaf k
path_bytes-Starts (c ∷ cs) leaf h k =
    Starts-append c (separator ∷ path_bytes cs leaf) (name-Starts c h.0)

skip_leading-Starts : (p : List ℕ) → Starts p → skip_leading p ≡ p
skip_leading-Starts [] h = absurd h
skip_leading-Starts (b ∷ bs) h = let off : (b == separator) ≡ false = ground (arith, h) in rw off

-- The last byte.
abbrev last_or : ℕ → List ℕ → ℕ
last_or d [] = d
last_or d (b ∷ bs) = last_or b bs

get_or-last_or : (b : ℕ) (bs : List ℕ) → get_or (b ∷ bs) (length bs) 0 ≡ last_or b bs
get_or-last_or b [] = refl
get_or-last_or b (c ∷ cs) = get_or-last_or c cs

last_or-append : (d : ℕ) (p q : List ℕ) → last_or d (p ++ q) ≡ last_or (last_or d p) q
last_or-append d [] q = refl
last_or-append d (b ∷ bs) q = last_or-append b bs q

last_or-name : (d : ℕ) (c : List ℕ) → IsName c → last_or d c ≢ separator
last_or-name d [] h = absurd h
last_or-name d (b ∷ []) h = h.0
last_or-name d (b ∷ c ∷ cs) h = last_or-name b (c ∷ cs) h.1

last_or-path_bytes :
    (d : ℕ) (front : List (List ℕ)) (leaf : List ℕ)
    → IsName leaf
    → last_or d (path_bytes front leaf) ≢ separator
last_or-path_bytes d [] leaf h = last_or-name d leaf h
last_or-path_bytes d (c ∷ cs) leaf h =
    rw (last_or-append d c (separator ∷ path_bytes cs leaf))
      (last_or-path_bytes separator cs leaf h)

ends_in_separator_lem :
    (b : ℕ) (bs : List ℕ) → ends_in_separator (b ∷ bs) ≡ (last_or b bs == separator)
ends_in_separator_lem b bs = rw (get_or-last_or b bs)

ends-plain :
    (front : List (List ℕ)) (leaf : List ℕ)
    → IsName leaf
    → ends_in_separator (path_bytes front leaf) ≡ false
ends-plain front leaf h = go (path_bytes front leaf) (λ d. last_or-path_bytes d front leaf h)
  where
    go : (p : List ℕ) → ((d : ℕ) → last_or d p ≢ separator) → ends_in_separator p ≡ false
    go [] k = refl
    go (b ∷ bs) k = rw (ends_in_separator_lem b bs) (ground (arith, k 0))

ends-trailing : (p : List ℕ) → ends_in_separator (p ++ separator ∷ []) ≡ true
ends-trailing [] = refl
ends-trailing (b ∷ bs) =
    rw (ends_in_separator_lem b (bs ++ separator ∷ []), last_or-append b bs (separator ∷ []))

take-trailing : (p : List ℕ) (s : ℕ) → take (length p) (p ++ s ∷ []) ≡ p
take-trailing [] s = refl
take-trailing (b ∷ bs) s = ap (λ r. b ∷ r) (take-trailing bs s)

-- What is left of a path behind the separators at its ends.
stripped :
    (fs : RomFs) (lead trail : Bool) (p : List ℕ)
    → Starts p
    → (trail ≡ false → ends_in_separator p ≡ false)
    → length (spelled lead trail p) ≤ max_path_bytes
    → walk_to_parent fs (spelled lead trail p) ≡ walk fs trail root_dir_offset p (length p)
unfolding walk_to_parent
stripped fs true true p s e fits =
    let short : ltb max_path_bytes (suc (length (p ++ separator ∷ []))) ≡ false = ground arith in
    let cut : length (p ++ separator ∷ []) - 1 ≡ length p =
      omega (arith, length-append p (separator ∷ [])) in
    rw (short, ends-trailing p, cut, take-trailing p separator)
stripped fs true false p s e fits =
    let short : ltb max_path_bytes (suc (length p)) ≡ false = ground arith in rw (short, e refl)
stripped fs false true p s e fits =
    let short : ltb max_path_bytes (length (p ++ separator ∷ [])) ≡ false = ground arith in
    let cut : length (p ++ separator ∷ []) - 1 ≡ length p =
      omega (arith, length-append p (separator ∷ [])) in
    let skip = skip_leading-Starts (p ++ separator ∷ []) (Starts-append p (separator ∷ []) s) in
    rw (short, skip, ends-trailing p, cut, take-trailing p separator)
stripped fs false false p s e fits =
    let short : ltb max_path_bytes (length p) ≡ false = ground arith in
    rw (short, skip_leading-Starts p s, e refl)

-- The reference lookups: down the directories, then the last name.
abbrev pub lookup_dir : RomFs → List (List ℕ) → List ℕ → Res DirEntry
lookup_dir fs front leaf = elim (descend fs root_dir_offset front) [
  | err code ↦ err code
  | ok parent ↦ find_child_dir fs parent leaf
]

abbrev pub lookup_file : RomFs → Bool → List (List ℕ) → List ℕ → Res FileEntry
lookup_file fs trail front leaf = elim (descend fs root_dir_offset front) [
  | err code ↦ err code
  | ok parent ↦ if trail then err invalid_argument else find_child_file fs parent leaf
]

leaf-last :
    (fs : RomFs) (trail : Bool) (leaf : List ℕ)
    → IsName leaf
    → (at k : ℕ) → length leaf ≤ k
    → walk fs trail at leaf k ≡ walked trail leaf (ok at)
leaf-last fs trail [] h at k enough = absurd h
leaf-last fs trail (b ∷ bs) h at zero enough = absurd (omega arith)
leaf-last fs trail (b ∷ bs) h at (suc k) enough = walk-leaf fs trail at (b ∷ bs) k h

walk_to_parent_lem :
    (fs : RomFs) (lead trail : Bool) (front : List (List ℕ)) (leaf : List ℕ)
    → All IsName front
    → IsName leaf
    → length (spelled lead trail (path_bytes front leaf)) ≤ max_path_bytes
    → walk_to_parent fs (spelled lead trail (path_bytes front leaf))
      ≡ walked trail leaf (descend fs root_dir_offset front)
walk_to_parent_lem fs lead trail front leaf h k fits =
    stripped fs lead trail (path_bytes front leaf) (path_bytes-Starts front leaf h k)
      (λ e. ends-plain front leaf k) fits
    ∙ walk-path_bytes fs trail front root_dir_offset leaf (length (path_bytes front leaf)) h
        (leaf-last fs trail leaf k) (omega arith)

name-nonempty : (leaf : List ℕ) → IsName leaf → (length leaf == 0) ≡ false
name-nonempty [] h = absurd h
name-nonempty (b ∷ bs) h = ground arith

-- A path of names, with or without a separator at either end, resolves to what looking the names up
-- one after the other gives, with its errors: `romfs_find_dir` to the directory, and
-- `romfs_find_file` to the file, which it refuses behind a separator at the end.
pub romfs_find_lem :
    (fs : RomFs) (lead trail : Bool) (front : List (List ℕ)) (leaf : List ℕ)
    → All IsName front
    → IsName leaf
    → length (spelled lead trail (path_bytes front leaf)) ≤ max_path_bytes
    → (romfs_find_dir fs (spelled lead trail (path_bytes front leaf)) ≡ lookup_dir fs front leaf)
      × (romfs_find_file fs (spelled lead trail (path_bytes front leaf))
          ≡ lookup_file fs trail front leaf)
unfolding romfs_find_dir romfs_find_file
romfs_find_lem fs lead trail front leaf h k fits =
    let w = walk_to_parent_lem fs lead trail front leaf h k fits in
    rw (w, romfs_find_dir, romfs_find_file)
      (go trail (name-nonempty leaf k) (descend fs root_dir_offset front))
  where
    go :
        (t : Bool)
        → (length leaf == 0) ≡ false
        → (r : Res ℕ)
        → ((elim (walked t leaf r) [
          | err code ↦ err code
          | ok w ↦
              if length w.leaf == 0
              then romfs_dir_entry fs root_dir_offset
              else find_child_dir fs w.parent w.leaf
        ])
            ≡ (elim r [ err code ↦ err code | ok parent ↦ find_child_dir fs parent leaf ]))
          × ((elim (walked t leaf r) [
            | err code ↦ err code
            | ok w ↦
                if length w.leaf == 0 || w.trailing
                then err invalid_argument
                else find_child_file fs w.parent w.leaf
          ])
              ≡ (elim r [
                | err code ↦ err code
                | ok parent ↦ if t then err invalid_argument else find_child_file fs parent leaf
              ]))
    go t some_name (err code) = (refl, refl)
    go t some_name (ok p) = (rw some_name, rw some_name)

-- Behind two separators at the end, an empty component, `romfs_find_dir` gives the root directory
-- instead of an error or the directory that the path names, whenever the directories on it exist.
pub romfs_find_dir-two_separators :
    (fs : RomFs) (lead : Bool) (c : List ℕ) (cs : List (List ℕ)) {parent : ℕ}
    → All IsName (c ∷ cs)
    → length (spelled lead true (path_bytes (c ∷ cs) [])) ≤ max_path_bytes
    → descend fs root_dir_offset (c ∷ cs) ≡ ok parent
    → romfs_find_dir fs (spelled lead true (path_bytes (c ∷ cs) []))
      ≡ romfs_dir_entry fs root_dir_offset
unfolding romfs_find_dir walk
romfs_find_dir-two_separators fs lead c cs {parent} h fits down =
    let w =
      stripped fs lead true (path_bytes (c ∷ cs) [])
        (Starts-append c (separator ∷ path_bytes cs []) (name-Starts c h.0)) (λ e. absurd (cc)) fits
      ∙ walk-path_bytes fs true (c ∷ cs) root_dir_offset [] (length (path_bytes (c ∷ cs) [])) h
          (λ at k enough. nothing_left at k) (omega arith) in
    rw (w, down, romfs_find_dir)
  where
    nothing_left : (at k : ℕ) → walk fs true at [] k ≡ walked true [] (ok at)
    nothing_left at zero = refl
    nothing_left at (suc k) = refl
