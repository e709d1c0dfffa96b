-- ===== src/Loader/Romfs/Walks.antt =====
-- Path resolution of core/hle/loader/romfs.c against a reference on lists of names.
use voland.Base.{ℕ, zero, suc, ◌≤◌, ◌≡◌, ◌≢◌, refl, arith, Bool, false}
use voland.Base.{List, [], ◌∷◌, ◌++◌, length, length-append, drop, All, ◌∙◌, ap}
use voland.Base.{◌==◌}
use voland.Result.{Res, ok, err}
use voland.Loader.Romfs.{RomFs, DirEntry, find_child_dir}
use voland.Loader.Romfs.Path.{separator, component_of, after_component, walk, Walked}

-- A name in a path: not empty, and without a separator.
abbrev pub IsName : List ℕ → Type 0
IsName [] = ⊥
IsName (b ∷ bs) = All (λ x. x ≢ separator) (b ∷ bs)

-- The names of the directories, each with a separator behind it, in front of `tail`.
abbrev pub path_bytes : List (List ℕ) → List ℕ → List ℕ
path_bytes [] tail = tail
path_bytes (c ∷ cs) tail = c ++ (separator ∷ path_bytes cs tail)

-- The reference: one directory after the other.
unfoldable pub descend : RomFs → ℕ → List (List ℕ) → Res ℕ
descend fs current [] = ok current
descend fs current (c ∷ cs) = elim (find_child_dir fs current c) [
  | err code ↦ err code
  | ok dir ↦ descend fs dir.offset cs
]

-- A component ends at the next separator, or with the path.
component_of-name :
    (c rest : List ℕ)
    → All (λ x. x ≢ separator) c
    → (component_of (c ++ separator ∷ rest) ≡ c)
      × (after_component (c ++ separator ∷ rest) ≡ separator ∷ rest)
unfolding component_of after_component
component_of-name [] rest h = (refl, refl)
component_of-name (b ∷ bs) rest h =
    let (front, back) = component_of-name bs rest h.1 in
    let off : (b == separator) ≡ false = ground (arith, h.0) in
    (rw off (ap (λ r. b ∷ r) front), rw off back)

component_of-last :
    (c : List ℕ) → All (λ x. x ≢ separator) c → (component_of c ≡ c) × (after_component c ≡ [])
unfolding component_of after_component
component_of-last [] h = (refl, refl)
component_of-last (b ∷ bs) h =
    let (front, back) = component_of-last bs h.1 in
    let off : (b == separator) ≡ false = ground (arith, h.0) in
    (rw off (ap (λ r. b ∷ r) front), rw off back)

-- The result of a walk that ends in the directory `r` with the bytes `leaf` left.
abbrev pub walked : Bool → List ℕ → Res ℕ → Res Walked
walked trailing leaf (err code) = err code
walked trailing leaf (ok p) = ok (record { parent = p; leaf = leaf; trailing = trailing })

-- One directory is walked.
walk-step :
    (fs : RomFs) (trailing : Bool) (current : ℕ) (c rest : List ℕ) (fuel : ℕ)
    → IsName c
    → walk fs trailing current (c ++ separator ∷ rest) (suc fuel)
      ≡ (elim (find_child_dir fs current c) [
        | err code ↦ err code
        | ok dir ↦ walk fs trailing dir.offset rest fuel
      ])
unfolding walk
walk-step fs trailing current [] rest fuel h = absurd h
walk-step fs trailing current (b ∷ bs) rest fuel h =
    let (front, back) = component_of-name (b ∷ bs) rest h in
    let some_name : (suc (length bs) == 0) ≡ false = ground arith in
    let more : (suc (length rest) == 0) ≡ false = ground arith in
    rw (front, back, some_name, more) (go (find_child_dir fs current (b ∷ bs)) back)
  where
    go :
        (r : Res DirEntry)
        → after_component (b ∷ (bs ++ separator ∷ rest)) ≡ separator ∷ rest
        → (elim r [
          | err code ↦ err code
          | ok dir ↦
              walk fs trailing dir.offset
                (drop 1 (after_component (b ∷ (bs ++ separator ∷ rest))))
                fuel
        ])
          ≡ (elim r [ err code ↦ err code | ok dir ↦ walk fs trailing dir.offset rest fuel ])
    go (err code) back = refl
    go (ok dir) back = rw back

pub walk-leaf :
    (fs : RomFs) (trailing : Bool) (current : ℕ) (c : List ℕ) (fuel : ℕ)
    → IsName c
    → walk fs trailing current c (suc fuel) ≡ walked trailing c (ok current)
unfolding walk
walk-leaf fs trailing current [] fuel h = absurd h
walk-leaf fs trailing current (b ∷ bs) fuel h =
    let (front, back) = component_of-last (b ∷ bs) h in
    let some_name : (suc (length bs) == 0) ≡ false = ground arith in rw (front, back, some_name)

-- The walk over directories and what is behind them.
pub walk-path_bytes :
    (fs : RomFs) (trailing : Bool) (front : List (List ℕ)) (current : ℕ) (tail : List ℕ) (fuel : ℕ)
    → All IsName front
    → ((at k : ℕ) → length tail ≤ k → walk fs trailing at tail k ≡ walked trailing tail (ok at))
    → length (path_bytes front tail) ≤ fuel
    → walk fs trailing current (path_bytes front tail) fuel
      ≡ walked trailing tail (descend fs current front)
unfolding descend
walk-path_bytes fs trailing [] current tail fuel h last enough = last current fuel enough
walk-path_bytes fs trailing (c ∷ cs) current tail zero h last enough =
    absurd (omega (arith, length-append c (separator ∷ path_bytes cs tail)))
walk-path_bytes fs trailing (c ∷ cs) current tail (suc fuel) h last enough =
    walk-step fs trailing current c (path_bytes cs tail) fuel h.0
    ∙ go (find_child_dir fs current c) (λ at.
      walk-path_bytes fs trailing cs at tail fuel h.1 last
        (omega (arith, length-append c (separator ∷ path_bytes cs tail))))
  where
    go :
        (r : Res DirEntry)
        → ((at : ℕ)
            → walk fs trailing at (path_bytes cs tail) fuel
              ≡ walked trailing tail (descend fs at cs))
        → (elim r [
          | err code ↦ err code
          | ok dir ↦ walk fs trailing dir.offset (path_bytes cs tail) fuel
        ])
          ≡ walked trailing tail
              (elim r [ err code ↦ err code | ok dir ↦ descend fs dir.offset cs ])
    go (err code) ih = refl
    go (ok dir) ih = ih dir.offset
