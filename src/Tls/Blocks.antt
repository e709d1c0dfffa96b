-- ===== src/Tls/Blocks.antt =====
-- The blocks of core/hle/kernel/tls.c by their number from the region's base, and what locate_block
-- and the two changes of a mask are on them.
use voland.Base.{ℕ, zero, suc, ◌+◌, ◌-◌, ◌*◌, ◌/◌, ◌%◌, ◌<◌, ◌≡◌, arith}
use voland.Base.{Bool, true, false, ◌&&◌, ltb, leb, ◌==◌, if◌then◌else◌}
use voland.Base.{
  Option, none, some, List, [], ◌∷◌, length, set, get_or, get_or-set_self, get_or-set_ne,
  length-set, inl, inr, Bool-cases, eq_cases,
}
use voland.Vmm.{page_size}
use voland.Tls.{
  TlsPage, TlsAllocator, is_used, block_bytes, locate_from, locate_block, tls_is_allocated,
}

-- Page `i` of the list lies `i` pages behind `base`.
abbrev pub PagesFrom : ℕ → List TlsPage → Type 0
PagesFrom base [] = Unit
PagesFrom base (page ∷ rest) = (page.gva ≡ base) × PagesFrom (base + page_size) rest

abbrev pub no_page : TlsPage
no_page = record { gva = 0; used_mask = 0 }

-- Whether block `n` is in use.
abbrev pub used_at : List TlsPage → ℕ → Bool
used_at mapped n =
    ltb (n / 8) (length mapped) && is_used (get_or mapped (n / 8) no_page).used_mask (n % 8)

-- What `locate_from` finds.
locate_from_lem :
    (base : ℕ) (mapped : List TlsPage) (gva p : ℕ)
    → PagesFrom base mapped
    → locate_from mapped gva p ≡ (
        if leb base gva && ltb gva (base + length mapped * page_size)
        then some (p + (gva - base) / page_size, (gva - base) % page_size / block_bytes)
        else none)
unfolding locate_from
locate_from_lem base [] gva p pages = ground arith
locate_from_lem base (page ∷ rest) gva p pages =
    rw (pages.0, locate_from_lem (base + page_size) rest gva (p + 1) pages.1)
      (elim (Bool-cases (leb base gva && ltb (gva - base) page_size)) [
        | inl here ↦
            let inside : (leb base gva && ltb gva (base + suc (length rest) * page_size)) ≡ true =
              ground arith in
            let first : p + (gva - base) / page_size ≡ p = ground arith in
            let within : (gva - base) % page_size ≡ gva - base = ground arith in
            rw (here, inside, first, within)
        | inr off ↦
            elim (Bool-cases (leb base gva && ltb gva (base + suc (length rest) * page_size))) [
              | inl inside ↦
                  let there : (leb (base + page_size) gva
                        && ltb gva (base + page_size + length rest * page_size))
                      ≡ true =
                    ground arith in
                  let same : p + 1 + (gva - (base + page_size)) / page_size
                      ≡ p + (gva - base) / page_size =
                    ground arith in
                  let within : (gva - (base + page_size)) % page_size ≡ (gva - base) % page_size =
                    ground arith in
                  rw (off, inside, there, same, within)
              | inr outside ↦
                  let nowhere : (leb (base + page_size) gva
                        && ltb gva (base + page_size + length rest * page_size))
                      ≡ false =
                    ground arith in
                  rw (off, outside, nowhere)
            ]
      ])

-- The block at an address, by its number.
abbrev pub block_at : TlsAllocator → ℕ → Option (ℕ × ℕ)
block_at a x =
    let n = (x - a.region.base) / block_bytes in
    if x % block_bytes == 0 && (leb a.region.base x && ltb (n / 8) (length a.mapped))
    then some (n / 8, n % 8)
    else none

pub locate_block_lem :
    (a : TlsAllocator) (x : ℕ)
    → PagesFrom a.region.base a.mapped
    → a.region.base % page_size ≡ 0
    → locate_block a x ≡ block_at a x
unfolding locate_block
locate_block_lem a x pages aligned =
    let base = a.region.base in
    let n = (x - base) / block_bytes in
    let page : 0 + (x - base) / page_size ≡ n / 8 = omega arith in
    let block : (x - base) % page_size / block_bytes ≡ n % 8 = omega arith in
    rw (locate_from_lem base a.mapped x 0 pages) (elim (Bool-cases (x % block_bytes == 0)) [
      | inr odd ↦ rw odd
      | inl even ↦ elim (Bool-cases (leb base x && ltb x (base + length a.mapped * page_size))) [
        | inl inside ↦
            let within : (leb base x && ltb (n / 8) (length a.mapped)) ≡ true = ground arith in
            rw (even, inside, within, page, block)
        | inr outside ↦
            let without : (leb base x && ltb (n / 8) (length a.mapped)) ≡ false = ground arith in
            rw (even, outside, without)
      ]
    ])

-- `tls_is_allocated` by block number.
pub tls_is_allocated_lem :
    (a : TlsAllocator) (x : ℕ)
    → PagesFrom a.region.base a.mapped
    → a.region.base % page_size ≡ 0
    → tls_is_allocated a x ≡ (
        x % block_bytes == 0
        && (leb a.region.base x && used_at a.mapped ((x - a.region.base) / block_bytes)))
unfolding tls_is_allocated
tls_is_allocated_lem a x pages aligned =
    let n = (x - a.region.base) / block_bytes in
    rw (locate_block_lem a x pages aligned)
      (elim (Bool-cases
        (x % block_bytes == 0 && (leb a.region.base x && ltb (n / 8) (length a.mapped)))) [
          | inl here ↦ rw here (ground arith)
          | inr off ↦ rw off (ground arith)
        ])

pub PagesFrom-set :
    (base : ℕ) (mapped : List TlsPage) (p mask : ℕ)
    → PagesFrom base mapped
    → PagesFrom base (set mapped p (record (get_or mapped p no_page) { used_mask = mask }))
PagesFrom-set base [] p mask pages = tt
PagesFrom-set base (page ∷ rest) zero mask pages = pages
PagesFrom-set base (page ∷ rest) (suc p) mask pages =
    (pages.0, PagesFrom-set (base + page_size) rest p mask pages.1)

-- A change of one mask.
pub used_at-set :
    (mapped : List TlsPage) (p mask n : ℕ)
    → p < length mapped
    → used_at (set mapped p (record (get_or mapped p no_page) { used_mask = mask })) n
      ≡ (if n / 8 == p then is_used mask (n % 8) else used_at mapped n)
used_at-set mapped p mask n lt = elim (eq_cases (n / 8) p) [
  | inl same ↦
      let there =
        get_or-set_self mapped p (record (get_or mapped p no_page) { used_mask = mask }) no_page
          lt in
      let long = length-set mapped p (record (get_or mapped p no_page) { used_mask = mask }) in
      rw (same, there, long) (ground arith)
  | inr other ↦
      let there =
        get_or-set_ne mapped p (n / 8) (record (get_or mapped p no_page) { used_mask = mask })
          no_page other in
      let long = length-set mapped p (record (get_or mapped p no_page) { used_mask = mask }) in
      rw (there, long) (ground arith)
]
