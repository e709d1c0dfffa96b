-- ===== src/Tls/Changes.antt =====
-- What marking and clearing a block, and adding a page, do to the blocks in use.
use voland.Base.{ℕ, zero, suc, ◌+◌, ◌-◌, ◌*◌, ◌/◌, ◌%◌, ◌^◌, ◌≤◌, ◌<◌, ◌≡◌, refl, arith, ◌∙◌}
use voland.Base.{true, false, not, ◌||◌, ◌&&◌, ltb, ◌==◌}
use voland.Base.{
  List, [], ◌∷◌, ◌++◌, length, length-append, length-set, set, get_or, inl, inr, eq_cases,
}
use voland.Base.{bit-bit_or, bit-clear, bit_or}
use native.Mathlib.Nat.{zero-div}
use voland.Vmm.{page_size}
use voland.Tls.{
  TlsPage, TlsAllocator, is_used, block_bytes, page_at, mark, unmark, tls_is_allocated,
}
use voland.Tls.Blocks.{
  PagesFrom, PagesFrom-set, no_page, used_at, used_at-set, tls_is_allocated_lem,
}

-- What the operations keep: page `n` lies at `region.base + n * VMM_PAGE_SIZE`, inside the region,
-- which is placed at a page, and there are at most TLS_MAX_PAGES of them.
pub record IsPlaced (a : TlsAllocator) : Type 0 where
  pub pages : PagesFrom a.region.base a.mapped
  pub aligned : a.region.base % page_size ≡ 0
  pub few : length a.mapped ≤ 64
  pub room : a.region.base + 64 * page_size < 2 ^ 64
  pub inside : length a.mapped * page_size ≤ a.region.size

-- The address of a block.
abbrev pub address_of : TlsAllocator → ℕ → ℕ → ℕ
address_of a p b = a.region.base + p * page_size + b * block_bytes

pub page_at_lem :
    (base : ℕ) (mapped : List TlsPage) (p : ℕ)
    → PagesFrom base mapped
    → p < length mapped
    → (get_or mapped p no_page).gva ≡ base + p * page_size
page_at_lem base [] p pages lt = elim lt [ ]
page_at_lem base (page ∷ rest) zero pages lt = omega (arith, pages.0)
page_at_lem base (page ∷ rest) (suc p) pages lt =
    omega (arith, page_at_lem (base + page_size) rest p pages.1 (omega arith))

pub mark-IsPlaced : (a : TlsAllocator) (p b : ℕ) → IsPlaced a → IsPlaced (mark a p b)
mark-IsPlaced a p b v = record {
  pages = PagesFrom-set a.region.base a.mapped p (bit_or (page_at a p).used_mask (2 ^ b)) v.pages;
  aligned = v.aligned;
  few = omega (
    arith,
    v.few,
    length-set a.mapped p
        (record (page_at a p) { used_mask = bit_or (page_at a p).used_mask (2 ^ b) }),
  );
  room = v.room;
  inside = omega (
    arith,
    v.inside,
    length-set a.mapped p
        (record (page_at a p) { used_mask = bit_or (page_at a p).used_mask (2 ^ b) }),
  );
}

used_at-mark :
    (mapped : List TlsPage) (p b n : ℕ)
    → p < length mapped
    → b < 8
    → used_at
        (set mapped p (record (get_or mapped p no_page) {
          used_mask = bit_or (get_or mapped p no_page).used_mask (2 ^ b);
        }))
        n
      ≡ (n == p * 8 + b || used_at mapped n)
used_at-mark mapped p b n lt small =
    let mask = (get_or mapped p no_page).used_mask in
    rw (used_at-set mapped p (bit_or mask (2 ^ b)) n lt) (elim (eq_cases (n / 8) p) [
      | inl same ↦
          let there : ltb p (length mapped) ≡ true = ground arith in
          rw (same, bit-bit_or mask b (n % 8), there) (ground (arith, same))
      | inr other ↦ ground arith
    ])

pub mark_lem :
    (a : TlsAllocator) (p b x : ℕ)
    → IsPlaced a
    → p < length a.mapped
    → b < 8
    → tls_is_allocated (mark a p b) x ≡ (x == address_of a p b || tls_is_allocated a x)
mark_lem a p b x v lt small =
    rw
      (
        tls_is_allocated_lem (mark a p b) x (mark-IsPlaced a p b v).pages v.aligned,
        tls_is_allocated_lem a x v.pages v.aligned,
        used_at-mark a.mapped p b ((x - a.region.base) / block_bytes) lt small,
      )
      (ground (arith, v.aligned))

pub unmark-IsPlaced : (a : TlsAllocator) (p b : ℕ) → IsPlaced a → IsPlaced (unmark a p b)
unmark-IsPlaced a p b v = record {
  pages = PagesFrom-set a.region.base a.mapped p ((page_at a p).used_mask - 2 ^ b) v.pages;
  aligned = v.aligned;
  few = omega (
    arith,
    v.few,
    length-set a.mapped p (record (page_at a p) { used_mask = (page_at a p).used_mask - 2 ^ b }),
  );
  room = v.room;
  inside = omega (
    arith,
    v.inside,
    length-set a.mapped p (record (page_at a p) { used_mask = (page_at a p).used_mask - 2 ^ b }),
  );
}

used_at-unmark :
    (mapped : List TlsPage) (p b n : ℕ)
    → p < length mapped
    → b < 8
    → is_used (get_or mapped p no_page).used_mask b ≡ true
    → used_at
        (set mapped p (record (get_or mapped p no_page) {
          used_mask = (get_or mapped p no_page).used_mask - 2 ^ b;
        }))
        n
      ≡ (not (n == p * 8 + b) && used_at mapped n)
used_at-unmark mapped p b n lt small used =
    let mask = (get_or mapped p no_page).used_mask in
    rw (used_at-set mapped p (mask - 2 ^ b) n lt) (elim (eq_cases (n / 8) p) [
      | inl same ↦
          let there : ltb p (length mapped) ≡ true = ground arith in
          rw (same, bit-clear mask b (n % 8) (ground (arith, used)), there) (ground (arith, same))
      | inr other ↦ ground arith
    ])

pub unmark_lem :
    (a : TlsAllocator) (p b x : ℕ)
    → IsPlaced a
    → p < length a.mapped
    → b < 8
    → is_used (page_at a p).used_mask b ≡ true
    → tls_is_allocated (unmark a p b) x ≡ (not (x == address_of a p b) && tls_is_allocated a x)
unmark_lem a p b x v lt small used =
    rw
      (
        tls_is_allocated_lem (unmark a p b) x (unmark-IsPlaced a p b v).pages v.aligned,
        tls_is_allocated_lem a x v.pages v.aligned,
        used_at-unmark a.mapped p b ((x - a.region.base) / block_bytes) lt small used,
      )
      (ground (arith, v.aligned))

-- A new page, none of whose blocks is in use.
used_at-append :
    (mapped : List TlsPage) (gva i j : ℕ)
    → (ltb i (length (mapped ++ (record { gva = gva; used_mask = 0 } ∷ [])))
        && is_used
            (get_or (mapped ++ (record { gva = gva; used_mask = 0 } ∷ [])) i no_page).used_mask
            j)
      ≡ (ltb i (length mapped) && is_used (get_or mapped i no_page).used_mask j)
used_at-append [] gva zero j = rw (zero-div (2 ^ j))
used_at-append [] gva (suc i) j = ground arith
used_at-append (page ∷ rest) gva zero j = ground arith
used_at-append (page ∷ rest) gva (suc i) j =
    let at = used_at-append rest gva i j in
    let long : ltb (suc i) (suc (length (rest ++ (record { gva = gva; used_mask = 0 } ∷ []))))
        ≡ ltb i (length (rest ++ (record { gva = gva; used_mask = 0 } ∷ []))) =
      ground arith in
    let short : ltb (suc i) (suc (length rest)) ≡ ltb i (length rest) = ground arith in
    rw (long, short) at

pub new_block-clear :
    (mapped : List TlsPage) (gva : ℕ)
    → used_at (mapped ++ (record { gva = gva; used_mask = 0 } ∷ [])) (length mapped * 8) ≡ false
new_block-clear mapped gva =
    let last : length mapped * 8 / 8 ≡ length mapped = omega arith in
    rw last (used_at-append mapped gva (length mapped) (length mapped * 8 % 8) ∙ ground arith)

PagesFrom-append :
    (base : ℕ) (mapped : List TlsPage) (gva : ℕ)
    → PagesFrom base mapped
    → gva ≡ base + length mapped * page_size
    → PagesFrom base (mapped ++ (record { gva = gva; used_mask = 0 } ∷ []))
PagesFrom-append base [] gva pages at = (omega (arith, at), tt)
PagesFrom-append base (page ∷ rest) gva pages at =
    (pages.0, PagesFrom-append (base + page_size) rest gva pages.1 (omega (arith, at)))

abbrev pub with_page : TlsAllocator → TlsAllocator
with_page a = record a {
  mapped =
      a.mapped
      ++ (record { gva = a.region.base + length a.mapped * page_size; used_mask = 0 } ∷ []);
}

pub with_page-IsPlaced :
    (a : TlsAllocator)
    → IsPlaced a
    → length a.mapped < 64
    → (length a.mapped + 1) * page_size ≤ a.region.size
    → IsPlaced (with_page a)
with_page-IsPlaced a v few fits =
    let gva = a.region.base + length a.mapped * page_size in
    let long = length-append a.mapped (record { gva = gva; used_mask = 0 } ∷ []) in
    record {
      pages = PagesFrom-append a.region.base a.mapped gva v.pages refl;
      aligned = v.aligned;
      few = omega (arith, long);
      room = v.room;
      inside = omega (arith, long, fits);
    }

pub with_page_lem :
    (a : TlsAllocator) (x : ℕ)
    → IsPlaced a
    → IsPlaced (with_page a)
    → tls_is_allocated (with_page a) x ≡ tls_is_allocated a x
with_page_lem a x v w =
    let n = (x - a.region.base) / block_bytes in
    rw (
      tls_is_allocated_lem (with_page a) x w.pages w.aligned,
      tls_is_allocated_lem a x v.pages v.aligned,
      used_at-append a.mapped (a.region.base + length a.mapped * page_size) (n / 8) (n % 8),
    )
