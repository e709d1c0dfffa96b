-- ===== src/Vmm/Unmapping.antt =====
-- What `vmm_unmap` and `vmm_reprotect` of core/common/vmm.c do, on every branch, and that every
-- mapping points into guest RAM.
use voland.Base.{ℕ, ◌+◌, ◌-◌, ◌*◌, ◌/◌, ◌%◌, ◌≤◌, ◌<◌, ◌≡◌, ◌≢◌, refl, arith, false}
use voland.Base.{ltb}
use voland.Base.{some, ◌∙◌, inl, inr, Bool-cases}
use voland.Result.{Res, ok, err, Code, invalid_argument, out_of_memory}
use voland.Vmm.{Context, page_size, address_space_size, pte_load, is_valid_page_range, perm_all}
use voland.Vmm.Inv.{IsValid}
use voland.Vmm.Map.{
  vmm_map, vmm_unmap, vmm_reprotect, require_range_mapped, any_unmapped, set_perms,
}
use voland.Vmm.MapLoop.{in_range}
use voland.Vmm.Mapping.{Mapped, vmm_map_lem}
use voland.Vmm.Pte.{make_pte_fields, set_perms_fields}
use voland.Vmm.Ranges.{AllMapped, any_unmapped-false, any_unmapped-true}
use voland.Vmm.UnmapInv.{Changed, replaced, unmap_pages-Changed, reprotect_pages-Changed}

-- The entry's host page lies wholly in guest RAM, page by page.
abbrev pub InRam : ℕ → ℕ → ℕ → Type 0
InRam base size pte =
    (base ≤ pte / page_size * page_size) × (pte / page_size * page_size + page_size ≤ base + size)

-- The invariant, and every mapped page backed by guest RAM.
pub record IsBacked (ctx : Context) : Type 0 where
  pub valid : IsValid ctx
  pub backed :
      (w : ℕ) → pte_load ctx w ≢ 0 → InRam ctx.guest_ram_base ctx.guest_ram_size (pte_load ctx w)

-- The precondition of the two calls: a range of whole pages, all mapped.
pub record RangeMapped (ctx : Context) (gva size : ℕ) : Type 0 where
  pub gva_aligned : gva % page_size ≡ 0
  pub size_aligned : size % page_size ≡ 0
  pub nonempty : 0 < size
  pub in_space : gva + size ≤ address_space_size
  pub mapped : AllMapped ctx (gva / page_size) (size / page_size)

-- `require_range_mapped` decides the precondition.
abbrev Required : Context → ℕ → ℕ → Res (Unit {0}) → Type 0
Required ctx gva size (ok done) = RangeMapped ctx gva size
Required ctx gva size (err invalid_argument) = ¬ RangeMapped ctx gva size
Required ctx gva size (err code) = ⊥

require_range_mapped_lem :
    (ctx : Context) (gva size : ℕ) → Required ctx gva size (require_range_mapped ctx gva size)
unfolding require_range_mapped is_valid_page_range
require_range_mapped_lem ctx gva size = elim (Bool-cases (is_valid_page_range gva size)) [
  | inr e ↦ rw e (λ m. ground (arith, m))
  | inl e ↦ elim (Bool-cases (any_unmapped ctx (gva / page_size) (size / page_size))) [
    | inl f ↦ rw (e, f) (λ m. any_unmapped-true ctx _ _ f m.mapped)
    | inr f ↦
        rw (e, f)
          (record {
            gva_aligned = ground arith;
            size_aligned = ground arith;
            nonempty = ground arith;
            in_space = ground arith;
            mapped = any_unmapped-false ctx (gva / page_size) (size / page_size) f;
          })
  ]
]

-- What `vmm_unmap` may give.
abbrev pub Unmapped : Context → ℕ → ℕ → Res (Unit {0}) × Context → Type 0
Unmapped ctx gva size (ok done, c) =
    RangeMapped ctx gva size
    × Changed ctx c (replaced (gva / page_size) (size / page_size) (λ w. 0) (pte_load ctx))
Unmapped ctx gva size (err code, c) =
    (c ≡ ctx) × (code ≡ invalid_argument) × (¬ RangeMapped ctx gva size)

-- `vmm_unmap` succeeds exactly when every page of a valid range is mapped. It then unmaps these
-- pages and no other, keeps the invariant (tables left empty return to the freelist, the counts
-- agree) and touches no byte of memory; on failure nothing changes.
pub vmm_unmap_lem :
    (ctx : Context) (gva size : ℕ) → IsValid ctx → Unmapped ctx gva size (vmm_unmap ctx gva size)
unfolding vmm_unmap
vmm_unmap_lem ctx gva size v = go (require_range_mapped ctx gva size) refl
  where
    go :
        (r : Res (Unit {0}))
        → require_range_mapped ctx gva size ≡ r
        → Unmapped ctx gva size (vmm_unmap ctx gva size)
    go (ok done) e =
        let m = rw e at (require_range_mapped_lem ctx gva size) in
        rw (e, vmm_unmap)
          (
            m,
            unmap_pages-Changed (size / page_size) (gva / page_size) v (omega (arith, m)) m.mapped,
          )
    go (err invalid_argument) e =
        let m = rw e at (require_range_mapped_lem ctx gva size) in rw (e, vmm_unmap) (refl, refl, m)
    go (err code) e = absurd (rw e at (require_range_mapped_lem ctx gva size))

-- What `vmm_reprotect` may give.
abbrev pub Reprotected : Context → ℕ → ℕ → ℕ → Res (Unit {0}) × Context → Type 0
Reprotected ctx gva size perms (ok done, c) =
    RangeMapped ctx gva size
    × (perms ≤ perm_all)
    × Changed ctx c (
        replaced (gva / page_size) (size / page_size) (λ w. set_perms (pte_load ctx w) perms)
          (pte_load ctx))
Reprotected ctx gva size perms (err code, c) =
    (c ≡ ctx) × (code ≡ invalid_argument) × (¬ (RangeMapped ctx gva size × (perms ≤ perm_all)))

-- `vmm_reprotect` succeeds exactly when every page of a valid range is mapped and the permissions
-- are known. It then replaces the permission bits of these pages and of no other, keeps their
-- backing and the invariant; on failure nothing changes.
pub vmm_reprotect_lem :
    (ctx : Context) (gva size perms : ℕ)
    → IsBacked ctx
    → Reprotected ctx gva size perms (vmm_reprotect ctx gva size perms)
unfolding vmm_reprotect
vmm_reprotect_lem ctx gva size perms v = elim (Bool-cases (ltb perm_all perms)) [
  | inl e ↦ rw (e, vmm_reprotect) (refl, refl, λ m. ground (arith, m))
  | inr e ↦ go (ground arith) (require_range_mapped ctx gva size) refl e
]
  where
    go :
        perms ≤ perm_all
        → (r : Res (Unit {0})) → require_range_mapped ctx gva size ≡ r
        → ltb perm_all perms ≡ false
        → Reprotected ctx gva size perms (vmm_reprotect ctx gva size perms)
    go known (ok done) e f =
        let m = rw e at (require_range_mapped_lem ctx gva size) in
        let pages =
          reprotect_pages-Changed (size / page_size) (gva / page_size) perms v.valid
            (λ w low high. page_at w (v.backed w (m.mapped w low high))) in
        rw (f, e, vmm_reprotect) (m, known, pages)
      where
        page_at :
            (w : ℕ)
            → InRam ctx.guest_ram_base ctx.guest_ram_size (pte_load ctx w)
            → page_size ≤ pte_load ctx w
        page_at w b = omega (arith, v.valid.sound.ram)
    go known (err invalid_argument) e f =
        let m = rw e at (require_range_mapped_lem ctx gva size) in
        rw (f, e, vmm_reprotect) (refl, refl, λ p. m p.0)
    go known (err code) e f = absurd (rw e at (require_range_mapped_lem ctx gva size))

Changed-IsBacked :
    {ctx c : Context} (view : ℕ → ℕ)
    → Changed ctx c view
    → ((w : ℕ) → view w ≢ 0 → InRam ctx.guest_ram_base ctx.guest_ram_size (view w))
    → IsBacked c
Changed-IsBacked {ctx} {c} view d inside = record {
  valid = d.valid;
  backed =
      λ w ne. omega (arith, d.ram_base, d.ram_size, d.pages w, inside w (λ z. ne (d.pages w ∙ z)));
}

vmm_unmap-IsBacked :
    (ctx : Context) (gva size : ℕ) → IsBacked ctx → IsBacked (vmm_unmap ctx gva size).1
vmm_unmap-IsBacked ctx gva size v = go (vmm_unmap ctx gva size) (vmm_unmap_lem ctx gva size v.valid)
  where
    go : (r : Res (Unit {0}) × Context) → Unmapped ctx gva size r → IsBacked r.1
    go (ok done, c) (m, d) = Changed-IsBacked _ d (λ w ne. ground (arith, v.backed w))
    go (err code, c) (same, why, not_mapped) = rw same v

vmm_reprotect-IsBacked :
    (ctx : Context) (gva size perms : ℕ)
    → IsBacked ctx
    → IsBacked (vmm_reprotect ctx gva size perms).1
vmm_reprotect-IsBacked ctx gva size perms v =
    go (vmm_reprotect ctx gva size perms) (vmm_reprotect_lem ctx gva size perms v)
  where
    go : (r : Res (Unit {0}) × Context) → Reprotected ctx gva size perms r → IsBacked r.1
    go (ok done, c) (m, known, d) =
        Changed-IsBacked _ d
          (λ w ne. ground (arith, v.backed w, m.mapped w, set_perms_fields (pte_load ctx w) perms))
    go (err code, c) (same, why, not_mapped) = rw same v

vmm_map-IsBacked :
    (ctx : Context) (gva pa size perms : ℕ) {r : Res (Unit {0})} {c : Context}
    → IsBacked ctx
    → vmm_map ctx gva pa size perms ≡ some (r, c)
    → IsBacked c
vmm_map-IsBacked ctx gva pa size perms {r} {c} v e =
    go r (rw e at (vmm_map_lem ctx gva pa size perms v.valid))
  where
    unchanged : (code : Code) → Mapped ctx gva pa size perms (some (err code, c)) → c ≡ ctx
    unchanged out_of_memory m = m.0
    unchanged code m = m.0

    go : (r : Res (Unit {0})) → Mapped ctx gva pa size perms (some (r, c)) → IsBacked c
    go (ok done) (m, d) = record {
      valid = d.valid;
      backed = λ w ne. elim (Bool-cases (in_range (gva / page_size) (size / page_size) w)) [
        | inl inside ↦
            let at = pa + (w - gva / page_size) * page_size in
            let low : gva / page_size ≤ w = ground arith in
            let high : w < gva / page_size + size / page_size = ground arith in
            let fields =
              make_pte_fields ctx at perms v.valid.sound.ram (omega (arith, m))
                (omega (arith, m)) in
            let here = rw inside at (d.pages w) in
            omega (arith, here, fields, d.ram_base, d.ram_size, m)
        | inr outside ↦
            let here = rw outside at (d.pages w) in
            omega (arith, here, d.ram_base, d.ram_size, v.backed w (λ z. ne (here ∙ z)))
      ];
    }
    go (err code) m = rw (unchanged code m) v

-- Every mapped page stays backed by a whole page of guest RAM, with the page table invariant,
-- through each of the three mapping calls, whatever their arguments and outcome.
pub mapping_calls-IsBacked :
    (ctx : Context) (gva pa size perms : ℕ)
    → IsBacked ctx
    → ((r : Res (Unit {0})) (c : Context)
        → vmm_map ctx gva pa size perms ≡ some (r, c)
        → IsBacked c)
      × IsBacked (vmm_unmap ctx gva size).1
      × IsBacked (vmm_reprotect ctx gva size perms).1
mapping_calls-IsBacked ctx gva pa size perms v = (
  λ r c e. vmm_map-IsBacked ctx gva pa size perms v e,
  vmm_unmap-IsBacked ctx gva size v,
  vmm_reprotect-IsBacked ctx gva size perms v,
)
