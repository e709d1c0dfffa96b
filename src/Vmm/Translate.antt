-- ===== src/Vmm/Translate.antt =====
-- What `vmm_translate_inline` and `validate_byte_range` (core/common/vmm.h and vmm.c) decide: whether
-- a byte of the address space, or each byte of a range, may be accessed.
use voland.Base.{ℕ, zero, suc, ◌+◌, ◌-◌, ◌*◌, ◌/◌, ◌%◌, ◌≤◌, ◌<◌, ◌≡◌, ◌≢◌, refl, arith}
use voland.Base.{bit_and, ◌==◌, ltb, leb, inl, inr, Bool-cases}
use voland.Vmm.{
  Context, address_space_size, page_size, pte_load, is_valid_byte_range, l2_entry_count,
}
use voland.Vmm.Access.{
  Checked, done, fault, vmm_translate_inline, validate_from, validate_byte_range, next_page,
}

-- The byte at `gva` is mapped with all the permissions of `perms`.
pub record Accessible (ctx : Context) (perms gva : ℕ) : Type 0 where
  pub in_space : gva < address_space_size
  pub mapped : pte_load ctx (gva / page_size) ≢ 0
  pub permitted : bit_and (pte_load ctx (gva / page_size)) perms ≡ perms

-- Where the byte at `gva` lies in linear memory.
unfoldable pub host_of : Context → ℕ → ℕ
host_of ctx gva = pte_load ctx (gva / page_size) / page_size * page_size + gva % page_size

-- What a translation may give.
abbrev pub Translated : Context → ℕ → ℕ → Checked ℕ → Type 0
Translated ctx perms gva (done host) = Accessible ctx perms gva × (host ≡ host_of ctx gva)
Translated ctx perms gva (fault f) =
    (¬ Accessible ctx perms gva) × (f.gva ≡ gva) × (f.required_perms ≡ perms)

-- `vmm_translate_inline` succeeds exactly on a mapped byte that has the permissions, and gives the
-- byte's place in linear memory; a fault names the byte and the permissions.
pub vmm_translate_inline_lem :
    (ctx : Context) (perms gva : ℕ) → Translated ctx perms gva (vmm_translate_inline ctx gva perms)
unfolding vmm_translate_inline pte_load host_of
vmm_translate_inline_lem ctx perms gva =
    let l2 = ctx.l1 (gva / page_size / l2_entry_count) in
    let pte = ctx.tables l2 (gva / page_size % l2_entry_count) in
    elim (Bool-cases (leb address_space_size gva)) [
      | inl e ↦ rw e (λ a. ground (arith, a.in_space), refl, refl)
      | inr e ↦ elim (Bool-cases (l2 == 0)) [
        | inl f ↦ rw (e, f) (λ a. absurd (a.mapped (rw f)), refl, refl)
        | inr f ↦ elim (Bool-cases (pte == 0)) [
          | inl g ↦ rw (e, f, g) (λ a. ground (arith, a.mapped), refl, refl)
          | inr g ↦ elim (Bool-cases (bit_and pte perms == perms)) [
            | inr h ↦ rw (e, f, g, h) (λ a. ground (arith, a.permitted), refl, refl)
            | inl h ↦
                rw (e, f, g, h)
                  (
                    record {
                      in_space = ground arith;
                      mapped = ground arith;
                      permitted = ground arith;
                    },
                    ground arith,
                  )
          ]
        ]
      ]
    ]

-- The bytes of one page share their fate.
pub Accessible-page :
    (ctx : Context) (perms x y : ℕ)
    → x / page_size ≡ y / page_size
    → Accessible ctx perms x
    → Accessible ctx perms y
Accessible-page ctx perms x y e a = record {
  in_space = omega (arith, a.in_space);
  mapped = rw (← e) (a.mapped);
  permitted = rw (← e) (a.permitted);
}

-- Every byte of a range may be accessed.
abbrev pub AllAccessible : Context → ℕ → ℕ → ℕ → Type 0
AllAccessible ctx perms first end = (x : ℕ) → first ≤ x → x < end → Accessible ctx perms x

-- What a validation may give.
abbrev pub Validated : Context → ℕ → ℕ → ℕ → Checked (Unit {0}) → Type 0
Validated ctx perms first end (done _) = AllAccessible ctx perms first end
Validated ctx perms first end (fault f) =
    (¬ AllAccessible ctx perms first end) × (f.required_perms ≡ perms)

pub validate_from_lem :
    (ctx : Context) (perms end fuel cursor : ℕ)
    → end ≤ cursor + fuel
    → Validated ctx perms cursor end (validate_from ctx perms end cursor fuel)
unfolding validate_from
validate_from_lem ctx perms end zero cursor enough = λ x low high. absurd (omega arith)
validate_from_lem ctx perms end (suc fuel) cursor enough = elim (Bool-cases (ltb cursor end)) [
  | inr e ↦ rw e (λ x low high. absurd (ground arith))
  | inl e ↦ rw e (
      go (vmm_translate_inline ctx cursor perms) (vmm_translate_inline_lem ctx perms cursor)
        (validate_from ctx perms end (next_page cursor) fuel)
        (validate_from_lem ctx perms end fuel (next_page cursor) (omega arith)) (ground arith))
]
  where
    go :
        (t : Checked ℕ)
        → Translated ctx perms cursor t
        → (rest : Checked (Unit {0})) → Validated ctx perms (next_page cursor) end rest
        → cursor < end
        → Validated ctx perms cursor end (elim t [ fault f ↦ fault f | done host ↦ rest ])
    go (fault f) (off, at, req) rest v lt = (λ a. off (a cursor (omega arith) lt), req)
    go (done host) (a, at) (fault f) v lt =
        (λ all. v.0 (λ x low high. all x (omega arith) high), v.1)
    go (done host) (a, at) (done _) v lt = λ x low high.
        elim (Bool-cases (ltb x (next_page cursor))) [
          | inl e ↦ Accessible-page ctx perms cursor x (ground arith) a
          | inr e ↦ v x (ground arith) high
        ]

-- A validation of a range that is not empty.
pub validate_byte_range_lem :
    (ctx : Context) (perms gva size : ℕ)
    → 0 < size
    → Validated ctx perms gva (gva + size) (validate_byte_range ctx gva size perms)
unfolding validate_byte_range is_valid_byte_range
validate_byte_range_lem ctx perms gva size pos = elim (Bool-cases (is_valid_byte_range gva size)) [
  | inl e ↦ rw e (validate_from_lem ctx perms (gva + size) size gva (omega arith))
  | inr e ↦ rw e (
    λ all. ground (
      arith,
      (all gva (omega arith) (omega arith)).in_space,
      (all (gva + size - 1) (omega arith) (omega arith)).in_space,
    ),
    refl,
  )
]
