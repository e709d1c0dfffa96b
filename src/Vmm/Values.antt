-- ===== src/Vmm/Values.antt =====
-- `vmm_read8` to `vmm_write64` of core/common/vmm.h and vmm.c: the fast path for a value within one
-- page against the block path.
use voland.Base.{ℕ, zero, suc, ◌+◌, ◌-◌, ◌≤◌, ◌<◌, ◌≡◌, refl, arith, true, false}
use voland.Base.{◌==◌, ltb, leb, inl, inr, Bool-cases, ap}
use voland.Base.{some, List, [], ◌∷◌, ◌++◌, length, take, drop, Option-cases}
use voland.Vmm.{Context, out_of_range, address_space_size, perm_r, perm_w, is_valid_byte_range}
use voland.Vmm.Access.{
  Checked, done, fault, fault_at, vmm_translate_inline, validate_from, validate_byte_range,
  vmm_read, vmm_write, vmm_read_inline, vmm_write_inline, vmm_read_cross_page, vmm_write_cross_page,
  vmm_read_block, vmm_write_block, copy_guest_to_host, copy_host_to_guest, chunk_of, read_bytes,
  write_bytes, next_page, vmm_access_crosses_page,
}

validate_from-stop :
    (ctx : Context) (perms end cursor fuel : ℕ)
    → end ≤ cursor
    → validate_from ctx perms end cursor fuel ≡ done tt
unfolding validate_from
validate_from-stop ctx perms end cursor zero h = refl
validate_from-stop ctx perms end cursor (suc fuel) h =
    let test : ltb cursor end ≡ false = ground arith in rw test

outside_space :
    (ctx : Context) (gva perms : ℕ)
    → leb address_space_size gva ≡ true
    → vmm_translate_inline ctx gva perms ≡ fault_at out_of_range gva perms
unfolding vmm_translate_inline
outside_space ctx gva perms beyond = rw beyond

-- The verdict of one translation.
abbrev verdict : Checked ℕ → Checked (Unit {0})
verdict (fault f) = fault f
verdict (done host) = done tt

-- A validation of a range within one page is one translation.
validate_in_page :
    (ctx : Context) (gva n perms : ℕ) {t : Checked ℕ}
    → vmm_access_crosses_page gva (suc n) ≡ false
    → vmm_translate_inline ctx gva perms ≡ t
    → validate_byte_range ctx gva (suc n) perms ≡ verdict t
unfolding validate_byte_range validate_from is_valid_byte_range
validate_in_page ctx gva n perms {t} e t_is = elim (Bool-cases (leb address_space_size gva)) [
  | inl beyond ↦
      let range : is_valid_byte_range gva (suc n) ≡ false = ground arith in
      rw (range, ← t_is, outside_space ctx gva perms beyond)
  | inr within ↦
      let range : is_valid_byte_range gva (suc n) ≡ true = ground arith in
      let test : ltb gva (gva + suc n) ≡ true = ground arith in
      let stop = validate_from-stop ctx perms (gva + suc n) (next_page gva) n (ground arith) in
      rw (range, test, t_is, validate_byte_range) (go t stop)
]
  where
    go :
        (t : Checked ℕ) {rest : Checked (Unit {0})}
        → rest ≡ done tt
        → elim t [ fault f ↦ fault f | done host ↦ rest ] ≡ verdict t
    go (fault f) stop = refl
    go (done host) stop = stop

++-[] : (xs : List ℕ) → xs ++ [] ≡ xs
++-[] [] = refl
++-[] (x ∷ xs) = ap (λ ys. x ∷ ys) (++-[] xs)

take_all : (n : ℕ) (xs : List ℕ) → length xs ≤ n → (take n xs ≡ xs) × (drop n xs ≡ [])
take_all zero [] h = (refl, refl)
take_all zero (x ∷ xs) h = absurd (omega arith)
take_all (suc n) [] h = (refl, refl)
take_all (suc n) (x ∷ xs) h = let (a, b) = take_all n xs (omega arith) in (ap (λ ys. x ∷ ys) a, b)

chunk_in_page :
    (gva n : ℕ) → vmm_access_crosses_page gva (suc n) ≡ false → chunk_of gva (suc n) ≡ suc n
unfolding chunk_of
chunk_in_page gva n e = ground arith

copy_guest_to_host-nothing :
    (ctx : Context) (cursor fuel : ℕ) → copy_guest_to_host ctx cursor 0 fuel ≡ some []
unfolding copy_guest_to_host
copy_guest_to_host-nothing ctx cursor zero = refl
copy_guest_to_host-nothing ctx cursor (suc fuel) = refl

copy_host_to_guest-nothing :
    (ctx : Context) (cursor fuel : ℕ) → copy_host_to_guest ctx cursor [] fuel ≡ some ctx
unfolding copy_host_to_guest
copy_host_to_guest-nothing ctx cursor zero = refl
copy_host_to_guest-nothing ctx cursor (suc fuel) = refl

-- The copy loops make one round for a value within a page.
copy_guest_to_host-in_page :
    (ctx : Context) (gva n : ℕ) {host : ℕ}
    → vmm_access_crosses_page gva (suc n) ≡ false
    → vmm_translate_inline ctx gva perm_r ≡ done host
    → copy_guest_to_host ctx gva (suc n) (suc n) ≡ some (read_bytes ctx.memory host (suc n))
unfolding copy_guest_to_host
copy_guest_to_host-in_page ctx gva n {host} e t =
    let test : (suc n == 0) ≡ false = ground arith in
    let none_left : suc n - suc n ≡ 0 = omega arith in
    rw
      (
        test,
        t,
        chunk_in_page gva n e,
        none_left,
        copy_guest_to_host-nothing ctx (gva + suc n) n,
        copy_guest_to_host,
      )
      (ap some (++-[] (read_bytes ctx.memory host (suc n))))

copy_host_to_guest-in_page :
    (ctx : Context) (gva b : ℕ) (bs : List ℕ) {host : ℕ}
    → vmm_access_crosses_page gva (suc (length bs)) ≡ false
    → vmm_translate_inline ctx gva perm_w ≡ done host
    → copy_host_to_guest ctx gva (b ∷ bs) (suc (length bs))
      ≡ some (record ctx { memory = write_bytes ctx.memory host (b ∷ bs) })
unfolding copy_host_to_guest
copy_host_to_guest-in_page ctx gva b bs {host} e t =
    let test : (suc (length bs) == 0) ≡ false = ground arith in
    let (whole, left) = take_all (length bs) bs (omega arith) in
    rw (test, t, chunk_in_page gva (length bs) e, whole, left, copy_host_to_guest)
      (copy_host_to_guest-nothing (record ctx { memory = write_bytes ctx.memory host (b ∷ bs) })
        (gva + suc (length bs)) (length bs))

-- A checked read of one value, by the fast path within a page or the slow path across two, is the
-- block read of its bytes: the same result, the same fault, the same context.
pub vmm_read-vmm_read_block :
    (ctx : Context) (gva size : ℕ) → 0 < size → vmm_read ctx gva size ≡ vmm_read_block ctx gva size
unfolding vmm_read vmm_read_inline vmm_read_cross_page vmm_read_block
vmm_read-vmm_read_block ctx gva zero pos = absurd (omega arith)
vmm_read-vmm_read_block ctx gva (suc n) pos =
    elim (Bool-cases (vmm_access_crosses_page gva (suc n))) [
      | inl crosses ↦ slow crosses (validate_byte_range ctx gva (suc n) perm_r) refl
      | inr inside ↦ fast inside (vmm_translate_inline ctx gva perm_r) refl
    ]
  where
    test : (suc n == 0) ≡ false
    test = ground arith

    slow :
        vmm_access_crosses_page gva (suc n) ≡ true
        → (t : Checked (Unit {0})) → validate_byte_range ctx gva (suc n) perm_r ≡ t
        → vmm_read ctx gva (suc n) ≡ vmm_read_block ctx gva (suc n)
    slow crosses (fault f) e = rw (crosses, test, e, vmm_read, vmm_read_cross_page, vmm_read_block)
    slow crosses (done u) e = elim (Option-cases (copy_guest_to_host ctx gva (suc n) (suc n))) [
      | inl c ↦ rw (crosses, test, e, c, vmm_read, vmm_read_cross_page, vmm_read_block)
      | inr (bytes, c) ↦ rw (crosses, test, e, c, vmm_read, vmm_read_cross_page, vmm_read_block)
    ]

    fast :
        vmm_access_crosses_page gva (suc n) ≡ false
        → (t : Checked ℕ) → vmm_translate_inline ctx gva perm_r ≡ t
        → vmm_read ctx gva (suc n) ≡ vmm_read_block ctx gva (suc n)
    fast inside (fault f) e =
        rw (inside, test, e, validate_in_page ctx gva n perm_r inside e, vmm_read, vmm_read_block)
    fast inside (done host) e = rw (
      inside,
      test,
      e,
      validate_in_page ctx gva n perm_r inside e,
      copy_guest_to_host-in_page ctx gva n inside e,
      vmm_read,
      vmm_read_block,
    )

-- The same for a checked write of one value.
pub vmm_write-vmm_write_block :
    (ctx : Context) (gva : ℕ) (src : List ℕ)
    → 0 < length src
    → vmm_write ctx gva src ≡ vmm_write_block ctx gva src
unfolding vmm_write vmm_write_inline vmm_write_cross_page vmm_write_block
vmm_write-vmm_write_block ctx gva [] pos = absurd (omega arith)
vmm_write-vmm_write_block ctx gva (b ∷ bs) pos =
    elim (Bool-cases (vmm_access_crosses_page gva (suc (length bs)))) [
      | inl crosses ↦ slow crosses (validate_byte_range ctx gva (suc (length bs)) perm_w) refl
      | inr inside ↦ fast inside (vmm_translate_inline ctx gva perm_w) refl
    ]
  where
    test : (suc (length bs) == 0) ≡ false
    test = ground arith

    slow :
        vmm_access_crosses_page gva (suc (length bs)) ≡ true
        → (t : Checked (Unit {0})) → validate_byte_range ctx gva (suc (length bs)) perm_w ≡ t
        → vmm_write ctx gva (b ∷ bs) ≡ vmm_write_block ctx gva (b ∷ bs)
    slow crosses (fault f) e =
        rw (crosses, test, e, vmm_write, vmm_write_cross_page, vmm_write_block)
    slow crosses (done u) e =
        elim (Option-cases (copy_host_to_guest ctx gva (b ∷ bs) (suc (length bs)))) [
          | inl c ↦ rw (crosses, test, e, c, vmm_write, vmm_write_cross_page, vmm_write_block)
          | inr (after, c) ↦
              rw (crosses, test, e, c, vmm_write, vmm_write_cross_page, vmm_write_block)
        ]

    fast :
        vmm_access_crosses_page gva (suc (length bs)) ≡ false
        → (t : Checked ℕ) → vmm_translate_inline ctx gva perm_w ≡ t
        → vmm_write ctx gva (b ∷ bs) ≡ vmm_write_block ctx gva (b ∷ bs)
    fast inside (fault f) e = rw (
      inside,
      test,
      e,
      validate_in_page ctx gva (length bs) perm_w inside e,
      vmm_write,
      vmm_write_block,
    )
    fast inside (done host) e = rw (
      inside,
      test,
      e,
      validate_in_page ctx gva (length bs) perm_w inside e,
      copy_host_to_guest-in_page ctx gva b bs inside e,
      vmm_write,
      vmm_write_block,
    )
