-- ===== src/Vmm/Transfers.antt =====
-- `vmm_read_block` and `vmm_write_block` of core/common/vmm.c, and that one gives back what the other
-- wrote.
use voland.Base.{ℕ, zero, suc, ◌+◌, ◌≤◌, ◌<◌, ◌≡◌, ◌≢◌, refl, arith, false}
use voland.Base.{◌==◌, ◌∙◌, ap, ap₂, update, update_self, update_ne}
use voland.Base.{Option, none, some, List, [], ◌∷◌, length}
use voland.Result.{Res, ok, err, Code, memory_fault}
use voland.Vmm.{Context, pte_load, perm_r, perm_w}
use voland.Vmm.Access.{Checked, done, fault, validate_byte_range, vmm_read_block, vmm_write_block}
use voland.Vmm.Translate.{Accessible, AllAccessible, host_of, Validated, validate_byte_range_lem}
use voland.Vmm.Blocks.{guest_bytes, store_bytes, copy_guest_to_host_lem, copy_host_to_guest_lem}

-- A call that failed on a fault: only `last_fault` differs.
pub record Faulted (ctx c : Context) (perms gva size : ℕ) (code : Code) : Type 0 where
  pub code_is : code ≡ memory_fault
  pub unreachable : ¬ AllAccessible ctx perms gva (gva + size)
  pub unchanged : c ≡ record ctx { last_fault = c.last_fault }
  pub required : c.last_fault.required_perms ≡ perms

-- What `vmm_read_block` may give.
abbrev pub BlockRead : Context → ℕ → ℕ → Option (Res (List ℕ) × Context) → Type 0
BlockRead ctx gva size none = ⊥
BlockRead ctx gva size (some (ok bytes, c)) =
    (c ≡ ctx) × AllAccessible ctx perm_r gva (gva + size) × (bytes ≡ guest_bytes ctx gva size)
BlockRead ctx gva size (some (err code, c)) = Faulted ctx c perm_r gva size code

-- `vmm_read_block` never meets an unmapped page half way. It succeeds exactly when every byte of the
-- range may be read, gives the bytes in order whatever the pages behind them, and changes nothing;
-- else it is a memory fault that changes only the record of the fault.
pub vmm_read_block_lem :
    (ctx : Context) (gva size : ℕ) → BlockRead ctx gva size (vmm_read_block ctx gva size)
unfolding vmm_read_block guest_bytes
vmm_read_block_lem ctx gva zero = (refl, λ x low high. absurd (omega arith), refl)
vmm_read_block_lem ctx gva (suc n) =
    go (validate_byte_range ctx gva (suc n) perm_r) refl
      (validate_byte_range_lem ctx perm_r gva (suc n) (omega arith))
  where
    test : (suc n == 0) ≡ false
    test = ground arith

    go :
        (t : Checked (Unit {0}))
        → validate_byte_range ctx gva (suc n) perm_r ≡ t
        → Validated ctx perm_r gva (gva + suc n) t
        → BlockRead ctx gva (suc n) (vmm_read_block ctx gva (suc n))
    go (fault f) e (off, req) =
        rw (test, e, vmm_read_block)
          (record { code_is = refl; unreachable = off; unchanged = refl; required = req })
    go (done u) e all =
        rw
          (
            test,
            e,
            copy_guest_to_host_lem ctx (suc n) gva (suc n) (omega arith) all,
            vmm_read_block,
          )
          (refl, all, refl)

-- What `vmm_write_block` may give.
abbrev pub BlockWritten : Context → ℕ → List ℕ → Option (Res (Unit {0}) × Context) → Type 0
BlockWritten ctx gva src none = ⊥
BlockWritten ctx gva src (some (ok u, c)) =
    AllAccessible ctx perm_w gva (gva + length src)
    × (c ≡ record ctx { memory = store_bytes ctx ctx.memory gva src })
BlockWritten ctx gva src (some (err code, c)) = Faulted ctx c perm_w gva (length src) code

-- `vmm_write_block` never meets an unmapped page half way. It succeeds exactly when every byte of the
-- range may be written, and then stores the bytes in order whatever the pages behind them, and
-- nothing else changes; else it is a memory fault that changes only the record of the fault.
pub vmm_write_block_lem :
    (ctx : Context) (gva : ℕ) (src : List ℕ)
    → BlockWritten ctx gva src (vmm_write_block ctx gva src)
unfolding vmm_write_block store_bytes
vmm_write_block_lem ctx gva [] = (λ x low high. absurd (omega arith), refl)
vmm_write_block_lem ctx gva (b ∷ bs) =
    go (validate_byte_range ctx gva (length (b ∷ bs)) perm_w) refl
      (validate_byte_range_lem ctx perm_w gva (length (b ∷ bs)) (omega arith))
  where
    test : (suc (length bs) == 0) ≡ false
    test = ground arith

    go :
        (t : Checked (Unit {0}))
        → validate_byte_range ctx gva (length (b ∷ bs)) perm_w ≡ t
        → Validated ctx perm_w gva (gva + length (b ∷ bs)) t
        → BlockWritten ctx gva (b ∷ bs) (vmm_write_block ctx gva (b ∷ bs))
    go (fault f) e (off, req) =
        rw (test, e, vmm_write_block)
          (record { code_is = refl; unreachable = off; unchanged = refl; required = req })
    go (done u) e all =
        rw
          (
            test,
            e,
            copy_host_to_guest_lem (length (b ∷ bs)) ctx ctx.memory gva (b ∷ bs) (omega arith) all,
            vmm_write_block,
          )
          (all, refl)

-- No two bytes of the range are one byte of guest RAM.
abbrev pub Unmirrored : Context → ℕ → ℕ → Type 0
Unmirrored ctx first end =
    (x y : ℕ) → first ≤ x → x < end → first ≤ y → y < end → host_of ctx x ≡ host_of ctx y → x ≡ y

-- A byte behind no address of the range keeps its value.
pub store_bytes_other :
    (ctx : Context) (src : List ℕ) (memory : ℕ → ℕ) (gva h : ℕ)
    → ((x : ℕ) → gva ≤ x → x < gva + length src → h ≢ host_of ctx x)
    → store_bytes ctx memory gva src h ≡ memory h
unfolding store_bytes
store_bytes_other ctx [] memory gva h off = refl
store_bytes_other ctx (b ∷ bs) memory gva h off =
    store_bytes_other ctx bs (update memory (host_of ctx gva) b) (gva + 1) h
      (λ x low high. off x (omega arith) (omega arith))
    ∙ update_ne memory (host_of ctx gva) b h (off gva (omega arith) (omega arith))

guest_bytes-store_bytes :
    (ctx : Context) (src : List ℕ) (memory : ℕ → ℕ) (gva : ℕ)
    → Unmirrored ctx gva (gva + length src)
    → guest_bytes (record ctx { memory = store_bytes ctx memory gva src }) gva (length src) ≡ src
unfolding guest_bytes store_bytes host_of pte_load
guest_bytes-store_bytes ctx [] memory gva once = refl
guest_bytes-store_bytes ctx (b ∷ bs) memory gva once =
    ap₂ ◌∷◌
      (store_bytes_other ctx bs (update memory (host_of ctx gva) b) (gva + 1) (host_of ctx gva)
          (λ x low high e.
            absurd
              (omega (arith, once gva x (omega arith) (omega arith) (omega arith) (omega arith) e)))
        ∙ update_self memory (host_of ctx gva) b)
      (guest_bytes-store_bytes ctx bs (update memory (host_of ctx gva) b) (gva + 1)
        (λ x y a b c d e. once x y (omega arith) (omega arith) (omega arith) (omega arith) e))

Accessible-memory :
    (ctx : Context) (memory : ℕ → ℕ) (perms x : ℕ)
    → Accessible ctx perms x
    → Accessible (record ctx { memory = memory }) perms x
unfolding pte_load
Accessible-memory ctx memory perms x a = record {
  in_space = a.in_space;
  mapped = a.mapped;
  permitted = a.permitted;
}

read-Accessible :
    (ctx : Context) (gva size : ℕ)
    → AllAccessible ctx perm_r gva (gva + size)
    → vmm_read_block ctx gva size ≡ some (ok (guest_bytes ctx gva size), ctx)
read-Accessible ctx gva size all =
    go (vmm_read_block ctx gva size) (vmm_read_block_lem ctx gva size)
  where
    go :
        (r : Option (Res (List ℕ) × Context))
        → BlockRead ctx gva size r
        → r ≡ some (ok (guest_bytes ctx gva size), ctx)
    go none r = absurd r
    go (some (ok bytes, c)) (same, can, gives) = ap₂ (λ b d. some (ok b, d)) gives same
    go (some (err code, c)) f = absurd (f.unreachable all)

-- What `vmm_write_block` stored, `vmm_read_block` gives back, where the range may be read too and is
-- not mirrored within itself.
pub vmm_read_block-vmm_write_block :
    (ctx : Context) (gva : ℕ) (src : List ℕ) {c : Context}
    → vmm_write_block ctx gva src ≡ some (ok tt, c)
    → AllAccessible ctx perm_r gva (gva + length src)
    → Unmirrored ctx gva (gva + length src)
    → vmm_read_block c gva (length src) ≡ some (ok src, c)
vmm_read_block-vmm_write_block ctx gva src {c} e readable once =
    let (can, same) = rw e at (vmm_write_block_lem ctx gva src) in
    let memory = store_bytes ctx ctx.memory gva src in
    let back = guest_bytes-store_bytes ctx src ctx.memory gva once in
    rw same (
      read-Accessible (record ctx { memory = memory }) gva (length src)
        (λ x low high. Accessible-memory ctx memory perm_r x (readable x low high))
      ∙ ap (λ b. some (ok b, record ctx { memory = memory })) back)
