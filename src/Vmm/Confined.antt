-- ===== src/Vmm/Confined.antt =====
-- Guest accesses (core/common/vmm.h and vmm.c) stay within guest RAM.
use voland.Base.{ℕ, ◌+◌, ◌-◌, ◌/◌, ◌%◌, ◌≤◌, ◌<◌, ◌≡◌, refl, arith, some, List}
use voland.Result.{ok}
use voland.Vmm.{Context, page_size, perm_w}
use voland.Vmm.Access.{done, vmm_translate_inline, vmm_write_block}
use voland.Vmm.Translate.{Accessible, host_of, vmm_translate_inline_lem}
use voland.Vmm.Transfers.{vmm_write_block_lem, store_bytes_other}
use voland.Vmm.Unmapping.{IsBacked}

-- An address of guest RAM.
abbrev pub IsRamAddress : Context → ℕ → Type 0
IsRamAddress ctx h = (ctx.guest_ram_base ≤ h) × (h < ctx.guest_ram_base + ctx.guest_ram_size)

host_of-IsRamAddress :
    (ctx : Context) (perms gva : ℕ)
    → IsBacked ctx
    → Accessible ctx perms gva
    → IsRamAddress ctx (host_of ctx gva)
unfolding host_of
host_of-IsRamAddress ctx perms gva v a =
    let inside = v.backed (gva / page_size) a.mapped in
    (omega (arith, inside), omega (arith, inside))

-- The pointer that a translation gives, for the fast path or a JIT to use, lies in guest RAM, as
-- does the rest of the page behind it.
pub vmm_translate_inline-IsRamAddress :
    (ctx : Context) (perms gva : ℕ) {host : ℕ}
    → IsBacked ctx
    → vmm_translate_inline ctx gva perms ≡ done host
    → IsRamAddress ctx host
      × (host + (page_size - gva % page_size) ≤ ctx.guest_ram_base + ctx.guest_ram_size)
unfolding host_of
vmm_translate_inline-IsRamAddress ctx perms gva {host} v e =
    let (a, at) = rw e at (vmm_translate_inline_lem ctx perms gva) in
    let inside = v.backed (gva / page_size) a.mapped in
    ((omega (arith, inside, at), omega (arith, inside, at)), omega (arith, inside, at))

-- A write by the guest changes no byte of linear memory outside guest RAM, and neither the page
-- tables nor any other part of the context.
pub vmm_write_block-confined :
    (ctx : Context) (gva : ℕ) (src : List ℕ) {c : Context}
    → IsBacked ctx
    → vmm_write_block ctx gva src ≡ some (ok tt, c)
    → ((h : ℕ) → ¬ IsRamAddress ctx h → c.memory h ≡ ctx.memory h)
      × (c ≡ record ctx { memory = c.memory })
vmm_write_block-confined ctx gva src {c} v e =
    let (can, same) = rw e at (vmm_write_block_lem ctx gva src) in
    rw same (
      λ h out.
          store_bytes_other ctx src ctx.memory gva h
            (λ x low high at. out (rw at (host_of-IsRamAddress ctx perm_w x v (can x low high)))),
      refl,
    )
