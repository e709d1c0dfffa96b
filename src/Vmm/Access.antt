-- ===== src/Vmm/Access.antt =====
-- The access paths of core/common/vmm.h and vmm.c: translation, checked reads and writes of one
-- value or of a block, and host pointers. `Checked` is the Boolean result of an inline helper with
-- its `*fault`. A function of this file is `none` where the code would use a NULL pointer: where
-- the copy after a validation meets a page that does not translate. Values of 2, 4 and 8 bytes are
-- stored in little endian, the byte order of every host that the emulator targets.
use voland.Base.{ℕ, zero, suc, ◌+◌, ◌-◌, ◌*◌, ◌/◌, ◌%◌, Bool, not, ◌||◌, bit_and}
use voland.Base.{
  Option, none, some, List, [], ◌∷◌, ◌++◌, ltb, leb, ◌==◌, if◌then◌else◌, update, ◌>>=◌, take, drop,
  length,
}
use voland.Result.{Res, ok, err, invalid_argument, memory_fault, not_contiguous}
use voland.Vmm.{
  Context, Fault, FaultKind, out_of_range, unmapped, permission, page_size, address_space_size,
  l2_entry_count, perm_r, perm_w, perm_all, is_valid_byte_range,
}

-- The result of a fallible access.
pub data Checked {ℓ} (A : Type ℓ) : Type ℓ where
  done : A → Checked A
  fault : Fault → Checked A

abbrev pub fault_at {ℓ} : {A : Type ℓ} → FaultKind → ℕ → ℕ → Checked A
fault_at kind gva perms = fault (record { kind = kind; required_perms = perms; gva = gva })

-- `vmm_translate_inline`: the address of the byte in linear memory.
unfoldable pub vmm_translate_inline : Context → ℕ → ℕ → Checked ℕ
vmm_translate_inline ctx gva required_perms =
    if leb address_space_size gva
    then fault_at out_of_range gva required_perms
    else let vpn = gva / page_size in
      let l2 = ctx.l1 (vpn / l2_entry_count) in
      if l2 == 0
      then fault_at unmapped gva required_perms
      else let pte = ctx.tables l2 (vpn % l2_entry_count) in
        if pte == 0
        then fault_at unmapped gva required_perms
        else if not (bit_and pte required_perms == required_perms)
        then fault_at permission gva required_perms
        else done (pte / page_size * page_size + gva % page_size)

-- The first byte of the page after `cursor`'s.
abbrev pub next_page : ℕ → ℕ
next_page cursor = cursor / page_size * page_size + page_size

-- The loop of `validate_byte_range`. Each round moves the cursor on, so that as many rounds as the
-- range has bytes are enough.
unfoldable pub validate_from : Context → ℕ → ℕ → ℕ → ℕ → Checked (Unit {0})
validate_from ctx perms end cursor zero = done tt
validate_from ctx perms end cursor (suc fuel) =
    let rest = validate_from ctx perms end (next_page cursor) fuel in
    if ltb cursor end
    then elim (vmm_translate_inline ctx cursor perms) [ fault f ↦ fault f | done host ↦ rest ]
    else done tt

-- `validate_byte_range`
unfoldable pub validate_byte_range : Context → ℕ → ℕ → ℕ → Checked (Unit {0})
validate_byte_range ctx gva size perms =
    if not (is_valid_byte_range gva size)
    then fault_at out_of_range gva perms
    else validate_from ctx perms (gva + size) gva size

-- `memcpy` from and to linear memory.
unfoldable pub read_bytes : (ℕ → ℕ) → ℕ → ℕ → List ℕ
read_bytes memory address zero = []
read_bytes memory address (suc n) = memory address ∷ read_bytes memory (address + 1) n

unfoldable pub write_bytes : (ℕ → ℕ) → ℕ → List ℕ → ℕ → ℕ
write_bytes memory address [] = memory
write_bytes memory address (b ∷ bs) = write_bytes (update memory address b) (address + 1) bs

-- The bytes of one round: to the end of the page, or all that remain.
unfoldable pub chunk_of : ℕ → ℕ → ℕ
chunk_of cursor remaining =
    let page_left = page_size - cursor % page_size in
    if ltb remaining page_left then remaining else page_left

-- `copy_guest_to_host`, with the bytes that remain at most the fuel.
unfoldable pub copy_guest_to_host : Context → ℕ → ℕ → ℕ → Option (List ℕ)
copy_guest_to_host ctx cursor remaining zero = some []
copy_guest_to_host ctx cursor remaining (suc fuel) =
    let chunk = chunk_of cursor remaining in
    let rest = copy_guest_to_host ctx (cursor + chunk) (remaining - chunk) fuel in
    if remaining == 0 then some [] else elim (vmm_translate_inline ctx cursor perm_r) [
      | fault f ↦ none
      | done host ↦ rest >>= λ bytes. some (read_bytes ctx.memory host chunk ++ bytes)
    ]

-- `copy_host_to_guest`, of the bytes `src`.
unfoldable pub copy_host_to_guest : Context → ℕ → List ℕ → ℕ → Option Context
copy_host_to_guest ctx cursor src zero = some ctx
copy_host_to_guest ctx cursor src (suc fuel) =
    if length src == 0 then some ctx else elim (vmm_translate_inline ctx cursor perm_w) [
      | fault f ↦ none
      | done host ↦
          let chunk = chunk_of cursor (length src) in
          copy_host_to_guest (record ctx { memory = write_bytes ctx.memory host (take chunk src) })
            (cursor + chunk) (drop chunk src) fuel
    ]

-- `vmm_read_cross_page`
unfoldable pub vmm_read_cross_page : Context → ℕ → ℕ → Option (Checked (List ℕ))
vmm_read_cross_page ctx gva size = elim (validate_byte_range ctx gva size perm_r) [
  | fault f ↦ some (fault f)
  | done _ ↦ copy_guest_to_host ctx gva size size >>= λ bytes. some (done bytes)
]

-- `vmm_write_cross_page`
unfoldable pub vmm_write_cross_page : Context → ℕ → List ℕ → Option (Checked Context)
vmm_write_cross_page ctx gva src = elim (validate_byte_range ctx gva (length src) perm_w) [
  | fault f ↦ some (fault f)
  | done _ ↦ copy_host_to_guest ctx gva src (length src) >>= λ c. some (done c)
]

-- `vmm_access_crosses_page`
abbrev pub vmm_access_crosses_page : ℕ → ℕ → Bool
vmm_access_crosses_page gva size = ltb page_size (gva % page_size + size)

-- `vmm_read##bits##_inline`, for a value of `size` bytes.
unfoldable pub vmm_read_inline : Context → ℕ → ℕ → Option (Checked (List ℕ))
vmm_read_inline ctx gva size =
    if vmm_access_crosses_page gva size
    then vmm_read_cross_page ctx gva size
    else elim (vmm_translate_inline ctx gva perm_r) [
      | fault f ↦ some (fault f)
      | done host ↦ some (done (read_bytes ctx.memory host size))
    ]

-- `vmm_write##bits##_inline`
unfoldable pub vmm_write_inline : Context → ℕ → List ℕ → Option (Checked Context)
vmm_write_inline ctx gva src =
    if vmm_access_crosses_page gva (length src)
    then vmm_write_cross_page ctx gva src
    else elim (vmm_translate_inline ctx gva perm_w) [
      | fault f ↦ some (fault f)
      | done host ↦ some (done (record ctx { memory = write_bytes ctx.memory host src }))
    ]

-- `record_fault`
abbrev pub record_fault {ℓ} : {A : Type ℓ} → Context → Fault → Res A × Context
record_fault ctx f = (err memory_fault, record ctx { last_fault = f })

-- `vmm_read8` to `vmm_read64`, and `vmm_write8` to `vmm_write64`.
unfoldable pub vmm_read : Context → ℕ → ℕ → Option (Res (List ℕ) × Context)
vmm_read ctx gva size = vmm_read_inline ctx gva size >>= λ r. elim r [
  | fault f ↦ some (record_fault ctx f)
  | done bytes ↦ some (ok bytes, ctx)
]

unfoldable pub vmm_write : Context → ℕ → List ℕ → Option (Res (Unit {0}) × Context)
vmm_write ctx gva src = vmm_write_inline ctx gva src >>= λ r. elim r [
  | fault f ↦ some (record_fault ctx f)
  | done c ↦ some (ok tt, c)
]

-- `vmm_read_block`
unfoldable pub vmm_read_block : Context → ℕ → ℕ → Option (Res (List ℕ) × Context)
vmm_read_block ctx gva size =
    if size == 0 then some (ok [], ctx) else elim (validate_byte_range ctx gva size perm_r) [
      | fault f ↦ some (record_fault ctx f)
      | done _ ↦ copy_guest_to_host ctx gva size size >>= λ bytes. some (ok bytes, ctx)
    ]

-- `vmm_write_block`
unfoldable pub vmm_write_block : Context → ℕ → List ℕ → Option (Res (Unit {0}) × Context)
vmm_write_block ctx gva src =
    if length src == 0
    then some (ok tt, ctx)
    else elim (validate_byte_range ctx gva (length src) perm_w) [
      | fault f ↦ some (record_fault ctx f)
      | done _ ↦ copy_host_to_guest ctx gva src (length src) >>= λ c. some (ok tt, c)
    ]

-- The loop of `vmm_guest_to_host` over the pages after the first.
unfoldable pub contiguous_from : Context → ℕ → ℕ → ℕ → ℕ → ℕ → ℕ → Res (Unit {0}) × Context
contiguous_from ctx perms first gva end cursor zero = (ok tt, ctx)
contiguous_from ctx perms first gva end cursor (suc fuel) =
    let rest = contiguous_from ctx perms first gva end (cursor + page_size) fuel in
    if ltb cursor end
    then elim (vmm_translate_inline ctx cursor perms) [
      | fault f ↦ record_fault ctx f
      | done host ↦ if not (host == first + (cursor - gva)) then (err not_contiguous, ctx) else rest
    ]
    else (ok tt, ctx)

-- The pointer to the first byte, once the loop is done.
abbrev pub pointer_of : ℕ → Res (Unit {0}) × Context → Res ℕ × Context
pointer_of first (err code, c) = (err code, c)
pointer_of first (ok _, c) = (ok first, c)

-- `vmm_guest_to_host`
unfoldable pub vmm_guest_to_host : Context → ℕ → ℕ → ℕ → Res ℕ × Context
vmm_guest_to_host ctx gva size required_perms =
    if size == 0
    then (err invalid_argument, ctx)
    else if required_perms == 0 || ltb perm_all required_perms
    then (err invalid_argument, ctx)
    else if not (is_valid_byte_range gva size)
    then record_fault ctx
        (record { kind = out_of_range; required_perms = required_perms; gva = gva })
    else elim (vmm_translate_inline ctx gva required_perms) [
      | fault f ↦ record_fault ctx f
      | done first ↦
          pointer_of first
            (contiguous_from ctx required_perms first gva (gva + size) (next_page gva) size)
    ]
