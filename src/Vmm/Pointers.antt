-- ===== src/Vmm/Pointers.antt =====
-- `vmm_guest_to_host` of core/common/vmm.c: a pointer that serves a whole range.
use voland.Base.{ℕ, zero, suc, ◌+◌, ◌-◌, ◌/◌, ◌%◌, ◌≤◌, ◌<◌, ◌≡◌, refl, arith, not, ◌||◌}
use voland.Base.{◌==◌, ltb, if◌then◌else◌, inl, inr, Bool-cases}
use voland.Result.{Res, ok, err, memory_fault, not_contiguous, invalid_argument}
use voland.Vmm.{Context, page_size, perm_all, is_valid_byte_range}
use voland.Vmm.Access.{
  Checked, done, fault, vmm_translate_inline, contiguous_from, vmm_guest_to_host, next_page,
  record_fault, pointer_of,
}
use voland.Vmm.Translate.{
  AllAccessible, Accessible-page, host_of, Translated, vmm_translate_inline_lem,
}

-- The bytes of [from, end) lie behind `gva`'s byte at `first`, one after the other.
abbrev pub IsContiguous : Context → ℕ → ℕ → ℕ → ℕ → Type 0
IsContiguous ctx first gva from end =
    (x : ℕ) → from ≤ x → x < end → host_of ctx x ≡ first + (x - gva)

-- Within a page the bytes are adjacent.
host_of-page :
    (ctx : Context) (x y : ℕ)
    → x / page_size ≡ y / page_size
    → x ≤ y
    → host_of ctx y ≡ host_of ctx x + (y - x)
unfolding host_of
host_of-page ctx x y e le = rw e (omega arith)

-- What the loop or the call may give, for the pages from `from` on.
abbrev pub Pointed : Context → ℕ → ℕ → ℕ → ℕ → ℕ → Res (Unit {0}) × Context → Type 0
Pointed ctx perms first gva from end (ok _, c) =
    (c ≡ ctx) × AllAccessible ctx perms from end × IsContiguous ctx first gva from end
Pointed ctx perms first gva from end (err memory_fault, c) =
    (c ≡ record ctx { last_fault = c.last_fault }) × (¬ AllAccessible ctx perms from end)
Pointed ctx perms first gva from end (err not_contiguous, c) =
    (c ≡ ctx) × (¬ IsContiguous ctx first gva from end)
Pointed ctx perms first gva from end (err code, c) = ⊥

-- The bytes before `next` in the state that the range asks for, and what holds from there on.
Pointed-IsContiguous :
    (ctx : Context) (perms first gva from next end : ℕ) (r : Res (Unit {0}) × Context)
    → from ≤ next
    → AllAccessible ctx perms from next
    → IsContiguous ctx first gva from next
    → Pointed ctx perms first gva next end r
    → Pointed ctx perms first gva from end r
Pointed-IsContiguous ctx perms first gva from next end (ok u, c) le a k (same, b, l) = (
  same,
  λ x low high. elim (Bool-cases (ltb x next)) [
    | inl e ↦ a x low (ground arith)
    | inr e ↦ b x (ground arith) high
  ],
  λ x low high. elim (Bool-cases (ltb x next)) [
    | inl e ↦ k x low (ground arith)
    | inr e ↦ l x (ground arith) high
  ],
)
Pointed-IsContiguous ctx perms first gva from next end (err memory_fault, c) le a k (same, off) =
    (same, λ all. off (λ x low high. all x (omega arith) high))
Pointed-IsContiguous ctx perms first gva from next end (err not_contiguous, c) le a k (same, off) =
    (same, λ all. off (λ x low high. all x (omega arith) high))
Pointed-IsContiguous ctx perms first gva from next end (err _, c) le a k p = absurd p

contiguous_from_lem :
    (ctx : Context) (perms first gva end fuel cursor : ℕ)
    → end ≤ cursor + fuel
    → cursor % page_size ≡ 0
    → gva ≤ cursor
    → Pointed ctx perms first gva cursor end (contiguous_from ctx perms first gva end cursor fuel)
unfolding contiguous_from
contiguous_from_lem ctx perms first gva end zero cursor enough aligned le =
    (refl, λ x low high. absurd (omega arith), λ x low high. absurd (omega arith))
contiguous_from_lem ctx perms first gva end (suc fuel) cursor enough aligned le =
    elim (Bool-cases (ltb cursor end)) [
      | inr e ↦
          rw e (refl, λ x low high. absurd (ground arith), λ x low high. absurd (ground arith))
      | inl e ↦ rw e (
          go (vmm_translate_inline ctx cursor perms) (vmm_translate_inline_lem ctx perms cursor)
            (contiguous_from ctx perms first gva end (cursor + page_size) fuel)
            (contiguous_from_lem ctx perms first gva end fuel (cursor + page_size) (omega arith)
              (omega arith) (omega arith))
            (ground arith))
    ]
  where
    go :
        (t : Checked ℕ)
        → Translated ctx perms cursor t
        → (rest : Res (Unit {0}) × Context)
        → Pointed ctx perms first gva (cursor + page_size) end rest
        → cursor < end
        → Pointed ctx perms first gva cursor end (elim t [
          | fault f ↦ record_fault ctx f
          | done host ↦
              if not (host == first + (cursor - gva)) then (err not_contiguous, ctx) else rest
        ])
    go (fault f) (off, at, req) rest p lt = (refl, λ all. off (all cursor (omega arith) lt))
    go (done host) (a, at) rest p lt = elim (Bool-cases (host == first + (cursor - gva))) [
      | inr off ↦ rw off (refl, λ k. ground (arith, k cursor (omega arith) lt))
      | inl on ↦ rw on (
          Pointed-IsContiguous ctx perms first gva cursor (cursor + page_size) end rest
            (omega arith) (λ x low high. Accessible-page ctx perms cursor x (omega arith) a)
            (λ x low high. ground (arith, host_of-page ctx cursor x (omega arith) low)) p)
    ]

-- A permission set that the call accepts.
abbrev pub IsPermission : ℕ → Type 0
IsPermission perms = (0 < perms) × (perms ≤ perm_all)

-- What `vmm_guest_to_host` may give.
abbrev pub HostPointer : Context → ℕ → ℕ → ℕ → Res ℕ × Context → Type 0
HostPointer ctx perms gva size (ok host, c) =
    (0 < size)
    × IsPermission perms
    × (c ≡ ctx)
    × AllAccessible ctx perms gva (gva + size)
    × IsContiguous ctx host gva gva (gva + size)
HostPointer ctx perms gva size (err invalid_argument, c) =
    (c ≡ ctx) × (¬ ((0 < size) × IsPermission perms))
HostPointer ctx perms gva size (err memory_fault, c) =
    (c ≡ record ctx { last_fault = c.last_fault }) × (¬ AllAccessible ctx perms gva (gva + size))
HostPointer ctx perms gva size (err not_contiguous, c) =
    (c ≡ ctx) × (¬ IsContiguous ctx (host_of ctx gva) gva gva (gva + size))
HostPointer ctx perms gva size (err code, c) = ⊥

pointer_of-HostPointer :
    (ctx : Context) (perms gva size : ℕ) (r : Res (Unit {0}) × Context)
    → 0 < size
    → IsPermission perms
    → Pointed ctx perms (host_of ctx gva) gva gva (gva + size) r
    → HostPointer ctx perms gva size (pointer_of (host_of ctx gva) r)
pointer_of-HostPointer ctx perms gva size (ok u, c) pos p (same, a, k) = (pos, p, same, a, k)
pointer_of-HostPointer ctx perms gva size (err memory_fault, c) pos p w = w
pointer_of-HostPointer ctx perms gva size (err not_contiguous, c) pos p w = w
pointer_of-HostPointer ctx perms gva size (err _, c) pos p w = absurd w

-- `vmm_guest_to_host` gives a pointer exactly when the range is not empty, every byte of it has the
-- permissions, and the bytes behind it are adjacent; the pointer then serves the whole range. The
-- codes of a failure tell which of these does not hold, and only a fault's record changes.
pub vmm_guest_to_host_lem :
    (ctx : Context) (gva size perms : ℕ)
    → HostPointer ctx perms gva size (vmm_guest_to_host ctx gva size perms)
unfolding vmm_guest_to_host is_valid_byte_range
vmm_guest_to_host_lem ctx gva size perms = elim (Bool-cases (size == 0)) [
  | inl e ↦ rw e (refl, λ p. ground arith)
  | inr e ↦ elim (Bool-cases (perms == 0 || ltb perm_all perms)) [
    | inl f ↦ rw (e, f) (refl, λ p. ground (arith, p))
    | inr f ↦ elim (Bool-cases (is_valid_byte_range gva size)) [
      | inr g ↦
          rw (e, f, g)
            (
              refl,
              λ all. ground (
                arith,
                (all gva (omega arith) (ground arith)).in_space,
                (all (gva + size - 1) (ground arith) (ground arith)).in_space,
              ),
            )
      | inl g ↦
          rw (e, f, g, vmm_guest_to_host)
            (go (ground arith) (ground arith) (vmm_translate_inline ctx gva perms)
              (vmm_translate_inline_lem ctx perms gva))
    ]
  ]
]
  where
    go :
        0 < size
        → IsPermission perms
        → (t : Checked ℕ) → Translated ctx perms gva t
        → HostPointer ctx perms gva size (elim t [
          | fault f ↦ record_fault ctx f
          | done first ↦
              pointer_of first
                (contiguous_from ctx perms first gva (gva + size) (next_page gva) size)
        ])
    go pos p (fault f) (off, at, req) = (refl, λ all. off (all gva (omega arith) (omega arith)))
    go pos p (done first) (a, at) =
        let first = host_of ctx gva in
        let rest = contiguous_from ctx perms first gva (gva + size) (next_page gva) size in
        let pages =
          contiguous_from_lem ctx perms first gva (gva + size) size (next_page gva) (omega arith)
            (omega arith) (omega arith) in
        rw at (
          pointer_of-HostPointer ctx perms gva size rest pos p (
            Pointed-IsContiguous ctx perms first gva gva (next_page gva) (gva + size) rest
              (omega arith) (λ x low high. Accessible-page ctx perms gva x (omega arith) a)
              (λ x low high. host_of-page ctx gva x (omega arith) low) pages))
