-- ===== src/Ipc/Parse/Bounds.antt =====
-- Where `ipc_request_parse` (core/hle/kernel/ipc.c) reads, and what its view of the payload covers.
use voland.Base.{
  ℕ, ◌+◌, ◌-◌, ◌*◌, ◌/◌, ◌%◌, ◌^◌, ◌≤◌, ◌≡◌, refl, arith, Bool, true, false, not, ◌||◌, ◌&&◌,
}
use voland.Base.{none, some, ltb, leb, ◌==◌, if◌then◌else◌, inl, inr, Bool-cases, ap}
use voland.Result.{Res, ok, err}
use voland.Ipc.Parse.{
  Request, request, close, SpecialHeader, read_u32, parse_special, parse_data, ipc_request_parse,
  command_buffer_bytes, close_request, align_cmif, sfci_magic,
}

-- A request whose view of the buffer is sound.
abbrev pub InBuffer : (ℕ → ℕ) → Res Request → Type 0
InBuffer buffer (err code) = Unit {0}
InBuffer buffer (ok r) = elim r.data_offset [
  | none ↦ (r.type ≡ close) × (r.data_size ≡ 0)
  | some p ↦
      (r.type ≡ request)
      × (p % 16 ≡ 0)
      × (24 ≤ p)
      × (p + r.data_size ≤ command_buffer_bytes)
      × (read_u32 buffer (p - 16) ≡ sfci_magic)
      × (r.command_id ≡ read_u32 buffer (p - 8))
]

parse_special_bounds :
    (buffer : ℕ → ℕ) (has : Bool) {h : SpecialHeader}
    → parse_special buffer has ≡ ok h
    → (8 ≤ h.offset) × (h.offset ≤ 20)
unfolding parse_special
parse_special_bounds buffer has {h} e = ground arith

parse_data-InBuffer :
    (buffer : ℕ → ℕ) (h : SpecialHeader) (words : ℕ)
    → 8 ≤ h.offset
    → InBuffer buffer (parse_data buffer h words)
unfolding parse_data
parse_data-InBuffer buffer h words low =
    let start = align_cmif h.offset in
    let end = h.offset + words * 4 in
    elim (Bool-cases (ltb command_buffer_bytes end)) [
      | inl e ↦ rw e tt
      | inr e ↦ elim (Bool-cases (ltb end (start + 16))) [
        | inl f ↦ rw (e, f) tt
        | inr f ↦ elim (Bool-cases (read_u32 buffer start == sfci_magic)) [
          | inr g ↦ rw (e, f, g) tt
          | inl g ↦
              let here : start + 16 - 16 ≡ start = omega arith in
              let command : start + 8 ≡ start + 16 - 8 = omega arith in
              rw (e, f, g)
                (
                  refl,
                  omega arith,
                  omega arith,
                  ground arith,
                  rw here (ground arith),
                  ap (read_u32 buffer) command,
                )
        ]
      ]
    ]

body-InBuffer :
    (buffer : ℕ → ℕ) (is_close : Bool) (words : ℕ) (special : Res SpecialHeader)
    → ((h : SpecialHeader) → special ≡ ok h → 8 ≤ h.offset)
    → InBuffer buffer (elim special [
      | err code ↦ err code
      | ok header ↦ if is_close then ok (close_request header) else parse_data buffer header words
    ])
body-InBuffer buffer is_close words (err code) low = tt
body-InBuffer buffer true words (ok header) low = (refl, refl)
body-InBuffer buffer false words (ok header) low =
    parse_data-InBuffer buffer header words (low header refl)

-- Whatever the guest wrote into its command buffer, a Request that parses has its payload inside the
-- buffer: aligned, behind the HIPC header and a CMIF header with the SFCI magic, whose command id
-- it is, and with its declared size within the 0x100 bytes. A Close has no payload.
pub ipc_request_parse-InBuffer :
    (buffer : ℕ → ℕ) (size : ℕ) → InBuffer buffer (ipc_request_parse buffer size)
unfolding ipc_request_parse
ipc_request_parse-InBuffer buffer size =
    let special = parse_special buffer (not (read_u32 buffer 4 / 2 ^ 31 % 2 == 0)) in
    let word0 = read_u32 buffer 0 in
    let type = word0 % 2 ^ 16 in
    let descriptors =
      not (word0 / 2 ^ 16 % 16 == 0)
      || not (word0 / 2 ^ 20 % 16 == 0)
      || not (word0 / 2 ^ 24 % 16 == 0)
      || not (word0 / 2 ^ 28 % 16 == 0)
      || not (read_u32 buffer 4 / 2 ^ 10 % 16 == 0) in
    elim (Bool-cases (size == command_buffer_bytes)) [
      | inr a ↦ rw a tt
      | inl a ↦ elim (Bool-cases (type == 15 || leb 16 type)) [
        | inl b ↦ rw (a, b) tt
        | inr b ↦ elim (Bool-cases (not (type == 4) && not (type == 2))) [
          | inl c ↦ rw (a, b, c) tt
          | inr c ↦ elim (Bool-cases descriptors) [
            | inl d ↦ rw (a, b, c, d) tt
            | inr d ↦
                rw (a, b, c, d)
                  (body-InBuffer buffer (type == 2) (read_u32 buffer 4 % 2 ^ 10) special
                    (λ h e. (parse_special_bounds buffer _ e).0))
          ]
        ]
      ]
    ]
