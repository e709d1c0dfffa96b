-- ===== src/Loader/Npdm/Svcs.antt =====
-- Which SVCs a program may call: the mask that core/hle/loader/npdm.c gathers, against the lists in
-- the descriptors.
use voland.Base.{ℕ, zero, suc, ◌+◌, ◌-◌, ◌*◌, ◌/◌, ◌%◌, ◌^◌, ◌≡◌, arith, sym, ap, ◌∙◌}
use voland.Base.{Bool, true, false, not, ◌||◌, ◌&&◌, ltb, leb, ◌==◌}
use voland.Base.{bit-bit_or, bit_or, update_self, update_ne, inl, inr, Bool-cases, eq_cases}
use voland.Result.{Res, ok, err, invalid_argument}
use native.Mathlib.Nat.{zero-div}
use voland.Loader.ByteSource.{byte_source_le32}
use voland.Loader.Npdm.{has_flag}
use voland.Loader.Npdm.Capabilities.{
  KernelCapabilities, cap_padding, svc_count, svc_mask_bits, trailing_ones, apply_thread_info,
  allow, allow_bits, apply_system_calls, apply_descriptor, apply_word, parse_words,
  parse_capabilities, no_capabilities,
}

-- The mask's answer.
abbrev pub allowed : KernelCapabilities → ℕ → Bool
allowed caps svc = has_flag (caps.svc_mask (svc / 64)) (svc % 64)

-- A descriptor lists an SVC: it is a system call descriptor, its index is that of the SVC's group of
-- 24, and the SVC's bit is set.
unfoldable pub lists : ℕ → ℕ → Bool
lists descriptor svc =
    not (descriptor == cap_padding)
    && (trailing_ones descriptor == 4
        && (svc / 24 == descriptor / 2 ^ 29 % 2 ^ 3
            && has_flag (descriptor / 2 ^ 5 % 2 ^ 24) (svc % 24)))

-- Some of the `n` descriptors from `p` on lists it.
unfoldable pub listed : (ℕ → ℕ) → ℕ → ℕ → ℕ → Bool
listed bytes p zero svc = false
listed bytes p (suc n) svc = lists (byte_source_le32 bytes p) svc || listed bytes (p + 4) n svc

-- What a step may do to the mask: add `added`, or fail.
abbrev Gains : (ℕ → Bool) → KernelCapabilities → Res KernelCapabilities → Type 0
Gains added caps (ok after) = (q : ℕ) → allowed after q ≡ (allowed caps q || added q)
Gains added caps (err code) = code ≡ invalid_argument

-- The same gain, told of another start.
gained_from :
    (a b : ℕ → Bool) (from to : KernelCapabilities) (r : Res KernelCapabilities)
    → ((q : ℕ) → (allowed to q || a q) ≡ (allowed from q || b q))
    → Gains a to r
    → Gains b from r
gained_from a b from to (ok after) same gain = λ q. gain q ∙ same q
gained_from a b from to (err code) same gain = gain

allow_lem :
    (mask : ℕ → ℕ) (s q : ℕ)
    → has_flag (allow mask s (q / 64)) (q % 64) ≡ (has_flag (mask (q / 64)) (q % 64) || q == s)
unfolding allow
allow_lem mask s q = elim (eq_cases (q / 64) (s / 64)) [
  | inl same ↦
      rw (same, update_self mask (s / 64) (bit_or (mask (s / 64)) (2 ^ (s % 64))))
        (rw (bit-bit_or (mask (s / 64)) (s % 64) (q % 64)) (ground arith))
  | inr ne ↦
      rw (update_ne mask (s / 64) (bit_or (mask (s / 64)) (2 ^ (s % 64))) (q / 64) ne)
        (ground arith)
]

-- The bits of the mask from `b` on.
abbrev rest_of : ℕ → ℕ → ℕ → ℕ → ℕ → Bool
rest_of mask index b left q =
    leb (index * 24 + b) q && (ltb q (index * 24 + b + left) && has_flag mask (q - index * 24))

rest_of_step :
    (mask index b left q : ℕ)
    → rest_of mask index b (suc left) q
      ≡ ((q == index * 24 + b && has_flag mask b) || rest_of mask index (b + 1) left q)
rest_of_step mask index b left q = elim (eq_cases q (index * 24 + b)) [
  | inl same ↦ let at : q - index * 24 ≡ b = omega (arith, same) in rw (at, same) (ground arith)
  | inr ne ↦ ground arith
]

allow_bits_lem :
    (mask index : ℕ) (caps : KernelCapabilities) (b left : ℕ)
    → Gains (rest_of mask index b left) caps (allow_bits mask index caps b left)
unfolding allow_bits
allow_bits_lem mask index caps b zero = λ q. ground arith
allow_bits_lem mask index caps b (suc left) =
    let s = index * svc_mask_bits + b in
    let with_s : KernelCapabilities = record caps { svc_mask = allow caps.svc_mask s } in
    elim (Bool-cases (mask / 2 ^ b % 2 == 1)) [
      | inr clear ↦ rw clear (
          gained_from (rest_of mask index (b + 1) left) (rest_of mask index b (suc left)) caps caps
            (allow_bits mask index caps (b + 1) left)
            (λ q. rw (rest_of_step mask index b left q, clear) (ground arith))
            (allow_bits_lem mask index caps (b + 1) left))
      | inl set ↦ rw set (elim (Bool-cases (leb svc_count s)) [
        | inl bad ↦ rw bad
        | inr good ↦ rw good (
            gained_from (rest_of mask index (b + 1) left) (rest_of mask index b (suc left)) caps
              with_s (allow_bits mask index with_s (b + 1) left)
              (λ q.
                rw (allow_lem caps.svc_mask s q, rest_of_step mask index b left q, set)
                  (ground arith))
              (allow_bits_lem mask index with_s (b + 1) left))
      ])
    ]

rest_of_group :
    (mask index q : ℕ) → rest_of mask index 0 24 q ≡ (q / 24 == index && has_flag mask (q % 24))
rest_of_group mask index q = elim (eq_cases (q / 24) index) [
  | inl same ↦
      let at : q - index * 24 ≡ q % 24 = omega (arith, same) in rw (at, same) (ground (arith, same))
  | inr ne ↦ ground arith
]

system_lists :
    (descriptor q : ℕ)
    → (descriptor == cap_padding) ≡ false
    → (trailing_ones descriptor == 4) ≡ true
    → lists descriptor q
      ≡ (q / 24 == descriptor / 2 ^ 29 % 2 ^ 3 && has_flag (descriptor / 2 ^ 5 % 2 ^ 24) (q % 24))
unfolding lists
system_lists descriptor q real system = rw (real, system)

other_lists :
    (descriptor q : ℕ)
    → (descriptor == cap_padding || not (trailing_ones descriptor == 4)) ≡ true
    → lists descriptor q ≡ false
unfolding lists
other_lists descriptor q other = ground arith

-- An SVC of the descriptor's group.
apply_system_calls_lem :
    (descriptor : ℕ) (caps : KernelCapabilities)
    → (descriptor == cap_padding) ≡ false
    → (trailing_ones descriptor == 4) ≡ true
    → Gains (lists descriptor) caps (apply_system_calls descriptor caps)
unfolding apply_system_calls
apply_system_calls_lem descriptor caps real system =
    let mask = descriptor / 2 ^ 5 % 2 ^ 24 in
    let index = descriptor / 2 ^ 29 % 2 ^ 3 in
    gained_from (rest_of mask index 0 24) (lists descriptor) caps caps
      (allow_bits mask index caps 0 24)
      (λ q.
        ap (λ b. allowed caps q || b)
          (rest_of_group mask index q ∙ sym (system_lists descriptor q real system)))
      (allow_bits_lem mask index caps 0 24)

abbrev none_added : ℕ → Bool
none_added q = false

nothing_gained : (caps : KernelCapabilities) (q : ℕ) → allowed caps q ≡ (allowed caps q || false)
nothing_gained caps q = ground arith

apply_thread_info_lem :
    (descriptor : ℕ) (caps : KernelCapabilities)
    → Gains none_added caps (apply_thread_info descriptor caps)
unfolding apply_thread_info
apply_thread_info_lem descriptor caps = elim (Bool-cases (caps.has_thread_info)) [
  | inl is ↦ rw is
  | inr isnt ↦
      rw isnt
        (elim (Bool-cases (
          ltb 63 (descriptor / 2 ^ 4 % 2 ^ 6)
          || ltb 63 (descriptor / 2 ^ 10 % 2 ^ 6)
          || ltb (descriptor / 2 ^ 4 % 2 ^ 6) (descriptor / 2 ^ 10 % 2 ^ 6))) [
            | inl is ↦ rw is
            | inr isnt ↦
                rw isnt
                  (elim (Bool-cases (
                    ltb 3 (descriptor / 2 ^ 16 % 2 ^ 8)
                    || ltb 3 (descriptor / 2 ^ 24 % 2 ^ 8)
                    || ltb (descriptor / 2 ^ 24 % 2 ^ 8) (descriptor / 2 ^ 16 % 2 ^ 8))) [
                      | inl is ↦ rw is
                      | inr isnt ↦ rw isnt (nothing_gained caps)
                    ])
          ])
]

-- A descriptor of another type keeps the mask.
apply_descriptor_lem :
    (type descriptor : ℕ) (caps : KernelCapabilities)
    → (type == 4) ≡ false
    → Gains none_added caps (apply_descriptor type descriptor caps)
unfolding apply_descriptor
apply_descriptor_lem type descriptor caps other = elim (Bool-cases (type == 3)) [
  | inl is ↦ rw is (apply_thread_info_lem descriptor caps)
  | inr isnt ↦ rw isnt (
      rw other (elim (Bool-cases (type == 6 || type == 7 || type == 10 || type == 11)) [
        | inl is ↦ rw is (nothing_gained caps)
        | inr isnt ↦ rw isnt (elim (Bool-cases (type == 13)) [
          | inl is ↦ rw is (nothing_gained caps)
          | inr isnt ↦ rw isnt (elim (Bool-cases (type == 14)) [
            | inl is ↦ rw is (nothing_gained caps)
            | inr isnt ↦ rw isnt (elim (Bool-cases (type == 15)) [
              | inl is ↦ rw is (nothing_gained caps)
              | inr isnt ↦ rw isnt (elim (Bool-cases (type == 16)) [
                | inl is ↦ rw is (nothing_gained caps)
                | inr isnt ↦ rw isnt
              ])
            ])
          ])
        ])
      ]))
]

apply_word_lem :
    (descriptor : ℕ) (caps : KernelCapabilities)
    → Gains (lists descriptor) caps (apply_word descriptor caps)
unfolding apply_word apply_descriptor
apply_word_lem descriptor caps = elim (Bool-cases (descriptor == cap_padding)) [
  | inl pad ↦ rw pad (λ q. rw (other_lists descriptor q (rw pad)) (nothing_gained caps q))
  | inr real ↦ elim (Bool-cases (trailing_ones descriptor == 4)) [
    | inl system ↦
        let three : (trailing_ones descriptor == 3) ≡ false = ground arith in
        rw (real, three, system) (apply_system_calls_lem descriptor caps real system)
    | inr other ↦
        gained_from none_added (lists descriptor) caps caps (apply_word descriptor caps)
          (λ q. rw (other_lists descriptor q (rw (real, other))))
          (rw real (apply_descriptor_lem (trailing_ones descriptor) descriptor caps other))
  ]
]

continued :
    (bytes : ℕ → ℕ) (p : ℕ) (caps : KernelCapabilities) (n : ℕ) (r : Res KernelCapabilities)
    → ((after : KernelCapabilities)
        → Gains (listed bytes (p + 4) n) after (parse_words bytes (p + 4) after n))
    → Gains (lists (byte_source_le32 bytes p)) caps r
    → Gains
        (listed bytes p (suc n))
        caps
        (elim r [ err code ↦ err code | ok after ↦ parse_words bytes (p + 4) after n ])
unfolding listed
continued bytes p caps n (err code) rest failed = failed
continued bytes p caps n (ok after) rest first =
    gained_from (listed bytes (p + 4) n) (listed bytes p (suc n)) caps after
      (parse_words bytes (p + 4) after n) (λ q. rw (first q) (ground arith)) (rest after)

-- What `parse_words` and `parse_capabilities` do to the mask.
parse_words_lem :
    (bytes : ℕ → ℕ) (p : ℕ) (caps : KernelCapabilities) (n : ℕ)
    → Gains (listed bytes p n) caps (parse_words bytes p caps n)
unfolding parse_words listed
parse_words_lem bytes p caps zero = nothing_gained caps
parse_words_lem bytes p caps (suc n) =
    continued bytes p caps n (apply_word (byte_source_le32 bytes p) caps)
      (λ after. parse_words_lem bytes (p + 4) after n)
      (apply_word_lem (byte_source_le32 bytes p) caps)

-- `parse_capabilities` gathers just the SVCs that some descriptor lists.
abbrev pub MaskOf : (ℕ → ℕ) → ℕ → ℕ → Res KernelCapabilities → Type 0
MaskOf bytes p size (ok caps) = (q : ℕ) → allowed caps q ≡ listed bytes p (size / 4) q
MaskOf bytes p size (err code) = code ≡ invalid_argument

nothing_first : (q : ℕ) (b : Bool) → (allowed no_capabilities q || b) ≡ b
nothing_first q b = let clear : 0 / 2 ^ (q % 64) ≡ 0 = zero-div (2 ^ (q % 64)) in rw clear

pub parse_capabilities_lem :
    (bytes : ℕ → ℕ) (p size : ℕ) → MaskOf bytes p size (parse_capabilities bytes p size)
unfolding parse_capabilities
parse_capabilities_lem bytes p size = elim (Bool-cases (size % 4 == 0)) [
  | inr odd ↦ rw odd
  | inl whole ↦ elim (Bool-cases (ltb 256 (size / 4))) [
    | inl many ↦ rw (whole, many)
    | inr fits ↦
        rw (whole, fits)
          (from_nothing bytes p size (parse_words bytes p no_capabilities (size / 4))
            (parse_words_lem bytes p no_capabilities (size / 4)))
  ]
]
  where
    from_nothing :
        (bytes : ℕ → ℕ) (p size : ℕ) (r : Res KernelCapabilities)
        → Gains (listed bytes p (size / 4)) no_capabilities r
        → MaskOf bytes p size r
    from_nothing bytes p size (ok caps) gain =
        λ q. gain q ∙ nothing_first q (listed bytes p (size / 4) q)
    from_nothing bytes p size (err code) gain = gain
