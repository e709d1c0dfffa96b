-- ===== src/Loader/Npdm/Parsed.antt =====
-- npdm_parse of core/hle/loader/npdm.c as a whole: what an accepted file guarantees.
use voland.Base.{ℕ, ◌+◌, ◌/◌, ◌^◌, ◌≤◌, ◌<◌, ◌≡◌, arith, ◌∙◌}
use voland.Base.{false, not, ◌||◌, ◌&&◌, ltb, leb, ◌==◌, if◌then◌else◌}
use voland.Base.{inl, inr, Bool-cases}
use voland.Result.{Res, ok, err, invalid_argument}
use voland.Loader.ByteSource.{byte_source_le32, byte_source_le64}
use voland.Loader.Npdm.{
  Npdm, Meta, Acid, Aci0, has_flag, range_fits, parse_meta, parse_acid, parse_aci0, checked_id,
  parse_sections, npdm_parse, npdm_svc_allowed,
}
use voland.Loader.Npdm.Capabilities.{KernelCapabilities, svc_count, parse_capabilities}
use voland.Loader.Npdm.Svcs.{listed, allowed, MaskOf, parse_capabilities_lem}
use voland.Loader.Npdm.Checked.{
  MetaChecked, MetaOf, parse_meta_lem, Aci0Of, caps_offset, caps_size, parse_aci0_lem,
  range_fits_lem,
}

-- An accepted file.
abbrev pub AcceptedNpdm : (ℕ → ℕ) → ℕ → Npdm → Type 0
AcceptedNpdm bytes size npdm =
    MetaChecked npdm.meta
    × ((npdm.acid.program_id_min ≤ npdm.aci0.program_id)
        × (npdm.aci0.program_id ≤ npdm.acid.program_id_max))
    × Aci0Of bytes (byte_source_le32 bytes 0x70) size (ok npdm.aci0)

-- What `npdm_parse` may answer.
abbrev pub ParsedNpdm : (ℕ → ℕ) → ℕ → Res Npdm → Type 0
ParsedNpdm bytes size (ok npdm) = AcceptedNpdm bytes size npdm
ParsedNpdm bytes size (err code) = code ≡ invalid_argument

checked_id_lem :
    (bytes : ℕ → ℕ) (size : ℕ) (meta : Meta) (acid : Acid) (aci0 : Aci0)
    → MetaChecked meta
    → Aci0Of bytes (byte_source_le32 bytes 0x70) size (ok aci0)
    → ParsedNpdm bytes size (checked_id (record { meta = meta; acid = acid; aci0 = aci0 }))
checked_id_lem bytes size meta acid aci0 checked blobs =
    elim (Bool-cases
      (ltb aci0.program_id acid.program_id_min || ltb acid.program_id_max aci0.program_id)) [
        | inl bad ↦ rw bad
        | inr within ↦ rw within (checked, (ground arith, ground arith), blobs)
      ]

-- The mask of the ACID section.
abbrev AcidOf : (ℕ → ℕ) → ℕ → Res Acid → Type 0
AcidOf bytes acid (ok a) =
    (q : ℕ)
    → allowed a.capabilities q
      ≡ listed bytes (acid + byte_source_le32 bytes (acid + 0x230))
          (byte_source_le32 bytes (acid + 0x234) / 4) q
AcidOf bytes acid (err code) = code ≡ invalid_argument

acid_with : ℕ → ℕ → ℕ → Res KernelCapabilities → Res Acid
acid_with flags low high r = elim r [
  | err code ↦ err code
  | ok caps ↦ ok (record {
    is_production = has_flag flags 0;
    unqualified_approval = has_flag flags 1;
    program_id_min = low;
    program_id_max = high;
    capabilities = caps;
  })
]

acid_with_lem :
    (bytes : ℕ → ℕ) (acid flags low high : ℕ) (r : Res KernelCapabilities)
    → MaskOf bytes
        (acid + byte_source_le32 bytes (acid + 0x230))
        (byte_source_le32 bytes (acid + 0x234))
        r
    → AcidOf bytes acid (acid_with flags low high r)
unfolding acid_with
acid_with_lem bytes acid flags low high (err code) mask = mask
acid_with_lem bytes acid flags low high (ok caps) mask = mask

parse_acid_lem :
    (bytes : ℕ → ℕ) (acid acid_size : ℕ) → AcidOf bytes acid (parse_acid bytes acid acid_size)
unfolding parse_acid acid_with
parse_acid_lem bytes acid acid_size =
    let offset = byte_source_le32 bytes (acid + 0x230) in
    let length = byte_source_le32 bytes (acid + 0x234) in
    elim (Bool-cases (byte_source_le32 bytes (acid + 0x200) == 0x44494341)) [
      | inr bad ↦ rw bad
      | inl magic ↦ elim (Bool-cases (range_fits offset length acid_size)) [
        | inr bad ↦ rw (magic, bad)
        | inl fits ↦
            rw (magic, fits)
              (acid_with_lem bytes acid (byte_source_le32 bytes (acid + 0x20C))
                (byte_source_le64 bytes (acid + 0x210)) (byte_source_le64 bytes (acid + 0x218))
                (parse_capabilities bytes (acid + offset) length)
                (parse_capabilities_lem bytes (acid + offset) length))
      ]
    ]

sections_lem :
    (bytes : ℕ → ℕ) (size : ℕ) (meta : Meta) (acid : ℕ) (ra : Res Acid) (rb : Res Aci0)
    → MetaChecked meta
    → AcidOf bytes acid ra
    → Aci0Of bytes (byte_source_le32 bytes 0x70) size rb
    → ParsedNpdm bytes size (elim ra [
      | err code ↦ err code
      | ok a ↦ elim rb [
        | err code ↦ err code
        | ok b ↦ checked_id (record { meta = meta; acid = a; aci0 = b })
      ]
    ])
sections_lem bytes size meta acid (err code) rb checked a b = a
sections_lem bytes size meta acid (ok x) (err code) checked a b = b
sections_lem bytes size meta acid (ok x) (ok y) checked a b =
    checked_id_lem bytes size meta x y checked b

aci0_inside :
    (at aci0_size size : ℕ)
    → (not (range_fits at aci0_size size) || ltb aci0_size 0x40) ≡ false
    → at + aci0_size ≤ size
aci0_inside at aci0_size size fits = range_fits_lem at aci0_size size (ground arith)

-- The sections behind META.
after_meta : (ℕ → ℕ) → ℕ → Res Meta → Res Npdm
after_meta bytes size r = elim r [
  | err code ↦ err code
  | ok meta ↦
      if not (range_fits (byte_source_le32 bytes 0x78) (byte_source_le32 bytes 0x7C) size)
        || ltb (byte_source_le32 bytes 0x7C) 0x240
      then err invalid_argument
      else if not (range_fits (byte_source_le32 bytes 0x70) (byte_source_le32 bytes 0x74) size)
          || ltb (byte_source_le32 bytes 0x74) 0x40
      then err invalid_argument
      else parse_sections bytes meta (byte_source_le32 bytes 0x78) (byte_source_le32 bytes 0x7C)
          (byte_source_le32 bytes 0x70) (byte_source_le32 bytes 0x74)
]

after_meta_lem :
    (bytes : ℕ → ℕ) (size : ℕ) (r : Res Meta)
    → size < 2 ^ 32
    → MetaOf r
    → ParsedNpdm bytes size (after_meta bytes size r)
unfolding after_meta
after_meta_lem bytes size (err code) small checked = checked
after_meta_lem bytes size (ok meta) small checked =
    let acid = byte_source_le32 bytes 0x78 in
    let acid_size = byte_source_le32 bytes 0x7C in
    let aci0 = byte_source_le32 bytes 0x70 in
    let aci0_size = byte_source_le32 bytes 0x74 in
    elim (Bool-cases (not (range_fits acid acid_size size) || ltb acid_size 0x240)) [
      | inl bad ↦ rw bad
      | inr fits ↦ elim (Bool-cases (not (range_fits aci0 aci0_size size) || ltb aci0_size 0x40)) [
        | inl bad ↦ rw (fits, bad)
        | inr both ↦
            rw (fits, both)
              (sections_lem bytes size meta acid (parse_acid bytes acid acid_size)
                (parse_aci0 bytes aci0 aci0_size) checked (parse_acid_lem bytes acid acid_size)
                (parse_aci0_lem bytes aci0 aci0_size size (aci0_inside aci0 aci0_size size both)
                  small))
      ]
    ]

-- `npdm_parse` rejects a file with RESULT_INVALID_ARGUMENT, or accepts it. In an accepted file the
-- address space type is at most 3, the priority of the main thread at most 63, its core at most 3 and
-- its stack size a positive multiple of the page size; the program id lies in the ACID's range; the
-- file access header and the service access control lie inside the file; and the SVC mask of the
-- program has the bit of an SVC just when one of the program's own descriptors lists that SVC.
pub npdm_parse_lem : (bytes : ℕ → ℕ) (size : ℕ) → ParsedNpdm bytes size (npdm_parse bytes size)
unfolding npdm_parse after_meta
npdm_parse_lem bytes size = elim (Bool-cases (ltb size 0x80 || ltb 0x100000 size)) [
  | inl bad ↦ rw bad
  | inr sized ↦
      rw sized (after_meta_lem bytes size (parse_meta bytes) (ground arith) (parse_meta_lem bytes))
]

-- What a program may call.
abbrev pub AllowedBy : (ℕ → ℕ) → Res Npdm → Type 0
AllowedBy bytes (ok npdm) =
    (svc : ℕ)
    → npdm_svc_allowed npdm svc
      ≡ (ltb svc svc_count && listed bytes (caps_offset bytes) (caps_size bytes / 4) svc)
AllowedBy bytes (err code) = code ≡ invalid_argument

allowed_by : (bytes : ℕ → ℕ) (size : ℕ) (r : Res Npdm) → ParsedNpdm bytes size r → AllowedBy bytes r
unfolding npdm_svc_allowed
allowed_by bytes size (err code) parsed = parsed
allowed_by bytes size (ok npdm) parsed = λ svc. elim (Bool-cases (leb 0xC0 svc)) [
  | inl high ↦ rw high (ground arith)
  | inr low ↦ rw low (parsed.2.2 svc ∙ ground arith)
]

-- Of a file that `npdm_parse` accepts, `npdm_svc_allowed` answers yes for an SVC below
-- NPDM_SVC_COUNT exactly when a system call descriptor of the program's own section lists it: one
-- that is no padding, has the index of the SVC's group of 24 and has the SVC's bit set. It answers no
-- for every other SVC.
pub npdm_svc_allowed-npdm_parse :
    (bytes : ℕ → ℕ) (size : ℕ) → AllowedBy bytes (npdm_parse bytes size)
npdm_svc_allowed-npdm_parse bytes size =
    allowed_by bytes size (npdm_parse bytes size) (npdm_parse_lem bytes size)
