-- ===== src/Loader/Npdm/Checked.antt =====
-- What core/hle/loader/npdm.c has checked of a file that it accepts.
use voland.Base.{ℕ, ◌+◌, ◌/◌, ◌%◌, ◌^◌, ◌≤◌, ◌<◌, ◌≡◌, arith}
use voland.Base.{Bool, true, not, ◌||◌, ltb, ◌==◌}
use voland.Base.{inl, inr, Bool-cases}
use voland.Result.{Res, ok, err, invalid_argument}
use voland.Loader.ByteSource.{byte_source_le32, byte_source_le64}
use voland.Loader.Npdm.{Meta, Aci0, Blob, range_fits, parse_meta, parse_aci0}
use voland.Loader.Npdm.Capabilities.{KernelCapabilities, parse_capabilities}
use voland.Loader.Npdm.Svcs.{listed, allowed, MaskOf, parse_capabilities_lem}

-- META is in range.
abbrev pub MetaChecked : Meta → Type 0
MetaChecked meta =
    (meta.address_space ≤ 3)
    × (meta.main_thread_priority ≤ 63)
    × (meta.main_thread_core_number ≤ 3)
    × (0 < meta.main_thread_stack_size)
    × (meta.main_thread_stack_size % 0x1000 ≡ 0)

abbrev pub MetaOf : Res Meta → Type 0
MetaOf (ok meta) = MetaChecked meta
MetaOf (err code) = code ≡ invalid_argument

pub parse_meta_lem : (bytes : ℕ → ℕ) → MetaOf (parse_meta bytes)
unfolding parse_meta
parse_meta_lem bytes = elim (Bool-cases (byte_source_le32 bytes 0 == 0x4154454D)) [
  | inr bad ↦ rw bad
  | inl magic ↦ elim (Bool-cases (ltb 3 (bytes 0x0C / 2 % 8))) [
    | inl bad ↦ rw (magic, bad)
    | inr space ↦ elim (Bool-cases (ltb 63 (bytes 0x0E))) [
      | inl bad ↦ rw (magic, space, bad)
      | inr priority ↦ elim (Bool-cases (ltb 3 (bytes 0x0F))) [
        | inl bad ↦ rw (magic, space, priority, bad)
        | inr core ↦
            elim (Bool-cases (
              byte_source_le32 bytes 0x1C == 0
              || not (byte_source_le32 bytes 0x1C % 0x1000 == 0))) [
                | inl bad ↦ rw (magic, space, priority, core, bad)
                | inr stack ↦
                    rw (magic, space, priority, core, stack)
                      (ground arith, ground arith, ground arith, ground arith, ground arith)
              ]
      ]
    ]
  ]
]

-- A section's blob lies inside a file.
abbrev pub BlobInside : Blob → ℕ → Type 0
BlobInside blob size = blob.offset + blob.size ≤ size

-- What `parse_aci0` gives of a section that lies inside the file.
abbrev pub Aci0Of : (ℕ → ℕ) → ℕ → ℕ → Res Aci0 → Type 0
Aci0Of bytes at size (ok aci0) =
    BlobInside aci0.fs_access_header size
    × BlobInside aci0.service_access_control size
    × ((q : ℕ)
        → allowed aci0.capabilities q
          ≡ listed bytes (at + byte_source_le32 bytes (at + 0x30))
              (byte_source_le32 bytes (at + 0x34) / 4) q)
Aci0Of bytes at size (err code) = code ≡ invalid_argument

pub range_fits_lem :
    (offset size container : ℕ)
    → range_fits offset size container ≡ true
    → offset + size ≤ container
unfolding range_fits
range_fits_lem offset size container fits = ground arith

-- The blob of a range that fits.
blob_inside :
    (at aci0_size size offset length : ℕ)
    → at + aci0_size ≤ size
    → size < 2 ^ 32
    → offset + length ≤ aci0_size
    → (at + offset) % 2 ^ 32 + length ≤ size
blob_inside at aci0_size size offset length inside small fits = omega arith

-- The section with its capabilities.
aci0_with : ℕ → Blob → Blob → Res KernelCapabilities → Res Aci0
aci0_with id fs sac r = elim r [
  | err code ↦ err code
  | ok caps ↦ ok (record {
    program_id = id;
    fs_access_header = fs;
    service_access_control = sac;
    capabilities = caps;
  })
]

aci0_with_lem :
    (bytes : ℕ → ℕ) (at size id : ℕ) (fs sac : Blob) (r : Res KernelCapabilities)
    → BlobInside fs size
    → BlobInside sac size
    → MaskOf bytes (at + byte_source_le32 bytes (at + 0x30)) (byte_source_le32 bytes (at + 0x34)) r
    → Aci0Of bytes at size (aci0_with id fs sac r)
unfolding aci0_with
aci0_with_lem bytes at size id fs sac (err code) fs_in sac_in mask = mask
aci0_with_lem bytes at size id fs sac (ok caps) fs_in sac_in mask = (fs_in, sac_in, mask)

abbrev word : (ℕ → ℕ) → ℕ → ℕ → ℕ
word bytes at offset = byte_source_le32 bytes (at + offset)

abbrev pub blob_at : (ℕ → ℕ) → ℕ → ℕ → Blob
blob_at bytes at offset = record {
  offset = (at + word bytes at offset) % 2 ^ 32;
  size = word bytes at (offset + 4);
}

abbrev outside : (ℕ → ℕ) → ℕ → ℕ → Bool
outside bytes at aci0_size =
    not (range_fits (word bytes at 0x20) (word bytes at 0x24) aci0_size)
    || not (range_fits (word bytes at 0x28) (word bytes at 0x2C) aci0_size)
    || not (range_fits (word bytes at 0x30) (word bytes at 0x34) aci0_size)

-- Where the file's own capabilities stand, and how long they are.
abbrev pub caps_offset : (ℕ → ℕ) → ℕ
caps_offset bytes =
    byte_source_le32 bytes 0x70 + byte_source_le32 bytes (byte_source_le32 bytes 0x70 + 0x30)

abbrev pub caps_size : (ℕ → ℕ) → ℕ
caps_size bytes = byte_source_le32 bytes (byte_source_le32 bytes 0x70 + 0x34)

pub parse_aci0_lem :
    (bytes : ℕ → ℕ) (at aci0_size size : ℕ)
    → at + aci0_size ≤ size
    → size < 2 ^ 32
    → Aci0Of bytes at size (parse_aci0 bytes at aci0_size)
unfolding parse_aci0 aci0_with
parse_aci0_lem bytes at aci0_size size inside small =
    elim (Bool-cases (byte_source_le32 bytes at == 0x30494341)) [
      | inr bad ↦ rw bad
      | inl magic ↦ elim (Bool-cases (outside bytes at aci0_size)) [
        | inl bad ↦ rw (magic, bad)
        | inr fits ↦
            let fs : range_fits (word bytes at 0x20) (word bytes at 0x24) aci0_size ≡ true =
              ground arith in
            let sac : range_fits (word bytes at 0x28) (word bytes at 0x2C) aci0_size ≡ true =
              ground arith in
            rw (magic, fits)
              (aci0_with_lem bytes at size (byte_source_le64 bytes (at + 0x10))
                (blob_at bytes at 0x20) (blob_at bytes at 0x28)
                (parse_capabilities bytes (at + word bytes at 0x30) (word bytes at 0x34))
                (blob_inside at aci0_size size (word bytes at 0x20) (word bytes at 0x24) inside
                  small (range_fits_lem (word bytes at 0x20) (word bytes at 0x24) aci0_size fs))
                (blob_inside at aci0_size size (word bytes at 0x28) (word bytes at 0x2C) inside
                  small (range_fits_lem (word bytes at 0x28) (word bytes at 0x2C) aci0_size sac))
                (parse_capabilities_lem bytes (at + word bytes at 0x30) (word bytes at 0x34)))
      ]
    ]
