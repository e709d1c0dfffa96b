-- ===== src/Hle/SvcMemory/MemoryType.antt =====
-- The memory type that `classify_type` (core/hle/kernel/svc_memory.c) gives an address, as svc_memory.h
-- documents it.
use voland.Base.{ℕ, ◌+◌, ◌%◌, ◌^◌, ◌≤◌, ◌<◌, ◌≡◌, refl, arith, ◌⊎◌, inl, inr}
use voland.Base.{Bool, true, false, Bool-cases}
use voland.Base.{List, [], ◌∷◌}
use voland.AddressSpace.{AddressRegion, address_region_contains}
use voland.AddressSpace.Placement.{address_region_contains_iff}
use voland.Process.{Process, MemoryBorrow}
use voland.Vmm.{address_space_size}
use voland.Hle.SvcMemory.{
  classify_type, borrow_overlaps_src, find_borrow_by_dst, is_some, ranges_overlap,
}

-- The address lies in the region.
abbrev pub In : AddressRegion → ℕ → Type 0
In region gva = (region.base ≤ gva) × (gva < region.base + region.size)

-- Some borrow has the address in its source range, whose end is a word of 64 bits.
abbrev pub BorrowedOut : List MemoryBorrow → ℕ → Type 0
BorrowedOut [] gva = ⊥
BorrowedOut (b ∷ bs) gva =
    ((b.src_base ≤ gva) × (gva < (b.src_base + b.size) % 2 ^ 64)) ⊎ BorrowedOut bs gva

-- Some borrow has the address in its destination range.
abbrev pub BorrowedIn : List MemoryBorrow → ℕ → Type 0
BorrowedIn [] gva = ⊥
BorrowedIn (b ∷ bs) gva = ((b.dst_base ≤ gva) × (gva < b.dst_base + b.size)) ⊎ BorrowedIn bs gva

-- The type of a mapped address, as `HLE_Memory_Type` documents it; the regions are tried in this
-- order.
pub data HasType (process : Process) (gva type : ℕ) : Type 0 where
  code : In process.address_space.code gva → type ≡ 0x03 → HasType process gva type
  heap :
      (¬ In process.address_space.code gva)
      → In process.address_space.heap gva
      → (¬ BorrowedOut process.heap_borrows gva)
      → type ≡ 0x05
      → HasType process gva type
  heap_borrowed :
      (¬ In process.address_space.code gva)
      → In process.address_space.heap gva
      → BorrowedOut process.heap_borrows gva
      → type ≡ 0x07
      → HasType process gva type
  stack :
      (¬ In process.address_space.code gva)
      → (¬ In process.address_space.heap gva)
      → In process.address_space.stack gva
      → (¬ BorrowedIn process.heap_borrows gva)
      → type ≡ 0x02
      → HasType process gva type
  stack_borrowed :
      (¬ In process.address_space.code gva)
      → (¬ In process.address_space.heap gva)
      → In process.address_space.stack gva
      → BorrowedIn process.heap_borrows gva
      → type ≡ 0x0B
      → HasType process gva type
  thread_local :
      (¬ In process.address_space.code gva)
      → (¬ In process.address_space.heap gva)
      → (¬ In process.address_space.stack gva)
      → In process.address_space.tls_io gva
      → type ≡ 0x0C
      → HasType process gva type
  elsewhere :
      (¬ In process.address_space.code gva)
      → (¬ In process.address_space.heap gva)
      → (¬ In process.address_space.stack gva)
      → (¬ In process.address_space.tls_io gva)
      → type ≡ 0x00
      → HasType process gva type

abbrev pub Typed : Process → ℕ → Bool → ℕ → Type 0
Typed process gva false type = type ≡ 0x00
Typed process gva true type = HasType process gva type

address_region_contains-In :
    (region : AddressRegion) (gva : ℕ) → address_region_contains region gva 1 ≡ true → In region gva
address_region_contains-In region gva e =
    omega (arith, (address_region_contains_iff region gva 1).0 e)

address_region_contains-outside :
    (region : AddressRegion) (gva : ℕ)
    → address_region_contains region gva 1 ≡ false
    → ¬ In region gva
unfolding address_region_contains
address_region_contains-outside region gva e h = ground (arith, h.0, h.1)

borrow_overlaps_src-BorrowedOut :
    (borrows : List MemoryBorrow) (gva : ℕ)
    → gva < address_space_size
    → borrow_overlaps_src borrows gva 1 ≡ true
    → BorrowedOut borrows gva
unfolding borrow_overlaps_src ranges_overlap
borrow_overlaps_src-BorrowedOut [] gva low e = absurd cc
borrow_overlaps_src-BorrowedOut (b ∷ bs) gva low e =
    elim (Bool-cases (ranges_overlap gva 1 b.src_base b.size)) [
      | inl here ↦ inl (ground arith, ground arith)
      | inr off ↦ inr (borrow_overlaps_src-BorrowedOut bs gva low (ground arith))
    ]

borrow_overlaps_src-kept :
    (borrows : List MemoryBorrow) (gva : ℕ)
    → gva < address_space_size
    → borrow_overlaps_src borrows gva 1 ≡ false
    → ¬ BorrowedOut borrows gva
unfolding borrow_overlaps_src ranges_overlap
borrow_overlaps_src-kept [] gva low e h = h
borrow_overlaps_src-kept (b ∷ bs) gva low e (inl (from, to)) = ground arith
borrow_overlaps_src-kept (b ∷ bs) gva low e (inr h) =
    borrow_overlaps_src-kept bs gva low (ground arith) h

find_borrow_by_dst-BorrowedIn :
    (borrows : List MemoryBorrow) (gva : ℕ)
    → is_some (find_borrow_by_dst borrows gva) ≡ true
    → BorrowedIn borrows gva
unfolding find_borrow_by_dst
find_borrow_by_dst-BorrowedIn [] gva e = absurd cc
find_borrow_by_dst-BorrowedIn (b ∷ bs) gva e =
    let range : AddressRegion = record { base = b.dst_base; size = b.size } in
    elim (Bool-cases (address_region_contains range gva 1)) [
      | inl here ↦ inl (address_region_contains-In range gva here)
      | inr off ↦ inr (find_borrow_by_dst-BorrowedIn bs gva (rw off at e))
    ]

find_borrow_by_dst-unborrowed :
    (borrows : List MemoryBorrow) (gva : ℕ)
    → is_some (find_borrow_by_dst borrows gva) ≡ false
    → ¬ BorrowedIn borrows gva
unfolding find_borrow_by_dst
find_borrow_by_dst-unborrowed [] gva e h = h
find_borrow_by_dst-unborrowed (b ∷ bs) gva e h =
    let range : AddressRegion = record { base = b.dst_base; size = b.size } in
    elim (Bool-cases (address_region_contains range gva 1)) [
      | inl here ↦ absurd (cc (rw here at e))
      | inr off ↦ elim h [
        | inl at ↦ address_region_contains-outside range gva off at
        | inr rest ↦ find_borrow_by_dst-unborrowed bs gva (rw off at e) rest
      ]
    ]

heap-HasType :
    (process : Process) (gva : ℕ)
    → gva < address_space_size
    → address_region_contains process.address_space.code gva 1 ≡ false
    → address_region_contains process.address_space.heap gva 1 ≡ true
    → HasType process gva (classify_type process gva true)
unfolding classify_type
heap-HasType process gva low off here =
    let as_ = process.address_space in
    elim (Bool-cases (borrow_overlaps_src process.heap_borrows gva 1)) [
      | inl lent ↦
          rw (off, here, lent)
            (heap_borrowed (address_region_contains-outside as_.code gva off)
              (address_region_contains-In as_.heap gva here)
              (borrow_overlaps_src-BorrowedOut process.heap_borrows gva low lent) refl)
      | inr kept ↦
          rw (off, here, kept)
            (heap (address_region_contains-outside as_.code gva off)
              (address_region_contains-In as_.heap gva here)
              (borrow_overlaps_src-kept process.heap_borrows gva low kept) refl)
    ]

stack-HasType :
    (process : Process) (gva : ℕ)
    → address_region_contains process.address_space.code gva 1 ≡ false
    → address_region_contains process.address_space.heap gva 1 ≡ false
    → address_region_contains process.address_space.stack gva 1 ≡ true
    → HasType process gva (classify_type process gva true)
unfolding classify_type
stack-HasType process gva off out here =
    let as_ = process.address_space in
    elim (Bool-cases (is_some (find_borrow_by_dst process.heap_borrows gva))) [
      | inl lent ↦
          rw (off, out, here, lent)
            (stack_borrowed (address_region_contains-outside as_.code gva off)
              (address_region_contains-outside as_.heap gva out)
              (address_region_contains-In as_.stack gva here)
              (find_borrow_by_dst-BorrowedIn process.heap_borrows gva lent) refl)
      | inr plain ↦
          rw (off, out, here, plain)
            (stack (address_region_contains-outside as_.code gva off)
              (address_region_contains-outside as_.heap gva out)
              (address_region_contains-In as_.stack gva here)
              (find_borrow_by_dst-unborrowed process.heap_borrows gva plain) refl)
    ]

pub classify_type_lem :
    (process : Process) (gva : ℕ) (is_mapped : Bool)
    → gva < address_space_size
    → Typed process gva is_mapped (classify_type process gva is_mapped)
unfolding classify_type
classify_type_lem process gva false low = refl
classify_type_lem process gva true low =
    let as_ = process.address_space in
    elim (Bool-cases (address_region_contains as_.code gva 1)) [
      | inl here ↦ rw here (code (address_region_contains-In as_.code gva here) refl)
      | inr off ↦ elim (Bool-cases (address_region_contains as_.heap gva 1)) [
        | inl here ↦ heap-HasType process gva low off here
        | inr out ↦ elim (Bool-cases (address_region_contains as_.stack gva 1)) [
          | inl here ↦ stack-HasType process gva off out here
          | inr past ↦ elim (Bool-cases (address_region_contains as_.tls_io gva 1)) [
            | inl here ↦
                rw (off, out, past, here)
                  (thread_local (address_region_contains-outside as_.code gva off)
                    (address_region_contains-outside as_.heap gva out)
                    (address_region_contains-outside as_.stack gva past)
                    (address_region_contains-In as_.tls_io gva here) refl)
            | inr none_of ↦
                rw (off, out, past, none_of)
                  (elsewhere (address_region_contains-outside as_.code gva off)
                    (address_region_contains-outside as_.heap gva out)
                    (address_region_contains-outside as_.stack gva past)
                    (address_region_contains-outside as_.tls_io gva none_of) refl)
          ]
        ]
      ]
    ]

-- A type fits its word.
pub classify_type_small :
    (process : Process) (gva : ℕ) (is_mapped : Bool) → classify_type process gva is_mapped < 2 ^ 32
unfolding classify_type
classify_type_small process gva false = omega arith
classify_type_small process gva true = ground arith
