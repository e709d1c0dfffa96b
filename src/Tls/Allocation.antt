-- ===== src/Tls/Allocation.antt =====
-- The block that tls_allocate of core/hle/kernel/tls.c picks, and its handing out.
use voland.Base.{ℕ, zero, suc, ◌+◌, ◌-◌, ◌*◌, ◌/◌, ◌%◌, ◌^◌, ◌≤◌, ◌<◌, ◌≡◌, refl, arith, ap, ◌∙◌}
use voland.Base.{false, ◌||◌, ◌==◌}
use voland.Base.{Option, none, some, List, [], ◌∷◌, length, get_or, inl, inr, Bool-cases}
use voland.Result.{Res, ok, err}
use voland.PageAllocator.{PageAllocator}
use voland.Vmm.{Context}
use voland.Tls.{
  TlsPage, TlsAllocator, is_used, block_bytes, page_at, first_clear, pick_from, zero_block,
  zeroed_block, hand_out, tls_is_allocated, locate_block,
}
use voland.Tls.Blocks.{no_page, used_at, tls_is_allocated_lem}
use voland.Tls.Changes.{IsPlaced, address_of, page_at_lem, mark-IsPlaced, mark_lem}

-- What an allocation may give: a block of the region that was free, now in use as every block that
-- was, or an error and the same blocks in use.
abbrev pub Served : TlsAllocator → Res ℕ × TlsAllocator → Type 0
Served a (ok gva, d) =
    ((gva % block_bytes ≡ 0)
      × (a.region.base ≤ gva)
      × (gva + block_bytes ≤ a.region.base + a.region.size))
    × (tls_is_allocated a gva ≡ false)
    × ((x : ℕ) → tls_is_allocated d x ≡ (x == gva || tls_is_allocated a x))
    × IsPlaced d
Served a (err code, d) = ((x : ℕ) → tls_is_allocated d x ≡ tls_is_allocated a x) × IsPlaced d

-- The MMU and the pages do not tell which blocks are in use.
pub other_fields :
    (a : TlsAllocator) (vmm : Context) (pages : PageAllocator) (x : ℕ)
    → tls_is_allocated (record a { vmm = vmm; pages = pages }) x ≡ tls_is_allocated a x
unfolding tls_is_allocated locate_block
other_fields a vmm pages x = refl

pub other_fields-IsPlaced :
    (a : TlsAllocator) (vmm : Context) (pages : PageAllocator)
    → IsPlaced a
    → IsPlaced (record a { vmm = vmm; pages = pages })
other_fields-IsPlaced a vmm pages v = record {
  pages = v.pages;
  aligned = v.aligned;
  few = v.few;
  room = v.room;
  inside = v.inside;
}

-- A free block that has been picked.
zeroed_block_lem :
    (a : TlsAllocator) (p b : ℕ) (r : Res (Unit {0}) × Context)
    → IsPlaced a
    → p < length a.mapped
    → b < 8
    → used_at a.mapped (p * 8 + b) ≡ false
    → Served a (zeroed_block a p b (address_of a p b) r)
zeroed_block_lem a p b (err code, vmm) v lt small clear =
    (λ x. other_fields a vmm a.pages x, other_fields-IsPlaced a vmm a.pages v)
zeroed_block_lem a p b (ok done, vmm) v lt small clear =
    let c : TlsAllocator = record a { vmm = vmm } in
    let w = other_fields-IsPlaced a vmm a.pages v in
    let gva = address_of a p b in
    let n : (gva - a.region.base) / block_bytes ≡ p * 8 + b = ground arith in
    (
      (ground (arith, v.aligned), ground arith, ground (arith, v.inside)),
      tls_is_allocated_lem a gva v.pages v.aligned ∙ rw (n, clear) (ground arith),
      λ x. mark_lem c p b x w lt small ∙ ap (λ q. x == gva || q) (other_fields a vmm a.pages x),
      mark-IsPlaced c p b w,
    )

pub hand_out_lem :
    (a : TlsAllocator) (p b : ℕ)
    → IsPlaced a
    → p < length a.mapped
    → b < 8
    → used_at a.mapped (p * 8 + b) ≡ false
    → Served a (hand_out a p b)
unfolding hand_out
hand_out_lem a p b v lt small clear =
    let at : ((page_at a p).gva + b * block_bytes) % 2 ^ 64 ≡ address_of a p b =
      ground (arith, page_at_lem a.region.base a.mapped p v.pages lt, v.room, v.few) in
    rw at (zeroed_block_lem a p b (zero_block a.vmm (address_of a p b)) v lt small clear)

-- What `pick_block` finds is a block that is free.
abbrev Clear : ℕ → ℕ → Option ℕ → Type 0
Clear used left none = Unit
Clear used left (some b) = (b < left) × (is_used used b ≡ false)

first_clear_lem : (used b left : ℕ) → Clear used (b + left) (first_clear used b left)
unfolding first_clear
first_clear_lem used b zero = tt
first_clear_lem used b (suc left) = elim (Bool-cases (is_used used b)) [
  | inl set ↦
      let next : b + 1 + left ≡ b + suc left = omega arith in
      rw set (rw next at (first_clear_lem used (b + 1) left))
  | inr clear ↦ rw clear (omega arith, clear)
]

abbrev pub Picked : List TlsPage → ℕ → Option (ℕ × ℕ) → Type 0
Picked mapped p none = Unit
Picked mapped p (some (q, b)) =
    (p ≤ q)
    × (q - p < length mapped)
    × (b < 8)
    × (is_used (get_or mapped (q - p) no_page).used_mask b ≡ false)

pub pick_from_lem : (mapped : List TlsPage) (p : ℕ) → Picked mapped p (pick_from mapped p)
unfolding pick_from
pick_from_lem [] p = tt
pick_from_lem (page ∷ rest) p = elim (Bool-cases (page.used_mask == 0xFF)) [
  | inl full ↦ rw full (later (pick_from rest (p + 1)) (pick_from_lem rest (p + 1)))
  | inr free ↦ rw free (
      here (first_clear page.used_mask 0 8) (first_clear_lem page.used_mask 0 8)
        (pick_from rest (p + 1)) (later (pick_from rest (p + 1)) (pick_from_lem rest (p + 1))))
]
  where
    later : (r : Option (ℕ × ℕ)) → Picked rest (p + 1) r → Picked (page ∷ rest) p r
    later none k = tt
    later (some (q, b)) k =
        let at : q - p ≡ suc (q - (p + 1)) = omega (arith, k.0) in
        rw at (omega (arith, k.0), omega (arith, k.1), k.2, k.3)

    here :
        (c : Option ℕ)
        → Clear page.used_mask 8 c
        → (others : Option (ℕ × ℕ)) → Picked (page ∷ rest) p others
        → Picked (page ∷ rest) p (elim c [ none ↦ others | some b ↦ some (p, b) ])
    here none k others more = more
    here (some b) k others more =
        let at : p - p ≡ 0 = omega arith in rw at (omega arith, omega arith, k.0, k.1)
