-- ===== src/Hle/SvcMemory/Alias/RoundTrip.antt =====
-- `hle_svc_unmap_memory` of core/hle/kernel/svc_memory.c undoes what `hle_svc_map_memory` did.
use voland.Base.{ℕ, zero, suc, ◌+◌, ◌-◌, ◌/◌, ◌%◌, ◌≤◌, ◌<◌, ◌≡◌, ◌≢◌, refl, arith, true, false}
use voland.Base.{Bool, sym, ◌∙◌, ap, inl, inr, Bool-cases}
use voland.Base.{some, List, [], ◌∷◌, ◌++◌, length, get_or, set, take, length-append}
use voland.Layout.{MemoryLayout}
use voland.Process.{MemoryBorrow}
use voland.Vmm.{Context, page_size, pte_load, perm_rw, perm_none}
use voland.Vmm.Map.{set_perms}
use voland.Vmm.MapLoop.{in_range}
use voland.Vmm.Pte.{set_perms_fields}
use voland.Vmm.Unmapping.{IsBacked, RangeMapped, mapping_calls-IsBacked}
use voland.Vmm.UnmapInv.{Changed, replaced}
use voland.Vmm.Steps.{vmm_reprotect-succeeds, vmm_unmap-succeeds}
use voland.Hle.{HleContext, result_success}
use voland.Hle.SvcMemory.Alias.{
  hle_svc_map_memory, hle_svc_unmap_memory, borrow_index, return_borrow, remove_borrow, is_borrow,
  no_borrow,
}
use voland.Hle.SvcMemory.Alias.Lend.{
  HeapPages, IsLent, source_page, set_perms_twice, set_perms_same,
}
use voland.Hle.SvcMemory.Alias.Lending.{hle_svc_map_memory_lem}

module _ (dst src size : ℕ) where
  abbrev the_borrow : MemoryBorrow
  the_borrow = record { dst_base = dst; src_base = src; size = size }

  is_borrow_self : is_borrow dst src size the_borrow ≡ true
  is_borrow_self = ground arith

  is_borrow→eq : (b : MemoryBorrow) → is_borrow dst src size b ≡ true → b ≡ the_borrow
  is_borrow→eq b e = ground arith

  -- The search finds an entry for the triple that was recorded last.
  borrow_index-append :
      (bs : List MemoryBorrow) (i : ℕ)
      → (j : ℕ) × (borrow_index dst src size (bs ++ the_borrow ∷ []) i ≡ some (i + j))
        × (j ≤ length bs)
        × (get_or (bs ++ the_borrow ∷ []) j no_borrow ≡ the_borrow)
  unfolding borrow_index
  borrow_index-append [] i = (0, rw is_borrow_self (ground arith), omega arith, refl)
  borrow_index-append (b ∷ bs) i = elim (Bool-cases (is_borrow dst src size b)) [
    | inl e ↦ (0, rw e (ground arith), omega arith, is_borrow→eq b e)
    | inr e ↦
        let (j, found, low, at) = borrow_index-append bs (i + 1) in
        (suc j, rw e (found ∙ ap some (omega arith)), omega arith, at)
  ]

-- An entry over a copy of itself.
set-get_or_self :
    (bs : List MemoryBorrow) (j : ℕ) (b : MemoryBorrow)
    → j < length bs
    → get_or bs j no_borrow ≡ b
    → set bs j b ≡ bs
set-get_or_self [] j b lt e = refl
set-get_or_self (c ∷ bs) zero b lt e = cc
set-get_or_self (c ∷ bs) (suc j) b lt e = ap (λ r. c ∷ r) (set-get_or_self bs j b (omega arith) e)

get_or-last :
    (bs : List MemoryBorrow) (b : MemoryBorrow) → get_or (bs ++ b ∷ []) (length bs) no_borrow ≡ b
get_or-last [] b = refl
get_or-last (c ∷ bs) b = get_or-last bs b

take-append : (bs : List MemoryBorrow) (b : MemoryBorrow) → take (length bs) (bs ++ b ∷ []) ≡ bs
take-append [] b = refl
take-append (c ∷ bs) b = ap (λ r. c ∷ r) (take-append bs b)

-- Removing an entry for the triple that was recorded last leaves the list without that record.
remove_borrow-append :
    (bs : List MemoryBorrow) (b : MemoryBorrow) (j : ℕ)
    → j ≤ length bs
    → get_or (bs ++ b ∷ []) j no_borrow ≡ b
    → remove_borrow (bs ++ b ∷ []) j ≡ bs
unfolding remove_borrow
remove_borrow-append bs b j low at =
    let last : length (bs ++ b ∷ []) - 1 ≡ length bs = omega (arith, length-append bs (b ∷ [])) in
    rw (last, get_or-last bs b)
      (rw (set-get_or_self (bs ++ b ∷ []) j b (omega (arith, length-append bs (b ∷ []))) at)
        (take-append bs b))

module _ {context d : HleContext} (v : IsBacked context.vmm) {dst src size : ℕ}
    (l : IsLent context d dst src size) where
  abbrev in_dst : ℕ → Bool
  in_dst w = in_range (dst / page_size) (size / page_size) w

  abbrev in_src : ℕ → Bool
  in_src w = in_range (src / page_size) (size / page_size) w

  -- The alias is mapped, and the source is not part of it.
  dst_page : (w : ℕ) → in_dst w ≡ true → pte_load d.vmm w ≢ 0
  dst_page w on z =
      let i = w - dst / page_size in
      let below : i < size / page_size = ground arith in
      let f = set_perms_fields (pte_load context.vmm (src / page_size + i)) perm_rw in
      omega (arith, rw on at (l.pages w), f)

  src_page :
      (w : ℕ)
      → in_src w ≡ true
      → (in_dst w ≡ false) × (pte_load context.vmm w % page_size ≡ perm_rw)
  src_page w on =
      let p = source_page v l.source w (ground arith) (ground arith) in
      (
        elim (Bool-cases (in_dst w)) [
          | inr off ↦ off
          | inl both ↦ absurd (omega (arith, l.fresh w (ground arith) (ground arith), p))
        ],
        p.0,
      )

  dst-RangeMapped : RangeMapped d.vmm dst size
  dst-RangeMapped = record {
    gva_aligned = l.dst_aligned;
    size_aligned = l.source.size_aligned;
    nonempty = l.source.nonempty;
    in_space = l.dst_in_space;
    mapped = λ w low high. dst_page w (ground arith);
  }

  abbrev Unaliased : Context → Type 0
  Unaliased c =
      Changed d.vmm c (replaced (dst / page_size) (size / page_size) (λ w. 0) (pte_load d.vmm))

  -- The source is closed until the last step.
  closed_page :
      (c : Context)
      → Unaliased c
      → (w : ℕ) → in_src w ≡ true
      → pte_load c w ≡ set_perms (pte_load context.vmm w) perm_none
  closed_page c u w on =
      let off = (src_page w on).0 in rw off at (u.pages w) ∙ rw (off, on) at (l.pages w)

  src-RangeMapped : (c : Context) → Unaliased c → RangeMapped c src size
  src-RangeMapped c u = record {
    gva_aligned = l.source.src_aligned;
    size_aligned = l.source.size_aligned;
    nonempty = l.source.nonempty;
    in_space = l.source.in_space;
    mapped = λ w low high. page_at w (ground arith);
  }
    where
      page_at : (w : ℕ) → in_src w ≡ true → pte_load c w ≢ 0
      page_at w on z =
          let p = source_page v l.source w (ground arith) (ground arith) in
          let f = set_perms_fields (pte_load context.vmm w) perm_none in
          omega (arith, closed_page c u w on, p, f, v.valid.sound.ram)

  -- After both steps every page is as before the loan.
  returned_page :
      (c e : Context)
      → Unaliased c
      → Changed c e (
          replaced
            (src / page_size)
            (size / page_size)
            (λ w. set_perms (pte_load c w) perm_rw)
            (pte_load c))
      → (w : ℕ) → pte_load e w ≡ pte_load context.vmm w
  returned_page c e u r w = elim (Bool-cases (in_src w)) [
    | inl on ↦
        rw on at (r.pages w)
        ∙ rw (closed_page c u w on) (
            set_perms_twice (pte_load context.vmm w) perm_none perm_rw
            ∙ set_perms_same (pte_load context.vmm w) (src_page w on).1)
    | inr off ↦ rw off at (r.pages w) ∙ elim (Bool-cases (in_dst w)) [
      | inl on ↦ rw on at (u.pages w) ∙ sym (l.fresh w (ground arith) (ground arith))
      | inr neither ↦ rw neither at (u.pages w) ∙ rw (neither, off) at (l.pages w)
    ]
  ]

-- A loan is taken back whole.
IsLent-returned :
    {context d : HleContext}
    → IsBacked context.vmm
    → IsLent context d (context.x 0) (context.x 1) (context.x 2)
    → (e : HleContext) × (hle_svc_unmap_memory (record d { x = context.x }) ≡ some e)
      × (e.x 0 ≡ result_success)
      × (e.process ≡ context.process)
      × ((w : ℕ) → pte_load e.vmm w ≡ pte_load context.vmm w)
      × (e.vmm.memory ≡ context.vmm.memory)
      × IsBacked e.vmm
unfolding hle_svc_unmap_memory return_borrow
IsLent-returned {context} {d} v l =
    let dst = context.x 0 in
    let src = context.x 1 in
    let size = context.x 2 in
    let bs = context.process.heap_borrows in
    let b = the_borrow dst src size in
    let process : d.process ≡ record context.process { heap_borrows = bs ++ b ∷ [] } =
      ap (λ (c : HleContext). c.process) l.frame in
    let (j, found, low, at) = borrow_index-append dst src size bs 0 in
    let (c, e1, u) = vmm_unmap-succeeds d.vmm dst size l.backed (dst-RangeMapped v l) in
    let cb = rw e1 at (mapping_calls-IsBacked d.vmm dst 0 size 0 l.backed).1 in
    let (e, e2, r) =
      vmm_reprotect-succeeds c src size perm_rw cb (src-RangeMapped v l c u) (omega arith) in
    let eb = rw e2 at (mapping_calls-IsBacked c src 0 size perm_rw cb).2 in
    let zero_first : 0 + j ≡ j = omega arith in
    rw (process, found, hle_svc_unmap_memory, return_borrow, zero_first, e1, e2)
      (
        _,
        refl,
        refl,
        rw process (
            ap (λ list. record context.process { heap_borrows = list })
              (remove_borrow-append bs b j low at)),
        returned_page v l c e u r,
        r.memory ∙ (u.memory ∙ l.memory),
        eb,
      )

-- What `hle_svc_map_memory` lent, `hle_svc_unmap_memory` on the same registers takes back: it does
-- not abort, it succeeds, and the borrows, every page of the address space and memory are then as
-- before the loan, with the invariant.
pub hle_svc_unmap_memory-hle_svc_map_memory :
    (layout : MemoryLayout) (context : HleContext) {d : HleContext}
    → IsBacked context.vmm
    → layout.guest_ram_base ≡ context.vmm.guest_ram_base
    → HeapPages context
    → hle_svc_map_memory layout context ≡ some d
    → d.x 0 ≡ result_success
    → (e : HleContext) × (hle_svc_unmap_memory (record d { x = context.x }) ≡ some e)
      × (e.x 0 ≡ result_success)
      × (e.process ≡ context.process)
      × ((w : ℕ) → pte_load e.vmm w ≡ pte_load context.vmm w)
      × (e.vmm.memory ≡ context.vmm.memory)
      × IsBacked e.vmm
unfolding hle_svc_unmap_memory return_borrow
hle_svc_unmap_memory-hle_svc_map_memory layout context {d} v same_ram heap run success =
    let (d', same, out) = hle_svc_map_memory_lem layout context v same_ram heap in
    let here : d ≡ d' = cc (run, same) in
    elim out [
      | inl l ↦ rw here (IsLent-returned v l)
      | inr r ↦ absurd (r.code (rw here at success))
    ]
