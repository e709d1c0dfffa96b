-- ===== src/PageAllocator/Calls.antt =====
-- What the calls of core/hle/kernel/page_allocator.c do to the set of free pages.
use voland.Base.{ℕ, ◌+◌, ◌-◌, ◌*◌, ◌/◌, ◌%◌, ◌≤◌, ◌<◌, ◌≡◌, ◌≢◌, refl, arith, Bool}
use voland.Base.{none, [], ◌∷◌, ◌++◌, inl, inr, ◌||◌, Option-cases}
use voland.Base.{
  leb, ltb, ◌==◌, if◌then◌else◌, length, Bool-cases, leb→le, not, All-get_or, length-set,
  get_or-set_self,
}
use voland.Result.{Code, Res, ok, err, out_of_memory}
use voland.Layout.{MemoryLayout}
use voland.PageAllocator.{
  PageRun, PageAllocator, find_index, run_at, run_end, take_run, take_fresh, no_run,
  page_allocator_allocate, retract, insert_run, page_allocator_free, max_free_runs,
}
use voland.PageAllocator.Runs.{find_index-found, find_index-none, length-swap_remove}
use voland.PageAllocator.Pages.{
  in_pages, free_at, InExtent, IsPaged, take_run-free_at, take_fresh-free_at, retract-free_at,
  insert_run-free_at,
}
use voland.PageAllocator.Inv.{
  IsValid, IsShaped, shape, run-below_cursor, take_run-IsShaped, take_fresh-IsShaped,
  retract-IsShaped, insert_run-IsShaped,
}

module _ (granted : ℕ → ℕ → Bool) (layout : MemoryLayout) (a : PageAllocator) (n : ℕ) where
  allocate-IsShaped : IsShaped a → IsShaped (page_allocator_allocate granted layout a n).1
  unfolding page_allocator_allocate
  allocate-IsShaped s =
      let test = λ (run : PageRun). leb n run.page_count in
      elim (Bool-cases (n == 0)) [
        | inl z ↦ rw z s
        | inr nz ↦ elim (Option-cases (find_index test a.free_runs 0)) [
          | inl e ↦ rw (nz, e, page_allocator_allocate) (take_fresh-IsShaped granted layout s n)
          | inr (i, e) ↦
              let (lt, hit) = find_index-found test a.free_runs e in
              rw (nz, e, page_allocator_allocate)
                (take_run-IsShaped granted layout s n i (ground arith) lt (leb→le _ _ hit))
        ]
      ]

  allocate-free_at :
      {pa : ℕ} {b : PageAllocator} (x : ℕ)
      → IsShaped a
      → page_allocator_allocate granted layout a n ≡ (ok pa, b)
      → free_at b x + in_pages pa n x ≡ free_at a x
  unfolding page_allocator_allocate
  allocate-free_at {pa} {b} x s e =
      let test = λ (run : PageRun). leb n run.page_count in
      elim (Bool-cases (n == 0)) [
        | inl z ↦ absurd (ground (arith, rw z at e))
        | inr nz ↦ elim (Option-cases (find_index test a.free_runs 0)) [
          | inl f ↦
              take_fresh-free_at granted layout a n x s.paged
                (rw (nz, f, page_allocator_allocate) at e)
          | inr (i, f) ↦
              let (lt, hit) = find_index-found test a.free_runs f in
              take_run-free_at granted layout a n i x lt (leb→le _ _ hit)
                (rw (nz, f, page_allocator_allocate) at e)
        ]
      ]

  allocate-extent :
      {pa : ℕ} {b : PageAllocator}
      → IsValid a
      → page_allocator_allocate granted layout a n ≡ (ok pa, b)
      → (pa % 4096 ≡ 0)
        × (0 < n)
        × (a.base_pa ≤ pa)
        × (pa + n * 4096 ≤ b.base_pa + b.used_bytes)
        × (b.base_pa ≡ a.base_pa)
        × (b.size_bytes ≡ a.size_bytes)
  unfolding page_allocator_allocate take_run take_fresh
  allocate-extent {pa} {b} v e =
      let test = λ (run : PageRun). leb n run.page_count in
      let P = InExtent a.base_pa a.size_bytes in
      elim (Bool-cases (n == 0)) [
        | inl z ↦ absurd (ground (arith, rw z at e))
        | inr nz ↦ elim (Option-cases (find_index test a.free_runs 0)) [
          | inl f ↦ ground (arith, rw (nz, f, page_allocator_allocate) at e)
          | inr (i, f) ↦
              let (lt, hit) = find_index-found test a.free_runs f in
              let inside = All-get_or P a.free_runs i no_run lt v.runs in
              ground (
                arith,
                hit,
                inside,
                run-below_cursor i v lt,
                rw (nz, f, page_allocator_allocate) at e,
              )
        ]
      ]

  allocate-error :
      {code : Code} {b : PageAllocator}
      → page_allocator_allocate granted layout a n ≡ (err code, b)
      → b ≡ a
  unfolding page_allocator_allocate take_run take_fresh
  allocate-error {code} {b} e =
      let test = λ (run : PageRun). leb n run.page_count in
      elim (Bool-cases (n == 0)) [
        | inl z ↦ cc (rw z at e)
        | inr nz ↦ elim (Option-cases (find_index test a.free_runs 0)) [
          | inl f ↦ ground (arith, rw (nz, f, page_allocator_allocate) at e)
          | inr (i, f) ↦ ground (arith, rw (nz, f, page_allocator_allocate) at e)
        ]
      ]

IsShaped-IsValid : {a : PageAllocator} → IsShaped a → ((x : ℕ) → free_at a x ≤ 1) → IsValid a
IsShaped-IsValid s once = record { paged = s.paged; runs = s.runs; once = once; few = s.few }

-- What an allocation of `n` pages may leave: `n` whole pages that were free, and now are not, all
-- else as before; or the allocator unchanged.
abbrev pub Allocated : PageAllocator → ℕ → Res ℕ × PageAllocator → Type 0
Allocated a n (ok pa, b) =
    ((x : ℕ) → free_at b x + in_pages pa n x ≡ free_at a x)
    × IsValid b
    × (pa % 4096 ≡ 0)
    × (0 < n)
    × (a.base_pa ≤ pa)
    × (pa + n * 4096 ≤ b.base_pa + b.used_bytes)
    × (b.base_pa ≡ a.base_pa)
    × (b.size_bytes ≡ a.size_bytes)
Allocated a n (err code, b) = b ≡ a

-- What freeing `n` pages from `pa` on may leave.
abbrev pub Freed : PageAllocator → ℕ → ℕ → Res (Unit {0}) × PageAllocator → Type 0
Freed a pa n (ok done, b) = ((x : ℕ) → free_at b x ≡ free_at a x + in_pages pa n x) × IsValid b
Freed a pa n (err code, b) = b ≡ a

-- `page_allocator_allocate` keeps the invariant. On success every byte of the returned range was
-- free before and is not free afterwards, no other byte changes, and the range is whole pages below
-- the cursor; on every error the allocator is as it was.
pub page_allocator_allocate_lem :
    (granted : ℕ → ℕ → Bool) (layout : MemoryLayout) (a : PageAllocator) (n : ℕ)
    → IsValid a
    → Allocated a n (page_allocator_allocate granted layout a n)
page_allocator_allocate_lem granted layout a n v =
    go (page_allocator_allocate granted layout a n) refl
  where
    go :
        (r : Res ℕ × PageAllocator)
        → page_allocator_allocate granted layout a n ≡ r
        → Allocated a n r
    go (ok pa, b) e =
        let moved =
          λ (x : ℕ). allocate-free_at granted layout a n {pa = pa} {b = b} x (shape v) e in
        let s = rw e at (allocate-IsShaped granted layout a n (shape v)) in
        let (aligned, pos, low, high, base, size) =
          allocate-extent granted layout a n {pa = pa} {b = b} v e in
        (
          moved,
          IsShaped-IsValid s (λ x. omega (arith, moved x, v.once x)),
          aligned,
          pos,
          low,
          high,
          base,
          size,
        )
    go (err code, b) e = allocate-error granted layout a n e

insert_run-error :
    (a : PageAllocator) (pa n : ℕ) {code : Code} {b : PageAllocator}
    → insert_run a pa n ≡ (err code, b)
    → b ≡ a
unfolding insert_run
insert_run-error a pa n {code} {b} e =
    let test = λ (run : PageRun). run.pa == pa + n * 4096 || run_end run == pa in
    elim (Option-cases (find_index test a.free_runs 0)) [
      | inl f ↦ ground (arith, rw (f, insert_run) at e)
      | inr (i, f) ↦ cc (rw (f, insert_run) at e)
    ]

module _ {a : PageAllocator} (pa n : ℕ) (v : IsValid a)
    (apart : (x : ℕ) → free_at a x + in_pages pa n x ≤ 1) where
  insert_run-Freed :
      InExtent a.base_pa a.size_bytes (record { pa = pa; page_count = n })
      → Freed a pa n (insert_run a pa n)
  insert_run-Freed new = go (insert_run a pa n) refl
    where
      go : (r : Res (Unit {0}) × PageAllocator) → insert_run a pa n ≡ r → Freed a pa n r
      go (ok done, b) e =
          let moved = λ (x : ℕ). insert_run-free_at a pa n x {b = b} e in
          let s = rw e at (insert_run-IsShaped pa n (shape v) new) in
          (moved, IsShaped-IsValid s (λ x. omega (arith, moved x, apart x)))
      go (err code, b) e = insert_run-error a pa n e

  retract-Freed :
      a.base_pa ≤ pa
      → pa + n * 4096 ≡ a.base_pa + a.used_bytes
      → Freed a pa n (ok tt, retract a (n * 4096))
  retract-Freed low top =
      let room : n * 4096 ≤ a.used_bytes = omega arith in
      let same : a.base_pa + a.used_bytes - n * 4096 ≡ pa = omega arith in
      let moved : (x : ℕ) → free_at (retract a (n * 4096)) x ≡ free_at a x + in_pages pa n x =
        λ x. rw same at (retract-free_at a n x v.paged v.runs room) in
      (
        moved,
        IsShaped-IsValid (retract-IsShaped n (shape v) room) (λ x. omega (arith, moved x, apart x)),
      )

-- `page_allocator_free` on a range of which no byte is free: on success exactly that range becomes
-- free, and the invariant holds; on every error the allocator is as it was.
pub page_allocator_free_lem :
    (a : PageAllocator) (pa n : ℕ)
    → IsValid a
    → ((x : ℕ) → free_at a x + in_pages pa n x ≤ 1)
    → Freed a pa n (page_allocator_free a pa n)
unfolding page_allocator_free
page_allocator_free_lem a pa n v apart =
    let bad = n == 0 || not (pa % 4096 == 0) || ltb pa a.base_pa in
    let first = (pa - a.base_pa) / 4096 in
    let outside = leb (a.used_bytes / 4096) first || ltb (a.used_bytes / 4096 - first) n in
    elim (Bool-cases bad) [
      | inl e ↦ rw e
      | inr e ↦ elim (Bool-cases outside) [
        | inl f ↦ rw (e, f)
        | inr f ↦ elim (Bool-cases (pa + n * 4096 == a.base_pa + a.used_bytes)) [
          | inl g ↦ rw (e, f, g) (retract-Freed pa n v apart (ground arith) (ground arith))
          | inr g ↦ rw (e, f, g) (insert_run-Freed pa n v apart (ground arith))
        ]
      ]
    ]

-- The cases in which a range can be given back whatever the length of the freelist.
data Returnable (b : PageAllocator) (pa n : ℕ) : Type 0 where
  at_cursor : pa + n * 4096 ≡ b.base_pa + b.used_bytes → Returnable b pa n
  has_slot : length b.free_runs < max_free_runs → Returnable b pa n
  has_remainder :
      (i : ℕ)
      → i < length b.free_runs
      → (run_at b.free_runs i).pa ≡ pa + n * 4096
      → Returnable b pa n

take_run-Returnable :
    (granted : ℕ → ℕ → Bool) (layout : MemoryLayout) (a : PageAllocator) (n i : ℕ) {pa : ℕ}
    {b : PageAllocator}
    → length a.free_runs ≤ max_free_runs
    → i < length a.free_runs
    → take_run granted layout a i n ≡ (ok pa, b)
    → Returnable b pa n
unfolding take_run
take_run-Returnable granted layout a n i {pa} {b} few lt e =
    let run = run_at a.free_runs i in
    let rest : PageRun = record { pa = run.pa + n * 4096; page_count = run.page_count - n } in
    elim (Bool-cases (run.page_count == n)) [
      | inl whole ↦ has_slot (ground (arith, length-swap_remove a.free_runs i lt))
      | inr split ↦
          has_remainder i (ground (arith, length-set a.free_runs i rest))
            (ground (arith, get_or-set_self a.free_runs i rest no_run lt))
    ]

allocate-Returnable :
    (granted : ℕ → ℕ → Bool) (layout : MemoryLayout) (a : PageAllocator) (n : ℕ) {pa : ℕ}
    {b : PageAllocator}
    → length a.free_runs ≤ max_free_runs
    → page_allocator_allocate granted layout a n ≡ (ok pa, b)
    → Returnable b pa n
unfolding page_allocator_allocate take_fresh
allocate-Returnable granted layout a n {pa} {b} few e =
    let test = λ (run : PageRun). leb n run.page_count in
    elim (Bool-cases (n == 0)) [
      | inl z ↦ absurd (cc (rw z at e))
      | inr nz ↦ elim (Option-cases (find_index test a.free_runs 0)) [
        | inl f ↦ at_cursor (ground (arith, rw (nz, f, page_allocator_allocate) at e))
        | inr (i, f) ↦
            let (lt, hit) = find_index-found test a.free_runs f in
            take_run-Returnable granted layout a n i few lt
              (rw (nz, f, page_allocator_allocate) at e)
      ]
    ]

insert_run-succeeds :
    (b : PageAllocator) (pa n : ℕ)
    → Returnable b pa n
    → (pa + n * 4096 ≢ b.base_pa + b.used_bytes)
    → (insert_run b pa n).0 ≡ ok tt
unfolding insert_run
insert_run-succeeds b pa n r off =
    let test = λ (run : PageRun). run.pa == pa + n * 4096 || run_end run == pa in
    elim (Option-cases (find_index test b.free_runs 0)) [
      | inr (i, f) ↦ rw (f, insert_run)
      | inl f ↦ rw (f, insert_run) (room f r)
    ]
  where
    room :
        find_index (λ run. run.pa == pa + n * 4096 || run_end run == pa) b.free_runs 0 ≡ none
        → Returnable b pa n
        → (if◌then◌else◌ {A = Res (Unit {0}) × PageAllocator}
            (leb max_free_runs (length b.free_runs))
            (err out_of_memory, b)
            (
              ok tt,
              record b { free_runs = b.free_runs ++ (record { pa = pa; page_count = n } ∷ []) },
            )).0
          ≡ ok tt
    room f (at_cursor c) = absurd (off c)
    room f (has_slot h) = ground arith
    room f (has_remainder i lt q) = ground (
      arith,
      find_index-none (λ run. run.pa == pa + n * 4096 || run_end run == pa) b.free_runs 0 i f lt,
    )

free-succeeds :
    (b : PageAllocator) (pa n : ℕ)
    → IsPaged b
    → pa % 4096 ≡ 0
    → 0 < n
    → b.base_pa ≤ pa
    → pa + n * 4096 ≤ b.base_pa + b.used_bytes
    → Returnable b pa n
    → (page_allocator_free b pa n).0 ≡ ok tt
unfolding page_allocator_free
free-succeeds b pa n v aligned pos low high r = ground (arith, insert_run-succeeds b pa n r)

-- Pages that were just allocated can always be given back: the free succeeds, however full the
-- freelist is, and leaves every byte as free as it was before the allocation. (The rollback of
-- `hle_svc_set_heap_size` asserts this.)
pub page_allocator_allocate-free :
    (granted : ℕ → ℕ → Bool) (layout : MemoryLayout) (a : PageAllocator) (n : ℕ) {pa : ℕ}
    {b : PageAllocator}
    → IsValid a
    → page_allocator_allocate granted layout a n ≡ (ok pa, b)
    → (c : PageAllocator) × (page_allocator_free b pa n ≡ (ok tt, c))
      × ((x : ℕ) → free_at c x ≡ free_at a x)
      × IsValid c
page_allocator_allocate-free granted layout a n {pa} {b} v e =
    let (moved, w, aligned, pos, low, high, base, size) =
      rw e at (page_allocator_allocate_lem granted layout a n v) in
    let r = allocate-Returnable granted layout a n v.few e in
    let done = free-succeeds b pa n w.paged aligned pos (omega arith) high r in
    let c = (page_allocator_free b pa n).1 in
    let result : page_allocator_free b pa n ≡ (ok tt, c) = ground (arith, done) in
    let (back, x) =
      rw result at (page_allocator_free_lem b pa n w (λ x. omega (arith, moved x, v.once x))) in
    (c, result, λ x. omega (arith, moved x, back x), x)
