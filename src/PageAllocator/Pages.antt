-- ===== src/PageAllocator/Pages.antt =====
-- The abstract view of core/hle/kernel/page_allocator.c: which bytes of guest memory are free, as
-- a count for each address. An operation moves exactly its own range in or out of it.
use voland.Base.{ℕ, ◌+◌, ◌-◌, ◌*◌, ◌%◌, ◌≤◌, ◌<◌, ◌≡◌, arith, Bool}
use voland.Base.{inl, inr, ◌&&◌, Option-cases, All-get_or, ◌||◌}
use voland.Base.{leb, ltb, ◌==◌, if◌then◌else◌, length, All}
use voland.Result.{ok}
use voland.Layout.{MemoryLayout}
use voland.PageAllocator.{
  PageRun, PageAllocator, find_index, run_at, run_end, take_run, take_fresh, retract, insert_run,
  merge, no_run,
}
use voland.PageAllocator.Runs.{
  find_index-found, sum_runs, sum_runs-append, sum_runs-set, sum_runs-swap_remove,
}

-- Whether `x` lies in `count` pages from `pa` on, as a number.
abbrev pub in_pages : ℕ → ℕ → ℕ → ℕ
in_pages pa count x = if leb pa x && ltb x (pa + count * 4096) then 1 else 0

abbrev pub in_run : ℕ → PageRun → ℕ
in_run x run = in_pages run.pa run.page_count x

-- How often `x` is free: in a run, or ahead of the cursor.
abbrev pub ahead : PageAllocator → ℕ → ℕ
ahead a x = if leb (a.base_pa + a.used_bytes) x && ltb x (a.base_pa + a.size_bytes) then 1 else 0

abbrev pub free_at : PageAllocator → ℕ → ℕ
free_at a x = sum_runs (in_run x) a.free_runs + ahead a x

-- A run of the freelist lies within the allocator's extent and is not empty.
pub record InExtent (base size : ℕ) (run : PageRun) : Type 0 where
  pub above : base ≤ run.pa
  pub below : run_end run ≤ base + size
  pub aligned : run.pa % 4096 ≡ 0
  pub nonempty : 0 < run.page_count

abbrev pub AllInExtent : PageAllocator → Type 0
AllInExtent a = All (InExtent a.base_pa a.size_bytes) a.free_runs

-- The geometry that every operation keeps.
pub record IsPaged (a : PageAllocator) : Type 0 where
  pub base : a.base_pa % 4096 ≡ 0
  pub extent : a.size_bytes % 4096 ≡ 0
  pub cursor : a.used_bytes % 4096 ≡ 0
  pub within : a.used_bytes ≤ a.size_bytes

module _ (granted : ℕ → ℕ → Bool) (layout : MemoryLayout) (a : PageAllocator) (n : ℕ) where
  -- Taking from a run removes exactly the range that is returned.
  pub take_run-free_at :
      (i : ℕ) {pa : ℕ} {b : PageAllocator} (x : ℕ)
      → i < length a.free_runs
      → n ≤ (run_at a.free_runs i).page_count
      → take_run granted layout a i n ≡ (ok pa, b)
      → free_at b x + in_pages pa n x ≡ free_at a x
  unfolding take_run
  take_run-free_at i {pa} {b} x lt fits e =
      let run = run_at a.free_runs i in
      let rest : PageRun = record { pa = run.pa + n * 4096; page_count = run.page_count - n } in
      ground (
        arith,
        sum_runs-set (in_run x) a.free_runs i rest lt,
        sum_runs-swap_remove (in_run x) a.free_runs i lt,
      )

  pub take_fresh-free_at :
      {pa : ℕ} {b : PageAllocator} (x : ℕ)
      → IsPaged a
      → take_fresh granted layout a n ≡ (ok pa, b)
      → free_at b x + in_pages pa n x ≡ free_at a x
  unfolding take_fresh
  take_fresh-free_at x v e = ground arith

pub retract-free_at :
    (a : PageAllocator) (n x : ℕ)
    → IsPaged a
    → AllInExtent a
    → n * 4096 ≤ a.used_bytes
    → free_at (retract a (n * 4096)) x
      ≡ free_at a x + in_pages (a.base_pa + a.used_bytes - n * 4096) n x
unfolding retract
retract-free_at a n x v runs h =
    let cursor = a.base_pa + (a.used_bytes - n * 4096) in
    let search = find_index (λ run. run_end run == cursor) a.free_runs 0 in
    elim (Option-cases search) [
      | inl e ↦ rw (e, retract) (ground arith)
      | inr (i, e) ↦
          let (lt, hit) = find_index-found (λ run. run_end run == cursor) a.free_runs e in
          let inside = All-get_or (InExtent a.base_pa a.size_bytes) a.free_runs i no_run lt runs in
          let removed = sum_runs-swap_remove (in_run x) a.free_runs i lt in
          rw (e, retract) (ground (arith, removed, inside, hit))
    ]

pub insert_run-free_at :
    (a : PageAllocator) (pa n x : ℕ) {b : PageAllocator}
    → insert_run a pa n ≡ (ok tt, b)
    → free_at b x ≡ free_at a x + in_pages pa n x
unfolding insert_run merge
insert_run-free_at a pa n x {b} e =
    let test = λ (run : PageRun). run.pa == pa + n * 4096 || run_end run == pa in
    elim (Option-cases (find_index test a.free_runs 0)) [
      | inl none_found ↦ ground (
        arith,
        rw (none_found, insert_run) at e,
        sum_runs-append (in_run x) a.free_runs (record { pa = pa; page_count = n }),
      )
      | inr (i, found) ↦
          let (lt, hit) = find_index-found test a.free_runs found in
          ground (
            arith,
            rw (found, insert_run) at e,
            hit,
            sum_runs-set (in_run x) a.free_runs i (merge (run_at a.free_runs i) pa n) lt,
          )
    ]
