-- ===== src/PageAllocator/Inv.antt =====
-- Correctness of core/hle/kernel/page_allocator.c: the invariant, and what each call does to the
-- set of free pages.
use voland.Base.{ℕ, ◌+◌, ◌-◌, ◌*◌, ◌≤◌, ◌<◌, ◌≢◌, arith, Bool}
use voland.Base.{[], ◌∷◌, inl, inr, ◌||◌, Option-cases}
use voland.Base.{◌==◌, length, set, All, length-set, length-append}
use voland.Base.{All-set, All-append, All-get_or}
use voland.Layout.{MemoryLayout}
use voland.PageAllocator.{
  PageRun, PageAllocator, find_index, run_at, run_end, take_run, take_fresh, no_run, retract,
  insert_run, merge, max_free_runs,
}
use voland.PageAllocator.Runs.{find_index-found, le-sum_runs, length-swap_remove, All-swap_remove}
use voland.PageAllocator.Pages.{in_run, free_at, InExtent, AllInExtent, IsPaged}

-- The invariant: whole pages, runs inside the extent, and no byte free twice.
pub record IsValid (a : PageAllocator) : Type 0 where
  pub paged : IsPaged a
  pub runs : AllInExtent a
  pub once : (x : ℕ) → free_at a x ≤ 1
  pub few : length a.free_runs ≤ max_free_runs

-- The geometry and the freelist, apart from which bytes are free.
pub record IsShaped (a : PageAllocator) : Type 0 where
  pub paged : IsPaged a
  pub runs : AllInExtent a
  pub few : length a.free_runs ≤ max_free_runs

abbrev pub shape : {a : PageAllocator} → IsValid a → IsShaped a
shape v = record { paged = v.paged; runs = v.runs; few = v.few }

-- No run of a valid freelist reaches past the cursor.
pub run-below_cursor :
    {a : PageAllocator} (i : ℕ)
    → IsValid a
    → i < length a.free_runs
    → run_end (run_at a.free_runs i) ≤ a.base_pa + a.used_bytes
run-below_cursor {a} i v lt =
    let run = run_at a.free_runs i in
    let inside = All-get_or (InExtent a.base_pa a.size_bytes) a.free_runs i no_run lt v.runs in
    ground (
      arith,
      inside,
      v.once (run_end run - 1),
      le-sum_runs (in_run (run_end run - 1)) a.free_runs i lt,
    )

module _ (granted : ℕ → ℕ → Bool) (layout : MemoryLayout) {a : PageAllocator} (s : IsShaped a) where
  pub take_run-IsShaped :
      (n i : ℕ)
      → 0 < n
      → i < length a.free_runs
      → n ≤ (run_at a.free_runs i).page_count
      → IsShaped (take_run granted layout a i n).1
  unfolding take_run
  take_run-IsShaped n i pos lt fits =
      let run = run_at a.free_runs i in
      let P = InExtent a.base_pa a.size_bytes in
      let inside = All-get_or P a.free_runs i no_run lt s.runs in
      let rest : PageRun = record { pa = run.pa + n * 4096; page_count = run.page_count - n } in
      let keep : (n ≢ run.page_count) → All P (set a.free_runs i rest) =
        λ ne. All-set P a.free_runs i rest s.runs (omega arith) in
      ground (
        arith,
        keep,
        All-swap_remove P a.free_runs i lt s.runs,
        length-swap_remove a.free_runs i lt,
        length-set a.free_runs i rest,
      )

  pub take_fresh-IsShaped : (n : ℕ) → IsShaped (take_fresh granted layout a n).1
  unfolding take_fresh
  take_fresh-IsShaped n = ground arith

-- Retracting the cursor over `n` pages that were handed out.
pub retract-IsShaped :
    {a : PageAllocator} (n : ℕ)
    → IsShaped a
    → n * 4096 ≤ a.used_bytes
    → IsShaped (retract a (n * 4096))
unfolding retract
retract-IsShaped {a} n s h =
    let cursor = a.base_pa + (a.used_bytes - n * 4096) in
    let test = λ (run : PageRun). run_end run == cursor in
    elim (Option-cases (find_index test a.free_runs 0)) [
      | inl e ↦ rw (e, retract) (ground arith)
      | inr (i, e) ↦
          let (lt, hit) = find_index-found test a.free_runs e in
          rw (e, retract)
            (ground (
              arith,
              hit,
              All-swap_remove (InExtent a.base_pa a.size_bytes) a.free_runs i lt s.runs,
              length-swap_remove a.free_runs i lt,
            ))
    ]

pub insert_run-IsShaped :
    {a : PageAllocator} (pa n : ℕ)
    → IsShaped a
    → InExtent a.base_pa a.size_bytes (record { pa = pa; page_count = n })
    → IsShaped (insert_run a pa n).1
unfolding insert_run merge
insert_run-IsShaped {a} pa n s new =
    let test = λ (run : PageRun). run.pa == pa + n * 4096 || run_end run == pa in
    let P = InExtent a.base_pa a.size_bytes in
    let fresh : PageRun = record { pa = pa; page_count = n } in
    elim (Option-cases (find_index test a.free_runs 0)) [
      | inl e ↦
          rw (e, insert_run)
            (ground (
              arith,
              All-append P a.free_runs (fresh ∷ []) s.runs (new, tt),
              length-append a.free_runs (fresh ∷ []),
            ))
      | inr (i, e) ↦
          let (lt, hit) = find_index-found test a.free_runs e in
          let run = run_at a.free_runs i in
          let inside = All-get_or P a.free_runs i no_run lt s.runs in
          let merged : P (merge run pa n) = ground (arith, hit, inside, new) in
          rw (e, insert_run)
            (ground (
              arith,
              All-set P a.free_runs i (merge run pa n) s.runs merged,
              length-set a.free_runs i (merge run pa n),
            ))
    ]
