-- ===== src/PageAllocator/Runs.antt =====
-- The freelist of core/hle/kernel/page_allocator.c: its search, and sums over a list of runs under
-- the ways in which the code changes an entry.
use voland.Base.{false, none, ◌≤◌, ℕ, zero, suc, ◌+◌, ◌-◌, ◌<◌, ◌≡◌, arith, Bool, true}
use voland.Base.{some, List, [], ◌∷◌, ◌++◌, inl, inr}
use voland.Base.{
  length, set, take, Bool-cases, length-set, get_or-set_copy, ap, All, All-set, All-take,
  All-get_or, length-take,
}
use voland.PageAllocator.{PageRun, find_index, no_run, run_at, swap_remove}

find_index-offset :
    (test : PageRun → Bool) (runs : List PageRun) (k : ℕ) {i : ℕ}
    → find_index test runs k ≡ some i
    → (d : ℕ) × (i ≡ k + d) × (d < length runs) × (test (run_at runs d) ≡ true)
unfolding find_index
find_index-offset test [] k e = absurd (cc)
find_index-offset test (run ∷ runs) k {i} e = elim (Bool-cases (test run)) [
  | inl hit ↦ (0, ground arith, omega arith, hit)
  | inr miss ↦
      let (d, at, lt, hit) = find_index-offset test runs (k + 1) {i = i} (rw miss at e) in
      (suc d, omega arith, omega arith, hit)
]

-- A found index lies in the list, and the test holds there.
pub find_index-found :
    (test : PageRun → Bool) (runs : List PageRun) {i : ℕ}
    → find_index test runs 0 ≡ some i
    → (i < length runs) × (test (run_at runs i) ≡ true)
find_index-found test runs {i} e =
    let (d, at, lt, hit) = find_index-offset test runs 0 {i = i} e in
    let same : i ≡ d = omega arith in rw same (lt, hit)

-- After an entry is overwritten by the last one, the last one is still last.
last_kept :
    (runs : List PageRun) (i : ℕ)
    → run_at (set runs i (run_at runs (length runs - 1))) (length runs - 1)
      ≡ run_at runs (length runs - 1)
last_kept runs i = get_or-set_copy runs i (length runs - 1) no_run

-- The sum of a measure over the runs.
module _ (f : PageRun → ℕ) where
  unfoldable pub sum_runs : List PageRun → ℕ
  sum_runs [] = 0
  sum_runs (run ∷ runs) = f run + sum_runs runs

  pub sum_runs-append :
      (runs : List PageRun) (r : PageRun) → sum_runs (runs ++ (r ∷ [])) ≡ sum_runs runs + f r
  unfolding sum_runs
  sum_runs-append [] r = omega arith
  sum_runs-append (run ∷ runs) r = omega (arith, sum_runs-append runs r)

  pub sum_runs-set :
      (runs : List PageRun) (i : ℕ) (r : PageRun)
      → i < length runs
      → sum_runs (set runs i r) + f (run_at runs i) ≡ sum_runs runs + f r
  unfolding sum_runs
  sum_runs-set [] i r h = elim h [ ]
  sum_runs-set (run ∷ runs) zero r h = omega arith
  sum_runs-set (run ∷ runs) (suc i) r h = omega (arith, sum_runs-set runs i r (omega arith))

  sum_runs-take_last :
      (runs : List PageRun) (n : ℕ)
      → length runs ≡ suc n
      → sum_runs (take n runs) + f (run_at runs n) ≡ sum_runs runs
  unfolding sum_runs
  sum_runs-take_last [] n h = absurd (omega arith)
  sum_runs-take_last (run ∷ []) zero h = omega arith
  sum_runs-take_last (run ∷ runs) (suc n) h = omega (arith, sum_runs-take_last runs n (omega arith))
  sum_runs-take_last (run ∷ r ∷ runs) zero h = absurd (omega arith)

  -- Removing a run takes exactly its measure off the sum.
  pub sum_runs-swap_remove :
      (runs : List PageRun) (i : ℕ)
      → i < length runs
      → sum_runs (swap_remove runs i) + f (run_at runs i) ≡ sum_runs runs
  unfolding swap_remove
  sum_runs-swap_remove runs i h =
      let last = length runs - 1 in
      let moved = set runs i (run_at runs last) in
      let n : length moved ≡ suc last = omega (arith, length-set runs i (run_at runs last)) in
      omega (
        arith,
        sum_runs-take_last moved last n,
        sum_runs-set runs i (run_at runs last) h,
        ap f (last_kept runs i),
      )

pub length-swap_remove :
    (runs : List PageRun) (i : ℕ) → i < length runs → length (swap_remove runs i) ≡ length runs - 1
unfolding swap_remove
length-swap_remove runs i h =
    let last = length runs - 1 in
    let v = run_at runs last in omega (arith, length-take last (set runs i v), length-set runs i v)

pub All-swap_remove {κ} :
    (P : PageRun → Type κ) (runs : List PageRun) (i : ℕ)
    → i < length runs
    → All P runs
    → All P (swap_remove runs i)
unfolding swap_remove
All-swap_remove P runs i lt h =
    let last = length runs - 1 in
    let v = run_at runs last in
    All-take P last (set runs i v)
      (All-set P runs i v h (All-get_or P runs last no_run (omega arith) h))

-- A search that finds nothing has met no run for which the test holds.
pub find_index-none :
    (test : PageRun → Bool) (runs : List PageRun) (k d : ℕ)
    → find_index test runs k ≡ none
    → d < length runs
    → test (run_at runs d) ≡ false
unfolding find_index
find_index-none test [] k d e lt = elim lt [ ]
find_index-none test (run ∷ runs) k d e lt = elim (Bool-cases (test run)) [
  | inl hit ↦ absurd (first (rw hit at e))
  | inr miss ↦ later d miss lt (λ j. find_index-none test runs (k + 1) j (rw miss at e))
]
  where
    first : some k ≡ none → ⊥
    first q = cc

    later :
        (j : ℕ)
        → test run ≡ false
        → j < length (run ∷ runs)
        → ((m : ℕ) → m < length runs → test (run_at runs m) ≡ false)
        → test (run_at (run ∷ runs) j) ≡ false
    later zero miss lt ih = miss
    later (suc j) miss lt ih = ih j (omega arith)

-- An entry's measure is part of the sum.
pub le-sum_runs :
    (f : PageRun → ℕ) (runs : List PageRun) (i : ℕ)
    → i < length runs
    → f (run_at runs i) ≤ sum_runs f runs
unfolding sum_runs
le-sum_runs f [] i h = elim h [ ]
le-sum_runs f (run ∷ runs) zero h = omega arith
le-sum_runs f (run ∷ runs) (suc i) h = omega (arith, le-sum_runs f runs i (omega arith))
