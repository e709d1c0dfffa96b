-- ===== src/PageAllocator.antt =====
-- core/hle/kernel/page_allocator.h and page_allocator.c: the guest physical page allocator, a bump
-- cursor with a freelist of runs. The array `free_runs` with its count is the list of its live
-- entries. `granted` is the OS's answer to a commit (Layout). A function that changes `*allocator`
-- returns the new allocator beside its result.
use voland.Base.{ℕ, zero, suc, ◌+◌, ◌-◌, ◌*◌, ◌/◌, ◌%◌, ◌^◌, Bool, true, false, ◌||◌, ◌&&◌, not}
use voland.Base.{Option, none, some, List, [], ◌∷◌, ◌++◌}
use voland.Base.{ltb, leb, ◌==◌, if◌then◌else◌, length, get_or, set, take}
use voland.Result.{Res, ok, err, out_of_memory, invalid_argument}
use voland.Layout.{MemoryLayout, layout_guest_ram_commit}
pub mod Runs
pub mod Pages
pub mod Inv
pub mod Calls
pub mod Init
mod Tests

-- `Page_Run`
pub record PageRun : Type 0 where
  pub pa : ℕ
  pub page_count : ℕ

abbrev pub max_free_runs : ℕ
max_free_runs = 16

-- `Page_Allocator`
pub record PageAllocator : Type 0 where
  pub base_pa : ℕ
  pub size_bytes : ℕ
  pub used_bytes : ℕ
  pub free_runs : List PageRun

-- `page_allocator_init`
unfoldable pub page_allocator_init : Option MemoryLayout → ℕ → ℕ → Res PageAllocator
page_allocator_init none base_pa size_bytes = err invalid_argument
page_allocator_init (some layout) base_pa size_bytes =
    if not (base_pa % 4096 == 0) || not (size_bytes % 4096 == 0)
    then err invalid_argument
    else if size_bytes == 0
        || ltb layout.ram_size base_pa
        || ltb (layout.ram_size - base_pa) size_bytes
    then err invalid_argument
    else ok (record { base_pa = base_pa; size_bytes = size_bytes; used_bytes = 0; free_runs = [] })

-- `page_allocator_init_guest_ram`
pub page_allocator_init_guest_ram : Option MemoryLayout → Res PageAllocator
page_allocator_init_guest_ram none = err invalid_argument
page_allocator_init_guest_ram (some layout) = page_allocator_init (some layout) 0 layout.ram_size

-- The first index, counted from `i`, at which the test holds: the search of the four loops.
pub find_index : (PageRun → Bool) → List PageRun → ℕ → Option ℕ
find_index test [] i = none
find_index test (run ∷ runs) i = if test run then some i else find_index test runs (i + 1)

abbrev pub no_run : PageRun
no_run = record { pa = 0; page_count = 0 }

-- `free_runs[i]`
abbrev pub run_at : List PageRun → ℕ → PageRun
run_at runs i = get_or runs i no_run

-- `free_runs[i] = free_runs[--free_run_count]`
pub swap_remove : List PageRun → ℕ → List PageRun
swap_remove runs i = let last = length runs - 1 in take last (set runs i (run_at runs last))

-- The arm of the first-fit loop that found a run: it is taken whole or split.
pub take_run : (ℕ → ℕ → Bool) → MemoryLayout → PageAllocator → ℕ → ℕ → Res ℕ × PageAllocator
take_run granted layout a i page_count =
    let run = run_at a.free_runs i in
    elim (layout_guest_ram_commit granted (some layout) run.pa (page_count * 4096)) [
      | err code ↦ (err code, a)
      | ok done ↦
          if run.page_count == page_count
          then (ok run.pa, record a { free_runs = swap_remove a.free_runs i })
          else (
            ok run.pa,
            record a {
              free_runs = set a.free_runs i (record {
                pa = run.pa + page_count * 4096;
                page_count = run.page_count - page_count;
              });
            },
          )
    ]

-- What follows the loop: the bump cursor advances.
pub take_fresh : (ℕ → ℕ → Bool) → MemoryLayout → PageAllocator → ℕ → Res ℕ × PageAllocator
take_fresh granted layout a page_count =
    if ltb ((a.size_bytes - a.used_bytes) / 4096) page_count
    then (err out_of_memory, a)
    else let pa = a.base_pa + a.used_bytes in
      elim (layout_guest_ram_commit granted (some layout) pa (page_count * 4096)) [
        | err code ↦ (err code, a)
        | ok done ↦ (ok pa, record a { used_bytes = a.used_bytes + page_count * 4096 })
      ]

-- `page_allocator_allocate`
pub page_allocator_allocate :
    (ℕ → ℕ → Bool) → MemoryLayout → PageAllocator → ℕ → Res ℕ × PageAllocator
unfolding take_run take_fresh
page_allocator_allocate granted layout a page_count =
    if page_count == 0
    then (err invalid_argument, a)
    else elim (find_index (λ run. leb page_count run.page_count) a.free_runs 0) [
      | some i ↦ take_run granted layout a i page_count
      | none ↦ take_fresh granted layout a page_count
    ]

-- The end of a run, in bytes.
abbrev pub run_end : PageRun → ℕ
run_end run = run.pa + run.page_count * 4096

-- The freed range ends at the cursor: retract it, then absorb one run that now ends there.
pub retract : PageAllocator → ℕ → PageAllocator
retract a size =
    let b = record a { used_bytes = a.used_bytes - size } in
    let cursor = b.base_pa + b.used_bytes in
    elim (find_index (λ run. run_end run == cursor) b.free_runs 0) [
      | none ↦ b
      | some i ↦ record b {
        used_bytes = b.used_bytes - (run_at b.free_runs i).page_count * 4096;
        free_runs = swap_remove b.free_runs i;
      }
    ]

-- The body of the last loop at the run that it stops at: the freed range goes before or behind it.
pub merge : PageRun → ℕ → ℕ → PageRun
merge run pa page_count =
    if run.pa == pa + page_count * 4096
    then record { pa = pa; page_count = run.page_count + page_count }
    else record { pa = run.pa; page_count = run.page_count + page_count }

-- Not adjacent to the cursor: coalesce with one neighbour, or push a new run.
pub insert_run : PageAllocator → ℕ → ℕ → Res (Unit {0}) × PageAllocator
unfolding merge
insert_run a pa page_count =
    elim (find_index (λ run. run.pa == pa + page_count * 4096 || run_end run == pa) a.free_runs 0) [
      | some i ↦ (
        ok tt,
        record a { free_runs = set a.free_runs i (merge (run_at a.free_runs i) pa page_count) },
      )
      | none ↦ if leb max_free_runs (length a.free_runs) then (err out_of_memory, a) else (
        ok tt,
        record a { free_runs = a.free_runs ++ (record { pa = pa; page_count = page_count } ∷ []) },
      )
    ]

-- `page_allocator_free`. The range check bounds `page_count` before anything is multiplied.
pub page_allocator_free : PageAllocator → ℕ → ℕ → Res (Unit {0}) × PageAllocator
unfolding retract insert_run
page_allocator_free a pa page_count =
    if page_count == 0 || not (pa % 4096 == 0) || ltb pa a.base_pa
    then (err invalid_argument, a)
    else let offset_pages = (pa - a.base_pa) / 4096 in
      let used_pages = a.used_bytes / 4096 in
      if leb used_pages offset_pages || ltb (used_pages - offset_pages) page_count
      then (err invalid_argument, a)
      else if pa + page_count * 4096 == a.base_pa + a.used_bytes
      then (ok tt, retract a (page_count * 4096))
      else insert_run a pa page_count

-- The bytes of the runs of a freelist.
pub run_bytes : List PageRun → ℕ
run_bytes [] = 0
run_bytes (run ∷ runs) = run.page_count * 4096 + run_bytes runs

-- `page_allocator_free_bytes`
pub page_allocator_free_bytes : PageAllocator → ℕ
page_allocator_free_bytes a = a.size_bytes - a.used_bytes + run_bytes a.free_runs

-- `page_allocator_reset`
pub page_allocator_reset : PageAllocator → PageAllocator
page_allocator_reset a = record a { used_bytes = 0; free_runs = [] }
