-- ===== src/Tls.antt =====
-- core/hle/kernel/tls.h and tls.c: the blocks of thread-local storage of a process. The MMU and the
-- page allocator that the allocator borrows stand in its record; `mapped` with `page_count` is the
-- list of its live entries.
use voland.Base.{ℕ, zero, suc, ◌+◌, ◌-◌, ◌*◌, ◌/◌, ◌%◌, ◌^◌, Bool, true, false, not, ◌||◌, ◌&&◌}
use voland.Base.{Option, none, some, List, [], ◌∷◌, ◌++◌, length, set, get_or, replicate, bit_or}
use voland.Base.{ltb, leb, ◌==◌, if◌then◌else◌, ◌>>=◌}
use voland.Result.{Res, ok, err, invalid_argument, out_of_memory}
use voland.Layout.{MemoryLayout}
use voland.AddressSpace.{AddressRegion, address_region_contains}
use voland.PageAllocator.{PageAllocator, page_allocator_allocate}
use voland.Vmm.{Context, page_size, perm_rw}
use voland.Vmm.Map.{vmm_map, vmm_unmap}
use voland.Vmm.Access.{vmm_guest_to_host, write_bytes}
pub mod Blocks
pub mod Changes
pub mod Allocation
pub mod Calls
pub mod Fixtures
mod Tests

-- TLS_BLOCK_BYTES, TLS_BLOCKS_PER_PAGE, TLS_MAX_PAGES, TLS_PAGE_FULL_MASK
abbrev pub block_bytes : ℕ
block_bytes = 0x200

abbrev pub blocks_per_page : ℕ
blocks_per_page = 8

abbrev pub max_pages : ℕ
max_pages = 64

abbrev pub page_full_mask : ℕ
page_full_mask = 0xFF

-- `TLS_Page`
pub record TlsPage : Type 0 where
  pub gva : ℕ
  pub used_mask : ℕ

-- `TLS_Allocator`
pub record TlsAllocator : Type 0 where
  pub vmm : Context
  pub pages : PageAllocator
  pub region : AddressRegion
  pub mapped : List TlsPage
  pub blocks_in_use : ℕ

-- `used_mask & (1u << b)`
abbrev pub is_used : ℕ → ℕ → Bool
is_used mask b = mask / 2 ^ b % 2 == 1

-- `zero_block`, with the pointer that `vmm_guest_to_host` gives.
abbrev pub cleared_block : Res ℕ × Context → Res (Unit {0}) × Context
cleared_block (err code, vmm) = (err code, vmm)
cleared_block (ok host, vmm) =
    (ok tt, record vmm { memory = write_bytes vmm.memory host (replicate block_bytes 0) })

unfoldable pub zero_block : Context → ℕ → Res (Unit {0}) × Context
zero_block vmm gva = cleared_block (vmm_guest_to_host vmm gva block_bytes perm_rw)

-- The loop of `locate_block`, over the pages from the `p`-th on.
unfoldable pub locate_from : List TlsPage → ℕ → ℕ → Option (ℕ × ℕ)
locate_from [] gva p = none
locate_from (page ∷ rest) gva p =
    let others = locate_from rest gva (p + 1) in
    if leb page.gva gva && ltb (gva - page.gva) page_size
    then some (p, (gva - page.gva) / block_bytes)
    else others

-- `locate_block`
unfoldable pub locate_block : TlsAllocator → ℕ → Option (ℕ × ℕ)
locate_block allocator gva =
    if not (gva % block_bytes == 0) then none else locate_from allocator.mapped gva 0

-- The inner loop of `pick_block`, with `left` blocks still to look at.
unfoldable pub first_clear : ℕ → ℕ → ℕ → Option ℕ
first_clear used b zero = none
first_clear used b (suc left) =
    let others = first_clear used (b + 1) left in if is_used used b then others else some b

-- The outer loop.
unfoldable pub pick_from : List TlsPage → ℕ → Option (ℕ × ℕ)
pick_from [] p = none
pick_from (page ∷ rest) p =
    let others = pick_from rest (p + 1) in
    if page.used_mask == page_full_mask
    then others
    else elim (first_clear page.used_mask 0 blocks_per_page) [
      | none ↦ others
      | some b ↦ some (p, b)
    ]

-- `pick_block`; TLS_NO_PAGE is `none`.
abbrev pub pick_block : TlsAllocator → Option (ℕ × ℕ)
pick_block allocator = pick_from allocator.mapped 0

-- `allocator->mapped[p]`
abbrev pub page_at : TlsAllocator → ℕ → TlsPage
page_at allocator p = get_or allocator.mapped p (record { gva = 0; used_mask = 0 })

-- `slot->used_mask |= 1 << block`, `blocks_in_use++`.
abbrev pub mark : TlsAllocator → ℕ → ℕ → TlsAllocator
mark allocator p b =
    let page = page_at allocator p in
    record allocator {
      mapped = set allocator.mapped p (record page { used_mask = bit_or page.used_mask (2 ^ b) });
      blocks_in_use = (allocator.blocks_in_use + 1) % 2 ^ 32;
    }

-- `mapped[page].used_mask &= ~(1 << block)`, `blocks_in_use--`, of a block in use.
abbrev pub unmark : TlsAllocator → ℕ → ℕ → TlsAllocator
unmark allocator p b =
    let page = page_at allocator p in
    record allocator {
      mapped = set allocator.mapped p (record page { used_mask = page.used_mask - 2 ^ b });
      blocks_in_use = (allocator.blocks_in_use + (2 ^ 32 - 1)) % 2 ^ 32;
    }

-- The end of `tls_allocate`: the block that was picked is zeroed, then marked.
abbrev pub zeroed_block : TlsAllocator → ℕ → ℕ → ℕ → Res (Unit {0}) × Context → Res ℕ × TlsAllocator
zeroed_block allocator p b gva (err code, vmm) = (err code, record allocator { vmm = vmm })
zeroed_block allocator p b gva (ok done, vmm) = (ok gva, mark (record allocator { vmm = vmm }) p b)

unfoldable pub hand_out : TlsAllocator → ℕ → ℕ → Res ℕ × TlsAllocator
hand_out allocator p b =
    let gva = ((page_at allocator p).gva + b * block_bytes) % 2 ^ 64 in
    zeroed_block allocator p b gva (zero_block allocator.vmm gva)

-- `tls_is_allocated`
abbrev pub used_in : TlsAllocator → Option (ℕ × ℕ) → Bool
used_in allocator none = false
used_in allocator (some (p, b)) = is_used (page_at allocator p).used_mask b

unfoldable pub tls_is_allocated : TlsAllocator → ℕ → Bool
tls_is_allocated allocator gva = used_in allocator (locate_block allocator gva)

-- `tls_free`
abbrev pub freed_in : TlsAllocator → Option (ℕ × ℕ) → Res (Unit {0}) × TlsAllocator
freed_in allocator none = (err invalid_argument, allocator)
freed_in allocator (some (p, b)) =
    if not (is_used (page_at allocator p).used_mask b)
    then (err invalid_argument, allocator)
    else (ok tt, unmark allocator p b)

unfoldable pub tls_free : TlsAllocator → ℕ → Res (Unit {0}) × TlsAllocator
tls_free allocator gva = freed_in allocator (locate_block allocator gva)

-- `tls_allocator_init`
unfoldable pub tls_allocator_init : Context → PageAllocator → AddressRegion → Res TlsAllocator
tls_allocator_init vmm pages region =
    if not (region.base % page_size == 0)
      || not (region.size % page_size == 0)
      || ltb region.size page_size
    then err invalid_argument
    else ok (record { vmm = vmm; pages = pages; region = region; mapped = []; blocks_in_use = 0 })

-- The loop of `tls_allocator_teardown`; an unmapping that fails is logged only.
unfoldable pub unmap_each : Context → List TlsPage → Context
unmap_each vmm [] = vmm
unmap_each vmm (page ∷ rest) = unmap_each (vmm_unmap vmm page.gva page_size).1 rest

-- `tls_allocator_teardown`
unfoldable pub tls_allocator_teardown : TlsAllocator → TlsAllocator
tls_allocator_teardown allocator = record allocator {
  vmm = unmap_each allocator.vmm allocator.mapped;
  region = record { base = 0; size = 0 };
  mapped = [];
  blocks_in_use = 0;
}

-- What follows `vmm_map` of the new page.
abbrev pub new_page_mapped :
    TlsAllocator → ℕ → Res (Unit {0}) × Context → Res (Unit {0}) × TlsAllocator
new_page_mapped allocator gva (err code, vmm) = (err code, record allocator { vmm = vmm })
new_page_mapped allocator gva (ok done, vmm) = (
  ok tt,
  record allocator {
    vmm = vmm;
    mapped = allocator.mapped ++ (record { gva = gva; used_mask = 0 } ∷ []);
  },
)

-- What follows `page_allocator_allocate`.
abbrev pub new_page_allocated :
    TlsAllocator → ℕ → Res ℕ × PageAllocator → Option (Res (Unit {0}) × TlsAllocator)
new_page_allocated allocator gva (err code, pages) =
    some (err code, record allocator { pages = pages })
new_page_allocated allocator gva (ok pa, pages) =
    vmm_map allocator.vmm gva pa page_size perm_rw >>= λ r.
    some (new_page_mapped (record allocator { pages = pages }) gva r)

-- `tls_allocate` on a page that `map_new_page` added.
abbrev pub on_new_page : Res (Unit {0}) × TlsAllocator → Res ℕ × TlsAllocator
on_new_page (err code, allocator) = (err code, allocator)
on_new_page (ok done, allocator) = hand_out allocator (length allocator.mapped - 1) 0

module _ (granted : ℕ → ℕ → Bool) (layout : MemoryLayout) where
  -- `map_new_page`
  unfoldable pub map_new_page : TlsAllocator → Option (Res (Unit {0}) × TlsAllocator)
  map_new_page allocator =
      let gva = (allocator.region.base + length allocator.mapped * page_size) % 2 ^ 64 in
      if leb max_pages (length allocator.mapped)
      then some (err out_of_memory, allocator)
      else if not (address_region_contains allocator.region gva page_size)
      then some (err out_of_memory, allocator)
      else new_page_allocated allocator gva
          (page_allocator_allocate granted layout allocator.pages 1)

  -- `tls_allocate`
  unfoldable pub tls_allocate : TlsAllocator → Option (Res ℕ × TlsAllocator)
  tls_allocate allocator = elim (pick_block allocator) [
    | none ↦ map_new_page allocator >>= λ r. some (on_new_page r)
    | some (p, b) ↦ some (hand_out allocator p b)
  ]
