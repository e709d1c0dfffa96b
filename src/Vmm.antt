-- ===== src/Vmm.antt =====
-- core/common/vmm.h and vmm.c: the software MMU. This file has the geometry, the context, the page
-- table entries, the pool of L2 tables and the lifecycle; Vmm/Map maps and unmaps, Vmm/Access reads
-- and writes, Vmm/Query describes runs; the other children prove.
-- Linear memory is two stores: `tables` holds the L2 tables by their offset and entry index, and
-- `memory` holds all other bytes, guest RAM among them, by address. The L2 arena and guest RAM are
-- separate allocations, so a write to one is never read through the other. The release build is
-- modelled: the debug borrow table and the checks of SWITCH_ASSERT are compiled out, and a failed
-- SWITCH_ASSERT_ALWAYS is `none`.
use voland.Base.{ℕ, zero, suc, ◌+◌, ◌-◌, ◌*◌, ◌/◌, ◌%◌, ◌^◌, Bool, true, false, ◌&&◌, ◌||◌}
use voland.Base.{Option, none, some, ltb, leb, ◌==◌, if◌then◌else◌, update, ◌>>=◌}
use voland.Arena.{Arena, arena_create, arena_allocate, arena_destroy}
use voland.Layout.{MemoryLayout}
pub mod Pte
pub mod Map
pub mod Access
pub mod Query
pub mod Inv
pub mod Pool
pub mod Store
pub mod MapInv
pub mod Ranges
pub mod MapLoop
pub mod Release
pub mod UnmapInv
pub mod Unmapping
pub mod Mapping
pub mod Steps
pub mod Translate
pub mod Create
pub mod Pointers
pub mod Runs
pub mod Confined
pub mod Values
pub mod Transfers
pub mod Blocks
mod Tests

-- VMM_PAGE_SIZE, VMM_ADDRESS_SPACE_SIZE, VMM_L2_ENTRY_COUNT and what follows from them.
abbrev pub page_size : ℕ
page_size = 4096

abbrev pub address_space_size : ℕ
address_space_size = 2 ^ 39

abbrev pub l2_entry_count : ℕ
l2_entry_count = 16384

abbrev pub l1_entry_count : ℕ
l1_entry_count = 8192

abbrev pub l2_table_bytes : ℕ
l2_table_bytes = l2_entry_count * 8

abbrev pub l2_table_capacity : ℕ
l2_table_capacity = 256

abbrev pub l2_arena_bytes : ℕ
l2_arena_bytes = l2_table_capacity * l2_table_bytes

abbrev pub l2_table_alignment : ℕ
l2_table_alignment = 64

abbrev pub total_page_count : ℕ
total_page_count = address_space_size / page_size

-- `VMM_Permission`
abbrev pub perm_none : ℕ
perm_none = 0

abbrev pub perm_r : ℕ
perm_r = 1

abbrev pub perm_w : ℕ
perm_w = 2

abbrev pub perm_rw : ℕ
perm_rw = 3

abbrev pub perm_rx : ℕ
perm_rx = 5

-- VMM_PERM_ALL, whose complement is empty exactly on the numbers up to it.
abbrev pub perm_all : ℕ
perm_all = 7

-- `VMM_Fault_Kind`
pub data FaultKind : Type 0 where
  no_fault out_of_range unmapped permission : FaultKind

-- `VMM_Fault`
pub record Fault : Type 0 where
  pub kind : FaultKind
  pub required_perms : ℕ
  pub gva : ℕ

-- `struct VMM_Context`, with the linear memory behind it.
pub record Context : Type 0 where
  pub l1 : ℕ → ℕ
  pub guest_ram_base : ℕ
  pub guest_ram_size : ℕ
  pub l2_arena : Arena
  pub l2_freelist : ℕ
  pub l2_free_count : ℕ
  pub l2_carved_count : ℕ
  pub l2_mapped_count : ℕ → ℕ
  pub last_fault : Fault
  pub tables : ℕ → ℕ → ℕ
  pub memory : ℕ → ℕ

-- `is_page_aligned`
abbrev pub is_page_aligned : ℕ → Bool
is_page_aligned value = value % page_size == 0

-- `is_valid_page_range`
unfoldable pub is_valid_page_range : ℕ → ℕ → Bool
is_valid_page_range gva size =
    is_page_aligned gva
    && is_page_aligned size
    && ltb 0 size
    && ltb gva address_space_size
    && leb size (address_space_size - gva)

-- `is_valid_byte_range`
unfoldable pub is_valid_byte_range : ℕ → ℕ → Bool
is_valid_byte_range gva size =
    ltb 0 size && ltb gva address_space_size && leb size (address_space_size - gva)

-- `l2_table_for_vpn`
abbrev pub l2_table_for_vpn : Context → ℕ → ℕ
l2_table_for_vpn ctx vpn = ctx.l1 (vpn / l2_entry_count)

-- `pte_load`
unfoldable pub pte_load : Context → ℕ → ℕ
pte_load ctx vpn =
    let l2 = l2_table_for_vpn ctx vpn in if l2 == 0 then 0 else ctx.tables l2 (vpn % l2_entry_count)

-- One entry of the table at `l2`.
abbrev pub write_entry : (ℕ → ℕ → ℕ) → ℕ → ℕ → ℕ → ℕ → ℕ → ℕ
write_entry tables l2 index value = update tables l2 (update (tables l2) index value)

-- `pte_store`
unfoldable pub pte_store : Context → ℕ → ℕ → Context
pte_store ctx vpn pte = record ctx {
  tables = write_entry ctx.tables (l2_table_for_vpn ctx vpn) (vpn % l2_entry_count) pte;
}

-- `make_pte`: the host page's offset with its low twelve bits cleared, joined with the three
-- permission bits. The two parts share no bit, so the bitwise or is a sum.
unfoldable pub make_pte : Context → ℕ → ℕ → ℕ
make_pte ctx guest_pa perms =
    let host = (ctx.guest_ram_base + guest_pa) % 2 ^ 64 in host / page_size * page_size + perms % 8

-- `l2_tables_available`; the carved tables never exceed the capacity.
abbrev pub l2_tables_available : Context → ℕ
l2_tables_available ctx = ctx.l2_free_count + (l2_table_capacity - ctx.l2_carved_count)

-- The second half of `l2_table_acquire`: a table is carved from the arena and zeroed. The abort on
-- NULL is `none`.
abbrev pub link_carved : Context → Option ℕ × Arena → Option (ℕ × Context)
link_carved ctx (none, arena) = none
link_carved ctx (some t, arena) = some (
  t,
  record ctx {
    l2_arena = arena;
    l2_carved_count = ctx.l2_carved_count + 1;
    tables = update ctx.tables t (λ _. 0);
  },
)

unfoldable pub carve_table : Context → Option (ℕ × Context)
carve_table ctx = link_carved ctx (arena_allocate ctx.l2_arena l2_table_bytes l2_table_alignment)

-- `l2_table_acquire`: the head of the freelist with its link cleared, else a fresh table.
unfoldable pub l2_table_acquire : Context → Option (ℕ × Context)
l2_table_acquire ctx =
    if ctx.l2_freelist == 0
    then if ltb ctx.l2_carved_count l2_table_capacity then carve_table ctx else none
    else some (
      ctx.l2_freelist,
      record ctx {
        l2_freelist = ctx.tables ctx.l2_freelist 0;
        l2_free_count = ctx.l2_free_count - 1;
        tables = write_entry ctx.tables ctx.l2_freelist 0 0;
      },
    )

-- `l2_table_release`
unfoldable pub l2_table_release : Context → ℕ → Context
l2_table_release ctx table = record ctx {
  l2_freelist = table;
  l2_free_count = ctx.l2_free_count + 1;
  tables = write_entry ctx.tables table 0 ctx.l2_freelist;
}

-- The loop of `count_absent_l2_slots`, over `n` slots from `i` on.
unfoldable pub count_absent : (ℕ → ℕ) → ℕ → ℕ → ℕ
count_absent l1 i zero = 0
count_absent l1 i (suc n) = (if l1 i == 0 then 1 else 0) + count_absent l1 (i + 1) n

-- `count_absent_l2_slots`
unfoldable pub count_absent_l2_slots : Context → ℕ → ℕ → ℕ
count_absent_l2_slots ctx gva size =
    let first = gva / page_size / l2_entry_count in
    let last = (gva + size - 1) / page_size / l2_entry_count in
    count_absent ctx.l1 first (last + 1 - first)

abbrev pub no_last_fault : Fault
no_last_fault = record { kind = FaultKind.no_fault; required_perms = 0; gva = 0 }

-- `vmm_create`: `live` is `g_vmm_live`, `block` the memory that `malloc` gives for the L2 arena, and
-- `memory` what linear memory holds. `none` is the NULL that the code returns (and logs).
unfoldable pub vmm_create : Option MemoryLayout → Bool → Option ℕ → (ℕ → ℕ) → Option Context
vmm_create none live block memory = none
vmm_create (some layout) true block memory = none
vmm_create (some layout) false block memory =
    elim (arena_create block (l2_arena_bytes + l2_table_alignment)) [
      | none ↦ none
      | some arena ↦ some (record {
        l1 = λ _. 0;
        guest_ram_base = layout.guest_ram_base;
        guest_ram_size = layout.ram_size;
        l2_arena = arena;
        l2_freelist = 0;
        l2_free_count = 0;
        l2_carved_count = 0;
        l2_mapped_count = λ _. 0;
        last_fault = no_last_fault;
        tables = λ _ _. 0;
        memory = memory;
      })
    ]

-- `vmm_destroy`: the L1 table is zeroed, the arena released, and the context cleared.
pub vmm_destroy : Context → Context
vmm_destroy ctx = record {
  l1 = λ _. 0;
  guest_ram_base = 0;
  guest_ram_size = 0;
  l2_arena = arena_destroy ctx.l2_arena;
  l2_freelist = 0;
  l2_free_count = 0;
  l2_carved_count = 0;
  l2_mapped_count = λ _. 0;
  last_fault = no_last_fault;
  tables = ctx.tables;
  memory = ctx.memory;
}
