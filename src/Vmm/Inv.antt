-- ===== src/Vmm/Inv.antt =====
-- The invariant of the page tables of core/common/vmm.c: the freelist, the live tables, the counts
-- and the arena agree. A freelist is a list of tables, each linked through its entry 0.
use voland.Base.{ℕ, ◌+◌, ◌*◌, ◌/◌, ◌%◌, ◌^◌, ◌≤◌, ◌<◌, ◌≡◌, ◌≢◌, arith}
use voland.Base.{List, [], ◌∷◌, length, All, Distinct, ◌==◌, if◌then◌else◌, nonzero}
use voland.Vmm.{
  Context, page_size, l2_entry_count, l1_entry_count, l2_table_bytes, l2_table_capacity,
  l2_arena_bytes, l2_table_alignment,
}

-- From `head` the links run through the tables of the list, which hold nothing else, and end at 0.
abbrev pub Chain : (ℕ → ℕ → ℕ) → ℕ → List ℕ → Type 0
Chain tables head [] = head ≡ 0
Chain tables head (t ∷ ts) =
    (head ≡ t)
    × (t ≢ 0)
    × ((j : ℕ) → 0 < j → j < l2_entry_count → tables t j ≡ 0)
    × Chain tables (tables t 0) ts

-- A write to a table off the list leaves the chain alone.
pub Chain-transfer :
    {tables after : ℕ → ℕ → ℕ} (x head : ℕ) (ts : List ℕ)
    → All (λ t. t ≢ x) ts
    → ((t : ℕ) → t ≢ x → (j : ℕ) → after t j ≡ tables t j)
    → Chain tables head ts
    → Chain after head ts
Chain-transfer x head [] off same c = c
Chain-transfer x head (t ∷ ts) off same c = (
  c.0,
  c.1,
  λ j p q. rw (same t off.0 j) (c.2 j p q),
  rw (same t off.0 0) (Chain-transfer x _ ts off.1 same c.3),
)

-- The end of what the arena has handed out.
abbrev pub arena_top : Context → ℕ
arena_top ctx = ctx.l2_arena.base + ctx.l2_arena.used_bytes

-- The arena holds exactly the carved tables, back to back, and has room for all that may follow.
pub record ArenaReady (ctx : Context) : Type 0 where
  pub placed : ctx.l2_arena.base ≢ 0
  pub used : ctx.l2_arena.used_bytes ≡ ctx.l2_carved_count * l2_table_bytes
  pub capacity : ctx.l2_arena.capacity_bytes ≡ l2_arena_bytes + l2_table_alignment
  pub carved : ctx.l2_carved_count ≤ l2_table_capacity
  pub no_wrap : ctx.l2_arena.base + ctx.l2_arena.capacity_bytes < 2 ^ 64

-- Guest RAM lies at whole pages below 2 ^ 64, and not at 0.
pub record RamPlaced (ctx : Context) : Type 0 where
  pub aligned : ctx.guest_ram_base % page_size ≡ 0
  pub placed : 0 < ctx.guest_ram_base
  pub no_wrap : ctx.guest_ram_base + ctx.guest_ram_size ≤ 2 ^ 64

-- The mapped pages of an L1 slot.
abbrev pub mapped_in : Context → ℕ → ℕ
mapped_in ctx i = if ctx.l1 i == 0 then 0 else nonzero (ctx.tables (ctx.l1 i)) l2_entry_count

-- The invariant, for the tables `free` of the freelist.
pub record IsSound (ctx : Context) (free : List ℕ) : Type 0 where
  pub chain : Chain ctx.tables ctx.l2_freelist free
  pub free_length : length free ≡ ctx.l2_free_count
  pub distinct : Distinct free
  pub live_once : (i j : ℕ) → ctx.l1 i ≢ 0 → ctx.l1 i ≡ ctx.l1 j → i ≡ j
  pub apart : (i : ℕ) → ctx.l1 i ≢ 0 → All (λ t. t ≢ ctx.l1 i) free
  pub live_below : (i : ℕ) → ctx.l1 i ≢ 0 → ctx.l1 i < arena_top ctx
  pub free_below : All (λ t. t < arena_top ctx) free
  pub arena : ArenaReady ctx
  pub ram : RamPlaced ctx
  pub counted : (i : ℕ) → ctx.l2_mapped_count i ≡ mapped_in ctx i
  pub budget : nonzero ctx.l1 l1_entry_count + ctx.l2_free_count ≡ ctx.l2_carved_count

-- Every table that a slot points to maps some page.
abbrev pub IsBusy : Context → Type 0
IsBusy ctx = (i : ℕ) → ctx.l1 i ≢ 0 → 0 < ctx.l2_mapped_count i

-- The invariant of a context between two calls.
pub record IsValid (ctx : Context) : Type 0 where
  pub free : List ℕ
  pub sound : IsSound ctx free
  pub busy : IsBusy ctx

-- An access to entry `v % 16384` of slot `v / 16384` is fixed by both numbers.
pub vpn_ext :
    (v w : ℕ)
    → v / l2_entry_count ≡ w / l2_entry_count
    → v % l2_entry_count ≡ w % l2_entry_count
    → v ≡ w
vpn_ext v w p q = omega arith
