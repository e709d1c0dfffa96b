-- ===== src/Vmm/Pool.antt =====
-- The pool of L2 tables of core/common/vmm.c: what `l2_table_acquire` hands out.
use voland.Base.{ℕ, ◌+◌, ◌-◌, ◌≤◌, ◌<◌, ◌≡◌, ◌≢◌, arith, false}
use voland.Base.{
  List, [], ◌∷◌, length, All, All-map, Distinct, ◌==◌, update, update_self, update_ne,
}
use voland.Base.{some, sym, ap, ◌∙◌, inl, inr, Bool-cases}
use voland.Arena.{Arena, arena_allocate, align_up}
use voland.Vmm.{
  Context, l2_entry_count, l2_table_bytes, l2_table_capacity, l2_table_alignment, l2_table_acquire,
  carve_table, link_carved, l2_tables_available, write_entry,
}
use voland.Vmm.Inv.{Chain, Chain-transfer, arena_top, ArenaReady, IsSound}

-- A context whose pool has changed.
abbrev pub taken : Context → Arena → ℕ → ℕ → ℕ → (ℕ → ℕ → ℕ) → Context
taken ctx arena freelist free_count carved tables = record ctx {
  l2_arena = arena;
  l2_freelist = freelist;
  l2_free_count = free_count;
  l2_carved_count = carved;
  tables = tables;
}

-- What is known of a table `t` just acquired: it is zero, belongs to nobody, and nothing else moved.
pub record Acquired (ctx c : Context) (t : ℕ) (free : List ℕ) : Type 0 where
  pub some_table : t ≢ 0
  pub unused : (i : ℕ) → ctx.l1 i ≢ 0 → ctx.l1 i ≢ t
  pub off_list : All (λ u. u ≢ t) free
  pub zeroed : (j : ℕ) → j < l2_entry_count → c.tables t j ≡ 0
  pub others : (u : ℕ) → u ≢ t → (j : ℕ) → c.tables u j ≡ ctx.tables u j
  pub chain : Chain c.tables c.l2_freelist free
  pub free_length : length free ≡ c.l2_free_count
  pub distinct : Distinct free
  pub below : t < arena_top c
  pub grows : arena_top ctx ≤ arena_top c
  pub free_below : All (λ u. u < arena_top c) free
  pub apart : (i : ℕ) → ctx.l1 i ≢ 0 → All (λ u. u ≢ ctx.l1 i) free
  pub arena : ArenaReady c
  pub budget : c.l2_free_count + ctx.l2_carved_count + 1 ≡ ctx.l2_free_count + c.l2_carved_count
  pub available : l2_tables_available c + 1 ≡ l2_tables_available ctx

ne_sym : {a b : ℕ} → a ≢ b → b ≢ a
ne_sym h e = h (sym e)

below-ne : (top : ℕ) (ts : List ℕ) → All (λ t. t < top) ts → All (λ t. t ≢ top) ts
below-ne top ts h = All-map (λ t lt. omega arith) ts h

-- The head of the freelist.
acquire_free :
    {ctx : Context} (t : ℕ) (ts : List ℕ)
    → IsSound ctx (t ∷ ts)
    → Acquired ctx
        (taken ctx ctx.l2_arena
          (ctx.tables t 0)
          (ctx.l2_free_count - 1)
          ctx.l2_carved_count
          (write_entry ctx.tables t 0 0))
        t
        ts
acquire_free {ctx} t ts s =
    let off : All (λ u. u ≢ t) ts = s.distinct.0 in
    let same : (u : ℕ) → u ≢ t → (j : ℕ) → write_entry ctx.tables t 0 0 u j ≡ ctx.tables u j =
      λ u ne j. rw (update_ne ctx.tables t (update (ctx.tables t) 0 0) u ne) in
    record {
      some_table = s.chain.1;
      unused = λ i live e. (s.apart i live).0 (sym e);
      off_list = off;
      zeroed = λ j lt. rw (update_self ctx.tables t (update (ctx.tables t) 0 0)) (first j lt);
      others = same;
      chain = Chain-transfer t _ ts off same s.chain.3;
      free_length = omega (arith, s.free_length);
      distinct = s.distinct.1;
      below = s.free_below.0;
      grows = omega arith;
      free_below = s.free_below.1;
      apart = λ i live. (s.apart i live).1;
      arena = omega (arith, s.arena);
      budget = omega (arith, s.free_length);
      available = omega (arith, s.free_length, s.arena);
    }
  where
    first : (j : ℕ) → j < l2_entry_count → update (ctx.tables t) 0 0 j ≡ 0
    first j lt = elim (Bool-cases (j == 0)) [
      | inl e ↦ rw e
      | inr e ↦ rw e (s.chain.2 j (ground arith) lt)
    ]

-- Below the capacity the arena gives the next table, at its cursor.
arena_gives :
    {ctx : Context}
    → ArenaReady ctx
    → ctx.l2_carved_count < l2_table_capacity
    → arena_allocate ctx.l2_arena l2_table_bytes l2_table_alignment ≡ (
      some (arena_top ctx),
      record ctx.l2_arena { used_bytes = ctx.l2_arena.used_bytes + l2_table_bytes },
    )
unfolding arena_allocate align_up
arena_gives {ctx} a room = ground (arith, a)

-- A table carved from the arena.
abbrev after_carve : Context → Context
after_carve ctx =
    taken ctx (record ctx.l2_arena { used_bytes = ctx.l2_arena.used_bytes + l2_table_bytes })
      ctx.l2_freelist ctx.l2_free_count (ctx.l2_carved_count + 1)
      (update ctx.tables (arena_top ctx) (λ _. 0))

acquire_carved :
    {ctx : Context} (free : List ℕ)
    → IsSound ctx free
    → ctx.l2_carved_count < l2_table_capacity
    → Acquired ctx (after_carve ctx) (arena_top ctx) free
acquire_carved {ctx} free s room =
    let a = s.arena in
    let t = arena_top ctx in
    let same : (u : ℕ) → u ≢ t → (j : ℕ) → update ctx.tables t (λ _. 0) u j ≡ ctx.tables u j =
      λ u ne j. rw (update_ne ctx.tables t (λ _. 0) u ne) in
    record {
      some_table = omega (arith, a);
      unused = λ i live e. omega (arith, s.live_below i live);
      off_list = below-ne t free s.free_below;
      zeroed = λ j lt. rw (update_self ctx.tables t (λ _. 0));
      others = same;
      chain = Chain-transfer t _ free (below-ne t free s.free_below) same s.chain;
      free_length = s.free_length;
      distinct = s.distinct;
      below = omega arith;
      grows = omega arith;
      free_below = All-map (λ u lt. omega arith) free s.free_below;
      apart = s.apart;
      arena = omega (arith, a);
      budget = omega arith;
      available = omega arith;
    }

acquire-empty :
    (ctx : Context)
    → ctx.l2_freelist ≡ 0
    → ctx.l2_carved_count < l2_table_capacity
    → l2_table_acquire ctx ≡ carve_table ctx
unfolding l2_table_acquire
acquire-empty ctx e lt = ground arith

acquire-head :
    (ctx : Context) (t : ℕ)
    → ctx.l2_freelist ≡ t
    → t ≢ 0
    → l2_table_acquire ctx
      ≡ some (
        t,
        taken ctx ctx.l2_arena
            (ctx.tables t 0)
            (ctx.l2_free_count - 1)
            ctx.l2_carved_count
            (write_entry ctx.tables t 0 0),
      )
unfolding l2_table_acquire
acquire-head ctx t e ne = let test : (ctx.l2_freelist == 0) ≡ false = ground arith in rw (← e, test)

abbrev after_head : Context → ℕ → Context
after_head ctx t =
    taken ctx ctx.l2_arena (ctx.tables t 0) (ctx.l2_free_count - 1) ctx.l2_carved_count
      (write_entry ctx.tables t 0 0)

-- What `l2_table_acquire` gives, at the context's own L1 table and counts.
pub record Acquisition (ctx : Context) : Type 0 where
  pub table : ℕ
  pub arena : Arena
  pub freelist : ℕ
  pub free_count : ℕ
  pub carved : ℕ
  pub tables : ℕ → ℕ → ℕ
  pub free : List ℕ

abbrev pub acquired_context : {ctx : Context} → Acquisition ctx → Context
acquired_context {ctx} q = taken ctx q.arena q.freelist q.free_count q.carved q.tables

-- With a table on the freelist or left to carve, `l2_table_acquire` does not abort: it gives a table
-- that is all zero and in nobody's use, and takes one off what is available.
pub l2_table_acquire_lem :
    {ctx : Context} (free : List ℕ)
    → IsSound ctx free
    → 0 < l2_tables_available ctx
    → (q : Acquisition ctx) × (l2_table_acquire ctx ≡ some (q.table, acquired_context q))
      × Acquired ctx (acquired_context q) q.table q.free
unfolding carve_table
l2_table_acquire_lem {ctx} [] s some_left =
    let room : ctx.l2_carved_count < l2_table_capacity = omega (arith, s.free_length) in
    (
      record {
        table = arena_top ctx;
        arena = (after_carve ctx).l2_arena;
        freelist = ctx.l2_freelist;
        free_count = ctx.l2_free_count;
        carved = ctx.l2_carved_count + 1;
        tables = (after_carve ctx).tables;
        free = [];
      },
      acquire-empty ctx s.chain room ∙ ap (link_carved ctx) (arena_gives s.arena room),
      acquire_carved [] s room,
    )
l2_table_acquire_lem {ctx} (t ∷ ts) s some_left = (
  record {
    table = t;
    arena = ctx.l2_arena;
    freelist = ctx.tables t 0;
    free_count = ctx.l2_free_count - 1;
    carved = ctx.l2_carved_count;
    tables = (after_head ctx t).tables;
    free = ts;
  },
  acquire-head ctx t s.chain.0 s.chain.1,
  acquire_free t ts s,
)
