-- ===== src/Vmm/MapInv.antt =====
-- One round of the commit loop of `vmm_map` (core/common/vmm.c) keeps the invariant.
use voland.Base.{ℕ, ◌+◌, ◌/◌, ◌%◌, ◌<◌, ◌≡◌, ◌≢◌, refl, arith, true, false}
use voland.Base.{
  List, All, ◌==◌, if◌then◌else◌, nonzero, flag, flag_pos, update, update_self, update_ne,
}
use voland.Base.{
  some, sym, ap, ◌∙◌, inl, inr, ==_iff, eq_cases, nonzero-update, nonzero_of_zero, nonzero_ext,
}
use voland.Vmm.{
  Context, page_size, l2_entry_count, l1_entry_count, l2_tables_available, pte_load, pte_store,
  make_pte, total_page_count,
}
use voland.Vmm.Inv.{arena_top, IsSound, mapped_in}
use voland.Vmm.Pool.{Acquired, Acquisition, acquired_context, l2_table_acquire_lem}
use voland.Vmm.Pte.{make_pte_fields, pte_load-pte_store}
use voland.Vmm.Map.{ensure_table, enter_page}
use voland.Vmm.Store.{stored-IsSound}

module _ {ctx : Context} (free : List ℕ) (s : IsSound ctx free) where
  -- The context after `l1[index] = l2_table_acquire(ctx)`.
  abbrev linked : Acquisition ctx → ℕ → Context
  linked q index = record (acquired_context q) { l1 = update ctx.l1 index q.table }

  module _ (q : Acquisition ctx) (got : Acquired ctx (acquired_context q) q.table q.free)
      (index : ℕ) (absent : ctx.l1 index ≡ 0) where
    abbrev t : ℕ
    t = q.table

    at_index : (i : ℕ) → i ≡ index → (linked q index).l1 i ≡ t
    at_index i e = rw (e, update_self ctx.l1 index t)

    off_index : (i : ℕ) → i ≢ index → (linked q index).l1 i ≡ ctx.l1 i
    off_index i ne = rw (update_ne ctx.l1 index t i ne)

    linked-live_once :
        (i j : ℕ)
        → (linked q index).l1 i ≢ 0
        → (linked q index).l1 i ≡ (linked q index).l1 j
        → i ≡ j
    linked-live_once i j live e = elim (eq_cases i index) [
      | inl a ↦ elim (eq_cases j index) [
        | inl b ↦ a ∙ sym b
        | inr b ↦
            let same : ctx.l1 j ≡ t = sym (off_index j b) ∙ sym e ∙ at_index i a in
            absurd (got.unused j (λ z. got.some_table (sym same ∙ z)) same)
      ]
      | inr a ↦ elim (eq_cases j index) [
        | inl b ↦
            let same : ctx.l1 i ≡ t = sym (off_index i a) ∙ e ∙ at_index j b in
            absurd (got.unused i (λ z. got.some_table (sym same ∙ z)) same)
        | inr b ↦
            s.live_once i j (λ z. live (off_index i a ∙ z))
              (sym (off_index i a) ∙ e ∙ off_index j b)
      ]
    ]

    linked-apart : (i : ℕ) → (linked q index).l1 i ≢ 0 → All (λ u. u ≢ (linked q index).l1 i) q.free
    linked-apart i live = elim (eq_cases i index) [
      | inl a ↦ rw (at_index i a) got.off_list
      | inr a ↦ rw (off_index i a) (got.apart i (λ z. live (off_index i a ∙ z)))
    ]

    linked-live_below :
        (i : ℕ) → (linked q index).l1 i ≢ 0 → (linked q index).l1 i < arena_top (linked q index)
    linked-live_below i live = elim (eq_cases i index) [
      | inl a ↦ rw (at_index i a) got.below
      | inr a ↦
          rw (off_index i a)
            (omega (arith, s.live_below i (λ z. live (off_index i a ∙ z)), got.grows))
    ]

    linked-counted : (i : ℕ) → ctx.l2_mapped_count i ≡ mapped_in (linked q index) i
    linked-counted i = elim (eq_cases i index) [
      | inl a ↦
          let new : nonzero (q.tables t) l2_entry_count ≡ 0 =
            nonzero_of_zero (q.tables t) l2_entry_count got.zeroed in
          let old : ctx.l1 i ≡ 0 = ap ctx.l1 a ∙ absent in
          ground (arith, new, s.counted i, got.some_table)
      | inr a ↦ elim (eq_cases (ctx.l1 i) 0) [
        | inl z ↦ ground (arith, s.counted i)
        | inr z ↦
            let kept : nonzero (q.tables (ctx.l1 i)) l2_entry_count
                ≡ nonzero (ctx.tables (ctx.l1 i)) l2_entry_count =
              nonzero_ext _ _ l2_entry_count (got.others (ctx.l1 i) (got.unused i z)) in
            ground (arith, s.counted i, kept)
      ]
    ]

    linked-IsSound : index < l1_entry_count → IsSound (linked q index) q.free
    linked-IsSound lt = record {
      chain = got.chain;
      free_length = got.free_length;
      distinct = got.distinct;
      live_once = linked-live_once;
      apart = linked-apart;
      live_below = linked-live_below;
      free_below = got.free_below;
      arena = omega (arith, got.arena);
      ram = omega (arith, s.ram);
      counted = linked-counted;
      budget = omega (
        arith,
        nonzero-update ctx.l1 index t l1_entry_count lt,
        ap flag absent,
        flag_pos t got.some_table,
        got.budget,
        s.budget,
      );
    }

    -- Linking an empty table maps nothing and unmaps nothing.
    linked-pte_load : (v : ℕ) → pte_load (linked q index) v ≡ pte_load ctx v
    unfolding pte_load
    linked-pte_load v =
        let i = v / l2_entry_count in
        elim (eq_cases i index) [
          | inl a ↦
              let old : ctx.l1 i ≡ 0 = ap ctx.l1 a ∙ absent in
              ground (arith, got.zeroed (v % l2_entry_count) (omega arith))
          | inr a ↦ elim (eq_cases (ctx.l1 i) 0) [
            | inl z ↦ ground arith
            | inr z ↦ ground (arith, got.others (ctx.l1 i) (got.unused i z) (v % l2_entry_count))
          ]
        ]

-- What giving a slot its table leaves: the invariant, every mapping, and one table fewer available if
-- the slot had none.
pub record Ensured (ctx c : Context) (vpn : ℕ) : Type 0 where
  pub free : List ℕ
  pub sound : IsSound c free
  pub present : c.l1 (vpn / l2_entry_count) ≢ 0
  pub others : (i : ℕ) → i ≢ vpn / l2_entry_count → c.l1 i ≡ ctx.l1 i
  pub same_pages : (v : ℕ) → pte_load c v ≡ pte_load ctx v
  pub available :
      l2_tables_available c + (if ctx.l1 (vpn / l2_entry_count) == 0 then 1 else 0)
      ≡ l2_tables_available ctx
  pub counts : c.l2_mapped_count ≡ ctx.l2_mapped_count
  pub ram_base : c.guest_ram_base ≡ ctx.guest_ram_base
  pub ram_size : c.guest_ram_size ≡ ctx.guest_ram_size
  pub memory : c.memory ≡ ctx.memory

-- With a table available, or one present, `ensure_table` does not abort.
pub ensure_table_lem :
    {ctx : Context} (free : List ℕ) (vpn : ℕ)
    → IsSound ctx free
    → vpn < total_page_count
    → (ctx.l1 (vpn / l2_entry_count) ≡ 0 → 0 < l2_tables_available ctx)
    → (c : Context) × (ensure_table ctx vpn ≡ some c) × Ensured ctx c vpn
unfolding ensure_table
ensure_table_lem {ctx} free vpn s lt room = elim (eq_cases (ctx.l1 (vpn / l2_entry_count)) 0) [
  | inl absent ↦
      let index = vpn / l2_entry_count in
      let (q, e, got) = l2_table_acquire_lem free s (room absent) in
      let test : (ctx.l1 index == 0) ≡ true = (==_iff _ _).1 absent in
      (
        linked free s q index,
        rw (test, e, ensure_table),
        record {
          free = q.free;
          sound = linked-IsSound free s q got index absent (omega arith);
          present = λ z. got.some_table (sym (at_index free s q got index absent index refl) ∙ z);
          others = off_index free s q got index absent;
          same_pages = linked-pte_load free s q got index absent;
          available = rw test got.available;
          counts = refl;
          ram_base = refl;
          ram_size = refl;
          memory = refl;
        },
      )
  | inr present ↦
      let index = vpn / l2_entry_count in
      let test : (ctx.l1 index == 0) ≡ false = ground arith in
      (
        ctx,
        rw (test, ensure_table),
        record {
          free = free;
          sound = s;
          present = present;
          others = λ i ne. refl;
          same_pages = λ v. refl;
          available = ground arith;
          counts = refl;
          ram_base = refl;
          ram_size = refl;
          memory = refl;
        },
      )
]

-- What entering a page leaves: the invariant, and the page mapped with all others as before.
pub enter_page-IsSound :
    {ctx : Context} (free : List ℕ) (vpn pa perms : ℕ)
    → IsSound ctx free
    → ctx.l1 (vpn / l2_entry_count) ≢ 0
    → pte_load ctx vpn ≡ 0
    → pa % page_size ≡ 0
    → pa < ctx.guest_ram_size
    → IsSound (enter_page ctx vpn pa perms) free
unfolding enter_page pte_store
enter_page-IsSound {ctx} free vpn pa perms s live empty aligned lt =
    let index = vpn / l2_entry_count in
    let pte = make_pte ctx pa perms in
    let counts = update ctx.l2_mapped_count index (ctx.l2_mapped_count index + 1) in
    let set = make_pte_fields ctx pa perms s.ram aligned lt in
    stored-IsSound free s vpn pte counts live
      (omega (
        arith,
        ap flag empty,
        flag_pos pte set.2,
        update_self ctx.l2_mapped_count index (ctx.l2_mapped_count index + 1),
      ))
      (λ i ne. update_ne ctx.l2_mapped_count index (ctx.l2_mapped_count index + 1) i ne)

pub enter_page-pte_load :
    {ctx : Context} (free : List ℕ) (vpn pa perms w : ℕ)
    → IsSound ctx free
    → ctx.l1 (vpn / l2_entry_count) ≢ 0
    → pte_load (enter_page ctx vpn pa perms) w
      ≡ (if w == vpn then make_pte ctx pa perms else pte_load ctx w)
unfolding enter_page pte_load pte_store
enter_page-pte_load {ctx} free vpn pa perms w s live =
    pte_load-pte_store ctx vpn (make_pte ctx pa perms) w live s.live_once
