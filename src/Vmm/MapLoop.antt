-- ===== src/Vmm/MapLoop.antt =====
-- The commit loop of `vmm_map` (core/common/vmm.c): it never runs out of tables, and maps exactly the
-- pages of its range.
use voland.Base.{ℕ, zero, suc, ◌+◌, ◌-◌, ◌*◌, ◌/◌, ◌%◌, ◌^◌, ◌≤◌, ◌<◌, ◌≡◌, ◌≢◌, refl, arith, Bool}
use voland.Base.{List, ◌==◌, ltb, leb, ◌&&◌, if◌then◌else◌, update_self, update_ne}
use voland.Base.{some, ap, ap₂, ◌∙◌, inl, inr, eq_cases}
use voland.Vmm.{
  Context, page_size, l2_entry_count, l2_tables_available, pte_load, pte_store, make_pte,
  total_page_count, count_absent,
}
use voland.Vmm.Inv.{IsSound, IsBusy, IsValid}
use voland.Vmm.Map.{ensure_table, enter_page, map_pages}
use voland.Vmm.MapInv.{Ensured, ensure_table_lem, enter_page-IsSound, enter_page-pte_load}

-- The slots without a table among those of `n` pages from `vpn` on.
abbrev pub needed : (ℕ → ℕ) → ℕ → ℕ → ℕ
needed l1 vpn zero = 0
needed l1 vpn (suc n) =
    count_absent l1 (vpn / l2_entry_count) ((vpn + n) / l2_entry_count + 1 - vpn / l2_entry_count)

-- What one round leaves.
pub record Entered (ctx c : Context) (vpn pa perms : ℕ) : Type 0 where
  pub free : List ℕ
  pub sound : IsSound c free
  pub busy : IsBusy c
  pub present : c.l1 (vpn / l2_entry_count) ≢ 0
  pub others : (i : ℕ) → i ≢ vpn / l2_entry_count → c.l1 i ≡ ctx.l1 i
  pub pages : (w : ℕ) → pte_load c w ≡ (if w == vpn then make_pte ctx pa perms else pte_load ctx w)
  pub available :
      l2_tables_available c + (if ctx.l1 (vpn / l2_entry_count) == 0 then 1 else 0)
      ≡ l2_tables_available ctx
  pub ram_base : c.guest_ram_base ≡ ctx.guest_ram_base
  pub ram_size : c.guest_ram_size ≡ ctx.guest_ram_size
  pub memory : c.memory ≡ ctx.memory

make_pte-ext :
    (c ctx : Context) (pa perms : ℕ)
    → c.guest_ram_base ≡ ctx.guest_ram_base
    → make_pte c pa perms ≡ make_pte ctx pa perms
unfolding make_pte
make_pte-ext c ctx pa perms e = ap (λ b. (b + pa) % 2 ^ 64 / page_size * page_size + perms % 8) e

map_page_lem :
    {ctx : Context} (free : List ℕ) (vpn pa perms : ℕ)
    → IsSound ctx free
    → IsBusy ctx
    → vpn < total_page_count
    → pte_load ctx vpn ≡ 0
    → pa % page_size ≡ 0
    → pa < ctx.guest_ram_size
    → (ctx.l1 (vpn / l2_entry_count) ≡ 0 → 0 < l2_tables_available ctx)
    → (c : Context) × (ensure_table ctx vpn ≡ some c)
      × Entered ctx (enter_page c vpn pa perms) vpn pa perms
unfolding enter_page pte_store
map_page_lem {ctx} free vpn pa perms s busy lt empty aligned inside room =
    let (c, e, got) = ensure_table_lem free vpn s lt room in
    let base = make_pte-ext c ctx pa perms got.ram_base in
    (
      c,
      e,
      record {
        free = got.free;
        sound =
            enter_page-IsSound got.free vpn pa perms got.sound got.present
              (got.same_pages vpn ∙ empty) aligned (omega (arith, got.ram_size));
        busy = still_busy c got;
        present = got.present;
        others = got.others;
        pages = λ w.
            enter_page-pte_load got.free vpn pa perms w got.sound got.present
            ∙ (ground (arith, base, got.same_pages w));
        available = got.available;
        ram_base = got.ram_base;
        ram_size = got.ram_size;
        memory = got.memory;
      },
    )
  where
    still_busy : (c : Context) → Ensured ctx c vpn → IsBusy (enter_page c vpn pa perms)
    still_busy c got i live = elim (eq_cases i (vpn / l2_entry_count)) [
      | inl a ↦ rw (a, update_self c.l2_mapped_count (vpn / l2_entry_count) _) (omega arith)
      | inr a ↦
          rw (update_ne c.l2_mapped_count (vpn / l2_entry_count) _ i a, got.counts)
            (busy i (λ z. live (got.others i a ∙ z)))
    ]

count_absent-ext :
    (f g : ℕ → ℕ) (i n : ℕ)
    → ((j : ℕ) → i ≤ j → f j ≡ g j)
    → count_absent f i n ≡ count_absent g i n
unfolding count_absent
count_absent-ext f g i zero h = refl
count_absent-ext f g i (suc n) h = rw (h i (omega arith)) (
    ap (λ k. (if g i == 0 then 1 else 0) + k)
      (count_absent-ext f g (i + 1) n (λ j le. h j (omega arith))))

count_absent-cons :
    (f : ℕ → ℕ) (i n : ℕ)
    → 0 < n
    → count_absent f i n ≡ (if f i == 0 then 1 else 0) + count_absent f (i + 1) (n - 1)
unfolding count_absent
count_absent-cons f i zero h = elim h [ ]
count_absent-cons f i (suc n) h =
    ap (λ k. (if f i == 0 then 1 else 0) + count_absent f (i + 1) k) (omega arith)

-- After a round the slots still needed have dropped by the one that it filled.
needed_step :
    (f g : ℕ → ℕ) (vpn n : ℕ)
    → g (vpn / l2_entry_count) ≢ 0
    → ((i : ℕ) → i ≢ vpn / l2_entry_count → g i ≡ f i)
    → needed g (vpn + 1) n + (if f (vpn / l2_entry_count) == 0 then 1 else 0) ≤ needed f vpn (suc n)
needed_step f g vpn zero present others = omega (
  arith,
  count_absent-cons f (vpn / l2_entry_count) ((vpn + 0) / l2_entry_count + 1 - vpn / l2_entry_count)
      (omega arith),
)
needed_step f g vpn (suc n) present others =
    let first = vpn / l2_entry_count in
    let k = (vpn + suc n) / l2_entry_count + 1 - first in
    let tail : count_absent g (first + 1) (k - 1) ≡ count_absent f (first + 1) (k - 1) =
      count_absent-ext g f (first + 1) (k - 1) (λ j le. others j (omega arith)) in
    let whole = count_absent-cons f first k (omega arith) in
    elim (eq_cases ((vpn + 1) / l2_entry_count) first) [
      | inl same ↦
          let at : needed g (vpn + 1) (suc n) ≡ count_absent g first k =
            ap₂ (count_absent g) same (omega arith) in
          ground (arith, at, count_absent-cons g first k (omega arith), tail, whole)
      | inr next ↦
          let at : needed g (vpn + 1) (suc n) ≡ count_absent g (first + 1) (k - 1) =
            ap₂ (count_absent g) (omega arith) (omega arith) in
          ground (arith, at, tail, whole)
    ]

-- Whether a page lies in a range of `n` pages.
abbrev pub in_range : ℕ → ℕ → ℕ → Bool
in_range vpn n w = leb vpn w && ltb w (vpn + n)

-- What the loop leaves: the invariant, and exactly the pages of the range mapped, in order.
pub record MappedPages (ctx c : Context) (vpn pa perms n : ℕ) : Type 0 where
  pub valid : IsValid c
  pub pages :
      (w : ℕ)
      → pte_load c w ≡ (
          if in_range vpn n w
          then make_pte ctx (pa + (w - vpn) * page_size) perms
          else pte_load ctx w)
  pub ram_base : c.guest_ram_base ≡ ctx.guest_ram_base
  pub ram_size : c.guest_ram_size ≡ ctx.guest_ram_size
  pub memory : c.memory ≡ ctx.memory

pages_step :
    (ctx d : Context) (vpn pa perms n w : ℕ)
    → d.guest_ram_base ≡ ctx.guest_ram_base
    → pte_load d w ≡ (if w == vpn then make_pte ctx pa perms else pte_load ctx w)
    → (if in_range (vpn + 1) n w
        then make_pte d (pa + page_size + (w - (vpn + 1)) * page_size) perms
        else pte_load d w)
      ≡ (if in_range vpn (suc n) w
          then make_pte ctx (pa + (w - vpn) * page_size) perms
          else pte_load ctx w)
pages_step ctx d vpn pa perms n w base at =
    ground (arith, make_pte-ext d ctx (pa + page_size + (w - (vpn + 1)) * page_size) perms base)

-- With every page of the range unmapped, and a table available for each slot that needs one, the
-- commit loop does not abort.
pub map_pages_lem :
    (n : ℕ) {ctx : Context} (vpn pa perms : ℕ)
    → IsValid ctx
    → vpn + n ≤ total_page_count
    → ((w : ℕ) → vpn ≤ w → w < vpn + n → pte_load ctx w ≡ 0)
    → pa % page_size ≡ 0
    → pa + n * page_size ≤ ctx.guest_ram_size
    → needed ctx.l1 vpn n ≤ l2_tables_available ctx
    → (c : Context) × (map_pages ctx vpn pa perms n ≡ some c) × MappedPages ctx c vpn pa perms n
unfolding map_pages
map_pages_lem zero {ctx} vpn pa perms v lt empty aligned inside enough = (
  ctx,
  refl,
  record { valid = v; pages = λ w. ground arith; ram_base = refl; ram_size = refl; memory = refl },
)
map_pages_lem (suc n) {ctx} vpn pa perms v lt empty aligned inside enough =
    let first = vpn / l2_entry_count in
    let k = (vpn + n) / l2_entry_count + 1 - first in
    let room : ctx.l1 first ≡ 0 → 0 < l2_tables_available ctx =
      λ z. ground (arith, count_absent-cons ctx.l1 first k (omega arith)) in
    let (c, e, got) =
      map_page_lem v.free vpn pa perms v.sound v.busy (omega arith)
        (empty vpn (omega arith) (omega arith)) aligned (omega arith) room in
    let d = enter_page c vpn pa perms in
    let step = needed_step ctx.l1 d.l1 vpn n got.present got.others in
    let valid : IsValid d = record { free = got.free; sound = got.sound; busy = got.busy } in
    let (f, run, rest) =
      map_pages_lem n {ctx = d} (vpn + 1) (pa + page_size) perms valid (omega arith)
        (λ w low high. got.pages w ∙ (ground (arith, empty w (omega arith) (omega arith))))
        (omega arith) (omega (arith, got.ram_size)) (omega (arith, step, got.available)) in
    (
      f,
      rw (e, map_pages) run,
      record {
        valid = rest.valid;
        pages = λ w. rest.pages w ∙ pages_step ctx d vpn pa perms n w got.ram_base (got.pages w);
        ram_base = rest.ram_base ∙ got.ram_base;
        ram_size = rest.ram_size ∙ got.ram_size;
        memory = rest.memory ∙ got.memory;
      },
    )
