-- ===== src/Hle/SvcMemory/Alias/Lend.antt =====
-- What `hle_svc_map_memory` of core/hle/kernel/svc_memory.c does, on every branch.
use voland.Base.{ℕ, ◌+◌, ◌-◌, ◌*◌, ◌/◌, ◌%◌, ◌^◌, ◌≤◌, ◌<◌, ◌≡◌, ◌≢◌, refl, arith, true}
use voland.Base.{if◌then◌else◌, ◌⊎◌, inl, inr, Bool-cases, ◌∙◌, sym}
use voland.Base.{Option, none, some, [], ◌∷◌, ◌++◌, update, ◌>>=◌}
use voland.Result.{Code, Res, ok, err, out_of_memory}
use voland.Vmm.{Context, page_size, address_space_size, pte_load, make_pte, perm_none, perm_rw}
use voland.Vmm.Map.{vmm_map, vmm_reprotect, set_perms}
use voland.Vmm.MapLoop.{in_range, MappedPages}
use voland.Vmm.Mapping.{Mapped, MapArguments, vmm_map_lem}
use voland.Vmm.UnmapInv.{Changed, replaced}
use voland.Vmm.Unmapping.{IsBacked, RangeMapped, mapping_calls-IsBacked}
use voland.Vmm.Ranges.{AllUnmapped}
use voland.Vmm.Pte.{set_perms_fields}
use voland.Vmm.Steps.{vmm_reprotect-succeeds}
use voland.Hle.{HleContext, answer, result_success, result_out_of_memory}
use voland.Hle.SvcMemory.{asserted}
use voland.Hle.SvcMemory.Alias.{map_alias, alias_mapped, with_borrows}

-- A page of the heap region is open to the guest for reading and writing, or lent.
abbrev pub IsHeapPage : ℕ → Type 0
IsHeapPage pte = (pte % page_size ≡ perm_rw) ⊎ (pte % page_size ≡ perm_none)

abbrev pub HeapPages : HleContext → Type 0
HeapPages context =
    (w : ℕ)
    → context.process.address_space.heap.base ≤ w * page_size
    → w * page_size
      < context.process.address_space.heap.base + context.process.address_space.heap.size
    → pte_load context.vmm w ≢ 0
    → IsHeapPage (pte_load context.vmm w)

-- The pages of `size` bytes at `src` stand behind `dst`, open, and at `src`, closed.
abbrev pub lent_pages : Context → ℕ → ℕ → ℕ → ℕ → ℕ
lent_pages vmm dst src size w =
    let old = λ (v : ℕ). pte_load vmm v in
    if in_range (dst / page_size) (size / page_size) w
    then set_perms (old (src / page_size + (w - dst / page_size))) perm_rw
    else if in_range (src / page_size) (size / page_size) w
    then set_perms (old w) perm_none
    else old w

-- The source: whole pages, each mapped for reading and writing, backed by adjacent pages of guest
-- RAM from `pa` on.
pub record IsSource (vmm : Context) (src size pa : ℕ) : Type 0 where
  pub src_aligned : src % page_size ≡ 0
  pub size_aligned : size % page_size ≡ 0
  pub nonempty : 0 < size
  pub in_space : src + size ≤ address_space_size
  pub open_pages :
      (i : ℕ)
      → i < size / page_size
      → (pte_load vmm (src / page_size + i) % page_size ≡ perm_rw)
        × (pte_load vmm (src / page_size + i) / page_size * page_size
            ≡ vmm.guest_ram_base + pa + i * page_size)

module _ {vmm : Context} (v : IsBacked vmm) {src size pa : ℕ} (s : IsSource vmm src size pa) where
  pub source_page :
      (w : ℕ)
      → src / page_size ≤ w
      → w < src / page_size + size / page_size
      → (pte_load vmm w % page_size ≡ perm_rw)
        × (pte_load vmm w / page_size * page_size
            ≡ vmm.guest_ram_base + pa + (w - src / page_size) * page_size)
  source_page w low high =
      let at : src / page_size + (w - src / page_size) ≡ w = omega arith in
      rw at at (s.open_pages (w - src / page_size) (omega arith))

  source-RangeMapped : RangeMapped vmm src size
  source-RangeMapped = record {
    gva_aligned = s.src_aligned;
    size_aligned = s.size_aligned;
    nonempty = s.nonempty;
    in_space = s.in_space;
    mapped = λ w low high. ground (arith, source_page w low high);
  }

  source-aligned : pa % page_size ≡ 0
  source-aligned = omega (arith, s.open_pages 0 (omega (arith, s)), v.valid.sound.ram)

-- A call that lent the range: the pages stand behind `dst`, the borrow is recorded, and nothing else
-- has changed.
pub record IsLent (context d : HleContext) (dst src size : ℕ) : Type 0 where
  pub pa : ℕ
  pub source : IsSource context.vmm src size pa
  pub backed : IsBacked d.vmm
  pub fresh : AllUnmapped context.vmm (dst / page_size) (size / page_size)
  pub dst_aligned : dst % page_size ≡ 0
  pub dst_in_space : dst + size ≤ address_space_size
  pub pages : (w : ℕ) → pte_load d.vmm w ≡ lent_pages context.vmm dst src size w
  pub memory : d.vmm.memory ≡ context.vmm.memory
  pub frame : d ≡ record context {
    vmm = d.vmm;
    process = record context.process {
      heap_borrows =
          context.process.heap_borrows
          ++ (record { dst_base = dst; src_base = src; size = size } ∷ []);
    };
    x = update context.x 0 result_success;
  }

-- A call that did not: X0 has an error, and every page and all else is as it was.
pub record IsRefused (context d : HleContext) : Type 0 where
  pub code : d.x 0 ≢ result_success
  pub backed : IsBacked d.vmm
  pub pages : (w : ℕ) → pte_load d.vmm w ≡ pte_load context.vmm w
  pub memory : d.vmm.memory ≡ context.vmm.memory
  pub frame : d ≡ record context { vmm = d.vmm; x = update context.x 0 (d.x 0) }

abbrev pub LendOutcome : HleContext → ℕ → ℕ → ℕ → Option HleContext → Type 0
LendOutcome context dst src size r =
    (d : HleContext) × (r ≡ some d) × (IsLent context d dst src size ⊎ IsRefused context d)

pub set_perms_twice : (pte a b : ℕ) → set_perms (set_perms pte a) b ≡ set_perms pte b
unfolding set_perms
set_perms_twice pte a b = omega arith

pub set_perms_same : (pte : ℕ) → pte % page_size ≡ perm_rw → set_perms pte perm_rw ≡ pte
unfolding set_perms
set_perms_same pte e = omega arith

make_pte_open :
    (vmm : Context) (pa pte : ℕ)
    → pte / page_size * page_size ≡ vmm.guest_ram_base + pa
    → vmm.guest_ram_base + pa < 2 ^ 64
    → make_pte vmm pa perm_rw ≡ set_perms pte perm_rw
unfolding make_pte set_perms
make_pte_open vmm pa pte e lt = omega arith

module _ (context : HleContext) (v : IsBacked context.vmm) (dst src size pa : ℕ)
    (s : IsSource context.vmm src size pa) where
  abbrev borrowed : Context → HleContext
  borrowed vmm =
      answer
        (with_borrows (record context { vmm = vmm })
          (context.process.heap_borrows
            ++ (record { dst_base = dst; src_base = src; size = size } ∷ [])))
        result_success

  -- The alias is mapped.
  mapped-IsLent :
      (hidden c : Context)
      → Changed context.vmm hidden (
          replaced
            (src / page_size)
            (size / page_size)
            (λ w. set_perms (pte_load context.vmm w) perm_none)
            (pte_load context.vmm))
      → IsBacked c
      → MapArguments hidden dst pa size perm_rw
      → MappedPages hidden c (dst / page_size) pa perm_rw (size / page_size)
      → IsLent context (borrowed c) dst src size
  mapped-IsLent hidden c h b m got = record {
    pa = pa;
    source = s;
    backed = b;
    fresh = λ w low high. fresh_at w (h.pages w) (m.fresh w low high);
    dst_aligned = m.gva_aligned;
    dst_in_space = m.in_space;
    pages = λ w. page_at w;
    memory = got.memory ∙ h.memory;
    frame = refl;
  }
    where
      fresh_at :
          (w : ℕ)
          → pte_load hidden w ≡ (
              if in_range (src / page_size) (size / page_size) w
              then set_perms (pte_load context.vmm w) perm_none
              else pte_load context.vmm w)
          → pte_load hidden w ≡ 0
          → pte_load context.vmm w ≡ 0
      fresh_at w e z = elim (Bool-cases (in_range (src / page_size) (size / page_size) w)) [
        | inr off ↦ sym (rw off at e) ∙ z
        | inl on ↦
            let p = source_page v s w (ground arith) (ground arith) in
            let f = set_perms_fields (pte_load context.vmm w) perm_none in
            absurd (omega (arith, rw on at e, p, f, v.valid.sound.ram))
      ]

      page_at : (w : ℕ) → pte_load c w ≡ lent_pages context.vmm dst src size w
      page_at w = elim (Bool-cases (in_range (dst / page_size) (size / page_size) w)) [
        | inr off ↦ rw off (rw off at (got.pages w) ∙ h.pages w)
        | inl on ↦
            let i = w - dst / page_size in
            let below : i < size / page_size = ground arith in
            let open_page = (s.open_pages i below).1 in
            rw on (
              rw on at (got.pages w)
              ∙ make_pte_open hidden (pa + i * page_size) _ (omega (arith, h.ram_base, open_page))
                  (omega (arith, h.ram_base, h.ram_size, m, v.valid.sound.ram)))
      ]

  abbrev Hidden : Context → Type 0
  Hidden hidden = Changed context.vmm hidden (
      replaced (src / page_size) (size / page_size)
        (λ w. set_perms (pte_load context.vmm w) perm_none) (pte_load context.vmm))

  reprotected-RangeMapped : (hidden : Context) → Hidden hidden → RangeMapped hidden src size
  reprotected-RangeMapped hidden h = record {
    gva_aligned = s.src_aligned;
    size_aligned = s.size_aligned;
    nonempty = s.nonempty;
    in_space = s.in_space;
    mapped = λ w low high z. still_mapped w low high z;
  }
    where
      still_mapped :
          (w : ℕ)
          → src / page_size ≤ w
          → w < src / page_size + size / page_size
          → pte_load hidden w ≢ 0
      still_mapped w low high z =
          let on : in_range (src / page_size) (size / page_size) w ≡ true = ground arith in
          let p = source_page v s w low high in
          let f = set_perms_fields (pte_load context.vmm w) perm_none in
          omega (arith, rw on at (h.pages w), p, f, v.valid.sound.ram)

  -- The rollback opens the source again.
  undone-IsRefused :
      (hidden c : Context)
      → Hidden hidden
      → Changed hidden c (
          replaced
            (src / page_size)
            (size / page_size)
            (λ w. set_perms (pte_load hidden w) perm_rw)
            (pte_load hidden))
      → IsBacked c
      → IsRefused context (answer (record context { vmm = c }) result_out_of_memory)
  undone-IsRefused hidden c h u b = record {
    code = omega arith;
    backed = b;
    pages = λ w. page_at w;
    memory = u.memory ∙ h.memory;
    frame = refl;
  }
    where
      page_at : (w : ℕ) → pte_load c w ≡ pte_load context.vmm w
      page_at w = elim (Bool-cases (in_range (src / page_size) (size / page_size) w)) [
        | inr off ↦ rw off at (u.pages w) ∙ rw off at (h.pages w)
        | inl on ↦
            let p = source_page v s w (ground arith) (ground arith) in
            let closed : pte_load hidden w ≡ set_perms (pte_load context.vmm w) perm_none =
              rw on at (h.pages w) in
            rw on at (u.pages w)
            ∙ rw closed (
                set_perms_twice (pte_load context.vmm w) perm_none perm_rw
                ∙ set_perms_same (pte_load context.vmm w) p.0)
      ]

  pub map_alias_lem : LendOutcome context dst src size (map_alias context dst src size pa)
  unfolding map_alias
  map_alias_lem =
      let (hidden, e, h) =
        vmm_reprotect-succeeds context.vmm src size perm_none v (source-RangeMapped v s)
          (omega arith) in
      let hb = rw e at (mapping_calls-IsBacked context.vmm src pa size perm_none v).2 in
      rw e (
        go hidden h hb (vmm_map hidden dst pa size perm_rw) refl
          (vmm_map_lem hidden dst pa size perm_rw hb.valid))
    where
      undo :
          (hidden c : Context)
          → Hidden hidden
          → IsBacked hidden
          → c ≡ hidden
          → LendOutcome context dst src size (
              asserted (vmm_reprotect c src size perm_rw) >>= λ undone.
              some (answer (record context { vmm = undone }) result_out_of_memory))
      undo hidden c h hb same =
          let (d, e, u) =
            vmm_reprotect-succeeds hidden src size perm_rw hb (reprotected-RangeMapped hidden h)
              (omega arith) in
          let db = rw e at (mapping_calls-IsBacked hidden src pa size perm_rw hb).2 in
          rw (same, e) (_, refl, inr (undone-IsRefused hidden d h u db))

      unchanged :
          (hidden c : Context) (code : Code)
          → Mapped hidden dst pa size perm_rw (some (err code, c))
          → c ≡ hidden
      unchanged hidden c out_of_memory m = m.0
      unchanged hidden c code m = m.0

      go :
          (hidden : Context)
          → Hidden hidden
          → IsBacked hidden
          → (r : Option (Res (Unit {0}) × Context)) → vmm_map hidden dst pa size perm_rw ≡ r
          → Mapped hidden dst pa size perm_rw r
          → LendOutcome context dst src size (r >>= alias_mapped context dst src size)
      go hidden h hb none e m = absurd m
      go hidden h hb (some (ok done, c)) e m =
          let b = (mapping_calls-IsBacked hidden dst pa size perm_rw hb).0 (ok done) c e in
          (borrowed c, refl, inl (mapped-IsLent hidden c h b m.0 m.1))
      go hidden h hb (some (err code, c)) e m = undo hidden c h hb (unchanged hidden c code m)
