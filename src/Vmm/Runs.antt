-- ===== src/Vmm/Runs.antt =====
-- The runs that `vmm_query` (core/common/vmm.c) reports.
use voland.Base.{ℕ, zero, suc, ◌+◌, ◌-◌, ◌*◌, ◌/◌, ◌%◌, ◌≤◌, ◌<◌, ◌≡◌, ◌≢◌, refl, arith, not}
use voland.Base.{
  false, ◌&&◌, ◌==◌, leb, ltb, if◌then◌else◌, Option, none, some, inl, inr, ◌⊎◌, Bool-cases, ◌∙◌,
}
use voland.Result.{Res, ok, err, invalid_argument}
use voland.Vmm.{
  Context, page_size, address_space_size, l2_entry_count, total_page_count, pte_load, perm_none,
}
use voland.Vmm.Pte.{pte_load-absent}
use voland.Vmm.Query.{
  RegionInfo, page_run_key, l2_slot_absent, back_step, extend_back, forward_step, extend_forward,
  vmm_query,
}

-- What a run is uniform in: whether the page is mapped, and its permissions.
unfoldable pub state : Context → ℕ → Option ℕ
state ctx w = if pte_load ctx w == 0 then none else some (pte_load ctx w % 8)

page_run_key-state :
    (ctx : Context) (v w : ℕ) → page_run_key ctx v ≡ page_run_key ctx w → state ctx v ≡ state ctx w
unfolding page_run_key state
page_run_key-state ctx v w e = ground arith

state-page_run_key :
    (ctx : Context) (v w : ℕ) → state ctx v ≡ state ctx w → page_run_key ctx v ≡ page_run_key ctx w
unfolding page_run_key state
state-page_run_key ctx v w e = ground arith

key_absent : (ctx : Context) (w : ℕ) → ctx.l1 (w / l2_entry_count) ≡ 0 → page_run_key ctx w ≡ 0
unfolding page_run_key
key_absent ctx w e = rw (pte_load-absent ctx w e)

-- The backward loop ends where the run starts.
record Back (ctx : Context) (key start s : ℕ) : Type 0 where
  low : s ≤ start
  same : (w : ℕ) → s ≤ w → w < start → page_run_key ctx w ≡ key
  stop : (s ≡ 0) ⊎ (page_run_key ctx (s - 1) ≢ key)

-- One round, with what follows it.
data BackStep (ctx : Context) (key start : ℕ) : Option ℕ → Type 0 where
  stops : (start ≡ 0) ⊎ (page_run_key ctx (start - 1) ≢ key) → BackStep ctx key start none
  moves :
      (next : ℕ)
      → next < start
      → ((w : ℕ) → next ≤ w → w < start → page_run_key ctx w ≡ key)
      → BackStep ctx key start (some next)

back_step_lem : (ctx : Context) (key start : ℕ) → BackStep ctx key start (back_step ctx key start)
unfolding back_step
back_step_lem ctx key start = elim (Bool-cases (start == 0)) [
  | inl e ↦ rw e (stops (inl (ground arith)))
  | inr e ↦
      elim (Bool-cases
        (key == 0 && start % l2_entry_count == 0 && l2_slot_absent ctx (start - 1))) [
          | inl f ↦
              rw (e, f)
                (moves (start - l2_entry_count) (ground arith) (λ w low high.
                  let slot : w / l2_entry_count ≡ (start - 1) / l2_entry_count = ground arith in
                  key_absent ctx w (rw slot (ground arith)) ∙ (ground arith)))
          | inr f ↦ elim (Bool-cases (page_run_key ctx (start - 1) == key)) [
            | inl g ↦
                rw (e, f, g)
                  (moves (start - 1) (ground arith) (λ w low high.
                    let last : w ≡ start - 1 = omega arith in rw last (ground arith)))
            | inr g ↦ rw (e, f, g) (stops (inr (ground arith)))
          ]
        ]
]

extend_back_lem :
    (ctx : Context) (key fuel start : ℕ)
    → start ≤ fuel
    → Back ctx key start (extend_back ctx key start fuel)
unfolding extend_back
extend_back_lem ctx key zero start enough = record {
  low = omega arith;
  same = λ w low high. absurd (omega arith);
  stop = inl (omega arith);
}
extend_back_lem ctx key (suc fuel) start enough =
    go (back_step ctx key start) (back_step_lem ctx key start)
      (λ next lt. extend_back_lem ctx key fuel next (omega arith))
  where
    go :
        (r : Option ℕ)
        → BackStep ctx key start r
        → ((next : ℕ) → next < start → Back ctx key next (extend_back ctx key next fuel))
        → Back ctx key start (elim r [ none ↦ start | some next ↦ extend_back ctx key next fuel ])
    go _ (stops why) rest = record {
      low = omega arith;
      same = λ w low high. absurd (omega arith);
      stop = why;
    }
    go _ (moves next lt uniform) rest =
        let b = rest next lt in
        record {
          low = omega (arith, b.low);
          same = λ w low high. elim (Bool-cases (ltb w next)) [
            | inl e ↦ b.same w low (ground arith)
            | inr e ↦ uniform w (ground arith) high
          ];
          stop = b.stop;
        }

-- The forward loop ends where the run ends.
record Forward (ctx : Context) (key end e : ℕ) : Type 0 where
  high : end ≤ e
  within : e ≤ total_page_count
  same : (w : ℕ) → end ≤ w → w < e → page_run_key ctx w ≡ key
  stop : (e ≡ total_page_count) ⊎ (page_run_key ctx e ≢ key)

data ForwardStep (ctx : Context) (key end : ℕ) : Option ℕ → Type 0 where
  stops : (end ≡ total_page_count) ⊎ (page_run_key ctx end ≢ key) → ForwardStep ctx key end none
  moves :
      (next : ℕ)
      → end < next
      → next ≤ total_page_count
      → ((w : ℕ) → end ≤ w → w < next → page_run_key ctx w ≡ key)
      → ForwardStep ctx key end (some next)

forward_step_lem :
    (ctx : Context) (key end : ℕ)
    → end ≤ total_page_count
    → ForwardStep ctx key end (forward_step ctx key end)
unfolding forward_step
forward_step_lem ctx key end le = elim (Bool-cases (leb total_page_count end)) [
  | inl e ↦ rw e (stops (inl (ground arith)))
  | inr e ↦ elim (Bool-cases (key == 0 && end % l2_entry_count == 0 && l2_slot_absent ctx end)) [
    | inl f ↦
        rw (e, f)
          (moves (end + l2_entry_count) (omega arith) (ground arith) (λ w low high.
            let slot : w / l2_entry_count ≡ end / l2_entry_count = ground arith in
            key_absent ctx w (rw slot (ground arith)) ∙ (ground arith)))
    | inr f ↦ elim (Bool-cases (page_run_key ctx end == key)) [
      | inl g ↦
          rw (e, f, g)
            (moves (end + 1) (omega arith) (ground arith)
              (λ w low high. let last : w ≡ end = omega arith in rw last (ground arith)))
      | inr g ↦ rw (e, f, g) (stops (inr (ground arith)))
    ]
  ]
]

extend_forward_lem :
    (ctx : Context) (key fuel end : ℕ)
    → end ≤ total_page_count
    → total_page_count ≤ end + fuel
    → Forward ctx key end (extend_forward ctx key end fuel)
unfolding extend_forward
extend_forward_lem ctx key zero end le enough = record {
  high = omega arith;
  within = le;
  same = λ w low high. absurd (omega arith);
  stop = inl (omega arith);
}
extend_forward_lem ctx key (suc fuel) end le enough =
    go (forward_step ctx key end) (forward_step_lem ctx key end le)
      (λ next lt le. extend_forward_lem ctx key fuel next le (omega arith))
  where
    go :
        (r : Option ℕ)
        → ForwardStep ctx key end r
        → ((next : ℕ)
            → end < next
            → next ≤ total_page_count
            → Forward ctx key next (extend_forward ctx key next fuel))
        → Forward ctx key end (elim r [ none ↦ end | some next ↦ extend_forward ctx key next fuel ])
    go _ (stops why) rest = record {
      high = omega arith;
      within = le;
      same = λ w low high. absurd (omega arith);
      stop = why;
    }
    go _ (moves next lt within uniform) rest =
        let f = rest next lt within in
        record {
          high = omega (arith, f.high);
          within = f.within;
          same = λ w low high. elim (Bool-cases (ltb w next)) [
            | inl e ↦ uniform w low (ground arith)
            | inr e ↦ f.same w (ground arith) high
          ];
          stop = f.stop;
        }

-- What vmm.h documents for the region: the maximal run of pages around `gva` in one state.
pub record IsRun (ctx : Context) (gva : ℕ) (info : RegionInfo) : Type 0 where
  pub aligned : (info.base_gva % page_size ≡ 0) × (info.size % page_size ≡ 0)
  pub contains : (info.base_gva ≤ gva) × (gva < info.base_gva + info.size)
  pub in_space : info.base_gva + info.size ≤ address_space_size
  pub uniform :
      (x : ℕ)
      → info.base_gva ≤ x
      → x < info.base_gva + info.size
      → state ctx (x / page_size) ≡ state ctx (gva / page_size)
  pub maximal_below :
      (info.base_gva ≡ 0)
      ⊎ (state ctx ((info.base_gva - 1) / page_size) ≢ state ctx (gva / page_size))
  pub maximal_above :
      (info.base_gva + info.size ≡ address_space_size)
      ⊎ (state ctx ((info.base_gva + info.size) / page_size) ≢ state ctx (gva / page_size))
  pub described : state ctx (gva / page_size) ≡ (if info.is_mapped then some info.perms else none)
  pub permissions : (info.perms < 8) × (info.is_mapped ≡ false → info.perms ≡ perm_none)

-- What `vmm_query` may give.
abbrev pub Queried : Context → ℕ → Res RegionInfo → Type 0
Queried ctx gva (ok info) = IsRun ctx gva info
Queried ctx gva (err code) = (code ≡ invalid_argument) × (address_space_size ≤ gva)

-- `vmm_query` fails exactly outside the address space. Else it reports the maximal run of pages
-- around the address that are all unmapped, or all mapped with the same permissions, and says which,
-- with no permissions for unmapped pages; skipping whole absent L2 slots never skips a mapped page.
pub vmm_query_lem : (ctx : Context) (gva : ℕ) → Queried ctx gva (vmm_query ctx gva)
unfolding vmm_query state page_run_key
vmm_query_lem ctx gva = elim (Bool-cases (leb address_space_size gva)) [
  | inl e ↦ rw e (refl, ground arith)
  | inr e ↦
      let vpn = gva / page_size in
      let key = page_run_key ctx vpn in
      rw e (
        run (ground arith) (extend_back_lem ctx key vpn vpn (omega arith)) (
          extend_forward_lem ctx key (total_page_count - (vpn + 1)) (vpn + 1) (ground arith)
            (omega arith)))
]
  where
    vpn : ℕ
    vpn = gva / page_size

    key : ℕ
    key = page_run_key ctx vpn

    info : ℕ → ℕ → RegionInfo
    info s e = record {
      base_gva = s * page_size;
      size = (e - s) * page_size;
      perms = if key == 0 then perm_none else key % 8;
      is_mapped = not (key == 0);
    }

    described :
        state ctx vpn
        ≡ (if not (key == 0) then some (if key == 0 then perm_none else key % 8) else none)
    described = ground arith

    permissions :
        ((if key == 0 then perm_none else key % 8) < 8)
        × (not (key == 0) ≡ false → (if key == 0 then perm_none else key % 8) ≡ perm_none)
    permissions = (ground arith, λ unmapped. ground arith)

    run :
        {s e : ℕ}
        → gva < address_space_size
        → Back ctx key vpn s
        → Forward ctx key (vpn + 1) e
        → IsRun ctx gva (info s e)
    run {s} {e} lt b f = record {
      aligned = (omega arith, omega arith);
      contains = (omega (arith, b.low), omega (arith, b.low, f.high));
      in_space = omega (arith, b.low, f.high, f.within);
      uniform = λ x low high.
          page_run_key-state ctx (x / page_size) vpn (elim (Bool-cases (ltb (x / page_size) vpn)) [
            | inl below ↦ b.same (x / page_size) (omega arith) (ground arith)
            | inr above ↦ elim (Bool-cases (x / page_size == vpn)) [
              | inl here ↦ let at : x / page_size ≡ vpn = ground arith in rw at
              | inr past ↦ f.same (x / page_size) (ground arith) (omega (arith, b.low, f.high))
            ]
          ]);
      maximal_below = elim b.stop [
        | inl z ↦ inl (omega (arith, z))
        | inr ne ↦ elim (Bool-cases (s == 0)) [
          | inl z ↦ inl (ground arith)
          | inr pos ↦
              let page : (s * page_size - 1) / page_size ≡ s - 1 = ground arith in
              inr (λ q. ne (rw page at (state-page_run_key ctx _ vpn q)))
        ]
      ];
      maximal_above = elim f.stop [
        | inl z ↦ inl (omega (arith, z, b.low))
        | inr ne ↦
            let page : (s * page_size + (e - s) * page_size) / page_size ≡ e =
              omega (arith, b.low, f.high) in
            inr (λ q. ne (rw page at (state-page_run_key ctx _ vpn q)))
      ];
      described = described;
      permissions = permissions;
    }
