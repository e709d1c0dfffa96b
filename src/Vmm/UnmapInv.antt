-- ===== src/Vmm/UnmapInv.antt =====
-- The loops of `vmm_unmap` and `vmm_reprotect` (core/common/vmm.c) keep the invariant and touch
-- exactly the pages of their range.
use voland.Base.{ℕ, zero, suc, ◌+◌, ◌-◌, ◌/◌, ◌≤◌, ◌<◌, ◌≡◌, ◌≢◌, refl, arith}
use voland.Base.{◌∷◌, ◌==◌, if◌then◌else◌, flag_pos, update, update_self, update_ne}
use voland.Base.{◌∙◌, inl, inr, eq_cases, ==_iff, Bool-cases}
use voland.Vmm.{
  Context, page_size, l2_entry_count, pte_load, pte_store, l2_table_release, total_page_count,
}
use voland.Vmm.Inv.{IsSound, IsBusy, IsValid}
use voland.Vmm.Map.{clear_page, unmap_pages, reprotect_pages, set_perms}
use voland.Vmm.MapLoop.{in_range}
use voland.Vmm.Pte.{pte_load-ne, pte_load-pte_store, set_perms_fields}
use voland.Vmm.Ranges.{AllMapped}
use voland.Vmm.Release.{released, released-IsSound, released-pte_load, elsewhere, was_live}
use voland.Vmm.Store.{stored, stored-IsSound}

-- What an operation on pages may leave: the invariant, and each page as `view` says.
pub record Changed (ctx c : Context) (view : ℕ → ℕ) : Type 0 where
  pub valid : IsValid c
  pub pages : (w : ℕ) → pte_load c w ≡ view w
  pub ram_base : c.guest_ram_base ≡ ctx.guest_ram_base
  pub ram_size : c.guest_ram_size ≡ ctx.guest_ram_size
  pub memory : c.memory ≡ ctx.memory

module _ {ctx : Context} (v : IsValid ctx) (vpn : ℕ) (mapped : pte_load ctx vpn ≢ 0) where
  abbrev index : ℕ
  index = vpn / l2_entry_count

  live : ctx.l1 index ≢ 0
  live = pte_load-ne ctx vpn mapped

  abbrev left : ℕ
  left = ctx.l2_mapped_count index - 1

  -- The entry cleared and the count lowered.
  abbrev cleared : Context
  cleared = stored ctx vpn 0 (update ctx.l2_mapped_count index left)

  -- A mapped page is counted.
  count_pos : 0 < ctx.l2_mapped_count index
  count_pos = v.busy index live

  cleared-IsSound : IsSound cleared v.free
  cleared-IsSound =
      stored-IsSound v.free v.sound vpn 0 (update ctx.l2_mapped_count index left) live
        (omega (
          arith,
          update_self ctx.l2_mapped_count index left,
          flag_pos (pte_load ctx vpn) mapped,
          count_pos,
        ))
        (λ i ne. update_ne ctx.l2_mapped_count index left i ne)

  cleared-pte_load : (w : ℕ) → pte_load cleared w ≡ (if w == vpn then 0 else pte_load ctx w)
  unfolding pte_load pte_store
  cleared-pte_load w = pte_load-pte_store ctx vpn 0 w live v.sound.live_once

  cleared-IsBusy : 0 < left → IsBusy cleared
  cleared-IsBusy pos i l = elim (eq_cases i index) [
    | inl a ↦ rw (a, update_self ctx.l2_mapped_count index left) pos
    | inr a ↦ rw (update_ne ctx.l2_mapped_count index left i a) (v.busy i l)
  ]

  released-IsBusy : cleared.l2_mapped_count index ≡ 0 → IsBusy (released cleared index)
  released-IsBusy idle i l =
      let ne = elsewhere v.free cleared-IsSound index live idle i l in
      rw (update_ne ctx.l2_mapped_count index left i ne)
        (v.busy i (was_live v.free cleared-IsSound index live idle i l))

  -- Clearing one mapped page.
  pub clear_page-Changed :
      vpn < total_page_count
      → Changed ctx (clear_page ctx vpn) (λ w. if w == vpn then 0 else pte_load ctx w)
  unfolding clear_page pte_store l2_table_release
  clear_page-Changed lt = elim (Bool-cases (left == 0)) [
    | inl z ↦
        let idle : cleared.l2_mapped_count index ≡ 0 =
          update_self ctx.l2_mapped_count index left ∙ (==_iff left 0).0 z in
        rw (z, clear_page)
          (record {
            valid = record {
              free = ctx.l1 index ∷ v.free;
              sound = released-IsSound v.free cleared-IsSound index live idle (omega arith);
              busy = released-IsBusy idle;
            };
            pages = λ w.
                released-pte_load v.free cleared-IsSound index live idle w ∙ cleared-pte_load w;
            ram_base = refl;
            ram_size = refl;
            memory = refl;
          })
    | inr nz ↦
        rw (nz, clear_page)
          (record {
            valid = record {
              free = v.free;
              sound = cleared-IsSound;
              busy = cleared-IsBusy (ground arith);
            };
            pages = cleared-pte_load;
            ram_base = refl;
            ram_size = refl;
            memory = refl;
          })
  ]

-- A view with the pages of a range replaced.
abbrev pub replaced : ℕ → ℕ → (ℕ → ℕ) → (ℕ → ℕ) → ℕ → ℕ
replaced vpn n new old w = if in_range vpn n w then new w else old w

-- `unmap_pages` over mapped pages unmaps exactly these.
pub unmap_pages-Changed :
    (n : ℕ) {ctx : Context} (vpn : ℕ)
    → IsValid ctx
    → vpn + n ≤ total_page_count
    → AllMapped ctx vpn n
    → Changed ctx (unmap_pages ctx vpn n) (replaced vpn n (λ w. 0) (pte_load ctx))
unfolding unmap_pages
unmap_pages-Changed zero {ctx} vpn v lt mapped = record {
  valid = v;
  pages = λ w. ground arith;
  ram_base = refl;
  ram_size = refl;
  memory = refl;
}
unmap_pages-Changed (suc n) {ctx} vpn v lt mapped =
    let one = clear_page-Changed v vpn (mapped vpn (omega arith) (omega arith)) (omega arith) in
    let d = clear_page ctx vpn in
    let rest =
      unmap_pages-Changed n {ctx = d} (vpn + 1) one.valid (omega arith)
        (λ w low high e. mapped w (omega arith) (omega arith) (ground (arith, one.pages w))) in
    record {
      valid = rest.valid;
      pages = λ w. ground (arith, rest.pages w, one.pages w);
      ram_base = rest.ram_base ∙ one.ram_base;
      ram_size = rest.ram_size ∙ one.ram_size;
      memory = rest.memory ∙ one.memory;
    }

-- Replacing the permissions of one mapped page.
store_perms-Changed :
    {ctx : Context} (vpn perms : ℕ)
    → IsValid ctx
    → page_size ≤ pte_load ctx vpn
    → Changed ctx
        (pte_store ctx vpn (set_perms (pte_load ctx vpn) perms))
        (λ w. if w == vpn then set_perms (pte_load ctx vpn) perms else pte_load ctx w)
unfolding pte_store
store_perms-Changed {ctx} vpn perms v backed =
    let old = pte_load ctx vpn in
    let new = set_perms old perms in
    let mapped : old ≢ 0 = omega arith in
    let live = pte_load-ne ctx vpn mapped in
    let kept : new ≢ 0 = omega (arith, set_perms_fields old perms) in
    record {
      valid = record {
        free = v.free;
        sound =
            stored-IsSound v.free v.sound vpn new ctx.l2_mapped_count live
              (omega (arith, flag_pos old mapped, flag_pos new kept)) (λ i ne. refl);
        busy = v.busy;
      };
      pages = λ w. pte_load-pte_store ctx vpn new w live v.sound.live_once;
      ram_base = refl;
      ram_size = refl;
      memory = refl;
    }

-- `reprotect_pages` over mapped pages with a backing page replaces exactly their permissions.
pub reprotect_pages-Changed :
    (n : ℕ) {ctx : Context} (vpn perms : ℕ)
    → IsValid ctx
    → ((w : ℕ) → vpn ≤ w → w < vpn + n → page_size ≤ pte_load ctx w)
    → Changed ctx
        (reprotect_pages ctx vpn perms n)
        (replaced vpn n (λ w. set_perms (pte_load ctx w) perms) (pte_load ctx))
unfolding reprotect_pages
reprotect_pages-Changed zero {ctx} vpn perms v backed = record {
  valid = v;
  pages = λ w. ground arith;
  ram_base = refl;
  ram_size = refl;
  memory = refl;
}
reprotect_pages-Changed (suc n) {ctx} vpn perms v backed =
    let one = store_perms-Changed vpn perms v (backed vpn (omega arith) (omega arith)) in
    let d = pte_store ctx vpn (set_perms (pte_load ctx vpn) perms) in
    let rest =
      reprotect_pages-Changed n {ctx = d} (vpn + 1) perms one.valid
        (λ w low high. ground (arith, one.pages w, backed w (omega arith) (omega arith))) in
    record {
      valid = rest.valid;
      pages = λ w. ground (arith, rest.pages w, one.pages w);
      ram_base = rest.ram_base ∙ one.ram_base;
      ram_size = rest.ram_size ∙ one.ram_size;
      memory = rest.memory ∙ one.memory;
    }
