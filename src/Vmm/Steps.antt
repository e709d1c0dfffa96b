-- ===== src/Vmm/Steps.antt =====
-- The mapping calls of core/common/vmm.c where their preconditions hold: each succeeds, and the new
-- context is given by its pages.
use voland.Base.{ℕ, ◌/◌, ◌≤◌, ◌≡◌, refl}
use voland.Result.{Res, ok, err}
use voland.Vmm.{Context, Fault, page_size, pte_load, perm_all}
use voland.Vmm.Map.{vmm_unmap, vmm_reprotect, set_perms}
use voland.Vmm.UnmapInv.{Changed, replaced}
use voland.Vmm.Unmapping.{
  IsBacked, RangeMapped, Unmapped, Reprotected, vmm_unmap_lem, vmm_reprotect_lem,
}

pub vmm_reprotect-succeeds :
    (ctx : Context) (gva size perms : ℕ)
    → IsBacked ctx
    → RangeMapped ctx gva size
    → perms ≤ perm_all
    → (c : Context) × (vmm_reprotect ctx gva size perms ≡ (ok tt, c))
      × Changed ctx c (
          replaced
            (gva / page_size)
            (size / page_size)
            (λ w. set_perms (pte_load ctx w) perms)
            (pte_load ctx))
vmm_reprotect-succeeds ctx gva size perms v m known =
    go (vmm_reprotect ctx gva size perms) refl (vmm_reprotect_lem ctx gva size perms v)
  where
    go :
        (r : Res (Unit {0}) × Context)
        → vmm_reprotect ctx gva size perms ≡ r
        → Reprotected ctx gva size perms r
        → (c : Context) × (vmm_reprotect ctx gva size perms ≡ (ok tt, c))
          × Changed ctx c (
              replaced
                (gva / page_size)
                (size / page_size)
                (λ w. set_perms (pte_load ctx w) perms)
                (pte_load ctx))
    go (ok done, c) e (mapped, k, d) = (c, e, d)
    go (err code, c) e (same, why, off) = absurd (off (m, known))

pub vmm_unmap-succeeds :
    (ctx : Context) (gva size : ℕ)
    → IsBacked ctx
    → RangeMapped ctx gva size
    → (c : Context) × (vmm_unmap ctx gva size ≡ (ok tt, c))
      × Changed ctx c (replaced (gva / page_size) (size / page_size) (λ w. 0) (pte_load ctx))
vmm_unmap-succeeds ctx gva size v m =
    go (vmm_unmap ctx gva size) refl (vmm_unmap_lem ctx gva size v.valid)
  where
    go :
        (r : Res (Unit {0}) × Context)
        → vmm_unmap ctx gva size ≡ r
        → Unmapped ctx gva size r
        → (c : Context) × (vmm_unmap ctx gva size ≡ (ok tt, c))
          × Changed ctx c (replaced (gva / page_size) (size / page_size) (λ w. 0) (pte_load ctx))
    go (ok done, c) e (mapped, d) = (c, e, d)
    go (err code, c) e (same, why, off) = absurd (off m)

-- Neither the record of a fault nor what memory holds is part of the invariant.
pub other_fields-IsBacked :
    {ctx : Context} (f : Fault) (m : ℕ → ℕ)
    → IsBacked ctx
    → IsBacked (record ctx { last_fault = f; memory = m })
unfolding pte_load
other_fields-IsBacked {ctx} f m v =
    let s = v.valid.sound in
    record {
      valid = record {
        free = v.valid.free;
        sound = record {
          chain = s.chain;
          free_length = s.free_length;
          distinct = s.distinct;
          live_once = s.live_once;
          apart = s.apart;
          live_below = s.live_below;
          free_below = s.free_below;
          arena = record {
            placed = s.arena.placed;
            used = s.arena.used;
            capacity = s.arena.capacity;
            carved = s.arena.carved;
            no_wrap = s.arena.no_wrap;
          };
          ram = record { aligned = s.ram.aligned; placed = s.ram.placed; no_wrap = s.ram.no_wrap };
          counted = s.counted;
          budget = s.budget;
        };
        busy = v.valid.busy;
      };
      backed = v.backed;
    }

pub other_fields-pte_load :
    (ctx : Context) (f : Fault) (m : ℕ → ℕ) (w : ℕ)
    → pte_load (record ctx { last_fault = f; memory = m }) w ≡ pte_load ctx w
unfolding pte_load
other_fields-pte_load ctx f m w = refl
