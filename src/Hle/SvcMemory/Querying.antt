-- ===== src/Hle/SvcMemory/Querying.antt =====
-- What `hle_svc_query_memory` of core/hle/kernel/svc_memory.c tells the guest.
use voland.Base.{ℕ, ◌+◌, ◌≤◌, ◌≡◌}
use voland.Base.{Option, some, List, update}
use voland.Vmm.{perm_w, address_space_size}
use voland.Vmm.Query.{RegionInfo}
use voland.Vmm.Runs.{IsRun}
use voland.Vmm.Translate.{AllAccessible}
use voland.Vmm.Blocks.{store_bytes}
use voland.Hle.{
  HleContext, answer, result_success, result_invalid_pointer, result_invalid_memory_range,
}
use voland.Hle.SvcMemory.MemoryInfo.{IsMemoryInfo}

-- The answer: the address is outside the space; or a run is found, and its description cannot be
-- written where the guest asked, or is.
pub data IsQueried (context d : HleContext) : Type 0 where
  outside :
      address_space_size ≤ context.x 2
      → d ≡ answer context result_invalid_memory_range
      → IsQueried context d
  unwritable :
      (¬ AllAccessible context.vmm perm_w (context.x 0) (context.x 0 + 40))
      → d
        ≡ answer
            (record context { vmm = record context.vmm { last_fault = d.vmm.last_fault } })
            result_invalid_pointer
      → IsQueried context d
  described :
      (info : RegionInfo)
      → IsRun context.vmm (context.x 2) info
      → (bytes : List ℕ) → IsMemoryInfo context.process (context.x 2) info bytes
      → AllAccessible context.vmm perm_w (context.x 0) (context.x 0 + 40)
      → d ≡ record context {
        vmm = record context.vmm {
          memory = store_bytes context.vmm context.vmm.memory (context.x 0) bytes;
        };
        x = update (update context.x 0 result_success) 1 0;
      }
      → IsQueried context d

abbrev pub QueryOutcome : HleContext → Option HleContext → Type 0
QueryOutcome context r = (d : HleContext) × (r ≡ some d) × IsQueried context d
