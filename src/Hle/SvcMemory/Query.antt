-- ===== src/Hle/SvcMemory/Query.antt =====
-- core/hle/kernel/svc_memory.c: hle_svc_query_memory.
use voland.Base.{ℕ, ◌/◌, ◌%◌, zero, suc, update}
use voland.Base.{Option, some, List, [], ◌∷◌, ◌++◌, ◌>>=◌}
use voland.Result.{Res, ok, err}
use voland.Process.{Process}
use voland.Vmm.{Context}
use voland.Vmm.Access.{vmm_write_block}
use voland.Vmm.Query.{RegionInfo, vmm_query}
use voland.Hle.{
  HleContext, answer, result_success, result_invalid_pointer, result_invalid_memory_range,
}
use voland.Hle.SvcMemory.{classify_type}

-- A number as `n` bytes in little endian, as a host of that byte order stores it.
unfoldable pub le_bytes : ℕ → ℕ → List ℕ
le_bytes zero value = []
le_bytes (suc n) value = value % 256 ∷ le_bytes n (value / 256)

-- `HLE_Memory_Info`
pub record MemoryInfo : Type 0 where
  pub addr : ℕ
  pub size : ℕ
  pub type : ℕ
  pub attr : ℕ
  pub perm : ℕ
  pub ipc_refcount : ℕ
  pub device_refcount : ℕ
  pub padding : ℕ

-- The struct's bytes: two words of 64 bits and six of 32, with no padding between.
unfoldable pub info_bytes : MemoryInfo → List ℕ
unfolding le_bytes
info_bytes m =
    le_bytes 8 m.addr
    ++ (le_bytes 8 m.size
        ++ (le_bytes 4 m.type
            ++ (le_bytes 4 m.attr
                ++ (le_bytes 4 m.perm
                    ++ (le_bytes 4 m.ipc_refcount
                        ++ (le_bytes 4 m.device_refcount ++ le_bytes 4 m.padding))))))

-- The initializer of `out`.
unfoldable pub memory_info : Process → ℕ → RegionInfo → MemoryInfo
memory_info process query_addr info = record {
  addr = info.base_gva;
  size = info.size;
  type = classify_type process query_addr info.is_mapped;
  attr = 0;
  perm = info.perms;
  ipc_refcount = 0;
  device_refcount = 0;
  padding = 0;
}

-- What follows `vmm_write_block`.
abbrev pub info_written : HleContext → Res (Unit {0}) × Context → HleContext
info_written context (err code, vmm) = answer (record context { vmm = vmm }) result_invalid_pointer
info_written context (ok done, vmm) = record context {
  vmm = vmm;
  x = update (update context.x 0 result_success) 1 0;
}

-- What follows `vmm_query`.
abbrev pub describe : HleContext → ℕ → ℕ → Res RegionInfo → Option HleContext
describe context out_gva query_addr (err code) = some (answer context result_invalid_memory_range)
describe context out_gva query_addr (ok info) =
    vmm_write_block context.vmm out_gva (info_bytes (memory_info context.process query_addr info))
    >>= λ r. some (info_written context r)

-- `hle_svc_query_memory`
unfoldable pub hle_svc_query_memory : HleContext → Option HleContext
hle_svc_query_memory context =
    describe context (context.x 0) (context.x 2) (vmm_query context.vmm (context.x 2))
