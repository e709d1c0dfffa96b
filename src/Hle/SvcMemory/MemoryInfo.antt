-- ===== src/Hle/SvcMemory/MemoryInfo.antt =====
-- What the MemoryInfo of `hle_svc_query_memory` (core/hle/kernel/svc_memory.c and svc_memory.h) says of
-- an address: its words, read back from the bytes.
use native.Mathlib.Omega.{pow_step}
use voland.Base.{ℕ, zero, suc, ◌+◌, ◌*◌, ◌/◌, ◌^◌, ◌<◌, ◌≡◌, refl, arith}
use voland.Base.{List, [], ◌∷◌, length, take, drop}
use voland.Process.{Process}
use voland.Vmm.{Context}
use voland.Vmm.Query.{RegionInfo}
use voland.Vmm.Runs.{IsRun}
use voland.Hle.SvcMemory.{classify_type}
use voland.Hle.SvcMemory.Query.{memory_info, info_bytes, le_bytes}
use voland.Hle.SvcMemory.MemoryType.{Typed, classify_type_lem, classify_type_small}

-- The number that bytes in little endian stand for, and the word of `n` bytes at an offset.
abbrev pub le_value : List ℕ → ℕ
le_value [] = 0
le_value (b ∷ bs) = b + 256 * le_value bs

abbrev pub word : List ℕ → ℕ → ℕ → ℕ
word bytes at n = le_value (take n (drop at bytes))

-- The bytes are Horizon's MemoryInfo of the run `info` around the address.
pub record IsMemoryInfo (process : Process) (gva : ℕ) (info : RegionInfo) (bytes : List ℕ)
    : Type 0 where
  pub count : length bytes ≡ 40
  pub addr : word bytes 0 8 ≡ info.base_gva
  pub size : word bytes 8 8 ≡ info.size
  pub type : Typed process gva info.is_mapped (word bytes 16 4)
  pub attr : word bytes 20 4 ≡ 0
  pub perm : word bytes 24 4 ≡ info.perms
  pub ipc_refcount : word bytes 28 4 ≡ 0
  pub device_refcount : word bytes 32 4 ≡ 0
  pub padding : word bytes 36 4 ≡ 0

le_value-le_bytes : (n v : ℕ) → v < 256 ^ n → le_value (le_bytes n v) ≡ v
unfolding le_bytes
le_value-le_bytes zero v small = omega (arith, small)
le_value-le_bytes (suc n) v small =
    let rest = le_value-le_bytes n (v / 256) (omega (arith, small, pow_step 256 n)) in
    omega (arith, rest)

pub info_bytes-IsMemoryInfo :
    (ctx : Context) (process : Process) (gva : ℕ) (info : RegionInfo)
    → IsRun ctx gva info
    → IsMemoryInfo process gva info (info_bytes (memory_info process gva info))
unfolding info_bytes memory_info le_bytes
info_bytes-IsMemoryInfo ctx process gva info run =
    let type = classify_type process gva info.is_mapped in
    let same = le_value-le_bytes 4 type (classify_type_small process gva info.is_mapped) in
    record {
      count = refl;
      addr = le_value-le_bytes 8 info.base_gva (omega (arith, run.in_space));
      size = le_value-le_bytes 8 info.size (omega (arith, run.in_space));
      type = rw same (
          classify_type_lem process gva info.is_mapped
            (omega (arith, run.contains.1, run.in_space)));
      attr = refl;
      perm = le_value-le_bytes 4 info.perms (omega (arith, run.permissions.0));
      ipc_refcount = refl;
      device_refcount = refl;
      padding = refl;
    }
