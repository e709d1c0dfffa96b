-- ===== src/Thread.antt =====
-- core/hle/kernel/thread.h and thread.c: guest threads. What the backend's `create` answers is a
-- parameter, `none` for NULL; its setters store what they are given. The handlers that are installed
-- and the release of a state are the backend's.
use voland.Base.{ℕ, zero, suc, ◌+◌, ◌%◌, Bool, not, Option, none, some, update}
use voland.Base.{ltb, leb, ◌==◌, if◌then◌else◌, ◌>>=◌}
use voland.Result.{Res, ok, err, invalid_argument, out_of_memory}
use voland.Layout.{MemoryLayout}
use voland.Tls.{TlsAllocator, tls_allocate, tls_free}
pub mod Creation
mod Tests

-- THREAD_PRIORITY_LOWEST, THREAD_CORE_COUNT, THREAD_STACK_ALIGN
abbrev pub priority_lowest : ℕ
priority_lowest = 63

abbrev pub core_count : ℕ
core_count = 4

abbrev pub stack_align : ℕ
stack_align = 16

-- The registers of a `CPU_State` that `thread_create` sets.
pub record CpuState : Type 0 where
  pub x : ℕ → ℕ
  pub sp : ℕ
  pub pc : ℕ
  pub pstate : ℕ
  pub tpidrro_el0 : ℕ

-- `Thread_Create_Params`
pub record ThreadCreateParams : Type 0 where
  pub entry_point : ℕ
  pub argument : ℕ
  pub stack_top : ℕ
  pub priority : ℕ
  pub preferred_core : ℕ

-- `Guest_Thread`; a NULL `cpu_state` is `none`.
pub record GuestThread : Type 0 where
  pub cpu_state : Option CpuState
  pub tls_gva : ℕ
  pub entry_point : ℕ
  pub stack_top : ℕ
  pub priority : ℕ
  pub preferred_core : ℕ

-- The loop over the X registers, from `reg` on with `left` to go.
unfoldable pub clear_registers : (ℕ → ℕ) → ℕ → ℕ → ℕ → ℕ
clear_registers x reg zero = x
clear_registers x reg (suc left) = clear_registers (update x reg 0) (reg + 1) left

-- The start state.
unfoldable pub start_state : CpuState → ThreadCreateParams → ℕ → CpuState
start_state state params tls_gva = record {
  x = update (clear_registers state.x 0 31) 0 params.argument;
  sp = params.stack_top;
  pc = params.entry_point;
  pstate = 0;
  tpidrro_el0 = tls_gva;
}

-- `thread_create` after `tls_allocate`.
abbrev pub with_state :
    Option CpuState → ThreadCreateParams → Res ℕ × TlsAllocator → Res GuestThread × TlsAllocator
with_state created params (err code, tls) = (err code, tls)
with_state none params (ok tls_gva, tls) = (err out_of_memory, (tls_free tls tls_gva).1)
with_state (some state) params (ok tls_gva, tls) = (
  ok (record {
    cpu_state = some (start_state state params tls_gva);
    tls_gva = tls_gva;
    entry_point = params.entry_point;
    stack_top = params.stack_top;
    priority = params.priority;
    preferred_core = params.preferred_core;
  }),
  tls,
)

-- `thread_create`
unfoldable pub thread_create :
    (ℕ → ℕ → Bool)
    → MemoryLayout
    → Option CpuState
    → TlsAllocator
    → ThreadCreateParams
    → Option (Res GuestThread × TlsAllocator)
thread_create granted layout created tls params =
    if ltb priority_lowest params.priority
    then some (err invalid_argument, tls)
    else if leb core_count params.preferred_core
    then some (err invalid_argument, tls)
    else if not (params.stack_top % stack_align == 0)
    then some (err invalid_argument, tls)
    else tls_allocate granted layout tls >>= λ r. some (with_state created params r)

-- `thread_destroy`: the allocator afterwards, and the zeroed thread.
abbrev pub no_thread : GuestThread
no_thread = record {
  cpu_state = none;
  tls_gva = 0;
  entry_point = 0;
  stack_top = 0;
  priority = 0;
  preferred_core = 0;
}

abbrev pub freed_by : TlsAllocator → ℕ → Option CpuState → TlsAllocator
freed_by tls tls_gva none = tls
freed_by tls tls_gva (some state) = (tls_free tls tls_gva).1

unfoldable pub thread_destroy : TlsAllocator → GuestThread → TlsAllocator × GuestThread
thread_destroy tls thread = (freed_by tls thread.tls_gva thread.cpu_state, no_thread)
