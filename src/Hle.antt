-- ===== src/Hle.antt =====
-- core/hle/hle.h: the state that the SVC handlers share, and the kernel's result values. The CPU's
-- register file, which the handlers reach through the backend, stands in it as `x`. A handler is
-- `none` where a SWITCH_ASSERT_ALWAYS fails.
use voland.Base.{ℕ, ◌+◌, ◌*◌, Option, none, some, update}
use voland.Ipc.{ServiceObject, SessionTable, ipc_session_table_init}
use voland.PageAllocator.{PageAllocator}
use voland.Process.{Process}
use voland.Vmm.{Context}
pub mod SvcIpc
pub mod SvcMemory
pub mod Switch
mod Tests

-- HLE_RESULT_*
abbrev pub result_success : ℕ
result_success = 0

abbrev pub result_invalid_handle : ℕ
result_invalid_handle = 0xE401

abbrev pub result_invalid_pointer : ℕ
result_invalid_pointer = 0xCC01

abbrev pub result_not_found : ℕ
result_not_found = 0xF201

abbrev pub result_out_of_sessions : ℕ
result_out_of_sessions = 0x0E01

abbrev pub result_out_of_range : ℕ
result_out_of_range = 0xEE01

abbrev pub result_connection_closed : ℕ
result_connection_closed = 0xF601

abbrev pub result_out_of_memory : ℕ
result_out_of_memory = 0xD001

abbrev pub result_invalid_size : ℕ
result_invalid_size = 0xCA01

abbrev pub result_invalid_memory_state : ℕ
result_invalid_memory_state = 0xD401

abbrev pub result_invalid_memory_range : ℕ
result_invalid_memory_range = 0xDC01

-- `HLE_Context`
pub record HleContext : Type 0 where
  pub vmm : Context
  pub process : Process
  pub pages : PageAllocator
  pub sessions : SessionTable
  pub sm_object : ServiceObject
  pub svc_call_count : ℕ
  pub x : ℕ → ℕ

-- `hle_reset_process_state`
pub hle_reset_process_state : HleContext → HleContext
hle_reset_process_state context = record context { sessions = ipc_session_table_init }

-- `regs->x[0] = result`
abbrev pub answer : HleContext → ℕ → HleContext
answer context result = record context { x = update context.x 0 result }
