-- ===== src/Ipc.antt =====
-- core/hle/kernel/ipc.h and ipc.c: service objects, the session table, and the HIPC and CMIF framing
-- of requests and responses. A pointer to an interface or an instance is a number; Ipc/Dispatch reads
-- the interfaces behind them.
use voland.Base.{ℕ, zero, suc, ◌+◌, ◌-◌, ◌*◌, ◌/◌, ◌%◌, ◌^◌, Bool, true, false, not, ◌||◌, ◌&&◌}
use voland.Base.{
  Option, none, some, List, [], ◌∷◌, ◌++◌, length, ltb, leb, ◌==◌, if◌then◌else◌, update,
}
pub mod Sessions
pub mod Parse
pub mod Dispatch
mod Tests

-- `Service_Object`; the NULL interface is `none`.
pub record ServiceObject : Type 0 where
  pub interface : Option ℕ
  pub instance_ptr : ℕ

abbrev pub null_object : ServiceObject
null_object = record { interface = none; instance_ptr = 0 }

-- IPC_MAX_OUT_OBJECTS, IPC_MAX_SESSIONS, IPC_INVALID_HANDLE
abbrev pub max_out_objects : ℕ
max_out_objects = 1

abbrev pub max_sessions : ℕ
max_sessions = 32

abbrev pub invalid_handle : ℕ
invalid_handle = 0

-- `IPC_Response`; the array with its count is the list of its live entries.
pub record Response : Type 0 where
  pub result : ℕ
  pub out_objects : List ServiceObject

-- `ipc_response_add_move_object`: whether it was added, and the response.
unfoldable pub ipc_response_add_move_object : Response → ServiceObject → Bool × Response
ipc_response_add_move_object res object =
    if leb max_out_objects (length res.out_objects)
    then (false, res)
    else (true, record res { out_objects = res.out_objects ++ (object ∷ []) })

-- `IPC_Session`; the domain fields, which nothing sets yet, are a flag and the list of the live
-- entries of the array.
pub record Session : Type 0 where
  pub object : ServiceObject
  pub server_closed : Bool
  pub is_domain : Bool
  pub domain_objects : List ServiceObject

-- `memset` to 0.
abbrev pub zero_session : Session
zero_session = record {
  object = null_object;
  server_closed = false;
  is_domain = false;
  domain_objects = [];
}

abbrev pub fresh_session : ServiceObject → Session
fresh_session object = record zero_session { object = object }

-- `IPC_Session_Table`
pub record SessionTable : Type 0 where
  pub sessions : ℕ → Session
  pub in_use : ℕ → Bool

-- `ipc_session_table_init`
abbrev pub ipc_session_table_init : SessionTable
ipc_session_table_init = record { sessions = λ _. zero_session; in_use = λ _. false }

-- The loop of `ipc_session_table_open`, over `n` slots from `i` on: the first slot that is free.
unfoldable pub first_free : (ℕ → Bool) → ℕ → ℕ → Option ℕ
first_free in_use i zero = none
first_free in_use i (suc n) =
    let rest = first_free in_use (i + 1) n in if in_use i then rest else some i

-- `ipc_session_table_open`
unfoldable pub ipc_session_table_open : SessionTable → ServiceObject → ℕ × SessionTable
ipc_session_table_open table object = elim (first_free table.in_use 0 max_sessions) [
  | none ↦ (invalid_handle, table)
  | some i ↦ (
    i + 1,
    record {
      sessions = update table.sessions i (fresh_session object);
      in_use = update table.in_use i true;
    },
  )
]

-- `ipc_session_table_get`
unfoldable pub ipc_session_table_get : SessionTable → ℕ → Option Session
ipc_session_table_get table handle =
    if handle == invalid_handle || ltb max_sessions handle
    then none
    else if not (table.in_use (handle - 1))
    then none
    else some (table.sessions (handle - 1))

-- `ipc_session_table_close`
unfoldable pub ipc_session_table_close : SessionTable → ℕ → Bool × SessionTable
ipc_session_table_close table handle =
    if handle == invalid_handle || ltb max_sessions handle
    then (false, table)
    else if not (table.in_use (handle - 1))
    then (false, table)
    else (
      true,
      record {
        sessions = update table.sessions (handle - 1) zero_session;
        in_use = update table.in_use (handle - 1) false;
      },
    )
