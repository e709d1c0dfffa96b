-- ===== src/Hle/SvcIpc.antt =====
-- core/hle/kernel/svc_ipc.c: the three IPC handlers. The interfaces behind the pointers of service
-- objects are a parameter.
use voland.Base.{ℕ, zero, suc, ◌+◌, ◌-◌, ◌*◌, ◌%◌, ◌^◌, Bool, true, false, not, update}
use voland.Base.{
  same_bytes, Option, none, some, List, [], ◌∷◌, ◌++◌, length, get_or, ◌==◌, if◌then◌else◌, ◌>>=◌,
  ltb,
}
use voland.Result.{Res, ok, err, not_implemented}
use voland.Ipc.{
  ServiceObject, Response, Session, SessionTable, invalid_handle, ipc_session_table_open,
  ipc_session_table_get, ipc_session_table_close,
}
use voland.Ipc.Parse.{
  MessageType, Request, request, close, ipc_request_parse, ipc_response_write, command_buffer_bytes,
}
use voland.Ipc.Dispatch.{Interface, ipc_dispatch, result_not_implemented}
use voland.Vmm.{Context}
use voland.Vmm.Access.{vmm_read_block, vmm_write_block, read_bytes}
use voland.Hle.{
  HleContext, answer, result_success, result_invalid_handle, result_invalid_pointer,
  result_not_found, result_out_of_sessions, result_out_of_range, result_connection_closed,
}
pub mod Rollback
pub mod PortName
pub mod Handles

-- SVC_IPC_PORT_NAME_MAX_BYTES, SVC_IPC_SM_PORT_NAME
abbrev pub port_name_max_bytes : ℕ
port_name_max_bytes = 12

abbrev pub sm_port_name : List ℕ
sm_port_name = 115 ∷ 109 ∷ 58 ∷ []

-- How the loop that reads the port name ends: the name before its NUL, no NUL in time, a fault.
pub data NameRead : Type 0 where
  name : List ℕ → NameRead
  too_long bad_pointer : NameRead

-- `name[length]`, of the one byte read.
abbrev pub first_byte : List ℕ → ℕ
first_byte bytes = get_or bytes 0 0

-- The loop of `hle_svc_connect_to_named_port`, with `n` bytes still allowed and `front` read.
unfoldable pub read_name : Context → ℕ → List ℕ → ℕ → Option (NameRead × Context)
read_name vmm name_gva front zero = some (too_long, vmm)
read_name vmm name_gva front (suc n) = vmm_read_block vmm name_gva 1 >>= λ r.
    let (got, c) = r in
    elim got [
      | err code ↦ some (bad_pointer, c)
      | ok bytes ↦
          if first_byte bytes == 0
          then some (name front, c)
          else read_name c (name_gva + 1) (front ++ (first_byte bytes ∷ [])) n
    ]

-- What `hle_svc_connect_to_named_port` does with the name.
unfoldable pub connect : HleContext → NameRead → HleContext
connect context too_long = answer context result_out_of_range
connect context bad_pointer = answer context result_invalid_pointer
connect context (name n) =
    if not (same_bytes n sm_port_name)
    then answer context result_not_found
    else let (handle, sessions) = ipc_session_table_open context.sessions context.sm_object in
      if handle == invalid_handle then answer context result_out_of_sessions else record context {
        sessions = sessions;
        x = update (update context.x 0 result_success) 1 handle;
      }

-- `hle_svc_connect_to_named_port`
unfoldable pub hle_svc_connect_to_named_port : HleContext → Option HleContext
hle_svc_connect_to_named_port context =
    read_name context.vmm (context.x 1) [] port_name_max_bytes >>= λ r.
    let (n, vmm) = r in some (connect (record context { vmm = vmm }) n)

-- `close_handles`
unfoldable pub close_handles : SessionTable → List ℕ → Option SessionTable
close_handles sessions [] = some sessions
close_handles sessions (h ∷ hs) =
    let (closed, after) = ipc_session_table_close sessions h in
    let rest = close_handles after hs in if closed then rest else none

-- The loop that opens a session for each out object, with `opened` the handles so far. `none` for
-- the handles is a full table, after the rollback.
unfoldable pub open_objects :
    SessionTable → List ServiceObject → List ℕ → Option (Option (List ℕ) × SessionTable)
open_objects sessions [] opened = some (some opened, sessions)
open_objects sessions (object ∷ objects) opened =
    let (handle, after) = ipc_session_table_open sessions object in
    let rest = open_objects after objects (opened ++ (handle ∷ [])) in
    if handle == invalid_handle then (close_handles after opened >>= λ s. some (none, s)) else rest

-- The answer after the write of the response, with the handles open.
abbrev pub written : HleContext → List ℕ → Res (Unit {0}) × Context → Option HleContext
written context handles (ok done, vmm) = some (answer (record context { vmm = vmm }) result_success)
written context handles (err code, vmm) = close_handles context.sessions handles >>= λ s.
    some (answer (record context { vmm = vmm; sessions = s }) result_invalid_pointer)

-- The end of `hle_svc_send_sync_request`, with the handles open: the response is written back.
unfoldable pub reply : HleContext → Response → List ℕ → Option HleContext
reply context response handles = elim (ipc_response_write command_buffer_bytes response handles) [
  | err code ↦ none
  | ok buffer ↦
      vmm_write_block context.vmm context.process.main_thread_tls_gva
        (read_bytes buffer 0 command_buffer_bytes)
      >>= written context handles
]

-- What follows the opening of the sessions.
abbrev pub deliver : HleContext → Response → Option (List ℕ) × SessionTable → Option HleContext
deliver context response (none, sessions) =
    some (answer (record context { sessions = sessions }) result_out_of_sessions)
deliver context response (some handles, sessions) =
    reply (record context { sessions = sessions }) response handles

-- The dispatch of a Request on an open session.
unfoldable pub serve : (ℕ → Interface) → HleContext → Session → Request → Option HleContext
serve interfaces context session req =
    let response = ipc_dispatch interfaces session.object req in
    open_objects context.sessions response.out_objects [] >>= deliver context response

-- A Close message: the server end goes away.
abbrev pub close_server : HleContext → ℕ → Session → HleContext
close_server context handle session =
    answer
      (record context {
        sessions = record context.sessions {
          sessions =
              update context.sessions.sessions (handle - 1)
                (record session { server_closed = true });
        };
      })
      result_success

-- By the type of a request.
abbrev pub act :
    (ℕ → Interface) → HleContext → ℕ → Session → Request → MessageType → Option HleContext
act interfaces context handle session req close = some (close_server context handle session)
act interfaces context handle session req request = serve interfaces context session req

-- What follows the parse.
abbrev pub parsed : (ℕ → Interface) → HleContext → ℕ → Session → Res Request → Option HleContext
parsed interfaces context handle session (ok req) =
    act interfaces context handle session req req.type
parsed interfaces context handle session (err not_implemented) =
    some (answer context result_not_implemented)
parsed interfaces context handle session (err _) = some (answer context result_invalid_pointer)

-- What follows the read of the command buffer.
unfoldable pub receive :
    (ℕ → Interface) → HleContext → ℕ → Session → Res (List ℕ) × Context → Option HleContext
receive interfaces context handle session (err code, vmm) =
    some (answer (record context { vmm = vmm }) result_invalid_pointer)
receive interfaces context handle session (ok bytes, vmm) =
    parsed interfaces (record context { vmm = vmm }) handle session
      (ipc_request_parse (λ p. get_or bytes p 0) command_buffer_bytes)

-- `hle_svc_send_sync_request`, with the session found.
abbrev pub exchange : (ℕ → Interface) → HleContext → ℕ → Option Session → Option HleContext
exchange interfaces context handle none = some (answer context result_invalid_handle)
exchange interfaces context handle (some session) =
    if session.server_closed
    then some (answer context result_connection_closed)
    else (vmm_read_block context.vmm context.process.main_thread_tls_gva command_buffer_bytes
        >>= receive interfaces context handle session)

-- `hle_svc_send_sync_request`
unfoldable pub hle_svc_send_sync_request : (ℕ → Interface) → HleContext → Option HleContext
hle_svc_send_sync_request interfaces context =
    let handle = context.x 0 % 2 ^ 32 in
    exchange interfaces context handle (ipc_session_table_get context.sessions handle)

-- `hle_svc_close_handle`
unfoldable pub hle_svc_close_handle : HleContext → HleContext
hle_svc_close_handle context =
    let (closed, sessions) = ipc_session_table_close context.sessions (context.x 0 % 2 ^ 32) in
    if not closed
    then answer context result_invalid_handle
    else answer (record context { sessions = sessions }) result_success
