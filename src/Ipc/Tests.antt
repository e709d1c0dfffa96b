-- ===== src/Ipc/Tests.antt =====
-- Runs of core/hle/kernel/ipc.c: a request as libnx lays it out, an interface of two commands, and a
-- session table.
use voland.Base.{ℕ, ◌+◌, Bool, some}
use voland.Ipc.{null_object, ipc_session_table_init, ipc_session_table_open}
use voland.Ipc.Parse.{
  Request, request, ipc_request_parse, write_u32, sfci_magic, command_buffer_bytes,
}
use voland.Ipc.Parse.Bounds.{InBuffer, ipc_request_parse-InBuffer}
use voland.Ipc.Dispatch.{Interface, ipc_dispatch}
use voland.Ipc.Dispatch.Search.{Dispatched, ipc_dispatch_lem}
use voland.Ipc.Sessions.{Opened, ipc_session_table_open_lem}

-- Type 4, eight data words, the CMIF header at 16 with command 1.
abbrev buffer : ℕ → ℕ
buffer = write_u32 (write_u32 (write_u32 (write_u32 (λ _. 0) 0 4) 4 8) 16 sfci_magic) 24 1

ipc_request_parse-InBuffer_example : InBuffer buffer (ipc_request_parse buffer command_buffer_bytes)
ipc_request_parse-InBuffer_example = ipc_request_parse-InBuffer buffer command_buffer_bytes

abbrev interface : Interface
interface = record {
  command_ids = λ i. i;
  handlers = λ i object req res. (i + 40, res);
  command_count = 2;
}

abbrev get_service : Request
get_service = record {
  type = request;
  command_id = 1;
  has_pid = Bool.false;
  guest_pid = 0;
  buffer = buffer;
  data_offset = some 32;
  data_size = 8;
}

ipc_dispatch_lem_example :
    Dispatched interface
      (record { interface = some 5; instance_ptr = 6 })
      get_service
      (ipc_dispatch (λ _. interface) (record { interface = some 5; instance_ptr = 6 }) get_service)
ipc_dispatch_lem_example = ipc_dispatch_lem (λ _. interface) 5 6 get_service (λ i j lt in_table. lt)

ipc_session_table_open_lem_example :
    Opened ipc_session_table_init null_object
      (ipc_session_table_open ipc_session_table_init null_object)
ipc_session_table_open_lem_example = ipc_session_table_open_lem ipc_session_table_init null_object
