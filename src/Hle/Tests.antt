-- ===== src/Hle/Tests.antt =====
-- Runs of core/hle/kernel/svc_ipc.c at a context with one open session.
use voland.Base.{ℕ, ◌≡◌, refl, arith, Option, some, none, []}
use voland.AddressSpace.{NpdmAddressSpace, place}
use voland.PageAllocator.{PageAllocator}
use voland.Process.{Process}
use voland.Result.{Res}
use voland.Arena.{arena_allocate, align_up}
use voland.Vmm.{
  Context, perm_rw, is_valid_byte_range, is_valid_page_range, pte_load, pte_store, make_pte,
  count_absent_l2_slots, count_absent, l2_table_acquire, carve_table,
}
use voland.Vmm.Map.{vmm_map, any_mapped, map_pages, ensure_table, enter_page}
use voland.Vmm.Access.{
  vmm_read_block, validate_byte_range, validate_from, vmm_translate_inline, copy_guest_to_host,
  chunk_of, read_bytes,
}
use voland.Ipc.Parse.{write_u32, sfci_magic}
use voland.Layout.{MemoryLayout, guest_ram_size}
use voland.Ipc.{null_object, ipc_session_table_init, ipc_session_table_open, first_free}
use voland.Ipc.Dispatch.{Interface}
use voland.Vmm.Create.{created_context}
use voland.Hle.{HleContext}
use voland.Hle.SvcIpc.{hle_svc_send_sync_request}
use voland.Hle.SvcIpc.{hle_svc_connect_to_named_port, read_name, connect}
use voland.Hle.SvcIpc.Handles.{Connected, hle_svc_connect_to_named_port_lem}
use voland.Hle.SvcIpc.Rollback.{Answered, HandlersBounded, hle_svc_send_sync_request-Answered}

abbrev layout : MemoryLayout
layout = record {
  guest_ram_base = 0x100000;
  ram_size = guest_ram_size;
  page_table_l1_base = 0;
  framebuffer_slot_base = 0;
  audio_ring_base = 0;
  gpu_ring_base = 0;
  gpu_completion_ring_base = 0;
  input_region_base = 0;
  trace_buffer_base = 0;
  breakpoint_region_base = 0;
}

-- Command 0 answers with the number of the request's command.
abbrev interface : Interface
interface = record {
  command_ids = λ i. i;
  handlers = λ i object req res. (req.command_id, res);
  command_count = 1;
}

-- A request as libnx lays it out, in the page of guest RAM that is the TLS's, and the text `sm:`.
abbrev memory : ℕ → ℕ
memory =
    write_u32 (write_u32 (write_u32 (write_u32 (λ _. 0) 0x103000 4) 0x103004 8) 0x103010 sfci_magic)
      0x103800 0x3A6D73

abbrev context_of : Option (Res (Unit {0}) × Context) → Context
context_of none = created_context layout 64 memory
context_of (some (r, c)) = c

abbrev process : Process
process = record {
  address_space = place NpdmAddressSpace.bits_64_39 0x8000000 0x10000;
  main_thread_tls_gva = 0x10000;
  heap_size = 0;
  heap_borrows = [];
}

abbrev pages : PageAllocator
pages = record { base_pa = 0; size_bytes = 0x10000000; used_bytes = 0x400000; free_runs = [] }

abbrev context : HleContext
context = record {
  vmm = context_of (vmm_map (created_context layout 64 memory) 0x10000 0x3000 4096 perm_rw);
  process = process;
  pages = pages;
  sessions =
      (ipc_session_table_open ipc_session_table_init
        (record { interface = some 7; instance_ptr = 0 })).1;
  sm_object = null_object;
  svc_call_count = 0;
  x = λ _. 1;
}

bounded : HandlersBounded (λ _. interface)
bounded pointer i object req = omega arith

hle_svc_send_sync_request-Answered_example :
    Answered context (hle_svc_send_sync_request (λ _. interface) context)
hle_svc_send_sync_request-Answered_example =
    hle_svc_send_sync_request-Answered (λ _. interface) context bounded

-- The same with X1 at the text `sm:`, in the page that is mapped.
abbrev connecting : HleContext
connecting = record context { x = λ _. 0x10800 }

abbrev answered : Option HleContext → ℕ × ℕ
answered none = (1, 0)
answered (some d) = (d.x 0, d.x 1)

second_session : answered (hle_svc_connect_to_named_port connecting) ≡ (0, 2)
unfolding hle_svc_connect_to_named_port read_name connect ipc_session_table_open first_free
    vmm_read_block validate_byte_range validate_from is_valid_byte_range vmm_translate_inline
    copy_guest_to_host chunk_of read_bytes vmm_map is_valid_page_range any_mapped pte_load
    count_absent_l2_slots count_absent map_pages ensure_table l2_table_acquire carve_table
    arena_allocate align_up enter_page pte_store make_pte write_u32
second_session = refl

hle_svc_connect_to_named_port_lem_example :
    Connected connecting (hle_svc_connect_to_named_port connecting)
hle_svc_connect_to_named_port_lem_example = hle_svc_connect_to_named_port_lem connecting
