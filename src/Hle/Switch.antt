-- ===== src/Hle/Switch.antt =====
-- core/hle/hle.c: hle_context_init, and the switch of hle_on_svc over the handlers. The names of the
-- calls (svc_name) go to the log only.
use voland.Base.{ℕ, ◌+◌, ◌%◌, ◌^◌, Option, some, ◌==◌, if◌then◌else◌, Bool}
use voland.Layout.{MemoryLayout}
use voland.Ipc.{null_object, ipc_session_table_init}
use voland.Ipc.Dispatch.{Interface, result_not_implemented}
use voland.PageAllocator.{PageAllocator}
use voland.Process.{Process}
use voland.Vmm.{Context}
use voland.Hle.{HleContext, answer, hle_reset_process_state}
use voland.Hle.SvcIpc.{
  hle_svc_close_handle, hle_svc_connect_to_named_port, hle_svc_send_sync_request,
}
use voland.Hle.SvcMemory.{hle_svc_set_heap_size}
use voland.Hle.SvcMemory.Alias.{hle_svc_map_memory, hle_svc_unmap_memory}
use voland.Hle.SvcMemory.Query.{hle_svc_query_memory}

-- `hle_context_init`; `x` is the register file of the CPU.
unfoldable pub hle_context_init : Context → Process → PageAllocator → (ℕ → ℕ) → HleContext
hle_context_init vmm process pages x = hle_reset_process_state (record {
  vmm = vmm;
  process = process;
  pages = pages;
  sessions = ipc_session_table_init;
  sm_object = null_object;
  svc_call_count = 0;
  x = x;
})

-- The switch of `hle_on_svc`.
unfoldable pub handle_svc :
    (ℕ → Interface) → (ℕ → ℕ → Bool) → MemoryLayout → HleContext → ℕ → Option HleContext
handle_svc interfaces granted layout context swi =
    if swi == 0x01
    then hle_svc_set_heap_size granted layout context
    else if swi == 0x04
    then hle_svc_map_memory layout context
    else if swi == 0x05
    then hle_svc_unmap_memory context
    else if swi == 0x06
    then hle_svc_query_memory context
    else if swi == 0x16
    then some (hle_svc_close_handle context)
    else if swi == 0x1F
    then hle_svc_connect_to_named_port context
    else if swi == 0x21
    then hle_svc_send_sync_request interfaces context
    else some (answer context result_not_implemented)

-- `hle_on_svc`
unfoldable pub hle_on_svc :
    (ℕ → Interface) → (ℕ → ℕ → Bool) → MemoryLayout → HleContext → ℕ → Option HleContext
hle_on_svc interfaces granted layout context swi =
    handle_svc interfaces granted layout
      (record context { svc_call_count = (context.svc_call_count + 1) % 2 ^ 64 }) swi
