-- ===== src/Hle/SvcIpc/Rollback.antt =====
-- No session is lost on an error of `hle_svc_send_sync_request` (core/hle/kernel/svc_ipc.c).
use voland.Base.{
  ◌%◌, ◌^◌, ℕ, ◌+◌, ◌*◌, ◌≤◌, ◌≡◌, ◌≢◌, refl, arith, Bool, true, false, not, ◌||◌, update,
  update_ne,
}
use voland.Base.{
  Option, none, some, List, [], ◌∷◌, length, ltb, ◌==◌, if◌then◌else◌, inl, inr, sym, ◌∙◌, get_or,
  ap, ◌>>=◌,
}
use voland.Result.{Res, ok, err, not_implemented}
use voland.Ipc.{
  ServiceObject, Response, Session, SessionTable, ipc_session_table_open, ipc_session_table_get,
  ipc_session_table_close, invalid_handle,
}
use voland.Ipc.Parse.{
  Request, request, close, MessageType, ipc_request_parse, ipc_response_write, command_buffer_bytes,
}
use voland.Ipc.Dispatch.{
  run_command, Interface, ipc_dispatch, cleared_response, search, result_not_implemented,
}
use voland.Ipc.Sessions.{Opened, Closed, ipc_session_table_open_lem, ipc_session_table_close_lem}
use voland.Vmm.{Context}
use voland.Vmm.Access.{vmm_read_block, vmm_write_block, read_bytes}
use voland.Vmm.Transfers.{BlockRead, BlockWritten, vmm_read_block_lem, vmm_write_block_lem}
use voland.Hle.{
  HleContext, answer, result_success, result_invalid_pointer, result_connection_closed,
  result_invalid_handle,
}
use voland.Hle.SvcIpc.{
  close_handles, open_objects, written, reply, deliver, serve, act, parsed, receive, exchange,
  hle_svc_send_sync_request,
}

-- No handler moves out more than the one object that a response has room for.
abbrev pub HandlersBounded : (ℕ → Interface) → Type 0
HandlersBounded interfaces =
    (pointer i : ℕ) (object : ServiceObject) (req : Request)
    → length ((interfaces pointer).handlers i object req cleared_response).1.out_objects ≤ 1

-- The same sessions under the same handles.
abbrev pub SameSessions : SessionTable → SessionTable → Type 0
SameSessions table after = (g : ℕ) → ipc_session_table_get after g ≡ ipc_session_table_get table g

-- An answer that, unless it is success, leaves every session as it was.
abbrev pub Answered : HleContext → Option HleContext → Type 0
Answered context none = ⊥
Answered context (some after) =
    ((after.x 0 ≢ result_success) → SameSessions context.sessions after.sessions)
    × ((i : ℕ) → i ≢ 0 → after.x i ≡ context.x i)

answer-Answered :
    (context : HleContext) (vmm : Context) (sessions : SessionTable) (result : ℕ)
    → ((result ≢ result_success) → SameSessions context.sessions sessions)
    → Answered context (some (answer (record context { vmm = vmm; sessions = sessions }) result))
answer-Answered context vmm sessions result same = (same, λ i ne. update_ne context.x 0 result i ne)

dispatch_bounded :
    (interfaces : ℕ → Interface) (object : ServiceObject) (req : Request)
    → HandlersBounded interfaces
    → length (ipc_dispatch interfaces object req).out_objects ≤ 1
unfolding ipc_dispatch
dispatch_bounded interfaces object req bounded = go object.interface
  where
    ran :
        (pointer : ℕ) (r : Option ℕ)
        → length (run_command (interfaces pointer) object req r).out_objects ≤ 1
    ran pointer none = omega arith
    ran pointer (some i) = bounded pointer i object req

    go :
        (p : Option ℕ)
        → length
            (elim p as (λ _. Response) [
              | none ↦ record cleared_response { result = result_not_implemented }
              | some pointer ↦
                  let iface = interfaces pointer in
                  run_command iface object req (
                    search iface.command_ids req.command_id 0 iface.command_count
                      iface.command_count)
            ]).out_objects
          ≤ 1
    go none = omega arith
    go (some pointer) =
        let iface = interfaces pointer in
        ran pointer
          (search iface.command_ids req.command_id 0 iface.command_count iface.command_count)

-- A response with a handle for each of its objects, one at most, always fits.
write-fits :
    (response : Response) (handles : List ℕ)
    → length handles ≡ length response.out_objects
    → length handles ≤ 1
    → (buffer : ℕ → ℕ) × (ipc_response_write command_buffer_bytes response handles ≡ ok buffer)
unfolding ipc_response_write
write-fits response handles e le =
    go (ipc_response_write command_buffer_bytes response handles) refl
  where
    accepted :
        (not (command_buffer_bytes == command_buffer_bytes)
          || not (length handles == length response.out_objects))
        ≡ false
    accepted = ground arith

    fits :
        ltb command_buffer_bytes
          ((if ltb 0 (length handles) then 12 + length handles * 4 else 8) + 32)
        ≡ false
    fits = ground arith

    go :
        (r : Res (ℕ → ℕ))
        → ipc_response_write command_buffer_bytes response handles ≡ r
        → (buffer : ℕ → ℕ) × (ipc_response_write command_buffer_bytes response handles ≡ ok buffer)
    go (ok buffer) q = (buffer, q)
    go (err code) q = absurd (cc (rw (accepted, fits, ipc_response_write) at q))

-- A session that was just opened is taken back.
open-close :
    (table : SessionTable) (object : ServiceObject) {h : ℕ} {after : SessionTable}
    → Opened table object (h, after)
    → h ≢ invalid_handle
    → (u : SessionTable) × (close_handles after (h ∷ []) ≡ some u) × SameSessions table u
unfolding close_handles
open-close table object {h} {after} (inr rest) ne = absurd (ne rest.0)
open-close table object {h} {after} (inl (z, handle, free, updated)) ne =
    go (ipc_session_table_close after h) refl (ipc_session_table_close_lem after h)
  where
    go :
        (r : Bool × SessionTable)
        → ipc_session_table_close after h ≡ r
        → Closed after h r
        → (u : SessionTable) × (close_handles after (h ∷ []) ≡ some u) × SameSessions table u
    go (false, u) e (gone, same) = absurd (ground (arith, gone, updated h))
    go (true, u) e (was, closed) =
        (u, rw (e, close_handles), λ g. ground (arith, closed g, updated g, free))

reply-Answered :
    (before context : HleContext) (response : Response) (handles : List ℕ)
    → length handles ≡ length response.out_objects
    → length handles ≤ 1
    → ((u : SessionTable) × (close_handles context.sessions handles ≡ some u)
        × SameSessions before.sessions u)
    → context.x ≡ before.x
    → Answered before (reply context response handles)
unfolding reply
reply-Answered before context response handles e le (u, back, same) regs =
    let (buffer, w) = write-fits response handles e le in
    let bytes = read_bytes buffer 0 command_buffer_bytes in
    rw (w, reply)
      (go bytes (vmm_write_block context.vmm context.process.main_thread_tls_gva bytes)
        (vmm_write_block_lem context.vmm context.process.main_thread_tls_gva bytes))
  where
    registers : (result i : ℕ) → i ≢ 0 → update context.x 0 result i ≡ before.x i
    registers result i ne = update_ne context.x 0 result i ne ∙ ap (λ f. f i) regs

    go :
        (src : List ℕ) (r : Option (Res (Unit {0}) × Context))
        → BlockWritten context.vmm context.process.main_thread_tls_gva src r
        → Answered before (r >>= written context handles)
    go src none w = absurd w
    go src (some (ok done, vmm)) w = (λ ne. absurd (ne refl), registers result_success)
    go src (some (err code, vmm)) w = rw back (λ ne. same, registers result_invalid_pointer)

serve-Answered :
    (interfaces : ℕ → Interface) (context : HleContext) (session : Session) (req : Request)
    → HandlersBounded interfaces
    → Answered context (serve interfaces context session req)
unfolding serve open_objects close_handles
serve-Answered interfaces context session req bounded =
    go (ipc_dispatch interfaces session.object req)
      (ipc_dispatch interfaces session.object req).out_objects refl
      (dispatch_bounded interfaces session.object req bounded)
  where
    one :
        (response : Response) (object : ServiceObject)
        → response.out_objects ≡ object ∷ []
        → (r : ℕ × SessionTable) → Opened context.sessions object r
        → (t : Bool) → (r.0 == invalid_handle) ≡ t
        → Answered context (
            (if t
              then (close_handles r.1 [] >>= λ s. some (none, s))
              else some (some (r.0 ∷ []), r.1))
            >>= deliver context response)
    one response object e (h, after) (inl opened) true q = absurd (ground (arith, opened))
    one response object e (h, after) (inr (z, same, full)) true q =
        (λ ne g. ap (λ t. ipc_session_table_get t g) same, λ i ne. update_ne context.x 0 _ i ne)
    one response object e (h, after) (inr opened) false q = absurd (ground (arith, opened))
    one response object e (h, after) (inl opened) false q =
        reply-Answered context (record context { sessions = after }) response (h ∷ [])
          (ap length (sym e)) (omega arith)
          (open-close context.sessions object (inl opened) opened.0) refl

    go :
        (response : Response) (objects : List ServiceObject)
        → response.out_objects ≡ objects
        → length objects ≤ 1
        → Answered context (open_objects context.sessions objects [] >>= deliver context response)
    go response [] e le =
        reply-Answered context context response [] (ap length (sym e)) (omega arith)
          (context.sessions, refl, λ g. refl) refl
    go response (object ∷ []) e le =
        one response object e (ipc_session_table_open context.sessions object)
          (ipc_session_table_open_lem context.sessions object)
          ((ipc_session_table_open context.sessions object).0 == invalid_handle) refl
    go response (object ∷ other ∷ objects) e le = absurd (omega arith)

parsed-Answered :
    (interfaces : ℕ → Interface) (before context : HleContext) (handle : ℕ) (session : Session)
    (r : Res Request)
    → HandlersBounded interfaces
    → context.sessions ≡ before.sessions
    → context.x ≡ before.x
    → Answered before (parsed interfaces context handle session r)
parsed-Answered interfaces before context handle session r bounded same regs = go r
  where
    registers : (result i : ℕ) → i ≢ 0 → update context.x 0 result i ≡ before.x i
    registers result i ne = update_ne context.x 0 result i ne ∙ ap (λ f. f i) regs

    kept : SameSessions before.sessions context.sessions
    kept g = ap (λ t. ipc_session_table_get t g) same

    back : (r : Option HleContext) → Answered context r → Answered before r
    back none a = absurd a
    back (some after) a = (λ ne g. a.0 ne g ∙ kept g, λ i ne. a.1 i ne ∙ ap (λ f. f i) regs)

    by_type :
        (req : Request) (t : MessageType)
        → Answered before (act interfaces context handle session req t)
    by_type req close = (λ ne. absurd (ne refl), registers result_success)
    by_type req request =
        back (serve interfaces context session req)
          (serve-Answered interfaces context session req bounded)

    go : (r : Res Request) → Answered before (parsed interfaces context handle session r)
    go (err not_implemented) = (λ ne. kept, registers result_not_implemented)
    go (err _) = (λ ne. kept, registers result_invalid_pointer)
    go (ok req) = by_type req req.type

module _ (interfaces : ℕ → Interface) (context : HleContext)
    (bounded : HandlersBounded interfaces) where
  unchanged : (result : ℕ) → Answered context (some (answer context result))
  unchanged result = (λ ne g. refl, λ i ne. update_ne context.x 0 result i ne)

  receive-Answered :
      (handle : ℕ) (session : Session) (r : Option (Res (List ℕ) × Context))
      → BlockRead context.vmm context.process.main_thread_tls_gva command_buffer_bytes r
      → Answered context (r >>= receive interfaces context handle session)
  unfolding receive
  receive-Answered handle session none w = absurd w
  receive-Answered handle session (some (err code, vmm)) w = unchanged result_invalid_pointer
  receive-Answered handle session (some (ok bytes, vmm)) w =
      parsed-Answered interfaces context (record context { vmm = vmm }) handle session
        (ipc_request_parse (λ p. get_or bytes p 0) command_buffer_bytes) bounded refl refl

  exchange-Answered :
      (handle : ℕ) (s : Option Session) → Answered context (exchange interfaces context handle s)
  exchange-Answered handle none = unchanged result_invalid_handle
  exchange-Answered handle (some session) = go session.server_closed
    where
      go :
          (closed : Bool)
          → Answered context (
              if closed
              then some (answer context result_connection_closed)
              else (vmm_read_block context.vmm context.process.main_thread_tls_gva
                    command_buffer_bytes
                  >>= receive interfaces context handle session))
      go true = unchanged result_connection_closed
      go false =
          receive-Answered handle session
            (vmm_read_block context.vmm context.process.main_thread_tls_gva command_buffer_bytes)
            (vmm_read_block_lem context.vmm context.process.main_thread_tls_gva
              command_buffer_bytes)

-- Where no handler moves out more objects than a response has room for, `hle_svc_send_sync_request`
-- never aborts, whatever the guest's command buffer, page tables and handles; an answer other than
-- success leaves every session open or closed as it was, so that no handle that the guest does not
-- receive holds a slot; and no register but X0 changes.
pub hle_svc_send_sync_request-Answered :
    (interfaces : ℕ → Interface) (context : HleContext)
    → HandlersBounded interfaces
    → Answered context (hle_svc_send_sync_request interfaces context)
unfolding hle_svc_send_sync_request
hle_svc_send_sync_request-Answered interfaces context bounded =
    let handle = context.x 0 % 2 ^ 32 in
    exchange-Answered interfaces context bounded handle
      (ipc_session_table_get context.sessions handle)
