-- ===== src/Hle/SvcIpc/Handles.antt =====
-- `hle_svc_connect_to_named_port` and `hle_svc_close_handle` (core/hle/kernel/svc_ipc.c) on the session
-- table.
use voland.Base.{
  ℕ, ◌+◌, ◌%◌, ◌^◌, ◌<◌, ◌≡◌, ◌≢◌, refl, arith, Bool, true, false, ◌⊎◌, inl, inr, update,
  Bool-cases,
}
use voland.Base.{
  Option, none, some, List, [], ◌∷◌, length, ◌==◌, if◌then◌else◌, ◌>>=◌, same_bytes,
  same_bytes_self, same_bytes→eq,
}
use voland.Ipc.{
  SessionTable, ipc_session_table_open, ipc_session_table_get, ipc_session_table_close,
  invalid_handle, fresh_session,
}
use voland.Ipc.Sessions.{
  Opened, Closed, IsHandle, IsUpdated, ipc_session_table_open_lem, ipc_session_table_close_lem,
}
use voland.Vmm.{Context, perm_r}
use voland.Vmm.Translate.{Accessible}
use voland.Vmm.Blocks.{guest_bytes}
use voland.Hle.{
  HleContext, answer, result_success, result_invalid_handle, result_invalid_pointer,
  result_not_found, result_out_of_sessions, result_out_of_range,
}
use voland.Hle.SvcIpc.{
  NameRead, name, too_long, bad_pointer, read_name, connect, hle_svc_connect_to_named_port,
  hle_svc_close_handle, port_name_max_bytes, sm_port_name,
}
use voland.Hle.SvcIpc.PortName.{Holds, HasName, ReadName, read_name_lem}

-- What closing the handle `h` may give.
abbrev pub HandleClosed : HleContext → ℕ → HleContext → Type 0
HandleClosed context h after =
    ((after.x 0 ≡ result_success)
      × (ipc_session_table_get context.sessions h ≢ none)
      × IsUpdated context.sessions after.sessions h none)
    ⊎ ((after.x 0 ≡ result_invalid_handle)
        × (ipc_session_table_get context.sessions h ≡ none)
        × (after.sessions ≡ context.sessions))

-- `hle_svc_close_handle` closes the session that the low 32 bits of X0 name and no other, or answers
-- INVALID_HANDLE and changes no session when that handle is not open.
pub hle_svc_close_handle_lem :
    (context : HleContext)
    → HandleClosed context (context.x 0 % 2 ^ 32) (hle_svc_close_handle context)
unfolding hle_svc_close_handle
hle_svc_close_handle_lem context =
    go (ipc_session_table_close context.sessions (context.x 0 % 2 ^ 32)) refl
      (ipc_session_table_close_lem context.sessions (context.x 0 % 2 ^ 32))
  where
    h : ℕ
    h = context.x 0 % 2 ^ 32

    go :
        (r : Bool × SessionTable)
        → ipc_session_table_close context.sessions h ≡ r
        → Closed context.sessions h r
        → HandleClosed context h (hle_svc_close_handle context)
    go (true, after) e (was, closed) = rw (e, hle_svc_close_handle) (inl (refl, was, closed))
    go (false, after) e (gone, same) = rw (e, hle_svc_close_handle) (inr (refl, gone, refl))

-- What connecting may give.
pub data IsConnected (context d : HleContext) : Type 0 where
  connected :
      HasName context.vmm (context.x 1) (b's' ∷ b'm' ∷ b':' ∷ [])
      → (h : ℕ) → IsHandle h
      → ipc_session_table_get context.sessions h ≡ none
      → IsUpdated context.sessions d.sessions h (some (fresh_session context.sm_object))
      → d ≡ record context {
        sessions = d.sessions;
        x = update (update context.x 0 result_success) 1 h;
      }
      → IsConnected context d
  full :
      HasName context.vmm (context.x 1) (b's' ∷ b'm' ∷ b':' ∷ [])
      → ((g : ℕ) → IsHandle g → ipc_session_table_get context.sessions g ≢ none)
      → d ≡ answer context result_out_of_sessions
      → IsConnected context d
  unknown :
      (s : List ℕ)
      → HasName context.vmm (context.x 1) s
      → s ≢ b's' ∷ b'm' ∷ b':' ∷ []
      → d ≡ answer context result_not_found
      → IsConnected context d
  unended :
      (s : List ℕ)
      → length s ≡ 12
      → Holds context.vmm (context.x 1) s
      → d ≡ answer context result_out_of_range
      → IsConnected context d
  unreadable :
      (s : List ℕ)
      → length s < 12
      → Holds context.vmm (context.x 1) s
      → (¬ Accessible context.vmm perm_r (context.x 1 + length s))
      → d
        ≡ answer
            (record context { vmm = record context.vmm { last_fault = d.vmm.last_fault } })
            result_invalid_pointer
      → IsConnected context d

abbrev pub Connected : HleContext → Option HleContext → Type 0
Connected context r = (d : HleContext) × (r ≡ some d) × IsConnected context d

-- What the table's answer to `sm:` leads to.
Opened-IsConnected :
    (context : HleContext)
    → HasName context.vmm (context.x 1) sm_port_name
    → (r : ℕ × SessionTable) → Opened context.sessions context.sm_object r
    → IsConnected context (
        if r.0 == invalid_handle then answer context result_out_of_sessions else record context {
          sessions = r.1;
          x = update (update context.x 0 result_success) 1 r.0;
        })
Opened-IsConnected context named (h, after) (inl (ne, handle, free, updated)) =
    let test : (h == invalid_handle) ≡ false = ground arith in
    rw test (connected named h handle free updated refl)
Opened-IsConnected context named (h, after) (inr (z, same, every)) = rw z (full named every refl)

connect-Connected :
    (context : HleContext) (r : Option (NameRead × Context))
    → ReadName context.vmm (context.x 1) r
    → Connected context
        (r >>= λ r. let (n, vmm) = r in some (connect (record context { vmm = vmm }) n))
unfolding connect
connect-Connected context none w = absurd w
connect-Connected context (some (too_long, c)) (s, same, long, held) =
    rw same (_, refl, unended s long held refl)
connect-Connected context (some (bad_pointer, c)) (s, same, short, held, off) =
    rw same (_, refl, unreadable s short held off refl)
connect-Connected context (some (name s, c)) (same, named) =
    elim (Bool-cases (same_bytes s sm_port_name)) [
      | inr e ↦
          rw (same, e)
            (
              _,
              refl,
              unknown s named (λ q. ground (arith, rw q at e, same_bytes_self sm_port_name)) refl,
            )
      | inl e ↦
          let text = same_bytes→eq s sm_port_name e in
          rw (same, e)
            (
              _,
              refl,
              Opened-IsConnected context (rw text at named)
                  (ipc_session_table_open context.sessions context.sm_object)
                  (ipc_session_table_open_lem context.sessions context.sm_object),
            )
    ]

-- `hle_svc_connect_to_named_port` never aborts, whatever X1 points to. If it is the text `sm:` with
-- its NUL, X0 is success and X1 a handle that was not open and now is a fresh session of sm:'s object,
-- and every other session is as it was; or every handle is open, and the answer is OUT_OF_SESSIONS.
-- For another text of less than 12 bytes it is NOT_FOUND, for 12 bytes without a NUL OUT_OF_RANGE, and
-- for a byte up to the NUL that the guest may not read INVALID_POINTER. Success changes no more than
-- X0, X1 and the sessions, a failure no more than X0 and, on a byte not readable, the record of the
-- fault.
pub hle_svc_connect_to_named_port_lem :
    (context : HleContext) → Connected context (hle_svc_connect_to_named_port context)
unfolding hle_svc_connect_to_named_port guest_bytes
hle_svc_connect_to_named_port_lem context =
    connect-Connected context (read_name context.vmm (context.x 1) [] port_name_max_bytes) (
      read_name_lem context.vmm (context.x 1) port_name_max_bytes (context.x 1) [] (omega arith)
        (omega arith)
        (record { readable = λ x low high. absurd (omega arith); bytes = refl; before_nul = tt }))
