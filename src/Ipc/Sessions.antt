-- ===== src/Ipc/Sessions.antt =====
-- The session table of core/hle/kernel/ipc.c as a finite map from handles to sessions.
use voland.Base.{ℕ, zero, suc, ◌+◌, ◌-◌, ◌≤◌, ◌<◌, ◌≡◌, ◌≢◌, refl, arith, Bool, true, false, ◌||◌}
use voland.Base.{
  Option, none, some, ltb, ◌==◌, if◌then◌else◌, inl, inr, Bool-cases, Option-cases, ◌⊎◌,
}
use voland.Ipc.{
  ServiceObject, Session, SessionTable, fresh_session, first_free, max_sessions, invalid_handle,
  ipc_session_table_open, ipc_session_table_get, ipc_session_table_close,
}

first_free-some :
    (in_use : ℕ → Bool) (i n : ℕ) {k : ℕ}
    → first_free in_use i n ≡ some k
    → (i ≤ k) × (k < i + n) × (in_use k ≡ false)
unfolding first_free
first_free-some in_use i zero e = absurd cc
first_free-some in_use i (suc n) {k} e = elim (Bool-cases (in_use i)) [
  | inl used ↦
      let (low, high, free) = first_free-some in_use (i + 1) n (rw used at e) in
      (omega (arith, low), omega (arith, high), free)
  | inr free ↦
      let at : i ≡ k = ground (arith, rw free at e) in
      (omega (arith, at), omega (arith, at), rw at at free)
]

first_free-none :
    (in_use : ℕ → Bool) (i n k : ℕ)
    → first_free in_use i n ≡ none
    → i ≤ k
    → k < i + n
    → in_use k ≡ true
unfolding first_free
first_free-none in_use i zero k e low high = absurd (omega arith)
first_free-none in_use i (suc n) k e low high = elim (Bool-cases (in_use i)) [
  | inr free ↦ absurd (cc (rw free at e))
  | inl used ↦ elim (Bool-cases (k == i)) [
    | inl at ↦ let same : k ≡ i = ground arith in rw same used
    | inr off ↦ first_free-none in_use (i + 1) n k (rw used at e) (ground arith) (omega arith)
  ]
]

-- The map after a call: `h` holds `s`, every other handle what it held.
abbrev pub IsUpdated : SessionTable → SessionTable → ℕ → Option Session → Type 0
IsUpdated table after h s =
    (g : ℕ) → ipc_session_table_get after g ≡ (if g == h then s else ipc_session_table_get table g)

-- A handle that the table may hand out.
abbrev pub IsHandle : ℕ → Type 0
IsHandle h = (0 < h) × (h ≤ max_sessions)

-- What `ipc_session_table_open` may give.
abbrev pub Opened : SessionTable → ServiceObject → ℕ × SessionTable → Type 0
Opened table object (h, after) =
    ((h ≢ invalid_handle)
      × IsHandle h
      × (ipc_session_table_get table h ≡ none)
      × IsUpdated table after h (some (fresh_session object)))
    ⊎ ((h ≡ invalid_handle)
        × (after ≡ table)
        × ((g : ℕ) → IsHandle g → ipc_session_table_get table g ≢ none))

-- `ipc_session_table_open` binds the object to a handle that was not open, and leaves every other
-- session as it was; it gives the invalid handle, with the table unchanged, only when every handle
-- is open.
pub ipc_session_table_open_lem :
    (table : SessionTable) (object : ServiceObject)
    → Opened table object (ipc_session_table_open table object)
unfolding ipc_session_table_open ipc_session_table_get
ipc_session_table_open_lem table object =
    elim (Option-cases (first_free table.in_use 0 max_sessions)) [
      | inl e ↦
          rw (e, ipc_session_table_open)
            (inr (
              refl,
              refl,
              λ g h. ground (arith, first_free-none table.in_use 0 max_sessions (g - 1) e),
            ))
      | inr (i, e) ↦
          let (low, high, free) = first_free-some table.in_use 0 max_sessions e in
          rw (e, ipc_session_table_open)
            (inl (omega arith, (omega arith, omega arith), ground arith, λ g. ground arith))
    ]

-- What `ipc_session_table_close` may give.
abbrev pub Closed : SessionTable → ℕ → Bool × SessionTable → Type 0
Closed table h (true, after) = (ipc_session_table_get table h ≢ none) × IsUpdated table after h none
Closed table h (false, after) = (ipc_session_table_get table h ≡ none) × (after ≡ table)

-- `ipc_session_table_close` succeeds exactly on an open handle, which it closes and no other; else the
-- table is unchanged.
pub ipc_session_table_close_lem :
    (table : SessionTable) (h : ℕ) → Closed table h (ipc_session_table_close table h)
unfolding ipc_session_table_close ipc_session_table_get
ipc_session_table_close_lem table h =
    elim (Bool-cases (h == invalid_handle || ltb max_sessions h)) [
      | inl e ↦ rw e (ground arith)
      | inr e ↦ elim (Bool-cases (table.in_use (h - 1))) [
        | inl f ↦ rw (e, f) (ground arith, λ g. ground arith)
        | inr f ↦ rw (e, f) (ground arith)
      ]
    ]
