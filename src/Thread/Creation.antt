-- ===== src/Thread/Creation.antt =====
-- thread_create and thread_destroy of core/hle/kernel/thread.c against the TLS blocks in use.
use voland.Base.{
  ℕ, zero, suc, ◌+◌, ◌%◌, ◌≡◌, refl, arith, sym, ap, fun_ext, ◌∙◌, Bool, true, not, ◌&&◌,
}
use voland.Base.{
  Option, none, some, update, ltb, leb, ◌==◌, ==_iff, if◌then◌else◌, ◌>>=◌, inl, inr, Bool-cases,
}
use voland.Result.{Res, ok, err}
use voland.Layout.{MemoryLayout}
use voland.Vmm.Inv.{IsValid}
use voland.Tls.{TlsAllocator, tls_allocate, tls_free, tls_is_allocated}
use voland.Tls.Changes.{IsPlaced}
use voland.Tls.Allocation.{Served}
use voland.Tls.Calls.{AllocateOutcome, tls_allocate_lem, FreeOutcome, tls_free_lem}
use voland.Thread.{
  CpuState, ThreadCreateParams, GuestThread, clear_registers, start_state, with_state,
  thread_create, thread_destroy, priority_lowest, core_count, stack_align,
}

-- The blocks in use are those of `a`.
abbrev pub SameBlocks : TlsAllocator → TlsAllocator → Type 0
SameBlocks a d = ((x : ℕ) → tls_is_allocated d x ≡ tls_is_allocated a x) × IsPlaced d

-- Freeing what was just allocated.
tls_free-SameBlocks :
    (a d : TlsAllocator) (gva : ℕ) → Served a (ok gva, d) → SameBlocks a (tls_free d gva).1
tls_free-SameBlocks a d gva (at, clear, moved, v) = go (tls_free d gva) (tls_free_lem d gva v)
  where
    back : (x : ℕ) → (not (x == gva) && tls_is_allocated d x) ≡ tls_is_allocated a x
    back x = elim (Bool-cases (x == gva)) [
      | inl same ↦ rw same (sym (rw ((==_iff x gva).0 same) clear))
      | inr other ↦ rw (moved x, other)
    ]

    go : (r : Res (Unit {0}) × TlsAllocator) → FreeOutcome d gva r → SameBlocks a r.1
    go (ok done, c) (used, freed, w) = (λ x. freed x ∙ back x, w)
    go (err code, c) (e, same, free) =
        let used : tls_is_allocated d gva ≡ true = moved gva ∙ ground arith in
        absurd (cc (sym used ∙ free))

-- A thread that is ready to run.
abbrev pub IsArmed : Option CpuState → ThreadCreateParams → GuestThread → Type 0
IsArmed none params thread = ⊥
IsArmed (some old) params thread =
    thread.cpu_state
    ≡ some (record {
      x = λ i. if i == 0 then params.argument else if leb i 30 then 0 else old.x i;
      sp = params.stack_top;
      pc = params.entry_point;
      pstate = 0;
      tpidrro_el0 = thread.tls_gva;
    })

clear_registers_lem :
    (x : ℕ → ℕ) (reg left i : ℕ)
    → clear_registers x reg left i ≡ (if leb reg i && ltb i (reg + left) then 0 else x i)
unfolding clear_registers
clear_registers_lem x reg zero i = ground arith
clear_registers_lem x reg (suc left) i =
    rw (clear_registers_lem (update x reg 0) (reg + 1) left i) (ground arith)

start_x :
    (x : ℕ → ℕ) (argument : ℕ)
    → update (clear_registers x 0 31) 0 argument
      ≡ (λ i. if i == 0 then argument else if leb i 30 then 0 else x i)
start_x x argument = fun_ext (λ i. rw (clear_registers_lem x 0 31 i) (ground arith))

-- What creating a thread may give: one that is armed and owns a block that was free, and destroying
-- it then gives back the blocks; or an error, and the blocks are as they were.
abbrev pub CreateOutcome :
    Option CpuState
    → ThreadCreateParams
    → TlsAllocator
    → Option (Res GuestThread × TlsAllocator)
    → Type 0
CreateOutcome created params a none = ⊥
CreateOutcome created params a (some (ok thread, d)) =
    IsArmed created params thread
    × Served a (ok thread.tls_gva, d)
    × SameBlocks a (thread_destroy d thread).0
CreateOutcome created params a (some (err code, d)) = SameBlocks a d

with_state_lem :
    (created : Option CpuState) (params : ThreadCreateParams) (a : TlsAllocator)
    (r : Res ℕ × TlsAllocator)
    → Served a r
    → CreateOutcome created params a (some (with_state created params r))
unfolding start_state thread_destroy
with_state_lem created params a (err code, d) served = served
with_state_lem none params a (ok gva, d) served = tls_free-SameBlocks a d gva served
with_state_lem (some state) params a (ok gva, d) served = (
  ap
      (λ (f : ℕ → ℕ). some (record {
        x = f;
        sp = params.stack_top;
        pc = params.entry_point;
        pstate = 0;
        tpidrro_el0 = gva;
      }))
      (start_x state.x params.argument),
  served,
  tls_free-SameBlocks a d gva served,
)

-- `thread_create`, with TLS pages placed as they promise and the MMU's invariant, returns. On success
-- the thread's start state has X0 the argument, X1 to X30 zero, SP, PC and PSTATE as asked for, and
-- tpidrro_el0 the thread's TLS block, which lies in the region and was free before; exactly that block
-- is allocated besides those before, and `thread_destroy` gives exactly those back. On failure, also
-- of the backend, the allocated blocks are those before.
pub thread_create_lem :
    (granted : ℕ → ℕ → Bool) (layout : MemoryLayout) (created : Option CpuState) (a : TlsAllocator)
    (params : ThreadCreateParams)
    → IsPlaced a
    → IsValid a.vmm
    → CreateOutcome created params a (thread_create granted layout created a params)
unfolding thread_create
thread_create_lem granted layout created a params v b =
    elim (Bool-cases (ltb priority_lowest params.priority)) [
      | inl bad ↦ rw bad (λ x. refl, v)
      | inr priority ↦ elim (Bool-cases (leb core_count params.preferred_core)) [
        | inl bad ↦ rw (priority, bad) (λ x. refl, v)
        | inr core ↦ elim (Bool-cases (params.stack_top % stack_align == 0)) [
          | inr bad ↦ rw (priority, core, bad) (λ x. refl, v)
          | inl stack ↦
              rw (priority, core, stack)
                (served (tls_allocate granted layout a) (tls_allocate_lem granted layout a v b))
        ]
      ]
    ]
  where
    served :
        (r : Option (Res ℕ × TlsAllocator))
        → AllocateOutcome a r
        → CreateOutcome created params a (r >>= λ q. some (with_state created params q))
    served none k = k
    served (some r) k = with_state_lem created params a r k
