-- ===== src/Thread/Tests.antt =====
-- A run of core/hle/kernel/thread.c.
use voland.Base.{true, some}
use voland.Tls.Fixtures.{layout, allocator, allocator-IsPlaced, start-IsValid}
use voland.Thread.{CpuState, ThreadCreateParams, thread_create}
use voland.Thread.Creation.{CreateOutcome, thread_create_lem}

abbrev state : CpuState
state = record { x = λ i. i; sp = 1; pc = 2; pstate = 3; tpidrro_el0 = 4 }

abbrev params : ThreadCreateParams
params = record {
  entry_point = 0x8000000;
  argument = 7;
  stack_top = 0x500000;
  priority = 44;
  preferred_core = 0;
}

thread_create_lem_example :
    CreateOutcome
      (some state)
      params
      allocator
      (thread_create (λ _ _. true) layout (some state) allocator params)
thread_create_lem_example =
    thread_create_lem (λ _ _. true) layout (some state) allocator params allocator-IsPlaced
      start-IsValid
