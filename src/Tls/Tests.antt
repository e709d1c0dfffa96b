-- ===== src/Tls/Tests.antt =====
-- A run of core/hle/kernel/tls.c on a region of two pages.
use voland.Base.{true}
use voland.Tls.{tls_allocate}
use voland.Tls.Calls.{AllocateOutcome, tls_allocate_lem}
use voland.Tls.Fixtures.{layout, allocator, allocator-IsPlaced, start-IsValid}

tls_allocate_lem_example : AllocateOutcome allocator (tls_allocate (λ _ _. true) layout allocator)
tls_allocate_lem_example =
    tls_allocate_lem (λ _ _. true) layout allocator allocator-IsPlaced start-IsValid
