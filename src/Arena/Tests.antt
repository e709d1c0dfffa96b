-- ===== src/Arena/Tests.antt =====
-- Runs of core/common/arena.c.
use voland.Base.{◌≡◌, refl, some, true}
use voland.Arena.{Arena, align_up, arena_allocate}

-- An arena of 100 bytes at 64, of which 13 are used.
abbrev arena : Arena
arena = record { base = 64; capacity_bytes = 100; used_bytes = 13; owns_memory = true }

abbrev after : Arena
after = record arena { used_bytes = 36 }

given : arena_allocate arena 20 8 ≡ (some 80, after)
unfolding arena_allocate align_up
given = refl
