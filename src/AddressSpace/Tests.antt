-- ===== src/AddressSpace/Tests.antt =====
-- Runs of core/hle/kernel/address_space.c.
use voland.Base.{arith}
use voland.AddressSpace.{bits_64_39, AddressRegion, address_space_init}
use voland.AddressSpace.Placement.{Initialised, address_space_init_lem}

address_space_init_lem_example :
    Initialised bits_64_39 0x123456 (address_space_init bits_64_39 0x123456 77)
address_space_init_lem_example = address_space_init_lem bits_64_39 0x123456 77 (omega arith)

abbrev heap : AddressRegion
heap = record { base = 0x200000; size = 0x1000 }
