-- ===== src/Process.antt =====
-- core/hle/kernel/process.h: the process, as far as the SVC handlers read and write it. The array
-- `heap_borrows` with its count is the list of its live entries.
use voland.Base.{ℕ, List}
use voland.AddressSpace.{AddressSpace}

-- PROCESS_HEAP_SIZE_GRANULE, PROCESS_MAX_HEAP_BORROWS
abbrev pub heap_size_granule : ℕ
heap_size_granule = 0x200000

abbrev pub max_heap_borrows : ℕ
max_heap_borrows = 8

-- `Memory_Borrow`
pub record MemoryBorrow : Type 0 where
  pub dst_base : ℕ
  pub src_base : ℕ
  pub size : ℕ

-- `Process`
pub record Process : Type 0 where
  pub address_space : AddressSpace
  pub main_thread_tls_gva : ℕ
  pub heap_size : ℕ
  pub heap_borrows : List MemoryBorrow
