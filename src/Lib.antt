-- ===== src/Lib.antt =====
-- Voland is an HLE emulator core. This library models its memory system, the kernel calls on it, the
-- kernel's IPC layer and the readers of a title's files: the bump arena (Arena: core/common/arena.c),
-- the division of linear memory (Layout: core/common/layout.c), the allocator of guest physical pages
-- (PageAllocator: core/hle/kernel/page_allocator.c), the software MMU (Vmm: core/common/vmm.c and
-- vmm.h), the regions of a process (AddressSpace: core/hle/kernel/address_space.c; Process has the part
-- of core/hle/kernel/process.h that the system calls use), its thread-local storage and threads (Tls:
-- core/hle/kernel/tls.c, Thread: core/hle/kernel/thread.c), service sessions, requests and dispatch
-- (Ipc: core/hle/kernel/ipc.c), the IPC and memory system calls with their switch (Hle:
-- core/hle/kernel/svc_ipc.c, core/hle/kernel/svc_memory.c, core/hle/hle.c), the service registry (Sm:
-- core/hle/services/sm/sm.c) and the loaders (Loader: byte_source.c, romfs.c, npdm.c, exefs.c, nso.c
-- and nca_parse.c of core/hle/loader). Result has the error codes of core/common/result.h, Base the shared names and
-- lemmas.
--
-- The parts meet as in the code: the layout carves its regions from an arena and gives guest RAM; the
-- page allocator commits its runs through the layout; the MMU takes its L2 tables from an arena of its
-- own and backs pages with guest RAM; the memory calls take pages from the allocator, map them in the
-- regions of the process and lend them between regions; a thread takes a block of the TLS allocator,
-- which maps pages on demand; the IPC calls read and write the caller's
-- command buffer through the MMU, parse and dispatch it, and open sessions for what the handler moves
-- out; the loaders read through byte sources, and the copies of their tables come from an arena. A
-- function of the code that changes an object through a pointer returns the new object beside its
-- result; names are the code's.
--
-- How the code is read. A word of w bits is a native number, with `% 2 ^ w` written where a sum may
-- wrap; a mask of low bits is a remainder, clearing low bits is rounding down, and the bitwise or of
-- numbers that share no bit is a sum. A permission test keeps the bitwise and. Memory and arrays are
-- functions from an index; an array with a count is the list of its live entries where the code keeps
-- it dense. Linear memory is two stores in Vmm: `tables` holds L2 tables by offset and entry, `memory`
-- all other bytes. What `malloc`, `mmap` and `VirtualAlloc` answer is a parameter. The release build
-- is modelled: SWITCH_ASSERT and the debug borrow table are compiled out, and an SWITCH_ASSERT_ALWAYS
-- that fails is `none`, as is a copy that would go through a NULL pointer. Pointer parameters of
-- functions are taken to be non-NULL, and error messages and log lines are left out.
--
-- Loops. The loops over a range of pages or slots recurse on their number. The loops of the access
-- paths and of `vmm_query` recurse on fuel: the size of the range in bytes, for each round moves at
-- least one byte on, or the number of pages on the loop's side. The binary search of `ipc_dispatch`
-- has the length of the table as fuel. A chain of RomFS entries is cut by the code's own max_steps, and
-- the walk along a path has the length of the path as fuel. The theorems on these functions cover every input, so that
-- running out of fuel before the loop is done is excluded by them.
--
-- Not modelled: the Emscripten branch of core/common/layout.c; the debug borrow table; the bootstrap
-- and the teardown of a process (core/hle/kernel/process.c), and the emulator and CPU interface
-- (core/emulator.c, core/cpu), which build on these parts; logging; lz4, a third party's, which is a
-- parameter; the web platform, the experiments under poc and the tests.
pub mod Base
pub mod Result
pub mod Arena
pub mod Layout
pub mod PageAllocator
pub mod Tls
pub mod Thread
pub mod Vmm
pub mod AddressSpace
pub mod Process
pub mod Ipc
pub mod Hle
pub mod Sm
pub mod Loader
