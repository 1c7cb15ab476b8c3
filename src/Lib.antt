-- ===== src/Lib.antt =====
-- memhook: a library that a program preloads, which records every allocation that is live together
-- with its call stack, and a server that keeps such records for other processes.
--
-- The parts and how they interact. The program calls the hooked functions of
-- src/memhook/memhook.cpp. They call the C library, and tell the engine (src/memhook/engine.cpp) of
-- the answers; while a hook runs, `NoHook` keeps the calls that it makes itself from being
-- recorded. The engine holds young allocations in a cache ordered by address and by time, and moves
-- old ones to a storage. A storage is a container in a shared segment
-- (src/memhookcore/basic_mapped_storage.h) or a connection
-- (src/memhookcore/network_mapped_storage.cpp) to a session of the server
-- (src/memdb/memdb_session.cpp), which decodes requests (include/memhook/serialization.h) and
-- applies them to a storage of its own.
--
-- The files:
--   Prelude     shared names, Boolean tests, lists and integers over the native numbers, keyed
--               lists
--   TraceInfo   include/memhook/traceinfo.h and callstack.h: the record of an allocation
--   Wire        include/memhook/byteswap.h, serialization.h and network.h: words, shapes, requests
--   Index       boost::multi_index_container as the parameter `TimeIndex` with the laws that the
--               code relies on; Index/Plain is a list that meets them
--   Storage     include/memhook/mapped_storage.h: the operations and the `Contract` that a client
--               relies on; Storage/Mapped is `BasicMappedStorage`, Storage/Symbols its symbol
--               tables, and Storage/Network is `NetworkMappedStorage`; Storage/UniquePath is
--               `GenerateUniquePath` of src/memhookcore/file_based_mapped_storage_helpers.cpp
--   Engine      src/memhook/engine.cpp: `DoHookAlloc` is `do_hook_alloc`, and so on;
--               Engine/Allocations is what the hooks are to promise, Engine/Refinement that they
--               do. Engine/Start is `OnInitialize` and `NewStorage`, Engine/Settings the rules by
--               which they read the environment, and Engine/Started is about a run from the start
--   Hooks       src/memhook/memhook.cpp and no_hook.h: `memhook_malloc` and the other functions on
--               memory in Hooks/Memory, `operator new` and `delete` in Hooks/Cpp, those that only
--               raise the hook depth in Hooks/Resolver; Hooks/Direct has the calls of the C library
--               as one type, and what the engine itself calls; Hooks/Calls gathers the hooked
--               functions by these calls, and Hooks/Recorded says what the engine is told
--   StaticBuf   src/memhook/static_buf_alloc.cpp
--   Loader      src/memhook/dl_functions.h and dl_functions.cpp, with `memhook_dlsym` of
--               memhook.cpp in Loader/Dlsym: how the functions are found that are hooked, while the
--               dynamic linker allocates by the hooked functions; `DoInitialize` is `do_initialize`
--               of Loader/Start, and Loader/Exports is the table of exported names. Loader/Found
--               and Loader/Covered are about them
--   Singleton   src/memhook/singleton.h: a step for each access of `instance_` or a counter,
--               threads in any order; Singleton/Lifetime and Singleton/Race are about when the
--               engine is deleted
--   Atomics     src/memhook/atomic-gcc.h and atomic-asm-x86.h; Atomics/Agreement compares them
--   SpinLock    src/memhook/spin_lock.h and spin_lock.cpp: a step for each access of the lock word,
--               threads in any order; SpinLock/Words is the lock on the word by the atomic
--               operations, and SpinLock/Delays is how long a thread waits
--   Threads     src/memhook/thread.h: `MutexLock`, with Threads/Ownership and Threads/Balance about
--               it; Threads/Sleep is `InterruptibleThread` and its condition variable, with
--               Threads/Awaited and Threads/Interrupts about it
--   Session     src/memdb/memdb_session.cpp: the parsers as steps, `serve` as the reads that they
--               start; Session/Client joins it to a network storage
--   Glibc       src/memhook/glibc.cpp: `GLIBC_do_sym` is `do_sym`, and so on, over the memory of
--               the process; Glibc/Hashes is about the hashes, Glibc/Tables about one hash table,
--               Glibc/Order about the order of the libraries, Glibc/Found about the symbol found
--   ElfInjection  src/memhook/elf_injection.cpp: `ElfInject` is `elf_inject`;
--               ElfInjection/Written is about the slots that it writes
--   Unwinding   src/memhook/callstack_unwinder.cpp: `GetUnwProcInfo` is `get_unw_proc_info`, and so
--               on
--   Memview     src/memview: mapped_view_options.h and mapped_view_base.cpp, with Memview/Filters
--               and Memview/Flags about them; Memview/Aggregate is aggregated_printer.h,
--               Memview/Views the two views, Memview/Command is `main` of memview.cpp;
--               Memview/Totals, Memview/Rows and Memview/Views/Printed are about what the views add
--               up
--   Signals     src/memhookcore/scoped_signal_lock.cpp and scoped_signal.cpp: the mask and the
--               handlers over nested scopes, with the lock of
--               src/memview/interprocess_scoped_lock.cpp
--   Server      src/memdb/memdb.cpp and memdb_server.cpp: which storage is served, and the sessions
--               that are accepted
--   Examples    a small world in which the theorems are applied
--
-- Bounds and fuel. Words have 64 bits, sizes on the wire 32 where the code casts them, and each
-- wrap-around is written out. `do_cpp_alloc2` runs on a round of fuel for each call of malloc, and
-- more rounds than the new handlers can give back memory are enough. `serve` runs on a round for
-- each call of a parser, two for each request. The searches along the chains of a hash table run on
-- fuel, and the length of the longest chain is enough; the walk up the loaders of a library runs on
-- fuel too. `initialize` takes fuel for the calls of itself to which the allocations of the dynamic
-- linker lead, and one round is enough. `generate_unique_path` runs on a round for each path that
-- it tries.
--
-- Not modelled. Boost, the C library, libunwind and the dynamic linker are parameters; the engine
-- takes the unwinder as an interface, which Unwinding/Started fills. What the engine's containers
-- call in the C library while a hook runs is the parameter `InnerCalls`, which changes the library
-- as the program's calls do. Memory is sequentially consistent, so that barriers do not show. An
-- operation of the engine or the unwinder that holds a lock is one step; shared memory that runs
-- full and a connection that breaks are left out. The search of a symbol reads its arrays without
-- bounds, as the code does. The text of the viewer's rows is left out. The rest is glue: the
-- parsing of command lines, logging, the start and end of threads, and the factories of storages.
pub mod Prelude
pub mod TraceInfo
pub mod Wire
pub mod Index
pub mod Storage
pub mod Engine
pub mod Glibc
pub mod ElfInjection
pub mod Unwinding
pub mod Hooks
pub mod Memview
pub mod Session
pub mod StaticBuf
pub mod Examples
pub mod SpinLock
pub mod Atomics
pub mod Loader
pub mod Singleton
pub mod Signals
pub mod Server
pub mod Threads
