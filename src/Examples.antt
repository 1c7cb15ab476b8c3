-- ===== src/Examples.antt =====
-- A small world for the examples: plain containers, an unwinder that finds one frame, a C library
-- that allocates upwards, and an engine between them.
mod Engines
mod Hooked
mod Sessions
mod Codecs
mod Buffers
mod Locks
mod Libraries
mod Stacks
mod Viewed
mod Waits
mod Injected
mod Loaders
mod Counters
mod Instances
mod Interrupted
use memhook.Prelude.{
  ℕ, ℤ, pos, ◌+◌, ◌*◌, ◌-◌, ◌==◌, Bool, true, false, Option, none, some, List, [], ◌∷◌,
  if◌then◌else◌, find_key, ◌≡◌, refl,
}
use memhook.TraceInfo.{CallStackInfo, CallStackInfoItem, TraceInfo}
use memhook.Index.{TimeIndex}
use memhook.Index.Plain.{plain_index}
use memhook.Index.Laws.{IsIndexed}
use memhook.Storage.{MappedStorage, Contract}
use memhook.Storage.Mapped.{trace_address, trace_timestamp, Container, mapped_storage}
use memhook.Storage.Mapped.Laws.{IsContainer, container_lookup, mapped_storage-Contract}
use memhook.Engine.{CachedTrace, cached_address, cached_timestamp, Unwinder, Policy, Engine}
use memhook.Engine.Tracking.{IsConsistent}
use memhook.Hooks.DlFunctions.{Libc}
use memhook.Engine.Refinement.{Hook}
use memhook.Hooks.Direct.{Call, InnerCalls}
use memhook.Hooks.{World}

abbrev traces : TimeIndex TraceInfo trace_address trace_timestamp
traces = plain_index trace_address trace_timestamp

abbrev cached : TimeIndex CachedTrace cached_address cached_timestamp
cached = plain_index cached_address cached_timestamp

abbrev frame_at : ℕ → CallStackInfoItem
frame_at ip = record {
  shl_path = 108 ∷ [];
  procname = 102 ∷ [];
  shl_addr = 4096;
  ip = ip;
  sp = 140;
  offp = 4;
}

abbrev unwinder : Unwinder
unwinder = record {
  Caches = ℕ;
  get_call_stack_info = λ skip now n. (frame_at (4100 + skip) ∷ [], n + 1);
  get_call_stack_unwind_proc_info = λ items n. (items, n + 1);
  flush_call_stack_cache = λ n. 0;
}

abbrev segment : MappedStorage
segment = mapped_storage traces

abbrev empty_container : Container traces
empty_container = record { symbols = record { symtab = []; shltab = [] }; indexed_container = [] }

abbrev contract : Contract segment (IsContainer traces) (container_lookup traces)
contract = mapped_storage-Contract traces

-- Two items at most leave the cache at a time, once they are older than 5.
abbrev engine : Engine cached segment unwinder
engine = record {
  storage = some empty_container;
  cache = [];
  unwinder = 0;
  cache_flush_timeout = pos 5;
  cache_flush_max_items = 2;
  getprocinfo_policy = Policy.flush_local_cache_when;
}

engine-IsConsistent : IsConsistent cached segment unwinder contract engine
unfolding find_key
engine-IsConsistent = record {
  indexed = record { order = tt; distinct = tt };
  valid = record { order = tt; distinct = tt };
  apart = λ a h. refl;
}

-- The state is the next free address, and what a new handler can still give back.
abbrev libc : Libc
libc = record {
  State = ℕ × ℕ;
  malloc = λ size s. if s.0 == 0 then (0, s) else (s.0, (s.0 + size, s.1));
  free = λ mem s. s;
  calloc = λ nmemb size s. (s.0, (s.0 + nmemb * size, s.1));
  realloc = λ mem size s. (s.0, (s.0 + size, s.1));
  memalign = λ alignment size s. (s.0, (s.0 + size, s.1));
  posix_memalign = λ memptr alignment size s. ((pos 0, s.0), (s.0 + size, s.1));
  cfree = λ mem s. s;
  aligned_alloc = λ alignment size s. (s.0, (s.0 + size, s.1));
  valloc = λ size s. (s.0, (s.0 + size, s.1));
  pvalloc = λ size s. (s.0, (s.0 + size, s.1));
  mmap = λ addr length prot flags fd offset s. (s.0, (s.0 + length, s.1));
  mmap64 = λ addr length prot flags fd offset s. (s.0, (s.0 + length, s.1));
  mremap = λ addr old_len new_len flags new_addr s. (s.0, (s.0 + new_len, s.1));
  munmap = λ addr length s. (pos 0, s);
  dlclose = λ handle s. (pos 0, s);
  new_handler = λ s. if s.1 == 0 then none else some 1;
  call_handler = λ nh s. (false, (8192, s.1 - 1));
}

-- An allocation makes a node of the cache, and a release frees one.
abbrev node_calls : Hook → List (Call × ℤ)
node_calls (Hook.alloc mem memsize now) = (Call.call_malloc 48, now) ∷ []
node_calls (Hook.free mem) = (Call.call_free 4096, pos 0) ∷ []
node_calls (Hook.realloc old_mem new_mem new_size now) =
    (Call.call_free 4096, now) ∷ (Call.call_malloc 48, now) ∷ []
node_calls (Hook.update_size mem newsize) = []

abbrev inner_calls : InnerCalls libc cached segment unwinder
inner_calls = record { in_hook = λ h e s. node_calls h; in_flush_call_stack_cache = λ e s. [] }

abbrev world : World libc cached segment unwinder inner_calls
world = record { libc = (4096, 0); instance_ = some engine; hook_depth = 0; reentered = false }
