-- ===== src/Engine.antt =====
-- `Engine` of src/memhook/engine.h and engine.cpp: a cache of fresh allocations in front of a
-- storage. Each `DoHook...` holds `m_cache_mutex` from its first access of the cache to its end,
-- and so is one atomic step. The call stack unwinder is an interface; the clock is an argument.
pub mod Flush
pub mod Tracking
pub mod Allocations
pub mod Alloc
pub mod Release
pub mod Refinement
pub mod Limits
pub mod Start
pub mod Settings
pub mod Started
use memhook.Prelude.{
  ℕ, ℤ, ◌-ℤ◌, ◌+◌, ◌==◌, Bool, true, false, ◌||◌, Option, none, some, List, [], ◌∷◌, ltb, is_some,
  if◌then◌else◌,
}
use memhook.TraceInfo.{TraceInfoBase, CallStackInfo}
use memhook.Index.{TimeIndex}
use memhook.Storage.{MappedStorage}

-- `Engine::TraceInfo`
pub record CachedTrace : Type 0 where
  pub base : TraceInfoBase
  pub callstack : CallStackInfo

abbrev pub cached_address : CachedTrace → ℕ
cached_address v = v.base.address

abbrev pub cached_timestamp : CachedTrace → ℤ
cached_timestamp v = v.base.timestamp

-- `CallStackUnwinder`: the state of its caches, and its three operations.
pub record Unwinder : Type 1 where
  pub Caches : Type 0
  pub get_call_stack_info : ℕ → Bool → Caches → CallStackInfo × Caches
  pub get_call_stack_unwind_proc_info : CallStackInfo → Caches → CallStackInfo × Caches
  pub flush_call_stack_cache : Caches → Caches

-- `CallStackUnwindProcInfoPolicy`
pub data Policy : Type 0 where
  unwind_call_stack_when : Policy
  flush_local_cache_when : Policy

abbrev pub when_unwinding : Policy → Bool
when_unwinding unwind_call_stack_when = true
when_unwinding flush_local_cache_when = false

-- The two fields that are changed through `const_cast`: no index is ordered by them.
abbrev pub set_callstack : CallStackInfo → CachedTrace → CachedTrace
set_callstack callstack v = record v { callstack = callstack }

abbrev pub set_cached_size : ℕ → CachedTrace → CachedTrace
set_cached_size memsize v = record v {
  base = record { address = v.base.address; memsize = memsize; timestamp = v.base.timestamp };
}

module _ (ix : TimeIndex CachedTrace cached_address cached_timestamp) (m : MappedStorage)
    (u : Unwinder) where
  pub record Engine : Type 0 where
    pub storage : Option m.Store
    pub cache : ix.Rep
    pub unwinder : u.Caches
    pub cache_flush_timeout : ℤ
    pub cache_flush_max_items : ℕ
    pub getprocinfo_policy : Policy

  -- `n`, the storage and the unwinder's caches after the loop of `FlushLocalCache`.
  pub record Flushed : Type 0 where
    pub count : ℕ
    pub store : m.Store
    pub caches : u.Caches

  -- One round of the loop: the names of the call stack are looked up now or were looked up before.
  unfoldable pub flush_one : Policy → CachedTrace → Flushed → Flushed
  flush_one policy v f =
      let (callstack, caches) =
        if when_unwinding policy
        then (v.callstack, f.caches)
        else u.get_call_stack_unwind_proc_info v.callstack f.caches in
      record {
        count = f.count + 1;
        store = m.add v.base.address v.base.memsize callstack v.base.timestamp f.store;
        caches = caches;
      }

  -- The loop over the range of the time index that is to be flushed.
  unfoldable pub flush_loop : Policy → Bool → ℕ → List CachedTrace → Flushed → Flushed
  flush_loop policy dump_all max_items [] f = f
  flush_loop policy dump_all max_items (v ∷ vs) f =
      if dump_all || ltb f.count max_items
      then flush_loop policy dump_all max_items vs (flush_one policy v f)
      else f

  unfoldable pub flush_range : ℤ → ℤ → Bool → Engine → List CachedTrace
  flush_range now timeout dump_all e =
      if dump_all then ix.items e.cache else ix.before (now -ℤ timeout) e.cache

  -- The loop over the range, and the erasure of what it passed, when there is a storage.
  unfoldable pub flush_into : ℤ → ℤ → Bool → m.Store → Engine → Engine
  flush_into now timeout dump_all store e =
      let f =
        flush_loop e.getprocinfo_policy dump_all e.cache_flush_max_items
          (flush_range now timeout dump_all e)
          (record { count = 0; store = store; caches = e.unwinder }) in
      record e {
        storage = some (if f.count == 0 then f.store else m.flush f.store);
        unwinder = f.caches;
        cache = if f.count == 0 then e.cache else ix.erase_first f.count e.cache;
      }

  -- Without a storage `iter` stays at `begin()`, and nothing is erased.
  unfoldable pub flush_local_cache : ℤ → ℤ → Bool → Engine → Engine
  flush_local_cache now timeout dump_all e = elim e.storage [
    | none ↦ e
    | some store ↦ flush_into now timeout dump_all store e
  ]

  -- The cache after `emplace`, with the call stack swapped in where a record was inserted.
  unfoldable pub cache_alloc : ℕ → ℕ → ℤ → CallStackInfo → ix.Rep → ix.Rep
  cache_alloc mem memsize now callstack cache =
      let v : CachedTrace = record {
        base = record { address = mem; memsize = memsize; timestamp = now };
        callstack = [];
      } in
      if ix.emplaces v cache
      then ix.modify mem (set_callstack callstack) (ix.emplace v cache)
      else ix.emplace v cache

  -- `now` is read before the lock is taken.
  unfoldable pub do_hook_alloc : ℕ → ℕ → ℤ → Engine → Engine
  do_hook_alloc mem memsize now e =
      if mem == 0
      then e
      else (let (callstack, caches) =
            u.get_call_stack_info 2 (when_unwinding e.getprocinfo_policy) e.unwinder in
          flush_local_cache now e.cache_flush_timeout false
            (record e { cache = cache_alloc mem memsize now callstack e.cache; unwinder = caches }))

  -- `if (m_storage) m_storage->...`, the result not being used.
  abbrev pub when_open : (m.Store → m.Store × Bool) → Option m.Store → Option m.Store
  when_open call none = none
  when_open call (some store) = some (call store).0

  unfoldable pub do_hook_free : ℕ → Engine → Engine
  do_hook_free mem e =
      if mem == 0
      then e
      else if is_some (ix.find mem e.cache)
      then record e { cache = ix.erase mem e.cache }
      else record e { storage = when_open (m.remove mem) e.storage }

  unfoldable pub do_hook_update_size : ℕ → ℕ → Engine → Engine
  do_hook_update_size mem newsize e =
      if mem == 0
      then e
      else if is_some (ix.find mem e.cache)
      then record e { cache = ix.modify mem (set_cached_size newsize) e.cache }
      else record e { storage = when_open (m.update_size mem newsize) e.storage }

  unfoldable pub do_hook_realloc : ℕ → ℕ → ℕ → ℤ → Engine → Engine
  do_hook_realloc old_mem new_mem new_size now e =
      if old_mem == new_mem
      then do_hook_update_size old_mem new_size e
      else do_hook_alloc new_mem new_size now (do_hook_free old_mem e)

  unfoldable pub do_flush_call_stack_cache : Engine → Engine
  do_flush_call_stack_cache e = record e { unwinder = u.flush_call_stack_cache e.unwinder }

  -- Everything goes to the storage, which is then closed: its last state and the engine.
  unfoldable pub on_destroy : ℤ → Engine → Option m.Store × Engine
  on_destroy now e =
      let e' = flush_local_cache now (ℤ.pos 0) true e in (e'.storage, record e' { storage = none })
