-- ===== src/Hooks/Direct.antt =====
-- The functions of the C library on memory that src/memhook/memhook.cpp hooks, as one type of calls,
-- and what the code of the engine (src/memhook/engine.cpp) calls of them while it runs a hook.
use memhook.Prelude.{ℕ, ℤ, List, [], ◌∷◌}
use memhook.Index.{TimeIndex}
use memhook.Storage.{MappedStorage}
use memhook.Engine.{CachedTrace, cached_address, cached_timestamp, Unwinder, Engine}
use memhook.Engine.Refinement.{Hook}
use memhook.Hooks.DlFunctions.{Libc}

pub data Call : Type 0 where
  call_free : ℕ → Call
  call_cfree : ℕ → Call
  call_malloc : ℕ → Call
  call_calloc : ℕ → ℕ → Call
  call_memalign : ℕ → ℕ → Call
  call_aligned_alloc : ℕ → ℕ → Call
  call_valloc : ℕ → Call
  call_pvalloc : ℕ → Call
  call_realloc : ℕ → ℕ → Call
  call_posix_memalign : ℕ → ℕ → ℕ → Call
  call_mmap : ℕ → ℕ → ℕ → ℕ → ℤ → ℤ → Call
  call_mmap64 : ℕ → ℕ → ℕ → ℕ → ℤ → ℤ → Call
  call_munmap : ℕ → ℕ → Call
  call_mremap : ℕ → ℕ → ℕ → ℕ → ℕ → Call

-- What a function returns: nothing, a pointer, a status, or a status and `*memptr`.
pub data Answer : Type 0 where
  nothing : Answer
  pointer : ℕ → Answer
  status : ℤ → Answer
  aligned : ℤ → ℕ → Answer

abbrev pub pointing {ℓ} : {S : Type ℓ} → ℕ × S → Answer × S
pointing (p, s) = (pointer p, s)

abbrev pub stating {ℓ} : {S : Type ℓ} → ℤ × S → Answer × S
stating (rs, s) = (status rs, s)

abbrev pub aligning {ℓ} : {S : Type ℓ} → (ℤ × ℕ) × S → Answer × S
aligning ((rs, p), s) = (aligned rs p, s)

module _ (c : Libc) where
  -- The call of the C library without the hook.
  abbrev pub direct : Call → c.State → Answer × c.State
  direct (call_free mem) s = (nothing, c.free mem s)
  direct (call_cfree mem) s = (nothing, c.cfree mem s)
  direct (call_malloc size) s = pointing (c.malloc size s)
  direct (call_calloc nmemb size) s = pointing (c.calloc nmemb size s)
  direct (call_memalign alignment size) s = pointing (c.memalign alignment size s)
  direct (call_aligned_alloc alignment size) s = pointing (c.aligned_alloc alignment size s)
  direct (call_valloc size) s = pointing (c.valloc size s)
  direct (call_pvalloc size) s = pointing (c.pvalloc size s)
  direct (call_realloc mem size) s = pointing (c.realloc mem size s)
  direct (call_posix_memalign memptr alignment size) s =
      aligning (c.posix_memalign memptr alignment size s)
  direct (call_mmap addr length prot flags fd offset) s =
      pointing (c.mmap addr length prot flags fd offset s)
  direct (call_mmap64 addr length prot flags fd offset) s =
      pointing (c.mmap64 addr length prot flags fd offset s)
  direct (call_munmap addr length) s = stating (c.munmap addr length s)
  direct (call_mremap addr old_len new_len flags new_addr) s =
      pointing (c.mremap addr old_len new_len flags new_addr s)

  -- Calls of the library in order, each with its time, and the state of the library after them.
  abbrev pub run_direct : List (Call × ℤ) → c.State → c.State
  run_direct [] s = s
  run_direct ((k, now) ∷ ks) s = run_direct ks (direct k s).1

  -- The calls that the containers, the unwinder and the storage of an engine make of the library,
  -- from the state in which the library is when the engine's code begins: the nodes of `m_cache`,
  -- the vectors of call stacks and so on. That code is compiled from other sources, and what it
  -- calls is not restricted.
  module _ (ix : TimeIndex CachedTrace cached_address cached_timestamp) (m : MappedStorage)
      (u : Unwinder) where
    pub record InnerCalls : Type 0 where
      pub in_hook : Hook → Engine ix m u → c.State → List (Call × ℤ)
      pub in_flush_call_stack_cache : Engine ix m u → c.State → List (Call × ℤ)
