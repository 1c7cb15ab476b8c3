-- ===== src/Hooks/Calls.antt =====
-- The hooked functions on memory of src/memhook/memhook.cpp, gathered by the calls they take: which
-- hook of the engine each calls for the answer of the C library, and when.
use memhook.Prelude.{
  ℤ, ◌*◌, ◌%◌, ◌==◌, ◌&&◌, not, Option, none, some, if◌then◌else◌, Bool, true, false,
}
use memhook.Index.{TimeIndex}
use memhook.Storage.{MappedStorage}
use memhook.Engine.{CachedTrace, cached_address, cached_timestamp, Unwinder}
use memhook.Engine.Refinement.{Hook, apply_hook}
use memhook.Hooks.DlFunctions.{Libc}
use memhook.Hooks.Direct.{
  Call, call_free, call_cfree, call_malloc, call_calloc, call_memalign, call_aligned_alloc,
  call_valloc, call_pvalloc, call_realloc, call_posix_memalign, call_mmap, call_mmap64, call_munmap,
  call_mremap, Answer, nothing, pointer, status, aligned, pointing, stating, aligning, direct,
  InnerCalls,
}
use memhook.Hooks.{World, is_nested, enter, leave, with_instance}
use memhook.Hooks.Memory.{
  size_modulus, map_failed, has_map_stack, has_map_anonymous_private, is_negative, is_success,
  memhook_free, memhook_cfree, memhook_malloc, memhook_calloc, memhook_memalign,
  memhook_aligned_alloc, memhook_valloc, memhook_pvalloc, memhook_realloc, memhook_posix_memalign,
  memhook_mmap, memhook_mmap64, memhook_munmap, memhook_mremap,
}

-- The hook for an answer: an allocation of the size that was asked for, a release, or a
-- reallocation.
abbrev pub answered : Call → Answer → ℤ → Option Hook
answered (call_free mem) _ now = some (Hook.free mem)
answered (call_cfree mem) _ now = some (Hook.free mem)
answered (call_malloc size) (pointer p) now = some (Hook.alloc p size now)
answered (call_calloc nmemb size) (pointer p) now =
    some (Hook.alloc p ((nmemb * size) % size_modulus) now)
answered (call_memalign _ size) (pointer p) now = some (Hook.alloc p size now)
answered (call_aligned_alloc _ size) (pointer p) now = some (Hook.alloc p size now)
answered (call_valloc size) (pointer p) now = some (Hook.alloc p size now)
answered (call_pvalloc size) (pointer p) now = some (Hook.alloc p size now)
answered (call_realloc mem size) (pointer p) now = some (Hook.realloc mem p size now)
answered (call_posix_memalign _ _ size) (aligned rs p) now = some (Hook.alloc p size now)
answered (call_mmap _ length _ flags fd _) (pointer p) now =
    if is_negative fd && not (has_map_stack flags) then some (Hook.alloc p length now) else none
answered (call_mmap64 _ length _ flags fd _) (pointer p) now =
    if is_negative fd && has_map_anonymous_private flags
    then some (Hook.alloc p length now)
    else none
answered (call_munmap addr _) (status rs) now =
    if is_success rs then some (Hook.free addr) else none
answered (call_mremap addr _ new_len _ _) (pointer p) now =
    if p == map_failed then none else some (Hook.realloc addr p new_len now)
answered _ _ now = none

-- A release is reported before the library is called, any other call with the library's answer.
abbrev pub reports_first : Call → Bool
reports_first (call_free _) = true
reports_first (call_cfree _) = true
reports_first _ = false

module _ (c : Libc) (ix : TimeIndex CachedTrace cached_address cached_timestamp) (m : MappedStorage)
    (u : Unwinder) (n : InnerCalls c ix m u) where
  -- The call of the hooked function.
  unfoldable pub hooked : Call → ℤ → World c ix m u n → Answer × World c ix m u n
  hooked (call_free mem) now w = (nothing, memhook_free c ix m u n mem w)
  hooked (call_cfree mem) now w = (nothing, memhook_cfree c ix m u n mem w)
  hooked (call_malloc size) now w = pointing (memhook_malloc c ix m u n size now w)
  hooked (call_calloc nmemb size) now w = pointing (memhook_calloc c ix m u n nmemb size now w)
  hooked (call_memalign alignment size) now w =
      pointing (memhook_memalign c ix m u n alignment size now w)
  hooked (call_aligned_alloc alignment size) now w =
      pointing (memhook_aligned_alloc c ix m u n alignment size now w)
  hooked (call_valloc size) now w = pointing (memhook_valloc c ix m u n size now w)
  hooked (call_pvalloc size) now w = pointing (memhook_pvalloc c ix m u n size now w)
  hooked (call_realloc mem size) now w = pointing (memhook_realloc c ix m u n mem size now w)
  hooked (call_posix_memalign memptr alignment size) now w =
      aligning (memhook_posix_memalign c ix m u n memptr alignment size now w)
  hooked (call_mmap addr length prot flags fd offset) now w =
      pointing (memhook_mmap c ix m u n addr length prot flags fd offset now w)
  hooked (call_mmap64 addr length prot flags fd offset) now w =
      pointing (memhook_mmap64 c ix m u n addr length prot flags fd offset now w)
  hooked (call_munmap addr length) now w = stating (memhook_munmap c ix m u n addr length now w)
  hooked (call_mremap addr old_len new_len flags new_addr) now w =
      pointing (memhook_mremap c ix m u n addr old_len new_len flags new_addr now w)

  -- The engine's part of a call, if an engine is there.
  abbrev pub report : Option Hook → World c ix m u n → World c ix m u n
  report none w = w
  report (some h) w = with_instance c ix m u n (n.in_hook h) (apply_hook ix m u h) w

  abbrev pub on_direct : Call → World c ix m u n → Answer × World c ix m u n
  on_direct k w = let (r, s) = direct c k w.libc in (r, record w { libc = s })

  -- The report and the call, in one order or the other.
  abbrev pub report_and_call : Bool → Call → ℤ → World c ix m u n → Answer × World c ix m u n
  report_and_call true k now w = on_direct k (report (answered k Answer.nothing now) w)
  report_and_call false k now w = let (r, w') = on_direct k w in (r, report (answered k r now) w')

  -- The shape that the functions have in common: nested they only call the library; else they
  -- call it and report while the hook depth is raised.
  abbrev pub reporting : Call → ℤ → World c ix m u n → Answer × World c ix m u n
  reporting k now w =
      if is_nested c ix m u n w
      then on_direct k w
      else (let (r, w') = report_and_call (reports_first k) k now (enter c ix m u n w) in
          (r, leave c ix m u n w'))
