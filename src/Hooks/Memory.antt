-- ===== src/Hooks/Memory.antt =====
-- The hooks on memory of src/memhook/memhook.cpp: each `memhook_` function, and the `do_` function
-- that it calls.
use memhook.Prelude.{
  ℕ, ℤ, pos, negsuc, ◌*◌, ◌%◌, ◌/◌, ◌==◌, Bool, true, false, ◌&&◌, not, if◌then◌else◌,
}
use memhook.Index.{TimeIndex}
use memhook.Storage.{MappedStorage}
use memhook.Engine.{CachedTrace, cached_address, cached_timestamp, Unwinder}
use memhook.Hooks.DlFunctions.{Libc}
use memhook.Hooks.Direct.{InnerCalls}
use memhook.Hooks.{
  World, is_nested, enter, leave, on_libc, hook_alloc, hook_free, hook_realloc,
  flush_call_stack_cache,
}

-- `size_t` has 64 bits.
abbrev pub size_modulus : ℕ
size_modulus = 18446744073709551616

-- `MAP_FAILED` is `(void *) -1`.
abbrev pub map_failed : ℕ
map_failed = 18446744073709551615

-- `MAP_STACK` is 0x20000, `MAP_ANONYMOUS` 0x20 and `MAP_PRIVATE` 0x02.
abbrev pub has_map_stack : ℕ → Bool
has_map_stack flags = (flags / 131072) % 2 == 1

abbrev pub has_map_anonymous_private : ℕ → Bool
has_map_anonymous_private flags = ((flags / 32) % 2 == 1) && ((flags / 2) % 2 == 1)

abbrev pub is_negative : ℤ → Bool
is_negative (pos _) = false
is_negative (negsuc _) = true

abbrev pub is_success : ℤ → Bool
is_success (pos n) = n == 0
is_success (negsuc _) = false

module _ (c : Libc) (ix : TimeIndex CachedTrace cached_address cached_timestamp) (m : MappedStorage)
    (u : Unwinder) (n : InnerCalls c ix m u) where
  abbrev W : Type 0
  W = World c ix m u n

  unfoldable pub do_free : ℕ → W → W
  do_free mem w = record w { libc = c.free mem w.libc }

  unfoldable pub do_cfree : ℕ → W → W
  do_cfree mem w = record w { libc = c.cfree mem w.libc }

  unfoldable pub do_malloc : ℕ → W → ℕ × W
  do_malloc size = on_libc c ix m u n (c.malloc size)

  unfoldable pub do_calloc : ℕ → ℕ → W → ℕ × W
  do_calloc nmemb size = on_libc c ix m u n (c.calloc nmemb size)

  unfoldable pub do_memalign : ℕ → ℕ → W → ℕ × W
  do_memalign alignment size = on_libc c ix m u n (c.memalign alignment size)

  unfoldable pub do_aligned_alloc : ℕ → ℕ → W → ℕ × W
  do_aligned_alloc alignment size = on_libc c ix m u n (c.aligned_alloc alignment size)

  unfoldable pub do_valloc : ℕ → W → ℕ × W
  do_valloc size = on_libc c ix m u n (c.valloc size)

  unfoldable pub do_pvalloc : ℕ → W → ℕ × W
  do_pvalloc size = on_libc c ix m u n (c.pvalloc size)

  unfoldable pub do_realloc : ℕ → ℕ → W → ℕ × W
  do_realloc mem size = on_libc c ix m u n (c.realloc mem size)

  unfoldable pub do_posix_memalign : ℕ → ℕ → ℕ → W → (ℤ × ℕ) × W
  do_posix_memalign memptr alignment size =
      on_libc c ix m u n (c.posix_memalign memptr alignment size)

  unfoldable pub do_mmap : ℕ → ℕ → ℕ → ℕ → ℤ → ℤ → W → ℕ × W
  do_mmap addr length prot flags fd offset =
      on_libc c ix m u n (c.mmap addr length prot flags fd offset)

  unfoldable pub do_mmap64 : ℕ → ℕ → ℕ → ℕ → ℤ → ℤ → W → ℕ × W
  do_mmap64 addr length prot flags fd offset =
      on_libc c ix m u n (c.mmap64 addr length prot flags fd offset)

  unfoldable pub do_mremap : ℕ → ℕ → ℕ → ℕ → ℕ → W → ℕ × W
  do_mremap addr old_len new_len flags new_addr_arg =
      on_libc c ix m u n (c.mremap addr old_len new_len flags new_addr_arg)

  unfoldable pub do_munmap : ℕ → ℕ → W → ℤ × W
  do_munmap addr length = on_libc c ix m u n (c.munmap addr length)

  unfoldable pub do_dlclose : ℕ → W → ℤ × W
  do_dlclose handle = on_libc c ix m u n (c.dlclose handle)

  unfoldable pub memhook_free : ℕ → W → W
  memhook_free mem w =
      if is_nested c ix m u n w
      then do_free mem w
      else leave c ix m u n (do_free mem (hook_free c ix m u n mem (enter c ix m u n w)))

  unfoldable pub memhook_cfree : ℕ → W → W
  memhook_cfree mem w =
      if is_nested c ix m u n w
      then do_cfree mem w
      else leave c ix m u n (do_cfree mem (hook_free c ix m u n mem (enter c ix m u n w)))

  unfoldable pub memhook_malloc : ℕ → ℤ → W → ℕ × W
  memhook_malloc size now w =
      if is_nested c ix m u n w
      then do_malloc size w
      else (let (mem, w') = do_malloc size (enter c ix m u n w) in
          (mem, leave c ix m u n (hook_alloc c ix m u n mem size now w')))

  unfoldable pub memhook_calloc : ℕ → ℕ → ℤ → W → ℕ × W
  memhook_calloc nmemb size now w =
      if is_nested c ix m u n w
      then do_calloc nmemb size w
      else (let (mem, w') = do_calloc nmemb size (enter c ix m u n w) in
          (
            mem,
            leave c ix m u n (hook_alloc c ix m u n mem ((nmemb * size) % size_modulus) now w'),
          ))

  unfoldable pub memhook_memalign : ℕ → ℕ → ℤ → W → ℕ × W
  memhook_memalign alignment size now w =
      if is_nested c ix m u n w
      then do_memalign alignment size w
      else (let (mem, w') = do_memalign alignment size (enter c ix m u n w) in
          (mem, leave c ix m u n (hook_alloc c ix m u n mem size now w')))

  unfoldable pub memhook_aligned_alloc : ℕ → ℕ → ℤ → W → ℕ × W
  memhook_aligned_alloc alignment size now w =
      if is_nested c ix m u n w
      then do_aligned_alloc alignment size w
      else (let (mem, w') = do_aligned_alloc alignment size (enter c ix m u n w) in
          (mem, leave c ix m u n (hook_alloc c ix m u n mem size now w')))

  unfoldable pub memhook_valloc : ℕ → ℤ → W → ℕ × W
  memhook_valloc size now w =
      if is_nested c ix m u n w
      then do_valloc size w
      else (let (mem, w') = do_valloc size (enter c ix m u n w) in
          (mem, leave c ix m u n (hook_alloc c ix m u n mem size now w')))

  unfoldable pub memhook_pvalloc : ℕ → ℤ → W → ℕ × W
  memhook_pvalloc size now w =
      if is_nested c ix m u n w
      then do_pvalloc size w
      else (let (mem, w') = do_pvalloc size (enter c ix m u n w) in
          (mem, leave c ix m u n (hook_alloc c ix m u n mem size now w')))

  unfoldable pub memhook_realloc : ℕ → ℕ → ℤ → W → ℕ × W
  memhook_realloc old_mem size now w =
      if is_nested c ix m u n w
      then do_realloc old_mem size w
      else (let (new_mem, w') = do_realloc old_mem size (enter c ix m u n w) in
          (new_mem, leave c ix m u n (hook_realloc c ix m u n old_mem new_mem size now w')))

  -- `*memptr` is read after the call, whatever its status.
  unfoldable pub memhook_posix_memalign : ℕ → ℕ → ℕ → ℤ → W → (ℤ × ℕ) × W
  memhook_posix_memalign memptr alignment size now w =
      if is_nested c ix m u n w
      then do_posix_memalign memptr alignment size w
      else (let ((rs, mem), w') = do_posix_memalign memptr alignment size (enter c ix m u n w) in
          ((rs, mem), leave c ix m u n (hook_alloc c ix m u n mem size now w')))

  unfoldable pub memhook_mmap : ℕ → ℕ → ℕ → ℕ → ℤ → ℤ → ℤ → W → ℕ × W
  memhook_mmap addr length prot flags fd offset now w =
      if is_nested c ix m u n w
      then do_mmap addr length prot flags fd offset w
      else (let (mem, w') = do_mmap addr length prot flags fd offset (enter c ix m u n w) in
          (
            mem,
            leave c ix m u n (
                if is_negative fd && not (has_map_stack flags)
                then hook_alloc c ix m u n mem length now w'
                else w'),
          ))

  unfoldable pub memhook_mmap64 : ℕ → ℕ → ℕ → ℕ → ℤ → ℤ → ℤ → W → ℕ × W
  memhook_mmap64 addr length prot flags fd offset now w =
      if is_nested c ix m u n w
      then do_mmap64 addr length prot flags fd offset w
      else (let (mem, w') = do_mmap64 addr length prot flags fd offset (enter c ix m u n w) in
          (
            mem,
            leave c ix m u n (
                if is_negative fd && has_map_anonymous_private flags
                then hook_alloc c ix m u n mem length now w'
                else w'),
          ))

  unfoldable pub memhook_munmap : ℕ → ℕ → ℤ → W → ℤ × W
  memhook_munmap addr length now w =
      if is_nested c ix m u n w
      then do_munmap addr length w
      else (let (rs, w') = do_munmap addr length (enter c ix m u n w) in
          (rs, leave c ix m u n (if is_success rs then hook_free c ix m u n addr w' else w')))

  unfoldable pub memhook_mremap : ℕ → ℕ → ℕ → ℕ → ℕ → ℤ → W → ℕ × W
  memhook_mremap addr old_len new_len flags new_addr_arg now w =
      if is_nested c ix m u n w
      then do_mremap addr old_len new_len flags new_addr_arg w
      else (let (new_addr, w') =
            do_mremap addr old_len new_len flags new_addr_arg (enter c ix m u n w) in
          (
            new_addr,
            leave c ix m u n (
                if new_addr == map_failed
                then w'
                else hook_realloc c ix m u n addr new_addr new_len now w'),
          ))

  -- The library is closed before the hook depth rises.
  unfoldable pub memhook_dlclose : ℕ → W → ℤ × W
  memhook_dlclose handle w =
      let (rs, w') = do_dlclose handle w in
      (rs, leave c ix m u n (flush_call_stack_cache c ix m u n (enter c ix m u n w')))
