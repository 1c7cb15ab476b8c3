-- ===== src/Hooks/DlFunctions.antt =====
-- The functions that `DLFunctions` (src/memhook/dl_functions.h) holds, as far as the hooks of
-- src/memhook/memhook.cpp record what they do. A pointer is its address, and NULL is 0.
use memhook.Prelude.{ℕ, ℤ, Bool, Option}

pub record Libc : Type 1 where
  pub State : Type 0
  pub malloc : ℕ → State → ℕ × State
  pub free : ℕ → State → State
  pub calloc : ℕ → ℕ → State → ℕ × State
  pub realloc : ℕ → ℕ → State → ℕ × State
  pub memalign : ℕ → ℕ → State → ℕ × State
  -- From `*memptr` before the call to the status and `*memptr` after it.
  pub posix_memalign : ℕ → ℕ → ℕ → State → (ℤ × ℕ) × State
  pub cfree : ℕ → State → State
  pub aligned_alloc : ℕ → ℕ → State → ℕ × State
  pub valloc : ℕ → State → ℕ × State
  pub pvalloc : ℕ → State → ℕ × State
  -- addr, length, prot, flags, fd, offset
  pub mmap : ℕ → ℕ → ℕ → ℕ → ℤ → ℤ → State → ℕ × State
  pub mmap64 : ℕ → ℕ → ℕ → ℕ → ℤ → ℤ → State → ℕ × State
  -- addr, old_len, new_len, flags, new_addr_arg
  pub mremap : ℕ → ℕ → ℕ → ℕ → ℕ → State → ℕ × State
  pub munmap : ℕ → ℕ → State → ℤ × State
  pub dlclose : ℕ → State → ℤ × State
  -- `std::set_new_handler`, called twice: the handler that is installed.
  pub new_handler : State → Option ℕ
  -- A call of a handler, and whether it throws `std::bad_alloc`.
  pub call_handler : ℕ → State → Bool × State
