-- ===== src/Atomics/Gcc.antt =====
-- src/memhook/atomic-gcc.h: the operations by the compiler's builtin functions.
use memhook.Prelude.{ℕ, ◌+◌, ◌%◌, ◌^◌, ◌==◌, Option, none, some, if◌then◌else◌}
use memhook.Atomics.{
  load, store, atomic_exchange, compare_and_swap, atomic_fetch_and_add, atomic_add_and_fetch,
  memory_barrier, Memory, access, update, Implementation,
}

-- `__atomic_compare_exchange_n`, of which the functions return what becomes of `old_value`: a
-- failure stores the word that was found there.
abbrev pub compare_exchange_n : ℕ → ℕ → ℕ → ℕ × ℕ
compare_exchange_n old_value new_value word =
    if word == old_value then (old_value, new_value) else (word, word)

abbrev pub fetch_add : ℕ → ℕ → ℕ → ℕ × ℕ
fetch_add w value word = (word, (word + value) % 2 ^ w)

abbrev pub add_fetch : ℕ → ℕ → ℕ → ℕ × ℕ
add_fetch w value word = ((word + value) % 2 ^ w, (word + value) % 2 ^ w)

abbrev pub answer : ℕ × Memory → Option ℕ × Memory
answer (r, mem) = (some r, mem)

-- The functions on words of a width: those of `atomic32_t` for 32 bits.
unfoldable pub gcc_op : ℕ → Implementation
gcc_op w (load order ptr) mem = (some (mem ptr), mem)
gcc_op w (store order ptr value) mem = (none, update ptr value mem)
gcc_op w (atomic_exchange order ptr new_value) mem =
    answer (access ptr (λ word. (word, new_value)) mem)
gcc_op w (compare_and_swap order ptr old_value new_value) mem =
    answer (access ptr (compare_exchange_n old_value new_value) mem)
gcc_op w (atomic_fetch_and_add barrier ptr value) mem = answer (access ptr (fetch_add w value) mem)
gcc_op w (atomic_add_and_fetch barrier ptr value) mem = answer (access ptr (add_fetch w value) mem)
gcc_op w memory_barrier mem = (none, mem)

-- Those of `atomic64_t`.
unfoldable pub gcc_op64 : Implementation
gcc_op64 = gcc_op 64
