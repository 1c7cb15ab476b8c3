-- ===== src/Atomics/AsmX86.antt =====
-- src/memhook/atomic-asm-x86.h: the operations by the instructions of the processor. A function
-- that holds the instructions is a definition, with the width of its words; those that are called
-- by another name only are clauses of `asm_op32` and `asm_op64`.
use memhook.Prelude.{ℕ, ◌+◌, ◌%◌, ◌^◌, ◌==◌, none, some, true, false, if◌then◌else◌}
use memhook.Atomics.{
  load, store, atomic_exchange, compare_and_swap, atomic_fetch_and_add, atomic_add_and_fetch,
  memory_barrier, Memory, access, update, Implementation,
}
use memhook.Atomics.Gcc.{answer}

-- `xchg`: from the register and the word to both of them afterwards.
abbrev pub xchg : ℕ → ℕ → ℕ × ℕ
xchg reg word = (word, reg)

-- `lock; cmpxchg`: the accumulator, the register and the word; the accumulator afterwards.
abbrev pub cmpxchg : ℕ → ℕ → ℕ → ℕ × ℕ
cmpxchg acc reg word = if acc == word then (acc, reg) else (word, word)

-- `lock; xadd`
abbrev pub xadd : ℕ → ℕ → ℕ → ℕ × ℕ
xadd w reg word = (word, (word + reg) % 2 ^ w)

-- `NoBarrier_AtomicExchange`
unfoldable pub exchange : ℕ → ℕ → Memory → ℕ × Memory
exchange ptr new_value mem = access ptr (xchg new_value) mem

-- `NoBarrier_CompareAndSwap`
unfoldable pub swap_if_equal : ℕ → ℕ → ℕ → Memory → ℕ × Memory
swap_if_equal ptr old_value new_value mem = access ptr (cmpxchg old_value new_value) mem

-- `NoBarrier_AtomicFetchAndAdd`
unfoldable pub fetch_and_add : ℕ → ℕ → ℕ → Memory → ℕ × Memory
fetch_and_add w ptr value mem = access ptr (xadd w value) mem

-- `NoBarrier_AtomicAddAndFetch`
unfoldable pub add_and_fetch : ℕ → ℕ → ℕ → Memory → ℕ × Memory
add_and_fetch w ptr value mem =
    let (temp, mem') = access ptr (xadd w value) mem in ((temp + value) % 2 ^ w, mem')

-- The functions of `atomic32_t`.
unfoldable pub asm_op32 : Implementation
asm_op32 (load order ptr) mem = (some (mem ptr), mem)
asm_op32 (store order ptr value) mem = (none, update ptr value mem)
asm_op32 (atomic_exchange order ptr new_value) mem = answer (exchange ptr new_value mem)
asm_op32 (compare_and_swap order ptr old_value new_value) mem =
    answer (swap_if_equal ptr old_value new_value mem)
asm_op32 (atomic_fetch_and_add barrier ptr value) mem = answer (fetch_and_add 32 ptr value mem)
asm_op32 (atomic_add_and_fetch barrier ptr value) mem = answer (add_and_fetch 32 ptr value mem)
asm_op32 memory_barrier mem = (none, mem)

-- The functions of `atomic64_t`. `Barrier_AtomicAddAndFetch` calls `NoBarrier_AtomicFetchAndAdd`.
unfoldable pub asm_op64 : Implementation
asm_op64 (load order ptr) mem = (some (mem ptr), mem)
asm_op64 (store order ptr value) mem = (none, update ptr value mem)
asm_op64 (atomic_exchange order ptr new_value) mem = answer (exchange ptr new_value mem)
asm_op64 (compare_and_swap order ptr old_value new_value) mem =
    answer (swap_if_equal ptr old_value new_value mem)
asm_op64 (atomic_fetch_and_add barrier ptr value) mem = answer (fetch_and_add 64 ptr value mem)
asm_op64 (atomic_add_and_fetch true ptr value) mem = answer (fetch_and_add 64 ptr value mem)
asm_op64 (atomic_add_and_fetch false ptr value) mem = answer (add_and_fetch 64 ptr value mem)
asm_op64 memory_barrier mem = (none, mem)
