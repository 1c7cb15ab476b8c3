-- ===== src/Atomics/Agreement.antt =====
-- The two implementations of the atomic operations agree, but for one function on words of 64 bits.
use mathlib.Core.Option.{some-injective}
use memhook.Prelude.{
  ℕ, ◌%◌, ◌+◌, ◌^◌, ◌<◌, ◌≡◌, ◌≢◌, refl, ap, Bool, true, false, Option, some, List, [], ◌∷◌, All,
  arith,
}
use memhook.Atomics.{
  Op, load, store, atomic_exchange, compare_and_swap, atomic_fetch_and_add, atomic_add_and_fetch,
  memory_barrier, Memory, update, Implementation, run_ops,
}
use memhook.Atomics.Gcc.{compare_exchange_n, gcc_op, gcc_op64}
use memhook.Atomics.AsmX86.{
  cmpxchg, exchange, swap_if_equal, fetch_and_add, add_and_fetch, asm_op32, asm_op64,
}

-- Both leave the word that they find, or both replace it.
cmpxchg_lem : (old new word : ℕ) → cmpxchg old new word ≡ compare_exchange_n old new word
cmpxchg_lem old new word = ground arith

-- The two implementations, on words of 64 bits or of 32.
abbrev pub asm_op : Bool → Implementation
asm_op true = asm_op64
asm_op false = asm_op32

abbrev pub builtin_op : Bool → Implementation
builtin_op true = gcc_op64
builtin_op false = gcc_op 32

-- An operation other than `Barrier_AtomicAddAndFetch` on words of 64 bits.
abbrev pub IsSound : Bool → Op → Type 0
IsSound true (atomic_add_and_fetch true p v) = ⊥
IsSound _ _ = Unit

agree :
    (wide : Bool) (op : Op) (mem : Memory)
    → IsSound wide op
    → asm_op wide op mem ≡ builtin_op wide op mem
unfolding asm_op32 asm_op64 gcc_op64 gcc_op exchange swap_if_equal fetch_and_add add_and_fetch
agree true (load o p) mem h = refl
agree true (store o p v) mem h = refl
agree true (atomic_exchange o p v) mem h = refl
agree true (compare_and_swap o p old new) mem h =
    ap (λ (x : ℕ × ℕ). (some x.0, update p x.1 mem)) (cmpxchg_lem old new (mem p))
agree true (atomic_fetch_and_add b p v) mem h = refl
agree true (atomic_add_and_fetch false p v) mem h = refl
agree true (atomic_add_and_fetch true p v) mem h = absurd h
agree true memory_barrier mem h = refl
agree false (load o p) mem h = refl
agree false (store o p v) mem h = refl
agree false (atomic_exchange o p v) mem h = refl
agree false (compare_and_swap o p old new) mem h =
    ap (λ (x : ℕ × ℕ). (some x.0, update p x.1 mem)) (cmpxchg_lem old new (mem p))
agree false (atomic_fetch_and_add b p v) mem h = refl
agree false (atomic_add_and_fetch b p v) mem h = refl
agree false memory_barrier mem h = refl

-- The implementation by instructions and the one by builtins give the same answers and the same
-- memory, for any operations one after the other: on words of 32 bits always, and on words of 64
-- bits unless `Barrier_AtomicAddAndFetch` is among the operations.
pub run_ops_agree :
    (wide : Bool) (ops : List Op) (mem : Memory)
    → All (IsSound wide) ops
    → run_ops (asm_op wide) ops mem ≡ run_ops (builtin_op wide) ops mem
unfolding run_ops
run_ops_agree wide [] mem h = refl
run_ops_agree wide (op ∷ ops) mem (h, hs) = rw (agree wide op mem h) (
    ap (λ (x : List (Option ℕ) × Memory). ((builtin_op wide op mem).0 ∷ x.0, x.1))
      (run_ops_agree wide ops (builtin_op wide op mem).1 hs))

add_changes :
    (word value : ℕ) → word < 2 ^ 64 → 0 < value → value < 2 ^ 64 → word ≢ (word + value) % 2 ^ 64
add_changes word value fits positive small e = omega arith

-- On words of 64 bits `Barrier_AtomicAddAndFetch` by instructions stores the sum, as the one by
-- builtins does, but answers the word that was there before, which is another one when the word
-- that is added is not 0.
pub add_and_fetch64_differs :
    (ptr value : ℕ) (mem : Memory)
    → mem ptr < 2 ^ 64
    → 0 < value
    → value < 2 ^ 64
    → ((asm_op64 (atomic_add_and_fetch true ptr value) mem).1
        ≡ (gcc_op64 (atomic_add_and_fetch true ptr value) mem).1)
      × ((asm_op64 (atomic_add_and_fetch true ptr value) mem).0 ≡ some (mem ptr))
      × ((asm_op64 (atomic_add_and_fetch true ptr value) mem).0
          ≢ (gcc_op64 (atomic_add_and_fetch true ptr value) mem).0)
unfolding asm_op64 gcc_op64 gcc_op fetch_and_add
add_and_fetch64_differs ptr value mem fits positive small =
    (refl, refl, λ e. add_changes (mem ptr) value fits positive small (some-injective _ _ e))
