-- ===== src/Atomics.antt =====
-- The atomic operations of src/memhook/atomic.h, of which there are two implementations:
-- Atomics/Gcc is atomic-gcc.h and Atomics/AsmX86 is atomic-asm-x86.h. A word is its bit pattern, a
-- number below 2 ^ w. An operation is one step on a memory that is sequentially consistent, so that
-- barriers and memory orders do not show.
pub mod Gcc
pub mod AsmX86
pub mod Agreement
use memhook.Prelude.{ℕ, ◌==◌, Bool, Option, List, [], ◌∷◌, if◌then◌else◌}

-- The prefix of the name of an operation.
pub data MemoryOrder : Type 0 where
  no_barrier : MemoryOrder
  release : MemoryOrder
  acquire : MemoryOrder

-- The operations, with the addresses and words that they are given. The two additions take no order
-- but whether they are the ones called `Barrier_`.
pub data Op : Type 0 where
  load : MemoryOrder → ℕ → Op
  store : MemoryOrder → ℕ → ℕ → Op
  atomic_exchange : MemoryOrder → ℕ → ℕ → Op
  compare_and_swap : MemoryOrder → ℕ → ℕ → ℕ → Op
  atomic_fetch_and_add : Bool → ℕ → ℕ → Op
  atomic_add_and_fetch : Bool → ℕ → ℕ → Op
  memory_barrier : Op

-- The words of the memory by their addresses.
abbrev pub Memory : Type 0
Memory = ℕ → ℕ

unfoldable pub update : ℕ → ℕ → Memory → Memory
update ptr value mem p = if ptr == p then value else mem p

-- An access of one word, which answers a word and says what the word in the memory becomes.
abbrev pub access : ℕ → (ℕ → ℕ × ℕ) → Memory → ℕ × Memory
access ptr f mem = let (r, value) = f (mem ptr) in (r, update ptr value mem)

-- An implementation: what an operation answers, if anything, and what becomes of the memory.
abbrev pub Implementation : Type 0
Implementation = Op → Memory → Option ℕ × Memory

-- The operations one after the other, with their answers.
unfoldable pub run_ops : Implementation → List Op → Memory → List (Option ℕ) × Memory
run_ops f [] mem = ([], mem)
run_ops f (op ∷ ops) mem =
    let (r, mem') = f op mem in let (rs, last) = run_ops f ops mem' in (r ∷ rs, last)
