-- ===== src/Examples/Counters.antt =====
-- Atomic operations, and paths that are taken.
use memhook.Prelude.{
  ℕ, ◌≡◌, ◌≢◌, ◌⊎◌, refl, false, true, some, List, [], ◌∷◌, arith, All, ltb, length, ◌+◌,
}
use memhook.Storage.UniquePath.{
  FileSystem, generate_unique_path, candidate, before, IsTaken, generate_unique_path_first,
}
use memhook.Atomics.{
  Op, store, atomic_exchange, compare_and_swap, atomic_fetch_and_add, atomic_add_and_fetch,
  memory_barrier, no_barrier, acquire, release, run_ops,
}
use memhook.Atomics.Gcc.{gcc_op64}
use memhook.Atomics.AsmX86.{asm_op64}
use memhook.Atomics.Agreement.{asm_op, builtin_op, run_ops_agree, add_and_fetch64_differs}

abbrev ops : List Op
ops =
    store release 3 7
    ∷ compare_and_swap acquire 3 7 9
    ∷ compare_and_swap acquire 3 7 8
    ∷ atomic_fetch_and_add true 3 0xffffffffffffffff
    ∷ atomic_exchange no_barrier 3 1
    ∷ memory_barrier
    ∷ []

run_ops_agree_example : run_ops (asm_op true) ops (λ p. 0) ≡ run_ops (builtin_op true) ops (λ p. 0)
run_ops_agree_example = run_ops_agree true ops (λ p. 0) (tt, (tt, (tt, (tt, (tt, (tt, tt))))))

add_and_fetch64_differs_example :
    ((asm_op64 (atomic_add_and_fetch true 3 5) (λ p. 2)).1
      ≡ (gcc_op64 (atomic_add_and_fetch true 3 5) (λ p. 2)).1)
    × ((asm_op64 (atomic_add_and_fetch true 3 5) (λ p. 2)).0 ≡ some 2)
    × ((asm_op64 (atomic_add_and_fetch true 3 5) (λ p. 2)).0
        ≢ (gcc_op64 (atomic_add_and_fetch true 3 5) (λ p. 2)).0)
add_and_fetch64_differs_example =
    add_and_fetch64_differs 3 5 (λ p. 2) (omega arith) (omega arith) (omega arith)

-- Short paths exist: the original one, and the one with the number of the process.
abbrev file_system : FileSystem
file_system = record {
  exists = λ p. ltb (length p) 7;
  extension = λ p. 46 ∷ 98 ∷ [];
  parent_and_stem = λ p. 97 ∷ [];
  decimal = λ n. (48 + n) ∷ [];
  getpid = 7;
}

abbrev original : List ℕ
original = 97 ∷ 46 ∷ 98 ∷ []

generate_unique_path_first_example :
    (p : List ℕ) × (generate_unique_path file_system 2 original 0 ≡ some p)
    × (file_system.exists p ≡ false)
    × (((file_system.exists original ≡ false) × (p ≡ original))
        ⊎ ((file_system.exists original ≡ true)
            × (j : ℕ) × (p ≡ candidate file_system original 0 j)
            × All (IsTaken file_system) (before file_system original 0 j)))
generate_unique_path_first_example = generate_unique_path_first file_system original 0 1 refl
