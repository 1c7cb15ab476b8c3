-- ===== src/SpinLock/Words.antt =====
-- `SpinLock` of src/memhook/spin_lock.h and spin_lock.cpp on the word `m_lock_value` itself, by the
-- functions of src/memhook/atomic.h: the words 0, 1 and 2 are the three values of the lock.
use mathlib.Core.Path.{fun_ext}
use memhook.Prelude.{
  ℕ, ◌-◌, ◌==◌, ◌≡◌, refl, ap, ◌∙◌, Option, none, some, List, [], ◌∷◌, ltb, if◌then◌else◌, arith,
}
use memhook.Atomics.{
  Op, load, atomic_exchange, compare_and_swap, no_barrier, acquire, release, Memory, update,
  Implementation,
}
use memhook.Atomics.AsmX86.{exchange, swap_if_equal, asm_op32}
use memhook.SpinLock.{
  LockValue, free, held, sleeper, Pc, outside, spins, spin_exchanges, marks, retries, delays,
  inside, wakes, act, Threads, run,
}

-- `kSpinLockFree`, `kSpinLockHeld` and `kSpinLockSleeper`
abbrev pub word : LockValue → ℕ
word free = 0
word held = 1
word sleeper = 2

-- The access of the word at an address that a thread makes next.
unfoldable pub next_access : ℕ → Pc → Option Op
next_access ptr outside = some (compare_and_swap acquire ptr 0 1)
next_access ptr (spins c) = some (load no_barrier ptr)
next_access ptr spin_exchanges = some (compare_and_swap acquire ptr 0 2)
next_access ptr marks = some (compare_and_swap acquire ptr 1 2)
next_access ptr retries = some (compare_and_swap acquire ptr 0 2)
next_access ptr delays = none
next_access ptr inside = some (atomic_exchange release ptr 0)
next_access ptr wakes = none

-- The tests of the loop in `SlowLock` on `lock_value`.
abbrev pub tested : ℕ → Pc
tested lock_value = if lock_value == 0 then inside else if lock_value == 1 then marks else delays

-- Where the thread goes on, by the answer of the access.
unfoldable pub next_pc : ℕ → Pc → ℕ → Pc
next_pc count outside r = if r == 0 then inside else spins count
next_pc count (spins c) r =
    if r == 0 then spin_exchanges else if ltb 1 c then spins (c - 1) else spin_exchanges
next_pc count spin_exchanges r = tested r
next_pc count marks r = if r == 1 then delays else if r == 0 then retries else tested r
next_pc count retries r = tested r
next_pc count delays r = spins count
next_pc count inside r = if r == 1 then outside else wakes
next_pc count wakes r = outside

abbrev pub answered : Option ℕ → ℕ
answered none = 0
answered (some r) = r

-- A step of a thread on the memory.
abbrev pub perform : Implementation → ℕ → Pc → Option Op → Memory → Memory × Pc
perform impl count p none mem = (mem, next_pc count p 0)
perform impl count p (some op) mem =
    let (r, mem') = impl op mem in (mem', next_pc count p (answered r))

pub record Machine : Type 0 where
  pub memory : Memory
  pub pc : ℕ → Pc

-- The threads that take a step, one after the other.
unfoldable pub run_words : Implementation → ℕ → ℕ → List ℕ → Machine → Machine
run_words impl count ptr [] m = m
run_words impl count ptr (i ∷ is) m =
    let (mem, p) = perform impl count (m.pc i) (next_access ptr (m.pc i)) m.memory in
    run_words impl count ptr is (record { memory = mem; pc = λ j. if i == j then p else m.pc j })

-- A step on the memory is the step of the lock.
perform-act :
    (count ptr : ℕ) (w : LockValue) (p : Pc) (mem : Memory)
    → mem ptr ≡ word w
    → ((perform asm_op32 count p (next_access ptr p) mem).0 ptr ≡ word (act count w p).0)
      × ((perform asm_op32 count p (next_access ptr p) mem).1 ≡ (act count w p).1)
unfolding next_access next_pc act asm_op32 exchange swap_if_equal update
perform-act count ptr w delays mem e = (e, refl)
perform-act count ptr w wakes mem e = (e, refl)
perform-act count ptr free p mem e = rw e (ground arith, ground arith)
perform-act count ptr held p mem e = rw e (ground arith, ground arith)
perform-act count ptr sleeper p mem e = rw e (ground arith, ground arith)

-- The lock on the word goes as the lock on its values: from a word that stands for the value, and
-- the same places of all threads, the same steps lead to such a word and to the same places.
pub run_words-run :
    (count ptr : ℕ) (is : List ℕ) (m : Machine) (s : Threads)
    → m.memory ptr ≡ word s.lock_value
    → m.pc ≡ s.pc
    → ((run_words asm_op32 count ptr is m).memory ptr ≡ word (run count is s).lock_value)
      × ((run_words asm_op32 count ptr is m).pc ≡ (run count is s).pc)
unfolding run_words run
run_words-run count ptr [] m s e d = (e, d)
run_words-run count ptr (i ∷ is) m s e d =
    let (value, place) = perform-act count ptr s.lock_value (s.pc i) m.memory e in
    let (mem, p) = perform asm_op32 count (m.pc i) (next_access ptr (m.pc i)) m.memory in
    let (w, q) = act count s.lock_value (s.pc i) in
    let same : perform asm_op32 count (m.pc i) (next_access ptr (m.pc i)) m.memory
        ≡ perform asm_op32 count (s.pc i) (next_access ptr (s.pc i)) m.memory =
      ap (λ (f : ℕ → Pc). perform asm_op32 count (f i) (next_access ptr (f i)) m.memory) d in
    run_words-run count ptr is (record { memory = mem; pc = λ j. if i == j then p else m.pc j })
      (record { lock_value = w; pc = λ j. if i == j then q else s.pc j })
      (ap (λ x. x.0 ptr) same ∙ value)
      (fun_ext (λ j.
        ground (arith, ap (λ (f : ℕ → Pc). f j) d, ap (λ (x : Memory × Pc). x.1) same, place)))
