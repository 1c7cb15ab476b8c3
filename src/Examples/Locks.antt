-- ===== src/Examples/Locks.antt =====
-- Two threads and a spin lock.
use memhook.Prelude.{
  ℕ, ◌≤◌, ◌<◌, ◌+◌, ◌/◌, ◌^◌, ◌≡◌, refl, true, false, List, [], ◌∷◌, if◌then◌else◌, ◌==◌,
}
use memhook.SpinLock.{free, delays, outside, act, Threads, start, run}
use memhook.Atomics.AsmX86.{asm_op32}
use memhook.SpinLock.Delays.{duration, spin_lock_delay, clamp_loop, delay_bounds}
use memhook.SpinLock.Words.{Machine, word, run_words, run_words-run}
use memhook.SpinLock.Exclusion.{is_free, is_inside, alone, run_exclusive, run_progress}

-- Thread 1 takes the lock, thread 2 spins and sleeps, thread 1 gives the lock up, and 2 takes it.
abbrev schedule : List ℕ
schedule = 1 ∷ 2 ∷ 2 ∷ 2 ∷ 2 ∷ 1 ∷ 2 ∷ 2 ∷ 2 ∷ []

abbrev second : ℕ
second = 2

run_exclusive_example : (second ≡ second) × (is_free (run 1 schedule start).lock_value ≡ false)
unfolding run act
run_exclusive_example = run_exclusive 1 schedule second second refl refl

-- A thread that wakes from its delay and finds the lock free.
abbrev delayed : Threads
delayed = record { lock_value = free; pc = λ i. if i == 2 then delays else outside }

run_progress_example : (n : ℕ) × (n ≤ 3) × (is_inside ((run 9 (alone n 2) delayed).pc 2) ≡ true)
run_progress_example = run_progress 9 2 delayed refl refl

delay_bounds_example :
    (duration (spin_lock_delay true 9 12345).0 < 2 ^ (25 + clamp_loop 9 / 8))
    × (duration (spin_lock_delay true 9 12345).0 < 1000000000)
delay_bounds_example = delay_bounds true 9 12345

-- Two threads at the word at address 8.
abbrev before_lock : Machine
before_lock = record { memory = λ p. 0; pc = λ i. outside }

run_words-run_example :
    ((run_words asm_op32 1000 8 (1 ∷ 2 ∷ 2 ∷ 1 ∷ []) before_lock).memory 8
      ≡ word (run 1000 (1 ∷ 2 ∷ 2 ∷ 1 ∷ []) start).lock_value)
    × ((run_words asm_op32 1000 8 (1 ∷ 2 ∷ 2 ∷ 1 ∷ []) before_lock).pc
        ≡ (run 1000 (1 ∷ 2 ∷ 2 ∷ 1 ∷ []) start).pc)
run_words-run_example = run_words-run 1000 8 (1 ∷ 2 ∷ 2 ∷ 1 ∷ []) before_lock start refl refl
