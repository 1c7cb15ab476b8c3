-- ===== src/SpinLock.antt =====
-- `SpinLock` of src/memhook/spin_lock.h and spin_lock.cpp. A thread takes one step for each access
-- of the lock word, and threads take their steps in any order; memory is sequentially consistent. A
-- delay may end at any time, as its wait is timed, and a wake-up only ends one early.
pub mod Exclusion
pub mod Delays
pub mod Words
use memhook.Prelude.{ℕ, ◌-◌, ◌==◌, Bool, true, false, List, [], ◌∷◌, ltb, leb, if◌then◌else◌}

-- `m_lock_value`
pub data LockValue : Type 0 where
  free : LockValue
  held : LockValue
  sleeper : LockValue

-- Where a thread stands: before `Lock`; in `SpinLoop`, with the counter, or at its exchange; in
-- `SlowLock` at the exchange of held for sleeper, at the one behind it, or in the delay; with the
-- lock; in `SlowUnlock`.
pub data Pc : Type 0 where
  outside : Pc
  spins : ℕ → Pc
  spin_exchanges : Pc
  marks : Pc
  retries : Pc
  delays : Pc
  inside : Pc
  wakes : Pc

-- The test of the `for` loop in `SlowLock`, and of the `if` in its body.
abbrev pub test : LockValue → Pc
test free = inside
test held = marks
test sleeper = delays

-- `Acquire_CompareAndSwap(&m_lock_value, kSpinLockFree, kSpinLockSleeper)` and the test of its
-- result.
abbrev pub take_as_sleeper : LockValue → LockValue × Pc
take_as_sleeper free = (sleeper, inside)
take_as_sleeper word = (word, test word)

-- `Lock`
abbrev pub lock : ℕ → LockValue → LockValue × Pc
lock count free = (held, inside)
lock count word = (word, spins count)

-- The load of `SpinLoop`, where the counter is still to be lowered.
abbrev pub spin : ℕ → LockValue → Pc
spin c free = spin_exchanges
spin c _ = if ltb 1 c then spins (c - 1) else spin_exchanges

-- The exchange of held for sleeper.
abbrev pub mark : LockValue → LockValue × Pc
mark free = (free, retries)
mark held = (sleeper, delays)
mark sleeper = (sleeper, delays)

-- `Unlock`
abbrev pub unlock : LockValue → LockValue × Pc
unlock held = (free, outside)
unlock _ = (free, wakes)

-- One step of a thread; `count` is `g_adaptive_spin_count`.
unfoldable pub act : ℕ → LockValue → Pc → LockValue × Pc
act count word outside = lock count word
act count word (spins c) = (word, spin c word)
act count word spin_exchanges = take_as_sleeper word
act count word marks = mark word
act count word retries = take_as_sleeper word
act count word delays = (word, spins count)
act count word inside = unlock word
act count word wakes = (word, outside)

pub record Threads : Type 0 where
  pub lock_value : LockValue
  pub pc : ℕ → Pc

abbrev pub start : Threads
start = record { lock_value = free; pc = λ i. outside }

-- The threads that take a step, one after the other.
unfoldable pub run : ℕ → List ℕ → Threads → Threads
run count [] s = s
run count (i ∷ is) s =
    let (word, p) = act count s.lock_value (s.pc i) in
    run count is (record { lock_value = word; pc = λ j. if i == j then p else s.pc j })
