-- ===== src/Threads/Sleep.antt =====
-- `ConditionVariable` and `InterruptibleThread` of src/memhook/thread.h and thread.cpp: one thread
-- in `SleepUntil` or `SleepFor`, and any number of others that call `Interrupt`. A thread takes one
-- step for each access of what they share, in any order. A wait of the thread library releases the
-- mutex and takes its place in the queue at once; it ends by a broadcast, by its time, or for no
-- reason.
use memhook.Prelude.{
  ℕ, ◌+◌, ◌-◌, ◌*◌, ◌/◌, ◌==◌, Bool, true, false, List, [], ◌∷◌, leb, if◌then◌else◌,
}

-- `timespec`
pub record TimeSpec : Type 0 where
  pub tv_sec : ℕ
  pub tv_nsec : ℕ

abbrev pub billion : ℕ
billion = 1000000000

-- `ConvToTimeSpec` of a time that is not negative.
unfoldable pub conv_to_time_spec : ℕ → TimeSpec
conv_to_time_spec ns = record { tv_sec = ns / billion; tv_nsec = ns - ns / billion * billion }

-- What `operator+=` on `timespec` returns; it changes neither side.
unfoldable pub add_time : TimeSpec → TimeSpec → TimeSpec
add_time lhs rhs =
    let sec = lhs.tv_sec + rhs.tv_sec in
    let nsec = lhs.tv_nsec + rhs.tv_nsec in
    if leb billion nsec
    then record { tv_sec = sec + 1; tv_nsec = nsec - billion }
    else record { tv_sec = sec; tv_nsec = nsec }

-- The time until which `ConditionVariable::WaitFor` waits, when the clock shows `now`: the result
-- of `abs_time += rel_time` is dropped.
unfoldable pub wait_for_until : TimeSpec → TimeSpec → TimeSpec
wait_for_until now rel_time = let dropped = add_time now rel_time in now

-- Where the sleeper stands: before it locks; at the test of the loop; behind a test that found no
-- request, before the wait; in the wait; behind it, before the mutex is locked again, with whether
-- the time is over; before it unlocks, with the result; at its end.
pub data SleepPc : Type 0 where
  enters : SleepPc
  checks : SleepPc
  commits : SleepPc
  waits : SleepPc
  awakes : Bool → SleepPc
  leaves : Bool → SleepPc
  returned : Bool → SleepPc

-- Where a thread in `Interrupt` stands: before the store; before it locks; before `WakeUpAll`;
-- before it unlocks; at its end.
pub data InterruptPc : Type 0 where
  stores : InterruptPc
  locks : InterruptPc
  signals : InterruptPc
  unlocks : InterruptPc
  finished : InterruptPc

-- Who holds `m_sleep_mutex`.
pub data Owner : Type 0 where
  nobody : Owner
  the_sleeper : Owner
  interrupter : ℕ → Owner

pub record Sleeping : Type 0 where
  pub interrupted : Bool
  pub owner : Owner
  pub sleeper : SleepPc
  pub pc : ℕ → InterruptPc

-- `MutexLock lock(m_sleep_mutex)` and the locking at the end of a wait: a thread waits while it is
-- held.
abbrev pub acquire_sleeper : Owner → SleepPc → SleepPc → Owner × SleepPc
acquire_sleeper nobody old new = (the_sleeper, new)
acquire_sleeper o old new = (o, old)

-- A step of `SleepUntil` or `SleepFor`, with `m_interrupted`.
unfoldable pub sleep_step : Bool → Owner → SleepPc → Owner × SleepPc
sleep_step interrupted o enters = acquire_sleeper o enters checks
sleep_step true o checks = (o, leaves false)
sleep_step false o checks = (o, commits)
sleep_step interrupted o commits = (nobody, waits)
sleep_step interrupted o waits = (o, waits)
sleep_step interrupted o (awakes true) = acquire_sleeper o (awakes true) (leaves true)
sleep_step interrupted o (awakes false) = acquire_sleeper o (awakes false) checks
sleep_step interrupted o (leaves r) = (nobody, returned r)
sleep_step interrupted o (returned r) = (o, returned r)

-- The end of a wait, and what `pthread_cond_broadcast` does to a thread.
unfoldable pub end_wait : Bool → SleepPc → SleepPc
end_wait timed_out waits = awakes timed_out
end_wait timed_out p = p

abbrev pub set_pc : ℕ → InterruptPc → Sleeping → Sleeping
set_pc i p s = record s { pc = λ j. if i == j then p else s.pc j }

abbrev pub acquire_interrupter : ℕ → Owner → Sleeping → Sleeping
acquire_interrupter i nobody s = set_pc i signals (record s { owner = interrupter i })
acquire_interrupter i o s = s

-- A step of `Interrupt`.
unfoldable pub interrupt_step : ℕ → InterruptPc → Sleeping → Sleeping
interrupt_step i stores s = set_pc i locks (record s { interrupted = true })
interrupt_step i locks s = acquire_interrupter i s.owner s
interrupt_step i signals s = set_pc i unlocks (record s { sleeper = end_wait false s.sleeper })
interrupt_step i unlocks s = set_pc i finished (record s { owner = nobody })
interrupt_step i finished s = s

-- What happens next: a thread takes a step, or the wait ends by its time or for no reason.
pub data Turn : Type 0 where
  sleeps : Turn
  interrupts : ℕ → Turn
  times_out : Turn
  wakes_up : Turn

unfoldable pub turn : Turn → Sleeping → Sleeping
turn sleeps s =
    let (o, p) = sleep_step s.interrupted s.owner s.sleeper in record s { owner = o; sleeper = p }
turn (interrupts i) s = interrupt_step i (s.pc i) s
turn times_out s = record s { sleeper = end_wait true s.sleeper }
turn wakes_up s = record s { sleeper = end_wait false s.sleeper }

unfoldable pub turns : List Turn → Sleeping → Sleeping
turns [] s = s
turns (t ∷ ts) s = turns ts (turn t s)

abbrev pub before_sleep : Sleeping
before_sleep = record { interrupted = false; owner = nobody; sleeper = enters; pc = λ i. stores }
