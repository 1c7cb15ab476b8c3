-- ===== src/Threads/Awaited.antt =====
-- What the steps of src/memhook/thread.cpp keep while a thread sleeps and others interrupt it.
use memhook.Prelude.{ℕ, ◌≡◌, refl, Bool, true, false, arith, ==_iff}
use memhook.Threads.Sleep.{
  SleepPc, enters, checks, commits, waits, awakes, leaves, returned, InterruptPc, stores, locks,
  signals, unlocks, finished, Owner, nobody, the_sleeper, interrupter, Sleeping, sleep_step,
  end_wait, interrupt_step, acquire_sleeper, acquire_interrupter,
}

-- The places at which a thread holds the mutex.
abbrev pub sleeper_holds : SleepPc → Bool
sleeper_holds checks = true
sleeper_holds commits = true
sleeper_holds (leaves r) = true
sleeper_holds _ = false

abbrev pub interrupter_holds : InterruptPc → Bool
interrupter_holds signals = true
interrupter_holds unlocks = true
interrupter_holds _ = false

-- The places from which the sleeper only goes on by an end of the wait.
abbrev pub is_asleep : SleepPc → Bool
is_asleep commits = true
is_asleep waits = true
is_asleep _ = false

abbrev pub has_stored : InterruptPc → Bool
has_stored stores = false
has_stored _ = true

abbrev pub has_signalled : InterruptPc → Bool
has_signalled unlocks = true
has_signalled finished = true
has_signalled _ = false

-- The mutex is held where the steps say so, and behind a broadcast nobody is asleep.
pub record IsAwaited (b : Bool) (o : Owner) (p : SleepPc) (f : ℕ → InterruptPc) : Type 0 where
  pub owns : sleeper_holds p ≡ true → o ≡ the_sleeper
  pub held : o ≡ the_sleeper → sleeper_holds p ≡ true
  pub locked : (i : ℕ) → interrupter_holds (f i) ≡ true → o ≡ interrupter i
  pub stored : (i : ℕ) → has_stored (f i) ≡ true → b ≡ true
  pub seen : (i : ℕ) → has_signalled (f i) ≡ true → is_asleep p ≡ false

signalled-stored : (p : InterruptPc) → has_signalled p ≡ true → has_stored p ≡ true
signalled-stored stores e = e
signalled-stored locks e = refl
signalled-stored signals e = refl
signalled-stored unlocks e = refl
signalled-stored finished e = refl

module _ (f : ℕ → InterruptPc) where
  acquire-IsAwaited :
      (b : Bool) (o : Owner) (p p' : SleepPc)
      → is_asleep p' ≡ false
      → sleeper_holds p' ≡ true
      → IsAwaited b o p f
      → IsAwaited b (acquire_sleeper o p p').0 (acquire_sleeper o p p').1 f
  acquire-IsAwaited b nobody p p' up on h = record {
    owns = λ e. refl;
    held = λ e. on;
    locked = λ i e. absurd (ground (arith, h.locked i));
    stored = h.stored;
    seen = λ i e. up;
  }
  acquire-IsAwaited b the_sleeper p p' up on h = h
  acquire-IsAwaited b (interrupter i) p p' up on h = h

  unlock-IsAwaited :
      (b : Bool) (o : Owner) (p p' : SleepPc)
      → sleeper_holds p ≡ true
      → sleeper_holds p' ≡ false
      → is_asleep p' ≡ is_asleep p
      → IsAwaited b o p f
      → IsAwaited b nobody p' f
  unlock-IsAwaited b o p p' held not_held same h = record {
    owns = λ e. absurd (ground arith);
    held = λ e. absurd (ground arith);
    locked = λ i e. absurd (ground (arith, h.locked i, h.owns));
    stored = h.stored;
    seen = λ i e. ground (arith, h.seen i);
  }

  pub sleep_step-IsAwaited :
      (b : Bool) (o : Owner) (p : SleepPc)
      → IsAwaited b o p f
      → IsAwaited b (sleep_step b o p).0 (sleep_step b o p).1 f
  unfolding sleep_step
  sleep_step-IsAwaited b o enters h = acquire-IsAwaited b o enters checks refl refl h
  sleep_step-IsAwaited true o checks h = record {
    owns = h.owns;
    held = h.held;
    locked = h.locked;
    stored = h.stored;
    seen = λ i e. refl;
  }
  sleep_step-IsAwaited false o checks h = record {
    owns = h.owns;
    held = h.held;
    locked = h.locked;
    stored = h.stored;
    seen = λ i e. absurd (ground (arith, h.stored i, signalled-stored (f i)));
  }
  sleep_step-IsAwaited b o commits h = unlock-IsAwaited b o commits waits refl refl refl h
  sleep_step-IsAwaited b o waits h = h
  sleep_step-IsAwaited b o (awakes true) h =
      acquire-IsAwaited b o (awakes true) (leaves true) refl refl h
  sleep_step-IsAwaited b o (awakes false) h =
      acquire-IsAwaited b o (awakes false) checks refl refl h
  sleep_step-IsAwaited b o (leaves r) h =
      unlock-IsAwaited b o (leaves r) (returned r) refl refl refl h
  sleep_step-IsAwaited b o (returned r) h = h

  pub end_wait-IsAwaited :
      (b timed_out : Bool) (o : Owner) (p : SleepPc)
      → IsAwaited b o p f
      → IsAwaited b o (end_wait timed_out p) f
  unfolding end_wait
  end_wait-IsAwaited b timed_out o waits h = record {
    owns = λ e. absurd (ground arith);
    held = λ e. absurd (ground (arith, h.held));
    locked = h.locked;
    stored = h.stored;
    seen = λ i e. refl;
  }
  end_wait-IsAwaited b timed_out o p h = h

abbrev pub IsAwaitedIn : Sleeping → Type 0
IsAwaitedIn s = IsAwaited s.interrupted s.owner s.sleeper s.pc

-- A broadcast is only made with the mutex held, so that no thread stands between its test and its
-- wait.
end_wait_asleep : (p : SleepPc) → sleeper_holds p ≡ false → is_asleep (end_wait false p) ≡ false
unfolding end_wait
end_wait_asleep enters e = refl
end_wait_asleep checks e = refl
end_wait_asleep commits e = e
end_wait_asleep waits e = refl
end_wait_asleep (awakes b) e = refl
end_wait_asleep (leaves r) e = refl
end_wait_asleep (returned r) e = refl

end_wait_holds : (p : SleepPc) → sleeper_holds (end_wait false p) ≡ sleeper_holds p
unfolding end_wait
end_wait_holds waits = refl
end_wait_holds p = refl

module _ (s : Sleeping) (h : IsAwaitedIn s) (i : ℕ) where
  locks-IsAwaited :
      (o : Owner) → s.owner ≡ o → s.pc i ≡ locks → IsAwaitedIn (acquire_interrupter i o s)
  locks-IsAwaited nobody free at = record {
    owns = λ e. absurd (ground (arith, h.owns));
    held = λ e. absurd (ground arith);
    locked = λ j e. ground (arith, h.locked j, ==_iff i j);
    stored = λ j e. ground (arith, h.stored i, h.stored j);
    seen = λ j e. ground (arith, h.seen j);
  }
  locks-IsAwaited the_sleeper free at = h
  locks-IsAwaited (interrupter j) free at = h

  pub interrupt_step-IsAwaited : (p : InterruptPc) → s.pc i ≡ p → IsAwaitedIn (interrupt_step i p s)
  unfolding interrupt_step
  interrupt_step-IsAwaited stores at = record {
    owns = h.owns;
    held = h.held;
    locked = λ j e. ground (arith, h.locked j);
    stored = λ j e. refl;
    seen = λ j e. ground (arith, h.seen j);
  }
  interrupt_step-IsAwaited locks at = locks-IsAwaited s.owner refl at
  interrupt_step-IsAwaited signals at =
      let own_it : s.owner ≡ interrupter i = h.locked i (ground arith) in
      let not_sleeper : sleeper_holds s.sleeper ≡ false = ground (arith, h.owns) in
      record {
        owns = λ e. absurd (ground (arith, end_wait_holds s.sleeper));
        held = λ e. absurd (ground arith);
        locked = λ j e. ground (arith, h.locked j, ==_iff i j);
        stored = λ j e. ground (arith, h.stored i, h.stored j);
        seen = λ j e. end_wait_asleep s.sleeper not_sleeper;
      }
  interrupt_step-IsAwaited unlocks at = record {
    owns = λ e. absurd (ground (arith, h.owns, h.locked i));
    held = λ e. absurd (ground arith);
    locked = λ j e. absurd (ground (arith, h.locked j, h.locked i, ==_iff i j));
    stored = λ j e. ground (arith, h.stored i, h.stored j);
    seen = λ j e. ground (arith, h.seen i, h.seen j);
  }
  interrupt_step-IsAwaited finished at = h
