-- ===== src/Examples/Waits.antt =====
-- Locks that are moved, swapped and destroyed, and a thread that is interrupted in its sleep.
use memhook.Prelude.{refl, true, none, some, List, [], ◌∷◌}
use memhook.Threads.{
  Locking, mutex_lock, mutex_unlock, lock_at, set_lock, lock_one, unlock_one, no_mutex, on_lock,
  construct, move_construct, take_over, move_assign, swap_locks, forget, destroy_lock, LockCall,
  makes, moves_from, assigns, swaps, destroys, lock_call, lock_calls,
}
use memhook.Threads.Sleep.{Turn, sleeps, interrupts}
use memhook.Threads.Ownership.{IsBalanced}
use memhook.Threads.Balance.{lock_calls-IsBalanced}

-- Two locks of mutex 5 and one of mutex 6; the first is moved, and its heir overwritten and
-- destroyed.
abbrev calls : List LockCall
calls = makes 5 ∷ makes 5 ∷ makes 6 ∷ moves_from 0 ∷ swaps 1 2 ∷ assigns 3 1 ∷ destroys 2 ∷ []

abbrev end : Locking
end = record {
  depth = mutex_unlock 5 (mutex_unlock 5 (mutex_lock 6 (mutex_lock 5 (mutex_lock 5 (λ m. 0)))));
  locks =
      some no_mutex
      ∷ some no_mutex
      ∷ none
      ∷ some (record { mutex = some 6; is_locked = true })
      ∷ [];
}

lock_calls-IsBalanced_example : IsBalanced end
unfolding lock_calls lock_call construct move_construct move_assign take_over swap_locks forget
    destroy_lock on_lock lock_at set_lock lock_one unlock_one
lock_calls-IsBalanced_example = lock_calls-IsBalanced calls end refl

-- The sleeper falls asleep, and thread 4 interrupts it.
abbrev night : List Turn
night = sleeps ∷ sleeps ∷ sleeps ∷ interrupts 4 ∷ interrupts 4 ∷ interrupts 4 ∷ interrupts 4 ∷ []
