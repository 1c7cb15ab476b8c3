-- ===== src/Threads/Interrupts.antt =====
-- No call of `Interrupt` of src/memhook/thread.cpp is lost on a thread that sleeps.
use memhook.Prelude.{Bool, false, List, [], ◌∷◌}
use memhook.Threads.Sleep.{SleepPc, awakes, leaves, returned, Turn, sleeps}

-- The result that is settled: whether the time was over before the request was seen.
abbrev pub settled : SleepPc → Bool
settled (awakes timed_out) = timed_out
settled (leaves r) = r
settled (returned r) = r
settled _ = false

-- Three steps of the sleeper.
abbrev pub three : List Turn
three = sleeps ∷ sleeps ∷ sleeps ∷ []
