-- ===== src/Examples/Interrupted.antt =====
-- Signals that arrive while a view holds its lock, in a program that had blocked signal 10.
use memhook.Prelude.{◌≡◌, ◌==◌, [], ◌∷◌, map, ◌+◌}
use memhook.Signals.{Signals, run_work, interprocess_scoped_lock, arrivals}
use memhook.Signals.Restored.{while_viewing, interprocess_scoped_lock_signals}

abbrev signals : Signals
signals = record { mask = λ n. n == 10; action = λ n. n + 500 }

interprocess_scoped_lock_signals_example :
    run_work (interprocess_scoped_lock 77 (arrivals (2 ∷ 15 ∷ 10 ∷ []))) signals
    ≡ (signals, map (while_viewing 77 signals) (2 ∷ 15 ∷ 10 ∷ []))
interprocess_scoped_lock_signals_example =
    interprocess_scoped_lock_signals 77 (2 ∷ 15 ∷ 10 ∷ []) signals
