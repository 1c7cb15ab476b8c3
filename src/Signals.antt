-- ===== src/Signals.antt =====
-- `ScopedSignalLock` and `ScopedSignal` of src/memhookcore/scoped_signal_lock.cpp and
-- scoped_signal.cpp, and `InterprocessScopedLock` of src/memview/interprocess_scoped_lock.cpp:
-- which signals reach the program while it holds a lock. `pthread_sigmask` and `sigaction` succeed.
pub mod Restored
use memhook.Prelude.{
  ℕ, ◌==◌, Bool, true, false, not, ◌&&◌, ◌||◌, Option, none, some, List, [], ◌∷◌, ◌++◌,
  if◌then◌else◌,
}

-- `sigset_t`
abbrev pub SigSet : Type 0
SigSet = ℕ → Bool

abbrev pub sigint : ℕ
sigint = 2

abbrev pub sigquit : ℕ
sigquit = 3

abbrev pub sigabrt : ℕ
sigabrt = 6

abbrev pub sigterm : ℕ
sigterm = 15

-- `FillNewMask`
unfoldable pub fill_new_mask : SigSet
fill_new_mask n = n == sigint || n == sigquit || n == sigabrt || n == sigterm

abbrev pub sigdelset : ℕ → SigSet → SigSet
sigdelset signum set n = if signum == n then false else set n

-- The mask of the thread, and the handler of each signal.
pub record Signals : Type 0 where
  pub mask : SigSet
  pub action : ℕ → ℕ

-- The objects whose life is a scope: a lock with the signals that it lets through, and a handler.
pub data Scope : Type 0 where
  signal_lock : List ℕ → Scope
  signal : ℕ → ℕ → Scope

-- The mask of a `ScopedSignalLock`: the new mask without the signals of its constructor.
unfoldable pub lock_mask : List ℕ → SigSet
lock_mask [] = fill_new_mask
lock_mask (signum ∷ signums) = sigdelset signum (lock_mask signums)

abbrev pub set_action : ℕ → ℕ → (ℕ → ℕ) → ℕ → ℕ
set_action signum handler action n = if signum == n then handler else action n

-- The constructors.
unfoldable pub open_scope : Scope → Signals → Signals
open_scope (signal_lock signums) s = record s { mask = lock_mask signums }
open_scope (signal signum callback) s = record s { action = set_action signum callback s.action }

-- The destructors, with what was there at the construction.
unfoldable pub close_scope : Scope → Signals → Signals → Signals
close_scope (signal_lock signums) old s = record s { mask = old.mask }
close_scope (signal signum callback) old s = record s {
  action = set_action signum (old.action signum) s.action;
}

-- What a program does: a signal arrives, or a scope is entered and left again.
pub data Work : Type 0 where
  ends : Work
  arrives : ℕ → Work → Work
  within : Scope → Work → Work → Work

-- The handler that runs when a signal arrives, if it is not blocked; a signal that is waits, and
-- what becomes of it later is left out.
abbrev pub deliver : ℕ → Signals → Option ℕ
deliver n s = if s.mask n then none else some (s.action n)

unfoldable pub run_work : Work → Signals → Signals × List (Option ℕ)
run_work ends s = (s, [])
run_work (arrives n w) s = let (last, hs) = run_work w s in (last, deliver n s ∷ hs)
run_work (within c inner w) s =
    let (s', hs) = run_work inner (open_scope c s) in
    let (last, rest) = run_work w (close_scope c s s') in (last, hs ++ rest)

-- `InterprocessScopedLock`, around some work; `callback` is `InterruptHandler`.
unfoldable pub interprocess_scoped_lock : ℕ → Work → Work
interprocess_scoped_lock callback inner =
    within (signal_lock (sigint ∷ [])) (within (signal sigint callback) inner ends) ends

abbrev pub arrivals : List ℕ → Work
arrivals [] = ends
arrivals (n ∷ ns) = arrives n (arrivals ns)
