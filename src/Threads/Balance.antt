-- ===== src/Threads/Balance.antt =====
-- No mutex of src/memhook/thread.h stays locked behind the `MutexLock` objects, and none is
-- unlocked that they do not hold.
use mathlib.Core.Option.{some-injective}
use mathlib.Core.Path.{subst}
use memhook.Prelude.{
  ℕ, zero, suc, ◌≡◌, refl, ap, sym, ◌∙◌, Bool, true, false, Option, none, some, List, [], ◌∷◌, ◌++◌,
  ◌>>=◌, arith, Option-cases, inl, inr,
}
use memhook.Threads.{
  MutexLock, Locking, mutex_unlock, lock_at, set_lock, unlock_one, no_mutex, on_lock, take_over,
  move_assign, forget, destroy_lock, LockCall, makes, makes_empty, moves_from, assigns, locks_at,
  unlocks_at, swaps, destroys, lock_call, lock_calls, unlocked,
}
use memhook.Threads.Ownership.{
  owned-append, owned-set_lock, IsBalanced, lock_one-Balances, unlock_one-Balances,
  on_lock-IsBalanced, construct-IsBalanced, move_construct-IsBalanced, take_over-IsBalanced,
  swap_locks-IsBalanced, idle_holds,
}

lock_at-set_lock_same :
    (i : ℕ) (ls : List (Option MutexLock)) (l k : MutexLock)
    → lock_at i ls ≡ some l
    → lock_at i (set_lock i (some k) ls) ≡ some k
unfolding lock_at set_lock
lock_at-set_lock_same i [] l k e = cc
lock_at-set_lock_same zero (y ∷ ls) l k e = refl
lock_at-set_lock_same (suc i) (y ∷ ls) l k e = lock_at-set_lock_same i ls l k e

unlock_one_idle :
    (o : Option ℕ) (b : Bool) (depth : ℕ → ℕ) (x : MutexLock × (ℕ → ℕ))
    → unlock_one (record { mutex = o; is_locked = b }) depth ≡ some x
    → x.0.is_locked ≡ false
unfolding unlock_one
unlock_one_idle o false depth x e =
    ap (λ (y : MutexLock × (ℕ → ℕ)). y.0.is_locked)
      (some-injective x (record { mutex = o; is_locked = false }, depth) (sym e))
unlock_one_idle none true depth x e = absurd (ground arith)
unlock_one_idle (some k) true depth x e =
    ap (λ (y : MutexLock × (ℕ → ℕ)). y.0.is_locked)
      (some-injective x (record { mutex = some k; is_locked = false }, mutex_unlock k depth)
        (sym e))

unlock_idle :
    (i : ℕ) (s s' : Locking)
    → on_lock unlock_one i s ≡ some s'
    → (l : MutexLock) × (lock_at i s'.locks ≡ some l) × (l.is_locked ≡ false)
unfolding on_lock
unlock_idle i s s' e = elim (Option-cases (lock_at i s.locks)) [
  | inl absent ↦ absurd (ground arith)
  | inr (l, at) ↦ elim (Option-cases (unlock_one l s.depth)) [
    | inl stuck ↦ absurd (ground arith)
    | inr ((l', depth), done) ↦
        let end : Locking = record { depth = depth; locks = set_lock i (some l') s.locks } in
        let ended : on_lock unlock_one i s ≡ some end = rw (at, done) refl in
        let same = some-injective end s' (sym ended ∙ e) in
        (
          l',
          ap (λ t. lock_at i t.locks) (sym same) ∙ lock_at-set_lock_same i s.locks l l' at,
          unlock_one_idle l.mutex l.is_locked s.depth (l', depth) done,
        )
  ]
]

-- An object that is unlocked first, and then something else happens to it.
behind_unlock :
    (i : ℕ) (f : Locking → Option Locking) (s s' : Locking)
    → ((t : Locking) (l : MutexLock)
        → lock_at i t.locks ≡ some l
        → l.is_locked ≡ false
        → f t ≡ some s'
        → IsBalanced t
        → IsBalanced s')
    → (on_lock unlock_one i s >>= f) ≡ some s'
    → IsBalanced s
    → IsBalanced s'
behind_unlock i f s s' next e b = elim (Option-cases (on_lock unlock_one i s)) [
  | inl stuck ↦ absurd (ground arith)
  | inr (t, done) ↦
      let (l, at, idle) = unlock_idle i s t done in
      next t l at idle (ground arith)
        (on_lock-IsBalanced unlock_one i s t unlock_one-Balances done b)
]

forget-IsBalanced :
    (i : ℕ) (s s' : Locking) (l : MutexLock)
    → lock_at i s.locks ≡ some l
    → l.is_locked ≡ false
    → forget i s ≡ some s'
    → IsBalanced s
    → IsBalanced s'
unfolding forget
forget-IsBalanced i s s' l at idle e b =
    let end : Locking = record { depth = s.depth; locks = set_lock i none s.locks } in
    subst IsBalanced (some-injective end s' e)
      (λ m. omega (arith, b m, idle_holds m l idle, owned-set_lock m i s.locks l none at))

lock_call-IsBalanced :
    (c : LockCall) (s s' : Locking) → lock_call c s ≡ some s' → IsBalanced s → IsBalanced s'
unfolding lock_call move_assign destroy_lock
lock_call-IsBalanced (makes m) s s' e b = construct-IsBalanced m s s' e b
lock_call-IsBalanced makes_empty s s' e b =
    let end : Locking = record s { locks = s.locks ++ some no_mutex ∷ [] } in
    subst IsBalanced (some-injective end s' e)
      (λ m. omega (arith, b m, owned-append m s.locks (some no_mutex)))
lock_call-IsBalanced (moves_from j) s s' e b = move_construct-IsBalanced j s s' e b
lock_call-IsBalanced (assigns i j) s s' e b =
    behind_unlock i (take_over i j) s s' (λ t l. take_over-IsBalanced i j t s' l) e b
lock_call-IsBalanced (locks_at i) s s' e b = on_lock-IsBalanced _ i s s' lock_one-Balances e b
lock_call-IsBalanced (unlocks_at i) s s' e b = on_lock-IsBalanced _ i s s' unlock_one-Balances e b
lock_call-IsBalanced (swaps i j) s s' e b = swap_locks-IsBalanced i j s s' e b
lock_call-IsBalanced (destroys i) s s' e b =
    behind_unlock i (forget i) s s' (λ t l. forget-IsBalanced i t s' l) e b

calls-IsBalanced :
    (cs : List LockCall) (s s' : Locking) → lock_calls cs s ≡ some s' → IsBalanced s → IsBalanced s'
unfolding lock_calls
calls-IsBalanced [] s s' e b = subst IsBalanced (some-injective s s' e) b
calls-IsBalanced (c ∷ cs) s s' e b = elim (Option-cases (lock_call c s)) [
  | inl stuck ↦ absurd (ground arith)
  | inr (t, done) ↦ calls-IsBalanced cs t s' (ground arith) (lock_call-IsBalanced c s t done b)
]

-- After any calls on `MutexLock` objects of one thread, moves, assignments, swaps and destructions
-- included, that dereference no null pointer, each mutex is locked as often as there are objects
-- that hold it: when the last of these is gone or unlocked, so is the mutex.
pub lock_calls-IsBalanced :
    (cs : List LockCall) (s : Locking) → lock_calls cs unlocked ≡ some s → IsBalanced s
lock_calls-IsBalanced cs s e = calls-IsBalanced cs unlocked s e (λ m. refl)
