-- ===== src/Threads.antt =====
-- `Mutex` and `MutexLock` of src/memhook/thread.h and thread.cpp. A recursive mutex of the
-- thread library is the number of times that it is locked; the calls are those of one thread.
pub mod Ownership
pub mod Balance
pub mod Sleep
pub mod Awaited
pub mod Interrupts
pub mod Times
use memhook.Prelude.{
  ℕ, zero, suc, ◌+◌, ◌-◌, ◌==◌, Bool, true, false, Option, none, some, List, [], ◌∷◌, ◌++◌, ◌>>=◌,
  if◌then◌else◌,
}

-- `MutexLock`
pub record MutexLock : Type 0 where
  pub mutex : Option ℕ
  pub is_locked : Bool

-- How often each mutex is locked, and the `MutexLock` objects in the order of their construction;
-- one that is destroyed stays as an empty place.
pub record Locking : Type 0 where
  pub depth : ℕ → ℕ
  pub locks : List (Option MutexLock)

-- `Mutex::Lock`
unfoldable pub mutex_lock : ℕ → (ℕ → ℕ) → ℕ → ℕ
mutex_lock m depth k = if k == m then depth k + 1 else depth k

-- `Mutex::Unlock`; a mutex that is not locked is not unlocked.
unfoldable pub mutex_unlock : ℕ → (ℕ → ℕ) → ℕ → ℕ
mutex_unlock m depth k = if k == m then depth k - 1 else depth k

-- The object at an index.
unfoldable pub lock_at : ℕ → List (Option MutexLock) → Option MutexLock
lock_at i [] = none
lock_at zero (l ∷ ls) = l
lock_at (suc i) (l ∷ ls) = lock_at i ls

unfoldable pub set_lock : ℕ → Option MutexLock → List (Option MutexLock) → List (Option MutexLock)
set_lock i x [] = []
set_lock zero x (l ∷ ls) = x ∷ ls
set_lock (suc i) x (l ∷ ls) = l ∷ set_lock i x ls

-- `MutexLock::Lock`: what becomes of the lock and of the mutexes. Without a mutex it dereferences
-- the null pointer.
unfoldable pub lock_one : MutexLock → (ℕ → ℕ) → Option (MutexLock × (ℕ → ℕ))
lock_one l depth = if l.is_locked then some (l, depth) else (elim l.mutex [
  | none ↦ none
  | some m ↦ some (record { mutex = some m; is_locked = true }, mutex_lock m depth)
])

-- `MutexLock::Unlock`
unfoldable pub unlock_one : MutexLock → (ℕ → ℕ) → Option (MutexLock × (ℕ → ℕ))
unlock_one l depth =
    if l.is_locked
    then (elim l.mutex [
      | none ↦ none
      | some m ↦ some (record { mutex = some m; is_locked = false }, mutex_unlock m depth)
    ])
    else some (l, depth)

-- `MutexLock()`
abbrev pub no_mutex : MutexLock
no_mutex = record { mutex = none; is_locked = false }

-- A call of `Lock` or `Unlock` on the object at an index.
unfoldable pub on_lock :
    (MutexLock → (ℕ → ℕ) → Option (MutexLock × (ℕ → ℕ))) → ℕ → Locking → Option Locking
on_lock f i s = do
  l ← lock_at i s.locks
  (l', depth) ← f l s.depth
  some (record { depth = depth; locks = set_lock i (some l') s.locks })

-- `MutexLock(Mutex &)`
unfoldable pub construct : ℕ → Locking → Option Locking
construct m s = do
  (l, depth) ← lock_one (record { mutex = some m; is_locked = false }) s.depth
  some (record { depth = depth; locks = s.locks ++ some l ∷ [] })

-- `MutexLock(BOOST_RV_REF(MutexLock))`
unfoldable pub move_construct : ℕ → Locking → Option Locking
move_construct j s = do
  l ← lock_at j s.locks
  some (record { depth = s.depth; locks = set_lock j (some no_mutex) s.locks ++ some l ∷ [] })

-- The assignments of `operator=`, behind its call of `Unlock`.
unfoldable pub take_over : ℕ → ℕ → Locking → Option Locking
take_over i j s = do
  l ← lock_at j s.locks
  some
      (record { depth = s.depth; locks = set_lock j (some no_mutex) (set_lock i (some l) s.locks) })

-- `operator=(BOOST_RV_REF(MutexLock))`
unfoldable pub move_assign : ℕ → ℕ → Locking → Option Locking
move_assign i j s = on_lock unlock_one i s >>= take_over i j

-- `swap`
unfoldable pub swap_locks : ℕ → ℕ → Locking → Option Locking
swap_locks i j s = do
  l ← lock_at i s.locks
  k ← lock_at j s.locks
  some (record { depth = s.depth; locks = set_lock j (some l) (set_lock i (some k) s.locks) })

unfoldable pub forget : ℕ → Locking → Option Locking
forget i s = some (record { depth = s.depth; locks = set_lock i none s.locks })

-- `~MutexLock()`
unfoldable pub destroy_lock : ℕ → Locking → Option Locking
destroy_lock i s = on_lock unlock_one i s >>= forget i

-- The calls on `MutexLock` objects.
pub data LockCall : Type 0 where
  makes : ℕ → LockCall
  makes_empty : LockCall
  moves_from : ℕ → LockCall
  assigns : ℕ → ℕ → LockCall
  locks_at : ℕ → LockCall
  unlocks_at : ℕ → LockCall
  swaps : ℕ → ℕ → LockCall
  destroys : ℕ → LockCall

unfoldable pub lock_call : LockCall → Locking → Option Locking
lock_call (makes m) s = construct m s
lock_call makes_empty s = some (record s { locks = s.locks ++ some no_mutex ∷ [] })
lock_call (moves_from j) s = move_construct j s
lock_call (assigns i j) s = move_assign i j s
lock_call (locks_at i) s = on_lock lock_one i s
lock_call (unlocks_at i) s = on_lock unlock_one i s
lock_call (swaps i j) s = swap_locks i j s
lock_call (destroys i) s = destroy_lock i s

-- The calls one after the other, unless one dereferences a null pointer or an object that is gone.
unfoldable pub lock_calls : List LockCall → Locking → Option Locking
lock_calls [] s = some s
lock_calls (c ∷ cs) s = lock_call c s >>= lock_calls cs

abbrev pub unlocked : Locking
unlocked = record { depth = λ m. 0; locks = [] }
