-- ===== src/Threads/Ownership.antt =====
-- Who holds the mutexes of src/memhook/thread.h.
use mathlib.Core.Option.{some-injective}
use mathlib.Core.Path.{subst}
use memhook.Prelude.{
  ℕ, zero, suc, ◌≡◌, refl, ap, sym, ◌∙◌, ◌+◌, ◌==◌, Bool, true, false, Option, none, some, List, [],
  ◌∷◌, ◌++◌, if◌then◌else◌, arith, Option-cases, inl, inr,
}
use memhook.Threads.{
  MutexLock, Locking, mutex_lock, mutex_unlock, lock_at, set_lock, lock_one, unlock_one, no_mutex,
  on_lock, construct, move_construct, take_over, swap_locks,
}

-- One if the object holds the mutex.
abbrev pub holds : ℕ → Option MutexLock → ℕ
holds m none = 0
holds m (some l) = elim l.mutex [
  | none ↦ 0
  | some k ↦ if l.is_locked then (if m == k then 1 else 0) else 0
]

-- How many of the objects hold the mutex.
abbrev pub owned : ℕ → List (Option MutexLock) → ℕ
owned m [] = 0
owned m (l ∷ ls) = holds m l + owned m ls

pub owned-append :
    (m : ℕ) (ls : List (Option MutexLock)) (x : Option MutexLock)
    → owned m (ls ++ x ∷ []) ≡ owned m ls + holds m x
owned-append m [] x = omega arith
owned-append m (l ∷ ls) x = omega (arith, owned-append m ls x)

pub owned-set_lock :
    (m i : ℕ) (ls : List (Option MutexLock)) (l : MutexLock) (x : Option MutexLock)
    → lock_at i ls ≡ some l
    → owned m (set_lock i x ls) + holds m (some l) ≡ owned m ls + holds m x
unfolding lock_at set_lock
owned-set_lock m i [] l x e = cc
owned-set_lock m zero (y ∷ ls) l x e = omega (arith, ap (holds m) e)
owned-set_lock m (suc i) (y ∷ ls) l x e = omega (arith, owned-set_lock m i ls l x e)

lock_at-set_lock :
    (i j : ℕ) (ls : List (Option MutexLock)) (l k : MutexLock)
    → lock_at i ls ≡ some l
    → lock_at j ls ≡ some k
    → (lock_at j (set_lock i (some k) ls) ≡ some k)
unfolding lock_at set_lock
lock_at-set_lock i j [] l k e f = cc
lock_at-set_lock zero zero (y ∷ ls) l k e f = refl
lock_at-set_lock zero (suc j) (y ∷ ls) l k e f = f
lock_at-set_lock (suc i) zero (y ∷ ls) l k e f = f
lock_at-set_lock (suc i) (suc j) (y ∷ ls) l k e f = lock_at-set_lock i j ls l k e f

-- Each mutex is locked as often as there are objects that hold it.
abbrev pub IsBalanced : Locking → Type 0
IsBalanced s = (m : ℕ) → s.depth m ≡ owned m s.locks

-- A call on one lock changes what it holds as it changes the mutexes.
abbrev pub Balances : (MutexLock → (ℕ → ℕ) → Option (MutexLock × (ℕ → ℕ))) → Type 0
Balances f =
    (l l' : MutexLock) (depth depth' : ℕ → ℕ) (others m : ℕ)
    → f l depth ≡ some (l', depth')
    → depth m ≡ others + holds m (some l)
    → depth' m ≡ others + holds m (some l')

-- The balance for the outcome of a call that ends.
Balances-some :
    (others m : ℕ) (x : MutexLock × (ℕ → ℕ)) (l' : MutexLock) (depth' : ℕ → ℕ)
    → some x ≡ some (l', depth')
    → x.1 m ≡ others + holds m (some x.0)
    → depth' m ≡ others + holds m (some l')
Balances-some others m x l' depth' e h =
    subst (λ (y : MutexLock × (ℕ → ℕ)). y.1 m ≡ others + holds m (some y.0))
      (some-injective x (l', depth') e) h

lock_fields :
    (o : Option ℕ) (b : Bool) (l' : MutexLock) (depth depth' : ℕ → ℕ) (others m : ℕ)
    → let l : MutexLock = record { mutex = o; is_locked = b } in
      lock_one l depth ≡ some (l', depth')
      → depth m ≡ others + holds m (some l)
      → depth' m ≡ others + holds m (some l')
unfolding lock_one mutex_lock
lock_fields o true l' depth depth' others m e h =
    Balances-some others m (record { mutex = o; is_locked = true }, depth) l' depth' e h
lock_fields none false l' depth depth' others m e h = absurd (ground arith)
lock_fields (some k) false l' depth depth' others m e h =
    Balances-some others m (record { mutex = some k; is_locked = true }, mutex_lock k depth) l'
      depth' e (ground arith)

pub lock_one-Balances : Balances lock_one
lock_one-Balances l = lock_fields l.mutex l.is_locked

unlock_fields :
    (o : Option ℕ) (b : Bool) (l' : MutexLock) (depth depth' : ℕ → ℕ) (others m : ℕ)
    → let l : MutexLock = record { mutex = o; is_locked = b } in
      unlock_one l depth ≡ some (l', depth')
      → depth m ≡ others + holds m (some l)
      → depth' m ≡ others + holds m (some l')
unfolding unlock_one mutex_unlock
unlock_fields o false l' depth depth' others m e h =
    Balances-some others m (record { mutex = o; is_locked = false }, depth) l' depth' e h
unlock_fields none true l' depth depth' others m e h = absurd (ground arith)
unlock_fields (some k) true l' depth depth' others m e h =
    Balances-some others m (record { mutex = some k; is_locked = false }, mutex_unlock k depth) l'
      depth' e (ground arith)

pub unlock_one-Balances : Balances unlock_one
unlock_one-Balances l = unlock_fields l.mutex l.is_locked

pub on_lock-IsBalanced :
    (f : MutexLock → (ℕ → ℕ) → Option (MutexLock × (ℕ → ℕ))) (i : ℕ) (s s' : Locking)
    → Balances f
    → on_lock f i s ≡ some s'
    → IsBalanced s
    → IsBalanced s'
unfolding on_lock
on_lock-IsBalanced f i s s' balances e b = elim (Option-cases (lock_at i s.locks)) [
  | inl absent ↦ absurd (ground arith)
  | inr (l, at) ↦ elim (Option-cases (f l s.depth)) [
    | inl stuck ↦ absurd (ground arith)
    | inr ((l', depth), done) ↦
        let end : Locking = record { depth = depth; locks = set_lock i (some l') s.locks } in
        let ended : on_lock f i s ≡ some end = rw (at, done) refl in
        subst IsBalanced (some-injective end s' (sym ended ∙ e)) (λ m.
          let bare = owned-set_lock m i s.locks l none at in
          let set = owned-set_lock m i s.locks l (some l') at in
          let new =
            balances l l' s.depth depth (owned m (set_lock i none s.locks)) m done
              (omega (arith, bare, b m)) in
          omega (arith, bare, set, new))
  ]
]

pub construct-IsBalanced :
    (k : ℕ) (s s' : Locking) → construct k s ≡ some s' → IsBalanced s → IsBalanced s'
unfolding construct lock_one
construct-IsBalanced k s s' e b =
    let l : MutexLock = record { mutex = some k; is_locked = true } in
    let end : Locking = record { depth = mutex_lock k s.depth; locks = s.locks ++ some l ∷ [] } in
    subst IsBalanced (some-injective end s' e) (λ m.
      lock_one-Balances (record { mutex = some k; is_locked = false }) l s.depth
        (mutex_lock k s.depth) (owned m s.locks) m refl (omega (arith, b m))
      ∙ sym (owned-append m s.locks (some l)))

pub move_construct-IsBalanced :
    (j : ℕ) (s s' : Locking) → move_construct j s ≡ some s' → IsBalanced s → IsBalanced s'
unfolding move_construct
move_construct-IsBalanced j s s' e b = elim (Option-cases (lock_at j s.locks)) [
  | inl absent ↦ absurd (ground arith)
  | inr (l, at) ↦
      let rest = set_lock j (some no_mutex) s.locks in
      let end : Locking = record { depth = s.depth; locks = rest ++ some l ∷ [] } in
      let ended : move_construct j s ≡ some end = rw at refl in
      subst IsBalanced (some-injective end s' (sym ended ∙ e)) (λ m.
        omega (
          arith,
          b m,
          owned-set_lock m j s.locks l (some no_mutex) at,
          owned-append m rest (some l),
        ))
]

pub idle_holds : (m : ℕ) (l : MutexLock) → l.is_locked ≡ false → holds m (some l) ≡ 0
idle_holds m l idle = elim (Option-cases l.mutex) [
  | inl empty ↦ rw empty refl
  | inr (k, there) ↦ rw (there, idle) refl
]

-- Where the object that is overwritten holds nothing.
pub take_over-IsBalanced :
    (i j : ℕ) (s s' : Locking) (old : MutexLock)
    → lock_at i s.locks ≡ some old
    → old.is_locked ≡ false
    → take_over i j s ≡ some s'
    → IsBalanced s
    → IsBalanced s'
unfolding take_over
take_over-IsBalanced i j s s' old at_i idle e b = elim (Option-cases (lock_at j s.locks)) [
  | inl absent ↦ absurd (ground arith)
  | inr (l, at_j) ↦
      let once = set_lock i (some l) s.locks in
      let end : Locking = record { depth = s.depth; locks = set_lock j (some no_mutex) once } in
      let ended : take_over i j s ≡ some end = rw at_j refl in
      let again = lock_at-set_lock i j s.locks old l at_i at_j in
      subst IsBalanced (some-injective end s' (sym ended ∙ e)) (λ m. omega (
        arith,
        b m,
        idle_holds m old idle,
        owned-set_lock m i s.locks old (some l) at_i,
        owned-set_lock m j once l (some no_mutex) again,
      ))
]

pub swap_locks-IsBalanced :
    (i j : ℕ) (s s' : Locking) → swap_locks i j s ≡ some s' → IsBalanced s → IsBalanced s'
unfolding swap_locks
swap_locks-IsBalanced i j s s' e b = elim (Option-cases (lock_at i s.locks)) [
  | inl absent ↦ absurd (ground arith)
  | inr (l, at_i) ↦ elim (Option-cases (lock_at j s.locks)) [
    | inl absent ↦ absurd (ground arith)
    | inr (k, at_j) ↦
        let once = set_lock i (some k) s.locks in
        let end : Locking = record { depth = s.depth; locks = set_lock j (some l) once } in
        let ended : swap_locks i j s ≡ some end = rw (at_i, at_j) refl in
        let again = lock_at-set_lock i j s.locks l k at_i at_j in
        subst IsBalanced (some-injective end s' (sym ended ∙ e)) (λ m. omega (
          arith,
          b m,
          owned-set_lock m i s.locks l (some k) at_i,
          owned-set_lock m j once k (some l) again,
        ))
  ]
]
