-- ===== src/SpinLock/Exclusion.antt =====
-- Mutual exclusion and progress of the spin lock of src/memhook/spin_lock.cpp.
use mathlib.Core.Path.{subst}
use memhook.Prelude.{
  ℕ, zero, suc, ◌≡◌, refl, ap, sym, ◌∙◌, ◌≤◌, ◌==◌, ==_iff, Bool, true, false, List, [], ◌∷◌,
  if◌then◌else◌, ◌⊎◌, inl, inr, arith, Bool-cases,
}
use memhook.SpinLock.{
  LockValue, free, held, sleeper, Pc, outside, spins, spin_exchanges, marks, retries, delays,
  inside, wakes, spin, act, Threads, start, run,
}

abbrev pub is_free : LockValue → Bool
is_free free = true
is_free _ = false

abbrev pub is_inside : Pc → Bool
is_inside inside = true
is_inside _ = false

-- What a step does to the lock: a thread gives it up, takes it, or leaves it alone.
abbrev Change : LockValue → Pc → LockValue × Pc → Type 0
Change w p (w', p') =
    ((is_inside p ≡ true) × (is_inside p' ≡ false) × (is_free w' ≡ true))
    ⊎ (((is_inside p ≡ false) × (is_inside p' ≡ true) × (is_free w ≡ true) × (is_free w' ≡ false))
        ⊎ ((is_inside p ≡ false) × (is_inside p' ≡ false) × (is_free w' ≡ is_free w)))

spin_outside : (c : ℕ) (w : LockValue) → is_inside (spin c w) ≡ false
spin_outside c free = refl
spin_outside c held = ground arith
spin_outside c sleeper = ground arith

act-Change : (count : ℕ) (w : LockValue) (p : Pc) → Change w p (act count w p)
unfolding act
act-Change count free outside = inr (inl (refl, refl, refl, refl))
act-Change count held outside = inr (inr (refl, refl, refl))
act-Change count sleeper outside = inr (inr (refl, refl, refl))
act-Change count w (spins c) = inr (inr (refl, spin_outside c w, refl))
act-Change count free spin_exchanges = inr (inl (refl, refl, refl, refl))
act-Change count held spin_exchanges = inr (inr (refl, refl, refl))
act-Change count sleeper spin_exchanges = inr (inr (refl, refl, refl))
act-Change count free marks = inr (inr (refl, refl, refl))
act-Change count held marks = inr (inr (refl, refl, refl))
act-Change count sleeper marks = inr (inr (refl, refl, refl))
act-Change count free retries = inr (inl (refl, refl, refl, refl))
act-Change count held retries = inr (inr (refl, refl, refl))
act-Change count sleeper retries = inr (inr (refl, refl, refl))
act-Change count w delays = inr (inr (refl, refl, refl))
act-Change count free inside = inl (refl, refl, refl)
act-Change count held inside = inl (refl, refl, refl)
act-Change count sleeper inside = inl (refl, refl, refl)
act-Change count w wakes = inr (inr (refl, refl, refl))

-- The lock word is free and no thread is inside, or it is not and exactly one is.
abbrev pub IsExclusive : Threads → Type 0
IsExclusive s =
    ((is_free s.lock_value ≡ true) × ((j : ℕ) → is_inside (s.pc j) ≡ false))
    ⊎ ((is_free s.lock_value ≡ false)
        × (i : ℕ) × (is_inside (s.pc i) ≡ true)
        × ((j : ℕ) → is_inside (s.pc j) ≡ true → j ≡ i))

step-IsExclusive :
    (s : Threads) (i : ℕ) (w : LockValue) (p : Pc)
    → Change s.lock_value (s.pc i) (w, p)
    → IsExclusive s
    → IsExclusive (record { lock_value = w; pc = λ j. if i == j then p else s.pc j })
step-IsExclusive s i w p (inl (was, _, _)) (inl (unlocked, out)) = absurd (ground (arith, out i))
step-IsExclusive s i w p (inr (inl (_, now, _, taken))) (inl (unlocked, out)) =
    inr (taken, i, ground arith, λ j h. ground (arith, out j, ==_iff i j))
step-IsExclusive s i w p (inr (inr (_, not_now, same))) (inl (unlocked, out)) =
    inl (same ∙ unlocked, λ j. ground (arith, out j))
step-IsExclusive s i w p (inl (was, not_now, freed)) (inr (locked, o, owns, only)) =
    inl (freed, λ j. ground (arith, only i was, only j, ==_iff i j))
step-IsExclusive s i w p (inr (inl (_, _, unlocked, _))) (inr (locked, o, owns, only)) =
    absurd (ground arith)
step-IsExclusive s i w p (inr (inr (was_not, not_now, same))) (inr (locked, o, owns, only)) =
    let other : i == o ≡ false = elim (Bool-cases (i == o)) [
      | inl e ↦
          let at : is_inside (s.pc i) ≡ true =
            subst (λ k. is_inside (s.pc k) ≡ true) (sym ((==_iff i o).0 e)) owns in
          absurd (ground arith)
      | inr e ↦ e
    ] in
    inr (same ∙ locked, o, rw other owns, λ j h. ground (arith, only j))

run-IsExclusive :
    (count : ℕ) (is : List ℕ) (s : Threads) → IsExclusive s → IsExclusive (run count is s)
unfolding run
run-IsExclusive count [] s h = h
run-IsExclusive count (i ∷ is) s h =
    let (w, p) = act count s.lock_value (s.pc i) in
    run-IsExclusive count is (record { lock_value = w; pc = λ j. if i == j then p else s.pc j })
      (step-IsExclusive s i w p (act-Change count s.lock_value (s.pc i)) h)

-- Whatever the order in which threads take their steps, from the free lock on no two of them hold
-- the lock at the same time, and while one holds it the lock word is not free.
pub run_exclusive :
    (count : ℕ) (is : List ℕ) (i j : ℕ)
    → is_inside ((run count is start).pc i) ≡ true
    → is_inside ((run count is start).pc j) ≡ true
    → (i ≡ j) × (is_free (run count is start).lock_value ≡ false)
run_exclusive count is i j in_i in_j = both (run-IsExclusive count is start (inl (refl, λ k. refl)))
  where
    both :
        IsExclusive (run count is start)
        → (i ≡ j) × (is_free (run count is start).lock_value ≡ false)
    both (inl (unlocked, out)) = absurd (ground (arith, out i))
    both (inr (locked, o, owns, only)) = (only i in_i ∙ sym (only j in_j), locked)

-- A thread that takes `n` steps while no other takes any.
abbrev pub alone : ℕ → ℕ → List ℕ
alone zero i = []
alone (suc n) i = i ∷ alone n i

abbrev act_times : ℕ → ℕ → LockValue → Pc → Pc
act_times count zero w p = p
act_times count (suc n) w p = act_times count n (act count w p).0 (act count w p).1

run-alone :
    (count n i : ℕ) (s : Threads)
    → (run count (alone n i) s).pc i ≡ act_times count n s.lock_value (s.pc i)
unfolding run
run-alone count zero i s = refl
run-alone count (suc n) i s =
    let (w, p) = act count s.lock_value (s.pc i) in
    run-alone count n i (record { lock_value = w; pc = λ j. if i == j then p else s.pc j })
    ∙ ap (act_times count n w) (own i p (s.pc i))
  where
    own : (i : ℕ) (p q : Pc) → (if i == i then p else q) ≡ p
    own i p q = ground arith

taken_alone :
    (count : ℕ) (p : Pc)
    → is_inside p ≡ false
    → (n : ℕ) × (n ≤ 3) × (is_inside (act_times count n free p) ≡ true)
unfolding act
taken_alone count outside h = (1, omega arith, refl)
taken_alone count (spins c) h = (2, omega arith, refl)
taken_alone count spin_exchanges h = (1, omega arith, refl)
taken_alone count marks h = (2, omega arith, refl)
taken_alone count retries h = (1, omega arith, refl)
taken_alone count delays h = (3, omega arith, refl)
taken_alone count inside h = absurd (ground arith)
taken_alone count wakes h = (2, omega arith, refl)

-- From wherever it stands in `Lock` or outside of it, a thread that runs alone has a free lock
-- after three steps at most, whatever the spin count.
pub run_progress :
    (count i : ℕ) (s : Threads)
    → s.lock_value ≡ free
    → is_inside (s.pc i) ≡ false
    → (n : ℕ) × (n ≤ 3) × (is_inside ((run count (alone n i) s).pc i) ≡ true)
run_progress count i s unlocked out =
    let (n, few, taken) = taken_alone count (s.pc i) out in
    (
      n,
      few,
      ap is_inside (run-alone count n i s ∙ ap (λ w. act_times count n w (s.pc i)) unlocked)
          ∙ taken,
    )
