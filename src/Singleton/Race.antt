-- ===== src/Singleton/Race.antt =====
-- `GetInstance` of src/memhook/singleton.h against `Destroy`: what becomes of a pointer that is
-- loaded and not yet counted when the last reference goes.
use memhook.Prelude.{ℕ, zero, suc, ◌≡◌, refl, ap, ◌∙◌, true, none, some, List, [], ◌∷◌, arith}
use memhook.Atomics.{update}
use memhook.Atomics.AsmX86.{fetch_and_add, add_and_fetch}
use memhook.Singleton.{
  Pc, idle, loaded, unlinking, destroying, Shared, add_ref, release, act, destroy, steps, destroys,
  System, pc_at, set_pc, event, run,
}
use memhook.Singleton.Counting.{refs}
use memhook.Singleton.Moves.{IsSafe}

pc_at-set_pc :
    (j : ℕ) (c d : Pc) (cs : List Pc) → pc_at j cs ≡ some d → pc_at j (set_pc j c cs) ≡ some c
unfolding pc_at set_pc
pc_at-set_pc j c d [] at = absurd (ground arith)
pc_at-set_pc zero c d (e ∷ cs) at = refl
pc_at-set_pc (suc j) c d (e ∷ cs) at = pc_at-set_pc j c d cs at

pc_at-set_pc_other :
    (i j p : ℕ) (c : Pc) (cs : List Pc)
    → pc_at i cs ≡ some (loaded p)
    → pc_at j cs ≡ some idle
    → pc_at i (set_pc j c cs) ≡ some (loaded p)
unfolding pc_at set_pc
pc_at-set_pc_other i j p c [] at_i at_j = absurd (ground arith)
pc_at-set_pc_other zero zero p c (e ∷ cs) at_i at_j = absurd (ground arith)
pc_at-set_pc_other zero (suc j) p c (e ∷ cs) at_i at_j = at_i
pc_at-set_pc_other (suc i) zero p c (e ∷ cs) at_i at_j = at_i
pc_at-set_pc_other (suc i) (suc j) p c (e ∷ cs) at_i at_j = pc_at-set_pc_other i j p c cs at_i at_j

set_pc-set_pc : (j : ℕ) (c d : Pc) (cs : List Pc) → set_pc j c (set_pc j d cs) ≡ set_pc j c cs
unfolding set_pc
set_pc-set_pc j c d [] = refl
set_pc-set_pc zero c d (e ∷ cs) = refl
set_pc-set_pc (suc j) c d (e ∷ cs) = ap (◌∷◌ e) (set_pc-set_pc j c d cs)

-- The release of the last reference deletes the object.
deleted_last : (p : ℕ) (s : Shared) → s.ref_counter p ≡ 1 → (add_ref p (release p s)).fault ≡ true
unfolding release add_ref add_and_fetch fetch_and_add update
deleted_last p s one = rw one (ground arith)

-- When nothing but `instance_` refers to an object, and one thread has loaded it in `GetInstance`
-- and not yet counted, then `Destroy` in another thread deletes it, and the first one counts its
-- reference in an object that is deleted.
pub get_instance_races :
    (s : System) (i j p : ℕ)
    → IsSafe s
    → s.shared.instance_ ≡ some p
    → refs p s.threads ≡ 0
    → pc_at i s.threads ≡ some (loaded p)
    → pc_at j s.threads ≡ some idle
    → (run (destroys j ∷ steps j ∷ steps j ∷ steps i ∷ []) s).shared.fault ≡ true
unfolding run event destroy act
get_instance_races s i j p h inst unheld at_i at_j =
    let one : s.shared.ref_counter p ≡ 1 = h.counts.counted p ∙ (rw inst (ground arith)) in
    let last = deleted_last p (record s.shared { instance_ = none }) one in
    rw at_j (
      rw inst (
        rw (pc_at-set_pc j (unlinking (some p)) idle s.threads at_j) (
          rw (set_pc-set_pc j (destroying p) (unlinking (some p)) s.threads) (
            rw (pc_at-set_pc j (destroying p) idle s.threads at_j) (
              rw (set_pc-set_pc j idle (destroying p) s.threads)
                (rw (pc_at-set_pc_other i j p idle s.threads at_i at_j) last))))))
