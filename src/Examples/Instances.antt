-- ===== src/Examples/Instances.antt =====
-- Two threads that share one instance.
use memhook.Prelude.{
  ℕ, ◌≡◌, refl, ◌==◌, ◌+◌, false, true, ◌&&◌, ltb, if◌then◌else◌, List, [], ◌∷◌, arith,
}
use memhook.Atomics.{update}
use memhook.Atomics.AsmX86.{fetch_and_add, add_and_fetch}
use memhook.Singleton.{
  Event, steps, initializes, destroys, event, act, initialize, destroy, add_ref, release, pc_at,
  set_pc, run, start,
}
use memhook.Singleton.Counting.{refs, own}
use memhook.Singleton.Lifetime.{run_destroys_once, run-IsSafe, start-IsSafe}
use memhook.Singleton.Moves.{IsSafe}
use memhook.Singleton.Race.{get_instance_races}

-- Thread 0 makes the instance; thread 1 gets it, and gives it up when thread 0 has destroyed it.
abbrev events : List Event
events =
    initializes 0
    ∷ steps 0
    ∷ steps 0
    ∷ steps 1
    ∷ steps 1
    ∷ steps 1
    ∷ destroys 0
    ∷ steps 0
    ∷ steps 0
    ∷ steps 1
    ∷ []

run_destroys_once_example :
    ((run events (start 2)).shared.fault ≡ false)
    × ((p : ℕ)
        → (run events (start 2)).shared.deleted p ≡ (
            if ltb p (run events (start 2)).shared.fresh
              && (refs p (run events (start 2)).threads
                    + own p (run events (start 2)).shared.instance_
                  == 0)
            then 1
            else 0))
unfolding run event act initialize destroy add_ref release pc_at set_pc update fetch_and_add
    add_and_fetch
run_destroys_once_example =
    run_destroys_once 2 events (omega arith)
      (tt, (refl, (tt, (tt, (tt, (tt, (tt, ((refl, (tt, (tt, tt))), (tt, (tt, tt))))))))))

-- Thread 1 stands in `GetInstance` behind its load.
abbrev half : List Event
half = initializes 0 ∷ steps 0 ∷ steps 0 ∷ steps 1 ∷ steps 1 ∷ []

half-IsSafe : IsSafe (run half (start 2))
unfolding run event act initialize add_ref pc_at set_pc update fetch_and_add
half-IsSafe =
    run-IsSafe half (start 2) (tt, (refl, (tt, (tt, (tt, tt))))) (start-IsSafe 2 (omega arith))

get_instance_races_example :
    (run (destroys 0 ∷ steps 0 ∷ steps 0 ∷ steps 1 ∷ []) (run half (start 2))).shared.fault ≡ true
unfolding run event act initialize add_ref pc_at set_pc update fetch_and_add refs
get_instance_races_example =
    get_instance_races (run half (start 2)) 1 0 0 half-IsSafe refl refl refl refl
