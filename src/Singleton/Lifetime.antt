-- ===== src/Singleton/Lifetime.antt =====
-- When the engine that threads share by src/memhook/singleton.h is destroyed.
use memhook.Prelude.{
  ℕ, zero, suc, ◌+◌, ◌^◌, ◌<◌, ◌==◌, ◌≡◌, refl, ap, false, ◌&&◌, Option, none, some, List, [], ◌∷◌,
  All, length, ltb, if◌then◌else◌, arith,
}
use memhook.Singleton.{
  Pc, add_ref, idle, tested, loaded, holds, constructed, initializing, unlinking, destroying,
  Shared, initialize, destroy, Event, steps, initializes, destroys, System, pc_at, set_pc, after,
  when_idle, event, run, all_idle, start, Allowed, IsCareful,
}
use memhook.Singleton.Counting.{refs, own, IsCurrent, initialize-IsCounted}
use memhook.Singleton.Moves.{
  length-set_pc, All-set_pc, same-IsCounted, IsSafe, few_refs, step_at-IsSafe, idle_refs,
}

initialize_at-IsSafe :
    (s : System) (i : ℕ)
    → IsSafe s
    → pc_at i s.threads ≡ some idle
    → IsSafe (after i (initialize s.shared) s)
unfolding initialize add_ref
initialize_at-IsSafe s i h at =
    let d = constructed s.shared.fresh in
    record {
      counts =
          initialize-IsCounted s.shared (λ p. refs p s.threads) (λ p. refs p (set_pc i d s.threads))
            (λ p. idle_refs s h i d p at) (few_refs s h s.threads refl) h.counts;
      current = All-set_pc _ i d s.threads tt h.current;
      few = rw (length-set_pc i d s.threads) h.few;
    }

destroy_at-IsSafe :
    (s : System) (i : ℕ)
    → IsSafe s
    → pc_at i s.threads ≡ some idle
    → IsSafe (after i (destroy s.shared) s)
unfolding destroy
destroy_at-IsSafe s i h at =
    let d = unlinking s.shared.instance_ in
    record {
      counts = same-IsCounted _ _ _ h.counts (λ p. omega (arith, idle_refs s h i d p at));
      current = All-set_pc _ i d s.threads tt h.current;
      few = rw (length-set_pc i d s.threads) h.few;
    }

when_idle-IsSafe :
    (s : System) (i : ℕ) (f : Shared → Shared × Pc)
    → IsSafe s
    → (pc_at i s.threads ≡ some idle → IsSafe (after i (f s.shared) s))
    → (o : Option Pc) → pc_at i s.threads ≡ o
    → IsSafe (when_idle i f o s)
when_idle-IsSafe s i f h k none at = h
when_idle-IsSafe s i f h k (some idle) at = k at
when_idle-IsSafe s i f h k (some tested) at = h
when_idle-IsSafe s i f h k (some (loaded p)) at = h
when_idle-IsSafe s i f h k (some (holds p)) at = h
when_idle-IsSafe s i f h k (some (initializing p)) at = h
when_idle-IsSafe s i f h k (some (destroying p)) at = h
when_idle-IsSafe s i f h k (some (constructed p)) at = h
when_idle-IsSafe s i f h k (some (unlinking o)) at = h

event-IsSafe : (e : Event) (s : System) → Allowed e s → IsSafe s → IsSafe (event e s)
unfolding event
event-IsSafe (steps i) s ok h = step_at-IsSafe s h i (pc_at i s.threads) refl ok
event-IsSafe (initializes i) s ok h =
    when_idle-IsSafe s i initialize h (initialize_at-IsSafe s i h) (pc_at i s.threads) refl
event-IsSafe (destroys i) s ok h =
    when_idle-IsSafe s i destroy h (destroy_at-IsSafe s i h) (pc_at i s.threads) refl

pub run-IsSafe : (es : List Event) (s : System) → IsCareful es s → IsSafe s → IsSafe (run es s)
unfolding run
run-IsSafe [] s ok h = h
run-IsSafe (e ∷ es) s (ok, oks) h = run-IsSafe es (event e s) oks (event-IsSafe e s ok h)

refs-all_idle : (p n : ℕ) → refs p (all_idle n) ≡ 0
unfolding refs
refs-all_idle p zero = refl
refs-all_idle p (suc n) = omega (arith, refs-all_idle p n)

length-all_idle : (n : ℕ) → length (all_idle n) ≡ n
length-all_idle zero = refl
length-all_idle (suc n) = ap suc (length-all_idle n)

all_idle-IsCurrent : (n : ℕ) → All (IsCurrent none) (all_idle n)
all_idle-IsCurrent zero = tt
all_idle-IsCurrent (suc n) = (tt, all_idle-IsCurrent n)

pub start-IsSafe : (n : ℕ) → n + 1 < 2 ^ 32 → IsSafe (start n)
start-IsSafe n few = record {
  counts = record {
    counted = λ p. omega (arith, refs-all_idle p n);
    once = λ p. ground arith;
    made = λ p k. absurd (omega arith);
    sound = refl;
  };
  current = all_idle-IsCurrent n;
  few = rw (length-all_idle n) few;
}

-- Whatever the order in which threads take their steps, no object is accessed that is deleted, and
-- each object that was made is destroyed and deleted, once, exactly when neither `instance_` nor a
-- thread refers to it any more. The condition is on the stores to `instance_`: that of `Initialize`
-- is made without an instance, and that of `Destroy` while the instance is the one it loaded, no
-- thread is in `OnInitialize`, and none has a pointer loaded that it has not counted yet. There are
-- fewer threads than counters can hold.
pub run_destroys_once :
    (n : ℕ) (es : List Event)
    → n + 1 < 2 ^ 32
    → IsCareful es (start n)
    → ((run es (start n)).shared.fault ≡ false)
      × ((p : ℕ)
          → (run es (start n)).shared.deleted p ≡ (
              if ltb p (run es (start n)).shared.fresh
                && (refs p (run es (start n)).threads + own p (run es (start n)).shared.instance_
                    == 0)
              then 1
              else 0))
run_destroys_once n es few ok =
    let h = run-IsSafe es (start n) ok (start-IsSafe n few) in
    (h.counts.sound, λ p. rw (← h.counts.counted p) (h.counts.once p))
