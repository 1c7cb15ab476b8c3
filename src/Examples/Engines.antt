-- ===== src/Examples/Engines.antt =====
-- The engine of the example world: hooks and flushes.
use mathlib.Core.Path.{subst}
use memhook.Prelude.{
  none, ℕ, ℤ, pos, ◌-ℤ◌, ◌≤ℤ◌, ◌≤◌, ◌<◌, ◌≡◌, refl, inr, true, false, Option, some, List, [], ◌∷◌,
  find_key, drop, All, arith, is_some,
}
use memhook.Storage.{Contract}
use memhook.Storage.Mapped.{symbol, add}
use memhook.Storage.Mapped.Laws.{IsContainer, container_lookup, mapped_storage-Contract}
use memhook.Storage.Symbols.{add-Named}
use memhook.Engine.{CachedTrace, cached_timestamp, Engine, flush_local_cache, on_destroy}
use memhook.Engine.Tracking.{IsConsistent, tracked, stored}
use memhook.Engine.Alloc.{live}
use memhook.Engine.Refinement.{Hook, run_hooks, promised_all, AllFresh, live-run_hooks}
use memhook.Engine.Limits.{flush_limits, stored-on_destroy}
use memhook.Engine.Start.{Environment, Platform, Choice, on_initialize}
use memhook.Engine.Settings.{IsChoice}
use memhook.Engine.Started.{settings, IsAsked, run_hooks-on_initialize}
use memhook.Storage.Mapped.{Container}
use memhook.Examples.{
  traces, cached, unwinder, segment, contract, engine, engine-IsConsistent, empty_container,
  frame_at,
}

abbrev E : Type 0
E = Engine cached segment unwinder

abbrev hooks : List Hook
hooks =
    Hook.alloc 16 8 (pos 1)
    ∷ Hook.alloc 32 4 (pos 2)
    ∷ Hook.realloc 16 48 24 (pos 30)
    ∷ Hook.free 32
    ∷ Hook.update_size 48 9
    ∷ []

abbrev known : E → ℕ → Option (ℕ × ℤ)
known e = live cached segment unwinder contract e

hooks-AllFresh : AllFresh hooks (known engine)
unfolding find_key
hooks-AllFresh = (refl, (refl, (inr refl, (tt, (tt, tt)))))

live-run_hooks_example :
    IsConsistent cached segment unwinder contract (run_hooks cached segment unwinder hooks engine)
    × ((a : ℕ)
        → known (run_hooks cached segment unwinder hooks engine) a
          ≡ promised_all hooks (known engine) a)
live-run_hooks_example =
    live-run_hooks cached segment unwinder contract hooks engine engine-IsConsistent hooks-AllFresh

abbrev cached_at : ℕ → ℤ → CachedTrace
cached_at address timestamp = record {
  base = record { address = address; memsize = 8; timestamp = timestamp };
  callstack = frame_at 4100 ∷ [];
}

-- Three cached allocations.
abbrev filled : E
filled = record engine {
  cache = cached_at 16 (pos 1) ∷ cached_at 32 (pos 2) ∷ cached_at 48 (pos 9) ∷ [];
}

filled-IsConsistent : IsConsistent cached segment unwinder contract filled
unfolding find_key
filled-IsConsistent = record {
  indexed = record {
    order = ((omega arith, (omega arith, tt)), ((omega arith, tt), (tt, tt)));
    distinct = (refl, (refl, (refl, tt)));
  };
  valid = record { order = tt; distinct = tt };
  apart = λ a h. refl;
}

flush_limits_example :
    (n : ℕ) × (flush_local_cache cached segment unwinder (pos 10) (pos 5) false filled).cache
      ≡ drop n filled.cache
    × (n ≤ 2)
    × (n < 2
        → All
            (λ v. pos 10 -ℤ pos 5 ≤ℤ cached_timestamp v)
            (flush_local_cache cached segment unwinder (pos 10) (pos 5) false filled).cache)
flush_limits_example =
    flush_limits cached segment unwinder contract (pos 10) (pos 5) empty_container filled refl
      filled-IsConsistent

stored-on_destroy_example :
    ((on_destroy cached segment unwinder (pos 10) filled).1.cache ≡ [])
    × ((a : ℕ)
        → stored cached segment unwinder contract a
            (on_destroy cached segment unwinder (pos 10) filled).0
          ≡ tracked cached segment unwinder contract a filled)
stored-on_destroy_example =
    stored-on_destroy cached segment unwinder contract (pos 10) empty_container filled refl
      filled-IsConsistent

mapped_storage-Contract_example : Contract segment (IsContainer traces) (container_lookup traces)
mapped_storage-Contract_example = mapped_storage-Contract traces

add-Named_example :
    All
      (λ item.
        is_some (
          symbol item.ip
            (add traces 16 8 (frame_at 4100 ∷ []) (pos 1) empty_container).symbols.symtab)
        ≡ true)
      (frame_at 4100 ∷ [])
    × ((a : ℕ) (name : List ℕ)
        → symbol a empty_container.symbols.symtab ≡ some name
        → symbol a (add traces 16 8 (frame_at 4100 ∷ []) (pos 1) empty_container).symbols.symtab
          ≡ some name)
add-Named_example = add-Named traces 16 8 (frame_at 4100 ∷ []) (pos 1) empty_container

abbrev environment : Environment
environment = record {
  net_host = none;
  net_port = none;
  size_gb = none;
  size_mb = some (53 ∷ []);
  size_kb = none;
  size = none;
  file = some (109 ∷ []);
  shm_name = none;
  cache_flush_interval = none;
  cache_flush_max_items = none;
  getprocinfo_when_stack_unwinds = some (49 ∷ []);
}

-- Every number reads as 5.
abbrev platform : Platform
platform = record { strtoul = λ text. 5; duration_from_string = λ text. none }

abbrev create : Choice → Option (Container traces)
create choice = some empty_container

created-Empty :
    (choice : Choice) (s : Container traces)
    → create choice ≡ some s
    → IsContainer traces s × ((a : ℕ) → container_lookup traces a s ≡ none)
unfolding find_key
created-Empty choice s h =
    let same : empty_container ≡ s = cc in
    subst (λ s. IsContainer traces s × ((a : ℕ) → container_lookup traces a s ≡ none)) same
      (record { order = tt; distinct = tt }, λ a. refl)

abbrev started : E
started = on_initialize platform environment cached segment unwinder create 0

abbrev first_hooks : List Hook
first_hooks = Hook.alloc 16 8 (pos 1) ∷ Hook.alloc 32 8 (pos 2) ∷ Hook.free 16 ∷ []

run_hooks-on_initialize_example :
    ((choice : Choice) × IsChoice platform environment choice × (started.storage ≡ create choice))
    × IsConsistent cached segment unwinder contract
        (run_hooks cached segment unwinder first_hooks started)
    × ((a : ℕ)
        → known (run_hooks cached segment unwinder first_hooks started) a
          ≡ promised_all first_hooks (λ a. none) a)
    × IsAsked cached segment unwinder platform environment
        (settings cached segment unwinder (run_hooks cached segment unwinder first_hooks started))
run_hooks-on_initialize_example =
    run_hooks-on_initialize cached segment unwinder platform environment contract create 0
      first_hooks created-Empty (refl, (refl, (tt, tt)))
