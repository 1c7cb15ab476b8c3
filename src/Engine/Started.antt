-- ===== src/Engine/Started.antt =====
-- An engine of src/memhook/engine.cpp from its start on, while hooks run.
use memhook.Prelude.{
  ℕ, ℤ, ◌≡◌, refl, ap, ◌∙◌, ◌==◌, false, Bool, Option, none, some, List, [], ◌∷◌, Bool-cases,
  Option-cases, inl, inr, is_some,
}
use mathlib.Core.Path.{subst, sym, fun_ext}
use memhook.Index.{TimeIndex}
use memhook.Storage.{MappedStorage, Contract, Entry}
use memhook.Engine.{
  CachedTrace, cached_address, cached_timestamp, Unwinder, Engine, Policy, flush_local_cache,
  flush_into, do_hook_alloc, do_hook_free, do_hook_update_size, do_hook_realloc,
}
use memhook.Engine.Tracking.{IsConsistent}
use memhook.Engine.Alloc.{live}
use memhook.Engine.Refinement.{Hook, apply_hook, run_hooks, AllFresh, promised_all, live-run_hooks}
use memhook.Engine.Start.{
  Environment, Platform, Choice, new_storage, on_initialize, on_initialize-IsConsistent,
}
use memhook.Engine.Settings.{
  IsChoice, IsInterval, IsLimit, IsPolicy, new_storage-IsChoice, timeout_of-IsInterval,
  max_items_of-IsLimit, policy_of-IsPolicy,
}

module _ (ix : TimeIndex CachedTrace cached_address cached_timestamp) (m : MappedStorage)
    (u : Unwinder) where
  -- What `OnInitialize` takes from the environment, apart from the storage.
  abbrev pub settings : Engine ix m u → ℤ × ℕ × Policy
  settings e = (e.cache_flush_timeout, e.cache_flush_max_items, e.getprocinfo_policy)

  settings-flush :
      (now timeout : ℤ) (dump_all : Bool) (e : Engine ix m u)
      → settings (flush_local_cache ix m u now timeout dump_all e) ≡ settings e
  unfolding flush_local_cache flush_into
  settings-flush now timeout dump_all e = elim (Option-cases e.storage) [
    | inl absent ↦ rw absent refl
    | inr (store, held) ↦ rw held refl
  ]

  settings-alloc :
      (mem memsize : ℕ) (now : ℤ) (e : Engine ix m u)
      → settings (do_hook_alloc ix m u mem memsize now e) ≡ settings e
  unfolding do_hook_alloc
  settings-alloc mem memsize now e = elim (Bool-cases (mem == 0)) [
    | inl null ↦ rw null refl
    | inr some_mem ↦ rw some_mem (settings-flush now e.cache_flush_timeout false _)
  ]

  settings-free : (mem : ℕ) (e : Engine ix m u) → settings (do_hook_free ix m u mem e) ≡ settings e
  unfolding do_hook_free
  settings-free mem e = elim (Bool-cases (mem == 0)) [
    | inl null ↦ rw null refl
    | inr some_mem ↦ elim (Bool-cases (is_some (ix.find mem e.cache))) [
      | inl found ↦ rw (some_mem, found) refl
      | inr missing ↦ rw (some_mem, missing) refl
    ]
  ]

  settings-update_size :
      (mem newsize : ℕ) (e : Engine ix m u)
      → settings (do_hook_update_size ix m u mem newsize e) ≡ settings e
  unfolding do_hook_update_size
  settings-update_size mem newsize e = elim (Bool-cases (mem == 0)) [
    | inl null ↦ rw null refl
    | inr some_mem ↦ elim (Bool-cases (is_some (ix.find mem e.cache))) [
      | inl found ↦ rw (some_mem, found) refl
      | inr missing ↦ rw (some_mem, missing) refl
    ]
  ]

  settings-apply_hook :
      (h : Hook) (e : Engine ix m u) → settings (apply_hook ix m u h e) ≡ settings e
  unfolding apply_hook do_hook_realloc
  settings-apply_hook (Hook.alloc mem memsize now) e = settings-alloc mem memsize now e
  settings-apply_hook (Hook.free mem) e = settings-free mem e
  settings-apply_hook (Hook.update_size mem newsize) e = settings-update_size mem newsize e
  settings-apply_hook (Hook.realloc old_mem new_mem size now) e =
      elim (Bool-cases (old_mem == new_mem)) [
        | inl same ↦ rw same (settings-update_size old_mem size e)
        | inr other ↦ rw other (
            settings-alloc new_mem size now (do_hook_free ix m u old_mem e)
            ∙ settings-free old_mem e)
      ]

  settings-run_hooks :
      (hs : List Hook) (e : Engine ix m u) → settings (run_hooks ix m u hs e) ≡ settings e
  unfolding run_hooks
  settings-run_hooks [] e = refl
  settings-run_hooks (h ∷ hs) e =
      settings-run_hooks hs (apply_hook ix m u h e) ∙ settings-apply_hook h e

  module _ (p : Platform) (env : Environment) where
    -- The settings that the environment asks for.
    abbrev pub IsAsked : ℤ × ℕ × Policy → Type 0
    IsAsked (interval, limit, policy) =
        IsInterval p env.cache_flush_interval interval
        × IsLimit p env.cache_flush_max_items limit
        × IsPolicy env.getprocinfo_when_stack_unwinds policy

    on_initialize-IsAsked :
        (create : Choice → Option m.Store) (caches : u.Caches)
        → IsAsked (settings (on_initialize p env ix m u create caches))
    unfolding on_initialize
    on_initialize-IsAsked create caches = (
      timeout_of-IsInterval p env env.cache_flush_interval,
      max_items_of-IsLimit p env env.cache_flush_max_items,
      policy_of-IsPolicy p env env.getprocinfo_when_stack_unwinds,
    )

    storage-on_initialize :
        (create : Choice → Option m.Store) (caches : u.Caches)
        → (on_initialize p env ix m u create caches).storage ≡ create (new_storage p env)
    unfolding on_initialize
    storage-on_initialize create caches = refl

    module _ {IsValid : m.Store → Type 0} {lookup : ℕ → m.Store → Option Entry}
        (law : Contract m IsValid lookup) where
      -- An engine starts with the storage that the environment asks for, or with none if that cannot
      -- be opened: a host goes before a file and a file before shared memory, and the first variable
      -- for the size that is set decides. After any sequence of hook calls the engine is consistent,
      -- knows exactly the allocations that the calls made and did not free, and has the flush
      -- interval, the limit and the policy that the environment asked for, or the default ones. A
      -- storage that is opened is to be valid and empty, and no call is to allocate an address in
      -- use.
      pub run_hooks-on_initialize :
          (create : Choice → Option m.Store) (caches : u.Caches) (hs : List Hook)
          → ((choice : Choice) (s : m.Store)
              → create choice ≡ some s
              → IsValid s × ((a : ℕ) → lookup a s ≡ none))
          → AllFresh hs (λ a. none)
          → ((choice : Choice) × IsChoice p env choice
              × ((on_initialize p env ix m u create caches).storage ≡ create choice))
            × IsConsistent ix m u law
                (run_hooks ix m u hs (on_initialize p env ix m u create caches))
            × ((a : ℕ)
                → live ix m u law (run_hooks ix m u hs (on_initialize p env ix m u create caches)) a
                  ≡ promised_all hs (λ a. none) a)
            × IsAsked (settings (run_hooks ix m u hs (on_initialize p env ix m u create caches)))
      run_hooks-on_initialize create caches hs opened fresh =
          let e = on_initialize p env ix m u create caches in
          let (con, empty) = on_initialize-IsConsistent p env ix m u law create caches opened in
          let nothing : live ix m u law e ≡ (λ a. none) = fun_ext empty in
          let (con', known) =
            live-run_hooks ix m u law hs e con (subst (AllFresh hs) (sym nothing) fresh) in
          (
            (new_storage p env, new_storage-IsChoice p env, storage-on_initialize create caches),
            con',
            λ a. known a ∙ ap (λ k. promised_all hs k a) nothing,
            subst IsAsked (sym (settings-run_hooks hs e)) (on_initialize-IsAsked create caches),
          )
