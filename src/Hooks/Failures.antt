-- ===== src/Hooks/Failures.antt =====
-- What the hooks of src/memhook/memhook.cpp report when the C library fails.
use mathlib.Core.Option
use memhook.Prelude.{
  ℕ, ℤ, ◌≡◌, ◌≢◌, refl, ap, ◌∙◌, ==_iff, true, not, ◌&&◌, Option, none, some, [], ◌∷◌, arith, inr,
}
use memhook.Index.{TimeIndex}
use memhook.Storage.{MappedStorage, Contract, Entry}
use memhook.Engine.{
  CachedTrace, cached_address, cached_timestamp, Unwinder, Engine, do_hook_realloc,
}
use memhook.Engine.Alloc.{live}
use memhook.Engine.Tracking.{IsConsistent}
use memhook.Engine.Allocations.{release, reallocate}
use memhook.Engine.Refinement.{Hook, run_hooks, apply_hook, live-do_hook_realloc, live-run_hooks}
use memhook.Hooks.DlFunctions.{Libc}
use memhook.Hooks.Direct.{Call, direct, InnerCalls}
use memhook.Hooks.{World}
use memhook.Hooks.Memory.{memhook_realloc, memhook_mmap, map_failed, is_negative, has_map_stack}
use memhook.Hooks.Calls.{hooked, answered}
use memhook.Hooks.Recorded.{hooked_outermost, hooks_of}

module _ (c : Libc) (ix : TimeIndex CachedTrace cached_address cached_timestamp) (m : MappedStorage)
    (u : Unwinder) (n : InnerCalls c ix m u) {IsValid : m.Store → Type 0}
    {lookup : ℕ → m.Store → Option Entry} (law : Contract m IsValid lookup) (w : World c ix m u n)
    (e : Engine ix m u) (now : ℤ) where
  abbrev known : Engine ix m u → ℕ → Option Entry
  known e = live ix m u law e

  module _ (outermost : w.hook_depth ≡ 0) (held : w.instance_ ≡ some e)
      (con : IsConsistent ix m u law e) where
    reported :
        (k : Call) (h : Hook)
        → answered k (direct c k w.libc).0 now ≡ some h
        → (hooked c ix m u n k now w).1.instance_ ≡ some (apply_hook ix m u h e)
    unfolding run_hooks
    reported k h answer =
        hooked_outermost c ix m u n k now w (rw outermost refl)
        ∙ ap (λ o. Option.map (run_hooks ix m u (hooks_of o)) w.instance_) answer
        ∙ ap (Option.map (run_hooks ix m u (h ∷ []))) held

    reallocate_null :
        (mem size : ℕ) (f : ℕ → Option Entry) → mem ≢ 0 → reallocate mem 0 size now f mem ≡ none
    reallocate_null mem size f ne = ground (arith, ==_iff mem 0)

    release_null : (mem : ℕ) (f : ℕ → Option Entry) → f 0 ≡ none → release mem f 0 ≡ none
    release_null mem f h = ground (arith, h)

    -- A `realloc` of a block that fails, and so returns NULL, makes a consistent engine forget the
    -- block, when the call is not nested and the engine knows no block at NULL.
    pub realloc_failed :
        (mem size : ℕ)
        → mem ≢ 0
        → known e 0 ≡ none
        → (c.realloc mem size w.libc).0 ≡ 0
        → (e' : Engine ix m u) × ((memhook_realloc c ix m u n mem size now w).1.instance_ ≡ some e')
          × (known e' mem ≡ none)
    unfolding hooked apply_hook
    realloc_failed mem size ne null failed = (
      do_hook_realloc ix m u mem 0 size now e,
      reported (Call.call_realloc mem size) (Hook.realloc mem 0 size now)
          (ap (λ p. some (Hook.realloc mem p size now)) failed),
      live-do_hook_realloc ix m u law mem 0 size now e con (inr (release_null mem (known e) null))
            mem
          ∙ reallocate_null mem size (known e) ne,
    )

    -- When an anonymous `mmap` that is not nested returns MAP_FAILED, a consistent engine that has
    -- no allocation there records one.
    pub mmap_failed :
        (addr length prot flags : ℕ) (fd offset : ℤ)
        → (is_negative fd && not (has_map_stack flags)) ≡ true
        → known e map_failed ≡ none
        → (c.mmap addr length prot flags fd offset w.libc).0 ≡ map_failed
        → (e' : Engine ix m u) × ((memhook_mmap c ix m u n addr length prot flags fd offset now
              w).1.instance_
            ≡ some e')
          × (known e' map_failed ≡ some (length, now))
    unfolding hooked run_hooks
    mmap_failed addr length prot flags fd offset anonymous new failed =
        let h = Hook.alloc map_failed length now in
        let (_, kept) = live-run_hooks ix m u law (h ∷ []) e con (new, tt) in
        (
          apply_hook ix m u h e,
          reported (Call.call_mmap addr length prot flags fd offset) h
              (rw (anonymous, failed) refl),
          kept map_failed ∙ rw new refl,
        )
