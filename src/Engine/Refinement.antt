-- ===== src/Engine/Refinement.antt =====
-- The hooks of src/memhook/engine.cpp, in any order, implement `Allocations`.
use mathlib.Core.Path.{subst, sym, fun_ext}
use memhook.Prelude.{
  ℕ, ℤ, ◌≡◌, refl, ◌∙◌, ap, ◌==◌, false, Option, none, List, [], ◌∷◌, arith, Bool-cases, inl, inr,
  ◌⊎◌,
}
use memhook.Index.{TimeIndex}
use memhook.Storage.{MappedStorage, Contract, Entry}
use memhook.Engine.{
  CachedTrace, cached_address, cached_timestamp, Unwinder, Engine, do_hook_alloc, do_hook_free,
  do_hook_update_size, do_hook_realloc,
}
use memhook.Engine.Tracking.{IsConsistent, stored}
use memhook.Engine.Allocations.{Allocations, allocate, release, resize_at, reallocate}
use memhook.Engine.Alloc.{live, do_hook_alloc-IsConsistent, live-do_hook_alloc}
use memhook.Engine.Release.{
  do_hook_free-IsConsistent, live-do_hook_free, do_hook_update_size-IsConsistent,
  live-do_hook_update_size,
}

-- A call of a hook, with the time at which it allocates.
pub data Hook : Type 0 where
  alloc : ℕ → ℕ → ℤ → Hook
  free : ℕ → Hook
  realloc : ℕ → ℕ → ℕ → ℤ → Hook
  update_size : ℕ → ℕ → Hook

abbrev pub promised : Hook → Allocations → Allocations
promised (alloc mem memsize now) = allocate mem memsize now
promised (free mem) = release mem
promised (realloc old_mem new_mem new_size now) = reallocate old_mem new_mem new_size now
promised (update_size mem newsize) = resize_at mem newsize

-- The allocator does not hand out an address that is in use.
abbrev pub IsFresh : Hook → Allocations → Type 0
IsFresh (alloc mem _ _) known = known mem ≡ none
IsFresh (realloc old_mem new_mem _ _) known =
    (old_mem ≡ new_mem) ⊎ (release old_mem known new_mem ≡ none)
IsFresh _ known = Unit

abbrev pub promised_all : List Hook → Allocations → Allocations
promised_all [] known = known
promised_all (h ∷ hs) known = promised_all hs (promised h known)

abbrev pub AllFresh : List Hook → Allocations → Type 0
AllFresh [] known = Unit
AllFresh (h ∷ hs) known = IsFresh h known × AllFresh hs (promised h known)

module _ (ix : TimeIndex CachedTrace cached_address cached_timestamp) (m : MappedStorage)
    (u : Unwinder) where
  unfoldable pub apply_hook : Hook → Engine ix m u → Engine ix m u
  apply_hook (alloc mem memsize now) e = do_hook_alloc ix m u mem memsize now e
  apply_hook (free mem) e = do_hook_free ix m u mem e
  apply_hook (realloc old_mem new_mem new_size now) e =
      do_hook_realloc ix m u old_mem new_mem new_size now e
  apply_hook (update_size mem newsize) e = do_hook_update_size ix m u mem newsize e

  unfoldable pub run_hooks : List Hook → Engine ix m u → Engine ix m u
  run_hooks [] e = e
  run_hooks (h ∷ hs) e = run_hooks hs (apply_hook h e)

  module _ {IsValid : m.Store → Type 0} {lookup : ℕ → m.Store → Option Entry}
      (law : Contract m IsValid lookup) where
    abbrev known : Engine ix m u → Allocations
    known e = live ix m u law e

    stored_of_known :
        (a : ℕ) (e : Engine ix m u)
        → IsConsistent ix m u law e
        → known e a ≡ none
        → stored ix m u law a e.storage ≡ none
    stored_of_known a e c h = ground (arith, c.apart a)

    module _ (old_mem new_mem new_size : ℕ) (now : ℤ) (e : Engine ix m u)
        (c : IsConsistent ix m u law e) where
      abbrev freed : Engine ix m u
      freed = do_hook_free ix m u old_mem e

      freed-IsConsistent : IsConsistent ix m u law freed
      freed-IsConsistent = do_hook_free-IsConsistent ix m u law old_mem e c

      known-freed : known freed ≡ release old_mem (known e)
      known-freed = fun_ext (live-do_hook_free ix m u law old_mem e c)

      -- Where the addresses differ, the new one is not in the storage once the old one is freed.
      stored-freed :
          old_mem == new_mem ≡ false
          → IsFresh (realloc old_mem new_mem new_size now) (known e)
          → stored ix m u law new_mem freed.storage ≡ none
      stored-freed ne (inl same) = absurd (ground arith)
      stored-freed ne (inr fresh) =
          stored_of_known new_mem freed freed-IsConsistent (ap (λ k. k new_mem) known-freed ∙ fresh)

      -- In a consistent engine, a reallocation in place changes the size, and one that moves
      -- forgets the old address and records the new one, when that is not in use.
      pub live-do_hook_realloc :
          IsFresh (realloc old_mem new_mem new_size now) (known e)
          → (a : ℕ)
          → known (do_hook_realloc ix m u old_mem new_mem new_size now e) a
            ≡ reallocate old_mem new_mem new_size now (known e) a
      unfolding do_hook_realloc
      live-do_hook_realloc fresh a = elim (Bool-cases (old_mem == new_mem)) [
        | inl same ↦ rw same (live-do_hook_update_size ix m u law old_mem e c new_size a)
        | inr ne ↦ rw ne (
            live-do_hook_alloc ix m u law new_mem new_size now freed freed-IsConsistent
              (stored-freed ne fresh) a
            ∙ ap (λ k. allocate new_mem new_size now k a) known-freed)
      ]

      pub do_hook_realloc-IsConsistent :
          IsFresh (realloc old_mem new_mem new_size now) (known e)
          → IsConsistent ix m u law (do_hook_realloc ix m u old_mem new_mem new_size now e)
      unfolding do_hook_realloc
      do_hook_realloc-IsConsistent fresh = elim (Bool-cases (old_mem == new_mem)) [
        | inl same ↦ rw same (do_hook_update_size-IsConsistent ix m u law old_mem e c new_size)
        | inr ne ↦ rw ne (
            do_hook_alloc-IsConsistent ix m u law new_mem new_size now freed freed-IsConsistent
              (stored-freed ne fresh))
      ]

    apply_hook-IsConsistent :
        (h : Hook) (e : Engine ix m u)
        → IsConsistent ix m u law e
        → IsFresh h (known e)
        → IsConsistent ix m u law (apply_hook h e)
    unfolding apply_hook
    apply_hook-IsConsistent (alloc mem n now) e c f =
        do_hook_alloc-IsConsistent ix m u law mem n now e c (stored_of_known mem e c f)
    apply_hook-IsConsistent (free mem) e c f = do_hook_free-IsConsistent ix m u law mem e c
    apply_hook-IsConsistent (realloc o n s now) e c f = do_hook_realloc-IsConsistent o n s now e c f
    apply_hook-IsConsistent (update_size mem n) e c f =
        do_hook_update_size-IsConsistent ix m u law mem e c n

    live-apply_hook :
        (h : Hook) (e : Engine ix m u)
        → IsConsistent ix m u law e
        → IsFresh h (known e)
        → known (apply_hook h e) ≡ promised h (known e)
    unfolding apply_hook
    live-apply_hook (alloc mem n now) e c f =
        fun_ext (live-do_hook_alloc ix m u law mem n now e c (stored_of_known mem e c f))
    live-apply_hook (free mem) e c f = fun_ext (live-do_hook_free ix m u law mem e c)
    live-apply_hook (realloc o n s now) e c f = fun_ext (live-do_hook_realloc o n s now e c f)
    live-apply_hook (update_size mem n) e c f =
        fun_ext (live-do_hook_update_size ix m u law mem e c n)

    -- After any sequence of hook calls a consistent engine is consistent and knows the allocations
    -- that it knew or the calls made, and that they did not free, each with its size and its time,
    -- as long as no call allocates an address in use.
    pub live-run_hooks :
        (hs : List Hook) (e : Engine ix m u)
        → IsConsistent ix m u law e
        → AllFresh hs (known e)
        → IsConsistent ix m u law (run_hooks hs e)
          × ((a : ℕ) → known (run_hooks hs e) a ≡ promised_all hs (known e) a)
    unfolding run_hooks
    live-run_hooks [] e c f = (c, λ a. refl)
    live-run_hooks (h ∷ hs) e c (fresh, f) =
        let step = live-apply_hook h e c fresh in
        let (c', rest) =
          live-run_hooks hs (apply_hook h e) (apply_hook-IsConsistent h e c fresh)
            (subst (AllFresh hs) (sym step) f) in
        (c', λ a. rest a ∙ ap (λ k. promised_all hs k a) step)
