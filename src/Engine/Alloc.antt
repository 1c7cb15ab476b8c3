-- ===== src/Engine/Alloc.antt =====
-- `DoHookAlloc` of src/memhook/engine.cpp implements `allocate`.
use memhook.Prelude.{
  ℕ, ℤ, ◌≡◌, refl, ◌∙◌, ◌==◌, ==_iff, false, Option, none, some, is_some, [], if◌then◌else◌, arith,
  Bool-cases, inl, inr,
}
use memhook.TraceInfo.{CallStackInfo}
use memhook.Index.{TimeIndex}
use memhook.Index.Laws.{IsIndexed, emplace-IsIndexed, modify-IsIndexed, find-emplace, find-modify}
use memhook.Storage.{MappedStorage, Contract, Entry}
use memhook.Engine.{
  CachedTrace, cached_address, cached_timestamp, set_callstack, Unwinder, Engine, cache_alloc,
  do_hook_alloc, when_unwinding,
}
use memhook.Engine.Tracking.{stored, tracked, IsConsistent, tracked-flush, flush-IsConsistent}
use memhook.Engine.Allocations.{allocate}

abbrev cached : ℕ → ℕ → ℤ → CallStackInfo → CachedTrace
cached mem memsize now callstack = record {
  base = record { address = mem; memsize = memsize; timestamp = now };
  callstack = callstack;
}

module _ (ix : TimeIndex CachedTrace cached_address cached_timestamp) (m : MappedStorage)
    (u : Unwinder) where
  module _ (mem memsize : ℕ) (now : ℤ) (callstack : CallStackInfo) (cache : ix.Rep) where
    find-cache_alloc :
        (b : ℕ)
        → ix.find b (cache_alloc ix m u mem memsize now callstack cache) ≡ (
            if is_some (ix.find mem cache)
            then ix.find b cache
            else if mem == b
            then some (cached mem memsize now callstack)
            else ix.find b cache)
    unfolding cache_alloc
    find-cache_alloc b = ground (
      arith,
      ix.emplaces-items (cached mem memsize now []) cache,
      ix.find-items mem cache,
      find-emplace ix (cached mem memsize now []) b cache,
      find-modify ix (set_callstack callstack) (λ v. refl) (λ v. refl) mem b
          (ix.emplace (cached mem memsize now []) cache),
    )

    cache_alloc-IsIndexed :
        IsIndexed ix cache → IsIndexed ix (cache_alloc ix m u mem memsize now callstack cache)
    unfolding cache_alloc
    cache_alloc-IsIndexed h =
        let placed = emplace-IsIndexed ix (cached mem memsize now []) cache h in
        elim (Bool-cases (ix.emplaces (cached mem memsize now []) cache)) [
          | inl e ↦
              rw e
                (modify-IsIndexed ix (set_callstack callstack) (λ v. refl) (λ v. refl) mem _ placed)
          | inr e ↦ rw e placed
        ]

  module _ {IsValid : m.Store → Type 0} {lookup : ℕ → m.Store → Option Entry}
      (law : Contract m IsValid lookup) where
    abbrev Consistent : Engine ix m u → Type 0
    Consistent = IsConsistent ix m u law

    -- The entries that the engine knows.
    abbrev pub live : Engine ix m u → ℕ → Option Entry
    live e a = tracked ix m u law a e

    abbrev in_storage : ℕ → Engine ix m u → Option Entry
    in_storage a e = stored ix m u law a e.storage

    -- The call stack that `do_hook_alloc` takes.
    abbrev call : Engine ix m u → CallStackInfo × u.Caches
    call e = u.get_call_stack_info 2 (when_unwinding e.getprocinfo_policy) e.unwinder

    module _ (mem memsize : ℕ) (now : ℤ) where
      abbrev placed : CallStackInfo → u.Caches → Engine ix m u → Engine ix m u
      placed callstack caches e = record e {
        cache = cache_alloc ix m u mem memsize now callstack e.cache;
        unwinder = caches;
      }

      module _ (callstack : CallStackInfo) (caches : u.Caches) (e : Engine ix m u)
          (c : Consistent e) (new : in_storage mem e ≡ none) where
        placed-IsConsistent : Consistent (placed callstack caches e)
        placed-IsConsistent = record {
          indexed = cache_alloc-IsIndexed mem memsize now callstack e.cache c.indexed;
          valid = c.valid;
          apart = λ b found. ground (
            arith,
            find-cache_alloc mem memsize now callstack e.cache b,
            c.apart b,
            ==_iff mem b,
          );
        }

        live-placed :
            (a : ℕ)
            → live (placed callstack caches e) a ≡ (
                if is_some (live e mem)
                then live e a
                else if mem == a
                then some (memsize, now)
                else live e a)
        live-placed a =
            ground (arith, find-cache_alloc mem memsize now callstack e.cache a, ==_iff mem a)

      module _ (e : Engine ix m u) (c : Consistent e) where
        pub do_hook_alloc-IsConsistent :
            in_storage mem e ≡ none → Consistent (do_hook_alloc ix m u mem memsize now e)
        unfolding do_hook_alloc
        do_hook_alloc-IsConsistent new = elim (Bool-cases (mem == 0)) [
          | inl z ↦ rw z c
          | inr z ↦ rw z (
              flush-IsConsistent ix m u law now e.cache_flush_timeout false _
                (placed-IsConsistent (call e).0 (call e).1 e c new))
        ]

        -- An allocation at an address that is not in the storage is recorded, unless its address is
        -- null or recorded already; nothing else changes.
        pub live-do_hook_alloc :
            in_storage mem e ≡ none
            → (a : ℕ)
            → live (do_hook_alloc ix m u mem memsize now e) a ≡ allocate mem memsize now (live e) a
        unfolding do_hook_alloc
        live-do_hook_alloc new a = elim (Bool-cases (mem == 0)) [
          | inl z ↦ rw z
          | inr z ↦ rw z (
              tracked-flush ix m u law now e.cache_flush_timeout false _ a
                (placed-IsConsistent (call e).0 (call e).1 e c new)
              ∙ live-placed (call e).0 (call e).1 e c new a)
        ]
