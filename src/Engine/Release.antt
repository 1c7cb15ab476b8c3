-- ===== src/Engine/Release.antt =====
-- `DoHookFree` and `DoHookUpdateSize` of src/memhook/engine.cpp implement `release` and
-- `resize_at`.
use mathlib.Core.Option
use memhook.Prelude.{
  ℕ, ◌≡◌, refl, ◌==◌, Option, none, some, is_some, if◌then◌else◌, arith, Bool-cases, inl, inr,
}
use memhook.Index.{TimeIndex}
use memhook.Index.Laws.{erase-IsIndexed, modify-IsIndexed, find-erase, find-modify}
use memhook.Storage.{MappedStorage, Contract, Entry, resize}
use memhook.Engine.{
  CachedTrace, cached_address, cached_timestamp, set_cached_size, Unwinder, Engine, do_hook_free,
  do_hook_update_size,
}
use memhook.Engine.{when_open}
use memhook.Engine.Tracking.{stored, StoreIsValid, IsConsistent}
use memhook.Engine.Allocations.{release, resize_at}
use memhook.Engine.Alloc.{live}

module _ (ix : TimeIndex CachedTrace cached_address cached_timestamp) (m : MappedStorage)
    (u : Unwinder) where
  module _ {IsValid : m.Store → Type 0} {lookup : ℕ → m.Store → Option Entry}
      (law : Contract m IsValid lookup) where
    abbrev Consistent : Engine ix m u → Type 0
    Consistent = IsConsistent ix m u law

    module _ (mem : ℕ) where
      stored-remove :
          (b : ℕ) (o : Option m.Store)
          → StoreIsValid ix m u law o
          → stored ix m u law b (when_open ix m u (m.remove mem) o)
            ≡ (if mem == b then none else stored ix m u law b o)
      stored-remove b none v = ground arith
      stored-remove b (some s) v = law.lookup-remove mem b s v

      remove-StoreIsValid :
          (o : Option m.Store)
          → StoreIsValid ix m u law o
          → StoreIsValid ix m u law (when_open ix m u (m.remove mem) o)
      remove-StoreIsValid none v = tt
      remove-StoreIsValid (some s) v = law.remove-IsValid mem s v

      stored-update_size :
          (n b : ℕ) (o : Option m.Store)
          → StoreIsValid ix m u law o
          → stored ix m u law b (when_open ix m u (m.update_size mem n) o) ≡ (
              if mem == b
              then Option.map (resize n) (stored ix m u law b o)
              else stored ix m u law b o)
      stored-update_size n b none v = ground arith
      stored-update_size n b (some s) v = law.lookup-update_size mem n b s v

      update_size-StoreIsValid :
          (n : ℕ) (o : Option m.Store)
          → StoreIsValid ix m u law o
          → StoreIsValid ix m u law (when_open ix m u (m.update_size mem n) o)
      update_size-StoreIsValid n none v = tt
      update_size-StoreIsValid n (some s) v = law.update_size-IsValid mem n s v

    module _ (mem : ℕ) (e : Engine ix m u) (c : Consistent e) where
      pub do_hook_free-IsConsistent : Consistent (do_hook_free ix m u mem e)
      unfolding do_hook_free
      do_hook_free-IsConsistent = elim (Bool-cases (mem == 0)) [
        | inl z ↦ rw z c
        | inr z ↦ elim (Bool-cases (is_some (ix.find mem e.cache))) [
          | inl hit ↦
              rw (z, hit)
                record {
                  indexed = erase-IsIndexed ix mem e.cache c.indexed;
                  valid = c.valid;
                  apart =
                      λ b found. ground (arith, find-erase ix mem b e.cache c.indexed, c.apart b);
                }
          | inr miss ↦
              rw (z, miss)
                record {
                  indexed = c.indexed;
                  valid = remove-StoreIsValid mem e.storage c.valid;
                  apart =
                      λ b found. ground (arith, stored-remove mem b e.storage c.valid, c.apart b);
                }
        ]
      ]

      -- In a consistent engine a free forgets the address, whether it is cached or stored, and
      -- nothing else.
      pub live-do_hook_free :
          (a : ℕ)
          → live ix m u law (do_hook_free ix m u mem e) a ≡ release mem (live ix m u law e) a
      unfolding do_hook_free
      live-do_hook_free a = ground (
        arith,
        find-erase ix mem a e.cache c.indexed,
        stored-remove mem a e.storage c.valid,
        c.apart mem,
      )

      pub do_hook_update_size-IsConsistent :
          (newsize : ℕ) → Consistent (do_hook_update_size ix m u mem newsize e)
      unfolding do_hook_update_size
      do_hook_update_size-IsConsistent newsize = elim (Bool-cases (mem == 0)) [
        | inl z ↦ rw z c
        | inr z ↦ elim (Bool-cases (is_some (ix.find mem e.cache))) [
          | inl hit ↦
              rw (z, hit)
                record {
                  indexed =
                      modify-IsIndexed ix (set_cached_size newsize) (λ v. refl) (λ v. refl) mem
                        e.cache c.indexed;
                  valid = c.valid;
                  apart = λ b found. ground (
                    arith,
                    find-modify ix (set_cached_size newsize) (λ v. refl) (λ v. refl) mem b e.cache,
                    c.apart b,
                  );
                }
          | inr miss ↦
              rw (z, miss)
                record {
                  indexed = c.indexed;
                  valid = update_size-StoreIsValid mem newsize e.storage c.valid;
                  apart = λ b found.
                      ground (arith, stored-update_size mem newsize b e.storage c.valid, c.apart b);
                }
        ]
      ]

      -- A new size is recorded, whether the address is cached or stored; the time stays.
      pub live-do_hook_update_size :
          (newsize a : ℕ)
          → live ix m u law (do_hook_update_size ix m u mem newsize e) a
            ≡ resize_at mem newsize (live ix m u law e) a
      unfolding do_hook_update_size
      live-do_hook_update_size newsize a = ground (
        arith,
        find-modify ix (set_cached_size newsize) (λ v. refl) (λ v. refl) mem a e.cache,
        stored-update_size mem newsize a e.storage c.valid,
        c.apart mem,
      )
