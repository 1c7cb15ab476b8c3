-- ===== src/Engine/Limits.antt =====
-- How far a flush of src/memhook/engine.cpp goes, and what the last flush leaves.
use mathlib.Core.Path.{subst, sym}
use memhook.Prelude.{
  ℕ, zero, suc, ◌≤◌, ◌<◌, ℤ, ◌-ℤ◌, ◌≤ℤ◌, ltb_ℤ, ◌≡◌, refl, ◌∙◌, ap, Bool, true, false, Option, some,
  List, [], ◌∷◌, find_key, drop, length, All, arith, take_while,
}
use memhook.Index.{TimeIndex}
use memhook.Index.Sorted.{All-drop-before}
use memhook.Storage.{MappedStorage, Contract, Entry}
use memhook.Engine.{
  CachedTrace, cached_address, cached_timestamp, Unwinder, Engine, flush_range, flush_local_cache,
  on_destroy,
}
use memhook.Engine.Flush.{overlay, taken-le-max, taken_short, taken_all}
use memhook.Engine.Tracking.{
  IsConsistent, stored, tracked, tracked-flush, Moved, moved, flush_into-Moved, flush-some,
}

module _ (ix : TimeIndex CachedTrace cached_address cached_timestamp) (m : MappedStorage)
    (u : Unwinder) {IsValid : m.Store → Type 0} {lookup : ℕ → m.Store → Option Entry}
    (law : Contract m IsValid lookup) where
  drop_all {ℓ} : {A : Type ℓ} (xs : List A) → drop (length xs) xs ≡ []
  drop_all [] = refl
  drop_all (x ∷ xs) = drop_all xs

  items-Moved :
      (n : ℕ) (store : m.Store) (e e' : Engine ix m u)
      → Moved ix m u law n store e e'
      → ix.items e'.cache ≡ drop n (ix.items e.cache)
  items-Moved zero store e e' h = ap ix.items (ground (arith, h.cache))
  items-Moved (suc n) store e e' h =
      ap ix.items (ground (arith, h.cache)) ∙ ix.items-erase_first (suc n) e.cache

  module _ (now timeout : ℤ) (store : m.Store) (e : Engine ix m u) (held : e.storage ≡ some store)
      (c : IsConsistent ix m u law e) where
    items-flush :
        (dump_all : Bool)
        → ix.items (flush_local_cache ix m u now timeout dump_all e).cache
          ≡ drop (moved ix m u law now timeout dump_all e) (ix.items e.cache)
    items-flush dump_all =
        ap (λ e'. ix.items e'.cache) (flush-some ix m u law now timeout dump_all e store held)
        ∙ items-Moved _ store e _ (flush_into-Moved ix m u law now timeout dump_all store e held c)

    range_old :
        flush_range ix m u now timeout false e
        ≡ take_while (λ v. ltb_ℤ (cached_timestamp v) (now -ℤ timeout)) (ix.items e.cache)
    unfolding flush_range
    range_old = ix.before-items (now -ℤ timeout) e.cache

    moved-le : moved ix m u law now timeout false e ≤ e.cache_flush_max_items
    moved-le = omega (
      arith,
      taken-le-max e.cache_flush_max_items 0 (flush_range ix m u now timeout false e) (omega arith),
    )

    moved_short :
        moved ix m u law now timeout false e < e.cache_flush_max_items
        → moved ix m u law now timeout false e ≡ length (flush_range ix m u now timeout false e)
    moved_short short =
        taken_short e.cache_flush_max_items 0 (flush_range ix m u now timeout false e)
          (omega (arith, short))

    drop-range_old :
        All
          (λ v. now -ℤ timeout ≤ℤ cached_timestamp v)
          (drop (length (flush_range ix m u now timeout false e)) (ix.items e.cache))
    drop-range_old =
        subst
          (λ vs.
            All (λ v. now -ℤ timeout ≤ℤ cached_timestamp v) (drop (length vs) (ix.items e.cache)))
          (sym range_old)
          (All-drop-before cached_timestamp (now -ℤ timeout) (ix.items e.cache) c.indexed.order)

    -- An ordinary flush of a consistent engine with a storage takes records from the front of the
    -- time index, as many as the limit allows at most; short of the limit, no record older than the
    -- timeout stays behind.
    pub flush_limits :
        (n : ℕ) × (ix.items (flush_local_cache ix m u now timeout false e).cache
          ≡ drop n (ix.items e.cache))
        × (n ≤ e.cache_flush_max_items)
        × (n < e.cache_flush_max_items
            → All
                (λ v. now -ℤ timeout ≤ℤ cached_timestamp v)
                (ix.items (flush_local_cache ix m u now timeout false e).cache))
    flush_limits = (
      moved ix m u law now timeout false e,
      items-flush false,
      moved-le,
      λ short. subst (All (λ v. now -ℤ timeout ≤ℤ cached_timestamp v)) (sym (items-flush false)) (
          subst (λ n. All (λ v. now -ℤ timeout ≤ℤ cached_timestamp v) (drop n (ix.items e.cache)))
            (sym (moved_short short)) drop-range_old),
    )

    flush_range_all : flush_range ix m u now timeout true e ≡ ix.items e.cache
    unfolding flush_range
    flush_range_all = refl

    pub items-flush_all : ix.items (flush_local_cache ix m u now timeout true e).cache ≡ []
    items-flush_all =
        items-flush true
        ∙ ap (λ n. drop n (ix.items e.cache))
            (taken_all e.cache_flush_max_items 0 (flush_range ix m u now timeout true e)
              ∙ ap length flush_range_all)
        ∙ drop_all (ix.items e.cache)

  -- When a consistent engine with a storage is destroyed everything that it knows is in the
  -- storage, and its cache is empty.
  pub stored-on_destroy :
      (now : ℤ) (store : m.Store) (e : Engine ix m u)
      → e.storage ≡ some store
      → IsConsistent ix m u law e
      → (ix.items (on_destroy ix m u now e).1.cache ≡ [])
        × ((a : ℕ) → stored ix m u law a (on_destroy ix m u now e).0 ≡ tracked ix m u law a e)
  unfolding on_destroy find_key
  stored-on_destroy now store e held c = (empty, all)
    where
      e' : Engine ix m u
      e' = flush_local_cache ix m u now (ℤ.pos 0) true e

      empty : ix.items e'.cache ≡ []
      empty = items-flush_all now (ℤ.pos 0) store e held c

      all : (a : ℕ) → stored ix m u law a e'.storage ≡ tracked ix m u law a e
      all a =
          ap (λ o. overlay o (stored ix m u law a e'.storage))
            (sym (ix.find-items a e'.cache ∙ ap (find_key cached_address a) empty))
          ∙ tracked-flush ix m u law now (ℤ.pos 0) true e a c
