-- ===== src/Engine/Tracking.antt =====
-- What the engine of src/memhook/engine.cpp knows of an address: its cache, and behind it the
-- storage.
use mathlib.Core.Path.{subst, sym}
use memhook.Prelude.{
  ℕ, zero, suc, ℤ, ◌≡◌, refl, ◌∙◌, ap, ◌==◌, Bool, true, Option, none, some, is_some, List,
  if◌then◌else◌, find_key, take, arith, Bool-cases, Option-cases, inl, inr,
}
use memhook.Index.{TimeIndex}
use memhook.Index.Laws.{IsIndexed, erase_first-IsIndexed, find_key-drop}
use memhook.Storage.{MappedStorage, Contract, Entry}
use memhook.Engine.{
  CachedTrace, cached_address, cached_timestamp, Unwinder, Engine, Flushed, flush_loop, flush_range,
  flush_into, flush_local_cache,
}
use memhook.Engine.Flush.{
  overlay, find_key-take-some, taken, taken-le, count-flush_loop, flush_loop-IsValid,
  lookup-flush_loop, IsFront, take_while-IsFront, all-IsFront, take-front, front-Distinct,
  find_key-front,
}

module _ (ix : TimeIndex CachedTrace cached_address cached_timestamp) (m : MappedStorage)
    (u : Unwinder) {IsValid : m.Store → Type 0} {lookup : ℕ → m.Store → Option Entry}
    (law : Contract m IsValid lookup) where
  abbrev pub stored : ℕ → Option m.Store → Option Entry
  stored a none = none
  stored a (some s) = lookup a s

  abbrev pub StoreIsValid : Option m.Store → Type 0
  StoreIsValid none = Unit
  StoreIsValid (some s) = IsValid s

  -- The entry of an address, if an allocation at it is known.
  abbrev pub tracked : ℕ → Engine ix m u → Option Entry
  tracked a e = overlay (ix.find a e.cache) (stored a e.storage)

  -- No address is both cached and stored.
  pub record IsConsistent (e : Engine ix m u) : Type 0 where
    pub indexed : IsIndexed ix e.cache
    pub valid : StoreIsValid e.storage
    pub apart : (a : ℕ) → is_some (ix.find a e.cache) ≡ true → stored a e.storage ≡ none

  -- The cache and the storage after a flush: `n` values leave the one for the other.
  pub record Moved (n : ℕ) (store : m.Store) (e e' : Engine ix m u) : Type 0 where
    pub cache : e'.cache ≡ (if n == 0 then e.cache else ix.erase_first n e.cache)
    pub valid : StoreIsValid e'.storage
    pub stores :
        (a : ℕ)
        → stored a e'.storage
          ≡ overlay (find_key cached_address a (take n (ix.items e.cache))) (lookup a store)

  module _ {store : m.Store} {e e' : Engine ix m u} (c : IsConsistent e) where
    find-Moved :
        (n a : ℕ)
        → Moved n store e e'
        → ix.find a e'.cache ≡ (
            if is_some (find_key cached_address a (take n (ix.items e.cache)))
            then none
            else ix.find a e.cache)
    find-Moved zero a h = unfold find_key in ap (ix.find a) h.cache
    find-Moved (suc n) a h =
        let erased : ix.find a e'.cache ≡ ix.find a (ix.erase_first (suc n) e.cache) =
          ground (arith, h.cache) in
        erased
        ∙ rw
            (
              ix.find-items a (ix.erase_first (suc n) e.cache),
              ix.items-erase_first (suc n) e.cache,
              ix.find-items a e.cache,
            )
            (find_key-drop cached_address (suc n) a (ix.items e.cache) c.indexed.distinct)

    tracked-Moved :
        (n a : ℕ) → e.storage ≡ some store → Moved n store e e' → tracked a e' ≡ tracked a e
    tracked-Moved n a held h =
        elim (Option-cases (find_key cached_address a (take n (ix.items e.cache)))) [
          | inl out ↦ ground (arith, find-Moved n a h, h.stores a, ap (stored a) held)
          | inr (v, o) ↦ ground (
            arith,
            find-Moved n a h,
            h.stores a,
            ix.find-items a e.cache,
            find_key-take-some n a (ix.items e.cache) v o,
          )
        ]

    Moved-IsConsistent : (n : ℕ) → e.storage ≡ some store → Moved n store e e' → IsConsistent e'
    Moved-IsConsistent n held h = record {
      indexed = subst (IsIndexed ix) (sym h.cache) (elim (Bool-cases (n == 0)) [
        | inl z ↦ rw z c.indexed
        | inr z ↦ rw z (erase_first-IsIndexed ix n e.cache c.indexed)
      ]);
      valid = h.valid;
      apart =
          λ b found. ground (arith, find-Moved n b h, h.stores b, ap (stored b) held, c.apart b);
    }

  module _ (now timeout : ℤ) (dump_all : Bool) where
    pub range-IsFront :
        (e : Engine ix m u) → IsFront (flush_range ix m u now timeout dump_all e) (ix.items e.cache)
    unfolding flush_range
    range-IsFront e = elim (Bool-cases dump_all) [
      | inl all ↦ rw all (all-IsFront (ix.items e.cache))
      | inr old ↦ rw (old, ix.before-items) (take_while-IsFront _ (ix.items e.cache))
    ]

    abbrev pub moved : Engine ix m u → ℕ
    moved e = taken dump_all e.cache_flush_max_items 0 (flush_range ix m u now timeout dump_all e)

    pub flush_into-Moved :
        (store : m.Store) (e : Engine ix m u)
        → e.storage ≡ some store
        → IsConsistent e
        → Moved (moved e) store e (flush_into ix m u now timeout dump_all store e)
    unfolding flush_into
    flush_into-Moved store e held c = record {
      cache = rw cnt refl;
      valid = elim (Bool-cases (f.count == 0)) [
        | inl z ↦ rw z store_valid
        | inr z ↦ rw z (law.flush-IsValid f.store store_valid)
      ];
      stores = λ a. elim (Bool-cases (f.count == 0)) [
        | inl z ↦ rw z (store_lookup a)
        | inr z ↦ rw z (law.lookup-flush a f.store store_valid ∙ store_lookup a)
      ];
    }
      where
        range : List CachedTrace
        range = flush_range ix m u now timeout dump_all e

        start : Flushed ix m u
        start = record { count = 0; store = store; caches = e.unwinder }

        f : Flushed ix m u
        f = flush_loop ix m u e.getprocinfo_policy dump_all e.cache_flush_max_items range start

        front : IsFront range (ix.items e.cache)
        front = range-IsFront e

        cnt : f.count ≡ moved e
        cnt = omega (
          arith,
          count-flush_loop ix m u law e.getprocinfo_policy dump_all e.cache_flush_max_items range
              start,
        )

        store_valid : IsValid f.store
        store_valid =
            flush_loop-IsValid ix m u law e.getprocinfo_policy dump_all e.cache_flush_max_items
              range start (subst StoreIsValid held c.valid)

        outside : (b : ℕ) → is_some (find_key cached_address b range) ≡ true → lookup b store ≡ none
        outside b found =
            subst (λ o. stored b o ≡ none) held
              (c.apart b (rw (ix.find-items b e.cache) (find_key-front front b found)))

        store_lookup :
            (a : ℕ)
            → lookup a f.store
              ≡ overlay
                  (find_key cached_address a (take (moved e) (ix.items e.cache)))
                  (lookup a store)
        store_lookup a =
            lookup-flush_loop ix m u law e.getprocinfo_policy dump_all e.cache_flush_max_items range
              start a (subst StoreIsValid held c.valid) (front-Distinct front c.indexed.distinct)
              outside
            ∙ ap (λ vs. overlay (find_key cached_address a vs) (lookup a store))
                (take-front front (moved e) (taken-le dump_all e.cache_flush_max_items 0 range))

    pub flush-none :
        (e : Engine ix m u) → e.storage ≡ none → flush_local_cache ix m u now timeout dump_all e ≡ e
    unfolding flush_local_cache
    flush-none e absent = λ i. elim (absent i) [
      | none ↦ e
      | some store ↦ flush_into ix m u now timeout dump_all store e
    ]

    pub flush-some :
        (e : Engine ix m u) (store : m.Store)
        → e.storage ≡ some store
        → flush_local_cache ix m u now timeout dump_all e
          ≡ flush_into ix m u now timeout dump_all store e
    unfolding flush_local_cache
    flush-some e store held = λ i. elim (held i) [
      | none ↦ e
      | some store ↦ flush_into ix m u now timeout dump_all store e
    ]

    -- A flush of a consistent engine moves records, and what is known of each address stays the
    -- same.
    pub tracked-flush :
        (e : Engine ix m u) (a : ℕ)
        → IsConsistent e
        → tracked a (flush_local_cache ix m u now timeout dump_all e) ≡ tracked a e
    tracked-flush e a c = elim (Option-cases e.storage) [
      | inl absent ↦ ap (tracked a) (flush-none e absent)
      | inr (store, held) ↦
          ap (tracked a) (flush-some e store held)
          ∙ tracked-Moved c (moved e) a held (flush_into-Moved store e held c)
    ]

    pub flush-IsConsistent :
        (e : Engine ix m u)
        → IsConsistent e
        → IsConsistent (flush_local_cache ix m u now timeout dump_all e)
    flush-IsConsistent e c = elim (Option-cases e.storage) [
      | inl absent ↦ subst IsConsistent (sym (flush-none e absent)) c
      | inr (store, held) ↦
          subst IsConsistent (sym (flush-some e store held))
            (Moved-IsConsistent c (moved e) held (flush_into-Moved store e held c))
    ]
