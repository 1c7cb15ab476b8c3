-- ===== src/Engine/Flush.antt =====
-- `FlushLocalCache` of src/memhook/engine.cpp: what its loop moves to the storage.
use mathlib.Core.Path.{subst, sym}
use memhook.Prelude.{
  ℕ, zero, suc, ◌+◌, ◌≤◌, ◌<◌, ◌≡◌, refl, ◌==◌, Bool, true, false, ◌||◌, Option, none, some,
  is_some, List, [], ◌∷◌, ltb, if◌then◌else◌, find_key, Distinct, length, take, take_while,
  take_all, arith, Bool-cases, inl, inr, ap,
}
use memhook.Index.{TimeIndex}
use memhook.Storage.{MappedStorage, Contract, Entry}
use memhook.Engine.{
  CachedTrace, cached_address, cached_timestamp, Unwinder, Policy, Flushed, flush_one, flush_loop,
}

abbrev pub cached_entry : CachedTrace → Entry
cached_entry v = (v.base.memsize, v.base.timestamp)

-- A cached record hides what the storage says of its address.
abbrev pub overlay : Option CachedTrace → Option Entry → Option Entry
overlay none entry = entry
overlay (some v) entry = some (cached_entry v)

pub find_key-take :
    (k a : ℕ) (vs : List CachedTrace)
    → find_key cached_address a vs ≡ none
    → find_key cached_address a (take k vs) ≡ none
unfolding find_key
find_key-take zero a vs h = refl
find_key-take (suc k) a [] h = refl
find_key-take (suc k) a (v ∷ vs) h = ground (arith, find_key-take k a vs)

pub find_key-take-some :
    (k a : ℕ) (vs : List CachedTrace) (w : CachedTrace)
    → find_key cached_address a (take k vs) ≡ some w
    → find_key cached_address a vs ≡ some w
unfolding find_key
find_key-take-some zero a vs w h = cc
find_key-take-some (suc k) a [] w h = cc
find_key-take-some (suc k) a (v ∷ vs) w h = ground (arith, find_key-take-some k a vs w)

-- How many values of the range the loop takes, when `n` are taken already.
unfoldable pub taken : Bool → ℕ → ℕ → List CachedTrace → ℕ
taken dump_all max_items n [] = 0
taken dump_all max_items n (v ∷ vs) =
    if dump_all || ltb n max_items then suc (taken dump_all max_items (n + 1) vs) else 0

pub taken-le : (d : Bool) (max n : ℕ) (vs : List CachedTrace) → taken d max n vs ≤ length vs
unfolding taken
taken-le d max n [] = omega arith
taken-le d max n (v ∷ vs) = ground (arith, taken-le d max (n + 1) vs)

pub taken-le-max : (max n : ℕ) (vs : List CachedTrace) → n ≤ max → n + taken false max n vs ≤ max
unfolding taken
taken-le-max max n [] h = omega arith
taken-le-max max n (v ∷ vs) h = ground (arith, taken-le-max max (n + 1) vs)

pub taken_all : (max n : ℕ) (vs : List CachedTrace) → taken true max n vs ≡ length vs
unfolding taken
taken_all max n [] = refl
taken_all max n (v ∷ vs) = ap suc (taken_all max (n + 1) vs)

-- Short of the limit the loop takes the whole range.
pub taken_short :
    (max n : ℕ) (vs : List CachedTrace)
    → n + taken false max n vs < max
    → taken false max n vs ≡ length vs
unfolding taken
taken_short max n [] h = refl
taken_short max n (v ∷ vs) h = ground (arith, taken_short max (n + 1) vs)

take-take_while {ℓ} :
    {A : Type ℓ} (p : A → Bool) (xs : List A) → take_while p xs ≡ take (length (take_while p xs)) xs
take-take_while p [] = refl
take-take_while p (x ∷ xs) = elim (Bool-cases (p x)) [
  | inl e ↦ rw e (ap (◌∷◌ x) (take-take_while p xs))
  | inr e ↦ rw e
]

take-take {ℓ} : {A : Type ℓ} (k n : ℕ) (xs : List A) → k ≤ n → take k (take n xs) ≡ take k xs
take-take zero n xs h = refl
take-take (suc k) zero xs h = absurd (omega arith)
take-take (suc k) (suc n) [] h = refl
take-take (suc k) (suc n) (x ∷ xs) h = ap (◌∷◌ x) (take-take k n xs (omega arith))

take-Distinct :
    (n : ℕ) (vs : List CachedTrace)
    → Distinct cached_address vs
    → Distinct cached_address (take n vs)
take-Distinct zero vs d = tt
take-Distinct (suc n) [] d = tt
take-Distinct (suc n) (v ∷ vs) (new, d) =
    (find_key-take n (cached_address v) vs new, take-Distinct n vs d)

-- A range of the time index that begins at its first value.
pub record IsFront (vs all : List CachedTrace) : Type 0 where
  pub front : vs ≡ take (length vs) all

pub take_while-IsFront :
    (p : CachedTrace → Bool) (all : List CachedTrace) → IsFront (take_while p all) all
take_while-IsFront p all = record { front = take-take_while p all }

pub all-IsFront : (all : List CachedTrace) → IsFront all all
all-IsFront all = record { front = sym (take_all (length all) all (omega arith)) }

module _ {vs all : List CachedTrace} (f : IsFront vs all) where
  pub take-front : (k : ℕ) → k ≤ length vs → take k vs ≡ take k all
  take-front k h =
      subst (λ xs. take k xs ≡ take k all) (sym f.front) (take-take k (length vs) all h)

  pub front-Distinct : Distinct cached_address all → Distinct cached_address vs
  front-Distinct d = subst (Distinct cached_address) (sym f.front) (take-Distinct (length vs) all d)

  pub find_key-front :
      (a : ℕ)
      → is_some (find_key cached_address a vs) ≡ true
      → is_some (find_key cached_address a all) ≡ true
  find_key-front a h = elim (Bool-cases (is_some (find_key cached_address a all))) [
    | inl e ↦ e
    | inr e ↦
        let out : find_key cached_address a vs ≡ none =
          subst (λ xs. find_key cached_address a xs ≡ none) (sym f.front)
            (find_key-take (length vs) a all (ground arith)) in
        absurd (ground arith)
  ]

module _ (ix : TimeIndex CachedTrace cached_address cached_timestamp) (m : MappedStorage)
    (u : Unwinder) {IsValid : m.Store → Type 0} {lookup : ℕ → m.Store → Option Entry}
    (law : Contract m IsValid lookup) (policy : Policy) (dump_all : Bool) (max_items : ℕ) where
  abbrev loop : List CachedTrace → Flushed ix m u → Flushed ix m u
  loop = flush_loop ix m u policy dump_all max_items

  pub count-flush_loop :
      (vs : List CachedTrace) (f : Flushed ix m u)
      → (loop vs f).count ≡ f.count + taken dump_all max_items f.count vs
  unfolding flush_loop flush_one taken
  count-flush_loop [] f = omega arith
  count-flush_loop (v ∷ vs) f = ground (arith, count-flush_loop vs (flush_one ix m u policy v f))

  flush_one-IsValid :
      (v : CachedTrace) (f : Flushed ix m u)
      → IsValid f.store
      → IsValid (flush_one ix m u policy v f).store
  unfolding flush_one
  flush_one-IsValid v f h = law.add-IsValid _ _ _ _ f.store h

  count-flush_one :
      (v : CachedTrace) (f : Flushed ix m u) → (flush_one ix m u policy v f).count ≡ f.count + 1
  unfolding flush_one
  count-flush_one v f = refl

  lookup-flush_one :
      (v : CachedTrace) (f : Flushed ix m u) (a : ℕ)
      → IsValid f.store
      → lookup v.base.address f.store ≡ none
      → lookup a (flush_one ix m u policy v f).store
        ≡ (if v.base.address == a then some (cached_entry v) else lookup a f.store)
  unfolding flush_one
  lookup-flush_one v f a h new = rw (law.lookup-add _ _ _ _ a f.store h, new)

  pub flush_loop-IsValid :
      (vs : List CachedTrace) (f : Flushed ix m u) → IsValid f.store → IsValid (loop vs f).store
  unfolding flush_loop
  flush_loop-IsValid [] f h = h
  flush_loop-IsValid (v ∷ vs) f h = elim (Bool-cases (dump_all || ltb f.count max_items)) [
    | inl e ↦ rw e (flush_loop-IsValid vs (flush_one ix m u policy v f) (flush_one-IsValid v f h))
    | inr e ↦ rw e h
  ]

  abbrev Records : List CachedTrace → Type 0
  Records vs =
      (f : Flushed ix m u) (a : ℕ)
      → IsValid f.store
      → Distinct cached_address vs
      → ((b : ℕ) → is_some (find_key cached_address b vs) ≡ true → lookup b f.store ≡ none)
      → lookup a (loop vs f).store
        ≡ overlay (find_key cached_address a (take (taken dump_all max_items f.count vs) vs))
            (lookup a f.store)

  Records-cons : (v : CachedTrace) (vs : List CachedTrace) → Records vs → Records (v ∷ vs)
  unfolding flush_loop taken find_key
  Records-cons v vs rest f a h (new, d) apart =
      elim (Bool-cases (dump_all || ltb f.count max_items)) [
        | inr e ↦ rw e
        | inl e ↦ rw e (
            ground (
              arith,
              ih,
              lookup-flush_one v f a h fresh,
              find_key-take (taken dump_all max_items (f.count + 1) vs) a vs,
            ))
      ]
    where
      fresh : lookup v.base.address f.store ≡ none
      fresh = apart v.base.address (ground arith)

      ih :
          lookup a (loop vs (flush_one ix m u policy v f)).store
          ≡ overlay
              (find_key cached_address a (take (taken dump_all max_items (f.count + 1) vs) vs))
              (lookup a (flush_one ix m u policy v f).store)
      ih =
          subst
            (λ n.
              lookup a (loop vs (flush_one ix m u policy v f)).store
              ≡ overlay (find_key cached_address a (take (taken dump_all max_items n vs) vs))
                  (lookup a (flush_one ix m u policy v f).store))
            (count-flush_one v f)
            (rest (flush_one ix m u policy v f) a (flush_one-IsValid v f h) d
              (λ b found. ground (arith, lookup-flush_one v f b h fresh, apart b)))

  -- The storage records what the loop takes, and keeps what it had.
  pub lookup-flush_loop : (vs : List CachedTrace) → Records vs
  unfolding flush_loop taken find_key
  lookup-flush_loop [] = λ f a h d apart. refl
  lookup-flush_loop (v ∷ vs) = Records-cons v vs (lookup-flush_loop vs)
