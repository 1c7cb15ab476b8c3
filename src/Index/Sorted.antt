-- ===== src/Index/Sorted.antt =====
-- Lists in order of time, with distinct addresses.
use mathlib.Core.Option
use memhook.Prelude.{
  ℕ, zero, suc, ◌≡◌, refl, none, some, List, [], ◌∷◌, ℤ, ◌≤ℤ◌, ltb_ℤ, ◌==◌, if◌then◌else◌, find_key,
  Distinct, remove_key, modify_key, drop, All, arith, take_while, length, Bool-cases, inl, inr,
}

module _ {V : Type 0} (timestamp : V → ℤ) where
  -- Behind every value of the same or an earlier time.
  unfoldable pub insert_time : V → List V → List V
  insert_time v [] = v ∷ []
  insert_time v (w ∷ ws) =
      if ltb_ℤ (timestamp v) (timestamp w) then v ∷ w ∷ ws else w ∷ insert_time v ws

  -- Each value is at least as old as those behind it.
  abbrev pub InOrder : List V → Type 0
  InOrder [] = Unit
  InOrder (v ∷ vs) = All (λ w. timestamp v ≤ℤ timestamp w) vs × InOrder vs

  All-insert_time :
      (P : V → Type 0) (v : V) (ws : List V) → P v → All P ws → All P (insert_time v ws)
  unfolding insert_time
  All-insert_time P v [] p h = (p, tt)
  All-insert_time P v (w ∷ ws) p h = ground (arith, All-insert_time P v ws p h.1)

  All-trans :
      (t u : ℤ) (ws : List V)
      → t ≤ℤ u
      → All (λ w. u ≤ℤ timestamp w) ws
      → All (λ w. t ≤ℤ timestamp w) ws
  All-trans t u [] h k = tt
  All-trans t u (w ∷ ws) h k = (omega arith, All-trans t u ws h k.1)

  pub insert_time-InOrder : (v : V) (ws : List V) → InOrder ws → InOrder (insert_time v ws)
  unfolding insert_time
  insert_time-InOrder v [] h = (tt, tt)
  insert_time-InOrder v (w ∷ ws) (old, h) = ground (
    arith,
    All-trans (timestamp v) (timestamp w) ws,
    insert_time-InOrder v ws h,
    All-insert_time (λ u. timestamp w ≤ℤ timestamp u) v ws,
  )

  pub drop-InOrder : (n : ℕ) (vs : List V) → InOrder vs → InOrder (drop n vs)
  drop-InOrder zero vs h = h
  drop-InOrder (suc n) [] h = tt
  drop-InOrder (suc n) (v ∷ vs) h = drop-InOrder n vs h.1

  -- What stands before a time in an ordered list is all that is older.
  pub All-drop-before :
      (t : ℤ) (vs : List V)
      → InOrder vs
      → All (λ w. t ≤ℤ timestamp w) (drop (length (take_while (λ v. ltb_ℤ (timestamp v) t) vs)) vs)
  All-drop-before t [] h = tt
  All-drop-before t (v ∷ vs) (later, h) = elim (Bool-cases (ltb_ℤ (timestamp v) t)) [
    | inl old ↦ rw old (All-drop-before t vs h)
    | inr new ↦ rw new (ground arith, All-trans t (timestamp v) vs (ground arith) later)
  ]

module _ {V : Type 0} (address : V → ℕ) (timestamp : V → ℤ) where
  pub find_key-insert_time :
      (k : ℕ) (v : V) (ws : List V)
      → find_key address (address v) ws ≡ none
      → find_key address k (insert_time timestamp v ws)
        ≡ (if address v == k then some v else find_key address k ws)
  unfolding find_key insert_time
  find_key-insert_time k v [] h = refl
  find_key-insert_time k v (w ∷ ws) h = ground (arith, find_key-insert_time k v ws)

  pub insert_time-Distinct :
      (v : V) (ws : List V)
      → find_key address (address v) ws ≡ none
      → Distinct address ws
      → Distinct address (insert_time timestamp v ws)
  unfolding find_key insert_time
  insert_time-Distinct v [] h d = (refl, tt)
  insert_time-Distinct v (w ∷ ws) h (new, d) =
      ground (arith, insert_time-Distinct v ws, find_key-insert_time (address w) v ws)

  All-remove_key :
      (P : V → Type 0) (k : ℕ) (vs : List V) → All P vs → All P (remove_key address k vs)
  unfolding remove_key
  All-remove_key P k [] h = tt
  All-remove_key P k (v ∷ vs) h = ground (arith, All-remove_key P k vs h.1)

  pub remove_key-InOrder :
      (k : ℕ) (vs : List V) → InOrder timestamp vs → InOrder timestamp (remove_key address k vs)
  unfolding remove_key
  remove_key-InOrder k [] h = tt
  remove_key-InOrder k (v ∷ vs) (old, h) =
      ground (
        arith,
        remove_key-InOrder k vs h,
        All-remove_key (λ w. timestamp v ≤ℤ timestamp w) k vs old,
      )

  module _ (f : V → V) (keeps_address : (v : V) → address (f v) ≡ address v)
      (keeps_time : (v : V) → timestamp (f v) ≡ timestamp v) where
    pub find_key-modify_key :
        (k j : ℕ) (vs : List V)
        → find_key address j (modify_key address k f vs)
          ≡ (if k == j then Option.map f (find_key address j vs) else find_key address j vs)
    unfolding find_key modify_key
    find_key-modify_key k j [] = ground arith
    find_key-modify_key k j (v ∷ vs) = ground (arith, keeps_address v, find_key-modify_key k j vs)

    pub modify_key-Distinct :
        (k : ℕ) (vs : List V) → Distinct address vs → Distinct address (modify_key address k f vs)
    unfolding modify_key
    modify_key-Distinct k [] d = tt
    modify_key-Distinct k (v ∷ vs) (new, d) =
        ground
          (arith, keeps_address v, modify_key-Distinct k vs d, find_key-modify_key k (address v) vs)

    All-modify_key :
        (t : ℤ) (k : ℕ) (vs : List V)
        → All (λ w. t ≤ℤ timestamp w) vs
        → All (λ w. t ≤ℤ timestamp w) (modify_key address k f vs)
    unfolding modify_key
    All-modify_key t k [] h = tt
    All-modify_key t k (v ∷ vs) h = ground (arith, keeps_time v, All-modify_key t k vs h.1)

    pub modify_key-InOrder :
        (k : ℕ) (vs : List V) → InOrder timestamp vs → InOrder timestamp (modify_key address k f vs)
    unfolding modify_key
    modify_key-InOrder k [] d = tt
    modify_key-InOrder k (v ∷ vs) (old, d) = elim (Bool-cases (address v == k)) [
      | inl e ↦ rw (e, keeps_time v) (old, d)
      | inr e ↦ rw e (All-modify_key (timestamp v) k vs old, modify_key-InOrder k vs d)
    ]
