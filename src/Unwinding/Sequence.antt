-- ===== src/Unwinding/Sequence.antt =====
-- Lists of values with a numeric key under the operations of a sequence: an element leaves or goes
-- to the end. For the cache of src/memhook/callstack_unwinder.cpp.
use mathlib.Core.Path.{subst}
use memhook.Prelude.{
  ℕ, ◌≡◌, refl, ◌+◌, ◌==◌, ==_iff, inl, inr, none, some, List, [], ◌∷◌, ◌++◌, length, All, arith,
  find_key, remove_key, find_key-append, Distinct, Bool-cases,
}

module _ {V : Type 0} (key : V → ℕ) where
  pub All-append : (P : V → Type 0) (xs : List V) (v : V) → All P xs → P v → All P (xs ++ v ∷ [])
  All-append P [] v h p = (p, tt)
  All-append P (x ∷ xs) v (h, hs) p = (h, All-append P xs v hs p)

  pub All-remove_key :
      (P : V → Type 0) (k : ℕ) (xs : List V) → All P xs → All P (remove_key key k xs)
  unfolding remove_key
  All-remove_key P k [] h = h
  All-remove_key P k (x ∷ xs) (h, hs) = ground (arith, All-remove_key P k xs hs)

  pub All-find_key :
      (P : V → Type 0) (k : ℕ) (xs : List V) (v : V) → All P xs → find_key key k xs ≡ some v → P v
  unfolding find_key
  All-find_key P k [] v h e = absurd (ground arith)
  All-find_key P k (x ∷ xs) v (h, hs) e = elim (Bool-cases (key x == k)) [
    | inl hit ↦ let same : x ≡ v = ground arith in subst P same h
    | inr other ↦ All-find_key P k xs v hs (ground arith)
  ]

  pub length-remove_key :
      (k : ℕ) (xs : List V) (v : V)
      → find_key key k xs ≡ some v
      → length (remove_key key k xs) + 1 ≡ length xs
  unfolding find_key remove_key
  length-remove_key k [] v e = cc
  length-remove_key k (x ∷ xs) v e = ground (arith, length-remove_key k xs v)

  pub Distinct-append :
      (xs : List V) (v : V)
      → Distinct key xs
      → find_key key (key v) xs ≡ none
      → Distinct key (xs ++ v ∷ [])
  unfolding find_key
  Distinct-append [] v d new = (refl, tt)
  Distinct-append (x ∷ xs) v (d, ds) new = (
    ground (
      arith,
      find_key-append key (key x) xs (v ∷ []),
      ==_iff (key v) (key x),
      ==_iff (key x) (key v),
    ),
    Distinct-append xs v ds (ground arith),
  )
