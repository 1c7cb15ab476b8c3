-- ===== src/Prelude/Keyed.antt =====
-- Lists of values with a numeric key: finding, dropping and rewriting the value of a key.
use Prim.Native.Nat.{ℕ}
use mathlib.Core.Path.{◌≡◌, refl}
use mathlib.Core.List.{List, [], ◌∷◌, ◌++◌}
use mathlib.Core.Option.{Option, none, some}
use native.Mathlib.Omega.{arith}
use memhook.Prelude.Tests.{◌==◌, if◌then◌else◌, is_some}

module _ {V : Type 0} (key : V → ℕ) where
  -- The first value with the key.
  unfoldable pub find_key : ℕ → List V → Option V
  find_key k [] = none
  find_key k (v ∷ vs) = if key v == k then some v else find_key k vs

  -- The list without the first value of the key.
  unfoldable pub remove_key : ℕ → List V → List V
  remove_key k [] = []
  remove_key k (v ∷ vs) = if key v == k then vs else v ∷ remove_key k vs

  -- The list with the first value of the key rewritten.
  unfoldable pub modify_key : ℕ → (V → V) → List V → List V
  modify_key k f [] = []
  modify_key k f (v ∷ vs) = if key v == k then f v ∷ vs else v ∷ modify_key k f vs

  -- No two values have the same key.
  abbrev pub Distinct : List V → Type 0
  Distinct [] = Unit
  Distinct (v ∷ vs) = (find_key (key v) vs ≡ none) × Distinct vs

  pub find_key-append :
      (k : ℕ) (xs ys : List V)
      → find_key k (xs ++ ys) ≡ (if is_some (find_key k xs) then find_key k xs else find_key k ys)
  unfolding find_key
  find_key-append k [] ys = refl
  find_key-append k (x ∷ xs) ys = ground (arith, find_key-append k xs ys)

  pub key-find_key : (k : ℕ) (vs : List V) (v : V) → find_key k vs ≡ some v → key v ≡ k
  unfolding find_key
  key-find_key k [] v h = cc
  key-find_key k (w ∷ vs) v h = ground (arith, key-find_key k vs v)

  pub find_key-remove_key :
      (k j : ℕ) (vs : List V)
      → Distinct vs
      → find_key j (remove_key k vs) ≡ (if k == j then none else find_key j vs)
  unfolding find_key remove_key
  find_key-remove_key k j [] d = ground arith
  find_key-remove_key k j (v ∷ vs) (new, d) = ground (arith, find_key-remove_key k j vs d)

  pub Distinct-remove_key : (k : ℕ) (vs : List V) → Distinct vs → Distinct (remove_key k vs)
  unfolding remove_key
  Distinct-remove_key k [] d = d
  Distinct-remove_key k (v ∷ vs) (new, d) =
      ground (arith, Distinct-remove_key k vs d, find_key-remove_key k (key v) vs d)
