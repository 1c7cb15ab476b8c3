-- ===== src/Storage/UniquePath.antt =====
-- `FileBasedMappedStorageCreatorMixin::GenerateUniquePath` of
-- src/memhookcore/file_based_mapped_storage_helpers.cpp. A path is its text; what boost::filesystem
-- and boost::lexical_cast answer are parameters.
use mathlib.Core.Path.{subst}
use memhook.Prelude.{
  ℕ, zero, suc, ◌+◌, ◌==◌, ◌≡◌, refl, ◌⊎◌, Bool, true, false, Option, none, some, List, [], ◌∷◌,
  ◌++◌, if◌then◌else◌, arith, Bool-cases, inl, inr, All,
}

pub record FileSystem : Type 0 where
  pub exists : List ℕ → Bool
  -- The extension of a path with its dot, and the path without it.
  pub extension : List ℕ → List ℕ
  pub parent_and_stem : List ℕ → List ℕ
  pub decimal : ℕ → List ℕ
  pub getpid : ℕ

abbrev pub dot : ℕ
dot = 46

module _ (fs : FileSystem) where
  -- `unique_path_base`
  abbrev pub unique_path_base : List ℕ → ℕ → List ℕ
  unique_path_base original guide =
      fs.parent_and_stem original ++ (dot ∷ fs.decimal (if guide == 0 then fs.getpid else guide))

  -- The loop from a counter and a `num_extension` on; `none` is the end of the fuel.
  unfoldable pub unique_loop : ℕ → List ℕ → List ℕ → ℕ → List ℕ → Option (List ℕ)
  unique_loop zero base ext i num = none
  unique_loop (suc fuel) base ext i num =
      let rest = unique_loop fuel base ext (i + 1) (dot ∷ fs.decimal i) in
      if fs.exists (base ++ (num ++ ext)) then rest else some (base ++ (num ++ ext))

  unfoldable pub generate_unique_path : ℕ → List ℕ → ℕ → Option (List ℕ)
  generate_unique_path fuel original guide =
      if fs.exists original
      then unique_loop fuel (unique_path_base original guide) (fs.extension original) 0 []
      else some original

  -- The paths that are tried: the first without a number, and then those with 0, 1 and so on.
  abbrev pub number : ℕ → List ℕ
  number zero = []
  number (suc k) = dot ∷ fs.decimal k

  abbrev pub candidate : List ℕ → ℕ → ℕ → List ℕ
  candidate original guide k =
      unique_path_base original guide ++ (number k ++ fs.extension original)

  -- The candidates before one.
  abbrev pub before : List ℕ → ℕ → ℕ → List (List ℕ)
  before original guide zero = []
  before original guide (suc k) = candidate original guide k ∷ before original guide k

  abbrev pub IsTaken : List ℕ → Type 0
  IsTaken p = fs.exists p ≡ true

  zero_add : {k : ℕ} → 0 + k ≡ k
  zero_add = omega arith

  unique_loop_first :
      (original : List ℕ) (guide i n : ℕ)
      → fs.exists (candidate original guide (i + n)) ≡ false
      → All IsTaken (before original guide i)
      → (j : ℕ) × (unique_loop
            (suc n)
            (unique_path_base original guide)
            (fs.extension original)
            i
            (number i)
          ≡ some (candidate original guide j))
        × (fs.exists (candidate original guide j) ≡ false)
        × All IsTaken (before original guide j)
  unfolding unique_loop
  unique_loop_first original guide i zero free taken =
      let same : i + 0 ≡ i = omega arith in
      let here : fs.exists (candidate original guide i) ≡ false =
        subst (λ k. fs.exists (candidate original guide k) ≡ false) same free in
      (i, rw here refl, here, taken)
  unique_loop_first original guide i (suc n) free taken =
      elim (Bool-cases (fs.exists (candidate original guide i))) [
        | inr here ↦ (i, rw here refl, here, taken)
        | inl used ↦
            let next : i + 1 ≡ suc i = omega arith in
            let later : i + suc n ≡ suc i + n = omega arith in
            let free' = subst (λ k. fs.exists (candidate original guide k) ≡ false) later free in
            rw (used, next) (unique_loop_first original guide (suc i) n free' (used, taken))
      ]

  -- When one of the paths that are tried does not exist, as many rounds as it takes to come to it
  -- are enough: the answer is the original path if that does not exist, and else the first of the
  -- candidates that does not exist.
  pub generate_unique_path_first :
      (original : List ℕ) (guide k : ℕ)
      → fs.exists (candidate original guide k) ≡ false
      → (p : List ℕ) × (generate_unique_path (suc k) original guide ≡ some p)
        × (fs.exists p ≡ false)
        × (((fs.exists original ≡ false) × (p ≡ original))
            ⊎ ((fs.exists original ≡ true)
                × (j : ℕ) × (p ≡ candidate original guide j)
                × All IsTaken (before original guide j)))
  unfolding generate_unique_path
  generate_unique_path_first original guide k free = elim (Bool-cases (fs.exists original)) [
    | inr new ↦ (original, rw new refl, new, inl (new, refl))
    | inl old ↦
        let (j, found, absent, taken) =
          unique_loop_first original guide 0 k (rw zero_add free) tt in
        (candidate original guide j, rw old found, absent, inr (old, j, refl, taken))
  ]
