-- ===== src/Glibc/Chains.antt =====
-- What a search in the hash table of one library finds: `GLIBC_check_match` and the chains of
-- `GLIBC_do_lookup` in src/memhook/glibc.cpp.
use memhook.Prelude.{
  ℕ, zero, suc, ◌+◌, ◌/◌, ◌%◌, ◌≤◌, ◌<◌, ◌≡◌, ◌≢◌, refl, ◌==◌, ==_iff, Bool, true, false, ◌&&◌,
  Option, none, some, List, [], ◌∷◌, length, if◌then◌else◌, arith,
}
use Prim.Native.Nat.{bit_xor}
use memhook.Glibc.{LinkMap, l_chain, Image}
use memhook.Glibc.Bits.{bit_and-one}
use memhook.Glibc.Lookup.{
  sym_address, stt_func, equal_names, check_match, gnu_chain_loop, chain_loop,
}

abbrev pub name_of : Image → LinkMap → ℕ → List ℕ
name_of im map symidx = im.string_at (map.strtab + (im.sym_at (sym_address map symidx)).st_name)

-- A function with a value and the name that is looked for.
abbrev pub IsMatch : Image → List ℕ → LinkMap → ℕ → Type 0
IsMatch im name map symidx =
    (name_of im map symidx ≡ name)
    × ((im.sym_at (sym_address map symidx)).st_type ≡ stt_func)
    × ((im.sym_at (sym_address map symidx)).st_value ≢ 0)

equal_names_sound : (xs ys : List ℕ) → equal_names xs ys ≡ true → xs ≡ ys
equal_names_sound [] [] h = refl
equal_names_sound [] (y ∷ ys) h = absurd (ground arith)
equal_names_sound (x ∷ xs) [] h = absurd (ground arith)
equal_names_sound (x ∷ xs) (y ∷ ys) h = ground (arith, equal_names_sound xs ys, ==_iff x y)

pub check_match-IsMatch :
    (im : Image) (name : List ℕ) (map : LinkMap) (symidx : ℕ)
    → check_match im name none map symidx ≡ true
    → IsMatch im name map symidx
unfolding check_match
check_match-IsMatch im name map symidx h =
    ground (arith, equal_names_sound (name_of im map symidx) name)

abbrev pub find_first : (ℕ → Bool) → List ℕ → Option ℕ
find_first p [] = none
find_first p (x ∷ xs) = if p x then some x else find_first p xs

abbrev pub is_elem : ℕ → List ℕ → Bool
is_elem s [] = false
is_elem s (x ∷ xs) = if s == x then true else is_elem s xs

pub find_first-none :
    (p : ℕ → Bool) (xs : List ℕ) (s : ℕ)
    → find_first p xs ≡ none
    → is_elem s xs ≡ true
    → p s ≡ false
find_first-none p [] s h m = absurd (ground arith)
find_first-none p (x ∷ xs) s h m = ground (arith, find_first-none p xs s, ==_iff s x)

pub find_first-some : (p : ℕ → Bool) (xs : List ℕ) (s : ℕ) → find_first p xs ≡ some s → p s ≡ true
find_first-some p [] s h = absurd (ground arith)
find_first-some p (x ∷ xs) s h = ground (arith, find_first-some p xs s)

-- The indices of a chain of the GNU table from an index on.
abbrev pub IsGnuChain : LinkMap → ℕ → List ℕ → Type 0
IsGnuChain map i [] = ⊥
IsGnuChain map i (x ∷ []) = (x ≡ i) × (map.l_gnu_chain_zero i % 2 ≡ 1)
IsGnuChain map i (x ∷ y ∷ xs) =
    (x ≡ i) × (map.l_gnu_chain_zero i % 2 ≡ 0) × IsGnuChain map (suc i) (y ∷ xs)

-- The indices of a chain of the older table from an index on.
abbrev pub IsChain : LinkMap → ℕ → List ℕ → Type 0
IsChain map i [] = i ≡ 0
IsChain map i (x ∷ xs) = (x ≡ i) × (i ≢ 0) × IsChain map (l_chain map i) xs

abbrev pub gnu_match : Image → List ℕ → ℕ → LinkMap → ℕ → Bool
gnu_match im name hash map x =
    bit_xor (map.l_gnu_chain_zero x) hash / 2 == 0 && check_match im name none map x

pub gnu_chain_loop-find_first :
    (fuel : ℕ) (im : Image) (name : List ℕ) (hash : ℕ) (map : LinkMap) (i : ℕ) (xs : List ℕ)
    → length xs ≤ fuel
    → IsGnuChain map i xs
    → gnu_chain_loop fuel im name hash none map i
      ≡ some (find_first (gnu_match im name hash map) xs)
unfolding gnu_chain_loop
gnu_chain_loop-find_first fuel im name hash map i [] len chain = absurd chain
gnu_chain_loop-find_first zero im name hash map i (x ∷ xs) len chain = absurd (omega arith)
gnu_chain_loop-find_first (suc fuel) im name hash map i (x ∷ []) len (at, last) =
    ground (arith, bit_and-one (map.l_gnu_chain_zero i))
gnu_chain_loop-find_first (suc fuel) im name hash map i (x ∷ y ∷ xs) len (at, more, chain) =
    ground (
      arith,
      bit_and-one (map.l_gnu_chain_zero i),
      gnu_chain_loop-find_first fuel im name hash map (suc i) (y ∷ xs) (omega arith) chain,
    )

pub chain_loop-find_first :
    (fuel : ℕ) (im : Image) (name : List ℕ) (map : LinkMap) (i : ℕ) (xs : List ℕ)
    → length xs < fuel
    → IsChain map i xs
    → chain_loop fuel im name none map i ≡ some (find_first (check_match im name none map) xs)
unfolding chain_loop
chain_loop-find_first zero im name map i xs len chain = absurd (omega arith)
chain_loop-find_first (suc fuel) im name map i [] len chain = ground arith
chain_loop-find_first (suc fuel) im name map i (x ∷ xs) len (at, more, chain) =
    ground (arith, chain_loop-find_first fuel im name map (l_chain map i) xs (omega arith) chain)
