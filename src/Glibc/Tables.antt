-- ===== src/Glibc/Tables.antt =====
-- The search in the hash table of one library, `GLIBC_do_lookup` in src/memhook/glibc.cpp, against
-- the list of the symbols that the table is built from.
use mathlib.Core.Path.{subst}
use native.Mathlib.Nat.{mod-lt}
use memhook.Prelude.{
  ℕ, ◌/◌, ◌%◌, ◌≤◌, ◌<◌, ◌≡◌, ◌≢◌, refl, ap, ◌∙◌, inl, inr, ◌==◌, true, false, Option, none, some,
  List, [], ◌∷◌, length, All, arith, Bool-cases, Option-cases,
}
use memhook.Glibc.{LinkMap, l_buckets, Image, dl_elf_hash, dl_new_hash}
use memhook.Glibc.Bits.{bit_xor_half}
use memhook.Glibc.Lookup.{
  gnu_chain_loop, check_match, chain_loop, may_define, gnu_lookup, force_old_hash, table_lookup,
}
use memhook.Glibc.Chains.{
  name_of, IsMatch, check_match-IsMatch, find_first, is_elem, find_first-none, find_first-some,
  IsGnuChain, IsChain, gnu_match, gnu_chain_loop-find_first, chain_loop-find_first,
}

-- Every bucket of the table has its chain, of at most `fuel` indices.
abbrev HasGnuChains : ℕ → LinkMap → (ℕ → List ℕ) → Type 0
HasGnuChains fuel map chain =
    (b : ℕ)
    → b < map.l_nbuckets
    → map.l_gnu_buckets b ≢ 0
    → (length (chain b) ≤ fuel) × IsGnuChain map (map.l_gnu_buckets b) (chain b)

-- The filter lets the hash of the symbol's name pass, and the symbol is in the chain of its hash.
abbrev InGnuTable : Image → LinkMap → (ℕ → ℕ) → (ℕ → List ℕ) → ℕ → Type 0
InGnuTable im map bitmask chain s =
    let hash = dl_new_hash (name_of im map s) in
    (may_define hash map bitmask ≡ true)
    × (map.l_gnu_buckets (hash % map.l_nbuckets) ≢ 0)
    × (is_elem s (chain (hash % map.l_nbuckets)) ≡ true)
    × (map.l_gnu_chain_zero s / 2 ≡ hash / 2)

abbrev HasChains : ℕ → LinkMap → (ℕ → List ℕ) → Type 0
HasChains fuel map chain =
    (b : ℕ)
    → b < map.l_nbuckets
    → (length (chain b) < fuel) × IsChain map (l_buckets map b) (chain b)

abbrev InTable : Image → LinkMap → (ℕ → List ℕ) → ℕ → Type 0
InTable im map chain s = is_elem s (chain (dl_elf_hash (name_of im map s) % map.l_nbuckets)) ≡ true

-- What the table is, by the kind that `l_gnu_bitmask` tells.
abbrev TableOf : ℕ → Image → List ℕ → LinkMap → (ℕ → List ℕ) → Option (ℕ → ℕ) → Type 0
TableOf fuel im symbols map chain (some bitmask) =
    HasGnuChains fuel map chain × All (InGnuTable im map bitmask chain) symbols
TableOf fuel im symbols map chain none =
    HasChains fuel map chain × All (InTable im map chain) symbols

-- The hash table of the library is one of the given symbols, whichever its kind.
abbrev pub IsTable : ℕ → Image → List ℕ → LinkMap → Type 0
IsTable fuel im symbols map =
    (chain : ℕ → List ℕ) × TableOf fuel im symbols map chain map.l_gnu_bitmask

-- What a search for a name is to answer.
abbrev pub Answers : Image → List ℕ → List ℕ → LinkMap → Option ℕ → Type 0
Answers im name symbols map none = All (λ s. check_match im name none map s ≡ false) symbols
Answers im name symbols map (some s) = IsMatch im name map s

All_map : {P Q : ℕ → Type 0} (xs : List ℕ) → ((x : ℕ) → P x → Q x) → All P xs → All Q xs
All_map [] f h = h
All_map (x ∷ xs) f (h, hs) = (f x h, All_map xs f hs)

module _ (fuel : ℕ) (im : Image) (name : List ℕ) (map : LinkMap) (some_bucket : 0 < map.l_nbuckets)
    (symbols : List ℕ) where
  -- A symbol that is not found by the hash of its own name has another name.
  absent :
      (P : List ℕ → Type 0) (s : ℕ)
      → (P name → check_match im name none map s ≡ false)
      → P (name_of im map s)
      → check_match im name none map s ≡ false
  absent P s refute known = elim (Bool-cases (check_match im name none map s)) [
    | inl found ↦ refute (subst P (check_match-IsMatch im name map s found).0 known)
    | inr e ↦ e
  ]

  all_absent :
      (P : List ℕ → ℕ → Type 0)
      → ((s : ℕ) → P name s → check_match im name none map s ≡ false)
      → All (λ s. P (name_of im map s) s) symbols
      → Answers im name symbols map none
  all_absent P refute ins = All_map symbols (λ s. absent (λ n. P n s) s (refute s)) ins

  -- Where the table has a symbol of a name.
  abbrev GnuPlace : (ℕ → ℕ) → (ℕ → List ℕ) → List ℕ → ℕ → Type 0
  GnuPlace bitmask chain n s =
      (may_define (dl_new_hash n) map bitmask ≡ true)
      × (map.l_gnu_buckets (dl_new_hash n % map.l_nbuckets) ≢ 0)
      × (is_elem s (chain (dl_new_hash n % map.l_nbuckets)) ≡ true)
      × (map.l_gnu_chain_zero s / 2 ≡ dl_new_hash n / 2)

  -- The search along the chain of a bucket.
  gnu_chain-Answers :
      (bitmask : ℕ → ℕ) (chain : ℕ → List ℕ)
      → HasGnuChains fuel map chain
      → All (InGnuTable im map bitmask chain) symbols
      → let hash = dl_new_hash name in
        let bucket = map.l_gnu_buckets (hash % map.l_nbuckets) in
        bucket ≢ 0
        → (o : Option ℕ) × (gnu_chain_loop fuel im name hash none map bucket ≡ some o)
          × Answers im name symbols map o
  gnu_chain-Answers bitmask chain chains ins full =
      let hash = dl_new_hash name in
      let bucket = map.l_gnu_buckets (hash % map.l_nbuckets) in
      let xs = chain (hash % map.l_nbuckets) in
      let match = gnu_match im name hash map in
      let (len, is_chain) = chains (hash % map.l_nbuckets) (mod-lt hash some_bucket) full in
      let loop = gnu_chain_loop-find_first fuel im name hash map bucket xs len is_chain in
      elim (Option-cases (find_first match xs)) [
        | inl missed ↦ (
          none,
          loop ∙ ap some missed,
          all_absent (GnuPlace bitmask chain)
              (λ s p. ground (
                arith,
                find_first-none match xs s missed p.2,
                bit_xor_half (map.l_gnu_chain_zero s) hash p.3,
              ))
              ins,
        )
        | inr (s, hit) ↦ (
          some s,
          loop ∙ ap some hit,
          check_match-IsMatch im name map s (ground (arith, find_first-some match xs s hit)),
        )
      ]

  gnu_lookup-Answers :
      (bitmask : ℕ → ℕ) (chain : ℕ → List ℕ)
      → HasGnuChains fuel map chain
      → All (InGnuTable im map bitmask chain) symbols
      → (o : Option ℕ) × (gnu_lookup fuel im name (dl_new_hash name) none map bitmask ≡ some o)
        × Answers im name symbols map o
  unfolding gnu_lookup
  gnu_lookup-Answers bitmask chain chains ins =
      let hash = dl_new_hash name in
      let refuted = all_absent (GnuPlace bitmask chain) in
      elim (Bool-cases (may_define hash map bitmask)) [
        | inr filtered ↦ (none, ground arith, refuted (λ s p. absurd (ground (arith, p))) ins)
        | inl passed ↦ elim (Bool-cases (map.l_gnu_buckets (hash % map.l_nbuckets) == 0)) [
          | inl empty ↦ (none, ground arith, refuted (λ s p. absurd (ground (arith, p))) ins)
          | inr full ↦
              let (o, found, right) = gnu_chain-Answers bitmask chain chains ins (ground arith) in
              (o, ground arith, right)
        ]
      ]

  table_lookup_older :
      (old_hash : ℕ)
      → map.l_gnu_bitmask ≡ none
      → force_old_hash name old_hash ≡ dl_elf_hash name
      → (table_lookup fuel im name (dl_new_hash name) old_hash none map).0
        ≡ chain_loop fuel im name none map (l_buckets map (dl_elf_hash name % map.l_nbuckets))
  unfolding table_lookup
  table_lookup_older old_hash older forced = rw (older, forced) refl

  chain_lookup-Answers :
      (old_hash : ℕ) (chain : ℕ → List ℕ)
      → map.l_gnu_bitmask ≡ none
      → force_old_hash name old_hash ≡ dl_elf_hash name
      → HasChains fuel map chain
      → All (InTable im map chain) symbols
      → (o : Option ℕ) × ((table_lookup fuel im name (dl_new_hash name) old_hash none map).0
          ≡ some o)
        × Answers im name symbols map o
  chain_lookup-Answers old_hash chain older forced chains ins =
      let bucket = dl_elf_hash name % map.l_nbuckets in
      let (len, is_chain) = chains bucket (mod-lt (dl_elf_hash name) some_bucket) in
      let p = check_match im name none map in
      let found = table_lookup_older old_hash older forced in
      let loop =
        chain_loop-find_first fuel im name map (l_buckets map bucket) (chain bucket) len is_chain in
      elim (Option-cases (find_first p (chain bucket))) [
        | inl missed ↦ (
          none,
          found ∙ loop ∙ ap some missed,
          All_map symbols
              (λ s.
                absent (λ n. is_elem s (chain (dl_elf_hash n % map.l_nbuckets)) ≡ true) s
                  (λ m. find_first-none p (chain bucket) s missed m))
              ins,
        )
        | inr (s, hit) ↦ (
          some s,
          found ∙ loop ∙ ap some hit,
          check_match-IsMatch im name map s (find_first-some p (chain bucket) s hit),
        )
      ]

  table_lookup_gnu :
      (old_hash : ℕ) (bitmask : ℕ → ℕ)
      → map.l_gnu_bitmask ≡ some bitmask
      → (table_lookup fuel im name (dl_new_hash name) old_hash none map).0
        ≡ gnu_lookup fuel im name (dl_new_hash name) none map bitmask
  unfolding table_lookup
  table_lookup_gnu old_hash bitmask gnu = rw gnu refl

  by_kind :
      (old_hash : ℕ)
      → force_old_hash name old_hash ≡ dl_elf_hash name
      → (chain : ℕ → List ℕ) (kind : Option (ℕ → ℕ)) → map.l_gnu_bitmask ≡ kind
      → TableOf fuel im symbols map chain kind
      → (o : Option ℕ) × ((table_lookup fuel im name (dl_new_hash name) old_hash none map).0
          ≡ some o)
        × Answers im name symbols map o
  by_kind old_hash forced chain (some bitmask) gnu (chains, ins) =
      let (o, found, right) = gnu_lookup-Answers bitmask chain chains ins in
      (o, table_lookup_gnu old_hash bitmask gnu ∙ found, right)
  by_kind old_hash forced chain none older (chains, ins) =
      chain_lookup-Answers old_hash chain older forced chains ins

-- In the hash table of a library, of either kind, that is built from a list of symbols, the search
-- for a name ends within the length of the longest chain. A symbol that it finds is a function of
-- that name with a value; when it finds none there is no such function in the list. The hash of the
-- older tables may be computed before or not.
pub table_lookup-Answers :
    (fuel : ℕ) (im : Image) (name : List ℕ) (old_hash : ℕ) (symbols : List ℕ) (map : LinkMap)
    → 0 < map.l_nbuckets
    → force_old_hash name old_hash ≡ dl_elf_hash name
    → IsTable fuel im symbols map
    → (o : Option ℕ) × ((table_lookup fuel im name (dl_new_hash name) old_hash none map).0 ≡ some o)
      × Answers im name symbols map o
table_lookup-Answers fuel im name old_hash symbols map some_bucket forced (chain, table) =
    by_kind fuel im name map some_bucket symbols old_hash forced chain map.l_gnu_bitmask refl table
