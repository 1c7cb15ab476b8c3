-- ===== src/Unwinding/Cache.antt =====
-- What the cache of src/memhook/callstack_unwinder.cpp holds, and that what goes in keeps it so.
use mathlib.Core.Path.{subst}
use memhook.Prelude.{
  ℕ, zero, suc, ◌≡◌, ◌≢◌, refl, ◌∙◌, ◌≤◌, ◌==◌, inl, inr, true, Option, none, some, List, length,
  is_some, if◌then◌else◌, All, arith, find_key, Distinct, Bool-cases,
}
use memhook.Unwinding.{
  ProcNameInfo, SequencedIndex, Native, ProcInfo, path_of, or_unknown, proc_name_info, shl_path_of,
  emplace_path, Impl,
}

-- What the code relies on: an instruction has one name by cursor and by address, a library has one
-- name and is not loaded at the null pointer.
pub record IsCoherent (n : Native) : Type 0 where
  pub agree : (ip : ℕ) → n.unw_get_proc_name ip ≡ n.get_proc_name ip
  pub one_name :
      (i j base : ℕ) (f g : Option (List ℕ))
      → n.dladdr i ≡ some (base, f)
      → n.dladdr j ≡ some (base, g)
      → or_unknown f ≡ or_unknown g
  pub loaded : (i : ℕ) (f : Option (List ℕ)) → n.dladdr i ≢ some (0, f)

abbrev pub Known : List (ℕ × List ℕ) → Option (ℕ × Option (List ℕ)) → Type 0
Known paths (some (base, f)) = is_some (path_of base paths) ≡ true
Known paths none = Unit

module _ (ix : SequencedIndex) (n : Native) where
  -- What the cache is to hold for an instruction.
  abbrev pub entry : ℕ → ProcNameInfo
  entry ip = proc_name_info ip (n.get_proc_name ip) (n.dladdr ip)

  -- What is known of an instruction without a cache.
  abbrev pub fresh_info : ℕ → ProcInfo
  fresh_info ip = record {
    shl_path = shl_path_of (n.dladdr ip);
    shl_addr = (entry ip).shl_addr;
    procname = (entry ip).procname;
    offp = (entry ip).offp;
  }

  -- The paths are those of their libraries.
  pub record ArePaths (paths : List (ℕ × List ℕ)) : Type 0 where
    pub right :
        (ip base : ℕ) (f : Option (List ℕ))
        → n.dladdr ip ≡ some (base, f)
        → is_some (path_of base paths) ≡ true
        → path_of base paths ≡ some (base, or_unknown f)
    pub null : path_of 0 paths ≡ none

  -- No instruction twice, at most `m_cache_max_size` of them, and for each what libunwind and the
  -- dynamic linker answer.
  pub record IsCache (s : Impl ix) : Type 0 where
    pub distinct : Distinct (λ v. v.ip) (ix.items s.procname_info_map)
    pub bounded : length (ix.items s.procname_info_map) ≤ s.cache_max_size
    pub fresh : All (λ v. v ≡ entry v.ip) (ix.items s.procname_info_map)
    pub known : All (λ v. Known s.shl_path_map (n.dladdr v.ip)) (ix.items s.procname_info_map)
    pub paths : ArePaths s.shl_path_map

  path_of-emplace_path :
      (base b : ℕ) (f : Option (List ℕ)) (paths : List (ℕ × List ℕ))
      → path_of b (emplace_path (some (base, f)) paths) ≡ (
          if is_some (path_of b paths)
          then path_of b paths
          else (if base == b then some (base, or_unknown f) else none))
  unfolding emplace_path find_key
  path_of-emplace_path base b f paths = elim (Bool-cases (base == b)) [
    | inl same ↦ let at : base ≡ b = ground arith in rw at (ground arith)
    | inr other ↦ ground arith
  ]

  pub emplace_path-ArePaths :
      (ip : ℕ) (paths : List (ℕ × List ℕ)) (dl : Option (ℕ × Option (List ℕ)))
      → IsCoherent n
      → n.dladdr ip ≡ dl
      → ArePaths paths
      → ArePaths (emplace_path dl paths)
  unfolding emplace_path find_key
  emplace_path-ArePaths ip paths none c e p = p
  emplace_path-ArePaths ip paths (some (zero, f)) c e p = absurd (c.loaded ip f e)
  emplace_path-ArePaths ip paths (some (suc base, f)) c e p = record {
    right = λ j b g e' h. elim (Bool-cases (is_some (path_of b paths))) [
      | inl there ↦
          ground (arith, path_of-emplace_path (suc base) b f paths, p.right j b g e' there)
      | inr absent ↦ elim (Bool-cases (suc base == b)) [
        | inl same ↦
            let at : suc base ≡ b = ground arith in
            let one = c.one_name ip j b f g (subst (λ x. n.dladdr ip ≡ some (x, f)) at e) e' in
            path_of-emplace_path (suc base) b f paths ∙ rw (absent, same, at, one) refl
        | inr other ↦ absurd (ground (arith, path_of-emplace_path (suc base) b f paths))
      ]
    ];
    null = ground (arith, path_of-emplace_path (suc base) 0 f paths, p.null);
  }

  pub emplace_path-Known :
      (dl dl' : Option (ℕ × Option (List ℕ))) (paths : List (ℕ × List ℕ))
      → Known paths dl
      → Known (emplace_path dl' paths) dl
  unfolding emplace_path find_key
  emplace_path-Known none dl' paths k = tt
  emplace_path-Known (some (base, f)) none paths k = k
  emplace_path-Known (some (base, f)) (some (b, g)) paths k = ground arith

  pub emplaced-Known :
      (dl : Option (ℕ × Option (List ℕ))) (paths : List (ℕ × List ℕ))
      → Known (emplace_path dl paths) dl
  unfolding emplace_path find_key
  emplaced-Known none paths = tt
  emplaced-Known (some (base, f)) paths = ground arith
