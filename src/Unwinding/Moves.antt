-- ===== src/Unwinding/Moves.antt =====
-- The cache of src/memhook/callstack_unwinder.cpp under a lookup that hits and one that misses.
use mathlib.Core.Path.{subst}
use memhook.Prelude.{
  ℕ, ◌≡◌, refl, sym, ap, ◌∙◌, ◌≤◌, ◌<◌, ==_iff, ◌⊎◌, inl, inr, false, Option, none, some, List, [],
  ◌∷◌, ◌++◌, length, length-append, leb, if◌then◌else◌, All, arith, map, find_key, remove_key,
  key-find_key, find_key-remove_key, Distinct, Distinct-remove_key, Bool-cases,
}
use memhook.Unwinding.{
  ProcNameInfo, SequencedIndex, Native, proc_name_info, shl_path_of, emplace_path, Impl,
  cached_info, insert_info,
}
use memhook.Unwinding.Sequence.{
  All-append, All-remove_key, All-find_key, length-remove_key, Distinct-append,
}
use memhook.Unwinding.Cache.{
  IsCoherent, Known, entry, fresh_info, IsCache, emplace_path-ArePaths, emplace_path-Known,
  emplaced-Known,
}

abbrev pub ip_of : ProcNameInfo → ℕ
ip_of v = v.ip

module _ (ix : SequencedIndex) (n : Native) (coherent : IsCoherent n) where
  pub cached_path :
      (s : Impl ix) (ip : ℕ) (dl : Option (ℕ × Option (List ℕ)))
      → IsCache ix n s
      → n.dladdr ip ≡ dl
      → Known s.shl_path_map dl
      → cached_info ix s (entry ix n ip) ≡ fresh_info ix n ip
  unfolding cached_info proc_name_info shl_path_of
  cached_path s ip none c e k = rw (e, c.paths.null) refl
  cached_path s ip (some (base, f)) c e k = rw (e, c.paths.right ip base f e k) refl

  -- A lookup that hits.
  pub relocate_last-IsCache :
      (s : Impl ix) (ip : ℕ) (v : ProcNameInfo)
      → find_key ip_of ip (ix.items s.procname_info_map) ≡ some v
      → IsCache ix n s
      → IsCache ix n (record s { procname_info_map = ix.relocate_last ip s.procname_info_map })
  relocate_last-IsCache s ip v found c =
      let xs = ix.items s.procname_info_map in
      let moved = ix.items-relocate_last ip s.procname_info_map v found in
      let at = key-find_key ip_of ip xs v found in
      record {
        distinct = rw moved (
            Distinct-append ip_of (remove_key ip_of ip xs) v
              (Distinct-remove_key ip_of ip xs c.distinct)
              (ground (arith, find_key-remove_key ip_of ip v.ip xs c.distinct, ==_iff ip v.ip)));
        bounded = rw moved (
            omega (
              arith,
              length-append (remove_key ip_of ip xs) (v ∷ []),
              length-remove_key ip_of ip xs v found,
              c.bounded,
            ));
        fresh = rw moved (
            All-append ip_of (λ v. v ≡ entry ix n v.ip) (remove_key ip_of ip xs) v
              (All-remove_key ip_of (λ v. v ≡ entry ix n v.ip) ip xs c.fresh)
              (All-find_key ip_of (λ v. v ≡ entry ix n v.ip) ip xs v c.fresh found));
        known = rw moved (
            let P : ProcNameInfo → Type 0 = λ v. Known s.shl_path_map (n.dladdr v.ip) in
            All-append ip_of P (remove_key ip_of ip xs) v (All-remove_key ip_of P ip xs c.known)
              (All-find_key ip_of P ip xs v c.known found));
        paths = c.paths;
      }

  -- The sequence once there is room for one element more: all of it, or all but the first.
  abbrev Room : ℕ → List ProcNameInfo → List ProcNameInfo → Type 0
  Room max xs ys = (length ys < max) × ((ys ≡ xs) ⊎ ((x : ProcNameInfo) × (xs ≡ x ∷ ys)))

  make-Room :
      (max : ℕ) (map : ix.Rep) (xs : List ProcNameInfo)
      → 0 < max
      → ix.items map ≡ xs
      → length xs ≤ max
      → Room max xs (ix.items (if leb max (ix.size map) then ix.erase_front map else map))
  make-Room max map [] pos e len =
      let size = ix.size-items map ∙ ap length e in
      let roomy : leb max (ix.size map) ≡ false = ground arith in rw (roomy, e) (pos, inl refl)
  make-Room max map (x ∷ xs) pos e len =
      let size = ix.size-items map ∙ ap length e in
      elim (Bool-cases (leb max (ix.size map))) [
        | inl full ↦ rw (full, ix.items-erase_front map x xs e) (omega arith, inr (x, refl))
        | inr roomy ↦ rw (roomy, e) (ground arith, inl refl)
      ]

  All-Room :
      (P : ProcNameInfo → Type 0) (max : ℕ) (xs ys : List ProcNameInfo)
      → Room max xs ys
      → All P xs
      → All P ys
  All-Room P max xs ys (len, inl e) h = subst (All P) (sym e) h
  All-Room P max xs ys (len, inr (x, e)) h = (subst (All P) e h).1

  Distinct-Room :
      (max : ℕ) (xs ys : List ProcNameInfo) → Room max xs ys → Distinct ip_of xs → Distinct ip_of ys
  Distinct-Room max xs ys (len, inl e) h = subst (Distinct ip_of) (sym e) h
  Distinct-Room max xs ys (len, inr (x, e)) h = (subst (Distinct ip_of) e h).1

  find_key-Room :
      (ip max : ℕ) (xs ys : List ProcNameInfo)
      → Room max xs ys
      → find_key ip_of ip xs ≡ none
      → find_key ip_of ip ys ≡ none
  unfolding find_key
  find_key-Room ip max xs ys (len, inl e) h = ap (find_key ip_of ip) e ∙ h
  find_key-Room ip max xs ys (len, inr (x, e)) h =
      let missed = ap (find_key ip_of ip) (sym e) ∙ h in ground arith

  items-insert_info :
      (max : ℕ) (pni : ProcNameInfo) (map : ix.Rep)
      → 0 < max
      → length (ix.items map) ≤ max
      → find_key ip_of pni.ip (ix.items map) ≡ none
      → (ys : List ProcNameInfo) × Room max (ix.items map) ys
        × (ix.items (insert_info ix max pni map) ≡ ys ++ pni ∷ [])
  unfolding insert_info
  items-insert_info max pni map pos len new =
      let map' = if leb max (ix.size map) then ix.erase_front map else map in
      let room = make-Room max map (ix.items map) pos refl len in
      let absent = find_key-Room pni.ip max (ix.items map) (ix.items map') room new in
      (ix.items map', room, ix.items-insert pni map' ∙ rw absent refl)

  -- A lookup that misses.
  pub insert_info-IsCache :
      (s : Impl ix) (ip : ℕ)
      → 0 < s.cache_max_size
      → find_key ip_of ip (ix.items s.procname_info_map) ≡ none
      → IsCache ix n s
      → IsCache ix n (record s {
        procname_info_map = insert_info ix s.cache_max_size (entry ix n ip) s.procname_info_map;
        shl_path_map = emplace_path (n.dladdr ip) s.shl_path_map;
      })
  unfolding proc_name_info
  insert_info-IsCache s ip pos new c =
      let xs = ix.items s.procname_info_map in
      let v = entry ix n ip in
      let (ys, room, e) =
        items-insert_info s.cache_max_size v s.procname_info_map pos c.bounded new in
      let P : ProcNameInfo → Type 0 =
        λ v. Known (emplace_path (n.dladdr ip) s.shl_path_map) (n.dladdr v.ip) in
      record {
        distinct = rw e (
            Distinct-append ip_of ys v (Distinct-Room s.cache_max_size xs ys room c.distinct)
              (find_key-Room ip s.cache_max_size xs ys room new));
        bounded = rw e (omega (arith, length-append ys (v ∷ []), room.0));
        fresh = rw e (
            All-append ip_of (λ v. v ≡ entry ix n v.ip) ys v
              (All-Room (λ v. v ≡ entry ix n v.ip) s.cache_max_size xs ys room c.fresh) refl);
        known = rw e (
            All-append ip_of P ys v
              (All-Room P s.cache_max_size xs ys room
                (still_known xs (n.dladdr ip) s.shl_path_map c.known))
              (emplaced-Known ix n (n.dladdr ip) s.shl_path_map));
        paths = emplace_path-ArePaths ix n ip s.shl_path_map (n.dladdr ip) coherent refl c.paths;
      }
    where
      still_known :
          (xs : List ProcNameInfo) (dl : Option (ℕ × Option (List ℕ))) (paths : List (ℕ × List ℕ))
          → All (λ v. Known paths (n.dladdr v.ip)) xs
          → All (λ v. Known (emplace_path dl paths) (n.dladdr v.ip)) xs
      still_known [] dl paths h = h
      still_known (x ∷ xs) dl paths (h, hs) =
          (emplace_path-Known ix n (n.dladdr x.ip) dl paths h, still_known xs dl paths hs)
