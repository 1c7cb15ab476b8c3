-- ===== src/Glibc/Found.antt =====
-- What a symbol that `GLIBC_do_sym` of src/memhook/glibc.cpp finds is known to be.
use mathlib.Core.Path.{subst}
use memhook.Prelude.{
  ℕ, zero, suc, ◌+◌, ◌%◌, ◌^◌, ◌≡◌, refl, sym, ◌∙◌, inl, inr, true, false, Option, none, some, List,
  [], ◌∷◌, arith, Bool-cases, Option-cases,
}
use memhook.Glibc.{ScopeElem, LinkMap, l_chain, l_buckets, Image, dl_new_hash}
use memhook.Glibc.Chains.{IsMatch, check_match-IsMatch}
use memhook.Glibc.Lookup.{
  sym_address, check_match, gnu_chain_loop, chain_loop, gnu_lookup, force_old_hash, table_lookup,
  is_exported, SymVal, sym_found, is_skipped, lookup_map, do_lookup, start_scopes, lookup_scopes,
  set_used, mark_used, dl_lookup_symbol, root_loader, sym_value, do_sym,
}

gnu_chain_loop-check_match :
    (fuel : ℕ) (im : Image) (name : List ℕ) (hash : ℕ) (ref : Option ℕ) (map : LinkMap) (i s : ℕ)
    → gnu_chain_loop fuel im name hash ref map i ≡ some (some s)
    → check_match im name ref map s ≡ true
unfolding gnu_chain_loop
gnu_chain_loop-check_match zero im name hash ref map i s h = cc
gnu_chain_loop-check_match (suc fuel) im name hash ref map i s h =
    ground (arith, gnu_chain_loop-check_match fuel im name hash ref map (suc i) s)

chain_loop-check_match :
    (fuel : ℕ) (im : Image) (name : List ℕ) (ref : Option ℕ) (map : LinkMap) (i s : ℕ)
    → chain_loop fuel im name ref map i ≡ some (some s)
    → check_match im name ref map s ≡ true
unfolding chain_loop
chain_loop-check_match zero im name ref map i s h = cc
chain_loop-check_match (suc fuel) im name ref map i s h =
    ground (arith, chain_loop-check_match fuel im name ref map (l_chain map i) s)

module _ (fuel : ℕ) (im : Image) (name : List ℕ) where
  gnu_lookup-check_match :
      (hash : ℕ) (map : LinkMap) (bitmask : ℕ → ℕ) (s : ℕ)
      → gnu_lookup fuel im name hash none map bitmask ≡ some (some s)
      → check_match im name none map s ≡ true
  unfolding gnu_lookup
  gnu_lookup-check_match hash map bitmask s h = ground (
    arith,
    gnu_chain_loop-check_match fuel im name hash none map
        (map.l_gnu_buckets (hash % map.l_nbuckets)) s,
  )

  table_lookup-check_match :
      (hash old_hash : ℕ) (map : LinkMap) (kind : Option (ℕ → ℕ)) (s : ℕ)
      → map.l_gnu_bitmask ≡ kind
      → (table_lookup fuel im name hash old_hash none map).0 ≡ some (some s)
      → check_match im name none map s ≡ true
  unfolding table_lookup
  table_lookup-check_match hash old_hash map (some bitmask) s e h =
      let same : (table_lookup fuel im name hash old_hash none map).0
          ≡ gnu_lookup fuel im name hash none map bitmask =
        rw e refl in
      gnu_lookup-check_match hash map bitmask s (sym same ∙ h)
  table_lookup-check_match hash old_hash map none s e h =
      let start = l_buckets map (force_old_hash name old_hash % map.l_nbuckets) in
      let same : (table_lookup fuel im name hash old_hash none map).0
          ≡ chain_loop fuel im name none map start =
        rw e refl in
      chain_loop-check_match fuel im name none map start s (sym same ∙ h)

  -- A function of that name with a value, exported by a library that is not passed over.
  abbrev pub IsFound : Option ℕ → SymVal → Type 0
  IsFound skip r =
      (symidx : ℕ) × (r.s ≡ sym_address (im.link_map r.m) symidx)
      × IsMatch im name (im.link_map r.m) symidx
      × (is_exported (im.sym_at r.s) ≡ true)
      × (is_skipped im skip r.m ≡ false)

  sym_found-IsFound :
      (map symidx : ℕ) (skip : Option ℕ) (r : SymVal)
      → sym_found im map (some symidx) ≡ some r
      → check_match im name none (im.link_map map) symidx ≡ true
      → is_skipped im skip map ≡ false
      → IsFound skip r
  unfolding sym_found
  sym_found-IsFound map symidx skip r e good kept =
      let s = sym_address (im.link_map map) symidx in
      elim (Bool-cases (is_exported (im.sym_at s))) [
        | inr hidden ↦ absurd (ground arith)
        | inl exported ↦
            let here : record { s = s; m = map } ≡ r = ground arith in
            subst (IsFound skip) here (
              symidx,
              refl,
              check_match-IsMatch im name (im.link_map map) symidx good,
              exported,
              kept,
            )
      ]

  at_map :
      (hash old_hash map : ℕ) (skip : Option ℕ) (r : SymVal) (o : Option ℕ)
      → (table_lookup fuel im name hash old_hash none (im.link_map map)).0 ≡ some o
      → is_skipped im skip map ≡ false
      → sym_found im map o ≡ some r
      → IsFound skip r
  unfolding sym_found
  at_map hash old_hash map skip r none ended kept e = cc
  at_map hash old_hash map skip r (some symidx) ended kept e =
      let lib = im.link_map map in
      let good = table_lookup-check_match hash old_hash lib lib.l_gnu_bitmask symidx refl ended in
      sym_found-IsFound map symidx skip r e good kept

  lookup_map-IsFound :
      (hash old_hash p : ℕ) (skip : Option ℕ) (r : SymVal) (h : ℕ)
      → lookup_map fuel im name hash none skip old_hash p ≡ some (some r, h)
      → IsFound skip r
  unfolding lookup_map
  lookup_map-IsFound hash old_hash p skip r h e =
      let map = (im.link_map p).l_real in
      let lib = im.link_map map in
      let search = (table_lookup fuel im name hash old_hash none lib).0 in
      elim (Bool-cases (is_skipped im skip map)) [
        | inl skipped ↦ absurd (ground arith)
        | inr kept ↦ elim (Option-cases search) [
          | inl endless ↦ absurd (ground arith)
          | inr (o, ended) ↦ at_map hash old_hash map skip r o ended kept (ground arith)
        ]
      ]

  do_lookup-IsFound :
      (hash old_hash : ℕ) (list : List ℕ) (skip : Option ℕ) (r : SymVal) (h : ℕ)
      → do_lookup fuel im name hash none skip old_hash list ≡ some (some r, h)
      → IsFound skip r
  unfolding do_lookup
  do_lookup-IsFound hash old_hash [] skip r h e = cc
  do_lookup-IsFound hash old_hash (p ∷ []) skip r h e =
      lookup_map-IsFound hash old_hash p skip r h e
  do_lookup-IsFound hash old_hash (p ∷ q ∷ list) skip r h e =
      elim (Option-cases (lookup_map fuel im name hash none skip old_hash p)) [
        | inl endless ↦ absurd (ground arith)
        | inr ((none, h'), missed) ↦ do_lookup-IsFound hash h' (q ∷ list) skip r h (ground arith)
        | inr ((some r', h'), hit) ↦ lookup_map-IsFound hash old_hash p skip r h' (ground arith)
      ]

  lookup_scopes-IsFound :
      (hash old_hash : ℕ) (scopes : List ScopeElem) (skip : Option ℕ) (r : SymVal)
      → lookup_scopes fuel im name hash none skip old_hash scopes ≡ some (some r)
      → IsFound skip r
  unfolding lookup_scopes
  lookup_scopes-IsFound hash old_hash [] skip r e = cc
  lookup_scopes-IsFound hash old_hash (scope ∷ scopes) skip r e =
      elim (Option-cases (do_lookup fuel im name hash none skip old_hash scope)) [
        | inl endless ↦ absurd (ground arith)
        | inr ((none, h'), missed) ↦ lookup_scopes-IsFound hash h' scopes skip r (ground arith)
        | inr ((some r', h'), hit) ↦ do_lookup-IsFound hash old_hash scope skip r h' (ground arith)
      ]

do_sym_result :
    (fuel : ℕ) (im : Image) (name : List ℕ) (me l : ℕ) (scopes : List ScopeElem) (o : Option SymVal)
    → root_loader fuel im me ≡ some l
    → start_scopes (some me) (im.link_map l).l_local_scope ≡ some scopes
    → lookup_scopes fuel im name (dl_new_hash name) none (some me) 0xffffffff scopes ≡ some o
    → do_sym fuel im name (some me) ≡ some (sym_value (mark_used o im) o, mark_used o im)
unfolding do_sym dl_lookup_symbol
do_sym_result fuel im name me l scopes o rooted started looked = rw (rooted, started, looked) refl

sym_value-mark_used :
    (im : Image) (r : SymVal)
    → sym_value (mark_used (some r) im) (some r)
      ≡ some (((im.link_map r.m).l_addr + (im.sym_at r.s).st_value) % 2 ^ 64)
unfolding sym_value mark_used set_used
sym_value-mark_used im r = ground arith

-- What `GLIBC_do_sym` returns is the address of a function of the name, in a library that exports
-- it, is not removed, and is not the caller's own; but for the mark `l_used` of that library the
-- memory is as before.
pub do_sym-IsFound :
    (fuel : ℕ) (im : Image) (name : List ℕ) (me v : ℕ) (im' : Image)
    → do_sym fuel im name (some me) ≡ some (some v, im')
    → (r : SymVal) × IsFound fuel im name (some me) r
      × (v ≡ ((im.link_map r.m).l_addr + (im.sym_at r.s).st_value) % 2 ^ 64)
      × (im' ≡ mark_used (some r) im)
unfolding do_sym dl_lookup_symbol sym_value
do_sym-IsFound fuel im name me v im' e = elim (Option-cases (root_loader fuel im me)) [
  | inl endless ↦ absurd (ground arith)
  | inr (l, rooted) ↦ elim (Option-cases (start_scopes (some me) (im.link_map l).l_local_scope)) [
    | inl outside ↦ absurd (ground arith)
    | inr (scopes, started) ↦
        let hash = dl_new_hash name in
        elim (Option-cases (lookup_scopes fuel im name hash none (some me) 0xffffffff scopes)) [
          | inl endless ↦ absurd (ground arith)
          | inr (none, missed) ↦
              let done = do_sym_result fuel im name me l scopes none rooted started missed in
              absurd (ground arith)
          | inr (some r, hit) ↦
              let done = do_sym_result fuel im name me l scopes (some r) rooted started hit in
              (
                r,
                lookup_scopes-IsFound fuel im name hash 0xffffffff scopes (some me) r hit,
                ground (arith, sym_value-mark_used im r),
                ground arith,
              )
        ]
  ]
]
