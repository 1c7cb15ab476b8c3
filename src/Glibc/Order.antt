-- ===== src/Glibc/Order.antt =====
-- Where `GLIBC_dl_lookup_symbol` of src/memhook/glibc.cpp finds a symbol: the scopes as one list of
-- libraries, searched in order behind the caller's.
use memhook.Prelude.{
  ℕ, ◌≡◌, refl, ap, sym, ◌∙◌, inl, inr, ==_iff, false, Option, none, some, List, [], ◌∷◌, ◌++◌, All,
  arith, Bool-cases, Option-cases,
}
use memhook.Glibc.{ScopeElem, LinkMap, Image, dl_elf_hash, dl_new_hash}
use memhook.Glibc.Chains.{is_elem}
use memhook.Glibc.Lookup.{
  force_old_hash, table_lookup, SymVal, is_skipped, lookup_map, do_lookup, from_skip, start_scopes,
  lookup_scopes, mark_used, dl_lookup_symbol,
}

-- The outcome of one library, or what the others answer.
abbrev pub or_else : Option (Option SymVal × ℕ) → Option SymVal → Option SymVal
or_else (some (some r, h)) other = some r
or_else (some (none, h)) other = other
or_else none other = other

abbrev pub first_of : Option SymVal → Option SymVal → Option SymVal
first_of (some r) other = some r
first_of none other = other

module _ (fuel : ℕ) (im : Image) (name : List ℕ) (ref : Option ℕ) (skip : Option ℕ) where
  -- The outcome of one library, with the older hash computed afresh.
  abbrev pub round : ℕ → Option (Option SymVal × ℕ)
  round p = lookup_map fuel im name (dl_new_hash name) ref skip 0xffffffff p

  -- The search in the tables of every library of a list ends.
  abbrev pub Ends : List ℕ → Type 0
  Ends list = All (λ p. (o : Option SymVal) × (h : ℕ) × (round p ≡ some (o, h))) list

  -- The first library of a list that exports the symbol, each asked by itself.
  abbrev pub first_export : List ℕ → Option SymVal
  first_export [] = none
  first_export (p ∷ list) = or_else (round p) (first_export list)

  abbrev IsForced : ℕ → Type 0
  IsForced old_hash = force_old_hash name old_hash ≡ dl_elf_hash name

  start-IsForced : IsForced 0xffffffff
  unfolding force_old_hash
  start-IsForced = refl

  elf_hash-IsForced : IsForced (dl_elf_hash name)
  unfolding force_old_hash
  elf_hash-IsForced = ground arith

  table_lookup-IsForced :
      (old_hash : ℕ) (map : LinkMap) (kind : Option (ℕ → ℕ))
      → map.l_gnu_bitmask ≡ kind
      → IsForced old_hash
      → ((table_lookup fuel im name (dl_new_hash name) old_hash ref map).0
          ≡ (table_lookup fuel im name (dl_new_hash name) 0xffffffff ref map).0)
        × IsForced (table_lookup fuel im name (dl_new_hash name) old_hash ref map).1
  unfolding table_lookup
  table_lookup-IsForced old_hash map (some bitmask) gnu forced = rw gnu (refl, forced)
  table_lookup-IsForced old_hash map none older forced =
      rw (older, forced, start-IsForced) (refl, elf_hash-IsForced)

  lookup_map-IsForced :
      (p old_hash : ℕ) (o : Option SymVal) (h : ℕ)
      → IsForced old_hash
      → round p ≡ some (o, h)
      → (h' : ℕ) × (lookup_map fuel im name (dl_new_hash name) ref skip old_hash p ≡ some (o, h'))
        × IsForced h'
  unfolding lookup_map
  lookup_map-IsForced p old_hash o h forced e =
      let map = (im.link_map p).l_real in
      let (same, forced') =
        table_lookup-IsForced old_hash (im.link_map map) (im.link_map map).l_gnu_bitmask refl
          forced in
      elim (Bool-cases (is_skipped im skip map)) [
        | inl skipped ↦ (old_hash, ground arith, forced)
        | inr searched ↦ (
          (table_lookup fuel im name (dl_new_hash name) old_hash ref (im.link_map map)).1,
          ground arith,
          forced',
        )
      ]

  or_else-first_of :
      (o : Option (Option SymVal × ℕ)) (a b : Option SymVal)
      → or_else o (first_of a b) ≡ first_of (or_else o a) b
  or_else-first_of none a b = refl
  or_else-first_of (some (none, h)) a b = refl
  or_else-first_of (some (some r, h)) a b = refl

  first_export-append :
      (xs ys : List ℕ) → first_export (xs ++ ys) ≡ first_of (first_export xs) (first_export ys)
  first_export-append [] ys = refl
  first_export-append (p ∷ xs) ys =
      ap (or_else (round p)) (first_export-append xs ys)
      ∙ or_else-first_of (round p) (first_export xs) (first_export ys)

  do_lookup-first_export :
      (p : ℕ) (list : List ℕ) (old_hash : ℕ)
      → IsForced old_hash
      → Ends (p ∷ list)
      → (h' : ℕ) × (do_lookup fuel im name (dl_new_hash name) ref skip old_hash (p ∷ list)
          ≡ some (first_export (p ∷ list), h'))
        × IsForced h'
  unfolding do_lookup
  do_lookup-first_export p [] old_hash forced ((none, h, e), _) =
      let (h', found, forced') = lookup_map-IsForced p old_hash none h forced e in
      (h', rw e found, forced')
  do_lookup-first_export p [] old_hash forced ((some r, h, e), _) =
      let (h', found, forced') = lookup_map-IsForced p old_hash (some r) h forced e in
      (h', rw e found, forced')
  do_lookup-first_export p (q ∷ list) old_hash forced ((none, h, e), ends) =
      let (h', found, forced') = lookup_map-IsForced p old_hash none h forced e in
      let (h2, rest, forced2) = do_lookup-first_export q list h' forced' ends in
      (h2, rw (e, found) rest, forced2)
  do_lookup-first_export p (q ∷ list) old_hash forced ((some r, h, e), ends) =
      let (h', found, forced') = lookup_map-IsForced p old_hash (some r) h forced e in
      (h', rw (e, found) refl, forced')

  -- No scope is empty.
  abbrev pub Scopes : List ScopeElem → Type 0
  Scopes scopes = All (λ scope. (p : ℕ) × (list : List ℕ) × (scope ≡ p ∷ list)) scopes

  abbrev pub concat : List ScopeElem → List ℕ
  concat [] = []
  concat (scope ∷ scopes) = scope ++ concat scopes

  lookup_scopes-first_export :
      (scopes : List ScopeElem) (old_hash : ℕ)
      → IsForced old_hash
      → Scopes scopes
      → All Ends scopes
      → lookup_scopes fuel im name (dl_new_hash name) ref skip old_hash scopes
        ≡ some (first_export (concat scopes))
  unfolding lookup_scopes
  lookup_scopes-first_export [] old_hash forced full ends = refl
  lookup_scopes-first_export ([] ∷ scopes) old_hash forced ((p, list, e), full) ends =
      absurd (ground arith)
  lookup_scopes-first_export ((p ∷ list) ∷ scopes) old_hash forced (_, full) (end, ends) =
      let (h', found, forced') = do_lookup-first_export p list old_hash forced end in
      let rest = lookup_scopes-first_export scopes h' forced' full ends in
      let split = first_export-append (p ∷ list) (concat scopes) in
      elim (Option-cases (first_export (p ∷ list))) [
        | inl missed ↦
            rw (found, missed)
              (rest
                ∙ ap some
                    (sym (split ∙ ap (λ o. first_of o (first_export (concat scopes))) missed)))
        | inr (r, hit) ↦
            rw (found, hit)
              (ap some (sym (split ∙ ap (λ o. first_of o (first_export (concat scopes))) hit)))
      ]

from_skip_found :
    (me : ℕ) (before after : List ℕ)
    → is_elem me before ≡ false
    → from_skip me (before ++ me ∷ after) ≡ some (me ∷ after)
unfolding from_skip
from_skip_found me [] after new = ground arith
from_skip_found me (p ∷ before) after new =
    ground (arith, from_skip_found me before after, ==_iff me p, ==_iff p me)

-- The caller's own library is passed over.
round_mine :
    (fuel : ℕ) (im : Image) (name : List ℕ) (ref : Option ℕ) (me : ℕ)
    → (im.link_map me).l_real ≡ me
    → round fuel im name ref (some me) me ≡ some (none, 0xffffffff)
unfolding lookup_map is_skipped
round_mine fuel im name ref me real = ground arith

-- For a caller whose library stands in the first scope, and where the search in every table ends,
-- the answer of `GLIBC_dl_lookup_symbol` is the first library behind the caller's, scope after
-- scope, that exports the symbol when each is asked by itself with the hash computed afresh.
pub dl_lookup_symbol-first_export :
    (fuel : ℕ) (im : Image) (name : List ℕ) (ref : Option ℕ) (me : ℕ) (before after : List ℕ)
    (scopes : List ScopeElem)
    → is_elem me before ≡ false
    → (im.link_map me).l_real ≡ me
    → Scopes fuel im name ref (some me) scopes
    → Ends fuel im name ref (some me) after
    → All (Ends fuel im name ref (some me)) scopes
    → let found =
        first_export fuel im name ref
          (some me)
          (after ++ concat fuel im name ref (some me) scopes) in
      dl_lookup_symbol fuel im name ref ((before ++ me ∷ after) ∷ scopes) (some me)
      ≡ some (found, mark_used found im)
unfolding dl_lookup_symbol start_scopes
dl_lookup_symbol-first_export fuel im name ref me before after scopes new real full end ends =
    let mine = round_mine fuel im name ref me real in
    let looked =
      lookup_scopes-first_export fuel im name ref (some me) ((me ∷ after) ∷ scopes) 0xffffffff
        (start-IsForced fuel im name ref (some me)) ((me, after, refl), full)
        (((none, 0xffffffff, mine), end), ends) in
    rw (from_skip_found me before after new, looked, mine) refl
