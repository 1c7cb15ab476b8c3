-- ===== src/Glibc/Lookup.antt =====
-- The search for a symbol of src/memhook/glibc.cpp: `GLIBC_do_lookup`, `GLIBC_dl_lookup_symbol` and
-- `GLIBC_do_sym`.
use Prim.Native.Nat.{bit_and, bit_xor}
use memhook.Prelude.{
  ℕ, zero, suc, ◌+◌, ◌*◌, ◌/◌, ◌%◌, ◌^◌, ◌==◌, Bool, true, false, not, ◌&&◌, ◌||◌, Option, none,
  some, List, [], ◌∷◌, ◌>>=◌, if◌then◌else◌,
}
use memhook.Glibc.{ElfSym, ScopeElem, LinkMap, l_chain, l_buckets, Image, dl_elf_hash, dl_new_hash}

-- The addresses of `symtab[i]`: an `Elf64_Sym` takes 24 bytes.
abbrev pub sym_address : LinkMap → ℕ → ℕ
sym_address map symidx = map.symtab + 24 * symidx

abbrev pub stt_func : ℕ
stt_func = 2

abbrev pub equal_names : List ℕ → List ℕ → Bool
equal_names [] [] = true
equal_names (a ∷ name) (b ∷ other) = if a == b then equal_names name other else false
equal_names _ _ = false

-- `sym != ref`, where no symbol is at the null pointer.
abbrev pub is_ref : ℕ → Option ℕ → Bool
is_ref sym none = false
is_ref sym (some ref) = sym == ref

-- `GLIBC_check_match`: whether the symbol is returned. A type has four bits, so that the shifts
-- agree in a bit where the types are equal.
unfoldable pub check_match : Image → List ℕ → Option ℕ → LinkMap → ℕ → Bool
check_match im undef_name ref map symidx =
    let sym = im.sym_at (sym_address map symidx) in
    if not (sym.st_type == stt_func) || sym.st_value == 0
    then false
    else is_ref (sym_address map symidx) ref
      || equal_names (im.string_at (map.strtab + sym.st_name)) undef_name

-- What a search for a symbol ends with; `none` around it is a search that has not ended.
abbrev pub Search : Type 0
Search = Option (Option ℕ)

-- The `do` loop along a chain of the GNU table; a set lowest digit marks the end of the chain.
unfoldable pub gnu_chain_loop : ℕ → Image → List ℕ → ℕ → Option ℕ → LinkMap → ℕ → Search
gnu_chain_loop zero im undef_name new_hash ref map symidx = none
gnu_chain_loop (suc fuel) im undef_name new_hash ref map symidx =
    let rest = gnu_chain_loop fuel im undef_name new_hash ref map (suc symidx) in
    let hash = map.l_gnu_chain_zero symidx in
    if bit_xor hash new_hash / 2 == 0 && check_match im undef_name ref map symidx
    then some (some symidx)
    else (if bit_and hash 1 == 0 then rest else some none)

-- The `for` loop along a chain of the older table, which ends with `STN_UNDEF`.
unfoldable pub chain_loop : ℕ → Image → List ℕ → Option ℕ → LinkMap → ℕ → Search
chain_loop zero im undef_name ref map symidx = none
chain_loop (suc fuel) im undef_name ref map symidx =
    let rest = chain_loop fuel im undef_name ref map (l_chain map symidx) in
    if symidx == 0
    then some none
    else (if check_match im undef_name ref map symidx then some (some symidx) else rest)

-- The test of the two digits of the filter.
unfoldable pub may_define : ℕ → LinkMap → (ℕ → ℕ) → Bool
may_define new_hash map bitmask =
    let bitmask_word = bitmask (bit_and (new_hash / 64) map.l_gnu_bitmask_idxbits) in
    let hashbit1 = bit_and new_hash 63 in
    let hashbit2 = bit_and (new_hash / 2 ^ map.l_gnu_shift) 63 in
    not (bit_and (bit_and (bitmask_word / 2 ^ hashbit1) (bitmask_word / 2 ^ hashbit2)) 1 == 0)

-- `if (bitmask)`: the search in the GNU table of a library.
unfoldable pub gnu_lookup : ℕ → Image → List ℕ → ℕ → Option ℕ → LinkMap → (ℕ → ℕ) → Search
gnu_lookup fuel im undef_name new_hash ref map bitmask =
    let bucket = map.l_gnu_buckets (new_hash % map.l_nbuckets) in
    if may_define new_hash map bitmask
    then (if bucket == 0
        then some none
        else gnu_chain_loop fuel im undef_name new_hash ref map bucket)
    else some none

-- `*old_hash` is computed at its first use.
unfoldable pub force_old_hash : List ℕ → ℕ → ℕ
force_old_hash undef_name old_hash =
    if old_hash == 0xffffffff then dl_elf_hash undef_name else old_hash

-- The search in the tables of one library, with `*old_hash`.
unfoldable pub table_lookup : ℕ → Image → List ℕ → ℕ → ℕ → Option ℕ → LinkMap → Search × ℕ
table_lookup fuel im undef_name new_hash old_hash ref map = elim map.l_gnu_bitmask [
  | some bitmask ↦ (gnu_lookup fuel im undef_name new_hash ref map bitmask, old_hash)
  | none ↦
      let old_hash' = force_old_hash undef_name old_hash in
      (
        chain_loop fuel im undef_name ref map (l_buckets map (old_hash' % map.l_nbuckets)),
        old_hash',
      )
]

-- `STB_WEAK` and `STB_GLOBAL`
abbrev pub is_exported : ElfSym → Bool
is_exported sym = sym.st_bind == 2 || sym.st_bind == 1

-- `GLIBC_sym_val`: the address of the symbol, and that of its library.
pub record SymVal : Type 0 where
  pub s : ℕ
  pub m : ℕ

-- What the loop of `GLIBC_do_lookup` does with the outcome of a library: `continue`, or return.
unfoldable pub sym_found : Image → ℕ → Option ℕ → Option SymVal
sym_found im map none = none
sym_found im map (some symidx) =
    let s = sym_address (im.link_map map) symidx in
    if is_exported (im.sym_at s) then some (record { s = s; m = map }) else none

-- The tests at the top of the loop.
unfoldable pub is_skipped : Image → Option ℕ → ℕ → Bool
is_skipped im skip map =
    is_ref map skip || (im.link_map map).l_removed || (im.link_map map).l_nbuckets == 0

-- One round of the loop of `GLIBC_do_lookup`, for the library at `p`, with `result` and
-- `*old_hash`.
unfoldable pub lookup_map :
    ℕ → Image → List ℕ → ℕ → Option ℕ → Option ℕ → ℕ → ℕ → Option (Option SymVal × ℕ)
lookup_map fuel im undef_name new_hash ref skip old_hash p =
    let map = (im.link_map p).l_real in
    let (search, old_hash') =
      table_lookup fuel im undef_name new_hash old_hash ref (im.link_map map) in
    if is_skipped im skip map
    then some (none, old_hash)
    else (search >>= λ symidx. some (sym_found im map symidx, old_hash'))

-- `GLIBC_do_lookup`: the loop from `list[i]` on. It reads an element before it compares `i` and
-- `n`, so that an empty rest is a read behind the list.
unfoldable pub do_lookup :
    ℕ → Image → List ℕ → ℕ → Option ℕ → Option ℕ → ℕ → List ℕ → Option (Option SymVal × ℕ)
do_lookup fuel im undef_name new_hash ref skip old_hash [] = none
do_lookup fuel im undef_name new_hash ref skip old_hash (p ∷ []) =
    lookup_map fuel im undef_name new_hash ref skip old_hash p
do_lookup fuel im undef_name new_hash ref skip old_hash (p ∷ q ∷ list) = do
  (result, old_hash') ← lookup_map fuel im undef_name new_hash ref skip old_hash p
  elim result [
    | some r ↦ some (some r, old_hash')
    | none ↦ do_lookup fuel im undef_name new_hash ref skip old_hash' (q ∷ list)
  ]

-- `while ((*scope)->r_list[i] != skip_map)`: the list from that element on.
unfoldable pub from_skip : ℕ → ScopeElem → Option ScopeElem
from_skip skip_map [] = none
from_skip skip_map (p ∷ list) = if p == skip_map then some (p ∷ list) else from_skip skip_map list

-- Where the search starts: the scopes, the first of them from `start` on.
unfoldable pub start_scopes : Option ℕ → List ScopeElem → Option (List ScopeElem)
start_scopes none scopes = some scopes
start_scopes (some skip_map) [] = none
start_scopes (some skip_map) (scope ∷ scopes) =
    from_skip skip_map scope >>= λ rest. some (rest ∷ scopes)

-- The `for` loop of `GLIBC_dl_lookup_symbol`. `GLIBC_do_lookup` never answers less than 0.
unfoldable pub lookup_scopes :
    ℕ → Image → List ℕ → ℕ → Option ℕ → Option ℕ → ℕ → List ScopeElem → Option (Option SymVal)
lookup_scopes fuel im undef_name new_hash ref skip_map old_hash [] = some none
lookup_scopes fuel im undef_name new_hash ref skip_map old_hash (scope ∷ scopes) = do
  (result, old_hash') ← do_lookup fuel im undef_name new_hash ref skip_map old_hash scope
  elim result [
    | some r ↦ some (some r)
    | none ↦ lookup_scopes fuel im undef_name new_hash ref skip_map old_hash' scopes
  ]

-- `current_value.m->l_used = 1`
unfoldable pub set_used : ℕ → Image → Image
set_used m im = record im {
  link_map = λ p. if p == m then record (im.link_map p) { l_used = true } else im.link_map p;
}

-- The memory after the search, where `l_used` is set if it was not.
unfoldable pub mark_used : Option SymVal → Image → Image
mark_used none im = im
mark_used (some r) im = if (im.link_map r.m).l_used then im else set_used r.m im

-- `GLIBC_dl_lookup_symbol`: the symbol and its library, and the memory.
unfoldable pub dl_lookup_symbol :
    ℕ → Image → List ℕ → Option ℕ → List ScopeElem → Option ℕ → Option (Option SymVal × Image)
dl_lookup_symbol fuel im undef_name ref symbol_scope skip_map = do
  scopes ← start_scopes skip_map symbol_scope
  result ← lookup_scopes fuel im undef_name (dl_new_hash undef_name) ref skip_map 0xffffffff scopes
  some (result, mark_used result im)

-- `while (l->l_loader != NULL)`
unfoldable pub root_loader : ℕ → Image → ℕ → Option ℕ
root_loader zero im l = none
root_loader (suc fuel) im l = elim (im.link_map l).l_loader [
  | some loader ↦ root_loader fuel im loader
  | none ↦ some l
]

-- The end of `GLIBC_do_sym`: the address of the symbol.
unfoldable pub sym_value : Image → Option SymVal → Option ℕ
sym_value im none = none
sym_value im (some r) = some (((im.link_map r.m).l_addr + (im.sym_at r.s).st_value) % 2 ^ 64)

-- `GLIBC_do_sym`, from the library of the caller that `_dl_find_dso_for_object` answers.
unfoldable pub do_sym : ℕ → Image → List ℕ → Option ℕ → Option (Option ℕ × Image)
do_sym fuel im name none = some (none, im)
do_sym fuel im name (some match) = do
  l ← root_loader fuel im match
  (found, im') ← dl_lookup_symbol fuel im name none (im.link_map l).l_local_scope (some match)
  some (sym_value im' found, im')
