-- ===== src/Examples/Loaders.antt =====
-- A dynamic linker that allocates while it answers, and a library that exports `dlsym`.
use Prim.Native.String.{String}
use text.Mathlib.Text.{◌==◌ as ◌=s=◌}
use memhook.Prelude.{
  ℕ, ◌≡◌, refl, ◌==◌, ◌+◌, ◌*◌, Bool, false, true, none, some, List, [], ◌∷◌, arith, if◌then◌else◌,
  length, All, inl, inr, not, ◌&&◌, Bool-cases,
}
use memhook.Glibc.{LinkMap, Image, dl_new_hash, new_hash_loop}
use memhook.Glibc.Lookup.{
  check_match, gnu_chain_loop, may_define, gnu_lookup, force_old_hash, table_lookup, sym_found,
  is_skipped, lookup_map, do_lookup, from_skip, start_scopes, lookup_scopes, set_used, mark_used,
  dl_lookup_symbol, root_loader, sym_value, do_sym,
}
use memhook.Loader.{
  null, at, Alloc, malloc, calloc, free, LinkerCall, dlsym_at, dlvsym_at, dl_sym, dl_vsym, dlerror,
  Linker, done, Build, later_names, World, codes,
}
use memhook.Loader.Start.{initialize}
use memhook.Loader.Resolved.{HasReal}
use memhook.Loader.Filling.{contains, IsFoundName}
use memhook.Loader.Found.{initialize_fills}
use memhook.Loader.Exports.{Hook, hook_field, exports}
use memhook.Loader.Covered.{IsThere, exports-IsThere}

abbrev libdl : ℕ → LinkMap
libdl p = record {
  l_addr = p * 4096;
  l_real = p;
  l_loader = none;
  l_local_scope = (1 ∷ 2 ∷ []) ∷ [];
  l_removed = false;
  l_used = false;
  symtab = p * 1000;
  strtab = 50;
  l_nbuckets = if p == 1 then 0 else 1;
  l_gnu_bitmask = some (λ i. 0xffffffffffffffff);
  l_gnu_bitmask_idxbits = 0;
  l_gnu_shift = 6;
  l_gnu_buckets = λ i. 1;
  l_gnu_chain_zero = λ i. 256754863;
}

abbrev process : Image
process = record {
  link_map = libdl;
  sym_at = λ a. record { st_name = 4; st_bind = 1; st_type = 2; st_value = 16 };
  string_at = λ a. codes "dlsym";
}

-- The first `dlerror` makes a buffer, and `dlsym` a block that it gives back.
abbrev linker_allocs : LinkerCall → ℕ → List Alloc
linker_allocs dlerror s = if s == 0 then calloc 1 32 ∷ [] else []
linker_allocs (dlsym_at fn handle name) s = malloc 16 ∷ free 70000 ∷ []
linker_allocs c s = []

abbrev next : String → ℕ
next name = 20480 + length (codes name)

abbrev linker_finish : LinkerCall → List ℕ → ℕ → ℕ × ℕ
linker_finish (dlsym_at fn handle name) rs s = (next name, s + 1)
linker_finish (dl_sym handle name) rs s = (next name, s + 1)
linker_finish (dlvsym_at fn handle name version) rs s = (next name, s + 1)
linker_finish (dl_vsym handle name version) rs s = (next name, s + 1)
linker_finish dlerror rs s = (0, s + 1)

abbrev linker : Linker
linker = record {
  State = ℕ;
  allocs = linker_allocs;
  finish = linker_finish;
  call_at = λ f a s. (s + f, s + 1);
  tmpbuf = 70000;
  memhook_dlsym_at = 4242;
  memhook_dlvsym_at = 4243;
  caller = some 1;
  search_fuel = 3;
}

abbrev small_build : Build
small_build = record {
  have_cfree = false;
  have_aligned_alloc = false;
  have_valloc = false;
  have_pvalloc = false;
}

abbrev fresh_world : World linker
fresh_world = record {
  table = λ name. null;
  buf = record { tmpbuf = λ i. 0; tmppos = 0 };
  image = process;
  linker = 0;
  hook_depth = 0;
}

-- The search finds `dlsym` in the second library.
has_real : HasReal linker "dlsym" 8208 fresh_world
unfolding do_sym dl_lookup_symbol root_loader start_scopes from_skip lookup_scopes do_lookup
    mark_used set_used sym_value lookup_map is_skipped sym_found table_lookup gnu_lookup
    gnu_chain_loop check_match force_old_hash may_define dl_new_hash new_hash_loop
has_real = inr (refl, mark_used (some (record { s = 2024; m = 2 })) process, refl)

all_but_own : List String → Bool
all_but_own [] = true
all_but_own (name ∷ names) = not (name =s= "dlsym") && all_but_own names

all_but_own_found : (names : List String) → all_but_own names ≡ true → All (IsFoundName next) names
unfolding all_but_own
all_but_own_found [] h = tt
all_but_own_found (name ∷ names) h = elim (Bool-cases (name =s= "dlsym")) [
  | inl own ↦ absurd (ground arith)
  | inr other ↦ ((other, ground arith), all_but_own_found names (ground arith))
]

all_found : All (IsFoundName next) ("free" ∷ "malloc" ∷ "calloc" ∷ later_names small_build)
unfolding all_but_own
all_found = all_but_own_found ("free" ∷ "malloc" ∷ "calloc" ∷ later_names small_build) refl

initialize_fills_example :
    (w' : World linker) × (initialize linker 1 small_build fresh_world ≡ done w')
    × ((n : String)
        → w'.table n ≡ (
            if "dlsym" =s= n
            then at 8208
            else if contains n ("free" ∷ "malloc" ∷ "calloc" ∷ later_names small_build)
            then at (next n)
            else null))
    × (w'.hook_depth ≡ 0)
    × (initialize linker 0 small_build w' ≡ done w')
initialize_fills_example =
    initialize_fills linker 8208 next refl (λ name rs s. refl) 0 small_build fresh_world refl
      has_real all_found

exports-IsThere_example :
    (w' : World linker) × (initialize linker 1 small_build fresh_world ≡ done w')
    × All (λ (e : String × Hook). IsThere w'.table (hook_field e.1)) (exports small_build true)
exports-IsThere_example =
    exports-IsThere linker 8208 next 0 small_build true fresh_world refl (λ name rs s. refl) refl
      has_real all_found
