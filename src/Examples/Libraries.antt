-- ===== src/Examples/Libraries.antt =====
-- Three libraries: the caller's, one with a GNU table, and one with an older table.
use memhook.Prelude.{
  ℕ, ◌≡◌, refl, ◌==◌, ◌+◌, ◌*◌, ◌%◌, ◌^◌, false, Option, none, some, List, [], ◌∷◌, arith,
  if◌then◌else◌,
}
use memhook.Glibc.{
  LinkMap, Image, dl_elf_hash, elf_hash_step, elf_hash_loop, dl_new_hash, new_hash_loop,
}
use memhook.Glibc.Lookup.{
  check_match, gnu_chain_loop, may_define, gnu_lookup, force_old_hash, table_lookup, SymVal,
  sym_found, is_skipped, lookup_map, do_lookup, from_skip, start_scopes, lookup_scopes, set_used,
  mark_used, dl_lookup_symbol, root_loader, sym_value, do_sym, chain_loop,
}
use memhook.Glibc.Tables.{Answers, table_lookup-Answers}
use memhook.Glibc.Order.{dl_lookup_symbol-first_export}
use memhook.Glibc.Found.{IsFound, do_sym-IsFound}
use memhook.Glibc.Hashes.{abi_hash, gnu_hash, hashes_published}

-- "f"
abbrev f_name : List ℕ
f_name = 102 ∷ []

-- The hash of the name; it is odd and ends its chain.
abbrev f_hash : ℕ
f_hash = 177675

abbrev library : ℕ → LinkMap
library p = record {
  l_addr = p * 4096;
  l_real = p;
  l_loader = none;
  l_local_scope = (1 ∷ 2 ∷ 3 ∷ []) ∷ [];
  l_removed = false;
  l_used = false;
  symtab = p * 1000;
  strtab = 50;
  l_nbuckets = if p == 1 then 0 else 1;
  l_gnu_bitmask = if p == 2 then some (λ i. 0xffffffffffffffff) else none;
  l_gnu_bitmask_idxbits = 0;
  l_gnu_shift = 6;
  l_gnu_buckets = λ i. if p == 2 then 1 else 0;
  l_gnu_chain_zero = λ i. if p == 2 then f_hash else 1;
}

abbrev image : Image
image = record {
  link_map = library;
  sym_at = λ a. record { st_name = 4; st_bind = 1; st_type = 2; st_value = 16 };
  string_at = λ a. f_name;
}

hashes_published_example :
    (dl_elf_hash f_name ≡ abi_hash 0 f_name) × (dl_new_hash f_name ≡ gnu_hash 5381 f_name)
hashes_published_example = hashes_published f_name

table_lookup-Answers_example :
    (o : Option ℕ) × ((table_lookup 3 image f_name
        (dl_new_hash f_name)
        0xffffffff
        none
        (library 2)).0
      ≡ some o)
    × Answers image f_name (1 ∷ []) (library 2) o
unfolding force_old_hash may_define dl_new_hash new_hash_loop
table_lookup-Answers_example =
    table_lookup-Answers 3 image f_name 0xffffffff (1 ∷ []) (library 2) (omega arith) refl (
      λ b. 1 ∷ [],
      (λ b lt full. (omega arith, (refl, refl)), ((refl, λ e. omega arith, refl, refl), tt)),
    )

dl_lookup_symbol-first_export_example :
    dl_lookup_symbol 3 image f_name none ((1 ∷ 2 ∷ 3 ∷ []) ∷ []) (some 1)
    ≡ some (some (record { s = 2024; m = 2 }), mark_used (some (record { s = 2024; m = 2 })) image)
unfolding lookup_map is_skipped sym_found table_lookup gnu_lookup gnu_chain_loop chain_loop
    check_match force_old_hash may_define dl_new_hash new_hash_loop dl_elf_hash elf_hash_loop
    elf_hash_step
dl_lookup_symbol-first_export_example =
    dl_lookup_symbol-first_export 3 image f_name none 1 [] (2 ∷ 3 ∷ []) [] refl refl tt
      (
        (some (record { s = 2024; m = 2 }), 0xffffffff, refl),
        ((some (record { s = 3024; m = 3 }), 102, refl), tt),
      )
      tt

do_sym-IsFound_example :
    (r : SymVal) × IsFound 3 image f_name (some 1) r
    × (8208 ≡ ((library r.m).l_addr + (image.sym_at r.s).st_value) % 2 ^ 64)
    × (mark_used (some (record { s = 2024; m = 2 })) image ≡ mark_used (some r) image)
unfolding do_sym dl_lookup_symbol root_loader start_scopes from_skip lookup_scopes do_lookup
    mark_used set_used sym_value lookup_map is_skipped sym_found table_lookup gnu_lookup
    gnu_chain_loop check_match force_old_hash may_define dl_new_hash new_hash_loop
do_sym-IsFound_example =
    do_sym-IsFound 3 image f_name 1 8208 (mark_used (some (record { s = 2024; m = 2 })) image) refl
