-- ===== src/Glibc.antt =====
-- The data of src/memhook/glibc.cpp: what the library reads of the dynamic linker's `link_map`,
-- with the hashes of names. `dlsym` is hooked, so the library looks symbols up by itself.
pub mod Lookup
pub mod Bits
pub mod Hashes
pub mod Chains
pub mod Tables
pub mod Order
pub mod Found
use Prim.Native.Nat.{bit_and, bit_xor}
use memhook.Prelude.{ℕ, Bool, ◌+◌, ◌*◌, ◌/◌, ◌%◌, ◌^◌, Option, List, [], ◌∷◌}

-- `Elf64_Sym`: the offset of the name, the binding and type of `st_info`, and the value.
pub record ElfSym : Type 0 where
  pub st_name : ℕ
  pub st_bind : ℕ
  pub st_type : ℕ
  pub st_value : ℕ

-- `GLIBC_r_scope_elem`: its `r_nlist` is the length of the list of addresses.
abbrev pub ScopeElem : Type 0
ScopeElem = List ℕ

-- The fields of `GLIBC_link_map` that are read or written. Arrays are functions of the index, as
-- none has its length beside it. `l_chain` shares its place with `l_gnu_buckets`, and `l_buckets`
-- with `l_gnu_chain_zero`. `l_local_scope` is its list up to the null pointer.
pub record LinkMap : Type 0 where
  pub l_addr : ℕ
  pub l_real : ℕ
  pub l_loader : Option ℕ
  pub l_local_scope : List ScopeElem
  pub l_removed : Bool
  pub l_used : Bool
  pub symtab : ℕ
  pub strtab : ℕ
  pub l_nbuckets : ℕ
  pub l_gnu_bitmask : Option (ℕ → ℕ)
  pub l_gnu_bitmask_idxbits : ℕ
  pub l_gnu_shift : ℕ
  pub l_gnu_buckets : ℕ → ℕ
  pub l_gnu_chain_zero : ℕ → ℕ

abbrev pub l_chain : LinkMap → ℕ → ℕ
l_chain m = m.l_gnu_buckets

abbrev pub l_buckets : LinkMap → ℕ → ℕ
l_buckets m = m.l_gnu_chain_zero

-- The memory of the process: what lies at an address.
pub record Image : Type 0 where
  pub link_map : ℕ → LinkMap
  pub sym_at : ℕ → ElfSym
  pub string_at : ℕ → List ℕ

-- One round of the loop of `GLIBC_dl_elf_hash`, over an `unsigned long` of 64 bits.
unfoldable pub elf_hash_step : ℕ → ℕ → ℕ
elf_hash_step hash c =
    let sum = (hash * 2 ^ 4 + c) % 2 ^ 64 in
    let hi = bit_and sum 0xf0000000 in bit_xor sum (hi / 2 ^ 24)

unfoldable pub elf_hash_loop : ℕ → List ℕ → ℕ
elf_hash_loop hash [] = hash
elf_hash_loop hash (c ∷ name) = elf_hash_loop (elf_hash_step hash c) name

-- `GLIBC_dl_elf_hash`: the name up to its terminating zero. The result is an `unsigned int`.
unfoldable pub dl_elf_hash : List ℕ → ℕ
dl_elf_hash name = bit_and (elf_hash_loop 0 name) 0x0fffffff % 2 ^ 32

unfoldable pub new_hash_loop : ℕ → List ℕ → ℕ
new_hash_loop h [] = h
new_hash_loop h (c ∷ s) = new_hash_loop ((h * 33 + c) % 2 ^ 64) s

-- `GLIBC_dl_new_hash`
unfoldable pub dl_new_hash : List ℕ → ℕ
dl_new_hash s = bit_and (new_hash_loop 5381 s) 0xffffffff
