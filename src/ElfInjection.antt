-- ===== src/ElfInjection.antt =====
-- src/memhook/elf_injection.cpp: the slots through which the loaded libraries call the hooked
-- functions are pointed at the hooks. The tables of the libraries are read-only; what is written
-- are the slots.
pub mod Written
use Prim.Native.Nat.{bit_and}
use memhook.Prelude.{
  ℕ, zero, suc, ◌+◌, ◌-◌, ◌*◌, ◌/◌, ◌%◌, ◌^◌, ◌==◌, Bool, true, false, not, ◌&&◌, ◌||◌, Option,
  none, some, List, [], ◌∷◌, ◌++◌, if◌then◌else◌,
}
use memhook.Glibc.{ElfSym}

-- `Elf64_Dyn`, up to `DT_NULL`: the tags that are read, with their values.
pub data Dyn : Type 0 where
  dt_strtab : ℕ → Dyn
  dt_jmprel : ℕ → Dyn
  dt_symtab : ℕ → Dyn
  dt_strsz : ℕ → Dyn
  dt_pltrelsz : ℕ → Dyn
  dt_syment : ℕ → Dyn
  dt_other : Dyn

-- `Elf64_Rela`: the offset, and the symbol of `r_info`.
pub record Rela : Type 0 where
  pub r_offset : ℕ
  pub r_sym : ℕ

pub record Phdr : Type 0 where
  pub p_type : ℕ
  pub p_vaddr : ℕ

-- `dl_phdr_info`
pub record PhdrInfo : Type 0 where
  pub dlpi_addr : ℕ
  pub dlpi_name : Option (List ℕ)
  pub dlpi_phdr : List Phdr

-- What lies in the tables of the libraries.
pub record Tables : Type 0 where
  pub dyn_at : ℕ → List Dyn
  pub rela_at : ℕ → Rela
  pub sym_at : ℕ → ElfSym
  pub string_at : ℕ → List ℕ

-- The slots, and the pages that were made writable.
pub record Slots : Type 0 where
  pub value : ℕ → ℕ
  pub writable : List ℕ

-- The local variables that the loop over the dynamic section fills in.
pub record DynTables : Type 0 where
  pub str_table : ℕ
  pub sym_table : ℕ
  pub rel_table : ℕ
  pub rel_table_size : ℕ

unfoldable pub read_dyn : List Dyn → DynTables → DynTables
read_dyn [] d = d
read_dyn (dt_strtab ptr ∷ ds) d = read_dyn ds (record d { str_table = ptr })
read_dyn (dt_jmprel ptr ∷ ds) d = read_dyn ds (record d { rel_table = ptr })
read_dyn (dt_symtab ptr ∷ ds) d = read_dyn ds (record d { sym_table = ptr })
read_dyn (dt_pltrelsz size ∷ ds) d = read_dyn ds (record d { rel_table_size = size })
read_dyn (dt_strsz size ∷ ds) d = read_dyn ds d
read_dyn (dt_syment size ∷ ds) d = read_dyn ds d
read_dyn (dt_other ∷ ds) d = read_dyn ds d

abbrev pub pt_dynamic : ℕ
pt_dynamic = 2

abbrev equal_names : List ℕ → List ℕ → Bool
equal_names [] [] = true
equal_names (a ∷ name) (b ∷ other) = a == b && equal_names name other
equal_names _ _ = false

abbrev starts_with : List ℕ → List ℕ → Bool
starts_with [] name = true
starts_with (a ∷ part) [] = false
starts_with (a ∷ part) (b ∷ name) = a == b && starts_with part name

-- `strstr`
abbrev pub contains : List ℕ → List ℕ → Bool
contains part [] = starts_with part []
contains part (b ∷ name) = starts_with part (b ∷ name) || contains part name

-- "/ld-linux"
abbrev pub ld_linux : List ℕ
ld_linux = 47 ∷ 108 ∷ 100 ∷ 45 ∷ 108 ∷ 105 ∷ 110 ∷ 117 ∷ 120 ∷ []

-- `s_wrapped_functions`, up to its null entry, is a parameter, as is `MEMHOOK_TARGET_FILE_NAME`:
-- both depend on the build.
abbrev pub WrappedFunctions : Type 0
WrappedFunctions = List (List ℕ × ℕ)

-- The first function of that name.
unfoldable pub find_wrapped : List ℕ → WrappedFunctions → Option ℕ
find_wrapped name [] = none
find_wrapped name ((n, func) ∷ fs) = if equal_names n name then some func else find_wrapped name fs

-- `psym & ~(page_size - 1)`
abbrev pub page_of : ℕ → ℕ → ℕ
page_of page_size psym = bit_and psym (2 ^ 64 - page_size)

-- `if (*psym != s_wrapped_functions[i].func)`
unfoldable pub set_slot : ℕ → ℕ → ℕ → Slots → Slots
set_slot page_size psym func s = if s.value psym == func then s else record {
  value = λ a. if a == psym then func else s.value a;
  writable = page_of page_size psym ∷ s.writable;
}

module _ (wrapped : WrappedFunctions) (target_file_name : List ℕ) (page_size : ℕ) (t : Tables) where
  abbrev pub sym_name : DynTables → Rela → List ℕ
  sym_name d rel = t.string_at (d.str_table + (t.sym_at (d.sym_table + 24 * rel.r_sym)).st_name)

  -- One round of the loop over the relocations.
  unfoldable pub relocate_one : ℕ → DynTables → Rela → Slots → Slots
  relocate_one base d rel s = elim (find_wrapped (sym_name d rel) wrapped) [
    | none ↦ s
    | some func ↦ set_slot page_size ((rel.r_offset + base) % 2 ^ 64) func s
  ]

  -- The relocations from an address on, 24 bytes each, while there are bytes left.
  unfoldable pub rel_entries : ℕ → ℕ → List Rela
  rel_entries zero rel = []
  rel_entries (suc n) rel = t.rela_at rel ∷ rel_entries n (rel + 24)

  unfoldable pub relocate_all : ℕ → DynTables → List Rela → Slots → Slots
  relocate_all base d [] s = s
  relocate_all base d (rel ∷ rels) s = relocate_all base d rels (relocate_one base d rel s)

  -- The body of the loop over the program headers, for the dynamic section.
  unfoldable pub inject_dynamic : ℕ → Phdr → Slots → Slots
  inject_dynamic base phdr s =
      let d =
        read_dyn (t.dyn_at (phdr.p_vaddr + base))
          (record { str_table = 0; sym_table = 0; rel_table = 0; rel_table_size = 0 }) in
      relocate_all base d (rel_entries ((d.rel_table_size + 23) / 24) d.rel_table) s

  unfoldable pub inject_phdrs : ℕ → List Phdr → Slots → Slots
  inject_phdrs base [] s = s
  inject_phdrs base (phdr ∷ phdrs) s =
      inject_phdrs base phdrs (if phdr.p_type == pt_dynamic then inject_dynamic base phdr s else s)

  unfoldable pub is_left_alone : Option (List ℕ) → Bool
  is_left_alone none = false
  is_left_alone (some name) = contains target_file_name name || contains ld_linux name

  -- `dl_iterate_phdr_elfinjection`
  unfoldable pub inject_library : PhdrInfo → Slots → Slots
  inject_library info s =
      if is_left_alone info.dlpi_name then s else inject_phdrs info.dlpi_addr info.dlpi_phdr s

  -- `ElfInject`: `dl_iterate_phdr` calls back for each library.
  unfoldable pub elf_inject : List PhdrInfo → Slots → Slots
  elf_inject [] s = s
  elf_inject (info ∷ infos) s = elf_inject infos (inject_library info s)
