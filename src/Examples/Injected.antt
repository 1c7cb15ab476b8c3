-- ===== src/Examples/Injected.antt =====
-- A library with one relocation of a hooked function and one of another.
use memhook.Prelude.{◌≡◌, ◌⊎◌, ◌==◌, true, some, List, [], ◌∷◌, if◌then◌else◌}
use memhook.ElfInjection.{
  dt_strtab, dt_jmprel, dt_symtab, dt_pltrelsz, PhdrInfo, Tables, Slots, WrappedFunctions,
  elf_inject, page_of, find_wrapped, read_dyn, rel_entries, is_left_alone,
}
use memhook.ElfInjection.Written.{is_listed, elf_inject-last_target}

-- "free", with its hook.
abbrev wrapped : WrappedFunctions
wrapped = (102 ∷ 114 ∷ 101 ∷ 101 ∷ [], 777) ∷ []

abbrev tables : Tables
tables = record {
  dyn_at = λ a. dt_strtab 5000 ∷ dt_symtab 6000 ∷ dt_jmprel 7000 ∷ dt_pltrelsz 48 ∷ [];
  rela_at = λ a.
      if a == 7000
      then record { r_offset = 16; r_sym = 0 }
      else record { r_offset = 24; r_sym = 1 };
  sym_at = λ a. record { st_name = a; st_bind = 1; st_type = 2; st_value = 0 };
  string_at = λ a. if a == 11000 then 102 ∷ 114 ∷ 101 ∷ 101 ∷ [] else 102 ∷ [];
}

abbrev libraries : List PhdrInfo
libraries =
    record {
      dlpi_addr = 4096;
      dlpi_name = some (108 ∷ []);
      dlpi_phdr = record { p_type = 2; p_vaddr = 100 } ∷ [];
    }
    ∷ []

abbrev slots : Slots
slots = record { value = λ a. 1; writable = [] }

elf_inject-last_target_example :
    let inject = elf_inject wrapped (109 ∷ []) 4096 tables libraries in
    ((inject slots).value 4112 ≡ 777)
    × (((inject slots).value 4112 ≡ 1)
        ⊎ (is_listed (page_of 4096 4112) (inject slots).writable ≡ true))
    × ((inject (inject slots)).value 4112 ≡ (inject slots).value 4112)
unfolding find_wrapped read_dyn is_left_alone rel_entries
elf_inject-last_target_example =
    elf_inject-last_target wrapped (109 ∷ []) 4096 tables libraries slots 4112
