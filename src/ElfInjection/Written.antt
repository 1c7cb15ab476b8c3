-- ===== src/ElfInjection/Written.antt =====
-- Which slots `ElfInject` of src/memhook/elf_injection.cpp writes, and with what.
use mathlib.Core.Path.{subst}
use memhook.Prelude.{
  ℕ, ◌≡◌, refl, sym, ◌∙◌, ◌+◌, ◌/◌, ◌%◌, ◌^◌, ◌==◌, ◌⊎◌, inl, inr, Bool, true, false, Option, none,
  some, List, [], ◌∷◌, ◌++◌, if◌then◌else◌, arith, Bool-cases, Option-cases,
}
use memhook.ElfInjection.{
  Rela, Phdr, PhdrInfo, Tables, Slots, DynTables, read_dyn, pt_dynamic, WrappedFunctions,
  find_wrapped, page_of, set_slot, sym_name, relocate_one, rel_entries, relocate_all,
  inject_dynamic, inject_phdrs, is_left_alone, inject_library, elf_inject,
}

-- A list of slots with the functions that they are to point at.
abbrev pub Targets : Type 0
Targets = List (ℕ × ℕ)

-- What the last of the targets at a slot says.
abbrev pub last_target : ℕ → Targets → Option ℕ
last_target a [] = none
last_target a ((slot, func) ∷ ts) = elim (last_target a ts) [
  | some f ↦ some f
  | none ↦ if a == slot then some func else none
]

abbrev pub get_or : ℕ → Option ℕ → ℕ
get_or old none = old
get_or old (some f) = f

abbrev pub is_listed : ℕ → List ℕ → Bool
is_listed p [] = false
is_listed p (q ∷ qs) = if p == q then true else is_listed p qs

module _ (page_size : ℕ) where
  abbrev set_all : Targets → Slots → Slots
  set_all [] s = s
  set_all ((slot, func) ∷ ts) s = set_all ts (set_slot page_size slot func s)

  set_all-append : (ts us : Targets) (s : Slots) → set_all (ts ++ us) s ≡ set_all us (set_all ts s)
  set_all-append [] us s = refl
  set_all-append ((slot, func) ∷ ts) us s = set_all-append ts us (set_slot page_size slot func s)

  value-set_slot :
      (slot func a : ℕ) (s : Slots)
      → (set_slot page_size slot func s).value a ≡ (if a == slot then func else s.value a)
  unfolding set_slot
  value-set_slot slot func a s = elim (Bool-cases (a == slot)) [
    | inl here ↦ let at : a ≡ slot = ground arith in rw at (ground arith)
    | inr there ↦ ground arith
  ]

  value-set_all :
      (a : ℕ) (ts : Targets) (s : Slots)
      → (set_all ts s).value a ≡ get_or (s.value a) (last_target a ts)
  value-set_all a [] s = refl
  value-set_all a ((slot, func) ∷ ts) s =
      let rest = value-set_all a ts (set_slot page_size slot func s) in
      let first = value-set_slot slot func a s in
      elim (Option-cases (last_target a ts)) [
        | inl none_later ↦ ground arith
        | inr (f, later) ↦ ground arith
      ]

  -- A page that is writable stays so.
  still_writable :
      (p : ℕ) (ts : Targets) (s : Slots)
      → is_listed p s.writable ≡ true
      → is_listed p (set_all ts s).writable ≡ true
  unfolding set_slot
  still_writable p [] s h = h
  still_writable p ((slot, func) ∷ ts) s h =
      still_writable p ts (set_slot page_size slot func s)
        (elim (Bool-cases (s.value slot == func)) [
          | inl same ↦ rw same h
          | inr other ↦ rw other (ground arith)
        ])

  set_slot_same :
      (slot func : ℕ) (s : Slots) → s.value slot == func ≡ true → set_slot page_size slot func s ≡ s
  unfolding set_slot
  set_slot_same slot func s same = rw same refl

  writable-set_all :
      (a : ℕ) (ts : Targets) (s : Slots)
      → ((set_all ts s).value a ≡ s.value a)
        ⊎ (is_listed (page_of page_size a) (set_all ts s).writable ≡ true)
  unfolding set_slot
  writable-set_all a [] s = inl refl
  writable-set_all a ((slot, func) ∷ ts) s =
      let s' = set_slot page_size slot func s in
      let first = value-set_slot slot func a s in
      elim (Bool-cases (s.value slot == func)) [
        | inl same ↦
            subst
              (λ (r : Slots).
                ((set_all ts r).value a ≡ s.value a)
                ⊎ (is_listed (page_of page_size a) (set_all ts r).writable ≡ true))
              (sym (set_slot_same slot func s same)) (writable-set_all a ts s)
        | inr other ↦ elim (Bool-cases (a == slot)) [
          | inl here ↦
              let at : a ≡ slot = ground arith in
              inr (still_writable (page_of page_size a) ts s' (rw (other, at) (ground arith)))
          | inr there ↦ elim (writable-set_all a ts s') [
            | inl kept ↦ inl (kept ∙ first ∙ rw there refl)
            | inr w ↦ inr w
          ]
        ]
      ]

module _ (wrapped : WrappedFunctions) (target_file_name : List ℕ) (page_size : ℕ) (t : Tables) where
  -- The slots of the relocations whose symbol is a hooked function, with the hooks.
  abbrev targets_of : ℕ → DynTables → List Rela → Targets
  targets_of base d [] = []
  targets_of base d (rel ∷ rels) =
      let rest = targets_of base d rels in
      elim (find_wrapped (sym_name wrapped target_file_name page_size t d rel) wrapped) [
        | none ↦ rest
        | some func ↦ ((rel.r_offset + base) % 2 ^ 64, func) ∷ rest
      ]

  abbrev phdr_targets : ℕ → Phdr → Targets
  phdr_targets base phdr =
      let d =
        read_dyn (t.dyn_at (phdr.p_vaddr + base))
          (record { str_table = 0; sym_table = 0; rel_table = 0; rel_table_size = 0 }) in
      targets_of base d (
        rel_entries wrapped target_file_name page_size t ((d.rel_table_size + 23) / 24) d.rel_table)

  abbrev phdrs_targets : ℕ → List Phdr → Targets
  phdrs_targets base [] = []
  phdrs_targets base (phdr ∷ phdrs) =
      (if phdr.p_type == pt_dynamic then phdr_targets base phdr else []) ++ phdrs_targets base phdrs

  -- The targets of the libraries that are not left alone.
  abbrev pub targets : List PhdrInfo → Targets
  targets [] = []
  targets (info ∷ infos) =
      (if is_left_alone wrapped target_file_name page_size t info.dlpi_name
        then []
        else phdrs_targets info.dlpi_addr info.dlpi_phdr)
      ++ targets infos

  relocate_all-set_all :
      (base : ℕ) (d : DynTables) (rels : List Rela) (s : Slots)
      → relocate_all wrapped target_file_name page_size t base d rels s
        ≡ set_all page_size (targets_of base d rels) s
  unfolding relocate_all relocate_one
  relocate_all-set_all base d [] s = refl
  relocate_all-set_all base d (rel ∷ rels) s =
      elim (Option-cases
        (find_wrapped (sym_name wrapped target_file_name page_size t d rel) wrapped)) [
          | inl other ↦
              rw (other, set_all, targets_of, relocate_all, relocate_one)
                (relocate_all-set_all base d rels s)
          | inr (func, hooked) ↦
              rw (hooked, set_all, targets_of, relocate_all, relocate_one)
                (relocate_all-set_all base d rels
                  (set_slot page_size ((rel.r_offset + base) % 2 ^ 64) func s))
        ]

  inject_phdrs-set_all :
      (base : ℕ) (phdrs : List Phdr) (s : Slots)
      → inject_phdrs wrapped target_file_name page_size t base phdrs s
        ≡ set_all page_size (phdrs_targets base phdrs) s
  unfolding inject_phdrs inject_dynamic
  inject_phdrs-set_all base [] s = refl
  inject_phdrs-set_all base (phdr ∷ phdrs) s = elim (Bool-cases (phdr.p_type == pt_dynamic)) [
    | inl dynamic ↦
        let d =
          read_dyn (t.dyn_at (phdr.p_vaddr + base))
            (record { str_table = 0; sym_table = 0; rel_table = 0; rel_table_size = 0 }) in
        let rels =
          rel_entries wrapped target_file_name page_size t ((d.rel_table_size + 23) / 24)
            d.rel_table in
        rw (dynamic, relocate_all-set_all base d rels s)
          (inject_phdrs-set_all base phdrs (set_all page_size (targets_of base d rels) s)
            ∙ sym (set_all-append page_size (targets_of base d rels) (phdrs_targets base phdrs) s))
    | inr other ↦ rw other (inject_phdrs-set_all base phdrs s)
  ]

  elf_inject-set_all :
      (infos : List PhdrInfo) (s : Slots)
      → elf_inject wrapped target_file_name page_size t infos s
        ≡ set_all page_size (targets infos) s
  unfolding elf_inject inject_library
  elf_inject-set_all [] s = refl
  elf_inject-set_all (info ∷ infos) s =
      let ours = phdrs_targets info.dlpi_addr info.dlpi_phdr in
      elim (Bool-cases (is_left_alone wrapped target_file_name page_size t info.dlpi_name)) [
        | inl left ↦ rw left (elf_inject-set_all infos s)
        | inr taken ↦
            rw (taken, inject_phdrs-set_all info.dlpi_addr info.dlpi_phdr s)
              (elf_inject-set_all infos (set_all page_size ours s)
                ∙ sym (set_all-append page_size ours (targets infos) s))
      ]

  -- After `ElfInject` each slot of a relocation of a hooked function, in a library that is not left
  -- alone, points at the hook of its last such relocation, and every other slot is as before. A
  -- slot that changes lies in a page that is made writable, and a second `ElfInject` changes no
  -- slot.
  pub elf_inject-last_target :
      (infos : List PhdrInfo) (s : Slots) (a : ℕ)
      → let inject = elf_inject wrapped target_file_name page_size t infos in
        ((inject s).value a ≡ get_or (s.value a) (last_target a (targets infos)))
        × (((inject s).value a ≡ s.value a)
            ⊎ (is_listed (page_of page_size a) (inject s).writable ≡ true))
        × ((inject (inject s)).value a ≡ (inject s).value a)
  elf_inject-last_target infos s a =
      let ts = targets infos in
      let once = value-set_all page_size a ts s in
      let twice = value-set_all page_size a ts (set_all page_size ts s) in
      rw (elf_inject-set_all infos s, elf_inject-set_all infos (set_all page_size ts s))
        (
          once,
          writable-set_all page_size a ts s,
          elim (Option-cases (last_target a ts)) [
            | inl untouched ↦ ground arith
            | inr (func, set) ↦ ground arith
          ],
        )
