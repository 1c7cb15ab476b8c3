-- ===== src/Unwinding/Plain.antt =====
-- A container that meets the laws of `SequencedIndex`: its sequence, as a list.
use memhook.Prelude.{
  ℕ, refl, ap, none, some, List, [], ◌∷◌, ◌++◌, length, is_some, if◌then◌else◌, find_key,
  remove_key, drop,
}
use memhook.Unwinding.{ProcNameInfo, SequencedIndex}

abbrev relocate_last : ℕ → List ProcNameInfo → List ProcNameInfo
relocate_last k r = elim (find_key (λ v. v.ip) k r) [
  | none ↦ r
  | some v ↦ remove_key (λ v. v.ip) k r ++ v ∷ []
]

abbrev pub plain_sequence : SequencedIndex
plain_sequence = record {
  Rep = List ProcNameInfo;
  items = λ r. r;
  empty = [];
  clear = λ r. [];
  find = find_key (λ v. v.ip);
  size = length;
  relocate_last = relocate_last;
  erase_front = drop 1;
  insert = λ v r. if is_some (find_key (λ v. v.ip) v.ip r) then r else r ++ v ∷ [];
  items-empty = refl;
  items-clear = λ r. refl;
  find-items = λ k r. refl;
  size-items = λ r. refl;
  items-relocate_last = λ k r v h. rw (h, relocate_last) refl;
  items-erase_front = λ r v vs h. ap (drop 1) h;
  items-insert = λ v r. refl;
}
