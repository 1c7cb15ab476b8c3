-- ===== src/Index/Plain.antt =====
-- A container that meets the laws of `TimeIndex`: the traversal of its time index, as a list.
use memhook.Prelude.{
  ℕ, refl, List, [], ℤ, ltb_ℤ, not, is_some, if◌then◌else◌, find_key, remove_key, modify_key,
  take_while, drop,
}
use memhook.Index.{TimeIndex}
use memhook.Index.Sorted.{insert_time}

abbrev pub plain_index :
    {V : Type 0} (address : V → ℕ) (timestamp : V → ℤ) → TimeIndex V address timestamp
plain_index {V} address timestamp = record {
  Rep = List V;
  empty = [];
  items = λ r. r;
  find = find_key address;
  emplace =
      λ v r. if is_some (find_key address (address v) r) then r else insert_time timestamp v r;
  emplaces = λ v r. not (is_some (find_key address (address v) r));
  erase = remove_key address;
  modify = modify_key address;
  before = λ t r. take_while (λ v. ltb_ℤ (timestamp v) t) r;
  erase_first = drop;
  items-empty = refl;
  find-items = λ a r. refl;
  items-emplace = λ v r. refl;
  emplaces-items = λ v r. refl;
  items-erase = λ a r. refl;
  items-modify = λ a f r p q. refl;
  before-items = λ t r. refl;
  items-erase_first = λ n r. refl;
}
