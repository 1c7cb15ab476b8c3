-- ===== src/Index/Laws.antt =====
-- Every operation of a `TimeIndex` keeps the traversal ordered and the addresses distinct, and
-- `find` after each operation.
use mathlib.Core.Option
use memhook.Prelude.{
  ℕ, zero, suc, ℤ, ◌≡◌, refl, ◌==◌, none, some, List, [], ◌∷◌, is_some, if◌then◌else◌, find_key,
  Distinct, find_key-remove_key, Distinct-remove_key, arith, drop, take, Bool-cases, inl, inr,
}
use memhook.Index.{TimeIndex}
use memhook.Index.Sorted.{
  InOrder, insert_time-InOrder, insert_time-Distinct, find_key-insert_time, remove_key-InOrder,
  find_key-modify_key, modify_key-Distinct, modify_key-InOrder, drop-InOrder,
}

module _ {V : Type 0} (address : V → ℕ) where
  find_key-none-drop :
      (n k : ℕ) (vs : List V) → find_key address k vs ≡ none → find_key address k (drop n vs) ≡ none
  unfolding find_key
  find_key-none-drop zero k vs h = h
  find_key-none-drop (suc n) k [] h = refl
  find_key-none-drop (suc n) k (v ∷ vs) h = find_key-none-drop n k vs (ground arith)

  drop-Distinct : (n : ℕ) (vs : List V) → Distinct address vs → Distinct address (drop n vs)
  drop-Distinct zero vs d = d
  drop-Distinct (suc n) [] d = tt
  drop-Distinct (suc n) (v ∷ vs) d = drop-Distinct n vs d.1

  -- A value is either in the part that is dropped or in the rest.
  pub find_key-drop :
      (n k : ℕ) (vs : List V)
      → Distinct address vs
      → find_key address k (drop n vs)
        ≡ (if is_some (find_key address k (take n vs)) then none else find_key address k vs)
  unfolding find_key
  find_key-drop zero k vs d = refl
  find_key-drop (suc n) k [] d = refl
  find_key-drop (suc n) k (v ∷ vs) (new, d) = elim (Bool-cases (address v == k)) [
    | inl e ↦ rw e (find_key-none-drop n k vs (ground arith))
    | inr e ↦ rw e (find_key-drop n k vs d)
  ]

module _ {V : Type 0} {address : V → ℕ} {timestamp : V → ℤ}
    (ix : TimeIndex V address timestamp) where
  pub record IsIndexed (r : ix.Rep) : Type 0 where
    pub order : InOrder timestamp (ix.items r)
    pub distinct : Distinct address (ix.items r)

  pub empty-IsIndexed : IsIndexed ix.empty
  empty-IsIndexed = record { order = rw ix.items-empty tt; distinct = rw ix.items-empty tt }

  pub emplace-IsIndexed : (v : V) (r : ix.Rep) → IsIndexed r → IsIndexed (ix.emplace v r)
  emplace-IsIndexed v r h =
      elim (Bool-cases (is_some (find_key address (address v) (ix.items r)))) [
        | inl e ↦ record {
          order = rw (ix.items-emplace v r, e) h.order;
          distinct = rw (ix.items-emplace v r, e) h.distinct;
        }
        | inr e ↦ record {
          order =
              rw (ix.items-emplace v r, e) (insert_time-InOrder timestamp v (ix.items r) h.order);
          distinct =
              rw (ix.items-emplace v r, e)
                (insert_time-Distinct address timestamp v (ix.items r) (ground arith) h.distinct);
        }
      ]

  pub erase-IsIndexed : (a : ℕ) (r : ix.Rep) → IsIndexed r → IsIndexed (ix.erase a r)
  erase-IsIndexed a r h = record {
    order = rw (ix.items-erase a r) (remove_key-InOrder address timestamp a (ix.items r) h.order);
    distinct = rw (ix.items-erase a r) (Distinct-remove_key address a (ix.items r) h.distinct);
  }

  pub erase_first-IsIndexed : (n : ℕ) (r : ix.Rep) → IsIndexed r → IsIndexed (ix.erase_first n r)
  erase_first-IsIndexed n r h = record {
    order = rw (ix.items-erase_first n r) (drop-InOrder timestamp n (ix.items r) h.order);
    distinct = rw (ix.items-erase_first n r) (drop-Distinct address n (ix.items r) h.distinct);
  }

  pub find-empty : (a : ℕ) → ix.find a ix.empty ≡ none
  find-empty a = rw (ix.find-items, ix.items-empty) (unfold find_key in refl)

  -- `emplace` changes nothing where the address is taken.
  pub find-emplace :
      (v : V) (b : ℕ) (r : ix.Rep)
      → ix.find b (ix.emplace v r) ≡ (
          if is_some (ix.find (address v) r)
          then ix.find b r
          else if address v == b
          then some v
          else ix.find b r)
  find-emplace v b r =
      rw
        (
          ix.find-items b (ix.emplace v r),
          ix.items-emplace v r,
          ix.find-items (address v) r,
          ix.find-items b r,
        )
        (elim (Bool-cases (is_some (find_key address (address v) (ix.items r)))) [
          | inl e ↦ rw e
          | inr e ↦ rw e (find_key-insert_time address timestamp b v (ix.items r) (ground arith))
        ])

  pub find-erase :
      (a b : ℕ) (r : ix.Rep)
      → IsIndexed r
      → ix.find b (ix.erase a r) ≡ (if a == b then none else ix.find b r)
  find-erase a b r h =
      rw (ix.find-items b (ix.erase a r), ix.items-erase a r, ix.find-items b r)
        (find_key-remove_key address a b (ix.items r) h.distinct)

  module _ (f : V → V) (keeps_address : (v : V) → address (f v) ≡ address v)
      (keeps_time : (v : V) → timestamp (f v) ≡ timestamp v) where
    pub modify-IsIndexed : (a : ℕ) (r : ix.Rep) → IsIndexed r → IsIndexed (ix.modify a f r)
    modify-IsIndexed a r h = record {
      order =
          rw (ix.items-modify a f r keeps_address keeps_time) (
            modify_key-InOrder address timestamp f keeps_address keeps_time a (ix.items r) h.order);
      distinct = rw (ix.items-modify a f r keeps_address keeps_time) (
          modify_key-Distinct address timestamp f keeps_address keeps_time a (ix.items r)
            h.distinct);
    }

    pub find-modify :
        (a b : ℕ) (r : ix.Rep)
        → ix.find b (ix.modify a f r) ≡ (if a == b then Option.map f (ix.find b r) else ix.find b r)
    find-modify a b r =
        rw
          (
            ix.find-items b (ix.modify a f r),
            ix.items-modify a f r keeps_address keeps_time,
            ix.find-items b r,
          )
          (find_key-modify_key address timestamp f keeps_address keeps_time a b (ix.items r))
