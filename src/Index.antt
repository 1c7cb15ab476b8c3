-- ===== src/Index.antt =====
-- The two containers of the program are instances of boost::multi_index_container: a unique index
-- by address and an ordered index by time (src/memhook/engine.h, include/memhook/mapping_traits.h).
-- Boost is not part of the repository, so its container is the parameter `TimeIndex`: operations,
-- and laws that say what its documentation says of them in terms of the traversal of the time
-- index.
pub mod Sorted
pub mod Plain
pub mod Laws
use memhook.Prelude.{
  ℕ, ◌≡◌, Bool, Option, List, [], ℤ, ltb_ℤ, not, is_some, if◌then◌else◌, find_key, remove_key,
  modify_key, take_while, drop,
}
use memhook.Index.Sorted.{insert_time}

pub record TimeIndex (V : Type 0) (address : V → ℕ) (timestamp : V → ℤ) : Type 1 where
  pub Rep : Type 0
  pub empty : Rep
  -- The traversal of the time index.
  pub items : Rep → List V
  pub find : ℕ → Rep → Option V
  pub emplace : V → Rep → Rep
  -- Whether `emplace` inserts.
  pub emplaces : V → Rep → Bool
  -- `erase` and `modify` at the iterator that `find` returns.
  pub erase : ℕ → Rep → Rep
  pub modify : ℕ → (V → V) → Rep → Rep
  -- The range from `begin()` to `lower_bound(t)` of the time index.
  pub before : ℤ → Rep → List V
  -- `erase(begin(), iter)` of the time index, `iter` being that many steps from `begin()`.
  pub erase_first : ℕ → Rep → Rep
  pub items-empty : items empty ≡ []
  pub find-items : (a : ℕ) (r : Rep) → find a r ≡ find_key address a (items r)
  -- A value whose address is taken is not inserted; another goes behind those of the same time.
  pub items-emplace :
      (v : V) (r : Rep)
      → items (emplace v r) ≡ (
          if is_some (find_key address (address v) (items r))
          then items r
          else insert_time timestamp v (items r))
  pub emplaces-items :
      (v : V) (r : Rep) → emplaces v r ≡ not (is_some (find_key address (address v) (items r)))
  pub items-erase : (a : ℕ) (r : Rep) → items (erase a r) ≡ remove_key address a (items r)
  -- A change that leaves both keys alone moves nothing.
  pub items-modify :
      (a : ℕ) (f : V → V) (r : Rep)
      → ((v : V) → address (f v) ≡ address v)
      → ((v : V) → timestamp (f v) ≡ timestamp v)
      → items (modify a f r) ≡ modify_key address a f (items r)
  pub before-items :
      (t : ℤ) (r : Rep) → before t r ≡ take_while (λ v. ltb_ℤ (timestamp v) t) (items r)
  pub items-erase_first : (n : ℕ) (r : Rep) → items (erase_first n r) ≡ drop n (items r)
