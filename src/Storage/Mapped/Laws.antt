-- ===== src/Storage/Mapped/Laws.antt =====
-- `BasicMappedStorage` (src/memhookcore/basic_mapped_storage.h) meets the contract of a storage.
use mathlib.Core.Option
use memhook.Prelude.{
  ℕ, ℤ, ◌≡◌, refl, ◌==◌, Option, none, some, is_some, if◌then◌else◌, arith, inl, inr, Bool-cases,
}
use memhook.TraceInfo.{CallStackInfo, TraceInfo, trace_info}
use memhook.Index.{TimeIndex}
use memhook.Index.Laws.{
  IsIndexed, empty-IsIndexed, emplace-IsIndexed, erase-IsIndexed, modify-IsIndexed, find-empty,
  find-emplace, find-erase, find-modify,
}
use memhook.Storage.{Contract, Entry, resize}
use memhook.Storage.Mapped.{
  trace_address, trace_timestamp, set_memsize, Container, add, remove, update_size, clear,
  mapped_storage,
}

abbrev pub entry_of : TraceInfo → Entry
entry_of v = (v.base.memsize, v.base.timestamp)

module _ (ix : TimeIndex TraceInfo trace_address trace_timestamp) where
  -- The traversal by time is in order, and no address is recorded twice.
  abbrev pub IsContainer : Container ix → Type 0
  IsContainer c = IsIndexed ix c.indexed_container

  abbrev pub container_lookup : ℕ → Container ix → Option Entry
  container_lookup a c = Option.map entry_of (ix.find a c.indexed_container)

  pub add-IsContainer :
      (a n : ℕ) (cs : CallStackInfo) (t : ℤ) (c : Container ix)
      → IsContainer c
      → IsContainer (add ix a n cs t c)
  unfolding add
  add-IsContainer a n cs t c h = emplace-IsIndexed ix (trace_info a n t cs) c.indexed_container h

  pub remove-IsContainer :
      (a : ℕ) (c : Container ix) → IsContainer c → IsContainer (remove ix a c).0
  unfolding remove
  remove-IsContainer a c h = elim (Bool-cases (is_some (ix.find a c.indexed_container))) [
    | inl e ↦ rw e (erase-IsIndexed ix a c.indexed_container h)
    | inr e ↦ rw e h
  ]

  pub update_size-IsContainer :
      (a n : ℕ) (c : Container ix) → IsContainer c → IsContainer (update_size ix a n c).0
  unfolding update_size
  update_size-IsContainer a n c h = elim (Bool-cases (is_some (ix.find a c.indexed_container))) [
    | inl e ↦
        rw e (modify-IsIndexed ix (set_memsize n) (λ v. refl) (λ v. refl) a c.indexed_container h)
    | inr e ↦ rw e h
  ]

  lookup-add :
      (a n : ℕ) (cs : CallStackInfo) (t : ℤ) (b : ℕ) (c : Container ix)
      → IsContainer c
      → container_lookup b (add ix a n cs t c) ≡ (
          if a == b
          then (if is_some (container_lookup a c) then container_lookup a c else some (n, t))
          else container_lookup b c)
  unfolding add trace_info
  lookup-add a n cs t b c h =
      ground (arith, find-emplace ix (trace_info a n t cs) b c.indexed_container)

  lookup-remove :
      (a b : ℕ) (c : Container ix)
      → IsContainer c
      → container_lookup b (remove ix a c).0 ≡ (if a == b then none else container_lookup b c)
  unfolding remove
  lookup-remove a b c h = ground (arith, find-erase ix a b c.indexed_container h)

  lookup-update_size :
      (a n b : ℕ) (c : Container ix)
      → IsContainer c
      → container_lookup b (update_size ix a n c).0
        ≡ (if a == b then Option.map (resize n) (container_lookup b c) else container_lookup b c)
  unfolding update_size
  lookup-update_size a n b c h =
      ground (arith, find-modify ix (set_memsize n) (λ v. refl) (λ v. refl) a b c.indexed_container)

  -- The storage over a container of the segment implements the contract.
  pub mapped_storage-Contract : Contract (mapped_storage ix) IsContainer container_lookup
  unfolding clear
  mapped_storage-Contract = record {
    add-IsValid = add-IsContainer;
    remove-IsValid = remove-IsContainer;
    update_size-IsValid = update_size-IsContainer;
    clear-IsValid = λ s h. empty-IsIndexed ix;
    flush-IsValid = λ s h. h;
    lookup-add = lookup-add;
    lookup-remove = lookup-remove;
    lookup-update_size = lookup-update_size;
    lookup-clear = λ b s h. rw (find-empty ix b);
    lookup-flush = λ b s h. refl;
  }
