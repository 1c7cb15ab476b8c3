-- ===== src/Storage.antt =====
-- `MappedStorage` of include/memhook/mapped_storage.h: where allocations are recorded.
pub mod UniquePath
pub mod Mapped
pub mod Symbols
pub mod Network
use mathlib.Core.Option
use memhook.Prelude.{ℕ, ℤ, Bool, true, Option, none, some, ◌==◌, ◌≡◌, is_some, if◌then◌else◌}
use memhook.TraceInfo.{CallStackInfo}

-- The virtual functions, over the state of the object.
pub record MappedStorage : Type 1 where
  pub Store : Type 0
  pub add : ℕ → ℕ → CallStackInfo → ℤ → Store → Store
  pub remove : ℕ → Store → Store × Bool
  pub update_size : ℕ → ℕ → Store → Store × Bool
  pub clear : Store → Store
  pub flush : Store → Store

-- What is recorded of a live allocation: its size and its time.
abbrev pub Entry : Type 0
Entry = ℕ × ℤ

abbrev pub resize : ℕ → Entry → Entry
resize memsize entry = (memsize, entry.1)

-- What a client may rely on: in valid states, the storage is a map from addresses to entries.
pub record Contract (m : MappedStorage) (IsValid : m.Store → Type 0)
    (lookup : ℕ → m.Store → Option Entry) : Type 0 where
  pub add-IsValid :
      (a n : ℕ) (cs : CallStackInfo) (t : ℤ) (s : m.Store) → IsValid s → IsValid (m.add a n cs t s)
  pub remove-IsValid : (a : ℕ) (s : m.Store) → IsValid s → IsValid (m.remove a s).0
  pub update_size-IsValid : (a n : ℕ) (s : m.Store) → IsValid s → IsValid (m.update_size a n s).0
  pub clear-IsValid : (s : m.Store) → IsValid s → IsValid (m.clear s)
  pub flush-IsValid : (s : m.Store) → IsValid s → IsValid (m.flush s)
  -- A recorded address keeps its entry.
  pub lookup-add :
      (a n : ℕ) (cs : CallStackInfo) (t : ℤ) (b : ℕ) (s : m.Store)
      → IsValid s
      → lookup b (m.add a n cs t s) ≡ (
          if a == b then (if is_some (lookup a s) then lookup a s else some (n, t)) else lookup b s)
  pub lookup-remove :
      (a b : ℕ) (s : m.Store)
      → IsValid s
      → lookup b (m.remove a s).0 ≡ (if a == b then none else lookup b s)
  pub lookup-update_size :
      (a n b : ℕ) (s : m.Store)
      → IsValid s
      → lookup b (m.update_size a n s).0
        ≡ (if a == b then Option.map (resize n) (lookup b s) else lookup b s)
  pub lookup-clear : (b : ℕ) (s : m.Store) → IsValid s → lookup b (m.clear s) ≡ none
  pub lookup-flush : (b : ℕ) (s : m.Store) → IsValid s → lookup b (m.flush s) ≡ lookup b s
