-- ===== src/Engine/Allocations.antt =====
-- What the hooks of src/memhook/engine.cpp are to promise: a map from addresses to the size and the
-- time of the allocation there. The null pointer is never an allocation.
use mathlib.Core.Option
use memhook.Prelude.{ℕ, ℤ, Option, none, some, ◌==◌, is_some, if◌then◌else◌}
use memhook.Storage.{Entry, resize}

abbrev pub Allocations : Type 0
Allocations = ℕ → Option Entry

-- An address that is known already keeps its entry.
abbrev pub allocate : ℕ → ℕ → ℤ → Allocations → Allocations
allocate mem memsize now live a =
    if mem == 0
    then live a
    else if is_some (live mem)
    then live a
    else if mem == a
    then some (memsize, now)
    else live a

abbrev pub release : ℕ → Allocations → Allocations
release mem live a = if mem == 0 then live a else if mem == a then none else live a

abbrev pub resize_at : ℕ → ℕ → Allocations → Allocations
resize_at mem newsize live a =
    if mem == 0 then live a else if mem == a then Option.map (resize newsize) (live a) else live a

abbrev pub reallocate : ℕ → ℕ → ℕ → ℤ → Allocations → Allocations
reallocate old_mem new_mem new_size now live =
    if old_mem == new_mem
    then resize_at old_mem new_size live
    else allocate new_mem new_size now (release old_mem live)
