-- ===== src/Engine/Start.antt =====
-- How the engine of src/memhook/engine.cpp starts: `OnInitialize` and `NewStorage`, from the
-- environment.
use memhook.Prelude.{
  ℕ, ℤ, pos, negsuc, ◌*◌, ◌-◌, ◌%◌, ◌^◌, ◌<◌, ◌≡◌, refl, ◌==◌, Option, none, some, List, [], ◌∷◌,
  ltb, if◌then◌else◌, arith,
}
use memhook.Index.{TimeIndex}
use memhook.Index.Laws.{empty-IsIndexed, find-empty}
use memhook.Storage.{MappedStorage, Contract, Entry}
use memhook.Engine.{CachedTrace, cached_address, cached_timestamp, Unwinder, Engine, Policy}
use memhook.Engine.Tracking.{IsConsistent, stored, StoreIsValid}
use memhook.Engine.Alloc.{live}

-- What `getenv` gives for the variables that are read, whose names lack the prefix `MEMHOOK_` here.
pub record Environment : Type 0 where
  pub net_host : Option (List ℕ)
  pub net_port : Option (List ℕ)
  pub size_gb : Option (List ℕ)
  pub size_mb : Option (List ℕ)
  pub size_kb : Option (List ℕ)
  pub size : Option (List ℕ)
  pub file : Option (List ℕ)
  pub shm_name : Option (List ℕ)
  pub cache_flush_interval : Option (List ℕ)
  pub cache_flush_max_items : Option (List ℕ)
  pub getprocinfo_when_stack_unwinds : Option (List ℕ)

-- The library's parsers: `strtoul(text, NULL, 10)`, and `ChronoDurationFromString`, which has no
-- result where it throws or finds no duration, and else a whole number of seconds in nanoseconds.
pub record Platform : Type 0 where
  pub strtoul : List ℕ → ℕ
  pub duration_from_string : List ℕ → Option ℤ

-- `MEMHOOK_NETWORK_STORAGE_PORT`
abbrev pub network_storage_port : ℤ
network_storage_port = pos 20015

-- `MEMHOOK_SHARED_MEMORY`, "ShmMemHook".
abbrev pub shared_memory : List ℕ
shared_memory = 83 ∷ 104 ∷ 109 ∷ 77 ∷ 101 ∷ 109 ∷ 72 ∷ 111 ∷ 111 ∷ 107 ∷ []

-- The storage that is asked for.
pub data Choice : Type 0 where
  network : List ℕ → ℤ → Choice
  mapped_file : List ℕ → ℕ → Choice
  shared : List ℕ → ℕ → Choice

-- The conversion of an `unsigned long` to an `int`.
abbrev pub to_int : ℕ → ℤ
to_int n = if ltb (n % 2 ^ 32) (2 ^ 31) then pos (n % 2 ^ 32) else negsuc (2 ^ 32 - 1 - n % 2 ^ 32)

-- A size in units of 2 ^ `shift` bytes; 0 leaves the default.
abbrev pub scaled : ℕ → ℕ → ℕ → ℕ
scaled default shift n = if n == 0 then default else (n * 2 ^ shift) % 2 ^ 64

abbrev pub default_size : ℕ
default_size = 8 * 2 ^ 30

module _ (p : Platform) (env : Environment) where
  -- The first of the four variables that is set decides.
  abbrev pub size_of_env : (gb mb kb bytes : Option (List ℕ)) → ℕ
  size_of_env (some gb) _ _ _ = scaled default_size 30 (p.strtoul gb)
  size_of_env none (some mb) _ _ = scaled default_size 20 (p.strtoul mb)
  size_of_env none none (some kb) _ = scaled default_size 10 (p.strtoul kb)
  size_of_env none none none (some bytes) = scaled default_size 0 (p.strtoul bytes)
  size_of_env none none none none = default_size

  unfoldable pub ipc_size : ℕ
  ipc_size = size_of_env env.size_gb env.size_mb env.size_kb env.size

  abbrev pub file_or_shared : Option (List ℕ) → Option (List ℕ) → Choice
  file_or_shared (some path) _ = mapped_file path ipc_size
  file_or_shared none (some name) = shared name ipc_size
  file_or_shared none none = shared shared_memory ipc_size

  abbrev pub port : Option (List ℕ) → ℤ
  port none = network_storage_port
  port (some text) = to_int (p.strtoul text)

  -- `NewStorage`
  unfoldable pub new_storage : Choice
  new_storage = elim env.net_host [
    | some host ↦ network host (port env.net_port)
    | none ↦ file_or_shared env.file env.shm_name
  ]

  abbrev pub timeout_of : Option (List ℕ) → ℤ
  timeout_of none = pos 2000000000
  timeout_of (some text) = elim (p.duration_from_string text) [
    | none ↦ pos 2000000000
    | some timeout ↦ timeout
  ]

  abbrev pub max_items_of : Option (List ℕ) → ℕ
  max_items_of none = 2 ^ 64 - 1
  max_items_of (some text) = p.strtoul text

  -- A text that is set and does not begin with '0'.
  abbrev pub policy_of : Option (List ℕ) → Policy
  policy_of none = Policy.flush_local_cache_when
  policy_of (some []) = Policy.unwind_call_stack_when
  policy_of (some (ch ∷ _)) =
      if ch == 48 then Policy.flush_local_cache_when else Policy.unwind_call_stack_when

  module _ (ix : TimeIndex CachedTrace cached_address cached_timestamp) (m : MappedStorage)
      (u : Unwinder) where
    -- `OnInitialize`: `create` opens a storage or throws, which leaves the engine without one.
    -- Times are in nanoseconds, and `caches` is the unwinder after its `Initialize`.
    unfoldable pub on_initialize : (Choice → Option m.Store) → u.Caches → Engine ix m u
    on_initialize create caches = record {
      storage = create new_storage;
      cache = ix.empty;
      unwinder = caches;
      cache_flush_timeout = timeout_of env.cache_flush_interval;
      cache_flush_max_items = max_items_of env.cache_flush_max_items;
      getprocinfo_policy = policy_of env.getprocinfo_when_stack_unwinds;
    }

    -- The engine starts consistent and knows no allocation, whatever the environment asks for and
    -- whether or not the storage can be opened, when a storage that is opened is valid and empty.
    pub on_initialize-IsConsistent :
        {IsValid : m.Store → Type 0} {lookup : ℕ → m.Store → Option Entry}
        → (law : Contract m IsValid lookup) (create : Choice → Option m.Store) (caches : u.Caches)
        → ((choice : Choice) (s : m.Store)
            → create choice ≡ some s
            → IsValid s × ((a : ℕ) → lookup a s ≡ none))
        → IsConsistent ix m u law (on_initialize create caches)
          × ((a : ℕ) → live ix m u law (on_initialize create caches) a ≡ none)
    unfolding on_initialize
    on_initialize-IsConsistent law create caches opened = (
      record {
        indexed = empty-IsIndexed ix;
        valid = (fresh (create new_storage) refl).0;
        apart = λ a h. (fresh (create new_storage) refl).1 a;
      },
      λ a. rw (find-empty ix a) ((fresh (create new_storage) refl).1 a),
    )
      where
        fresh :
            (o : Option m.Store)
            → create new_storage ≡ o
            → StoreIsValid ix m u law o × ((a : ℕ) → stored ix m u law a o ≡ none)
        fresh none h = (tt, λ a. refl)
        fresh (some s) h = opened new_storage s h

  -- A variable that is not set, or a number below the bound.
  abbrev pub IsBelow : ℕ → Option (List ℕ) → Type 0
  IsBelow bound none = Unit
  IsBelow bound (some text) = p.strtoul text < bound

  size_of_env_positive :
      (gb mb kb bytes : Option (List ℕ))
      → IsBelow (2 ^ 34) gb
      → IsBelow (2 ^ 44) mb
      → IsBelow (2 ^ 54) kb
      → IsBelow (2 ^ 64) bytes
      → 0 < size_of_env gb mb kb bytes
  size_of_env_positive (some gb) _ _ _ h _ _ _ = ground (arith, h)
  size_of_env_positive none (some mb) _ _ _ h _ _ = ground (arith, h)
  size_of_env_positive none none (some kb) _ _ _ h _ = ground (arith, h)
  size_of_env_positive none none none (some bytes) _ _ _ h = ground (arith, h)
  size_of_env_positive none none none none _ _ _ _ = omega arith

  -- The size that is asked for is not 0, where no variable is so large that the shift wraps it
  -- around.
  pub ipc_size_positive :
      IsBelow (2 ^ 34) env.size_gb
      → IsBelow (2 ^ 44) env.size_mb
      → IsBelow (2 ^ 54) env.size_kb
      → IsBelow (2 ^ 64) env.size
      → 0 < ipc_size
  unfolding ipc_size
  ipc_size_positive = size_of_env_positive env.size_gb env.size_mb env.size_kb env.size
