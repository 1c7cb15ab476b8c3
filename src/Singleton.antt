-- ===== src/Singleton.antt =====
-- `Singleton` and `SingletonRefCounter` of src/memhook/singleton.h, by which threads share the
-- engine. A thread takes one step for each access of `instance_` and of a reference counter, and
-- threads take their steps in any order. An object is a number. What `OnInitialize` and `OnDestroy`
-- do is modelled in Engine.
pub mod Counting
pub mod Moves
pub mod Lifetime
pub mod Race
use memhook.Prelude.{
  ℕ, zero, suc, ◌+◌, ◌-◌, ◌^◌, ◌==◌, ◌≡◌, ◌<◌, Bool, true, false, not, ◌||◌, Option, none, some,
  List, [], ◌∷◌, All, length, if◌then◌else◌,
}
use memhook.Atomics.{Memory, update}
use memhook.Atomics.AsmX86.{fetch_and_add, add_and_fetch}

-- Where a thread stands: outside; in `GetInstance`, behind the test of `instance_`, or behind its
-- load for `reset`, with what was loaded; with a pointer that `GetInstance` returned; in
-- `Initialize` before the store to `instance_`, or behind it until `OnInitialize` returns; in
-- `Destroy` between the load of `instance_` and the store of NULL, or before the release.
pub data Pc : Type 0 where
  idle : Pc
  tested : Pc
  loaded : ℕ → Pc
  holds : ℕ → Pc
  constructed : ℕ → Pc
  initializing : ℕ → Pc
  unlinking : Option ℕ → Pc
  destroying : ℕ → Pc

-- What the threads share, with how often each object was destroyed and deleted, and whether an
-- object that is deleted was accessed. The objects from `fresh` on are not yet made.
pub record Shared : Type 0 where
  pub instance_ : Option ℕ
  pub ref_counter : Memory
  pub deleted : ℕ → ℕ
  pub fresh : ℕ
  pub fault : Bool

abbrev pub touch : ℕ → Shared → Bool
touch p s = s.fault || not (s.deleted p == 0)

-- `intrusive_ptr_add_ref`
unfoldable pub add_ref : ℕ → Shared → Shared
add_ref p s =
    let (before, counters) = fetch_and_add 32 p 1 s.ref_counter in
    record s { ref_counter = counters; fault = touch p s }

-- `intrusive_ptr_release`: -1 is the word 2 ^ 32 - 1.
unfoldable pub release : ℕ → Shared → Shared
release p s =
    let (left, counters) = add_and_fetch 32 p (2 ^ 32 - 1) s.ref_counter in
    record s {
      ref_counter = counters;
      deleted = if left == 0 then update p (s.deleted p + 1) s.deleted else s.deleted;
      fault = touch p s;
    }

-- `GetInstance` and the end of the pointer that it returned, and `Initialize` and `Destroy` from
-- their stores to `instance_` on. `OnInitialize` accesses its object up
-- to its end, and an object that was deleted stays so: the last of these accesses is the step.
unfoldable pub act : Shared → Pc → Shared × Pc
act s idle = (s, elim s.instance_ [ none ↦ idle | some p ↦ tested ])
act s tested = (s, elim s.instance_ [ none ↦ idle | some p ↦ loaded p ])
act s (loaded p) = (add_ref p s, holds p)
act s (holds p) = (release p s, idle)
act s (constructed p) = (record s { instance_ = some p }, initializing p)
act s (initializing p) = (record s { fault = touch p s }, idle)
act s (unlinking o) =
    (record s { instance_ = none }, elim o [ none ↦ idle | some p ↦ destroying p ])
act s (destroying p) = (release p s, idle)

-- `Initialize` up to the store; the constructor sets the counter to 0, and no other thread knows the
-- object yet.
unfoldable pub initialize : Shared → Shared × Pc
initialize s =
    let made : Shared = record s {
      ref_counter = update s.fresh 0 s.ref_counter;
      fresh = suc s.fresh;
    } in
    (add_ref s.fresh made, constructed s.fresh)

-- The load of `Destroy`.
unfoldable pub destroy : Shared → Shared × Pc
destroy s = (s, unlinking s.instance_)

-- What a thread does next; it starts `Initialize` or `Destroy` outside of the others only.
pub data Event : Type 0 where
  steps : ℕ → Event
  initializes : ℕ → Event
  destroys : ℕ → Event

pub record System : Type 0 where
  pub shared : Shared
  pub threads : List Pc

unfoldable pub pc_at : ℕ → List Pc → Option Pc
pc_at i [] = none
pc_at zero (c ∷ cs) = some c
pc_at (suc i) (c ∷ cs) = pc_at i cs

unfoldable pub set_pc : ℕ → Pc → List Pc → List Pc
set_pc i c [] = []
set_pc zero c (d ∷ ds) = c ∷ ds
set_pc (suc i) c (d ∷ ds) = d ∷ set_pc i c ds

abbrev pub after : ℕ → Shared × Pc → System → System
after i (sh, c) s = record { shared = sh; threads = set_pc i c s.threads }

abbrev pub when_idle : ℕ → (Shared → Shared × Pc) → Option Pc → System → System
when_idle i f (some idle) s = after i (f s.shared) s
when_idle i f _ s = s

abbrev pub step_at : ℕ → Option Pc → System → System
step_at i none s = s
step_at i (some c) s = after i (act s.shared c) s

unfoldable pub event : Event → System → System
event (steps i) s = step_at i (pc_at i s.threads) s
event (initializes i) s = when_idle i initialize (pc_at i s.threads) s
event (destroys i) s = when_idle i destroy (pc_at i s.threads) s

unfoldable pub run : List Event → System → System
run [] s = s
run (e ∷ es) s = run es (event e s)

abbrev pub all_idle : ℕ → List Pc
all_idle zero = []
all_idle (suc n) = idle ∷ all_idle n

-- So many threads, before the static objects are constructed.
abbrev pub start : ℕ → System
start n = record {
  shared = record {
    instance_ = none;
    ref_counter = λ p. 0;
    deleted = λ p. 0;
    fresh = 0;
    fault = false;
  };
  threads = all_idle n;
}

abbrev pub IsSettled : Pc → Type 0
IsSettled (loaded p) = ⊥
IsSettled (initializing p) = ⊥
IsSettled _ = Unit

-- The store of `Initialize` is made when there is no instance, and that of `Destroy` while the
-- instance is the one that was loaded, no thread is in `OnInitialize`, and none is in `GetInstance`
-- with a pointer that it has loaded and not yet counted.
abbrev pub Permits : Option Pc → System → Type 0
Permits (some (constructed p)) s = s.shared.instance_ ≡ none
Permits (some (unlinking o)) s = (s.shared.instance_ ≡ o) × All IsSettled s.threads
Permits _ s = Unit

abbrev pub Allowed : Event → System → Type 0
Allowed (steps i) s = Permits (pc_at i s.threads) s
Allowed _ s = Unit

abbrev pub IsCareful : List Event → System → Type 0
IsCareful [] s = Unit
IsCareful (e ∷ es) s = Allowed e s × IsCareful es (event e s)
