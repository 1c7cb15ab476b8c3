-- ===== src/Hooks.antt =====
-- The hooked functions of src/memhook/memhook.cpp, with `NoHook` of src/memhook/no_hook.h and the
-- static functions of `Engine` in src/memhook/engine.cpp. The functions of the C library that
-- `DLFunctions` finds are the parameter `Libc`, over the state of that library. `hook_depth`
-- belongs to one thread, and a world is what that thread sees; the time of a call is an argument.
pub mod DlFunctions
pub mod Direct
pub mod Memory
pub mod Cpp
pub mod Calls
pub mod Nested
pub mod Recorded
pub mod Failures
pub mod Resolver
use memhook.Prelude.{
  ℕ, ℤ, ◌+◌, ◌-◌, ◌==◌, Bool, true, false, not, ◌||◌, Option, none, some, List, [], ◌∷◌,
}
use memhook.Index.{TimeIndex}
use memhook.Storage.{MappedStorage}
use memhook.Engine.{
  CachedTrace, cached_address, cached_timestamp, Unwinder, Engine, do_hook_alloc, do_hook_free,
  do_hook_realloc, do_flush_call_stack_cache,
}
use memhook.Engine.Refinement.{Hook}
use memhook.Hooks.DlFunctions.{Libc}
use memhook.Hooks.Direct.{Call, InnerCalls, run_direct}

module _ (c : Libc) (ix : TimeIndex CachedTrace cached_address cached_timestamp) (m : MappedStorage)
    (u : Unwinder) (n : InnerCalls c ix m u) where
  pub record World : Type 0 where
    pub libc : c.State
    -- `GetInstance()`
    pub instance_ : Option (Engine ix m u)
    pub hook_depth : ℕ
    -- Whether code of the engine called a hooked function outside of any `NoHook`: that function then
    -- enters the engine again, and what becomes of this is not modelled.
    pub reentered : Bool

  -- `NoHook::IsNested`
  abbrev pub is_nested : World → Bool
  is_nested w = not (w.hook_depth == 0)

  -- `NoHook::NoHook`
  abbrev pub enter : World → World
  enter w = record w { hook_depth = w.hook_depth + 1 }

  -- `NoHook::~NoHook`
  abbrev pub leave : World → World
  leave w = record w { hook_depth = w.hook_depth - 1 }

  -- A call of the C library.
  abbrev pub on_libc {ℓ} : {A : Type ℓ} → (c.State → A × c.State) → World → A × World
  on_libc call w = let (r, s) = call w.libc in (r, record w { libc = s })

  -- Calls come back to the engine unless they are nested.
  abbrev pub reenters : (nested : Bool) → List (Call × ℤ) → Bool
  reenters true _ = false
  reenters false [] = false
  reenters false (k ∷ ks) = true

  -- The common part of the static functions of `Engine`: what is done to the instance, and what the
  -- library is called for meanwhile, through the hooked functions. Nested calls pass straight on to
  -- the library.
  abbrev pub with_instance :
      (Engine ix m u → c.State → List (Call × ℤ)) → (Engine ix m u → Engine ix m u) → World → World
  with_instance calls f w = elim w.instance_ [
    | none ↦ w
    | some e ↦ record w {
      libc = run_direct c (calls e w.libc) w.libc;
      instance_ = some (f e);
      reentered = reenters (is_nested w) (calls e w.libc) || w.reentered;
    }
  ]

  unfoldable pub hook_alloc : ℕ → ℕ → ℤ → World → World
  hook_alloc mem memsize now =
      with_instance (n.in_hook (Hook.alloc mem memsize now)) (do_hook_alloc ix m u mem memsize now)

  unfoldable pub hook_free : ℕ → World → World
  hook_free mem = with_instance (n.in_hook (Hook.free mem)) (do_hook_free ix m u mem)

  unfoldable pub hook_realloc : ℕ → ℕ → ℕ → ℤ → World → World
  hook_realloc old_mem new_mem new_size now =
      with_instance (n.in_hook (Hook.realloc old_mem new_mem new_size now))
        (do_hook_realloc ix m u old_mem new_mem new_size now)

  unfoldable pub flush_call_stack_cache : World → World
  flush_call_stack_cache =
      with_instance n.in_flush_call_stack_cache (do_flush_call_stack_cache ix m u)
