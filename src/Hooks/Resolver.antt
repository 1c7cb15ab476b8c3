-- ===== src/Hooks/Resolver.antt =====
-- The functions of src/memhook/memhook.cpp that call the C library with the hook depth raised:
-- dlopen, dlmopen, and those on hosts and users. While one of them runs the library allocates
-- through the hooked functions. What these calls are, and what the function answers, is the
-- parameter `Outside`.
use memhook.Prelude.{ℕ, ℤ, ◌≡◌, refl, ap, ◌∙◌, ◌-◌, ◌==◌, not, true, List, [], ◌∷◌, arith}
use memhook.Index.{TimeIndex}
use memhook.Storage.{MappedStorage}
use memhook.Engine.{CachedTrace, cached_address, cached_timestamp, Unwinder}
use memhook.Hooks.DlFunctions.{Libc}
use memhook.Hooks.Direct.{Call, run_direct, InnerCalls}
use memhook.Hooks.{World, is_nested, enter, leave, on_libc}
use memhook.Hooks.Calls.{hooked}
use memhook.Hooks.Recorded.{run_hooked, hooked-Transparent, hooked_nested}

-- The functions, over a word that stands for the arguments of a call.
pub data Resolver : Type 0 where
  dlopen : ℕ → Resolver
  dlmopen : ℕ → Resolver
  getaddrinfo : ℕ → Resolver
  getnameinfo : ℕ → Resolver
  gethostbyname : ℕ → Resolver
  gethostbyaddr : ℕ → Resolver
  gethostbyname2 : ℕ → Resolver
  gethostent_r : ℕ → Resolver
  gethostbyaddr_r : ℕ → Resolver
  gethostbyname_r : ℕ → Resolver
  gethostbyname2_r : ℕ → Resolver
  getpwent_r : ℕ → Resolver
  getpwuid_r : ℕ → Resolver
  getpwnam_r : ℕ → Resolver

pub record Outside (c : Libc) : Type 0 where
  -- The hooked functions that the library calls before the function returns, in order.
  pub calls : Resolver → c.State → List (Call × ℤ)
  -- The answer, and the state of the library after what it does behind these calls.
  pub finish : Resolver → c.State → ℕ × c.State

module _ (c : Libc) (o : Outside c) (ix : TimeIndex CachedTrace cached_address cached_timestamp)
    (m : MappedStorage) (u : Unwinder) (n : InnerCalls c ix m u) where
  abbrev W : Type 0
  W = World c ix m u n

  -- `do_dlopen`, `do_dlmopen` and so on: the call of the library alone.
  unfoldable pub do_resolve : Resolver → W → ℕ × W
  do_resolve f w = on_libc c ix m u n (o.finish f) (run_hooked c ix m u n (o.calls f w.libc) w)

  -- `NoHook no_hook;` and the call.
  unfoldable pub memhook_resolve : Resolver → W → ℕ × W
  memhook_resolve f w = let (r, w') = do_resolve f (enter c ix m u n w) in (r, leave c ix m u n w')

  run_hooked_nested :
      (ks : List (Call × ℤ)) (w : W)
      → is_nested c ix m u n w ≡ true
      → ((run_hooked c ix m u n ks w).instance_ ≡ w.instance_)
        × ((run_hooked c ix m u n ks w).hook_depth ≡ w.hook_depth)
        × ((run_hooked c ix m u n ks w).libc ≡ run_direct c ks w.libc)
  unfolding run_hooked
  run_hooked_nested [] w h = (refl, refl, refl)
  run_hooked_nested ((k, now) ∷ ks) w h =
      let (_, _, depth, _, _) = hooked-Transparent c ix m u n k now w in
      let (told, lib) = hooked_nested c ix m u n k now w h in
      let (same, kept, last) =
        run_hooked_nested ks (hooked c ix m u n k now w).1 (ap (λ d. not (d == 0)) depth ∙ h) in
      (same ∙ told, kept ∙ depth, last ∙ ap (run_direct c ks) lib)

  -- What the library allocates in the course of a function on hosts, users or libraries is not
  -- recorded, though it goes through the hooked functions: the engine and the hook depth are as
  -- before, and the answer and the library are those of a run without hooks.
  pub memhook_resolve_silent :
      (f : Resolver) (w : W)
      → ((memhook_resolve f w).1.instance_ ≡ w.instance_)
        × ((memhook_resolve f w).1.hook_depth ≡ w.hook_depth)
        × (((memhook_resolve f w).0, (memhook_resolve f w).1.libc)
            ≡ o.finish f (run_direct c (o.calls f w.libc) w.libc))
  unfolding memhook_resolve do_resolve
  memhook_resolve_silent f w =
      let (same, kept, last) =
        run_hooked_nested (o.calls f w.libc) (enter c ix m u n w) (ground arith) in
      (same, ap (λ d. d - 1) kept ∙ omega arith, ap (o.finish f) last)
