-- ===== src/Examples/Hooked.antt =====
-- Hooked calls in the example world.
use memhook.Prelude.{ℕ, ℤ, pos, ◌≡◌, refl, false, none, some, List, [], ◌∷◌, find_key, arith}
use memhook.Engine.{Engine}
use memhook.Engine.Alloc.{live}
use memhook.Engine.Refinement.{Hook}
use memhook.Hooks.{World}
use memhook.Hooks.DlFunctions.{Libc}
use memhook.Hooks.Memory.{memhook_realloc, map_failed}
use memhook.Hooks.Failures.{realloc_failed}
use memhook.Hooks.Direct.{Call, InnerCalls}
use memhook.Hooks.Calls.{hooked}
use memhook.Hooks.Recorded.{run_hooked, hooked-Transparent, Transparent}
use memhook.Hooks.Cpp.{do_cpp_alloc}
use memhook.Hooks.Cpp.Laws.{Reserve, Ended, recording, do_cpp_alloc-Ended}
use memhook.Hooks.Resolver.{Resolver, Outside, memhook_resolve, memhook_resolve_silent}
use memhook.Examples.{
  cached, unwinder, segment, contract, engine, engine-IsConsistent, libc, node_calls, inner_calls,
  world,
}

abbrev calls : List (Call × ℤ)
calls =
    (Call.call_malloc 16, pos 1)
    ∷ (Call.call_calloc 2 8, pos 2)
    ∷ (Call.call_realloc 4096 64, pos 3)
    ∷ (Call.call_free 4160, pos 4)
    ∷ (Call.call_munmap 8192 16, pos 5)
    ∷ []

-- The nodes that the engine allocates lie between the blocks that the program gets.
abbrev hooks : List Hook
hooks =
    Hook.alloc 4096 16 (pos 1)
    ∷ Hook.alloc 4160 16 (pos 2)
    ∷ Hook.realloc 4096 4224 64 (pos 3)
    ∷ Hook.free 4160
    ∷ Hook.free 8192
    ∷ []

abbrev after : World libc cached segment unwinder inner_calls
after = run_hooked libc cached segment unwinder inner_calls calls world

hooked-Transparent_example :
    Transparent libc cached segment unwinder inner_calls
      (Call.call_realloc 4096 64)
      (pos 3)
      world
      (hooked libc cached segment unwinder inner_calls (Call.call_realloc 4096 64) (pos 3) world)
hooked-Transparent_example =
    hooked-Transparent libc cached segment unwinder inner_calls (Call.call_realloc 4096 64) (pos 3)
      world

abbrev nested_world : World libc cached segment unwinder inner_calls
nested_world = record world { hook_depth = 1 }

-- Each call of the handler gives back one of the reserves.
libc-Reserve : Reserve libc (λ s. s.1)
libc-Reserve = record {
  releases = λ size nh s failed installed returns. ground (arith, failed, installed);
}

abbrev exhausted : World libc cached segment unwinder inner_calls
exhausted = record world { libc = (0, 3) }

do_cpp_alloc-Ended_example :
    Ended libc cached segment unwinder inner_calls false 0
      (recording libc cached segment unwinder inner_calls libc-Reserve 16 (pos 1) exhausted)
      (do_cpp_alloc libc cached segment unwinder inner_calls 4 16 false (pos 1) exhausted)
do_cpp_alloc-Ended_example =
    do_cpp_alloc-Ended libc cached segment unwinder inner_calls libc-Reserve 16 4 false (pos 1)
      exhausted (omega arith)

-- A library that has no memory left.
abbrev full_libc : Libc
full_libc = record libc {
  realloc = λ mem size s. (0, s);
  mmap = λ addr length prot flags fd offset s. (map_failed, s);
}

abbrev full_inner_calls : InnerCalls full_libc cached segment unwinder
full_inner_calls = record { in_hook = λ h e s. node_calls h; in_flush_call_stack_cache = λ e s. [] }

abbrev full_world : World full_libc cached segment unwinder full_inner_calls
full_world = record { libc = (4096, 0); instance_ = some engine; hook_depth = 0; reentered = false }

realloc_failed_example :
    (e' : Engine cached segment unwinder) × ((memhook_realloc full_libc cached segment unwinder
        full_inner_calls 4096 64
        (pos 2)
        full_world).1.instance_
      ≡ some e')
    × (live cached segment unwinder contract e' 4096 ≡ none)
unfolding find_key
realloc_failed_example =
    realloc_failed full_libc cached segment unwinder full_inner_calls contract full_world engine
      (pos 2) refl refl engine-IsConsistent 4096 64 (λ h. absurd (omega (arith, h))) refl refl

-- A lookup of a host allocates a buffer and frees another one.
abbrev outside : Outside libc
outside = record {
  calls = λ f s. (Call.call_malloc 32, pos 1) ∷ (Call.call_free 4096, pos 1) ∷ [];
  finish = λ f s. (s.0, s);
}

abbrev resolved : ℕ × World libc cached segment unwinder inner_calls
resolved =
    memhook_resolve libc outside cached segment unwinder inner_calls (Resolver.gethostbyname 7)
      world

memhook_resolve_silent_example :
    (resolved.1.instance_ ≡ some engine)
    × (resolved.1.hook_depth ≡ 0)
    × ((resolved.0, resolved.1.libc) ≡ outside.finish (Resolver.gethostbyname 7) (4128, 0))
memhook_resolve_silent_example =
    memhook_resolve_silent libc outside cached segment unwinder inner_calls
      (Resolver.gethostbyname 7) world
