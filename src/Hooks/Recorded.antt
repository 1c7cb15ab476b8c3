-- ===== src/Hooks/Recorded.antt =====
-- What the hooked functions of src/memhook/memhook.cpp do for the program and for the engine.
use mathlib.Core.Path.{subst}
use mathlib.Core.Option
use memhook.Prelude.{
  ℕ, ℤ, ◌≡◌, refl, ap, sym, ◌∙◌, ◌==◌, ◌+◌, ◌-◌, Bool, true, false, if◌then◌else◌, Option, none,
  some, List, [], ◌∷◌, ◌++◌, inl, inr, Bool-cases, arith,
}
use memhook.Index.{TimeIndex}
use memhook.Storage.{MappedStorage}
use memhook.Engine.{CachedTrace, cached_address, cached_timestamp, Unwinder, Engine}
use memhook.Engine.Refinement.{Hook, run_hooks}
use memhook.Hooks.DlFunctions.{Libc}
use memhook.Hooks.Direct.{Call, Answer, direct, run_direct, InnerCalls}
use memhook.Hooks.{World, is_nested, with_instance}
use memhook.Hooks.Calls.{answered, hooked, report, reports_first, reporting}
use memhook.Hooks.Nested.{hooked-reporting}

abbrev pub hooks_of : Option Hook → List Hook
hooks_of none = []
hooks_of (some h) = h ∷ []

module _ (c : Libc) where
  run_direct-append :
      (ks ks' : List (Call × ℤ)) (s : c.State)
      → run_direct c (ks ++ ks') s ≡ run_direct c ks' (run_direct c ks s)
  run_direct-append [] ks' s = refl
  run_direct-append ((k, now) ∷ ks) ks' s = run_direct-append ks ks' (direct c k s).1

  module _ (ix : TimeIndex CachedTrace cached_address cached_timestamp) (m : MappedStorage)
      (u : Unwinder) (n : InnerCalls c ix m u) where
    abbrev W : Type 0
    W = World c ix m u n

    -- What an engine calls in the library while it handles a hook.
    abbrev pub inner : Option Hook → Option (Engine ix m u) → c.State → List (Call × ℤ)
    inner (some h) (some e) s = n.in_hook h e s
    inner _ _ s = []

    -- The calls that the library gets in the course of a call of a hooked function.
    abbrev pub made : Call → ℤ → W → List (Call × ℤ)
    made k now w =
        let (r, s) = direct c k w.libc in
        if is_nested c ix m u n w
        then (k, now) ∷ []
        else if reports_first k
        then inner (answered k r now) w.instance_ w.libc ++ (k, now) ∷ []
        else (k, now) ∷ inner (answered k r now) w.instance_ s

    -- What becomes of the instance: a call that is not nested reports what it answers.
    abbrev pub informed : Call → ℤ → Answer → W → Option (Engine ix m u)
    informed k now r w =
        if is_nested c ix m u n w
        then w.instance_
        else Option.map (run_hooks ix m u (hooks_of (answered k r now))) w.instance_

    abbrev pub Transparent : Call → ℤ → W → Answer × W → Type 0
    Transparent k now w r =
        (r.0 ≡ (direct c k w.libc).0)
        × (r.1.libc ≡ run_direct c (made k now w) w.libc)
        × (r.1.hook_depth ≡ w.hook_depth)
        × (r.1.reentered ≡ w.reentered)
        × (r.1.instance_ ≡ informed k now r.0 w)

    pub depth-with_instance :
        (calls : Engine ix m u → c.State → List (Call × ℤ)) (g : Engine ix m u → Engine ix m u)
        → (w : W)
        → ((with_instance c ix m u n calls g w).hook_depth ≡ w.hook_depth)
          × ((with_instance c ix m u n calls g w).instance_ ≡ Option.map g w.instance_)
    depth-with_instance calls g w = by_instance w.instance_ w.libc w.hook_depth w.reentered
      where
        by_instance :
            (o : Option (Engine ix m u)) (s : c.State) (d : ℕ) (x : Bool)
            → let w : W = record { libc = s; instance_ = o; hook_depth = d; reentered = x } in
              ((with_instance c ix m u n calls g w).hook_depth ≡ d)
              × ((with_instance c ix m u n calls g w).instance_ ≡ Option.map g o)
        by_instance none s d x = (refl, refl)
        by_instance (some e) s d x = (refl, refl)

    map-run_none : (o : Option (Engine ix m u)) → Option.map (run_hooks ix m u []) o ≡ o
    unfolding run_hooks
    map-run_none none = refl
    map-run_none (some e) = refl

    -- The state after a hook is reported, field by field.
    libc-report :
        (h : Option Hook) (o : Option (Engine ix m u)) (s : c.State) (d : ℕ) (x : Bool)
        → (d == 0) ≡ false
        → let w : W = record { libc = s; instance_ = o; hook_depth = d; reentered = x } in
          ((report c ix m u n h w).libc ≡ run_direct c (inner h o s) s)
          × ((report c ix m u n h w).hook_depth ≡ d)
          × ((report c ix m u n h w).reentered ≡ x)
          × ((report c ix m u n h w).instance_ ≡ Option.map (run_hooks ix m u (hooks_of h)) o)
    unfolding run_hooks
    libc-report none none s d x nested = (refl, refl, refl, refl)
    libc-report none (some e) s d x nested = (refl, refl, refl, refl)
    libc-report (some h) none s d x nested = (refl, refl, refl, refl)
    libc-report (some h) (some e) s d x nested = (refl, refl, rw nested refl, refl)

    -- A function that reports first has nothing to answer, and nothing of the answer to report.
    nothing_answered :
        (k : Call) (now : ℤ)
        → reports_first k ≡ true
        → ((s : c.State) → (direct c k s).0 ≡ Answer.nothing)
    nothing_answered (Call.call_free mem) now h s = refl
    nothing_answered (Call.call_cfree mem) now h s = refl
    nothing_answered (Call.call_malloc _) now h s = absurd (ground (arith, h))
    nothing_answered (Call.call_calloc _ _) now h s = absurd (ground (arith, h))
    nothing_answered (Call.call_memalign _ _) now h s = absurd (ground (arith, h))
    nothing_answered (Call.call_aligned_alloc _ _) now h s = absurd (ground (arith, h))
    nothing_answered (Call.call_valloc _) now h s = absurd (ground (arith, h))
    nothing_answered (Call.call_pvalloc _) now h s = absurd (ground (arith, h))
    nothing_answered (Call.call_realloc _ _) now h s = absurd (ground (arith, h))
    nothing_answered (Call.call_posix_memalign _ _ _) now h s = absurd (ground (arith, h))
    nothing_answered (Call.call_mmap _ _ _ _ _ _) now h s = absurd (ground (arith, h))
    nothing_answered (Call.call_mmap64 _ _ _ _ _ _) now h s = absurd (ground (arith, h))
    nothing_answered (Call.call_munmap _ _) now h s = absurd (ground (arith, h))
    nothing_answered (Call.call_mremap _ _ _ _ _) now h s = absurd (ground (arith, h))

    module _ (k : Call) (now : ℤ) (w : W) where
      abbrev r : Answer × c.State
      r = direct c k w.libc

      entered : (w.hook_depth + 1 == 0) ≡ false
      entered = ground arith

      reporting-Transparent : Transparent k now w (reporting c ix m u n k now w)
      reporting-Transparent = elim (Bool-cases (w.hook_depth == 0)) [
        | inr nested ↦ rw nested (refl, refl, refl, refl, refl)
        | inl outermost ↦ elim (Bool-cases (reports_first k)) [
          | inl first ↦
              let answer = nothing_answered k now first in
              let (kept, depth, once, told) =
                libc-report (answered k Answer.nothing now) w.instance_ w.libc (w.hook_depth + 1)
                  w.reentered entered in
              rw (outermost, first)
                (
                  answer _ ∙ sym (answer w.libc),
                  rw (answer w.libc) (
                      ap (λ s. (direct c k s).1) kept
                      ∙ sym (
                          run_direct-append
                            (inner (answered k Answer.nothing now) w.instance_ w.libc)
                            ((k, now) ∷ []) w.libc)),
                  ap (λ d. d - 1) depth ∙ omega arith,
                  once,
                  told
                      ∙ ap
                          (λ a.
                            Option.map (run_hooks ix m u (hooks_of (answered k a now))) w.instance_)
                          (sym (answer _)),
                )
          | inr after ↦
              let (kept, depth, once, told) =
                libc-report (answered k r.0 now) w.instance_ r.1 (w.hook_depth + 1) w.reentered
                  entered in
              rw (outermost, after) (refl, kept, ap (λ d. d - 1) depth ∙ omega arith, once, told)
        ]
      ]

      -- A hooked function answers what the C library answers in its place, the hook depth is what
      -- it was, and no call of the engine's code comes back to the engine. A call in the course of
      -- another one leaves the engine as it is and the library as the call alone does. Any other
      -- call tells the engine what was answered, and leaves the library as the call and the engine's
      -- own calls do: those before it for `free` and `cfree`, so that a block is forgotten before it
      -- is released, and after it for the others.
      pub hooked-Transparent : Transparent k now w (hooked c ix m u n k now w)
      hooked-Transparent =
          subst (Transparent k now w) (sym (hooked-reporting c ix m u n k now w))
            reporting-Transparent

      -- A call of a hooked function in the course of another one is not recorded.
      pub hooked_nested :
          is_nested c ix m u n w ≡ true
          → ((hooked c ix m u n k now w).1.instance_ ≡ w.instance_)
            × ((hooked c ix m u n k now w).1.libc ≡ r.1)
      hooked_nested h =
          let (_, lib, _, _, told) = hooked-Transparent in (told ∙ rw h refl, lib ∙ rw h refl)

      -- A call of a hooked function outside of any other reports the library's answer to the
      -- engine.
      pub hooked_outermost :
          is_nested c ix m u n w ≡ false
          → (hooked c ix m u n k now w).1.instance_
            ≡ Option.map (run_hooks ix m u (hooks_of (answered k r.0 now))) w.instance_
      hooked_outermost h =
          let (answer, _, _, _, told) = hooked-Transparent in
          told
          ∙ rw h (
              ap (λ a. Option.map (run_hooks ix m u (hooks_of (answered k a now))) w.instance_)
                answer)

    unfoldable pub run_hooked : List (Call × ℤ) → W → W
    run_hooked [] w = w
    run_hooked ((k, now) ∷ ks) w = run_hooked ks (hooked c ix m u n k now w).1

    -- The hooks that report what the program is answered in this run.
    abbrev pub recorded : List (Call × ℤ) → W → List Hook
    recorded [] w = []
    recorded ((k, now) ∷ ks) w =
        let (r, w') = hooked c ix m u n k now w in hooks_of (answered k r now) ++ recorded ks w'

    -- The calls that the library gets in this run, the engine's own between the program's.
    abbrev pub all_made : List (Call × ℤ) → W → List (Call × ℤ)
    all_made [] w = []
    all_made ((k, now) ∷ ks) w = made k now w ++ all_made ks (hooked c ix m u n k now w).1
