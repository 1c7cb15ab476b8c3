-- ===== src/Hooks/Cpp/Laws.antt =====
-- `operator new` of src/memhook/memhook.cpp returns: the loop over the new handler ends.
use mathlib.Core.Path.{subst}
use mathlib.Core.Option
use memhook.Prelude.{
  ℕ, ℤ, zero, suc, ◌<◌, ◌+◌, ◌-◌, ◌≡◌, ◌≢◌, refl, ap, sym, ◌∙◌, ◌==◌, Bool, true, false, Option,
  some, if◌then◌else◌, arith, Bool-cases, Option-cases, inl, inr, ◌⊎◌,
}
use memhook.Index.{TimeIndex}
use memhook.Storage.{MappedStorage}
use memhook.Engine.{CachedTrace, cached_address, cached_timestamp, Unwinder, Engine, do_hook_alloc}
use memhook.Engine.Refinement.{Hook}
use memhook.Hooks.Recorded.{depth-with_instance}
use memhook.Hooks.DlFunctions.{Libc}
use memhook.Hooks.Direct.{InnerCalls}
use memhook.Hooks.{World, is_nested, enter, hook_alloc}
use memhook.Hooks.Memory.{do_malloc}
use memhook.Hooks.Cpp.{CppResult, give_up, do_cpp_alloc2, do_cpp_alloc, record_result}

-- What the standard asks of a new handler that returns: it makes more memory available. `reserve`
-- is the memory that the handlers can still give back.
pub record Reserve (c : Libc) (reserve : c.State → ℕ) : Type 0 where
  pub releases :
      (size nh : ℕ) (s : c.State)
      → (c.malloc size s).0 ≡ 0
      → c.new_handler (c.malloc size s).1 ≡ some nh
      → (c.call_handler nh (c.malloc size s).1).0 ≡ false
      → reserve (c.call_handler nh (c.malloc size s).1).1 < reserve s

module _ (c : Libc) (ix : TimeIndex CachedTrace cached_address cached_timestamp) (m : MappedStorage)
    (u : Unwinder) (n : InnerCalls c ix m u) where
  abbrev W : Type 0
  W = World c ix m u n

  -- NULL is returned only by a `nothrow` function, and only the others throw.
  abbrev pub Allowed : Bool → CppResult → Type 0
  Allowed nothrow (CppResult.returned p) = (nothrow ≡ true) ⊎ (p ≢ 0)
  Allowed nothrow CppResult.bad_alloc = nothrow ≡ false

  -- A call returns or throws as it may; the hook depth is then what it was, and the engine as told.
  pub record Ended (nothrow : Bool) (depth : ℕ) (told : CppResult → Option (Engine ix m u))
      (o : Option (CppResult × W)) : Type 0 where
    pub result : CppResult
    pub after : W
    pub ends : o ≡ some (result, after)
    pub kept : after.hook_depth ≡ depth
    pub allowed : Allowed nothrow result
    pub tells : after.instance_ ≡ told result

  module _ {reserve : c.State → ℕ} (law : Reserve c reserve) (size : ℕ) where
    give_up-Allowed : (nothrow : Bool) → Allowed nothrow (give_up c ix m u n nothrow)
    give_up-Allowed true = inl refl
    give_up-Allowed false = refl

    cpp_alloc2-Ended :
        (fuel : ℕ) (nothrow : Bool) (w : W)
        → reserve w.libc < fuel
        → Ended nothrow w.hook_depth
            (λ _. w.instance_)
            (do_cpp_alloc2 c ix m u n fuel size nothrow w)
    unfolding do_cpp_alloc2 do_malloc
    cpp_alloc2-Ended zero nothrow w h = absurd (omega (arith, h))
    cpp_alloc2-Ended (suc fuel) nothrow w h =
        let (mem, s) = c.malloc size w.libc in
        elim (Bool-cases (mem == 0)) [
          | inr ne ↦ rw ne (record {
            result = CppResult.returned mem;
            after = record w { libc = s };
            ends = refl;
            kept = refl;
            tells = refl;
            allowed = inr (ground (arith, ne));
          })
          | inl null ↦ elim (Option-cases (c.new_handler s)) [
            | inl absent ↦
                rw (null, absent)
                  (record {
                    result = give_up c ix m u n nothrow;
                    after = record w { libc = s };
                    ends = refl;
                    kept = refl;
                    tells = refl;
                    allowed = give_up-Allowed nothrow;
                  })
            | inr (nh, present) ↦ elim (Bool-cases (c.call_handler nh s).0) [
              | inl thrown ↦
                  rw (null, present, thrown)
                    (record {
                      result = give_up c ix m u n nothrow;
                      after = record w { libc = (c.call_handler nh s).1 };
                      ends = refl;
                      kept = refl;
                      tells = refl;
                      allowed = give_up-Allowed nothrow;
                    })
              | inr again ↦
                  rw (null, present, again)
                    (cpp_alloc2-Ended fuel nothrow (record w { libc = (c.call_handler nh s).1 })
                      (omega (
                        arith,
                        h,
                        law.releases size nh w.libc (ground (arith, null)) present again,
                      )))
            ]
          ]
        ]

    -- The engine after a call that nothing encloses: a returned address is recorded.
    abbrev pub recording : ℤ → W → CppResult → Option (Engine ix m u)
    recording now w (CppResult.returned p) =
        Option.map (do_hook_alloc ix m u p size now) w.instance_
    recording now w CppResult.bad_alloc = w.instance_

    record_result-Ended :
        (nothrow : Bool) (now : ℤ) (w : W) (r : CppResult) (after : W)
        → after.hook_depth ≡ w.hook_depth + 1
        → Allowed nothrow r
        → after.instance_ ≡ w.instance_
        → Ended nothrow w.hook_depth
            (recording now w)
            (some (record_result c ix m u n size now (r, after)))
    unfolding hook_alloc
    record_result-Ended nothrow now w (CppResult.returned p) after kept allowed tells =
        let (depth, told) =
          depth-with_instance c ix m u n (n.in_hook (Hook.alloc p size now))
            (do_hook_alloc ix m u p size now) after in
        record {
          result = CppResult.returned p;
          after = _;
          ends = refl;
          kept = ap (λ d. d - 1) (depth ∙ kept) ∙ omega arith;
          allowed = allowed;
          tells = told ∙ ap (Option.map (do_hook_alloc ix m u p size now)) tells;
        }
    record_result-Ended nothrow now w CppResult.bad_alloc after kept allowed tells = record {
      result = CppResult.bad_alloc;
      after = _;
      ends = refl;
      kept = ap (λ d. d - 1) kept ∙ omega arith;
      allowed = allowed;
      tells = tells;
    }

    recorded-Ended :
        (nothrow : Bool) (now : ℤ) (w : W) (o : Option (CppResult × W))
        → Ended nothrow (w.hook_depth + 1) (λ _. w.instance_) o
        → Ended nothrow w.hook_depth
            (recording now w)
            (Option.map (record_result c ix m u n size now) o)
    recorded-Ended nothrow now w o e =
        subst
          (λ o.
            Ended nothrow w.hook_depth (recording now w)
              (Option.map (record_result c ix m u n size now) o))
          (sym e.ends) (record_result-Ended nothrow now w e.result e.after e.kept e.allowed e.tells)

    -- Every call of `operator new` ends, provided that a new handler that returns has made memory
    -- available: with enough rounds for what the handlers can give back there is a result. It is
    -- NULL for a `nothrow` call only and an exception for the others only; the hook depth is what
    -- it was; a call that is not nested has recorded the address that it returns, and any other
    -- call nothing.
    pub do_cpp_alloc-Ended :
        (fuel : ℕ) (nothrow : Bool) (now : ℤ) (w : W)
        → reserve w.libc < fuel
        → Ended nothrow w.hook_depth
            (if is_nested c ix m u n w then (λ _. w.instance_) else recording now w)
            (do_cpp_alloc c ix m u n fuel size nothrow now w)
    unfolding do_cpp_alloc
    do_cpp_alloc-Ended fuel nothrow now w h = elim (Bool-cases (w.hook_depth == 0)) [
      | inr nested ↦ rw nested (cpp_alloc2-Ended fuel nothrow w h)
      | inl outermost ↦
          rw outermost
            (recorded-Ended nothrow now w _ (cpp_alloc2-Ended fuel nothrow (enter c ix m u n w) h))
    ]
