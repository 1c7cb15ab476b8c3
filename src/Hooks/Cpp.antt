-- ===== src/Hooks/Cpp.antt =====
-- `operator new` and `operator delete` of src/memhook/memhook.cpp. The loop of `do_cpp_alloc2`
-- calls the new handler until `malloc` succeeds; it runs on fuel, a round for each call of
-- `malloc`.
pub mod Laws
use mathlib.Core.Option
use memhook.Prelude.{
  ℕ, ℤ, zero, suc, ◌==◌, Bool, true, false, Option, none, some, if◌then◌else◌, ◌>>=◌,
}
use memhook.Index.{TimeIndex}
use memhook.Storage.{MappedStorage}
use memhook.Engine.{CachedTrace, cached_address, cached_timestamp, Unwinder}
use memhook.Hooks.DlFunctions.{Libc}
use memhook.Hooks.Direct.{InnerCalls}
use memhook.Hooks.{World, is_nested, enter, leave, hook_alloc, hook_free}
use memhook.Hooks.Memory.{do_malloc, do_free}

-- What a call of `new` ends with.
pub data CppResult : Type 0 where
  returned : ℕ → CppResult
  bad_alloc : CppResult

module _ (c : Libc) (ix : TimeIndex CachedTrace cached_address cached_timestamp) (m : MappedStorage)
    (u : Unwinder) (n : InnerCalls c ix m u) where
  abbrev W : Type 0
  W = World c ix m u n

  -- `throw`, or `return NULL`.
  abbrev pub give_up : Bool → CppResult
  give_up nothrow = if nothrow then CppResult.returned 0 else CppResult.bad_alloc

  unfoldable pub do_cpp_alloc2 : ℕ → ℕ → Bool → W → Option (CppResult × W)
  do_cpp_alloc2 zero size nothrow w = none
  do_cpp_alloc2 (suc fuel) size nothrow w =
      let (mem, w) = do_malloc c ix m u n size w in
      if mem == 0
      then (elim (c.new_handler w.libc) [
        | none ↦ some (give_up nothrow, w)
        | some nh ↦
            let (thrown, s) = c.call_handler nh w.libc in
            elim thrown [
              | true ↦ some (give_up nothrow, record w { libc = s })
              | false ↦ do_cpp_alloc2 fuel size nothrow (record w { libc = s })
            ]
      ])
      else some (CppResult.returned mem, w)

  -- An exception leaves the function before the hook, and `~NoHook` runs.
  abbrev pub record_result : ℕ → ℤ → CppResult × W → CppResult × W
  record_result size now (CppResult.returned mem, w) =
      (CppResult.returned mem, leave c ix m u n (hook_alloc c ix m u n mem size now w))
  record_result size now (CppResult.bad_alloc, w) = (CppResult.bad_alloc, leave c ix m u n w)

  unfoldable pub do_cpp_alloc : ℕ → ℕ → Bool → ℤ → W → Option (CppResult × W)
  do_cpp_alloc fuel size nothrow now w =
      if is_nested c ix m u n w
      then do_cpp_alloc2 fuel size nothrow w
      else Option.map (record_result size now)
          (do_cpp_alloc2 fuel size nothrow (enter c ix m u n w))

  unfoldable pub do_cpp_free : ℕ → W → W
  do_cpp_free mem w =
      if is_nested c ix m u n w
      then do_free c ix m u n mem w
      else leave c ix m u n (do_free c ix m u n mem (hook_free c ix m u n mem (enter c ix m u n w)))

  unfoldable pub memhook_new : ℕ → ℕ → ℤ → W → Option (CppResult × W)
  memhook_new fuel size now w = do_cpp_alloc fuel size false now w

  unfoldable pub memhook_new_nothrow : ℕ → ℕ → ℤ → W → Option (CppResult × W)
  memhook_new_nothrow fuel size now w = do_cpp_alloc fuel size true now w

  unfoldable pub memhook_newarray : ℕ → ℕ → ℤ → W → Option (CppResult × W)
  memhook_newarray fuel size now w = do_cpp_alloc fuel size false now w

  unfoldable pub memhook_newarray_nothrow : ℕ → ℕ → ℤ → W → Option (CppResult × W)
  memhook_newarray_nothrow fuel size now w = do_cpp_alloc fuel size true now w

  unfoldable pub memhook_delete : ℕ → W → W
  memhook_delete p w = do_cpp_free p w

  unfoldable pub memhook_deletearray : ℕ → W → W
  memhook_deletearray mem w = do_cpp_free mem w
