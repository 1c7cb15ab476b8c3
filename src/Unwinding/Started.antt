-- ===== src/Unwinding/Started.antt =====
-- The unwinder of src/memhook/callstack_unwinder.cpp as the engine has it: its start, and the
-- interface of the engine.
use memhook.Prelude.{ℕ, refl, ◌<◌, Bool, Option, none, some, List, [], ◌∷◌, arith, find_key, ◌≢◌}
use memhook.TraceInfo.{CallStackInfo}
use memhook.Engine.{Unwinder}
use memhook.Unwinding.{
  SequencedIndex, Native, Impl, new_impl, flush_unw_cache, get_call_stack_info,
  get_call_stack_unwind_proc_info,
}
use memhook.Unwinding.Transparency.{IsLive}

module _ (ix : SequencedIndex) (n : Native) where
  -- A cache that may hold an element is in order when it is new.
  pub new_impl-IsLive : (size : Option ℕ) → size ≢ some 0 → IsLive ix n (new_impl ix size)
  unfolding new_impl find_key
  new_impl-IsLive size full =
      let empty = ix.items-empty in
      (
        positive size full,
        record {
          distinct = rw empty tt;
          bounded = rw empty (omega arith);
          fresh = rw empty tt;
          known = rw empty tt;
          paths = record { right = λ ip base f e h. absurd (ground arith); null = refl };
        },
      )
    where
      positive : (size : Option ℕ) → size ≢ some 0 → 0 < (new_impl ix size).cache_max_size
      positive none full = omega arith
      positive (some m) full = ground arith

  -- The state that the engine keeps for its unwinder, with the stacks that the walks to come are
  -- made on.
  pub record UnwinderState : Type 0 where
    pub impl : Impl ix
    pub stacks : List (List (ℕ × ℕ))

  unfoldable pub walk_next : ℕ → Bool → UnwinderState → CallStackInfo × UnwinderState
  walk_next skip_frames need_unwind_proc_info u = elim u.stacks [
    | [] ↦ ([], u)
    | frames ∷ stacks ↦
        let (items, s) = get_call_stack_info ix n frames skip_frames need_unwind_proc_info u.impl in
        (items, record { impl = s; stacks = stacks })
  ]

  unfoldable pub name_frames : CallStackInfo → UnwinderState → CallStackInfo × UnwinderState
  name_frames items u =
      let (items', s) = get_call_stack_unwind_proc_info ix n items u.impl in
      (items', record u { impl = s })

  -- `CallStackUnwinder` as the engine uses it.
  abbrev pub call_stack_unwinder : Unwinder
  call_stack_unwinder = record {
    Caches = UnwinderState;
    get_call_stack_info = walk_next;
    get_call_stack_unwind_proc_info = name_frames;
    flush_call_stack_cache = λ u. record u { impl = flush_unw_cache ix n u.impl };
  }
