-- ===== src/Examples/Stacks.antt =====
-- The unwinder on a stack of three frames, with a cache for two.
use memhook.Prelude.{
  ◌≡◌, refl, ◌==◌, true, none, some, List, [], ◌∷◌, map, arith, find_key, if◌then◌else◌,
}
use memhook.Unwinding.{Native, Impl}
use memhook.Unwinding.Plain.{plain_sequence}
use memhook.Unwinding.Cache.{IsCoherent}
use memhook.Unwinding.Transparency.{
  UnwindCall, get_info, flush, unwind_all, answer, IsLive, unwind_all-answer,
}

-- Every instruction below 50 is in the function "f" of one library; the others are unknown.
abbrev native : Native
native = record {
  unw_get_proc_name = λ ip. some (102 ∷ [], 4);
  get_proc_name = λ ip. some (102 ∷ [], 4);
  dladdr = λ ip. if ip == 7 then none else some (4096, some (108 ∷ []));
}

native-IsCoherent : IsCoherent native
native-IsCoherent = record {
  agree = λ ip. refl;
  one_name = λ i j base f g e h. ground arith;
  loaded = λ i f e. ground arith;
}

abbrev fresh : Impl plain_sequence
fresh = record { cache_max_size = 2; procname_info_map = []; shl_path_map = [] }

fresh-IsLive : IsLive plain_sequence native fresh
unfolding find_key
fresh-IsLive = (
  omega arith,
  record {
    distinct = tt;
    bounded = omega arith;
    fresh = tt;
    known = tt;
    paths = record { right = λ ip base f e h. absurd (ground arith); null = refl };
  },
)

-- A walk, the same walk again, and a flush before the third.
abbrev calls : List UnwindCall
calls =
    let walk = get_info ((5, 100) ∷ (6, 110) ∷ (7, 120) ∷ (8, 130) ∷ []) 1 true in
    walk ∷ walk ∷ flush ∷ walk ∷ []

unwind_all-answer_example :
    ((unwind_all plain_sequence native calls fresh).0 ≡ map (answer plain_sequence native) calls)
    × IsLive plain_sequence native (unwind_all plain_sequence native calls fresh).1
unwind_all-answer_example =
    unwind_all-answer plain_sequence native native-IsCoherent calls fresh
      (
        (omega arith, omega arith),
        ((omega arith, omega arith), (tt, ((omega arith, omega arith), tt))),
      )
      fresh-IsLive
