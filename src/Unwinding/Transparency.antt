-- ===== src/Unwinding/Transparency.antt =====
-- The cache of src/memhook/callstack_unwinder.cpp is not seen in the answers of
-- `CallStackUnwinder`.
use mathlib.Core.Path.{subst}
use memhook.Prelude.{
  ℕ, zero, suc, ◌≡◌, refl, ap, ◌∙◌, ◌<◌, ◌+◌, ◌-◌, ◌%◌, ◌^◌, ◌==◌, inl, inr, Bool, true, false,
  none, some, List, [], ◌∷◌, not, drop, take_while, if◌then◌else◌, All, arith, map, find_key,
  Bool-cases, Option-cases, key-find_key,
}
use memhook.TraceInfo.{CallStackInfo, CallStackInfoItem}
use memhook.Unwinding.{
  ProcNameInfo, SequencedIndex, Native, emplace_path, Impl, cached_info, insert_info, proc_info,
  get_unw_proc_info, get_unw_proc_info_by_ip, flush_unw_cache, skip_loop, with_proc_info, new_item,
  push_item, frames_loop, get_call_stack_info, get_call_stack_unwind_proc_info,
}
use memhook.Unwinding.Sequence.{All-find_key}
use memhook.Unwinding.Cache.{IsCoherent, Known, entry, fresh_info, IsCache}
use memhook.Unwinding.Moves.{ip_of, cached_path, relocate_last-IsCache, insert_info-IsCache}

-- The calls of `CallStackUnwinder`, each with the stack that it is made on.
pub data UnwindCall : Type 0 where
  get_info : List (ℕ × ℕ) → ℕ → Bool → UnwindCall
  get_unwind_proc_info : CallStackInfo → UnwindCall
  flush : UnwindCall

module _ (ix : SequencedIndex) (n : Native) where
  unfoldable pub unwind : UnwindCall → Impl ix → CallStackInfo × Impl ix
  unwind (get_info frames skip need) s = get_call_stack_info ix n frames skip need s
  unwind (get_unwind_proc_info items) s = get_call_stack_unwind_proc_info ix n items s
  unwind flush s = ([], flush_unw_cache ix n s)

  unfoldable pub unwind_all : List UnwindCall → Impl ix → List CallStackInfo × Impl ix
  unwind_all [] s = ([], s)
  unwind_all (c ∷ cs) s =
      let (items, s') = unwind c s in let (rest, s'') = unwind_all cs s' in (items ∷ rest, s'')

  -- What the calls are to answer: libunwind and the dynamic linker are asked every time.
  abbrev pub named : CallStackInfoItem → CallStackInfoItem
  named item = with_proc_info ix n (fresh_info ix n item.ip) item

  abbrev pub frame_item : Bool → ℕ × ℕ → CallStackInfoItem
  frame_item need frame =
      let item = new_item ix n frame.0 frame.1 in if need then named item else item

  abbrev pub answer : UnwindCall → CallStackInfo
  answer (get_info frames skip need) =
      map (frame_item need) (take_while (λ f. not (f.0 == 0)) (drop skip frames))
  answer (get_unwind_proc_info items) = map named items
  answer flush = []

  -- At least one frame is skipped, that of the caller.
  abbrev pub Skips : UnwindCall → Type 0
  Skips (get_info frames skip need) = (0 < skip) × (skip < 2 ^ 64)
  Skips _ = Unit

  abbrev pub IsLive : Impl ix → Type 0
  IsLive s = (0 < s.cache_max_size) × IsCache ix n s

  module _ (coherent : IsCoherent n) where
    proc_info_hit :
        (ip : ℕ) (s : Impl ix) (v : ProcNameInfo)
        → ix.find ip s.procname_info_map ≡ some v
        → proc_info ix (n.get_proc_name ip) (n.dladdr ip) ip s ≡ (
          cached_info ix s v,
          record s { procname_info_map = ix.relocate_last ip s.procname_info_map },
        )
    unfolding proc_info
    proc_info_hit ip s v e = rw (e, proc_info) refl

    proc_info_missed :
        (ip : ℕ) (s : Impl ix)
        → ix.find ip s.procname_info_map ≡ none
        → proc_info ix (n.get_proc_name ip) (n.dladdr ip) ip s ≡ (
          fresh_info ix n ip,
          record s {
            procname_info_map = insert_info ix s.cache_max_size (entry ix n ip) s.procname_info_map;
            shl_path_map = emplace_path (n.dladdr ip) s.shl_path_map;
          },
        )
    unfolding proc_info
    proc_info_missed ip s e = rw (e, proc_info) refl

    proc_info_fresh :
        (ip : ℕ) (s : Impl ix)
        → IsLive s
        → ((proc_info ix (n.get_proc_name ip) (n.dladdr ip) ip s).0 ≡ fresh_info ix n ip)
          × IsLive (proc_info ix (n.get_proc_name ip) (n.dladdr ip) ip s).1
    proc_info_fresh ip s (pos, c) =
        let xs = ix.items s.procname_info_map in
        elim (Option-cases (find_key ip_of ip xs)) [
          | inl missed ↦
              rw (proc_info_missed ip s (ix.find-items ip s.procname_info_map ∙ missed))
                (refl, (pos, insert_info-IsCache ix n coherent s ip pos missed c))
          | inr (v, found) ↦
              let at = key-find_key ip_of ip xs v found in
              let whole : v ≡ entry ix n ip =
                All-find_key ip_of (λ v. v ≡ entry ix n v.ip) ip xs v c.fresh found
                ∙ ap (entry ix n) at in
              let known =
                All-find_key ip_of (λ v. Known s.shl_path_map (n.dladdr v.ip)) ip xs v c.known
                  found in
              rw (proc_info_hit ip s v (ix.find-items ip s.procname_info_map ∙ found)) (
                ap (cached_info ix s) whole
                    ∙ cached_path ix n coherent s ip (n.dladdr ip) c refl
                        (subst (λ k. Known s.shl_path_map (n.dladdr k)) at known),
                (pos, relocate_last-IsCache ix n coherent s ip v found c),
              )
        ]

    get_unw_proc_info_fresh :
        (ip : ℕ) (s : Impl ix)
        → IsLive s
        → ((get_unw_proc_info ix n ip s).0 ≡ fresh_info ix n ip)
          × IsLive (get_unw_proc_info ix n ip s).1
    unfolding get_unw_proc_info
    get_unw_proc_info_fresh ip s live = rw (coherent.agree ip) (proc_info_fresh ip s live)

    get_call_stack_unwind_proc_info_named :
        (items : CallStackInfo) (s : Impl ix)
        → IsLive s
        → ((get_call_stack_unwind_proc_info ix n items s).0 ≡ map named items)
          × IsLive (get_call_stack_unwind_proc_info ix n items s).1
    unfolding get_call_stack_unwind_proc_info get_unw_proc_info_by_ip
    get_call_stack_unwind_proc_info_named [] s live = (refl, live)
    get_call_stack_unwind_proc_info_named (item ∷ items) s live =
        let (here, live') = proc_info_fresh item.ip s live in
        let s' = (proc_info ix (n.get_proc_name item.ip) (n.dladdr item.ip) item.ip s).1 in
        let (rest, live'') = get_call_stack_unwind_proc_info_named items s' live' in
        (rw (rest) (ap (λ p. with_proc_info ix n p item ∷ map named items) here), live'')

    push_item_frame :
        (need : Bool) (ip sp : ℕ) (s : Impl ix)
        → IsLive s
        → ((push_item ix n need ip sp s).0 ≡ frame_item need (ip, sp))
          × IsLive (push_item ix n need ip sp s).1
    unfolding push_item
    push_item_frame true ip sp s live =
        let (here, live') = get_unw_proc_info_fresh ip s live in
        (ap (λ p. with_proc_info ix n p (new_item ix n ip sp)) here, live')
    push_item_frame false ip sp s live = (refl, live)

    frames_loop_items :
        (need : Bool) (frames : List (ℕ × ℕ)) (s : Impl ix)
        → IsLive s
        → ((frames_loop ix n need frames s).0
            ≡ map (frame_item need) (take_while (λ f. not (f.0 == 0)) frames))
          × IsLive (frames_loop ix n need frames s).1
    unfolding frames_loop
    frames_loop_items need [] s live = (refl, live)
    frames_loop_items need ((ip, sp) ∷ frames) s live =
        let (here, live') = push_item_frame need ip sp s live in
        let (rest, live'') = frames_loop_items need frames (push_item ix n need ip sp s).1 live' in
        elim (Bool-cases (ip == 0)) [
          | inl null ↦ rw null (refl, live)
          | inr other ↦ rw (other, here, rest) (refl, live'')
        ]

    skip_loop-drop :
        (skip : ℕ) (frames : List (ℕ × ℕ))
        → 0 < skip
        → skip < 2 ^ 64
        → skip_loop ix n skip frames ≡ drop skip frames
    unfolding skip_loop
    skip_loop-drop zero frames pos small = absurd (omega arith)
    skip_loop-drop (suc skip) [] pos small = refl
    skip_loop-drop (suc zero) (f ∷ frames) pos small = refl
    skip_loop-drop (suc (suc skip)) (f ∷ frames) pos small =
        let left : (suc (suc skip) + (2 ^ 64 - 1)) % 2 ^ 64 ≡ suc skip = omega arith in
        let more : suc skip == 0 ≡ false = ground arith in
        rw (left, more) (skip_loop-drop (suc skip) frames (omega arith) (omega arith))

    flush_unw_cache-IsLive : (s : Impl ix) → IsLive s → IsLive (flush_unw_cache ix n s)
    unfolding flush_unw_cache find_key
    flush_unw_cache-IsLive s (pos, c) =
        let empty = ix.items-clear s.procname_info_map in
        (
          pos,
          record {
            distinct = rw empty tt;
            bounded = rw empty (omega arith);
            fresh = rw empty tt;
            known = rw empty tt;
            paths = record { right = λ ip base f e h. absurd (ground arith); null = refl };
          },
        )

    unwind-answer :
        (c : UnwindCall) (s : Impl ix)
        → Skips c
        → IsLive s
        → ((unwind c s).0 ≡ answer c) × IsLive (unwind c s).1
    unfolding unwind get_call_stack_info
    unwind-answer (get_info frames skip need) s (pos, small) live =
        rw (skip_loop-drop skip frames pos small) (frames_loop_items need (drop skip frames) s live)
    unwind-answer (get_unwind_proc_info items) s _ live =
        get_call_stack_unwind_proc_info_named items s live
    unwind-answer flush s _ live = (refl, flush_unw_cache-IsLive s live)

-- As long as libunwind and the dynamic linker answer the same, a cache for at least one element
-- does not change what `CallStackUnwinder` answers: after any calls, flushes between them included,
-- each call stack is the frames behind the skipped ones up to a null instruction, named as if there
-- were no cache, and the cache has no instruction twice and at most `m_cache_max_size` of them.
pub unwind_all-answer :
    (ix : SequencedIndex) (n : Native)
    → IsCoherent n
    → (cs : List UnwindCall) (s : Impl ix) → All (Skips ix n) cs
    → IsLive ix n s
    → ((unwind_all ix n cs s).0 ≡ map (answer ix n) cs) × IsLive ix n (unwind_all ix n cs s).1
unfolding unwind_all
unwind_all-answer ix n coherent [] s _ live = (refl, live)
unwind_all-answer ix n coherent (c ∷ cs) s (skips, rest) live =
    let (here, live') = unwind-answer ix n coherent c s skips live in
    let (more, live'') = unwind_all-answer ix n coherent cs (unwind ix n c s).1 rest live' in
    (rw (here, more) refl, live'')
