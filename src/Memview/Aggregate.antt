-- ===== src/Memview/Aggregate.antt =====
-- `AggregatedIndexedContainerBuilder` of src/memview/aggregated_printer.h: allocations summed by
-- call stack. The container is a boost::multi_index_container and a parameter.
use mathlib.Core.List.{Perm}
use memhook.Prelude.{
  ℕ, ◌≡◌, ◌+◌, ◌%◌, ◌^◌, ◌≤◌, ◌==◌, Bool, true, false, ◌&&◌, Option, none, some, List, [], ◌∷◌,
  length, is_some, if◌then◌else◌, map,
}
use memhook.TraceInfo.{TraceInfo, TraceInfoCallStackItem}
use memhook.Memview.{ViewOption, check_trace_info_options}

abbrev pub AggregatedCallstack : Type 0
AggregatedCallstack = List TraceInfoCallStackItem

pub record AggregatedTraceInfo : Type 0 where
  pub memsize : ℕ
  pub times : ℕ
  pub callstack : AggregatedCallstack

-- `TraceInfoCallstackItemEqualByIpAndSp`
abbrev pub equal_by_ip_and_sp : TraceInfoCallStackItem → TraceInfoCallStackItem → Bool
equal_by_ip_and_sp lhs rhs = lhs.ip == rhs.ip && lhs.sp == rhs.sp

-- `std::equal`
abbrev pub equal_range : AggregatedCallstack → AggregatedCallstack → Bool
equal_range [] rhs = true
equal_range (a ∷ lhs) [] = true
equal_range (a ∷ lhs) (b ∷ rhs) = equal_by_ip_and_sp a b && equal_range lhs rhs

-- `CallstackContainerEqualByIpAndSp`
unfoldable pub equal_callstacks : AggregatedCallstack → AggregatedCallstack → Bool
equal_callstacks lhs rhs = length lhs == length rhs && equal_range lhs rhs

-- The first element with an equal call stack, and the list with that element changed.
unfoldable pub find_callstack :
    AggregatedCallstack → List AggregatedTraceInfo → Option AggregatedTraceInfo
find_callstack cs [] = none
find_callstack cs (v ∷ vs) =
    if equal_callstacks v.callstack cs then some v else find_callstack cs vs

unfoldable pub modify_callstack :
    AggregatedCallstack
    → (AggregatedTraceInfo → AggregatedTraceInfo)
    → List AggregatedTraceInfo
    → List AggregatedTraceInfo
modify_callstack cs f [] = []
modify_callstack cs f (v ∷ vs) =
    if equal_callstacks v.callstack cs then f v ∷ vs else v ∷ modify_callstack cs f vs

-- The ascending traversals of the two ordered indexes hold a number for each element.
abbrev pub Ascends : List ℕ → Type 0
Ascends [] = Unit
Ascends (x ∷ []) = Unit
Ascends (x ∷ y ∷ xs) = (x ≤ y) × Ascends (y ∷ xs)

-- A container with a unique index by call stack and two indexes by number, and what Boost's
-- documentation says of it in terms of the elements in the order in which they came.
pub record AggregatedIndex : Type 1 where
  pub Rep : Type 0
  pub items : Rep → List AggregatedTraceInfo
  pub empty : Rep
  pub find : AggregatedCallstack → Rep → Option AggregatedTraceInfo
  -- `modify` at the iterator that `find` returns.
  pub modify : AggregatedCallstack → (AggregatedTraceInfo → AggregatedTraceInfo) → Rep → Rep
  pub emplace : AggregatedTraceInfo → Rep → Rep
  pub by_memsize : Rep → List AggregatedTraceInfo
  pub by_times : Rep → List AggregatedTraceInfo
  pub items-empty : items empty ≡ []
  pub find-items : (cs : AggregatedCallstack) (r : Rep) → find cs r ≡ find_callstack cs (items r)
  -- A change that leaves the call stack alone.
  pub items-modify :
      (cs : AggregatedCallstack) (f : AggregatedTraceInfo → AggregatedTraceInfo) (r : Rep)
      → ((v : AggregatedTraceInfo) → (f v).callstack ≡ v.callstack)
      → items (modify cs f r) ≡ modify_callstack cs f (items r)
  -- An element whose call stack is there is not inserted.
  pub items-emplace :
      (v : AggregatedTraceInfo) (r : Rep)
      → items (emplace v r)
        ≡ (if is_some (find_callstack v.callstack (items r)) then items r else v ∷ items r)
  pub by_memsize_items : (r : Rep) → Perm (by_memsize r) (items r)
  pub by_memsize_ascends : (r : Rep) → Ascends (map (λ v. v.memsize) (by_memsize r))
  pub by_times_items : (r : Rep) → Perm (by_times r) (items r)
  pub by_times_ascends : (r : Rep) → Ascends (map (λ v. v.times) (by_times r))

-- `AggregatedTraceInfoFieldsUpdater`
unfoldable pub update_fields : ℕ → AggregatedTraceInfo → AggregatedTraceInfo
update_fields memsize tinfo = record tinfo {
  memsize = (tinfo.memsize + memsize) % 2 ^ 64;
  times = (tinfo.times + 1) % 2 ^ 64;
}

module _ (ix : AggregatedIndex) where
  -- What `operator()` does with a record that the options let through.
  unfoldable pub aggregate : TraceInfo → ix.Rep → ix.Rep
  aggregate tinfo r =
      if is_some (ix.find tinfo.callstack r)
      then ix.modify tinfo.callstack (update_fields tinfo.base.memsize) r
      else ix.emplace
          (record { memsize = tinfo.base.memsize; times = 1; callstack = tinfo.callstack }) r

  -- The state of the traversal: the options of the view, and the container.
  pub record Building : Type 0 where
    pub options : List ViewOption
    pub rep : ix.Rep

  -- `operator()`, when `IsInterrupted()` answers the first argument.
  unfoldable pub build : Bool → TraceInfo → Building → Bool × Building
  build interrupted tinfo b =
      let (good, options) = check_trace_info_options b.options tinfo.base in
      if interrupted
      then (false, b)
      else (true, record { options = options; rep = if good then aggregate tinfo b.rep else b.rep })

  -- `find_if(index, !builder) != index.end()`, over the records with what `IsInterrupted()` answers
  -- at each: whether the loop came to the end.
  unfoldable pub build_all : List (Bool × TraceInfo) → Building → Bool × Building
  build_all [] b = (true, b)
  build_all ((interrupted, tinfo) ∷ ts) b =
      let (more, b') = build interrupted tinfo b in
      let rest = build_all ts b' in if more then rest else (false, b')
