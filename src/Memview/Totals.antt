-- ===== src/Memview/Totals.antt =====
-- What the aggregated view of src/memview/aggregated_printer.h adds up to.
use memhook.Prelude.{
  ℕ, ◌≡◌, refl, ap, ◌∙◌, ◌+◌, ◌%◌, ◌^◌, ◌<◌, ◌==◌, Bool, true, false, Option, none, some, List, [],
  ◌∷◌, is_some, if◌then◌else◌, All, arith, Bool-cases, Option-cases, inl, inr,
}
use memhook.TraceInfo.{TraceInfo}
use memhook.Memview.{ViewOption, check_trace_info_options}
use memhook.Memview.Aggregate.{
  AggregatedCallstack, AggregatedTraceInfo, equal_callstacks, find_callstack, modify_callstack,
  AggregatedIndex, update_fields, aggregate, Building, build, build_all,
}
use memhook.Memview.Callstacks.{find_callstack_same, find_callstack-modify_callstack}

-- An element as its sums.
abbrev pub sums : Option AggregatedTraceInfo → Option (ℕ × ℕ)
sums none = none
sums (some v) = some (v.memsize, v.times)

-- What a record does to the element of its call stack.
abbrev bump : TraceInfo → Option AggregatedTraceInfo → Option AggregatedTraceInfo
bump t none = some (record { memsize = t.base.memsize; times = 1; callstack = t.callstack })
bump t (some v) = some (update_fields t.base.memsize v)

-- The records that the options let through, in the order of the traversal.
abbrev pub passed : List ViewOption → List TraceInfo → List TraceInfo
passed options [] = []
passed options (t ∷ ts) =
    let (good, options') = check_trace_info_options options t.base in
    if good then t ∷ passed options' ts else passed options' ts

-- A traversal that is not interrupted.
abbrev pub calm : List TraceInfo → List (Bool × TraceInfo)
calm [] = []
calm (t ∷ ts) = (false, t) ∷ calm ts

-- The total size and the number of the records with a call stack.
abbrev pub total : AggregatedCallstack → List TraceInfo → ℕ
total c [] = 0
total c (t ∷ ts) =
    if equal_callstacks t.callstack c then t.base.memsize + total c ts else total c ts

abbrev pub count : AggregatedCallstack → List TraceInfo → ℕ
count c [] = 0
count c (t ∷ ts) = if equal_callstacks t.callstack c then 1 + count c ts else count c ts

abbrev pub AreWords : List TraceInfo → Type 0
AreWords ts = All (λ t. t.base.memsize < 2 ^ 64) ts

module _ (ix : AggregatedIndex) where
  pub items-aggregate :
      (t : TraceInfo) (r : ix.Rep)
      → ix.items (aggregate ix t r) ≡ (
          if is_some (find_callstack t.callstack (ix.items r))
          then modify_callstack t.callstack (update_fields t.base.memsize) (ix.items r)
          else record { memsize = t.base.memsize; times = 1; callstack = t.callstack } ∷ ix.items r)
  unfolding aggregate update_fields
  items-aggregate t r =
      let found = ix.find-items t.callstack r in
      elim (Option-cases (find_callstack t.callstack (ix.items r))) [
        | inl absent ↦
            let v : AggregatedTraceInfo = record {
              memsize = t.base.memsize;
              times = 1;
              callstack = t.callstack;
            } in
            let put = ix.items-emplace v r in rw (found, absent) (put ∙ rw absent refl)
        | inr (v, there) ↦
            rw (found, there)
              (ix.items-modify t.callstack (update_fields t.base.memsize) r (λ w. refl))
      ]

  find_callstack-aggregate :
      (c : AggregatedCallstack) (t : TraceInfo) (r : ix.Rep)
      → find_callstack c (ix.items (aggregate ix t r)) ≡ (
          if equal_callstacks t.callstack c
          then bump t (find_callstack c (ix.items r))
          else find_callstack c (ix.items r))
  unfolding find_callstack update_fields
  find_callstack-aggregate c t r =
      let xs = ix.items r in
      let items = ap (find_callstack c) (items-aggregate t r) in
      let same = find_callstack_same t.callstack c xs in
      let changed =
        find_callstack-modify_callstack t.callstack c (update_fields t.base.memsize) xs
          (λ w. refl) in
      elim (Option-cases (find_callstack t.callstack xs)) [
        | inl absent ↦ ground (arith, items, same)
        | inr (v, there) ↦ ground (arith, items, same, changed)
      ]

  abbrev pub aggregate_all : List TraceInfo → ix.Rep → ix.Rep
  aggregate_all [] r = r
  aggregate_all (t ∷ ts) r = aggregate_all ts (aggregate ix t r)

  pub build_all-passed :
      (ts : List TraceInfo) (b : Building ix)
      → ((build_all ix (calm ts) b).0 ≡ true)
        × ((build_all ix (calm ts) b).1.rep ≡ aggregate_all (passed b.options ts) b.rep)
  unfolding build_all build
  build_all-passed [] b = (refl, refl)
  build_all-passed (t ∷ ts) b =
      let (good, options') = check_trace_info_options b.options t.base in
      let (ended, rest) =
        build_all-passed ts
          (record { options = options'; rep = if good then aggregate ix t b.rep else b.rep }) in
      elim (Bool-cases good) [
        | inl kept ↦ (ended, rest ∙ rw kept refl)
        | inr left ↦ (ended, rest ∙ rw left refl)
      ]

  -- The sums of a group that starts from an element or from none.
  abbrev grouped : Option AggregatedTraceInfo → ℕ → ℕ → Option (ℕ × ℕ)
  grouped none m n = if n == 0 then none else some (m % 2 ^ 64, n % 2 ^ 64)
  grouped (some v) m n = some ((v.memsize + m) % 2 ^ 64, (v.times + n) % 2 ^ 64)

  abbrev IsWordInfo : Option AggregatedTraceInfo → Type 0
  IsWordInfo none = Unit
  IsWordInfo (some v) = (v.memsize < 2 ^ 64) × (v.times < 2 ^ 64)

  bump-IsWordInfo :
      (t : TraceInfo) (o : Option AggregatedTraceInfo)
      → t.base.memsize < 2 ^ 64
      → IsWordInfo (bump t o)
  unfolding update_fields
  bump-IsWordInfo t none w = (w, omega arith)
  bump-IsWordInfo t (some v) w = (omega arith, omega arith)

  grouped-bump :
      (t : TraceInfo) (o : Option AggregatedTraceInfo) (m n : ℕ)
      → grouped (bump t o) m n ≡ grouped o (t.base.memsize + m) (1 + n)
  unfolding update_fields
  grouped-bump t none m n = ground arith
  grouped-bump t (some v) m n = ap some (ground arith)

  sums-aggregate_all :
      (c : AggregatedCallstack) (ts : List TraceInfo) (r : ix.Rep) (o : Option AggregatedTraceInfo)
      → AreWords ts
      → find_callstack c (ix.items r) ≡ o
      → IsWordInfo o
      → sums (find_callstack c (ix.items (aggregate_all ts r)))
        ≡ grouped o (total c ts) (count c ts)
  sums-aggregate_all c [] r none w e h = rw e refl
  sums-aggregate_all c [] r (some v) w e h = rw e (ground arith)
  sums-aggregate_all c (t ∷ ts) r o (w, ws) e h =
      let step = find_callstack-aggregate c t r in
      elim (Bool-cases (equal_callstacks t.callstack c)) [
        | inr other ↦ rw other (sums-aggregate_all c ts (aggregate ix t r) o ws (ground arith) h)
        | inl same ↦
            let found : find_callstack c (ix.items (aggregate ix t r)) ≡ bump t o =
              step ∙ rw (same, e) refl in
            rw same (
              sums-aggregate_all c ts (aggregate ix t r) (bump t o) ws found (bump-IsWordInfo t o w)
              ∙ grouped-bump t o (total c ts) (count c ts))
      ]

-- When a traversal is not interrupted, what the aggregated view finds for a call
-- stack, as told apart by instruction and stack addresses, is the total size and the number, in
-- words of 64 bits, of the records with that call stack that the options let through, and nothing
-- without such a record.
pub sums-build_all :
    (ix : AggregatedIndex) (options : List ViewOption) (ts : List TraceInfo)
    (c : AggregatedCallstack)
    → AreWords (passed options ts)
    → let (ended, b) = build_all ix (calm ts) (record { options = options; rep = ix.empty }) in
      (ended ≡ true)
      × (sums (ix.find c b.rep) ≡ (
          if count c (passed options ts) == 0
          then none
          else some (total c (passed options ts) % 2 ^ 64, count c (passed options ts) % 2 ^ 64)))
unfolding find_callstack
sums-build_all ix options ts c words =
    let (ended, built) = build_all-passed ix ts (record { options = options; rep = ix.empty }) in
    (
      ended,
      ap sums (
            ix.find-items c
              (build_all ix (calm ts) (record { options = options; rep = ix.empty })).1.rep)
          ∙ ap (λ r. sums (find_callstack c (ix.items r))) built
          ∙ sums-aggregate_all ix c (passed options ts) ix.empty none words
              (ap (find_callstack c) ix.items-empty) tt,
    )
