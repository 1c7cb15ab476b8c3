-- ===== src/Memview/Views/Printed.antt =====
-- What the views of src/memview/basic_simple_mapped_view.h and basic_aggregated_mapped_view.h
-- print.
use mathlib.Core.List.{Perm, map}
use memhook.Prelude.{
  ℕ, ◌≡◌, refl, ap, ◌∙◌, ◌%◌, ◌^◌, false, inl, inr, List, [], ◌∷◌, ◌++◌, length, if◌then◌else◌,
  arith, Bool-cases,
}
use memhook.TraceInfo.{TraceInfo, TraceInfoCallStackItem}
use memhook.Storage.Mapped.{Symbols}
use memhook.Memview.{
  ViewOption, check_trace_info_options, show_call_stack, sort_by_address, sort_by_size,
  get_option_flag,
}
use memhook.Memview.Aggregate.{AggregatedTraceInfo, AggregatedIndex, Building}
use memhook.Memview.Totals.{passed, calm, aggregate_all, build_all-passed}
use memhook.Memview.Rows.{sum_by, sum_by-Perm, memsizes, all_times, sums_aggregate_all}
use memhook.Memview.Views.{
  Row, record_row, total_row, frame_row, Shared, View, visits, print_frame, print_frames,
  shown_frames, record_rows, print_records, write_simple, total_rows, print_totals,
  write_aggregated,
}

-- The sums of a row, if it is one of sums.
abbrev pub totals : List Row → List (ℕ × ℕ)
totals [] = []
totals (total_row memsize times ∷ rows) = (memsize, times) ∷ totals rows
totals (_ ∷ rows) = totals rows

totals-append : (xs ys : List Row) → totals (xs ++ ys) ≡ totals xs ++ totals ys
totals-append [] ys = refl
totals-append (total_row m n ∷ xs) ys = ap (◌∷◌ (m, n)) (totals-append xs ys)
totals-append (record_row a m t ∷ xs) ys = totals-append xs ys
totals-append (frame_row i s p f o ∷ xs) ys = totals-append xs ys

abbrev info_sums : List AggregatedTraceInfo → List (ℕ × ℕ)
info_sums = map (λ v. (v.memsize, v.times))

visits-calm : (ts : List TraceInfo) → visits [] ts ≡ calm ts
visits-calm [] = refl
visits-calm (t ∷ ts) = ap (◌∷◌ (false, t)) (visits-calm ts)

module _ (demangle : List ℕ → List ℕ) where
  totals-print_frames :
      (symbols : Symbols) (items : List TraceInfoCallStackItem)
      → totals (print_frames demangle symbols items) ≡ []
  unfolding print_frame
  totals-print_frames symbols [] = refl
  totals-print_frames symbols (item ∷ items) = totals-print_frames symbols items

  totals-total_rows :
      (flags : ℕ) (symbols : Symbols) (t : AggregatedTraceInfo)
      → totals (total_rows demangle flags symbols t) ≡ (t.memsize, t.times) ∷ []
  unfolding total_rows shown_frames
  totals-total_rows flags symbols t =
      ap (◌∷◌ (t.memsize, t.times)) (elim (Bool-cases (get_option_flag flags show_call_stack)) [
        | inl shown ↦ rw shown (totals-print_frames symbols t.callstack)
        | inr hidden ↦ rw hidden refl
      ])

  totals-print_totals :
      (flags : ℕ) (symbols : Symbols) (ts : List AggregatedTraceInfo)
      → totals (print_totals demangle flags symbols (visits [] ts)) ≡ info_sums ts
  unfolding print_totals
  totals-print_totals flags symbols [] = refl
  totals-print_totals flags symbols (t ∷ ts) =
      totals-append (total_rows demangle flags symbols t)
        (print_totals demangle flags symbols (visits [] ts))
      ∙ rw (totals-total_rows flags symbols t, totals-print_totals flags symbols ts) refl

  -- The rows for each record of a list, one after the other.
  abbrev pub rows_of : ℕ → Symbols → List TraceInfo → List Row
  rows_of flags symbols [] = []
  rows_of flags symbols (t ∷ ts) = record_rows demangle flags symbols t ++ rows_of flags symbols ts

  print_records-rows_of :
      (flags : ℕ) (symbols : Symbols) (ts : List TraceInfo) (options : List ViewOption)
      → print_records demangle flags symbols (visits [] ts) options
        ≡ rows_of flags symbols (passed options ts)
  unfolding print_records
  print_records-rows_of flags symbols [] options = refl
  print_records-rows_of flags symbols (t ∷ ts) options =
      let (good, options') = check_trace_info_options options t.base in
      let rest = print_records-rows_of flags symbols ts options' in
      elim (Bool-cases good) [ inl kept ↦ rw (kept, rest) refl | inr left ↦ rw (left, rest) refl ]

sum_by_first : (vs : List AggregatedTraceInfo) → sum_by (λ p. p.0) (info_sums vs) ≡ memsizes vs
sum_by_first [] = refl
sum_by_first (v ∷ vs) = omega (arith, sum_by_first vs)

sum_by_second : (vs : List AggregatedTraceInfo) → sum_by (λ p. p.1) (info_sums vs) ≡ all_times vs
sum_by_second [] = refl
sum_by_second (v ∷ vs) = omega (arith, sum_by_second vs)

module _ (ix : AggregatedIndex) where
  -- The traversal that the flags choose, after the sums of some records.
  abbrev index_of : ℕ → List TraceInfo → List AggregatedTraceInfo
  index_of flags ts =
      let r = aggregate_all ix ts ix.empty in
      if get_option_flag flags sort_by_size then ix.by_memsize r else ix.by_times r

  totals-write_aggregated :
      (demangle : List ℕ → List ℕ) (v : View) (s : Shared)
      → totals (write_aggregated demangle ix v s [] [])
        ≡ info_sums (index_of v.flags (passed v.options s.by_time))
  unfolding write_aggregated
  totals-write_aggregated demangle v s =
      let b : Building ix = record { options = v.options; rep = ix.empty } in
      let (ended, built) = build_all-passed ix s.by_time b in
      rw (visits-calm s.by_time, ended, built)
        (totals-print_totals demangle v.flags s.symbols
          (index_of v.flags (passed v.options s.by_time)))

  index_of-Perm :
      (flags : ℕ) (ts : List TraceInfo)
      → Perm (index_of flags ts) (ix.items (aggregate_all ix ts ix.empty))
  index_of-Perm flags ts =
      let r = aggregate_all ix ts ix.empty in
      elim (Bool-cases (get_option_flag flags sort_by_size)) [
        | inl size ↦ rw size (ix.by_memsize_items r)
        | inr times ↦ rw times (ix.by_times_items r)
      ]

-- An aggregated view that is not interrupted prints rows whose sizes add up, in words of 64 bits,
-- to the size of the records that the options let through, and whose counts to their number.
pub totals-write_aggregated_sums :
    (demangle : List ℕ → List ℕ) (ix : AggregatedIndex) (v : View) (s : Shared)
    → let rows = totals (write_aggregated demangle ix v s [] []) in
      let shown = passed v.options s.by_time in
      (sum_by (λ p. p.0) rows % 2 ^ 64 ≡ sum_by (λ t. t.base.memsize) shown % 2 ^ 64)
      × (sum_by (λ p. p.1) rows % 2 ^ 64 ≡ length shown % 2 ^ 64)
totals-write_aggregated_sums demangle ix v s =
    let shown = passed v.options s.by_time in
    let index = index_of ix v.flags shown in
    let perm = index_of-Perm ix v.flags shown in
    let (sizes, counts) = sums_aggregate_all ix shown ix.empty in
    rw (totals-write_aggregated ix demangle v s) (
      omega (
        arith,
        sum_by_first index,
        sum_by-Perm (λ v. v.memsize) perm,
        sizes,
        ap memsizes ix.items-empty,
      ),
      omega (
        arith,
        sum_by_second index,
        sum_by-Perm (λ v. v.times) perm,
        counts,
        ap all_times ix.items-empty,
      ),
    )

-- A simple view that is not interrupted prints, for each record of the chosen index that the
-- options let through and in the order of that index, its row and the rows of its call stack if it
-- is to be shown. The address is the first choice, then the size, then the time.
pub write_simple_lem :
    (demangle : List ℕ → List ℕ) (v : View) (s : Shared)
    → write_simple demangle v s []
      ≡ rows_of demangle v.flags s.symbols (
          passed v.options (
            if get_option_flag v.flags sort_by_address
            then s.by_address
            else (if get_option_flag v.flags sort_by_size then s.by_size else s.by_time)))
unfolding write_simple
write_simple_lem demangle v s =
    print_records-rows_of demangle v.flags s.symbols
      (if get_option_flag v.flags sort_by_address
        then s.by_address
        else (if get_option_flag v.flags sort_by_size then s.by_size else s.by_time))
      v.options
