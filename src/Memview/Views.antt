-- ===== src/Memview/Views.antt =====
-- `WriteImpl` of the two views, src/memview/basic_simple_mapped_view.h and
-- basic_aggregated_mapped_view.h, with their printers. The text of a row (Boost.Karma,
-- `localtime_r`) is left out: a row is the values that go into it. `CxxSymbolDemangle` is a
-- parameter.
pub mod Printed
use memhook.Prelude.{
  ℕ, ℤ, Bool, true, false, Option, none, some, List, [], ◌∷◌, ◌++◌, if◌then◌else◌,
}
use memhook.TraceInfo.{TraceInfo, TraceInfoCallStackItem}
use memhook.Storage.Mapped.{Symbols, symbol}
use memhook.Memview.{
  ViewOption, check_trace_info_options, OptionFlag, show_call_stack, sort_by_address, sort_by_size,
  get_option_flag,
}
use memhook.Memview.Aggregate.{AggregatedTraceInfo, AggregatedIndex, Building, build_all}

pub data Row : Type 0 where
  record_row : ℕ → ℕ → ℤ → Row
  total_row : ℕ → ℕ → Row
  -- Instruction, stack pointer, library, function and offset.
  frame_row : ℕ → ℕ → List ℕ → List ℕ → ℕ → Row

-- The container of the storage: its symbol tables and the traversals of its three indexes.
pub record Shared : Type 0 where
  pub symbols : Symbols
  pub by_address : List TraceInfo
  pub by_time : List TraceInfo
  pub by_size : List TraceInfo

-- `MappedViewBase`
pub record View : Type 0 where
  pub options : List ViewOption
  pub flags : ℕ

-- "<unknown>"
abbrev pub unknown : List ℕ
unknown = 60 ∷ 117 ∷ 110 ∷ 107 ∷ 110 ∷ 111 ∷ 119 ∷ 110 ∷ 62 ∷ []

-- The name in a symbol table, or the tag.
abbrev or_unknown : Option (List ℕ) → List ℕ
or_unknown (some name) = name
or_unknown none = unknown

unfoldable pub get_module_path : ℕ → Symbols → List ℕ
get_module_path addr symbols = or_unknown (symbol addr symbols.shltab)

unfoldable pub get_proc_name : ℕ → Symbols → List ℕ
get_proc_name ip symbols = or_unknown (symbol ip symbols.symtab)

-- What `IsInterrupted()` answers at each element; past the end of the list it answers no.
abbrev pub visits : {A : Type 0} → List Bool → List A → List (Bool × A)
visits answers [] = []
visits [] (x ∷ xs) = (false, x) ∷ visits [] xs
visits (a ∷ answers) (x ∷ xs) = (a, x) ∷ visits answers xs

module _ (demangle : List ℕ → List ℕ) where
  -- `operator()` of the printers on an item of a call stack.
  unfoldable pub print_frame : Symbols → TraceInfoCallStackItem → Row
  print_frame symbols item =
      frame_row item.ip item.sp (get_module_path item.shl_addr symbols)
        (demangle (get_proc_name item.ip symbols)) item.offp

  abbrev print_frames : Symbols → List TraceInfoCallStackItem → List Row
  print_frames symbols [] = []
  print_frames symbols (item ∷ items) = print_frame symbols item ∷ print_frames symbols items

  -- The call stack behind a row, if it is to be shown.
  unfoldable pub shown_frames : ℕ → Symbols → List TraceInfoCallStackItem → List Row
  shown_frames flags symbols items =
      if get_option_flag flags show_call_stack then print_frames symbols items else []

  -- The rows that `SimpleTraceInfoPrinter` writes for a record that the options let through.
  unfoldable pub record_rows : ℕ → Symbols → TraceInfo → List Row
  record_rows flags symbols t =
      record_row t.base.address t.base.memsize t.base.timestamp
      ∷ shown_frames flags symbols t.callstack

  -- The traversal of an index with `SimpleTraceInfoPrinter`: `find_if` stops where the printer
  -- answers false.
  unfoldable pub print_records : ℕ → Symbols → List (Bool × TraceInfo) → List ViewOption → List Row
  print_records flags symbols [] options = []
  print_records flags symbols ((interrupted, t) ∷ ts) options =
      let (good, options') = check_trace_info_options options t.base in
      let rest = print_records flags symbols ts options' in
      if interrupted then [] else (if good then record_rows flags symbols t ++ rest else rest)

  -- `BasicSimpleMappedView::WriteImpl`
  unfoldable pub write_simple : View → Shared → List Bool → List Row
  write_simple v s interrupts =
      let index =
        if get_option_flag v.flags sort_by_address
        then s.by_address
        else (if get_option_flag v.flags sort_by_size then s.by_size else s.by_time) in
      print_records v.flags s.symbols (visits interrupts index) v.options

  unfoldable pub total_rows : ℕ → Symbols → AggregatedTraceInfo → List Row
  total_rows flags symbols t = total_row t.memsize t.times ∷ shown_frames flags symbols t.callstack

  -- The traversal of an index with `AggregatedTraceInfoPrinter`.
  unfoldable pub print_totals : ℕ → Symbols → List (Bool × AggregatedTraceInfo) → List Row
  print_totals flags symbols [] = []
  print_totals flags symbols ((interrupted, t) ∷ ts) =
      let rest = print_totals flags symbols ts in
      if interrupted then [] else total_rows flags symbols t ++ rest

  module _ (ix : AggregatedIndex) where
    -- `BasicAggregatedMappedView::WriteImpl`, with the interruptions of the traversal of the
    -- records and those of the traversal of the sums.
    unfoldable pub write_aggregated : View → Shared → List Bool → List Bool → List Row
    write_aggregated v s interrupts printing =
        let (ended, b) =
          build_all ix (visits interrupts s.by_time)
            (record { options = v.options; rep = ix.empty }) in
        let index =
          if get_option_flag v.flags sort_by_size then ix.by_memsize b.rep else ix.by_times b.rep in
        if ended then print_totals v.flags s.symbols (visits printing index) else []
