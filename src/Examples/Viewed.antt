-- ===== src/Examples/Viewed.antt =====
-- Views of three records, two of them with the same call stack.
use memhook.Prelude.{
  false, none, ℕ, pos, ◌≡◌, ◌↔◌, ◌+◌, ◌%◌, ◌^◌, Bool, true, some, List, [], ◌∷◌, All, arith,
}
use memhook.TraceInfo.{TraceInfo, TraceInfoCallStackItem}
use memhook.Memview.{
  ViewOption, min_size, min_time_from_start, check_trace_info_options, call_option, OptionFlag,
  no_lock, sort_by_address, sort_by_size, get_option_flag, default_flags,
}
use memhook.Memview.Filters.{Accepts, check_trace_info_options-Accepts}
use memhook.Memview.Aggregate.{build_all, equal_callstacks}
use memhook.Memview.Plain.{plain_aggregated}
use memhook.Memview.Totals.{sums, calm, sums-build_all}
use memhook.Memview.Rows.{sum_by}
use memhook.Memview.Views.{Shared, View, write_aggregated}
use memhook.Memview.Views.Printed.{totals, totals-write_aggregated_sums}
use memhook.Memview.Command.{OptionsMap, set_options, new_view}
use memhook.Memview.Command.Chosen.{set_options-is_chosen}

abbrev stack_at : ℕ → List TraceInfoCallStackItem
stack_at ip = record { shl_addr = 4096; ip = ip; sp = 7; offp = 1 } ∷ []

abbrev record_at : ℕ → ℕ → ℕ → TraceInfo
record_at address memsize ip = record {
  base = record { address = address; memsize = memsize; timestamp = pos (address + 1) };
  callstack = stack_at ip;
}

abbrev records : List TraceInfo
records = record_at 10 100 1 ∷ record_at 20 200 2 ∷ record_at 30 300 1 ∷ []

abbrev options : List ViewOption
options = min_size 50 ∷ min_time_from_start (pos 3) (pos 8) ∷ []

check_trace_info_options-Accepts_example :
    ((check_trace_info_options options (record_at 10 100 1).base).1 ≡ options)
    × (((check_trace_info_options options (record_at 10 100 1).base).0 ≡ true)
        ↔ All (Accepts (record_at 10 100 1).base) options)
check_trace_info_options-Accepts_example =
    check_trace_info_options-Accepts options (record_at 10 100 1).base
      (tt, ((λ e. ground arith), tt))

abbrev flag_calls : List (OptionFlag × Bool)
flag_calls = (no_lock, true) ∷ (sort_by_address, true) ∷ []

sums-build_all_example :
    ((build_all plain_aggregated (calm records) (record { options = []; rep = [] })).0 ≡ true)
    × (sums (
          plain_aggregated.find
            (stack_at 1)
            (build_all plain_aggregated (calm records) (record { options = []; rep = [] })).1.rep)
        ≡ some (400, 2))
unfolding equal_callstacks check_trace_info_options
sums-build_all_example =
    sums-build_all plain_aggregated [] records (stack_at 1)
      (omega arith, (omega arith, (omega arith, tt)))

abbrev shared : Shared
shared = record {
  symbols = record { symtab = []; shltab = [] };
  by_address = records;
  by_time = records;
  by_size = records;
}

abbrev view : View
view = record { options = min_size 150 ∷ []; flags = default_flags }

totals-write_aggregated_sums_example :
    (sum_by (λ p. p.0) (totals (write_aggregated (λ name. name) plain_aggregated view shared [] []))
        % 2 ^ 64
      ≡ 500)
    × (sum_by
            (λ p. p.1)
            (totals (write_aggregated (λ name. name) plain_aggregated view shared [] []))
          % 2 ^ 64
        ≡ 2)
unfolding check_trace_info_options call_option
totals-write_aggregated_sums_example =
    totals-write_aggregated_sums (λ name. name) plain_aggregated view shared

-- "-s -p -z 50 --no-lock"
abbrev command_line : OptionsMap
command_line = record {
  help = false;
  shared_memory_path = none;
  mapped_file = none;
  show_callstack = none;
  aggregate = none;
  no_lock_value = some true;
  get_storage_info = false;
  by_time = false;
  by_size = true;
  by_address = true;
  min_size_value = some 50;
  min_time_value = none;
  max_time_value = none;
  min_from_now = none;
  max_from_now = none;
  min_from_start = none;
  max_from_start = none;
}

set_options-is_chosen_example :
    ((set_options (pos 9) (pos 9) command_line (new_view command_line)).options ≡ min_size 50 ∷ [])
    × (get_option_flag
          (set_options (pos 9) (pos 9) command_line (new_view command_line)).flags
          sort_by_size
        ≡ true)
set_options-is_chosen_example = set_options-is_chosen (pos 9) (pos 9) command_line sort_by_size
