-- ===== src/Memview.antt =====
-- The viewer of a storage: the options and flags of `MappedViewBase` in
-- src/memview/mapped_view_options.h and mapped_view_base.cpp. Times and durations are the signed
-- counts of the system clock.
pub mod Filters
pub mod Flags
pub mod Aggregate
pub mod Plain
pub mod Callstacks
pub mod Totals
pub mod Rows
pub mod Views
pub mod Command
use Prim.Native.Nat.{bit_and, bit_or}
use memhook.Prelude.{
  ℕ, zero, ℤ, pos, ◌-ℤ◌, ltb_ℤ, ◌-◌, ◌==◌, Bool, true, false, not, List, [], ◌∷◌, leb,
  if◌then◌else◌,
}
use memhook.TraceInfo.{TraceInfoBase}

-- `MappedViewOption` and its derived classes with their members, `m_current_time` and
-- `m_start_time` first.
pub data ViewOption : Type 0 where
  min_size : ℕ → ViewOption
  min_time : ℤ → ViewOption
  max_time : ℤ → ViewOption
  min_time_from_now : ℤ → ℤ → ViewOption
  max_time_from_now : ℤ → ℤ → ViewOption
  min_time_from_start : ℤ → ℤ → ViewOption
  max_time_from_start : ℤ → ℤ → ViewOption

-- `a >= b` on times.
abbrev pub geb_ℤ : ℤ → ℤ → Bool
geb_ℤ a b = not (ltb_ℤ a b)

-- `m_start_time`, set from the record when it is the default time point.
unfoldable pub start_time : ℤ → TraceInfoBase → ℤ
start_time (pos zero) t = t.timestamp
start_time start t = start

-- `Call`: the result, and the option after the call.
unfoldable pub call_option : ViewOption → TraceInfoBase → Bool × ViewOption
call_option (min_size size) t = (leb size t.memsize, min_size size)
call_option (min_time time) t = (geb_ℤ t.timestamp time, min_time time)
call_option (max_time time) t = (geb_ℤ time t.timestamp, max_time time)
call_option (min_time_from_now now d) t = (geb_ℤ (now -ℤ t.timestamp) d, min_time_from_now now d)
call_option (max_time_from_now now d) t = (geb_ℤ d (now -ℤ t.timestamp), max_time_from_now now d)
call_option (min_time_from_start start d) t =
    let start' = start_time start t in
    (geb_ℤ (t.timestamp -ℤ start') d, min_time_from_start start' d)
call_option (max_time_from_start start d) t =
    let start' = start_time start t in
    (geb_ℤ d (t.timestamp -ℤ start'), max_time_from_start start' d)

-- `CheckTraceInfoOptions`: `find_if` stops at the first option that refuses the record.
unfoldable pub check_trace_info_options : List ViewOption → TraceInfoBase → Bool × List ViewOption
check_trace_info_options [] t = (true, [])
check_trace_info_options (o ∷ options) t =
    let (good, o') = call_option o t in
    let (all, options') = check_trace_info_options options t in
    if good then (all, o' ∷ options') else (false, o' ∷ options)

-- `OptionFlag`
pub data OptionFlag : Type 0 where
  no_lock : OptionFlag
  show_call_stack : OptionFlag
  sort_by_address : OptionFlag
  sort_by_time : OptionFlag
  sort_by_size : OptionFlag

abbrev pub flag_value : OptionFlag → ℕ
flag_value no_lock = 0x0001
flag_value show_call_stack = 0x0002
flag_value sort_by_address = 0x0010
flag_value sort_by_time = 0x0020
flag_value sort_by_size = 0x0040

-- `flags & ~mask` over 32 bits.
abbrev pub clear_bits : ℕ → ℕ → ℕ
clear_bits flags mask = bit_and flags (0xffffffff - mask)

abbrev pub sortmask : ℕ
sortmask = 0x00f0

-- `GetOptionFlag`
unfoldable pub get_option_flag : ℕ → OptionFlag → Bool
get_option_flag flags f = not (bit_and flags (flag_value f) == 0)

-- `SetOptionFlag`: `m_flags` after the call.
unfoldable pub set_option_flag : OptionFlag → Bool → ℕ → ℕ
set_option_flag f setval flags =
    let flags' =
      if bit_and (flag_value f) sortmask == 0 then flags else clear_bits flags sortmask in
    if setval then bit_or flags' (flag_value f) else clear_bits flags' (flag_value f)

-- `MappedViewBase()`
abbrev pub default_flags : ℕ
default_flags = flag_value sort_by_time
