-- ===== src/Memview/Filters.antt =====
-- Which records the options of src/memview/mapped_view_options.h let through.
use memhook.Prelude.{
  zero, suc, ℤ, pos, negsuc, ◌-ℤ◌, ◌≤ℤ◌, ◌≡◌, ◌≢◌, refl, ◌↔◌, ◌≤◌, true, List, [], ◌∷◌, All, arith,
  Bool-cases, inl, inr,
}
use memhook.TraceInfo.{TraceInfoBase}
use memhook.Memview.{
  ViewOption, min_size, min_time, max_time, min_time_from_now, max_time_from_now,
  min_time_from_start, max_time_from_start, geb_ℤ, start_time, call_option,
  check_trace_info_options,
}

-- What an option asks of a record.
abbrev pub Accepts : TraceInfoBase → ViewOption → Type 0
Accepts t (min_size size) = size ≤ t.memsize
Accepts t (min_time time) = time ≤ℤ t.timestamp
Accepts t (max_time time) = t.timestamp ≤ℤ time
Accepts t (min_time_from_now now d) = d ≤ℤ now -ℤ t.timestamp
Accepts t (max_time_from_now now d) = now -ℤ t.timestamp ≤ℤ d
Accepts t (min_time_from_start start d) = d ≤ℤ t.timestamp -ℤ start
Accepts t (max_time_from_start start d) = t.timestamp -ℤ start ≤ℤ d

-- The time of the start is known to the options that need it.
abbrev pub IsSettled : ViewOption → Type 0
IsSettled (min_time_from_start start d) = start ≢ pos 0
IsSettled (max_time_from_start start d) = start ≢ pos 0
IsSettled _ = Unit

start_time_settled : (start : ℤ) (t : TraceInfoBase) → start ≢ pos 0 → start_time start t ≡ start
unfolding start_time
start_time_settled (pos zero) t h = absurd (h refl)
start_time_settled (pos (suc n)) t h = refl
start_time_settled (negsuc n) t h = refl

geb_ℤ_iff : (a b : ℤ) → (geb_ℤ a b ≡ true) ↔ (b ≤ℤ a)
geb_ℤ_iff a b = ground arith

call_option-Accepts :
    (o : ViewOption) (t : TraceInfoBase)
    → IsSettled o
    → ((call_option o t).1 ≡ o) × (((call_option o t).0 ≡ true) ↔ Accepts t o)
unfolding call_option
call_option-Accepts (min_size size) t s = (refl, ground arith)
call_option-Accepts (min_time time) t s = (refl, geb_ℤ_iff t.timestamp time)
call_option-Accepts (max_time time) t s = (refl, geb_ℤ_iff time t.timestamp)
call_option-Accepts (min_time_from_now now d) t s = (refl, geb_ℤ_iff (now -ℤ t.timestamp) d)
call_option-Accepts (max_time_from_now now d) t s = (refl, geb_ℤ_iff d (now -ℤ t.timestamp))
call_option-Accepts (min_time_from_start start d) t s =
    rw (start_time_settled start t s) (refl, geb_ℤ_iff (t.timestamp -ℤ start) d)
call_option-Accepts (max_time_from_start start d) t s =
    rw (start_time_settled start t s) (refl, geb_ℤ_iff d (t.timestamp -ℤ start))

-- Once the time of the start is known, `CheckTraceInfoOptions` lets a record through exactly when
-- each of the options accepts it, and leaves the options as they are.
pub check_trace_info_options-Accepts :
    (options : List ViewOption) (t : TraceInfoBase)
    → All IsSettled options
    → ((check_trace_info_options options t).1 ≡ options)
      × (((check_trace_info_options options t).0 ≡ true) ↔ All (Accepts t) options)
unfolding check_trace_info_options
check_trace_info_options-Accepts [] t s = (refl, (λ h. tt, λ h. refl))
check_trace_info_options-Accepts (o ∷ options) t (s, ss) =
    let (kept, here) = call_option-Accepts o t s in
    let (all_kept, all) = check_trace_info_options-Accepts options t ss in
    elim (Bool-cases (call_option o t).0) [
      | inl good ↦ rw (good, kept, all_kept) (refl, (λ h. (here.0 good, all.0 h), λ h. all.1 h.1))
      | inr bad ↦
          rw (bad, kept)
            (refl, (λ h. absurd (ground arith), λ h. absurd (ground (arith, here.1 h.0))))
    ]
