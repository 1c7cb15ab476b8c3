-- ===== src/Threads/Times.antt =====
-- Times as src/memhook/thread.cpp adds and converts them.
use memhook.Prelude.{ℕ, ◌+◌, ◌*◌, ◌<◌, ◌≡◌, arith}
use memhook.Threads.Sleep.{TimeSpec, billion, conv_to_time_spec, add_time}

abbrev pub nanoseconds : TimeSpec → ℕ
nanoseconds t = t.tv_sec * billion + t.tv_nsec

abbrev pub IsNormal : TimeSpec → Type 0
IsNormal t = t.tv_nsec < billion

-- The conversion keeps the time, with less than a second of nanoseconds.
pub conv_to_time_spec_lem :
    (ns : ℕ) → IsNormal (conv_to_time_spec ns) × (nanoseconds (conv_to_time_spec ns) ≡ ns)
unfolding conv_to_time_spec
conv_to_time_spec_lem ns = omega arith

-- So does the sum of two such times.
pub add_time_lem :
    (a b : TimeSpec)
    → IsNormal a
    → IsNormal b
    → IsNormal (add_time a b) × (nanoseconds (add_time a b) ≡ nanoseconds a + nanoseconds b)
unfolding add_time
add_time_lem a b h k = ground arith
