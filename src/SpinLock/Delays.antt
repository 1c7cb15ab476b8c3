-- ===== src/SpinLock/Delays.antt =====
-- `GetSpinLockDelayNS` and `SpinLockDelay` of src/memhook/spin_lock.cpp, with atomic operations of
-- 64 bits: how long a thread waits for the lock before it looks again.
use memhook.Prelude.{
  ℕ, zero, suc, ◌+◌, ◌-◌, ◌*◌, ◌/◌, ◌%◌, ◌^◌, ◌≤◌, ◌<◌, ◌==◌, ◌||◌, ◌&&◌, not, Bool, ltb, leb,
  if◌then◌else◌, arith,
}

-- What `SpinLock_InitHelper` sets: `g_adaptive_spin_count`, `g_have_futex` and
-- `g_futex_private_flag`.
pub record SpinGlobals : Type 0 where
  pub adaptive_spin_count : ℕ
  pub have_futex : Bool
  pub futex_private_flag : ℕ

-- `SpinLock_InitHelper`, from the number of processors and whether a wake-up with a flag succeeds.
unfoldable pub init_spin_globals : ℕ → (ℕ → Bool) → SpinGlobals
init_spin_globals cpu_count wake_succeeds = record {
  adaptive_spin_count = if ltb 1 cpu_count then 1000 else 0;
  have_futex = wake_succeeds 0;
  futex_private_flag = if wake_succeeds 0 && not (wake_succeeds 128) then 0 else 128;
}

-- The generator, on words of 64 bits.
unfoldable pub next_rand : ℕ → ℕ
next_rand r = (0x5deece66d * r + 0xb) % 2 ^ 64

-- `loop` as an `int` that is negative or above 32 counts as 32.
unfoldable pub clamp_loop : ℕ → ℕ
clamp_loop loop = if leb (2 ^ 31) loop || ltb 32 loop then 32 else loop

-- `GetSpinLockDelayNS`: the answer, and the word that is stored for the next call.
unfoldable pub get_spin_lock_delay_ns : ℕ → ℕ → ℕ × ℕ
get_spin_lock_delay_ns loop rand =
    let r = next_rand rand in ((r * 2 ^ 16) % 2 ^ 64 / 2 ^ (44 - clamp_loop loop / 8), r)

-- What a thread does: it goes on at once, yields, waits on the lock word for a number of
-- nanoseconds at most, or sleeps for as long.
pub data Delay : Type 0 where
  at_once : Delay
  yields : Delay
  futex_waits : ℕ → Delay
  sleeps : ℕ → Delay

-- `SpinLockDelay`, with whether there are futexes.
unfoldable pub spin_lock_delay : Bool → ℕ → ℕ → Delay × ℕ
spin_lock_delay have_futex loop rand =
    let (ns, r) = get_spin_lock_delay_ns loop rand in
    if loop == 0
    then (at_once, rand)
    else if loop == 1
    then (yields, rand)
    else if have_futex
    then (futex_waits (ns * 32), r)
    else (sleeps ns, r)

abbrev pub duration : Delay → ℕ
duration at_once = 0
duration yields = 0
duration (futex_waits ns) = ns
duration (sleeps ns) = ns

-- A word of which 20 bits and `k` more are left, 32 times over.
shifted :
    (x k : ℕ)
    → k ≤ 4
    → (x % 2 ^ 64 / 2 ^ (44 - k) * 32 < 2 ^ (25 + k)) × (x % 2 ^ 64 / 2 ^ (44 - k) * 32 < 2 ^ 29)
shifted x zero h = omega arith
shifted x (suc zero) h = omega arith
shifted x (suc (suc zero)) h = omega arith
shifted x (suc (suc (suc zero))) h = omega arith
shifted x (suc (suc (suc (suc zero)))) h = omega arith
shifted x (suc (suc (suc (suc (suc k))))) h = absurd (omega arith)

clamp_loop_le : (loop : ℕ) → clamp_loop loop / 8 ≤ 4
unfolding clamp_loop
clamp_loop_le loop = ground arith

duration_le :
    (have_futex : Bool) (loop rand : ℕ)
    → duration (spin_lock_delay have_futex loop rand).0 ≤ (get_spin_lock_delay_ns loop rand).0 * 32
unfolding spin_lock_delay
duration_le have_futex loop rand = ground arith

-- A wait for the lock takes less than 2 ^ 25 nanoseconds, a bound that doubles with every eighth
-- round up to the 32nd, whatever the generator gives and in whatever way the thread waits; it is
-- always less than the second from which on the kernel refuses the number.
pub delay_bounds :
    (have_futex : Bool) (loop rand : ℕ)
    → (duration (spin_lock_delay have_futex loop rand).0 < 2 ^ (25 + clamp_loop loop / 8))
      × (duration (spin_lock_delay have_futex loop rand).0 < 1000000000)
unfolding get_spin_lock_delay_ns
delay_bounds have_futex loop rand =
    let (short, less) =
      shifted (next_rand rand * 2 ^ 16) (clamp_loop loop / 8) (clamp_loop_le loop) in
    let at_most = duration_le have_futex loop rand in (omega arith, omega arith)
