-- ===== src/Time.antt =====
-- calc_abs_time and calc_time_diff of sw/itc/src/itc.c, on 64-bit machines.
mod Tests
use itc_framework.Base.{
  ℕ, ◌+◌, ◌-◌, ◌*◌, ◌/◌, ◌%◌, ◌^◌, ◌<◌, ◌≤◌, ◌≡◌, Bool, inl, inr, arith, ltb, leb, if◌then◌else◌,
  Bool-cases,
}

-- `struct timespec`, not negative.
pub record Timespec : Type 0 where
  pub tv_sec : ℕ
  pub tv_nsec : ℕ

-- `ts` is what `clock_gettime` returns, `tmo` a number of milliseconds.
unfoldable pub calc_abs_time : Timespec → (tmo : ℕ) → Timespec
calc_abs_time ts tmo =
    let sec = ts.tv_sec + tmo / 1000 in
    let nsec = ts.tv_nsec + tmo % 1000 * 1000000 in
    if leb 1000000000 nsec
    then record { tv_sec = sec + 1; tv_nsec = nsec - 1000000000 }
    else record { tv_sec = sec; tv_nsec = nsec }

unfoldable pub calc_time_diff : (t_start t_end : Timespec) → ℕ
calc_time_diff t_start t_end =
    let sec = (t_end.tv_sec + 2 ^ 64 - t_start.tv_sec) % 2 ^ 64 in
    if ltb t_end.tv_nsec t_start.tv_nsec
    then (sec * 1000000000 + 2 ^ 64 - (t_start.tv_nsec - t_end.tv_nsec)) % 2 ^ 64
    else (sec * 1000000000 + (t_end.tv_nsec - t_start.tv_nsec)) % 2 ^ 64

-- calc_abs_time of a normalised time and a positive `int32_t` number of milliseconds is a normalised
-- time, and by calc_time_diff it lies exactly that many milliseconds after the given one.
pub calc_time_diff-calc_abs_time :
    (ts : Timespec) (tmo : ℕ)
    → ts.tv_nsec < 1000000000
    → ts.tv_sec < 2 ^ 62
    → tmo < 2 ^ 31
    → ((calc_abs_time ts tmo).tv_nsec < 1000000000)
      × (calc_time_diff ts (calc_abs_time ts tmo) ≡ tmo * 1000000)
unfolding calc_abs_time calc_time_diff
calc_time_diff-calc_abs_time ts tmo fits early short = (ground arith, ground arith)
