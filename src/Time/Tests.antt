-- ===== src/Time/Tests.antt =====
-- calc_abs_time and calc_time_diff at 1500 ms.
use itc_framework.Base.{◌≡◌, ◌<◌, ◌*◌, arith}
use itc_framework.Time.{Timespec, calc_abs_time, calc_time_diff, calc_time_diff-calc_abs_time}

abbrev now : Timespec
now = record { tv_sec = 7; tv_nsec = 900000000 }

calc_time_diff-calc_abs_time_example :
    ((calc_abs_time now 1500).tv_nsec < 1000000000)
    × (calc_time_diff now (calc_abs_time now 1500) ≡ 1500 * 1000000)
calc_time_diff-calc_abs_time_example =
    calc_time_diff-calc_abs_time now 1500 (omega arith) (omega arith) (omega arith)
