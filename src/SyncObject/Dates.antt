-- ===== src/SyncObject/Dates.antt =====
-- The dates that sw/itc-common/src/itcSyncObject.cc and sw/itc-common/src/itcMutex.cc compute.
use itc_platform.Common.{ℕ, ◌+◌, ◌*◌, ◌^◌, ◌≤◌, ◌<◌, ◌≡◌, arith}
use itc_platform.SyncObject.{Time, billion, calculate_expired_date, time_diff_in_nano_sec}

-- A time in nanoseconds.
abbrev pub nanoseconds : Time → ℕ
nanoseconds t = t.sec * billion + t.nsec

-- For a clock that gives less than a second in nanoseconds, the date of expiry is the time that the
-- clock gave and the timeout, added up, and its nanoseconds stay below one second.
pub calculate_expired_date_lem :
    (now : Time) (relative_timeout : ℕ)
    → now.nsec < billion
    → let date = calculate_expired_date now relative_timeout in
      (nanoseconds date ≡ nanoseconds now + relative_timeout * 1000000) × (date.nsec < billion)
unfolding calculate_expired_date
calculate_expired_date_lem now relative_timeout h = ground arith

-- The difference of two times, the later one second, is the number of nanoseconds between them,
-- also where the nanoseconds borrow from the seconds; both have less than a second in nanoseconds,
-- and the later one fits in 64 bits.
pub time_diff_lem :
    (t_start t_end : Time)
    → t_start.nsec < billion
    → t_end.nsec < billion
    → nanoseconds t_start ≤ nanoseconds t_end
    → nanoseconds t_end < 2 ^ 64
    → nanoseconds t_start + time_diff_in_nano_sec t_start t_end ≡ nanoseconds t_end
unfolding time_diff_in_nano_sec
time_diff_lem t_start t_end hs he later fits = ground arith
