-- ===== src/Queue/Schedule/Tests.antt =====
-- The theorems on schedules, at an expression for each night (queue/schedule.go).
use tug.Common.{◌+◌, ◌≡◌, refl, arith, true, false, some}
use tug.Queue.Clock.{Clock, IsTime, days_in, next_minute}
use tug.Queue.Schedule.{Cron, clock_after, search, advance, has_bit, day}
use tug.Queue.Schedule.Skips.{Finds}
use tug.Queue.Schedule.Rounds.{clock_after-Finds}

-- "59 23 28,29 2 *".
abbrev leap_night : Cron
leap_night = record {
  minutes = 576460752303423488;
  hours = 8388608;
  dom = 805306368;
  months = 4;
  dow = 127;
  dom_star = false;
  dow_star = true;
  minute_star = false;
  hour_star = false;
}

-- 28 February 2024 at 23:58, a Wednesday.
abbrev before : Clock
before = record { year = 2024; month = 2; day = 28; hour = 23; minute = 58; weekday = 3 }

abbrev after : Clock
after = record before { minute = 59 }

before-IsTime : IsTime before
unfolding days_in
before-IsTime = record {
  month_from = omega arith;
  month_to = omega arith;
  day_from = omega arith;
  day_to = omega arith;
  hour_to = omega arith;
  minute_to = omega arith;
  weekday_to = omega arith;
}

next_night :
    clock_after leap_night after
    ≡ some (record { year = 2024; month = 2; day = 29; hour = 23; minute = 59; weekday = 4 })
unfolding clock_after search advance has_bit day days_in
next_night = refl

next_year :
    clock_after leap_night (record before { day = 29; minute = 59; weekday = 4 })
    ≡ some (record { year = 2025; month = 2; day = 28; hour = 23; minute = 59; weekday = 5 })
unfolding clock_after search advance has_bit day days_in
next_year = refl

clock_after-Finds_example :
    Finds leap_night
      ((next_minute before).year + 8)
      (next_minute before)
      (clock_after leap_night before)
clock_after-Finds_example = clock_after-Finds leap_night before before-IsTime
