-- ===== src/Queue/Clock.antt =====
-- What queue/schedule.go uses of package time's calendar: times in UTC to the minute, and the steps
-- from one to a later one. `time.Date` carries a day past its month's end, or a 13th month, over.
use tug.Common.{ℕ, suc, ◌+◌, ◌-◌, ◌%◌, ◌≤◌, not, ◌&&◌, ◌||◌, ltb, ◌==◌, if◌then◌else◌}

-- A minute. The weekday is 0 on Sundays, as Weekday says it.
pub record Clock : Type 0 where
  pub year : ℕ
  pub month : ℕ
  pub day : ℕ
  pub hour : ℕ
  pub minute : ℕ
  pub weekday : ℕ

unfoldable pub days_in : (year month : ℕ) → ℕ
days_in y m =
    if m == 2
    then if y % 400 == 0 || y % 4 == 0 && not (y % 100 == 0) then 29 else 28
    else if m == 4 || m == 6 || m == 9 || m == 11
    then 30
    else 31

-- `time.Date(t.Year(), t.Month()+1, 1, 0, 0, 0, 0, time.UTC)`.
abbrev pub next_month : Clock → Clock
next_month t = record {
  year = if ltb t.month 12 then t.year else suc t.year;
  month = if ltb t.month 12 then suc t.month else 1;
  day = 1;
  hour = 0;
  minute = 0;
  weekday = (t.weekday + (days_in t.year t.month - t.day) + 1) % 7;
}

-- `time.Date(t.Year(), t.Month(), t.Day()+1, 0, 0, 0, 0, time.UTC)`.
abbrev pub next_day : Clock → Clock
next_day t =
    if ltb t.day (days_in t.year t.month)
    then record t { day = suc t.day; hour = 0; minute = 0; weekday = suc t.weekday % 7 }
    else next_month t

-- `t.Truncate(time.Hour).Add(time.Hour)`.
abbrev pub next_hour : Clock → Clock
next_hour t = if ltb t.hour 23 then record t { hour = suc t.hour; minute = 0 } else next_day t

-- `t.Add(time.Minute)`.
abbrev pub next_minute : Clock → Clock
next_minute t = if ltb t.minute 59 then record t { minute = suc t.minute } else next_hour t

-- A time of the calendar.
pub record IsTime (t : Clock) : Type 0 where
  pub month_from : 1 ≤ t.month
  pub month_to : t.month ≤ 12
  pub day_from : 1 ≤ t.day
  pub day_to : t.day ≤ days_in t.year t.month
  pub hour_to : t.hour ≤ 23
  pub minute_to : t.minute ≤ 59
  pub weekday_to : t.weekday ≤ 6
