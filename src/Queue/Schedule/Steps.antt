-- ===== src/Queue/Schedule/Steps.antt =====
-- The steps of clockAfter lead to later times of the calendar (queue/schedule.go).
use tug.Common.{ℕ, suc, ◌+◌, ◌-◌, ◌*◌, ◌≤◌, ◌<◌, arith, ltb, Bool-cases, inl, inr}
use tug.Queue.Clock.{Clock, IsTime, days_in, next_month, next_day, next_hour, next_minute}

pub days_in-bounds : (y m : ℕ) → (28 ≤ days_in y m) × (days_in y m ≤ 31)
unfolding days_in
days_in-bounds y m = ground arith

-- The minutes from a time on, up to the end of the year limit, as 31-day months count them.
unfoldable pub left : (limit : ℕ) → Clock → ℕ
left limit t =
    ((((suc limit - t.year) * 12 + (12 - t.month)) * 31 + (31 - t.day)) * 24 + (23 - t.hour)) * 60
    + (59 - t.minute)

-- A step to a later time of the calendar.
abbrev pub IsStep : ℕ → Clock → Clock → Type 0
IsStep limit t t' = IsTime t' × (left limit t' < left limit t)

pub next_month-IsStep :
    (limit : ℕ) (t : Clock) → IsTime t → t.year ≤ limit → IsStep limit t (next_month t)
unfolding left
next_month-IsStep limit t i y =
    let from = i.month_from in
    let to = i.month_to in
    elim (Bool-cases (ltb t.month 12)) [
      | inl b ↦
          let days = days_in-bounds t.year (suc t.month) in
          let earlier : t.month < 12 = ground arith in
          rw b (
            record {
              month_from = omega arith;
              month_to = omega arith;
              day_from = omega arith;
              day_to = omega arith;
              hour_to = omega arith;
              minute_to = omega arith;
              weekday_to = omega arith;
            },
            omega arith,
          )
      | inr b ↦
          let days = days_in-bounds (suc t.year) 1 in
          let later : 12 ≤ t.month = ground arith in
          rw b (
            record {
              month_from = omega arith;
              month_to = omega arith;
              day_from = omega arith;
              day_to = omega arith;
              hour_to = omega arith;
              minute_to = omega arith;
              weekday_to = omega arith;
            },
            omega arith,
          )
    ]

pub next_day-IsStep :
    (limit : ℕ) (t : Clock) → IsTime t → t.year ≤ limit → IsStep limit t (next_day t)
unfolding left
next_day-IsStep limit t i y = elim (Bool-cases (ltb t.day (days_in t.year t.month))) [
  | inl b ↦
      let days = days_in-bounds t.year t.month in
      let before : t.day < days_in t.year t.month = ground arith in
      rw b (
        record {
          month_from = i.month_from;
          month_to = i.month_to;
          day_from = omega arith;
          day_to = omega arith;
          hour_to = omega arith;
          minute_to = omega arith;
          weekday_to = omega arith;
        },
        omega arith,
      )
  | inr b ↦ rw b (next_month-IsStep limit t i y)
]

pub next_hour-IsStep :
    (limit : ℕ) (t : Clock) → IsTime t → t.year ≤ limit → IsStep limit t (next_hour t)
unfolding left
next_hour-IsStep limit t i y = elim (Bool-cases (ltb t.hour 23)) [
  | inl b ↦
      let before : t.hour < 23 = ground arith in
      rw b (
        record {
          month_from = i.month_from;
          month_to = i.month_to;
          day_from = i.day_from;
          day_to = i.day_to;
          hour_to = omega arith;
          minute_to = omega arith;
          weekday_to = i.weekday_to;
        },
        omega arith,
      )
  | inr b ↦ rw b (next_day-IsStep limit t i y)
]

pub next_minute-IsStep :
    (limit : ℕ) (t : Clock) → IsTime t → t.year ≤ limit → IsStep limit t (next_minute t)
unfolding left
next_minute-IsStep limit t i y = elim (Bool-cases (ltb t.minute 59)) [
  | inl b ↦
      let before : t.minute < 59 = ground arith in
      rw b (
        record {
          month_from = i.month_from;
          month_to = i.month_to;
          day_from = i.day_from;
          day_to = i.day_to;
          hour_to = i.hour_to;
          minute_to = omega arith;
          weekday_to = i.weekday_to;
        },
        omega arith,
      )
  | inr b ↦ rw b (next_hour-IsStep limit t i y)
]
