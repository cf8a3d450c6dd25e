-- ===== src/Queue/Schedule/Skips.antt =====
-- What clockAfter skips, no field of the expression matches (queue/schedule.go).
use tug.Common.{
  ℕ, zero, suc, ◌+◌, ◌-◌, ◌%◌, ◌≤◌, ◌<◌, ◌≡◌, ap, arith, Bool, true, false, ◌&&◌, Option, none,
  some, ltb,
}
use tug.Queue.Clock.{Clock, days_in, next_month, next_day, next_hour, next_minute}
use tug.Queue.Schedule.{Cron, has_bit, day}

-- Whether every field of the expression matches a minute.
unfoldable pub matches : Cron → Clock → Bool
matches c t =
    has_bit c.months t.month && (day c t && (has_bit c.hours t.hour && has_bit c.minutes t.minute))

-- A search of every minute in turn, up to the end of the year limit.
pub data Finds (c : Cron) (limit : ℕ) : Clock → Option Clock → Type 0 where
  gives_up : {t : Clock} → limit < t.year → Finds c limit t none
  finds : {t : Clock} → t.year ≤ limit → matches c t ≡ true → Finds c limit t (some t)
  goes_on :
      {t : Clock} {r : Option Clock}
      → t.year ≤ limit
      → matches c t ≡ false
      → Finds c limit (next_minute t) r
      → Finds c limit t r

module _ (c : Cron) (limit : ℕ) where
  pub minutes-skipped :
      (k : ℕ) (t : Clock) (r : Option Clock)
      → t.minute + k ≡ 59
      → t.year ≤ limit
      → (has_bit c.months t.month && (day c t && has_bit c.hours t.hour)) ≡ false
      → Finds c limit (next_hour t) r
      → Finds c limit t r
  unfolding matches day
  minutes-skipped zero t r e y off f =
      let last : ltb t.minute 59 ≡ false = ground arith in goes_on y (ground arith) (rw last f)
  minutes-skipped (suc k) t r e y off f =
      let more : ltb t.minute 59 ≡ true = ground arith in
      goes_on y (ground arith)
        (rw more (minutes-skipped k (record t { minute = suc t.minute }) r (omega arith) y off f))

  pub hours-skipped :
      (k : ℕ) (t : Clock) (r : Option Clock)
      → t.hour + k ≡ 23
      → t.minute ≤ 59
      → t.year ≤ limit
      → (has_bit c.months t.month && day c t) ≡ false
      → Finds c limit (next_day t) r
      → Finds c limit t r
  unfolding day
  hours-skipped zero t r e m y off f =
      let last : ltb t.hour 23 ≡ false = ground arith in
      minutes-skipped (59 - t.minute) t r (omega arith) y (ground arith) (rw last f)
  hours-skipped (suc k) t r e m y off f =
      let more : ltb t.hour 23 ≡ true = ground arith in
      minutes-skipped (59 - t.minute) t r (omega arith) y (ground arith) (
        rw more (
          hours-skipped k (record t { hour = suc t.hour; minute = 0 }) r (omega arith) (omega arith)
            y off f))

  pub days-skipped :
      (k : ℕ) (t : Clock) (r : Option Clock)
      → t.day + k ≡ days_in t.year t.month
      → t.hour ≤ 23
      → t.minute ≤ 59
      → t.year ≤ limit
      → has_bit c.months t.month ≡ false
      → Finds c limit (next_month t) r
      → Finds c limit t r
  days-skipped zero t r e h m y off f =
      let last : ltb t.day (days_in t.year t.month) ≡ false = ground arith in
      hours-skipped (23 - t.hour) t r (omega arith) m y (ground arith) (rw last f)
  days-skipped (suc k) t r e h m y off f =
      let more : ltb t.day (days_in t.year t.month) ≡ true = ground arith in
      let tomorrow : Clock = record t {
        day = suc t.day;
        hour = 0;
        minute = 0;
        weekday = suc t.weekday % 7;
      } in
      let same_month : next_month tomorrow ≡ next_month t =
        ap (λ w. record (next_month t) { weekday = w }) (omega arith) in
      hours-skipped (23 - t.hour) t r (omega arith) m y (ground arith) (
        rw more (
          days-skipped k tomorrow r (omega arith) (omega arith) (omega arith) y off
            (rw same_month f)))
