-- ===== src/Queue/Schedule.antt =====
-- Cron schedules: when a time comes round (queue/schedule.go).
pub mod Fields
pub mod Rounds
mod Skips
mod Steps
mod Tests
use tug.Common.{
  ℕ, zero, suc, ◌+◌, ◌-◌, ◌*◌, ◌/◌, ◌%◌, Bool, true, false, not, ◌&&◌, ◌||◌, Option, none, some,
  ltb, ◌==◌, if◌then◌else◌,
}
use tug.Queue.Clock.{Clock, next_month, next_day, next_hour, next_minute}

-- `bits&(1<<n) != 0`.
unfoldable pub has_bit : (bits n : ℕ) → Bool
has_bit bits zero = bits % 2 == 1
has_bit bits (suc n) = has_bit (bits / 2) n

-- A parsed expression: a set of bits for each field. The zone is not here.
pub record Cron : Type 0 where
  pub minutes : ℕ
  pub hours : ℕ
  pub dom : ℕ
  pub months : ℕ
  pub dow : ℕ
  pub dom_star : Bool
  pub dow_star : Bool
  pub minute_star : Bool
  pub hour_star : Bool

unfoldable pub day : Cron → Clock → Bool
day c t =
    let dom : Bool = has_bit c.dom t.day in
    let dow : Bool = has_bit c.dow t.weekday in
    if c.dom_star || c.dow_star then dom && dow else dom || dow

-- Where a round of the loop of `clockAfter` goes on from, none where it returns the time that it is at.
unfoldable pub advance : Cron → Clock → Option Clock
advance c t =
    if not (has_bit c.months t.month)
    then some (next_month t)
    else if not (day c t)
    then some (next_day t)
    else if not (has_bit c.hours t.hour)
    then some (next_hour t)
    else if not (has_bit c.minutes t.minute)
    then some (next_minute t)
    else none

-- The loop of `clockAfter`, for so many rounds.
unfoldable pub search : (rounds : ℕ) → Cron → (limit : ℕ) → Clock → Option Clock
search zero c limit t = none
search (suc rounds) c limit t =
    if ltb limit t.year
    then none
    else elim (advance c t) [ none ↦ some t | some t' ↦ search rounds c limit t' ]

-- More minutes than nine years have, as 31-day months count them.
abbrev pub most_rounds : ℕ
most_rounds = 5400000

-- `clockAfter`, after the minute w, none for the zero time.
unfoldable pub clock_after : Cron → Clock → Option Clock
clock_after c w = search most_rounds c ((next_minute w).year + 8) (next_minute w)
