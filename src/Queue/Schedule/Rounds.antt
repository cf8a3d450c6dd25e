-- ===== src/Queue/Schedule/Rounds.antt =====
-- What clockAfter finds is what a search of every minute would (queue/schedule.go).
use tug.Common.{
  ℕ, zero, suc, ◌+◌, ◌-◌, ◌≤◌, ◌<◌, ◌≡◌, refl, arith, true, Option, none, some, ltb, Bool-cases,
  inl, inr,
}
use tug.Queue.Clock.{Clock, IsTime, days_in, next_minute}
use tug.Queue.Schedule.{Cron, has_bit, day, advance, search, clock_after, most_rounds}
use tug.Queue.Schedule.Steps.{
  left, IsStep, next_month-IsStep, next_day-IsStep, next_hour-IsStep, next_minute-IsStep,
}
use tug.Queue.Schedule.Skips.{
  matches, Finds, gives_up, finds, goes_on, minutes-skipped, hours-skipped, days-skipped,
}

module _ (c : Cron) (limit : ℕ) where
  -- What a round of the loop does: it is at a minute that matches, or goes on from a later one, before which
  -- no minute matches.
  data Round (t : Clock) : Option Clock → Type 0 where
    at : matches c t ≡ true → Round t none
    on :
        {t' : Clock}
        → IsStep limit t t'
        → ((r : Option Clock) → Finds c limit t' r → Finds c limit t r)
        → Round t (some t')

  advance-Round : (t : Clock) → IsTime t → t.year ≤ limit → Round t (advance c t)
  unfolding advance matches
  advance-Round t i y =
      let hours = i.hour_to in
      let minutes = i.minute_to in
      let days = i.day_to in
      elim (Bool-cases (has_bit c.months t.month)) [
        | inr a ↦ rw a (
            on (next_month-IsStep limit t i y) λ r.
              days-skipped c limit (days_in t.year t.month - t.day) t r (omega arith) hours minutes
                y a)
        | inl a ↦ elim (Bool-cases (day c t)) [
          | inr b ↦
              rw (a, b)
                (on (next_day-IsStep limit t i y) λ r.
                  hours-skipped c limit (23 - t.hour) t r (omega arith) minutes y (ground arith))
          | inl b ↦ elim (Bool-cases (has_bit c.hours t.hour)) [
            | inr h ↦
                rw (a, b, h)
                  (on (next_hour-IsStep limit t i y)
                    λ r. minutes-skipped c limit (59 - t.minute) t r (omega arith) y (ground arith))
            | inl h ↦ elim (Bool-cases (has_bit c.minutes t.minute)) [
              | inr m ↦
                  rw (a, b, h, m)
                    (on (next_minute-IsStep limit t i y) λ r f. goes_on y (ground arith) f)
              | inl m ↦ rw (a, b, h, m) (at (ground arith))
            ]
          ]
        ]
      ]

  after_round :
      (rounds : ℕ) (t : Clock) (o : Option Clock)
      → ((t' : Clock)
          → IsTime t'
          → left limit t' < rounds
          → Finds c limit t' (search rounds c limit t'))
      → t.year ≤ limit
      → left limit t < suc rounds
      → Round t o
      → Finds c limit t (elim o [ none ↦ some t | some t' ↦ search rounds c limit t' ])
  after_round rounds t none rest y enough (at m) = finds y m
  after_round rounds t (some t') rest y enough (on (later, less) skips) =
      skips _ (rest t' later (omega arith))

  search-Finds :
      (rounds : ℕ) (t : Clock)
      → IsTime t
      → left limit t < rounds
      → Finds c limit t (search rounds c limit t)
  unfolding search
  search-Finds zero t i enough = absurd (omega arith)
  search-Finds (suc rounds) t i enough = elim (Bool-cases (ltb limit t.year)) [
    | inl b ↦ rw b (gives_up (ground arith))
    | inr b ↦ rw b (
        after_round rounds t (advance c t) (search-Finds rounds) (ground arith) enough
          (advance-Round t i (ground arith)))
  ]

-- What clockAfter returns, for any expression and after any minute, is what a search minute by minute finds:
-- the first minute after it that the expression matches, of whose two days either may do, or none where no minute does up to
-- the end of the eighth year after. Its rounds, 5,400,000, never run out.
pub clock_after-Finds :
    (c : Cron) (w : Clock)
    → IsTime w
    → Finds c ((next_minute w).year + 8) (next_minute w) (clock_after c w)
unfolding clock_after left
clock_after-Finds c w i =
    let step = next_minute-IsStep w.year w i (omega arith) in
    let t : Clock = next_minute w in search-Finds c (t.year + 8) most_rounds t step.0 (omega arith)

-- The minutes from one on.
pub data Later : Clock → Clock → Type 0 where
  now : {t : Clock} → Later t t
  next : {t s : Clock} → Later (next_minute t) s → Later t s

next_minute_year : (t : Clock) → t.year ≤ (next_minute t).year
next_minute_year t = ground arith

Later-year : {t s : Clock} → Later t s → t.year ≤ s.year
Later-year now = omega arith
Later-year {t} {s} (next l) = omega (arith, next_minute_year t, Later-year l)

-- A minute that a search found, at s at the latest.
abbrev pub FoundBy : Cron → Clock → Option Clock → Type 0
FoundBy c s r = (t : Clock) × (r ≡ some t) × (matches c t ≡ true) × Later t s

Finds-FoundBy :
    {c : Cron} {limit : ℕ} {t s : Clock} {r : Option Clock}
    → Finds c limit t r
    → Later t s
    → s.year ≤ limit
    → matches c s ≡ true
    → FoundBy c s r
Finds-FoundBy (gives_up over) l y m = absurd (omega (arith, Later-year l))
Finds-FoundBy {t = t} (finds y' m') l y m = (t, refl, m', l)
Finds-FoundBy (goes_on y' off f) now y m = absurd (ground arith)
Finds-FoundBy (goes_on y' off f) (next l) y m = Finds-FoundBy f l y m

-- An expression that matches a minute after w, in the eighth year after or before, comes round: clockAfter
-- finds a minute that it matches, which is not after that one.
pub clock_after-FoundBy :
    (c : Cron) (w s : Clock)
    → IsTime w
    → Later (next_minute w) s
    → s.year ≤ (next_minute w).year + 8
    → matches c s ≡ true
    → FoundBy c s (clock_after c w)
clock_after-FoundBy c w s i l y m = Finds-FoundBy (clock_after-Finds c w i) l y m
