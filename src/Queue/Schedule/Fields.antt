-- ===== src/Queue/Schedule/Fields.antt =====
-- The reading of a cron expression (queue/schedule.go), from its five parts, as strings.Fields gives them.
-- Whether strings.EqualFold says that two strings are one name is an argument.
pub mod Parses
mod Tests
use tug.Common.{
  ℕ, zero, suc, ◌+◌, ◌-◌, ◌*◌, ◌/◌, ◌%◌, ◌≡◌, List, [], ◌∷◌, Bool, true, false, not, ◌&&◌, ◌||◌,
  Option, none, some, Bytes, str_eq, cut, split, number, max_atoi, ltb, leb, ◌==◌, if◌then◌else◌,
  Result, ok, err, ◌>>=◌,
}
use tug.Queue.Clock.{Clock}
use tug.Queue.Schedule.{Cron, clock_after, has_bit}

pub data CronError : Type 0 where
  not_five bad_value runs_backwards bad_step never_comes_round : CronError
  -- `1 << v` of a negative v, which panics.
  negative_shift : CronError

pub record CronField : Type 0 where
  pub from : ℕ
  pub to : ℕ
  -- names[i] is from+i.
  pub names : List Bytes

-- `bits |= 1 << n`.
unfoldable pub set_bit : (bits n : ℕ) → ℕ
set_bit bits zero = 2 * (bits / 2) + 1
set_bit bits (suc n) = 2 * set_bit (bits / 2) n + bits % 2

unfoldable pub is_star : Bytes → Bool
is_star s = str_eq s (42 ∷ [])

-- `strings.HasPrefix(s, "*")`.
unfoldable pub starts_star : Bytes → Bool
starts_star [] = false
starts_star (x ∷ s) = x == 42

unfoldable pub step_of : Bytes → (stepped : Bool) → Result CronError ℕ
step_of step false = ok 1
step_of step true = elim (number step) [
  | none ↦ err bad_step
  | some n ↦ if ltb n 1 then err bad_step else ok n
]

-- The loop over an item's numbers, for so many rounds. A sum past max_atoi wraps to a negative number, which
-- is not over hi.
unfoldable pub fill : (rounds v hi every bits : ℕ) → Result CronError ℕ
fill zero v hi every bits = ok bits
fill (suc rounds) v hi every bits =
    let rest = fill rounds (v + every) hi every (set_bit bits v) in
    if ltb hi v then ok bits else if ltb max_atoi (v + every) then err negative_shift else rest

-- `c.dow&^(1<<7)`, and of any other bit.
unfoldable pub clear_bit : (bits n : ℕ) → ℕ
clear_bit bits zero = 2 * (bits / 2)
clear_bit bits (suc n) = 2 * clear_bit (bits / 2) n + bits % 2

-- Sunday is 0 or 7.
unfoldable pub one_sunday : ℕ → ℕ
one_sunday dow = if has_bit dow 7 then set_bit (clear_bit dow 7) 0 else dow

abbrev pub minute_field : CronField
minute_field = record { from = 0; to = 59; names = [] }

abbrev pub hour_field : CronField
hour_field = record { from = 0; to = 23; names = [] }

abbrev pub dom_field : CronField
dom_field = record { from = 1; to = 31; names = [] }

-- From JAN to DEC.
abbrev pub month_field : CronField
month_field = record {
  from = 1;
  to = 12;
  names =
      (74 ∷ 65 ∷ 78 ∷ [])
      ∷ (70 ∷ 69 ∷ 66 ∷ [])
      ∷ (77 ∷ 65 ∷ 82 ∷ [])
      ∷ (65 ∷ 80 ∷ 82 ∷ [])
      ∷ (77 ∷ 65 ∷ 89 ∷ [])
      ∷ (74 ∷ 85 ∷ 78 ∷ [])
      ∷ (74 ∷ 85 ∷ 76 ∷ [])
      ∷ (65 ∷ 85 ∷ 71 ∷ [])
      ∷ (83 ∷ 69 ∷ 80 ∷ [])
      ∷ (79 ∷ 67 ∷ 84 ∷ [])
      ∷ (78 ∷ 79 ∷ 86 ∷ [])
      ∷ (68 ∷ 69 ∷ 67 ∷ [])
      ∷ [];
}

-- From SUN to SAT.
abbrev pub dow_field : CronField
dow_field = record {
  from = 0;
  to = 7;
  names =
      (83 ∷ 85 ∷ 78 ∷ [])
      ∷ (77 ∷ 79 ∷ 78 ∷ [])
      ∷ (84 ∷ 85 ∷ 69 ∷ [])
      ∷ (87 ∷ 69 ∷ 68 ∷ [])
      ∷ (84 ∷ 72 ∷ 85 ∷ [])
      ∷ (70 ∷ 82 ∷ 73 ∷ [])
      ∷ (83 ∷ 65 ∷ 84 ∷ [])
      ∷ [];
}

-- 1 January 2024, a Monday.
abbrev pub new_year : Clock
new_year = record { year = 2024; month = 1; day = 1; hour = 0; minute = 0; weekday = 1 }

module _ (equal_fold : Bytes → Bytes → Bool) where
  unfoldable pub named : Bytes → ℕ → List Bytes → Option ℕ
  named s at [] = none
  named s at (name ∷ names) = if equal_fold s name then some at else named s (suc at) names

  unfoldable pub value : CronField → Bytes → Result CronError ℕ
  value f s = elim (named s f.from f.names) [
    | some n ↦ ok n
    | none ↦ elim (number s) [
      | none ↦ err bad_value
      | some n ↦ if ltb n f.from || ltb f.to n then err bad_value else ok n
    ]
  ]

  -- The numbers that an item goes from and to, given whether it has a step.
  unfoldable pub span_of : CronField → Bytes → (stepped : Bool) → Result CronError (ℕ × ℕ)
  span_of f span stepped =
      let (low, high, ranged) = cut 45 span in
      if is_star span
      then ok (f.from, f.to)
      else (value f low >>= λ lo.
          if ranged
          then (value f high >>= λ hi. if ltb hi lo then err runs_backwards else ok (lo, hi))
          else ok (lo, if stepped then f.to else lo))

  unfoldable pub parse_item : CronField → Bytes → (bits : ℕ) → Result CronError ℕ
  parse_item f item bits =
      let (span, step, stepped) = cut 47 item in
      span_of f span stepped >>= λ (lo, hi).
      step_of step stepped >>= λ every. fill (2 + hi - lo) lo hi every bits

  unfoldable pub parse_items : CronField → List Bytes → (bits : ℕ) → Result CronError ℕ
  parse_items f [] bits = ok bits
  parse_items f (item ∷ items) bits = parse_item f item bits >>= parse_items f items

  -- `cronField.parse`.
  unfoldable pub parse : CronField → Bytes → Result CronError ℕ
  parse f s = parse_items f (split 44 s) 0

  -- `parseCron`.
  unfoldable pub parse_cron : List Bytes → Result CronError Cron
  parse_cron (minute ∷ hour ∷ dom ∷ month ∷ dow ∷ []) = do
    minutes ← parse minute_field minute
    hours ← parse hour_field hour
    doms ← parse dom_field dom
    months ← parse month_field month
    dows ← parse dow_field dow
    let c : Cron = record {
      minutes = minutes;
      hours = hours;
      dom = doms;
      months = months;
      dow = one_sunday dows;
      dom_star = starts_star dom;
      dow_star = starts_star dow;
      minute_star = starts_star minute;
      hour_star = starts_star hour;
    } in
        elim (clock_after c new_year) [ none ↦ err never_comes_round | some t ↦ ok c ]
  parse_cron _ = err not_five
