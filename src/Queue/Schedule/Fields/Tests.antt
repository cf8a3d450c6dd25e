-- ===== src/Queue/Schedule/Fields/Tests.antt =====
-- Expressions that are read (queue/schedule.go), with strings that are equal for EqualFold.
use tug.Common.{
  cut, split, is_digits, all_digits, worth, number, ◌≡◌, refl, [], ◌∷◌, Bytes, str_eq, ok, err,
}
use tug.Queue.Clock.{days_in}
use tug.Queue.Schedule.{has_bit, clock_after, search, advance, day}
use tug.Queue.Schedule.Fields.{
  negative_shift, never_comes_round, minute_field, dow_field, set_bit, is_star, starts_star,
  step_of, fill, named, value, span_of, parse_item, parse_items, parse, parse_cron, one_sunday,
}
use tug.Queue.Schedule.Fields.Parses.{any_names, parse-any_names}

-- "5,*/15".
abbrev quarters : Bytes
quarters = 53 ∷ 44 ∷ 42 ∷ 47 ∷ 49 ∷ 53 ∷ []

-- "MON-FRI".
abbrev weekdays : Bytes
weekdays = 77 ∷ 79 ∷ 78 ∷ 45 ∷ 70 ∷ 82 ∷ 73 ∷ []

reads_weekdays : parse str_eq dow_field weekdays ≡ ok 62
unfolding parse parse_items parse_item span_of value named number is_digits all_digits worth cut
    split is_star step_of fill set_bit str_eq
reads_weekdays = refl

-- "1/9223372036854775807" names 1 alone, and makes Go shift by a negative number.
shifts_negative :
    parse str_eq minute_field (
      49 ∷ 47 ∷ 57 ∷ 50 ∷ 50 ∷ 51 ∷ 51 ∷ 55 ∷ 50 ∷ 48 ∷ 51 ∷ 54 ∷ 56 ∷ 53 ∷ 52 ∷ 55 ∷ 55 ∷ 53 ∷ 56
      ∷ 48 ∷ 55 ∷ [])
    ≡ err negative_shift
unfolding parse parse_items parse_item span_of value named number is_digits all_digits worth cut
    split is_star step_of fill set_bit str_eq
shifts_negative = refl

-- "0 0 30 2 *".
no_such_day :
    parse_cron str_eq ((48 ∷ []) ∷ (48 ∷ []) ∷ (51 ∷ 48 ∷ []) ∷ (50 ∷ []) ∷ (42 ∷ []) ∷ [])
    ≡ err never_comes_round
unfolding parse_cron parse parse_items parse_item span_of value named number is_digits all_digits
    worth cut split is_star starts_star step_of fill set_bit str_eq one_sunday clock_after search
    advance has_bit day days_in
no_such_day = refl

parse-any_names_example :
    has_bit 35185445863457 45 ≡ any_names str_eq minute_field (split 44 quarters) 45
unfolding parse parse_items parse_item span_of value named number is_digits all_digits worth cut
    split is_star step_of fill set_bit str_eq
parse-any_names_example = parse-any_names str_eq minute_field quarters 35185445863457 45 refl
