-- ===== src/Lang/Tests.antt =====
-- Counts and numbers of a few languages (lang/plural.go, lang/number.go).
use tug.Common.{
  ◌≡◌, refl, [], ◌∷◌, Option, none, some, Bytes, str_eq, cut, split, number, is_digits, all_digits,
  worth, arith, true,
}
use tug.Common.Int.{ℤ, pos}
use tug.Lang.{
  choose, taken, interval, takes, takes_between, at_most, opens, cut_closing, without_counts,
  form_at, plural_index, looked_up, rule_of, underscored, form_for, rule_index,
}
use tug.Lang.Numbers.{put_groups, cut_sign, grouped, numbers_of_tag, numbers_of, number_text}
use tug.Lang.Numbers.Grouped.{grouped-spaced}

abbrev same : Bytes → Bytes
same s = s

abbrev atoi : Bytes → Option ℤ
atoi s = elim (number s) [ none ↦ none | some n ↦ some (pos n) ]

-- "{0} a|[1,*] b", of 5.
takes_range :
    choose same atoi same
      (123 ∷ 48 ∷ 125 ∷ 97 ∷ 124 ∷ 91 ∷ 49 ∷ 44 ∷ 42 ∷ 93 ∷ 98 ∷ [])
      (pos 5)
      (101 ∷ 110 ∷ [])
    ≡ 98 ∷ []
unfolding choose taken interval takes takes_between at_most opens cut_closing cut split number
    is_digits all_digits worth str_eq
takes_range = refl

-- "a|b|c", of 22, in "ru-RU".
takes_rule :
    choose same atoi same (97 ∷ 124 ∷ 98 ∷ 124 ∷ 99 ∷ []) (pos 22) (114 ∷ 117 ∷ 45 ∷ 82 ∷ 85 ∷ [])
    ≡ 98 ∷ []
unfolding choose taken interval opens split cut without_counts form_at plural_index looked_up
    rule_of underscored form_for rule_index str_eq
takes_rule = refl

-- -1234567, in "pt_BR", as in "pt".
writes_number :
    number_text same (112 ∷ 116 ∷ 95 ∷ 66 ∷ 82 ∷ []) (45 ∷ 49 ∷ 50 ∷ 51 ∷ 52 ∷ 53 ∷ 54 ∷ 55 ∷ [])
    ≡ 45 ∷ 49 ∷ 46 ∷ 50 ∷ 51 ∷ 52 ∷ 46 ∷ 53 ∷ 54 ∷ 55 ∷ []
unfolding number_text grouped put_groups cut_sign numbers_of numbers_of_tag underscored cut str_eq
writes_number = refl

grouped-spaced_example :
    grouped (45 ∷ 49 ∷ 50 ∷ 51 ∷ 52 ∷ 53 ∷ []) (44 ∷ []) ≡ 45 ∷ 49 ∷ 50 ∷ 44 ∷ 51 ∷ 52 ∷ 53 ∷ []
grouped-spaced_example =
    grouped-spaced true true 49 (50 ∷ []) (44 ∷ []) ((51, 52, 53) ∷ []) refl (omega arith)
