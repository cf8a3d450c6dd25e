-- ===== src/Lang/Numbers.antt =====
-- Whole numbers, as the languages write them (lang/number.go). What strings.ToLower makes of a string is an
-- argument.
pub mod Grouped
use tug.Common.{
  ℕ, ◌%◌, List, [], ◌∷◌, ◌++◌, Bool, true, false, ◌||◌, Option, none, some, Bytes, str_eq, any, cut,
  itoa, ltb, ◌==◌, if◌then◌else◌, length,
}
use tug.Common.Int.{ℤ, pos, negsuc}
use tug.Lang.{underscored}

-- A language's separator of thousands, and its point.
pub record Numbers : Type 0 where
  pub group : Bytes
  pub point : Bytes

-- en, es_mx, he, ja, km, ko, lo, ms, my, sw, th, zh, zu.
abbrev pub comma_tags : List Bytes
comma_tags =
    (101 ∷ 110 ∷ [])
    ∷ (101 ∷ 115 ∷ 95 ∷ 109 ∷ 120 ∷ [])
    ∷ (104 ∷ 101 ∷ [])
    ∷ (106 ∷ 97 ∷ [])
    ∷ (107 ∷ 109 ∷ [])
    ∷ (107 ∷ 111 ∷ [])
    ∷ (108 ∷ 111 ∷ [])
    ∷ (109 ∷ 115 ∷ [])
    ∷ (109 ∷ 121 ∷ [])
    ∷ (115 ∷ 119 ∷ [])
    ∷ (116 ∷ 104 ∷ [])
    ∷ (122 ∷ 104 ∷ [])
    ∷ (122 ∷ 117 ∷ [])
    ∷ []

-- af, ca, da, de, el, es, gl, hr, id, is, it, nl, pt, ro, sl, sr, tr, vi.
abbrev pub dot_tags : List Bytes
dot_tags =
    (97 ∷ 102 ∷ [])
    ∷ (99 ∷ 97 ∷ [])
    ∷ (100 ∷ 97 ∷ [])
    ∷ (100 ∷ 101 ∷ [])
    ∷ (101 ∷ 108 ∷ [])
    ∷ (101 ∷ 115 ∷ [])
    ∷ (103 ∷ 108 ∷ [])
    ∷ (104 ∷ 114 ∷ [])
    ∷ (105 ∷ 100 ∷ [])
    ∷ (105 ∷ 115 ∷ [])
    ∷ (105 ∷ 116 ∷ [])
    ∷ (110 ∷ 108 ∷ [])
    ∷ (112 ∷ 116 ∷ [])
    ∷ (114 ∷ 111 ∷ [])
    ∷ (115 ∷ 108 ∷ [])
    ∷ (115 ∷ 114 ∷ [])
    ∷ (116 ∷ 114 ∷ [])
    ∷ (118 ∷ 105 ∷ [])
    ∷ []

-- bg, cs, et, fi, hu, lt, lv, nb, nn, no, pl, ru, sk, sv, uk.
abbrev pub space_tags : List Bytes
space_tags =
    (98 ∷ 103 ∷ [])
    ∷ (99 ∷ 115 ∷ [])
    ∷ (101 ∷ 116 ∷ [])
    ∷ (102 ∷ 105 ∷ [])
    ∷ (104 ∷ 117 ∷ [])
    ∷ (108 ∷ 116 ∷ [])
    ∷ (108 ∷ 118 ∷ [])
    ∷ (110 ∷ 98 ∷ [])
    ∷ (110 ∷ 110 ∷ [])
    ∷ (110 ∷ 111 ∷ [])
    ∷ (112 ∷ 108 ∷ [])
    ∷ (114 ∷ 117 ∷ [])
    ∷ (115 ∷ 107 ∷ [])
    ∷ (115 ∷ 118 ∷ [])
    ∷ (117 ∷ 107 ∷ [])
    ∷ []

-- fr.
abbrev pub narrow_space_tags : List Bytes
narrow_space_tags = (102 ∷ 114 ∷ []) ∷ []

-- `numberRules`.
unfoldable pub numbers_of_tag : Bytes → Option Numbers
numbers_of_tag tag =
    let among : List Bytes → Bool = λ tags. any (str_eq tag) tags in
    if among comma_tags
    then some (record { group = 44 ∷ []; point = 46 ∷ [] })
    else if among dot_tags
    then some (record { group = 46 ∷ []; point = 44 ∷ [] })
    else if among space_tags
    then some (record { group = 194 ∷ 160 ∷ []; point = 44 ∷ [] })
    else if among narrow_space_tags
    then some (record { group = 226 ∷ 128 ∷ 175 ∷ []; point = 44 ∷ [] })
    else none

-- The loop of `grouped`, over what is left of the digits; no separator stands before the first.
unfoldable pub put_groups : (group : Bytes) → (is_first : Bool) → Bytes → Bytes
put_groups group is_first [] = []
put_groups group is_first (x ∷ rest) =
    let others : Bytes = x ∷ put_groups group false rest in
    if is_first then others else if length (x ∷ rest) % 3 == 0 then group ++ others else others

-- A number's sign, and its digits.
unfoldable pub cut_sign : Bytes → Bytes × Bytes
cut_sign [] = ([], [])
cut_sign (x ∷ s) = if x == 45 || x == 43 then (x ∷ [], s) else ([], x ∷ s)

unfoldable pub grouped : (digits group : Bytes) → Bytes
grouped digits group =
    let (sign, rest) = cut_sign digits in
    if length group == 0 || ltb (length rest) 4 then digits else sign ++ put_groups group true rest

module _ (lower : Bytes → Bytes) where
  unfoldable pub numbers_of : (locale : Bytes) → Numbers
  numbers_of locale =
      let tag : Bytes = lower (underscored locale) in
      elim (numbers_of_tag tag) [
        | some numbers ↦ numbers
        | none ↦ elim (numbers_of_tag (cut 95 tag).0) [
          | some numbers ↦ numbers
          | none ↦ record { group = 44 ∷ []; point = 46 ∷ [] }
        ]
      ]

  -- `Words.Number`, of an int as Itoa writes it.
  unfoldable pub number_text : (locale digits : Bytes) → Bytes
  number_text locale digits = grouped digits (numbers_of locale).group

  -- `Words.Decimal`, of a float as FormatFloat writes it.
  unfoldable pub decimal_text : (locale written : Bytes) → Bytes
  decimal_text locale written =
      let (whole, fraction, has_fraction) = cut 46 written in
      let apart : Bytes = grouped whole (numbers_of locale).group in
      if has_fraction then apart ++ (numbers_of locale).point ++ fraction else apart
