-- ===== src/Lang.antt =====
-- The forms of a count, as the languages have them (lang/plural.go). What strings.ToLower and
-- strings.TrimSpace make of a string are arguments, and so is what Atoi reads.
mod Tags
pub mod Numbers
mod Tests
use tug.Common.{
  ℕ, zero, suc, ◌%◌, List, [], ◌∷◌, Bool, true, false, not, ◌&&◌, ◌||◌, Option, none, some, Bytes,
  str_eq, any, cut, split, map, ltb, leb, ◌==◌, if◌then◌else◌, length, get_elem?,
}
use tug.Common.Int.{ℤ, pos, negsuc}
use Tags.{
  one_form_tags, one_or_many_tags, up_to_one_tags, slavic_tags, czech_tags, irish_tags,
  lithuanian_tags, slovenian_tags, macedonian_tags, maltese_tags, latvian_tags, polish_tags,
  welsh_tags, romanian_tags, arabic_tags,
}

-- A rule of `pluralRules`, named for the languages that it is for, or what it tells apart.
pub data Rule : Type 0 where
  one_form one_or_many up_to_one slavic czech irish lithuanian slovenian macedonian maltese latvian
        polish welsh romanian arabic :
      Rule

-- The form that a rule has for a count that is not negative.
unfoldable pub rule_index : Rule → ℕ → ℕ
rule_index one_form n = 0
rule_index one_or_many n = if n == 1 then 0 else 1
rule_index up_to_one n = if n == 0 || n == 1 then 0 else 1
rule_index slavic n =
    if n % 10 == 1 && not (n % 100 == 11)
    then 0
    else if leb 2 (n % 10) && (leb (n % 10) 4 && (ltb (n % 100) 10 || leb 20 (n % 100)))
    then 1
    else 2
rule_index czech n = if n == 1 then 0 else if leb 2 n && leb n 4 then 1 else 2
rule_index irish n = if n == 1 then 0 else if n == 2 then 1 else 2
rule_index lithuanian n =
    if n % 10 == 1 && not (n % 100 == 11)
    then 0
    else if leb 2 (n % 10) && (ltb (n % 100) 10 || leb 20 (n % 100))
    then 1
    else 2
rule_index slovenian n =
    if n % 100 == 1
    then 0
    else if n % 100 == 2
    then 1
    else if n % 100 == 3 || n % 100 == 4
    then 2
    else 3
rule_index macedonian n = if n % 10 == 1 then 0 else 1
rule_index maltese n =
    if n == 1
    then 0
    else if n == 0 || ltb 1 (n % 100) && ltb (n % 100) 11
    then 1
    else if ltb 10 (n % 100) && ltb (n % 100) 20
    then 2
    else 3
rule_index latvian n = if n == 0 then 0 else if n % 10 == 1 && not (n % 100 == 11) then 1 else 2
rule_index polish n =
    if n == 1
    then 0
    else if leb 2 (n % 10) && (leb (n % 10) 4 && (ltb (n % 100) 12 || ltb 14 (n % 100)))
    then 1
    else 2
rule_index welsh n = if n == 1 then 0 else if n == 2 then 1 else if n == 8 || n == 11 then 2 else 3
rule_index romanian n =
    if n == 1 then 0 else if n == 0 || ltb 0 (n % 100) && ltb (n % 100) 20 then 1 else 2
rule_index arabic n =
    if n == 0
    then 0
    else if n == 1
    then 1
    else if n == 2
    then 2
    else if leb 3 (n % 100) && leb (n % 100) 10
    then 3
    else if leb 11 (n % 100) && leb (n % 100) 99
    then 4
    else 5

-- The last form of a rule, which is what each has for the least int: it stays negative as it is negated,
-- and what it leaves of 10 and 100 is -8.
unfoldable pub last_form : Rule → ℕ
last_form one_form = 0
last_form one_or_many = 1
last_form up_to_one = 1
last_form slavic = 2
last_form czech = 2
last_form irish = 2
last_form lithuanian = 2
last_form slovenian = 3
last_form macedonian = 1
last_form maltese = 3
last_form latvian = 2
last_form polish = 2
last_form welsh = 3
last_form romanian = 2
last_form arabic = 5

-- `pluralRules`.
unfoldable pub rule_of : Bytes → Option Rule
rule_of tag =
    let among : List Bytes → Bool = λ tags. any (str_eq tag) tags in
    if among one_form_tags
    then some one_form
    else if among one_or_many_tags
    then some one_or_many
    else if among up_to_one_tags
    then some up_to_one
    else if among slavic_tags
    then some slavic
    else if among czech_tags
    then some czech
    else if among irish_tags
    then some irish
    else if among lithuanian_tags
    then some lithuanian
    else if among slovenian_tags
    then some slovenian
    else if among macedonian_tags
    then some macedonian
    else if among maltese_tags
    then some maltese
    else if among latvian_tags
    then some latvian
    else if among polish_tags
    then some polish
    else if among welsh_tags
    then some welsh
    else if among romanian_tags
    then some romanian
    else if among arabic_tags
    then some arabic
    else none

-- A hyphen as an underscore.
unfoldable pub underscored : Bytes → Bytes
underscored [] = []
underscored (x ∷ s) = (if x == 45 then 95 else x) ∷ underscored s

abbrev pub max_int : ℕ
max_int = 9223372036854775807

-- A rule's form for any int: a negative one is negated.
unfoldable pub form_for : Rule → ℤ → ℕ
form_for rule (pos n) = rule_index rule n
form_for rule (negsuc k) = if k == max_int then last_form rule else rule_index rule (suc k)

module _ (lower : Bytes → Bytes) where
  -- The rule that is looked up by the whole tag, and else by its language.
  unfoldable pub looked_up : Bytes → Option Rule
  looked_up locale =
      let tag : Bytes = lower (underscored locale) in
      elim (rule_of tag) [ some rule ↦ some rule | none ↦ rule_of (cut 95 tag).0 ]

  -- `pluralIndex`.
  unfoldable pub plural_index : Bytes → ℤ → ℕ
  plural_index locale n = elim (looked_up locale) [ none ↦ 0 | some rule ↦ form_for rule n ]

-- `strings.Cut` at the first } or ], without it.
unfoldable pub cut_closing : Bytes → Option (Bytes × Bytes)
cut_closing [] = none
cut_closing (x ∷ s) =
    if x == 125 || x == 93
    then some ([], s)
    else elim (cut_closing s) [ none ↦ none | some (counts, rest) ↦ some (x ∷ counts, rest) ]

-- A brace or a bracket that opens.
unfoldable pub opens : ℕ → Bool
opens x = x == 123 || x == 91

-- The order of the ints.
unfoldable pub at_most : ℤ → ℤ → Bool
at_most (pos m) (pos n) = leb m n
at_most (pos m) (negsuc n) = false
at_most (negsuc m) (pos n) = true
at_most (negsuc m) (negsuc n) = leb n m

abbrev pub is_star : Bytes → Bool
is_star s = str_eq s (42 ∷ [])

-- Whether a range takes n, given what Atoi reads of its ends.
unfoldable pub takes_between : (from to : Bytes) → (lo hi : Option ℤ) → ℤ → Bool
takes_between from to lo (some hi) n = if is_star from then at_most n hi else elim lo [
  | none ↦ false
  | some l ↦ if is_star to then at_most l n else at_most l n && at_most n hi
]
takes_between from to (some lo) none n = is_star to && at_most lo n
takes_between from to none none n = false

module _ (trim : Bytes → Bytes) (atoi : Bytes → Option ℤ) where
  unfoldable pub takes : (counts : Bytes) → ℤ → Bool
  takes counts n =
      let (from, to, is_range) = cut 44 counts in
      if is_range
      then takes_between (trim from) (trim to) (atoi (trim from)) (atoi (trim to)) n
      else elim (atoi (trim counts)) [ none ↦ false | some c ↦ at_most c n && at_most n c ]

  -- `interval`: a form without its counts, and whether they take n; none for a form that names none.
  unfoldable pub interval : Bytes → ℤ → Option (Bytes × Bool)
  interval [] n = none
  interval (x ∷ form) n =
      if opens x
      then elim (cut_closing form) [
        | none ↦ none
        | some (counts, rest) ↦ if any opens counts then none else some (rest, takes counts n)
      ]
      else none

  -- The first form whose own counts take n.
  unfoldable pub taken : List Bytes → ℤ → Option Bytes
  taken [] n = none
  taken (form ∷ forms) n =
      let later = taken forms n in
      elim (interval (trim form) n) [
        | none ↦ later
        | some (rest, does) ↦ if does then some rest else later
      ]

  -- A form without its counts, as the loop of `choose` leaves it.
  unfoldable pub without_counts : ℤ → Bytes → Bytes
  without_counts n form = elim (interval (trim form) n) [ none ↦ form | some (rest, does) ↦ rest ]

  unfoldable pub form_at : List Bytes → ℕ → Bytes
  form_at [] i = []
  form_at (form ∷ forms) i = elim (get_elem? (form ∷ forms) i) [ none ↦ form | some f ↦ f ]

  -- `choose`.
  unfoldable pub choose : (lower : Bytes → Bytes) → (text : Bytes) → ℤ → (locale : Bytes) → Bytes
  choose lower text n locale =
      let forms : List Bytes = split 124 text in
      if not (any (λ x. x == 124) text) then text else elim (taken forms n) [
        | some rest ↦ trim rest
        | none ↦ trim (form_at (map (without_counts n) forms) (plural_index lower locale n))
      ]
