-- ===== src/Lang/Numbers/Grouped.antt =====
-- The separators of a whole number (lang/number.go).
use tug.Common.{
  if◌then◌else◌, ℕ, suc, ◌+◌, ◌*◌, ◌-◌, ◌/◌, ◌%◌, ◌≡◌, ◌<◌, ◌⊎◌, List, subst, sym, refl, ap, ◌∙◌,
  arith, [], ◌∷◌, ◌++◌, Bool, true, false, ◌&&◌, ◌||◌, Bytes, any, keep, length, length-append,
  all_digits, leb, ltb, ◌==◌, Bool-cases, inl, inr, or_false_split,
}
use tug.Lang.Numbers.{put_groups, cut_sign, grouped}

abbrev pub is_digit : ℕ → Bool
is_digit x = leb 48 x && leb x 57

keep-append : (xs ys : Bytes) → keep is_digit (xs ++ ys) ≡ keep is_digit xs ++ keep is_digit ys
keep-append [] ys = refl
keep-append (x ∷ xs) ys = elim (Bool-cases (is_digit x)) [
  | inl e ↦ rw e (ap (λ zs. x ∷ zs) (keep-append xs ys))
  | inr e ↦ rw e (keep-append xs ys)
]

keep-none : (xs : Bytes) → any is_digit xs ≡ false → keep is_digit xs ≡ []
keep-none [] e = refl
keep-none (x ∷ xs) e =
    let (off, rest) = or_false_split (is_digit x) (any is_digit xs) e in rw off (keep-none xs rest)

module _ (group : Bytes) (apart : any is_digit group ≡ false) where
  keep-put_groups :
      (is_first : Bool) (rest : Bytes)
      → all_digits rest ≡ true
      → keep is_digit (put_groups group is_first rest) ≡ rest
  unfolding put_groups all_digits
  keep-put_groups is_first [] e = refl
  keep-put_groups is_first (x ∷ rest) e =
      let digit : is_digit x ≡ true = ground arith in
      let others : all_digits rest ≡ true = ground arith in
      let same : keep is_digit (x ∷ put_groups group false rest) ≡ x ∷ rest =
        rw digit (ap (λ xs. x ∷ xs) (keep-put_groups false rest others)) in
      elim (Bool-cases is_first) [
        | inl f ↦ rw f same
        | inr f ↦ elim (Bool-cases (length (x ∷ rest) % 3 == 0)) [
          | inl g ↦
              rw (f, g, keep-append group (x ∷ put_groups group false rest), keep-none group apart)
                same
          | inr g ↦ rw (f, g) same
        ]
      ]

length-put_groups :
    (group rest : Bytes)
    → length (put_groups group false rest) ≡ length rest + length rest / 3 * length group
unfolding put_groups
length-put_groups group [] = omega arith
length-put_groups group (x ∷ rest) =
    let before = length-put_groups group rest in
    elim (Bool-cases (length (x ∷ rest) % 3 == 0)) [
      | inl e ↦
          let next : suc (length rest) / 3 ≡ suc (length rest / 3) = ground arith in
          rw (e, next, length-append group (x ∷ put_groups group false rest)) (omega arith)
      | inr e ↦
          let same : suc (length rest) / 3 ≡ length rest / 3 = ground arith in
          rw (e, same) (omega arith)
    ]

length-put_groups_first :
    (group rest : Bytes)
    → length (put_groups group true rest) ≡ length rest + (length rest - 1) / 3 * length group
unfolding put_groups
length-put_groups_first group [] = omega arith
length-put_groups_first group (x ∷ rest) =
    let others = length-put_groups group rest in
    let same : suc (length rest) - 1 ≡ length rest = omega arith in rw same (omega arith)

all_digits-keep : (xs : Bytes) → all_digits xs ≡ true → keep is_digit xs ≡ xs
unfolding all_digits
all_digits-keep [] e = refl
all_digits-keep (x ∷ xs) e =
    let digit : is_digit x ≡ true = ground arith in
    let others : all_digits xs ≡ true = ground arith in
    rw digit (ap (λ ys. x ∷ ys) (all_digits-keep xs others))

-- A sign is no digit, and it and what is after it are the number.
cut_sign-digits :
    (digits : Bytes)
    → (keep is_digit (cut_sign digits).0 ≡ [])
      × (digits ≡ (cut_sign digits).0 ++ (cut_sign digits).1)
unfolding cut_sign
cut_sign-digits [] = (refl, refl)
cut_sign-digits (x ∷ s) = elim (Bool-cases (x == 45 || x == 43)) [
  | inl e ↦ let off : is_digit x ≡ false = ground arith in rw (e, off) (refl, refl)
  | inr e ↦ rw e (refl, refl)
]

few_none : (a b : ℕ) → (b == 0 || ltb a 4) ≡ true → (a - 1) / 3 * b ≡ 0
few_none a b e = elim (Bool-cases (b == 0)) [
  | inl f ↦ let none_left : b ≡ 0 = ground arith in rw none_left (omega arith)
  | inr f ↦ let few : (a - 1) / 3 ≡ 0 = ground arith in rw few (omega arith)
]

-- A whole number with the thousands apart: its digits are the number's, in order, and it is as much longer
-- than the number as a separator for each three digits before the last one to three, whatever the separator,
-- if it has no digits of its own.
pub grouped-digits :
    (digits group : Bytes)
    → all_digits (cut_sign digits).1 ≡ true
    → any is_digit group ≡ false
    → (keep is_digit (grouped digits group) ≡ (cut_sign digits).1)
      × (length (grouped digits group)
          ≡ length digits + (length (cut_sign digits).1 - 1) / 3 * length group)
unfolding grouped
grouped-digits digits group e apart =
    let sign : Bytes = (cut_sign digits).0 in
    let rest : Bytes = (cut_sign digits).1 in
    let (no_digit, whole) = cut_sign-digits digits in
    let joined : length digits ≡ length sign + length rest =
      ap length whole ∙ length-append sign rest in
    elim (Bool-cases (length group == 0 || ltb (length rest) 4)) [
      | inl a ↦
          let none_put : (length rest - 1) / 3 * length group ≡ 0 =
            few_none (length rest) (length group) a in
          let kept : keep is_digit digits ≡ rest =
            ap (keep is_digit) whole
            ∙ keep-append sign rest
            ∙ rw no_digit (all_digits-keep rest e) in
          rw a (kept, omega arith)
      | inr a ↦
          let put : Bytes = put_groups group true rest in
          let kept : keep is_digit (sign ++ put) ≡ rest =
            keep-append sign put ∙ rw no_digit (keep-put_groups group apart true rest e) in
          let long = length-append sign put in
          let longer = length-put_groups_first group rest in rw a (kept, omega arith)
    ]

-- Digits by threes, and with a separator before each three.
abbrev pub threes : List (ℕ × ℕ × ℕ) → Bytes
threes [] = []
threes ((a, b, c) ∷ ts) = a ∷ b ∷ c ∷ threes ts

abbrev pub spaced : (group : Bytes) → List (ℕ × ℕ × ℕ) → Bytes
spaced group [] = []
spaced group ((a, b, c) ∷ ts) = group ++ a ∷ b ∷ c ∷ spaced group ts

length-threes : (ts : List (ℕ × ℕ × ℕ)) → (n : ℕ) × (length (threes ts) ≡ 3 * n)
length-threes [] = (0, refl)
length-threes ((a, b, c) ∷ ts) = let (n, e) = length-threes ts in (suc n, omega arith)

put_groups-threes :
    (group : Bytes) (ts : List (ℕ × ℕ × ℕ)) → put_groups group false (threes ts) ≡ spaced group ts
unfolding put_groups
put_groups-threes group [] = refl
put_groups-threes group ((a, b, c) ∷ ts) =
    let (n, e) = length-threes ts in
    let third : (suc (suc (suc (length (threes ts)))) % 3 == 0) ≡ true = ground arith in
    let second : (suc (suc (length (threes ts))) % 3 == 0) ≡ false = ground arith in
    let first : (suc (length (threes ts)) % 3 == 0) ≡ false = ground arith in
    rw (third, second, first, put_groups-threes group ts) refl

put_groups-spaced :
    (group head : Bytes) (ts : List (ℕ × ℕ × ℕ))
    → 0 < length head
    → length head < 4
    → put_groups group true (head ++ threes ts) ≡ head ++ spaced group ts
unfolding put_groups
put_groups-spaced group [] ts some_digits few = absurd (omega arith)
put_groups-spaced group (a ∷ []) ts some_digits few = rw (put_groups-threes group ts) refl
put_groups-spaced group (a ∷ b ∷ []) ts some_digits few =
    let (n, e) = length-threes ts in
    let first : (suc (length (threes ts)) % 3 == 0) ≡ false = ground arith in
    rw (first, put_groups-threes group ts) refl
put_groups-spaced group (a ∷ b ∷ c ∷ []) ts some_digits few =
    let (n, e) = length-threes ts in
    let second : (suc (suc (length (threes ts))) % 3 == 0) ≡ false = ground arith in
    let first : (suc (length (threes ts)) % 3 == 0) ≡ false = ground arith in
    rw (second, first, put_groups-threes group ts) refl
put_groups-spaced group (a ∷ b ∷ c ∷ d ∷ head) ts some_digits few = absurd (omega arith)

spaced-none : (ts : List (ℕ × ℕ × ℕ)) → spaced [] ts ≡ threes ts
spaced-none [] = refl
spaced-none ((a, b, c) ∷ ts) = ap (λ xs. a ∷ b ∷ c ∷ xs) (spaced-none ts)

-- A sign, or none: what a number starts with.
abbrev pub sign_of : Bool → (is_minus : Bool) → Bytes
sign_of false m = []
sign_of true true = 45 ∷ []
sign_of true false = 43 ∷ []

cut_sign-sign_of :
    (signed minus : Bool) (x : ℕ) (s : Bytes)
    → (x == 45 || x == 43) ≡ false
    → cut_sign (sign_of signed minus ++ x ∷ s) ≡ (sign_of signed minus, x ∷ s)
unfolding cut_sign
cut_sign-sign_of false m x s e = rw e refl
cut_sign-sign_of true true x s e = refl
cut_sign-sign_of true false x s e = refl

grouped-cut_sign :
    (digits group sign rest : Bytes)
    → cut_sign digits ≡ (sign, rest)
    → grouped digits group ≡ (
        if length group == 0 || ltb (length rest) 4
        then digits
        else sign ++ put_groups group true rest)
unfolding grouped
grouped-cut_sign digits group sign rest e = rw (grouped, e) refl

-- A whole number with the thousands apart: after its sign, if it has one, and its first one to three digits, a separator stands before each
-- three digits that follow, and nowhere else, whatever the separator; the first digit is no sign.
pub grouped-spaced :
    (signed minus : Bool) (x : ℕ) (head group : Bytes) (ts : List (ℕ × ℕ × ℕ))
    → (x == 45 || x == 43) ≡ false
    → length head < 3
    → grouped (sign_of signed minus ++ ((x ∷ head) ++ threes ts)) group
      ≡ sign_of signed minus ++ ((x ∷ head) ++ spaced group ts)
grouped-spaced signed minus x head group ts e few =
    let sign = sign_of signed minus in
    let put = put_groups-spaced group (x ∷ head) ts (omega arith) (omega arith) in
    grouped-cut_sign (sign ++ ((x ∷ head) ++ threes ts)) group sign (x ∷ (head ++ threes ts))
      (cut_sign-sign_of signed minus x (head ++ threes ts) e)
    ∙ elim (Bool-cases (length group == 0 || ltb (length (x ∷ (head ++ threes ts))) 4)) [
      | inr a ↦ rw a (ap (λ xs. sign ++ xs) put)
      | inl a ↦ elim (grouped_plain group head ts a) [
        | inl none_apart ↦
            let same : threes ts ≡ spaced group ts =
              subst (λ g. threes ts ≡ spaced g ts) (sym none_apart) (sym (spaced-none ts)) in
            rw a (ap (λ xs. sign ++ ((x ∷ head) ++ xs)) same)
        | inr no_threes ↦
            let same : threes ts ≡ spaced group ts =
              subst (λ us. threes us ≡ spaced group us) (sym no_threes) refl in
            rw a (ap (λ xs. sign ++ ((x ∷ head) ++ xs)) same)
      ]
    ]
  where
    grouped_plain :
        (group head : Bytes) (ts : List (ℕ × ℕ × ℕ))
        → (length group == 0 || ltb (suc (length (head ++ threes ts))) 4) ≡ true
        → (group ≡ []) ⊎ (ts ≡ [])
    grouped_plain [] head ts a = inl refl
    grouped_plain (c ∷ group) head [] a = inr refl
    grouped_plain (c ∷ group) head ((d, e, f) ∷ ts) a =
        let long = length-append head (d ∷ e ∷ f ∷ threes ts) in absurd (ground arith)
