-- ===== src/Ulid/Valid.antt =====
-- Which texts are IDs (internal/ulid/ulid.go).
use tug.Common.{
  ℕ, zero, suc, List, [], ◌∷◌, true, none, some, Bytes, ltb, leb, ◌==◌, any, length, get_elem?, ◌+◌,
  ◌*◌, ◌/◌, ◌%◌, ◌≤◌, ◌<◌, ◌≡◌, refl, sym, ap, ◌∙◌, subst, arith, Bool-cases, inl, inr,
}
use tug.Ulid.{Maker, crockford, digit, advance, next, all_crockford, valid}
use tug.Ulid.Digits.{digits_of, digit-less, numbers, crockford-Ordered, Ordered-get_elem?}
use tug.Ulid.Sorted.{Fits, Call, CallFits, number_of, id_of-digits_of, advance-Fits}

length-digits_of : (rounds n : ℕ) (id : Bytes) → length (digits_of rounds n id) ≡ rounds + length id
unfolding digits_of
length-digits_of zero n id = omega arith
length-digits_of (suc rounds) n id =
    omega (arith, length-digits_of rounds (n / 32) (digit (n % 32) ∷ id))

any-get_elem? : (xs : List ℕ) (i y : ℕ) → get_elem? xs i ≡ some y → any (λ d. d == y) xs ≡ true
any-get_elem? [] i y e = let x : none ≡ some y = e in cc
any-get_elem? (x ∷ xs) zero y e = let same : x ≡ y = cc in ground arith
any-get_elem? (x ∷ xs) (suc i) y e = ground (arith, any-get_elem? xs i y e)

any-digit : (n : ℕ) → n < 32 → any (λ d. d == digit n) crockford ≡ true
unfolding digit
any-digit n l =
    let (y, e, more) = Ordered-get_elem? crockford 0 n crockford-Ordered l in
    let is : digit n ≡ y = rw (digit, e) refl in
    subst (λ c. any (λ d. d == c) crockford ≡ true) (sym is) (any-get_elem? crockford n y e)

all_crockford-digits_of :
    (rounds n : ℕ) (id : Bytes)
    → all_crockford id ≡ true
    → all_crockford (digits_of rounds n id) ≡ true
unfolding digits_of all_crockford
all_crockford-digits_of zero n id a = a
all_crockford-digits_of (suc rounds) n id a =
    all_crockford-digits_of rounds (n / 32) _ (rw (any-digit (n % 32) (omega arith), a) refl)

-- What is left of a number for its first digit.
abbrev top : (rounds n : ℕ) → ℕ
top zero n = n
top (suc rounds) n = top rounds (n / 32)

top-less : (rounds n : ℕ) → n < 8 * numbers rounds → top rounds n < 8
top-less zero n l = omega arith
top-less (suc rounds) n l = top-less rounds (n / 32) (omega arith)

digits_of-top :
    (rounds n : ℕ) (id : Bytes)
    → (rest : Bytes) × (digits_of (suc rounds) n id ≡ digit (top rounds n % 32) ∷ rest)
unfolding digits_of
digits_of-top zero n id = (id, refl)
digits_of-top (suc rounds) n id = digits_of-top rounds (n / 32) (digit (n % 32) ∷ id)

digit_test : digit 7 ≡ 55
unfolding digit
digit_test = refl

all_crockford_test : all_crockford [] ≡ true
unfolding all_crockford
all_crockford_test = refl

digit-first : (n : ℕ) → n < 8 → leb (digit n) 55 ≡ true
digit-first n l = elim (Bool-cases (ltb n 7)) [
  | inl b ↦
      let small : n < 7 = ground arith in
      let less : digit n < 55 =
        subst (λ k. digit n < k) digit_test (digit-less n 7 small (omega arith)) in
      ground arith
  | inr b ↦
      let last : n ≡ 7 = let more : 7 ≤ n = ground arith in omega arith in
      rw (last, digit_test) refl
]

valid-cons :
    (c : ℕ) (s : Bytes)
    → length (c ∷ s) ≡ 26
    → leb c 55 ≡ true
    → all_crockford (c ∷ s) ≡ true
    → valid (c ∷ s) ≡ true
unfolding valid
valid-cons c s size low all =
    let is : (length (c ∷ s) == 26) ≡ true = rw size refl in rw (is, low, all) refl

valid-digits_of : (n : ℕ) → n < 8 * numbers 25 → valid (digits_of 26 n []) ≡ true
valid-digits_of n l =
    let (rest, is) = digits_of-top 25 n [] in
    let size = sym (ap (λ s. length s) is) ∙ length-digits_of 26 n [] in
    let all =
      subst (λ s. all_crockford s ≡ true) is (all_crockford-digits_of 26 n [] all_crockford_test) in
    let low = digit-first (top 25 n % 32) (let small = top-less 25 n l in omega arith) in
    subst (λ s. valid s ≡ true) (sym is) (valid-cons _ rest size low all)

-- Each ID that Next returns is valid, while a Maker's numbers have their widths.
pub next-valid :
    (u : Maker) (c : Call) → Fits u → CallFits c → valid (next u c.ms c.high c.low).1 ≡ true
unfolding next
next-valid u c f fits =
    let v = advance u c.ms c.high c.low in
    let g = advance-Fits u c f fits in
    let m = g.ms_fits in
    let h = g.high_fits in
    let l = g.low_fits in
    let room : number_of v < 8 * numbers 25 = omega arith in
    subst (λ s. valid s ≡ true) (sym (id_of-digits_of v g)) (valid-digits_of (number_of v) room)
