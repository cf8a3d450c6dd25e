-- ===== src/Ulid/Digits.antt =====
-- The digits of an ID, as those of one number, and their order (internal/ulid/ulid.go).
use tug.Common.{
  ℕ, zero, suc, List, [], ◌∷◌, false, some, Bytes, ltb, length, get_elem?, ◌+◌, ◌*◌, ◌/◌, ◌%◌, ◌^◌,
  ◌≤◌, ◌<◌, ◌≡◌, refl, sym, ◌∙◌, subst, arith, str_leb, Bool-cases, inl, inr, ◌⊎◌,
}
use tug.Ulid.{crockford, digit, put_digits}

-- One text comes before another.
abbrev pub Before : Bytes → Bytes → Type 0
Before a b = str_leb b a ≡ false

-- The digits of a number, from the last, before those that there are.
unfoldable pub digits_of : (rounds n : ℕ) → Bytes → Bytes
digits_of zero n id = id
digits_of (suc rounds) n id = digits_of rounds (n / 32) (digit (n % 32) ∷ id)

pub put_digits-digits_of :
    (rounds hi lo : ℕ) (id : Bytes)
    → lo < 2 ^ 64
    → put_digits rounds hi lo id ≡ digits_of rounds (hi * 2 ^ 64 + lo) id
unfolding put_digits digits_of
put_digits-digits_of zero hi lo id l = refl
put_digits-digits_of (suc rounds) hi lo id l =
    let rest : hi / 32 * 2 ^ 64 + (lo / 32 + hi * 2 ^ 59 % 2 ^ 64) ≡ (hi * 2 ^ 64 + lo) / 32 =
      omega arith in
    let last : lo % 32 ≡ (hi * 2 ^ 64 + lo) % 32 = omega arith in
    put_digits-digits_of rounds (hi / 32) _ (digit (lo % 32) ∷ id) (omega arith)
    ∙ rw (rest, last) refl

-- Each number of a list is more than the one before it, and the first than a bound.
abbrev pub Ordered : ℕ → List ℕ → Type 0
Ordered b [] = Unit
Ordered b (x ∷ xs) = (b < x) × Ordered x xs

pub crockford-Ordered : Ordered 0 crockford
crockford-Ordered = omega arith

pub Ordered-get_elem? :
    (xs : List ℕ) (b j : ℕ)
    → Ordered b xs
    → j < length xs
    → (y : ℕ) × (get_elem? xs j ≡ some y) × (b < y)
Ordered-get_elem? [] b j o l = absurd (omega arith)
Ordered-get_elem? (x ∷ xs) b zero (o, os) l = (x, refl, o)
Ordered-get_elem? (x ∷ xs) b (suc j) (o, os) l =
    let (y, e, more) = Ordered-get_elem? xs x j os (omega arith) in (y, e, omega arith)

Ordered-less :
    (xs : List ℕ) (b i j : ℕ)
    → Ordered b xs
    → i < j
    → j < length xs
    → (x : ℕ) × (y : ℕ) × (get_elem? xs i ≡ some x) × (get_elem? xs j ≡ some y) × (x < y)
Ordered-less [] b i j o l k = absurd (omega arith)
Ordered-less (x ∷ xs) b zero zero (o, os) l k = absurd (omega arith)
Ordered-less (x ∷ xs) b zero (suc j) (o, os) l k =
    let (y, e, more) = Ordered-get_elem? xs x j os (omega arith) in (x, y, refl, e, more)
Ordered-less (x ∷ xs) b (suc i) zero (o, os) l k = absurd (omega arith)
Ordered-less (x ∷ xs) b (suc i) (suc j) (o, os) l k =
    Ordered-less xs x i j os (omega arith) (omega arith)

pub digit-less : (m n : ℕ) → m < n → n < 32 → digit m < digit n
unfolding digit
digit-less m n l k =
    let (x, y, e, f, less) = Ordered-less crockford 0 m n crockford-Ordered l k in
    rw (digit, e, f) less

-- How many numbers some digits write.
abbrev pub numbers : (rounds : ℕ) → ℕ
numbers zero = 1
numbers (suc rounds) = 32 * numbers rounds

Before-cons_less : (x y : ℕ) (a b : Bytes) → x < y → Before (x ∷ a) (y ∷ b)
unfolding str_leb
Before-cons_less x y a b l = ground arith

Before-cons : (x : ℕ) (a b : Bytes) → Before a b → Before (x ∷ a) (x ∷ b)
unfolding str_leb
Before-cons x a b e = ground arith

pub digits_of-Before :
    (rounds m n : ℕ) (a b : Bytes)
    → n < numbers rounds
    → (m < n) ⊎ (m ≡ n) × Before a b
    → Before (digits_of rounds m a) (digits_of rounds n b)
unfolding digits_of
digits_of-Before zero m n a b l (inl less) = absurd (omega arith)
digits_of-Before zero m n a b l (inr (same, before)) = before
digits_of-Before (suc rounds) m n a b l (inr (same, before)) =
    subst
      (λ k.
        Before (digits_of rounds (k / 32) (digit (k % 32) ∷ a))
          (digits_of rounds (n / 32) (digit (n % 32) ∷ b)))
      (sym same)
      (digits_of-Before rounds (n / 32) (n / 32) _ _ (omega arith)
        (inr (refl, Before-cons (digit (n % 32)) a b before)))
digits_of-Before (suc rounds) m n a b l (inl less) = elim (Bool-cases (ltb (m / 32) (n / 32))) [
  | inl q ↦ digits_of-Before rounds (m / 32) (n / 32) _ _ (omega arith) (inl (ground arith))
  | inr q ↦
      let at_least : n / 32 ≤ m / 32 = ground arith in
      let same : m / 32 ≡ n / 32 = omega arith in
      let last : m % 32 < n % 32 = omega arith in
      digits_of-Before rounds (m / 32) (n / 32) _ _ (omega arith)
        (inr (same, Before-cons_less _ _ a b (digit-less (m % 32) (n % 32) last (omega arith))))
]
