-- ===== src/Common/Text.antt =====
-- Go's strings and byte slices: lists of bytes, each a number below 256. `str_eq` is Go's `==` on
-- strings and `bytes.Equal`, and `itoa` is `strconv.Itoa` of a number that is not negative.
use Prim.Native.Nat.{ℕ, zero, suc, ◌+◌, ◌-◌, ◌*◌, ◌/◌, ◌%◌, ◌<◌}
use mathlib.Core.Path.{◌≡◌, refl, sym, ap, ◌∙◌}
use mathlib.Core.Logic.{◌≢◌, ◌↔◌, inl, inr}
use mathlib.Core.Bool.{Bool, true, false, ◌&&◌, ◌||◌}
use mathlib.Core.List.{List, [], ◌∷◌, ◌++◌}
use native.Mathlib.Omega.{arith}
use mathlib.Core.Option.{Option, none, some}
use tug.Common.Lists.{any}
use tug.Common.Tests.{or_false_split, ltb, leb, ◌==◌, if◌then◌else◌, Bool-cases}

abbrev pub Bytes : Type 0
Bytes = List ℕ

unfoldable pub str_eq : Bytes → Bytes → Bool
str_eq [] [] = true
str_eq (x ∷ xs) (y ∷ ys) = x == y && str_eq xs ys
str_eq _ _ = false

str_eq_sound : (a b : Bytes) → str_eq a b ≡ true → a ≡ b
unfolding str_eq
str_eq_sound [] [] h = refl
str_eq_sound [] (y ∷ ys) h = cc
str_eq_sound (x ∷ xs) [] h = cc
str_eq_sound (x ∷ xs) (y ∷ ys) h = ground (arith, str_eq_sound xs ys)

pub str_eq_refl : (a : Bytes) → str_eq a a ≡ true
unfolding str_eq
str_eq_refl [] = refl
str_eq_refl (x ∷ xs) = ground (arith, str_eq_refl xs)

pub str_eq_iff : (a b : Bytes) → (str_eq a b ≡ true) ↔ (a ≡ b)
str_eq_iff a b = (str_eq_sound a b, λ e. rw e (str_eq_refl b))

pub str_eq-false : (a b : Bytes) → a ≢ b → str_eq a b ≡ false
str_eq-false a b h = elim (Bool-cases (str_eq a b)) [
  | inl e ↦ absurd (h (str_eq_sound a b e))
  | inr e ↦ e
]

-- The decimal digits, least last; the first argument is fuel, and a number has fewer digits than
-- its successor.
digits : ℕ → ℕ → Bytes
digits zero n = []
digits (suc fuel) n =
    let more = digits fuel (n / 10) ++ (48 + n % 10) ∷ [] in
    if ltb n 10 then (48 + n) ∷ [] else more

unfoldable pub itoa : ℕ → Bytes
unfolding digits
itoa n = digits (suc n) n

-- What a run of digits is worth.
unfoldable pub worth : ℕ → Bytes → ℕ
worth acc [] = acc
worth acc (c ∷ cs) = worth (acc * 10 + (c - 48)) cs

worth-append :
    (acc : ℕ) (xs : Bytes) (c : ℕ) → worth acc (xs ++ c ∷ []) ≡ worth acc xs * 10 + (c - 48)
unfolding worth
worth-append acc [] c = refl
worth-append acc (x ∷ xs) c = worth-append (acc * 10 + (x - 48)) xs c

worth-digits : (fuel n : ℕ) → n < fuel → worth 0 (digits fuel n) ≡ n
unfolding digits
worth-digits zero n h = absurd (omega arith)
worth-digits (suc fuel) n h = elim (Bool-cases (ltb n 10)) [
  | inl small ↦ rw small (unfold worth in omega arith)
  | inr large ↦
      rw (large, worth-append 0 (digits fuel (n / 10)) (48 + n % 10))
        (ground (arith, worth-digits fuel (n / 10)))
]

pub itoa_injective : (a b : ℕ) → itoa a ≡ itoa b → a ≡ b
unfolding itoa
itoa_injective a b e =
    sym (worth-digits (suc a) a (omega arith))
    ∙ ap (worth 0) e
    ∙ worth-digits (suc b) b (omega arith)

itoa_test : itoa 1203 ≡ b'1' ∷ b'2' ∷ b'0' ∷ b'3' ∷ []
unfolding itoa
itoa_test = refl

-- `strings.Cut` at a byte.
unfoldable pub cut : (sep : ℕ) → Bytes → Bytes × Bytes × Bool
cut sep [] = ([], [], false)
cut sep (x ∷ s) =
    let (before, after, found) = cut sep s in
    if x == sep then ([], s, true) else (x ∷ before, after, found)

-- `strings.Split` at a byte.
unfoldable pub split : (sep : ℕ) → Bytes → List Bytes
split sep [] = [] ∷ []
split sep (x ∷ s) = elim (split sep s) [
  | [] ↦ (x ∷ []) ∷ []
  | item ∷ items ↦ if x == sep then [] ∷ (item ∷ items) else (x ∷ item) ∷ items
]

unfoldable pub all_digits : Bytes → Bool
all_digits [] = true
all_digits (x ∷ s) = leb 48 x && (leb x 57 && all_digits s)

-- `digits`.
unfoldable pub is_digits : Bytes → Bool
is_digits [] = false
is_digits (x ∷ s) = all_digits (x ∷ s)

abbrev pub max_atoi : ℕ
max_atoi = 9223372036854775807

-- `strconv.Atoi` of a string of digits, none for an error or another string.
unfoldable pub number : Bytes → Option ℕ
number s = if is_digits s && leb (worth 0 s) max_atoi then some (worth 0 s) else none

-- The order of strings: `cmp.Compare(a, b) <= 0`.
unfoldable pub str_leb : Bytes → Bytes → Bool
str_leb [] b = true
str_leb (x ∷ a) [] = false
str_leb (x ∷ a) (y ∷ b) = ltb x y || leb x y && str_leb a b

pub str_leb_refl : (a : Bytes) → str_leb a a ≡ true
unfolding str_leb
str_leb_refl [] = refl
str_leb_refl (x ∷ a) = ground (arith, str_leb_refl a)

pub str_leb_total : (a b : Bytes) → str_leb a b ≡ false → str_leb b a ≡ true
unfolding str_leb
str_leb_total [] b h = cc
str_leb_total (x ∷ a) [] h = refl
str_leb_total (x ∷ a) (y ∷ b) h = ground (arith, str_leb_total a b)

pub str_leb_trans : (a b c : Bytes) → str_leb a b ≡ true → str_leb b c ≡ true → str_leb a c ≡ true
unfolding str_leb
str_leb_trans [] b c h k = refl
str_leb_trans (x ∷ a) [] c h k = cc
str_leb_trans (x ∷ a) (y ∷ b) [] h k = cc
str_leb_trans (x ∷ a) (y ∷ b) (z ∷ c) h k = ground (arith, str_leb_trans a b c)

all_digits-append :
    (s : Bytes) (c : ℕ)
    → all_digits s ≡ true
    → (leb 48 c && leb c 57) ≡ true
    → all_digits (s ++ c ∷ []) ≡ true
unfolding all_digits
all_digits-append [] c h k = ground arith
all_digits-append (x ∷ s) c h k = ground (arith, all_digits-append s c)

all_digits-digits : (fuel n : ℕ) → all_digits (digits fuel n) ≡ true
unfolding digits all_digits
all_digits-digits zero n = refl
all_digits-digits (suc fuel) n = elim (Bool-cases (ltb n 10)) [
  | inl b ↦ rw b (ground arith)
  | inr b ↦ rw b (
      all_digits-append (digits fuel (n / 10)) (48 + n % 10) (all_digits-digits fuel (n / 10))
        (ground arith))
]

pub all_digits-itoa : (n : ℕ) → all_digits (itoa n) ≡ true
unfolding itoa
all_digits-itoa n = all_digits-digits (suc n) n

pub worth-itoa : (n : ℕ) → worth 0 (itoa n) ≡ n
unfolding itoa
worth-itoa n = worth-digits (suc n) n (omega arith)

-- No other byte is found among digits.
pub all_digits-any :
    (sep : ℕ) (s : Bytes) → ltb sep 48 ≡ true → all_digits s ≡ true → any (λ c. c == sep) s ≡ false
unfolding all_digits
all_digits-any sep [] l h = refl
all_digits-any sep (c ∷ s) l h = ground (arith, all_digits-any sep s)

pub cut-append :
    (sep : ℕ) (a b : Bytes) → any (λ x. x == sep) a ≡ false → cut sep (a ++ sep ∷ b) ≡ (a, b, true)
unfolding cut
cut-append sep [] b h = let is : (sep == sep) ≡ true = ground arith in rw is refl
cut-append sep (x ∷ a) b h =
    let (other, rest) = or_false_split (x == sep) _ h in rw (other, cut-append sep a b rest) refl
