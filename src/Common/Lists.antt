-- ===== src/Common/Lists.antt =====
-- Lists measured and indexed by native numbers, under the library's names.
use Prim.Native.Nat.{ℕ, zero, suc, ◌+◌, ◌-◌, min}
use mathlib.Core.Path.{◌≡◌, refl, ap, subst, sym, ◌∙◌}
use mathlib.Core.Logic.{◌≢◌, ◌⊎◌, inl, inr}
use mathlib.Core.Bool.{Bool, true, false, ◌&&◌, ◌||◌}
use mathlib.Core.List.{List, [], ◌∷◌, ◌++◌, map}
use mathlib.Core.Option.{Option, none, some, some-injective}
use native.Mathlib.Omega.{arith}
use tug.Common.Tests.{if◌then◌else◌, or_false_split}

module _ {ℓ} {A : Type ℓ} where
  abbrev pub length : List A → ℕ
  length [] = 0
  length (x ∷ xs) = suc (length xs)

  abbrev pub get_elem? : List A → ℕ → Option A
  get_elem? [] i = none
  get_elem? (x ∷ xs) zero = some x
  get_elem? (x ∷ xs) (suc i) = get_elem? xs i

  -- A write out of bounds changes nothing.
  abbrev pub set : List A → ℕ → A → List A
  set [] i v = []
  set (x ∷ xs) zero v = v ∷ xs
  set (x ∷ xs) (suc i) v = x ∷ set xs i v

  abbrev pub take : ℕ → List A → List A
  take zero xs = []
  take (suc n) [] = []
  take (suc n) (x ∷ xs) = x ∷ take n xs

  abbrev pub drop : ℕ → List A → List A
  drop zero xs = xs
  drop (suc n) [] = []
  drop (suc n) (x ∷ xs) = drop n xs

  abbrev pub any : (A → Bool) → List A → Bool
  any p [] = false
  any p (x ∷ xs) = p x || any p xs

  abbrev pub all : (A → Bool) → List A → Bool
  all p [] = true
  all p (x ∷ xs) = p x && all p xs

  -- The elements that a test accepts, and how many they are.
  abbrev pub keep : (A → Bool) → List A → List A
  keep p [] = []
  keep p (x ∷ xs) = if p x then x ∷ keep p xs else keep p xs

  abbrev pub count_if : (A → Bool) → List A → ℕ
  count_if p [] = 0
  count_if p (x ∷ xs) = (if p x then 1 else 0) + count_if p xs

  pub length-append : (xs ys : List A) → length (xs ++ ys) ≡ length xs + length ys
  length-append [] ys = omega arith
  length-append (x ∷ xs) ys = omega (arith, length-append xs ys)

module _ {ℓ} {A : Type ℓ} where
  pub length-take : (n : ℕ) (xs : List A) → length (take n xs) ≡ min n (length xs)
  length-take zero xs = omega arith
  length-take (suc n) [] = omega arith
  length-take (suc n) (x ∷ xs) = omega (arith, length-take n xs)

  pub length-drop : (n : ℕ) (xs : List A) → length (drop n xs) ≡ length xs - n
  length-drop zero xs = omega arith
  length-drop (suc n) [] = omega arith
  length-drop (suc n) (x ∷ xs) = omega (arith, length-drop n xs)

  pub take-append-drop : (n : ℕ) (xs : List A) → take n xs ++ drop n xs ≡ xs
  take-append-drop zero xs = refl
  take-append-drop (suc n) [] = refl
  take-append-drop (suc n) (x ∷ xs) = ap (◌∷◌ x) (take-append-drop n xs)

  pub get_elem?-set_self :
      (xs : List A) (i : ℕ) (v w : A) → get_elem? xs i ≡ some w → get_elem? (set xs i v) i ≡ some v
  get_elem?-set_self [] i v w h = cc
  get_elem?-set_self (x ∷ xs) zero v w h = refl
  get_elem?-set_self (x ∷ xs) (suc i) v w h = get_elem?-set_self xs i v w h

  pub get_elem?-set_ne :
      (xs : List A) (i j : ℕ) (v : A) → i ≢ j → get_elem? (set xs i v) j ≡ get_elem? xs j
  get_elem?-set_ne [] i j v h = refl
  get_elem?-set_ne (x ∷ xs) zero zero v h = absurd (h refl)
  get_elem?-set_ne (x ∷ xs) zero (suc j) v h = refl
  get_elem?-set_ne (x ∷ xs) (suc i) zero v h = refl
  get_elem?-set_ne (x ∷ xs) (suc i) (suc j) v h = get_elem?-set_ne xs i j v (λ e. h (ap suc e))

  pub set-set : (xs : List A) (i : ℕ) (v w : A) → set (set xs i v) i w ≡ set xs i w
  set-set [] i v w = refl
  set-set (x ∷ xs) zero v w = refl
  set-set (x ∷ xs) (suc i) v w = ap (◌∷◌ x) (set-set xs i v w)

-- A predicate on every element of a list.
abbrev pub All {ℓ κ} : {A : Type ℓ} → (A → Type κ) → List A → Type κ
All P [] = Unit
All P (x ∷ xs) = P x × All P xs

pub All-append {ℓ κ} :
    {A : Type ℓ} (P : A → Type κ) (xs ys : List A) → All P xs → All P ys → All P (xs ++ ys)
All-append P [] ys hx hy = hy
All-append P (x ∷ xs) ys hx hy = (hx.0, All-append P xs ys hx.1 hy)

pub All-get {ℓ κ} :
    {A : Type ℓ} (P : A → Type κ) (xs : List A) (i : ℕ) (x : A)
    → All P xs
    → get_elem? xs i ≡ some x
    → P x
All-get P [] i x h e = cc
All-get P (y ∷ xs) zero x h e = subst P (cc) h.0
All-get P (y ∷ xs) (suc i) x h e = All-get P xs i x h.1 e

module _ {ℓ} {A : Type ℓ} where
  -- Whether the test accepts another element than the one at an index.
  abbrev pub any_but : ℕ → (A → Bool) → List A → Bool
  any_but i p [] = false
  any_but zero p (x ∷ xs) = any p xs
  any_but (suc i) p (x ∷ xs) = p x || any_but i p xs

  pub any-false_get :
      (p : A → Bool) (xs : List A) (k : ℕ) (x : A)
      → any p xs ≡ false
      → get_elem? xs k ≡ some x
      → p x ≡ false
  any-false_get p [] k x h e = cc
  any-false_get p (y ∷ ys) zero x h e =
      ap p (sym (some-injective _ _ e)) ∙ (or_false_split (p y) _ h).0
  any-false_get p (y ∷ ys) (suc k) x h e = any-false_get p ys k x (or_false_split (p y) _ h).1 e

  pub any-false_of_get :
      (p : A → Bool) (xs : List A)
      → ((k : ℕ) (x : A) → get_elem? xs k ≡ some x → p x ≡ false)
      → any p xs ≡ false
  any-false_of_get p [] h = refl
  any-false_of_get p (y ∷ ys) h = rw (h 0 y refl) (any-false_of_get p ys (λ k x e. h (suc k) x e))

  pub any_but-false_get :
      (i : ℕ) (p : A → Bool) (xs : List A) (k : ℕ) (x : A)
      → any_but i p xs ≡ false
      → k ≢ i
      → get_elem? xs k ≡ some x
      → p x ≡ false
  any_but-false_get i p [] k x h ne e = cc
  any_but-false_get zero p (y ∷ ys) zero x h ne e = absurd (ne refl)
  any_but-false_get zero p (y ∷ ys) (suc k) x h ne e = any-false_get p ys k x h e
  any_but-false_get (suc i) p (y ∷ ys) zero x h ne e =
      ap p (sym (some-injective _ _ e)) ∙ (or_false_split (p y) _ h).0
  any_but-false_get (suc i) p (y ∷ ys) (suc k) x h ne e =
      any_but-false_get i p ys k x (or_false_split (p y) _ h).1 (λ q. ne (ap suc q)) e

  pub any_but-false_of_get :
      (i : ℕ) (p : A → Bool) (xs : List A)
      → ((k : ℕ) (x : A) → k ≢ i → get_elem? xs k ≡ some x → p x ≡ false)
      → any_but i p xs ≡ false
  any_but-false_of_get i p [] h = refl
  any_but-false_of_get zero p (y ∷ ys) h =
      any-false_of_get p ys (λ k x e. h (suc k) x (omega arith) e)
  any_but-false_of_get (suc i) p (y ∷ ys) h =
      rw (h 0 y (omega arith) refl)
        (any_but-false_of_get i p ys (λ k x ne e. h (suc k) x (omega arith) e))

pub get_elem?-map {ℓ κ} :
    {A : Type ℓ} {B : Type κ} (f : A → B) (xs : List A) (i : ℕ) (x : A)
    → get_elem? xs i ≡ some x
    → get_elem? (map f xs) i ≡ some (f x)
get_elem?-map f [] i x e = cc
get_elem?-map f (y ∷ ys) zero x e = let same : y ≡ x = cc in rw same refl
get_elem?-map f (y ∷ ys) (suc i) x e = get_elem?-map f ys i x e

pub get_elem?-append_left {ℓ} :
    {A : Type ℓ} (xs ys : List A) (i : ℕ) (x : A)
    → get_elem? xs i ≡ some x
    → get_elem? (xs ++ ys) i ≡ some x
get_elem?-append_left [] ys i x e = cc
get_elem?-append_left (y ∷ xs) ys zero x e = e
get_elem?-append_left (y ∷ xs) ys (suc i) x e = get_elem?-append_left xs ys i x e

pub get_elem?-append_last {ℓ} :
    {A : Type ℓ} (xs : List A) (x : A) → get_elem? (xs ++ x ∷ []) (length xs) ≡ some x
get_elem?-append_last [] x = refl
get_elem?-append_last (y ∷ xs) x = get_elem?-append_last xs x

pub List-cases {ℓ} :
    {A : Type ℓ} (xs : List A) → (xs ≡ []) ⊎ ((x : A) × (ys : List A) × (xs ≡ x ∷ ys))
List-cases [] = inl refl
List-cases (x ∷ xs) = inr (x, xs, refl)
