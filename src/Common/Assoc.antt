-- ===== src/Common/Assoc.antt =====
-- Go's maps with string keys, as association lists in which each key stands once. The order of the
-- entries stands for the order in which a range goes through the map, which Go leaves open.
use Prim.Native.Nat.{ℕ}
use mathlib.Core.Path.{◌≡◌, refl}
use mathlib.Core.List.{List, [], ◌∷◌}
use mathlib.Core.Option.{Option, none, some}
use native.Mathlib.Omega.{arith}
use mathlib.Core.Bool.{Bool, false}
use mathlib.Core.Logic.{inl, inr}
use tug.Common.Tests.{if◌then◌else◌, Bool-cases}
use tug.Common.Text.{Bytes, str_eq, str_eq_iff}

module _ {ℓ} {V : Type ℓ} where
  unfoldable pub lookup : Bytes → List (Bytes × V) → Option V
  lookup k [] = none
  lookup k ((j, v) ∷ m) = if str_eq j k then some v else lookup k m

  unfoldable pub insert : Bytes → V → List (Bytes × V) → List (Bytes × V)
  insert k v [] = (k, v) ∷ []
  insert k v ((j, w) ∷ m) = if str_eq j k then (k, v) ∷ m else (j, w) ∷ insert k v m

  -- Go's `delete`.
  unfoldable pub erase : Bytes → List (Bytes × V) → List (Bytes × V)
  erase k [] = []
  erase k ((j, w) ∷ m) = if str_eq j k then erase k m else (j, w) ∷ erase k m

  pub lookup-insert :
      (k j : Bytes) (v : V) (m : List (Bytes × V))
      → lookup j (insert k v m) ≡ (if str_eq k j then some v else lookup j m)
  unfolding lookup insert
  lookup-insert k j v [] = refl
  lookup-insert k j v ((i, w) ∷ m) =
      ground (arith, str_eq_iff k j, str_eq_iff i k, str_eq_iff i j, lookup-insert k j v m)

  pub lookup-erase :
      (k j : Bytes) (m : List (Bytes × V))
      → lookup j (erase k m) ≡ (if str_eq k j then none else lookup j m)
  unfolding lookup erase
  lookup-erase k j [] = ground arith
  lookup-erase k j ((i, w) ∷ m) =
      ground (arith, str_eq_iff k j, str_eq_iff i k, str_eq_iff i j, lookup-erase k j m)

  -- Each key stands once.
  abbrev pub Distinct : List (Bytes × V) → Type ℓ
  Distinct [] = Unit
  Distinct ((k, v) ∷ m) = (lookup k m ≡ none) × Distinct m

  pub insert-Distinct :
      (k : Bytes) (v : V) (m : List (Bytes × V)) → Distinct m → Distinct (insert k v m)
  unfolding lookup insert
  insert-Distinct k v [] d = (refl, tt)
  insert-Distinct k v ((j, w) ∷ m) d = elim (Bool-cases (str_eq j k)) [
    | inl e ↦ rw e (rw (← (str_eq_iff j k).0 e) d)
    | inr e ↦
        let other : str_eq k j ≡ false = ground (arith, str_eq_iff j k, str_eq_iff k j) in
        let absent : lookup j (insert k v m) ≡ none = rw (lookup-insert k j v m, other) d.0 in
        rw e (absent, insert-Distinct k v m d.1)
  ]

  absent-erase :
      (k j : Bytes) (m : List (Bytes × V)) → lookup j m ≡ none → lookup j (erase k m) ≡ none
  absent-erase k j m e = ground (arith, lookup-erase k j m)

  pub erase-Distinct : (k : Bytes) (m : List (Bytes × V)) → Distinct m → Distinct (erase k m)
  unfolding erase
  erase-Distinct k [] d = tt
  erase-Distinct k ((j, w) ∷ m) d = elim (Bool-cases (str_eq j k)) [
    | inl e ↦ rw e (erase-Distinct k m d.1)
    | inr e ↦ rw e (absent-erase k j m d.0, erase-Distinct k m d.1)
  ]

  -- The entries whose values pass a test, the others deleted in a range over the map.
  unfoldable pub keep_values : (V → Bool) → List (Bytes × V) → List (Bytes × V)
  keep_values p [] = []
  keep_values p ((k, v) ∷ m) = if p v then (k, v) ∷ keep_values p m else keep_values p m

  unfoldable pub only_if : (V → Bool) → Option V → Option V
  only_if p none = none
  only_if p (some v) = if p v then some v else none

  absent-keep_values :
      (p : V → Bool) (k : Bytes) (m : List (Bytes × V))
      → lookup k m ≡ none
      → lookup k (keep_values p m) ≡ none
  unfolding lookup keep_values
  absent-keep_values p k [] e = refl
  absent-keep_values p k ((j, w) ∷ m) e = ground (arith, absent-keep_values p k m)

  pub lookup-keep_values :
      (p : V → Bool) (k : Bytes) (m : List (Bytes × V))
      → Distinct m
      → lookup k (keep_values p m) ≡ only_if p (lookup k m)
  unfolding lookup keep_values only_if
  lookup-keep_values p k [] d = refl
  lookup-keep_values p k ((j, w) ∷ m) d =
      ground
        (arith, d.0, lookup-keep_values p k m d.1, absent-keep_values p j m d.0, str_eq_iff j k)

  pub keep_values-Distinct :
      (p : V → Bool) (m : List (Bytes × V)) → Distinct m → Distinct (keep_values p m)
  unfolding keep_values
  keep_values-Distinct p [] d = tt
  keep_values-Distinct p ((j, w) ∷ m) d = elim (Bool-cases (p w)) [
    | inl e ↦ rw e (absent-keep_values p j m d.0, keep_values-Distinct p m d.1)
    | inr e ↦ rw e (keep_values-Distinct p m d.1)
  ]

-- A number read from a map, where a missing key has Go's zero value.
unfoldable pub zero_or : Option ℕ → ℕ
zero_or none = 0
zero_or (some n) = n
