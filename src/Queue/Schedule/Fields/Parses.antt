-- ===== src/Queue/Schedule/Fields/Parses.antt =====
-- What the numbers are that a field of an expression names (queue/schedule.go).
use tug.Common.{
  cut, split, number, max_atoi, ℕ, zero, suc, ◌+◌, ◌-◌, ◌*◌, ◌/◌, ◌%◌, ◌≤◌, ◌<◌, ◌≡◌, refl, ap, ◌∙◌,
  arith, List, [], ◌∷◌, Bool, true, false, ◌&&◌, ◌||◌, Bytes, ltb, leb, ◌==◌, Result, ok, err,
  ◌>>=◌, Ensures, Ensures-bind, Ensures-ok, Ensures-weaken, Bool-cases, Option-cases, ltb→lt, inl,
  inr,
}
use native.Mathlib.Nat.{mod-eq-sub-mod, mod-eq_of_lt}
use tug.Queue.Schedule.{has_bit}
use tug.Queue.Schedule.Fields.{
  CronError, CronField, set_bit, span_of, step_of, fill, parse_item, parse_items, parse,
}

has_bit-zero : (n : ℕ) → has_bit 0 n ≡ false
unfolding has_bit
has_bit-zero zero = refl
has_bit-zero (suc n) = has_bit-zero n

has_bit-set_bit : (bits n m : ℕ) → has_bit (set_bit bits n) m ≡ (n == m || has_bit bits m)
unfolding has_bit set_bit
has_bit-set_bit bits zero zero = ground arith
has_bit-set_bit bits zero (suc m) =
    let half : (2 * (bits / 2) + 1) / 2 ≡ bits / 2 = omega arith in
    let other : (0 == suc m) ≡ false = ground arith in rw (half, other) refl
has_bit-set_bit bits (suc n) zero = ground arith
has_bit-set_bit bits (suc n) (suc m) =
    let half : (2 * set_bit (bits / 2) n + bits % 2) / 2 ≡ set_bit (bits / 2) n = omega arith in
    let same : (suc n == suc m) ≡ (n == m) = ground arith in
    rw (half, same) (has_bit-set_bit (bits / 2) n m)

-- Whether n is one of the numbers from lo to hi, every so many.
unfoldable pub is_among : (lo hi every n : ℕ) → Bool
is_among lo hi every n = leb lo n && (leb n hi && (n - lo) % every == 0)

is_among-next :
    (v hi every n : ℕ)
    → v ≤ hi
    → 1 ≤ every
    → is_among v hi every n ≡ (v == n || is_among (v + every) hi every n)
unfolding is_among
is_among-next v hi every n a b = elim (Bool-cases (ltb n (v + every))) [
  | inl e ↦
      let below : n < v + every = ground arith in
      elim (Bool-cases (leb v n)) [
        | inl f ↦
            let small : (n - v) % every ≡ n - v = mod-eq_of_lt (omega (arith, ltb→lt _ _ e)) in
            rw small (ground arith)
        | inr f ↦ ground arith
      ]
  | inr e ↦
      let above : every ≤ n - v = ground arith in
      let less : (n - v) % every ≡ (n - (v + every)) % every =
        mod-eq-sub-mod above ∙ ap (λ m. m % every) (omega arith) in
      rw less (ground arith)
]

or_swap : (a b c : Bool) → ((a || b) || c) ≡ (b || (a || c))
or_swap a b c = ground arith

fill-is_among :
    (rounds v hi every bits : ℕ)
    → hi < v + rounds
    → 1 ≤ every
    → Ensures
        (λ r. (n : ℕ) → has_bit r n ≡ (has_bit bits n || is_among v hi every n))
        (fill rounds v hi every bits)
unfolding fill is_among
fill-is_among zero v hi every bits a b = λ n. ground arith
fill-is_among (suc rounds) v hi every bits a b = elim (Bool-cases (ltb hi v)) [
  | inl e ↦ rw e (λ n. ground arith)
  | inr e ↦ elim (Bool-cases (ltb max_atoi (v + every))) [
    | inl f ↦ rw (e, f) tt
    | inr f ↦
        rw (e, f)
          (Ensures-weaken
            (λ r.
              (n : ℕ)
              → has_bit r n ≡ (has_bit (set_bit bits v) n || is_among (v + every) hi every n))
            _ _
            (λ r same n.
              same n
              ∙ rw (has_bit-set_bit bits v n, is_among-next v hi every n (ground arith) b)
                  (or_swap (v == n) (has_bit bits n) (is_among (v + every) hi every n)))
            (fill-is_among rounds (v + every) hi every (set_bit bits v) (omega arith) b))
  ]
]

-- Whether n is a number of an item, given what its span and its step are read as.
unfoldable pub is_of : Result CronError (ℕ × ℕ) → Result CronError ℕ → (n : ℕ) → Bool
is_of (ok (lo, hi)) (ok every) n = is_among lo hi every n
is_of _ _ n = false

-- What a number of a field's set is: one that the set had, or one of those.
abbrev Adds : (bits : ℕ) → (ℕ → Bool) → ℕ → Type 0
Adds bits p r = (n : ℕ) → has_bit r n ≡ (has_bit bits n || p n)

step_of-positive :
    (step : Bytes) (stepped : Bool) → Ensures (λ every. 1 ≤ every) (step_of step stepped)
unfolding step_of
step_of-positive step false = omega arith
step_of-positive step true = elim (Option-cases (number step)) [
  | inl e ↦ rw (e, step_of) tt
  | inr (n, e) ↦
      rw (e, step_of)
        (elim (Bool-cases (ltb n 1)) [ inl f ↦ rw f tt | inr f ↦ rw f (ground arith) ])
]

fill-Adds :
    (span : Result CronError (ℕ × ℕ)) (step : Result CronError ℕ) (bits : ℕ)
    → Ensures (λ every. 1 ≤ every) step
    → Ensures
        (Adds bits (is_of span step))
        (span >>= λ (lo, hi). step >>= λ every. fill (2 + hi - lo) lo hi every bits)
unfolding is_of
fill-Adds (err e) step bits s = tt
fill-Adds (ok (lo, hi)) (err e) bits s = tt
fill-Adds (ok (lo, hi)) (ok every) bits s =
    fill-is_among (2 + hi - lo) lo hi every bits (omega arith) s

module _ (equal_fold : Bytes → Bytes → Bool) (f : CronField) where
  -- Whether an item of a field names n.
  unfoldable pub names : (item : Bytes) (n : ℕ) → Bool
  names item n =
      let (span, step, stepped) = cut 47 item in
      is_of (span_of equal_fold f span stepped) (step_of step stepped) n

  unfoldable pub any_names : (items : List Bytes) (n : ℕ) → Bool
  any_names [] n = false
  any_names (item ∷ items) n = names item n || any_names items n

  parse_item-Adds :
      (item : Bytes) (bits : ℕ)
      → Ensures (Adds bits (names item)) (parse_item equal_fold f item bits)
  unfolding parse_item names
  parse_item-Adds item bits =
      let (span, step, stepped) = cut 47 item in
      fill-Adds (span_of equal_fold f span stepped) (step_of step stepped) bits
        (step_of-positive step stepped)

  parse_items-Adds :
      (items : List Bytes) (bits : ℕ)
      → Ensures (Adds bits (any_names items)) (parse_items equal_fold f items bits)
  unfolding parse_items any_names
  parse_items-Adds [] bits = λ n. ground arith
  parse_items-Adds (item ∷ items) bits =
      Ensures-bind (Adds bits (names item)) _ (parse_item equal_fold f item bits) _
        (parse_item-Adds item bits)
        λ b added.
          Ensures-weaken (Adds b (any_names items)) _ (parse_items equal_fold f items b)
            (λ r same n. same n ∙ rw (added n) (ground arith)) (parse_items-Adds items b)

  -- The bits of a field that is read are those of the numbers that its items name: an item's numbers go from
  -- its span's first to its last by its step, and no bit beside them is set.
  pub parse-any_names :
      (s : Bytes) (bits n : ℕ)
      → parse equal_fold f s ≡ ok bits
      → has_bit bits n ≡ any_names (split 44 s) n
  unfolding parse
  parse-any_names s bits n e =
      rw (has_bit-zero n) at
        (Ensures-ok (Adds 0 (any_names (split 44 s))) _ bits e (parse_items-Adds (split 44 s) 0) n)
