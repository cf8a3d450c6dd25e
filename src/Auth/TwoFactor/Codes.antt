-- ===== src/Auth/TwoFactor/Codes.antt =====
-- Which codes of an authenticator app work (auth/twofactor.go).
use tug.Common.{
  ℕ, List, [], ◌∷◌, not, ◌||◌, Option, none, some, Bytes, str_eq, ◌==◌, length, ◌+◌, ◌-◌, ◌/◌, ◌≤◌,
  ◌<◌, ◌≡◌, Bool-cases, Option-cases, inl, inr, arith, str_eq_iff,
}
use tug.Auth.TwoFactor.{without_spaces, totp, find_step, check, code}

module _ (hmac : (key message : Bytes) → Bytes) (decode : (secret : Bytes) → Option Bytes) where
  -- The steps of the tries that work, each a code at a time, as the app keeps the step of the last that worked.
  unfoldable pub accepted : (secret : Bytes) → (after : ℕ) → List (Bytes × ℕ) → List ℕ
  accepted secret after [] = []
  accepted secret after ((c, time) ∷ tries) =
      let skipped = accepted secret after tries in
      elim (check hmac decode secret c after time) [
        | none ↦ skipped
        | some s ↦ s ∷ accepted secret s tries
      ]

  abbrev pub Rising : ℕ → List ℕ → Type 0
  Rising after [] = Unit
  Rising after (s ∷ steps) = (after < s) × Rising s steps

  -- A step that works is one of the three about now, and makes the code.
  abbrev pub Near : (key code : Bytes) → (after now step : ℕ) → Type 0
  Near key c after now step =
      (after < step) × (now ≤ step + 1) × (step ≤ now + 1) × (totp hmac key step ≡ c)

  find_step-Near :
      (key c : Bytes) (after now s : ℕ)
      → find_step hmac key c after now ≡ some s
      → Near key c after now s
  unfolding find_step
  find_step-Near key c after now s e = ground (
    arith,
    str_eq_iff (totp hmac key (now - 1)) c,
    str_eq_iff (totp hmac key now) c,
    str_eq_iff (totp hmac key (now + 1)) c,
  )

  check-Near :
      (secret c : Bytes) (after time s : ℕ)
      → check hmac decode secret c after time ≡ some s
      → (key : Bytes) × (decode secret ≡ some key) × Near key (without_spaces c) after (time / 30) s
  unfolding check
  check-Near secret c after time s e = elim (Option-cases (decode secret)) [
    | inl n ↦ let failed : none ≡ some s = rw (check, n) at e in cc
    | inr (key, n) ↦ elim (Bool-cases (str_eq key [] || not (length (without_spaces c) == 6))) [
      | inl b ↦ let failed : none ≡ some s = rw (check, n, b) at e in cc
      | inr b ↦ (
        key,
        n,
        find_step-Near key (without_spaces c) after (time / 30) s (rw (check, n, b) at e),
      )
    ]
  ]

  -- However often, in whatever order and at whatever times codes are tried for a user, the steps of those that work rise: a
  -- code works once, and after it none of its step or of one before.
  pub accepted-Rising :
      (secret : Bytes) (tries : List (Bytes × ℕ)) (after : ℕ)
      → Rising after (accepted secret after tries)
  unfolding accepted
  accepted-Rising secret [] after = tt
  accepted-Rising secret ((c, time) ∷ tries) after =
      elim (Option-cases (check hmac decode secret c after time)) [
        | inl n ↦ rw (accepted, n) (accepted-Rising secret tries after)
        | inr (s, n) ↦
            rw (accepted, n)
              ((check-Near secret c after time s n).2.0, accepted-Rising secret tries s)
      ]
