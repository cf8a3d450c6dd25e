-- ===== src/Auth/TwoFactor/Tests.antt =====
-- Codes and recovery codes of one user (auth/twofactor.go).
use tug.Common.{ℕ, List, [], ◌∷◌, ◌++◌, Option, some, Bytes, ◌≡◌, refl, str_eq}
use tug.Auth.TwoFactor.{totp, check, find_step, six_digits, without_spaces}
use tug.Auth.TwoFactor.Codes.{accepted, Rising, accepted-Rising}

-- The message, and 12 bytes after it.
abbrev hmac : Bytes → Bytes → Bytes
hmac key message = message ++ 1 ∷ 2 ∷ 3 ∷ 4 ∷ 5 ∷ 6 ∷ 7 ∷ 8 ∷ 9 ∷ 10 ∷ 11 ∷ 4 ∷ []

abbrev decode : Bytes → Option Bytes
decode secret = some secret

abbrev secret : Bytes
secret = 65 ∷ []

-- The code of the step 2 is that of the number 2, as the sum is.
totp_test : totp hmac secret 2 ≡ 48 ∷ 48 ∷ 48 ∷ 48 ∷ 48 ∷ 50 ∷ []
unfolding totp six_digits
totp_test = refl

abbrev two : Bytes
two = 48 ∷ 48 ∷ 48 ∷ 32 ∷ 48 ∷ 48 ∷ 50 ∷ []

abbrev three : Bytes
three = 48 ∷ 48 ∷ 48 ∷ 48 ∷ 48 ∷ 51 ∷ []

-- The code of a step works in that before, then no code of it does.
abbrev tries : List (Bytes × ℕ)
tries = (two, 45) ∷ (two, 61) ∷ (three, 75) ∷ (two, 75) ∷ []

accepted_test : accepted hmac decode secret 0 tries ≡ 2 ∷ 3 ∷ []
unfolding accepted check find_step totp six_digits without_spaces str_eq
accepted_test = refl

accepted-Rising_example : Rising hmac decode 0 (accepted hmac decode secret 0 tries)
accepted-Rising_example = accepted-Rising hmac decode secret tries 0

-- "a-b" and "cd".
abbrev codes : List Bytes
codes = (97 ∷ 45 ∷ 98 ∷ []) ∷ (99 ∷ 100 ∷ []) ∷ []
