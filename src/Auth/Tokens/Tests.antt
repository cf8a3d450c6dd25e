-- ===== src/Auth/Tokens/Tests.antt =====
-- A token for the part [1], with a Codec that writes a number as one byte and signs one text (auth/tokens.go).
use tug.Common.{
  any, ◌≢◌, ◌⊎◌, take, List, [], ◌∷◌, true, Option, none, some, Bytes, str_eq, if◌then◌else◌, ◌+◌,
  ◌-◌, ◌≡◌, refl, arith, framed, itoa, cut,
}
use tug.Common.Int.{ℤ, pos}
use tug.Auth.Tokens.{Codec, sign, make, in_time, is_signed, check, check_cut}
use tug.Auth.Tokens.Checks.{Reads, check-make_same, check-make_other}

unfoldable parse_36 : Bytes → Option ℤ
parse_36 [] = none
parse_36 (x ∷ s) = some (pos (x - 47))

-- The text that the token is signed over: its expiry and the part.
abbrev text : Bytes
text = 49 ∷ 58 ∷ 77 ∷ 49 ∷ 58 ∷ 1 ∷ []

abbrev codec : Codec
codec = record {
  format_36 = λ n. (n + 47) ∷ [];
  parse_36 = parse_36;
  encode = λ b. b;
  decode = λ b. some b;
  hkdf = λ key purpose. key;
  hmac = λ key m. if str_eq m text then 1 ∷ [] else 2 ∷ [];
}

codec-Reads : Reads codec
unfolding parse_36
codec-Reads = record {
  parses = λ n fits. let same : n + 47 - 47 ≡ n = omega arith in rw same refl;
  without_dot = λ n. ground arith;
  decodes = λ b. refl;
}

check-make_same_example :
    check codec []
      ((3 ∷ []) ∷ (9 ∷ []) ∷ [])
      25
      (make codec [] (9 ∷ []) 20 10 ((1 ∷ []) ∷ []))
      ((1 ∷ []) ∷ [])
    ≡ true
unfolding str_eq
check-make_same_example =
    check-make_same codec [] codec-Reads ((3 ∷ []) ∷ (9 ∷ []) ∷ []) (9 ∷ []) 20 10 25
      ((1 ∷ []) ∷ []) (omega arith) refl

check_test :
    check codec [] ((9 ∷ []) ∷ []) 25 (make codec [] (9 ∷ []) 20 10 ((1 ∷ []) ∷ [])) ((1 ∷ []) ∷ [])
    ≡ true
unfolding check check_cut make sign in_time is_signed parse_36 str_eq framed itoa cut
check_test = refl

abbrev one : List Bytes
one = (1 ∷ []) ∷ []

check-make_other_example :
    (one ≡ one)
    ⊎ ((key other : Bytes) × (any (λ k. str_eq k key) ((9 ∷ []) ∷ []) ≡ true)
        × (text ≢ other)
        × (1 ∷ [] ≡ take 16 (codec.hmac key other)))
unfolding framed itoa str_eq
check-make_other_example =
    check-make_other codec [] codec-Reads ((9 ∷ []) ∷ []) (9 ∷ []) 20 10 25 ((1 ∷ []) ∷ [])
      ((1 ∷ []) ∷ []) (omega arith) check_test
