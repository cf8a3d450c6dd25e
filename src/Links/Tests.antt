-- ===== src/Links/Tests.antt =====
-- A link signed by the second of an app's keys, with a signature that is the text itself (links.go).
use tug.Common.{
  List, [], ◌∷◌, ◌++◌, true, Option, some, Bytes, str_eq, cut, cut-append, worth, worth-itoa,
  all_digits-itoa, all_digits-any, itoa, drop, ◌==◌, ◌≡◌, refl, ok, arith, framed, length, lookup,
}
use tug.Common.Int.{pos}
use tug.Links.{
  Web, expires_name, signature_name, signed_url, check_signed, check_query, check_values,
  check_keys, one_value, in_time, sign_link, signed_query, good,
}
use tug.Links.Signed.{Reads, SignedBy, signed_url-check_signed, check_signed-SignedBy}

unfoldable read_query : Bytes → Option (List (Bytes × List Bytes))
read_query s =
    let (unix, rest, found) = cut 38 (drop 8 s) in
    some ((expires_name, unix ∷ []) ∷ (signature_name, drop 10 rest ∷ []) ∷ [])

abbrev web : Web
web = record {
  parse_query = read_query;
  parse_int = λ s. some (pos (worth 0 s));
  encode = λ b. b;
  decode = λ b. some b;
  hkdf = λ key. key;
  hmac = λ key m. key ++ m;
}

web-Reads : Reads web
unfolding read_query
web-Reads = record {
  parses = λ n fits. rw (worth-itoa n) refl;
  decodes = λ b. refl;
  queries = λ n b.
      rw
        (cut-append 38 (itoa n) (signature_name ++ 61 ∷ b)
          (all_digits-any 38 (itoa n) refl (all_digits-itoa n)))
        refl;
}

abbrev keys : List Bytes
keys = (3 ∷ []) ∷ (9 ∷ []) ∷ []

abbrev path : Bytes
path = 47 ∷ 97 ∷ []

signed_url-check_signed_example :
    (query : Bytes) × (signed_url web {E = Bytes} ((9 ∷ []) ∷ []) (104 ∷ []) 700 (ok path)
      ≡ ok ((104 ∷ 47 ∷ 97 ∷ []) ++ 63 ∷ query))
    × (check_signed web keys 600 path query ≡ good)
unfolding str_eq
signed_url-check_signed_example =
    signed_url-check_signed web web-Reads [] (9 ∷ []) (104 ∷ []) 700 path (3 ∷ []) ((9 ∷ []) ∷ [])
      600 refl (omega arith) refl

check_signed_test :
    check_signed web keys 600 path (signed_query web (9 ∷ []) path (itoa 700)) ≡ good
unfolding check_signed check_query check_values check_keys one_value in_time sign_link signed_query
    read_query str_eq itoa framed cut worth lookup
check_signed_test = refl

check_signed-SignedBy_example :
    (q : List (Bytes × List Bytes)) × (unix : Bytes) × (signature : Bytes) × (read_query
        (signed_query web (9 ∷ []) path (itoa 700))
      ≡ some q)
    × ((length q == 2) ≡ true)
    × (lookup expires_name q ≡ some (unix ∷ []))
    × (lookup signature_name q ≡ some (signature ∷ []))
    × SignedBy web keys 600 path unix signature
check_signed-SignedBy_example =
    check_signed-SignedBy web keys 600 path (signed_query web (9 ∷ []) path (itoa 700))
      check_signed_test
