-- ===== src/Links.antt =====
-- Links to an app's routes that leave it, and signed ones (links.go). HMAC, its keys, base64, ParseInt and net/url are
-- arguments, and a time is in seconds since 1970.
pub mod Signed
mod Tests
use tug.Common.{
  ℕ, List, [], ◌∷◌, ◌++◌, Bool, true, false, not, ◌&&◌, ◌||◌, Option, none, some, Bytes, str_eq,
  ltb, ◌==◌, any, lookup, length, if◌then◌else◌, framed, take, itoa, Result, ok, err,
}
use tug.Common.Int.{ℤ, pos, negsuc}

-- What the code calls. A query has a list of values by name.
pub record Web : Type 0 where
  pub parse_query : Bytes → Option (List (Bytes × List Bytes))
  pub parse_int : Bytes → Option ℤ
  pub encode : Bytes → Bytes
  pub decode : Bytes → Option Bytes
  pub hkdf : (app_key : Bytes) → Bytes
  pub hmac : (key message : Bytes) → Bytes

pub data LinkError (E : Type 0) : Type 0 where
  no_url : LinkError E
  no_keys : LinkError E
  no_path : E → LinkError E

-- `expires` and `signature`.
abbrev pub expires_name : Bytes
expires_name = 101 ∷ 120 ∷ 112 ∷ 105 ∷ 114 ∷ 101 ∷ 115 ∷ []

abbrev pub signature_name : Bytes
signature_name = 115 ∷ 105 ∷ 103 ∷ 110 ∷ 97 ∷ 116 ∷ 117 ∷ 114 ∷ 101 ∷ []

-- `AbsoluteURL`, of the path that URL builds, or its error.
unfoldable pub absolute_url :
    {E : Type 0} → (config_url : Bytes) → Result E Bytes → Result (LinkError E) Bytes
absolute_url config_url path =
    if str_eq config_url []
    then err no_url
    else elim path [ err e ↦ err (no_path e) | ok p ↦ ok (config_url ++ p) ]

-- What `checkSigned` makes of a request: nil, or one of its errors.
pub data Checked : Type 0 where
  good : Checked
  has_no_keys : Checked
  link_invalid : Checked
  link_expired : Checked

module _ (w : Web) where
  -- `signLink`.
  unfoldable pub sign_link : (app_key path unix : Bytes) → Bytes
  sign_link app_key path unix = take 16 (w.hmac (w.hkdf app_key) (framed (path ∷ unix ∷ [])))

  -- "expires=" and "&signature=".
  unfoldable pub signed_query : (app_key path unix : Bytes) → Bytes
  signed_query app_key path unix =
      expires_name
      ++ 61 ∷ (unix ++ 38 ∷ (signature_name ++ 61 ∷ w.encode (sign_link app_key path unix)))

  -- `SignedURL`. The path of the absolute link is what URL built.
  unfoldable pub signed_url :
      {E : Type 0}
      → (keys : List Bytes) → (config_url : Bytes) → (expires : ℕ) → Result E Bytes
      → Result (LinkError E) Bytes
  signed_url [] config_url expires path = err no_keys
  signed_url (key ∷ keys) config_url expires path = elim (absolute_url config_url path) [
    | err e ↦ err e
    | ok link ↦
        let built : Bytes = elim path [ err e ↦ [] | ok p ↦ p ] in
        ok (link ++ 63 ∷ signed_query key built (itoa expires))
  ]

  -- The one value of a name in a query, none for none and for several.
  unfoldable pub one_value : (name : Bytes) → List (Bytes × List Bytes) → Option Bytes
  one_value name q = elim (lookup name q) [
    | none ↦ none
    | some values ↦ elim values [ [] ↦ none | v ∷ vs ↦ elim vs [ [] ↦ some v | v' ∷ vs' ↦ none ] ]
  ]

  -- `!time.Now().Before(time.Unix(expires, 0))`, and not.
  unfoldable pub in_time : (now : ℕ) → ℤ → Bool
  in_time now (pos unix) = ltb now unix
  in_time now (negsuc n) = false

  -- The loop of `checkSigned`.
  unfoldable pub check_keys :
      List Bytes → (now : ℕ) → (path unix : Bytes) → ℤ → (sig : Bytes) → Checked
  check_keys [] now path unix expires sig = link_invalid
  check_keys (key ∷ keys) now path unix expires sig =
      let rest = check_keys keys now path unix expires sig in
      if str_eq sig (sign_link key path unix)
      then if not (in_time now expires) then link_expired else good
      else rest

  unfoldable pub check_values : List Bytes → (now : ℕ) → (path unix signature : Bytes) → Checked
  check_values keys now path unix signature = elim (w.parse_int unix) [
    | none ↦ link_invalid
    | some expires ↦ elim (w.decode signature) [
      | none ↦ link_invalid
      | some sig ↦ check_keys keys now path unix expires sig
    ]
  ]

  unfoldable pub check_query :
      List Bytes → (now : ℕ) → (path : Bytes) → List (Bytes × List Bytes) → Checked
  check_query keys now path q =
      if not (length q == 2) then link_invalid else elim (one_value expires_name q) [
        | none ↦ link_invalid
        | some unix ↦ elim (one_value signature_name q) [
          | none ↦ link_invalid
          | some signature ↦ check_values keys now path unix signature
        ]
      ]

  -- `checkSigned`.
  unfoldable pub check_signed : (keys : List Bytes) → (now : ℕ) → (path raw_query : Bytes) → Checked
  check_signed [] now path raw_query = has_no_keys
  check_signed (key ∷ keys) now path raw_query = elim (w.parse_query raw_query) [
    | none ↦ link_invalid
    | some q ↦ check_query (key ∷ keys) now path q
  ]
