-- ===== src/Auth/Tokens.antt =====
-- The tokens of links in mail (auth/tokens.go). HMAC, its keys for a purpose, base64 and base 36 are arguments, and a time is
-- in seconds since 1970.
pub mod Checks
mod Tests
use tug.Common.{
  ℕ, List, [], ◌∷◌, ◌++◌, Bool, true, false, not, Option, none, some, Bytes, str_eq, ltb, any, cut,
  if◌then◌else◌, ◌+◌, framed, take,
}
use tug.Common.Int.{ℤ, pos, negsuc}

-- What the code calls. A signature is HMAC-SHA256's, whole.
pub record Codec : Type 0 where
  pub format_36 : ℕ → Bytes
  pub parse_36 : Bytes → Option ℤ
  pub encode : Bytes → Bytes
  pub decode : Bytes → Option Bytes
  pub hkdf : (app_key purpose : Bytes) → Bytes
  pub hmac : (key message : Bytes) → Bytes

module _ (c : Codec) where
  -- `tokens.sign`.
  unfoldable pub sign : (purpose app_key expires : Bytes) → (parts : List Bytes) → Bytes
  sign purpose app_key expires parts =
      take 16 (c.hmac (c.hkdf app_key purpose) (framed (expires ∷ parts)))

  -- `tokens.make`, with the first of the keys.
  unfoldable pub make : (purpose first : Bytes) → (now lifetime : ℕ) → (parts : List Bytes) → Bytes
  make purpose first now lifetime parts =
      let expires = c.format_36 (now + lifetime) in
      expires ++ 46 ∷ c.encode (sign purpose first expires parts)

  -- `clock().Unix() < unix`.
  unfoldable pub in_time : (now : ℕ) → ℤ → Bool
  in_time now (pos unix) = ltb now unix
  in_time now (negsuc n) = false

  unfoldable pub is_signed :
      (purpose : Bytes) → (keys : List Bytes) → (expires got : Bytes) → (parts : List Bytes) → Bool
  is_signed purpose keys expires got parts =
      any (λ key. str_eq got (sign purpose key expires parts)) keys

  -- `tokens.check`, of a token that has a dot.
  unfoldable pub check_cut :
      (purpose : Bytes)
      → (keys : List Bytes) → (now : ℕ) → (expires sig : Bytes) → (parts : List Bytes) → Bool
  check_cut purpose keys now expires sig parts = elim (c.parse_36 expires) [
    | none ↦ false
    | some unix ↦ if not (in_time now unix) then false else elim (c.decode sig) [
      | none ↦ false
      | some got ↦ is_signed purpose keys expires got parts
    ]
  ]

  -- `tokens.check`.
  unfoldable pub check :
      (purpose : Bytes)
      → (keys : List Bytes) → (now : ℕ) → (token : Bytes) → (parts : List Bytes) → Bool
  check purpose keys now token parts =
      let (expires, sig, found) = cut 46 token in
      if not found then false else check_cut purpose keys now expires sig parts
