-- ===== src/Auth/Tokens/Checks.antt =====
-- Which tokens are good (auth/tokens.go).
use tug.Common.{
  ℕ, List, [], ◌∷◌, Bool, true, false, ◌||◌, some, Bytes, str_eq, ltb, any, cut-append,
  if◌then◌else◌, ◌+◌, ◌<◌, ◌^◌, ◌==◌, framed, framed_injective, take, ◌≡◌, ◌≢◌, ◌⊎◌, refl, sym, ◌∙◌,
  Bool-cases, inl, inr, arith, str_eq_iff, str_eq_refl,
}
use tug.Common.Int.{pos}
use tug.Auth.Tokens.{Codec, sign, make, in_time, is_signed, check_cut, check}

-- What base 36 and base64 promise.
pub record Reads (c : Codec) : Type 0 where
  pub parses : (n : ℕ) → n < 2 ^ 63 → c.parse_36 (c.format_36 n) ≡ some (pos n)
  pub without_dot : (n : ℕ) → any (λ x. x == 46) (c.format_36 n) ≡ false
  pub decodes : (b : Bytes) → c.decode (c.encode b) ≡ some b

or_true : (b : Bool) → (b || true) ≡ true
or_true b = ground arith

module _ (c : Codec) (purpose : Bytes) where
  check-make :
      (r : Reads c) (keys : List Bytes) (first : Bytes) (made lifetime now : ℕ)
      (parts parts' : List Bytes)
      → made + lifetime < 2 ^ 63
      → check c purpose keys now (make c purpose first made lifetime parts) parts' ≡ (
          if ltb now (made + lifetime)
          then is_signed c purpose keys
              (c.format_36 (made + lifetime))
              (sign c purpose first (c.format_36 (made + lifetime)) parts)
              parts'
          else false)
  unfolding check check_cut make in_time
  check-make r keys first made lifetime now parts parts' fits =
      let expires = c.format_36 (made + lifetime) in
      let made_sign = sign c purpose first expires parts in
      let is_cut = cut-append 46 expires (c.encode made_sign) (r.without_dot (made + lifetime)) in
      let is : check c purpose keys now (make c purpose first made lifetime parts) parts'
          ≡ check_cut c purpose keys now expires (c.encode made_sign) parts' =
        rw is_cut refl in
      is ∙ elim (Bool-cases (ltb now (made + lifetime))) [
        | inl b ↦
            rw (check_cut, r.parses (made + lifetime) fits, in_time, b, r.decodes made_sign) refl
        | inr b ↦ rw (check_cut, r.parses (made + lifetime) fits, in_time, b) refl
      ]

  is_signed-sign :
      (keys : List Bytes) (first expires : Bytes) (parts : List Bytes)
      → any (λ key. str_eq key first) keys ≡ true
      → is_signed c purpose keys expires (sign c purpose first expires parts) parts ≡ true
  unfolding is_signed
  is_signed-sign [] first expires parts a = let x : false ≡ true = a in cc
  is_signed-sign (k ∷ keys) first expires parts a = elim (Bool-cases (str_eq k first)) [
    | inl b ↦
        let same : k ≡ first = (str_eq_iff k first).0 b in
        rw (same, str_eq_refl (sign c purpose first expires parts)) refl
    | inr b ↦ rw (is_signed-sign keys first expires parts (rw b at a)) (or_true _)
  ]

  -- What base 36 and base64 write is read back, so: a token made with a key that is still one of the keys is good for the parts that it
  -- was made for until the time that it expires, and not from then on.
  pub check-make_same :
      (r : Reads c) (keys : List Bytes) (first : Bytes) (made lifetime now : ℕ) (parts : List Bytes)
      → made + lifetime < 2 ^ 63
      → any (λ key. str_eq key first) keys ≡ true
      → check c purpose keys now (make c purpose first made lifetime parts) parts
        ≡ ltb now (made + lifetime)
  check-make_same r keys first made lifetime now parts fits a =
      check-make r keys first made lifetime now parts parts fits
      ∙ elim (Bool-cases (ltb now (made + lifetime))) [
        | inl b ↦ rw b (is_signed-sign keys first (c.format_36 (made + lifetime)) parts a)
        | inr b ↦ rw b refl
      ]

  is_signed-message :
      (keys : List Bytes) (expires got : Bytes) (parts : List Bytes)
      → is_signed c purpose keys expires got parts ≡ true
      → (key : Bytes) × (any (λ k. str_eq k key) keys ≡ true)
        × (got ≡ sign c purpose key expires parts)
  unfolding is_signed
  is_signed-message [] expires got parts a = let x : false ≡ true = a in cc
  is_signed-message (k ∷ keys) expires got parts a =
      elim (Bool-cases (str_eq got (sign c purpose k expires parts))) [
        | inl b ↦ (k, rw (str_eq_refl k) refl, (str_eq_iff _ _).0 b)
        | inr b ↦
            let (key, is_key, same) = is_signed-message keys expires got parts (rw b at a) in
            (key, rw is_key (or_true _), same)
      ]

  -- A token that was made for some parts is good for those parts alone, neither for others nor for the same text parted
  -- otherwise; or else one of the keys gives another text than the token's the same first 16 bytes of an HMAC.
  pub check-make_other :
      (r : Reads c) (keys : List Bytes) (first : Bytes) (made lifetime now : ℕ)
      (parts parts' : List Bytes)
      → made + lifetime < 2 ^ 63
      → check c purpose keys now (make c purpose first made lifetime parts) parts' ≡ true
      → (parts ≡ parts')
        ⊎ ((key text : Bytes) × (any (λ k. str_eq k key) keys ≡ true)
            × (framed (c.format_36 (made + lifetime) ∷ parts) ≢ text)
            × (take 16
                  (c.hmac (c.hkdf first purpose) (framed (c.format_36 (made + lifetime) ∷ parts)))
                ≡ take 16 (c.hmac (c.hkdf key purpose) text)))
  unfolding sign
  check-make_other r keys first made lifetime now parts parts' fits good =
      let expires = c.format_36 (made + lifetime) in
      let is = sym (check-make r keys first made lifetime now parts parts' fits) ∙ good in
      elim (Bool-cases (ltb now (made + lifetime))) [
        | inr b ↦ let x : false ≡ true = rw b at is in cc
        | inl b ↦
            let (key, is_key, same) =
              is_signed-message keys expires (sign c purpose first expires parts) parts'
                (rw b at is) in
            elim (Bool-cases (str_eq (framed (expires ∷ parts)) (framed (expires ∷ parts')))) [
              | inl e ↦
                  let texts : expires ∷ parts ≡ expires ∷ parts' =
                    framed_injective (expires ∷ parts) (expires ∷ parts') ((str_eq_iff _ _).0 e) in
                  inl cc
              | inr e ↦ inr (
                key,
                framed (expires ∷ parts'),
                is_key,
                (λ (x : framed (expires ∷ parts) ≡ framed (expires ∷ parts')).
                    let y = (str_eq_iff _ _).1 x in let z : false ≡ true = sym e ∙ y in cc),
                same,
              )
            ]
      ]
