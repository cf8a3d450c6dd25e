-- ===== src/Links/Signed.antt =====
-- Which signed links are good (links.go).
use tug.Common.{
  ℕ, List, [], ◌∷◌, ◌++◌, Bool, true, false, ◌||◌, none, some, take, framed, Bytes, str_eq, ltb,
  ◌==◌, any, lookup, length, if◌then◌else◌, itoa, ok, ◌≡◌, refl, sym, ap, ◌∙◌, subst, Bool-cases,
  Option-cases, inl, inr, arith, str_eq_iff, str_eq_refl, ◌<◌, ◌^◌,
}
use tug.Common.Int.{ℤ, pos, negsuc}
use tug.Links.{
  Web, expires_name, signature_name, absolute_url, good, has_no_keys, link_invalid, link_expired,
  sign_link, signed_query, signed_url, one_value, in_time, check_keys, check_values, check_query,
  check_signed,
}

-- What ParseInt, base64 and net/url promise.
pub record Reads (w : Web) : Type 0 where
  pub parses : (n : ℕ) → n < 2 ^ 63 → w.parse_int (itoa n) ≡ some (pos n)
  pub decodes : (b : Bytes) → w.decode (w.encode b) ≡ some b
  pub queries :
      (n : ℕ) (b : Bytes)
      → w.parse_query (expires_name ++ 61 ∷ (itoa n ++ 38 ∷ (signature_name ++ 61 ∷ w.encode b)))
        ≡ some ((expires_name, itoa n ∷ []) ∷ (signature_name, w.encode b ∷ []) ∷ [])

or_true : (b : Bool) → (b || true) ≡ true
or_true b = ground arith

module _ (w : Web) where
  check_keys-sign_link :
      (keys : List Bytes) (key : Bytes) (now : ℕ) (path unix : Bytes) (expires : ℤ)
      → any (λ k. str_eq k key) keys ≡ true
      → check_keys w keys now path unix expires (sign_link w key path unix)
        ≡ (if in_time w now expires then good else link_expired)
  unfolding check_keys
  check_keys-sign_link [] key now path unix expires a = let x : false ≡ true = a in cc
  check_keys-sign_link (k ∷ keys) key now path unix expires a =
      elim (Bool-cases (str_eq (sign_link w key path unix) (sign_link w k path unix))) [
        | inl s ↦ elim (Bool-cases (in_time w now expires)) [
          | inl t ↦ rw (s, t) refl
          | inr t ↦ rw (s, t) refl
        ]
        | inr s ↦ elim (Bool-cases (str_eq k key)) [
          | inl b ↦
              let same : k ≡ key = (str_eq_iff k key).0 b in
              let x : true ≡ false =
                sym (str_eq_refl (sign_link w key path unix))
                ∙ subst (λ k. str_eq (sign_link w key path unix) (sign_link w k path unix) ≡ false)
                    same s in
              cc
          | inr b ↦ rw s (check_keys-sign_link keys key now path unix expires (rw b at a))
        ]
      ]

  check_query-two :
      (keys : List Bytes) (now : ℕ) (path unix signature : Bytes)
      → check_query w keys now path
          ((expires_name, unix ∷ []) ∷ (signature_name, signature ∷ []) ∷ [])
        ≡ check_values w keys now path unix signature
  unfolding check_query one_value lookup str_eq
  check_query-two keys now path unix signature = refl

  check_signed-parse_query :
      (keys : List Bytes) (first : Bytes) (now : ℕ) (path raw_query : Bytes)
      (q : List (Bytes × List Bytes))
      → w.parse_query raw_query ≡ some q
      → check_signed w (first ∷ keys) now path raw_query ≡ check_query w (first ∷ keys) now path q
  unfolding check_signed
  check_signed-parse_query keys first now path raw_query q e = rw (check_signed, e) refl

  signed_query-check_signed :
      (r : Reads w) (first : Bytes) (keys : List Bytes) (key : Bytes) (expires now : ℕ)
      (path : Bytes)
      → expires < 2 ^ 63
      → any (λ k. str_eq k key) (first ∷ keys) ≡ true
      → check_signed w (first ∷ keys) now path (signed_query w key path (itoa expires))
        ≡ (if ltb now expires then good else link_expired)
  unfolding check_signed check_values signed_query in_time
  signed_query-check_signed r first keys key expires now path fits a =
      let sig = sign_link w key path (itoa expires) in
      let is : check_signed w (first ∷ keys) now path (signed_query w key path (itoa expires))
          ≡ check_query w (first ∷ keys) now path
              ((expires_name, itoa expires ∷ []) ∷ (signature_name, w.encode sig ∷ []) ∷ []) =
        check_signed-parse_query keys first now path _ _ (r.queries expires sig) in
      let read : check_values w (first ∷ keys) now path (itoa expires) (w.encode sig)
          ≡ check_keys w (first ∷ keys) now path (itoa expires) (pos expires) sig =
        rw (check_values, r.parses expires fits, r.decodes sig) refl in
      is
      ∙ (check_query-two (first ∷ keys) now path (itoa expires) (w.encode sig)
          ∙ (read
              ∙ check_keys-sign_link (first ∷ keys) key now path (itoa expires) (pos expires) a))

  -- What net/url, ParseInt and base64 write is read back, so: where Config.URL is set, SignedURL makes the link of the absolute
  -- path with a query after it, and a request for that path with that query is good until the link expires and has expired from then
  -- on, for as long as the key that signed it is one of the app's.
  pub signed_url-check_signed :
      {E : Type 0} (r : Reads w) (old : List Bytes) (key : Bytes) (config_url : Bytes) (expires : ℕ)
      (path : Bytes) (first : Bytes) (keys : List Bytes) (now : ℕ)
      → str_eq config_url [] ≡ false
      → expires < 2 ^ 63
      → any (λ k. str_eq k key) (first ∷ keys) ≡ true
      → (query : Bytes) × (signed_url w {E = E} (key ∷ old) config_url expires (ok path)
          ≡ ok ((config_url ++ path) ++ 63 ∷ query))
        × (check_signed w (first ∷ keys) now path query
            ≡ (if ltb now expires then good else link_expired))
  unfolding signed_url absolute_url
  signed_url-check_signed r old key config_url expires path first keys now set_url fits a = (
    signed_query w key path (itoa expires),
    rw (signed_url, absolute_url, set_url) refl,
    signed_query-check_signed r first keys key expires now path fits a,
  )

  -- A request that is good has the signature of one of the keys, over its own path and expiry, and is in time.
  pub record SignedBy (keys : List Bytes) (now : ℕ) (path unix signature : Bytes) : Type 0 where
    pub key : Bytes
    pub is_key : any (λ k. str_eq k key) keys ≡ true
    pub expires : ℕ
    pub is_expiry : w.parse_int unix ≡ some (pos expires)
    pub is_signature :
        w.decode signature ≡ some (take 16 (w.hmac (w.hkdf key) (framed (path ∷ unix ∷ []))))
    pub is_in_time : now < expires

  in_time-pos :
      (now : ℕ) (expires : ℤ)
      → in_time w now expires ≡ true
      → (n : ℕ) × (expires ≡ pos n) × (now < n)
  unfolding in_time
  in_time-pos now (pos n) t = (n, refl, ground arith)
  in_time-pos now (negsuc n) t = let x : false ≡ true = t in cc

  one_value-lookup :
      (name : Bytes) (q : List (Bytes × List Bytes)) (v : Bytes)
      → one_value w name q ≡ some v
      → lookup name q ≡ some (v ∷ [])
  unfolding one_value
  one_value-lookup name q v e = elim (Option-cases (lookup name q)) [
    | inl n ↦ let x : none ≡ some v = rw (one_value, n) at e in cc
    | inr ([], n) ↦ let x : none ≡ some v = rw (one_value, n) at e in cc
    | inr (u ∷ [], n) ↦
        let x : some u ≡ some v = rw (one_value, n) at e in
        let y : u ≡ v = cc in n ∙ ap (λ z. some (z ∷ [])) y
    | inr (u ∷ u' ∷ us, n) ↦ let x : none ≡ some v = rw (one_value, n) at e in cc
  ]

  check_keys-good :
      (keys : List Bytes) (now : ℕ) (path unix : Bytes) (expires : ℤ) (sig : Bytes)
      → check_keys w keys now path unix expires sig ≡ good
      → (key : Bytes) × (any (λ k. str_eq k key) keys ≡ true)
        × (sig ≡ sign_link w key path unix)
        × (in_time w now expires ≡ true)
  unfolding check_keys
  check_keys-good [] now path unix expires sig e = let x : link_invalid ≡ good = e in cc
  check_keys-good (k ∷ keys) now path unix expires sig e =
      elim (Bool-cases (str_eq sig (sign_link w k path unix))) [
        | inl s ↦ elim (Bool-cases (in_time w now expires)) [
          | inl t ↦ (k, rw (str_eq_refl k) refl, (str_eq_iff _ _).0 s, t)
          | inr t ↦ let x : link_expired ≡ good = rw (s, t) at e in cc
        ]
        | inr s ↦
            let (key, is_key, same, t) =
              check_keys-good keys now path unix expires sig (rw s at e) in
            (key, rw is_key (or_true _), same, t)
      ]

  check_values-SignedBy :
      (keys : List Bytes) (now : ℕ) (path unix signature : Bytes)
      → check_values w keys now path unix signature ≡ good
      → SignedBy keys now path unix signature
  unfolding check_values sign_link
  check_values-SignedBy keys now path unix signature e = elim (Option-cases (w.parse_int unix)) [
    | inl n ↦ let x : link_invalid ≡ good = rw (check_values, n) at e in cc
    | inr (expires, n) ↦ elim (Option-cases (w.decode signature)) [
      | inl d ↦ let x : link_invalid ≡ good = rw (check_values, n, d) at e in cc
      | inr (sig, d) ↦
          let (key, is_key, same, t) =
            check_keys-good keys now path unix expires sig (rw (check_values, n, d) at e) in
          let (at, is_pos, soon) = in_time-pos now expires t in
          record {
            key = key;
            is_key = is_key;
            expires = at;
            is_expiry = n ∙ ap some is_pos;
            is_signature = d ∙ ap some same;
            is_in_time = soon;
          }
    ]
  ]

  -- A request whose check is good has two names in its query: one expiry, a number of seconds that is after now, and one signature, the
  -- first 16 bytes of the HMAC by a key of the app's of the request's path and that expiry, with their lengths.
  pub check_signed-SignedBy :
      (keys : List Bytes) (now : ℕ) (path raw_query : Bytes)
      → check_signed w keys now path raw_query ≡ good
      → (q : List (Bytes × List Bytes)) × (unix : Bytes) × (signature : Bytes) × (w.parse_query
            raw_query
          ≡ some q)
        × ((length q == 2) ≡ true)
        × (lookup expires_name q ≡ some (unix ∷ []))
        × (lookup signature_name q ≡ some (signature ∷ []))
        × SignedBy keys now path unix signature
  unfolding check_signed check_query check_values
  check_signed-SignedBy [] now path raw_query e = let x : has_no_keys ≡ good = e in cc
  check_signed-SignedBy (k ∷ keys) now path raw_query e =
      elim (Option-cases (w.parse_query raw_query)) [
        | inl n ↦ let x : link_invalid ≡ good = rw (check_signed, n) at e in cc
        | inr (q, n) ↦
            let f = sym (check_signed-parse_query keys k now path raw_query q n) ∙ e in
            elim (Bool-cases (length q == 2)) [
              | inr b ↦ let x : link_invalid ≡ good = rw (check_query, b) at f in cc
              | inl b ↦ elim (Option-cases (one_value w expires_name q)) [
                | inl u ↦ let x : link_invalid ≡ good = rw (check_query, b, u) at f in cc
                | inr (unix, u) ↦ elim (Option-cases (one_value w signature_name q)) [
                  | inl v ↦ let x : link_invalid ≡ good = rw (check_query, b, u, v) at f in cc
                  | inr (signature, v) ↦ (
                    q,
                    unix,
                    signature,
                    n,
                    b,
                    one_value-lookup expires_name q unix u,
                    one_value-lookup signature_name q signature v,
                    check_values-SignedBy (k ∷ keys) now path unix signature
                        (rw (check_query, b, u, v) at f),
                  )
                ]
              ]
            ]
      ]
