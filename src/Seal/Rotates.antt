-- ===== src/Seal/Rotates.antt =====
-- What a box opens once its keys have been rotated (internal/seal/seal.go).
use tug.Common.{
  suc, List, [], ◌∷◌, ◌++◌, false, none, some, Bytes, ltb, length, length-append, take, drop, ◌+◌,
  ◌≡◌, refl, ap, subst, arith, All, ◌≤◌,
}
use tug.Seal.{Cipher, Box, nonce_bytes, box_seal, open_raw, box_open}

-- What base64 and the cipher promise: a key opens what it sealed.
pub record Reads (c : Cipher) : Type 0 where
  pub decodes : (b : Bytes) → c.decode (c.encode b) ≡ some b
  pub opens :
      (key nonce value ad : Bytes)
      → c.open_by key nonce (c.seal_by key nonce value ad) ad ≡ some value

take-append : (a b : Bytes) → take (length a) (a ++ b) ≡ a
take-append [] b = refl
take-append (x ∷ a) b = ap (λ s. x ∷ s) (take-append a b)

drop-append : (a b : Bytes) → drop (length a) (a ++ b) ≡ b
drop-append [] b = refl
drop-append (x ∷ a) b = drop-append a b

module _ (c : Cipher) where
  -- No key of some opens a value that another sealed.
  abbrev pub Closed : List Bytes → (key nonce value ad : Bytes) → Type 0
  Closed keys key nonce value ad =
      All (λ (k : Bytes). c.open_by k nonce (c.seal_by key nonce value ad) ad ≡ none) keys

  open_raw-sealed :
      (r : Reads c) (newer older : Box) (key nonce value ad : Bytes)
      → length nonce ≡ 12
      → Closed newer key nonce value ad
      → open_raw c (newer ++ key ∷ older) (nonce ++ c.seal_by key nonce value ad) ad
        ≡ some (value, length newer)
  unfolding open_raw
  open_raw-sealed r newer older key nonce value ad size closed =
      let sealed = c.seal_by key nonce value ad in
      let long : ltb (length (nonce ++ sealed)) nonce_bytes ≡ false =
        let all = length-append nonce sealed in
        let l : 12 ≤ length (nonce ++ sealed) = omega arith in ground arith in
      let front : take nonce_bytes (nonce ++ sealed) ≡ nonce =
        subst (λ n. take n (nonce ++ sealed) ≡ nonce) size (take-append nonce sealed) in
      let back : drop nonce_bytes (nonce ++ sealed) ≡ sealed =
        subst (λ n. drop n (nonce ++ sealed) ≡ sealed) size (drop-append nonce sealed) in
      go newer long front back closed
    where
      go :
          (box : Box)
          → ltb (length (nonce ++ c.seal_by key nonce value ad)) nonce_bytes ≡ false
          → take nonce_bytes (nonce ++ c.seal_by key nonce value ad) ≡ nonce
          → drop nonce_bytes (nonce ++ c.seal_by key nonce value ad) ≡ c.seal_by key nonce value ad
          → Closed box key nonce value ad
          → open_raw c (box ++ key ∷ older) (nonce ++ c.seal_by key nonce value ad) ad
            ≡ some (value, length box)
      go [] long front back closed = rw (long, front, back, r.opens key nonce value ad) refl
      go (k ∷ box) long front back (here, closed) =
          rw (long, front, back, here, go box long front back closed)
            (let is : length box + 1 ≡ suc (length box) = omega arith in rw is refl)

  -- What base64 writes is read back, and a key opens what it sealed, so: what a box seals, with a nonce of 12 bytes, a box opens that
  -- has the first key of the other among its keys, with the same value bound to it, where no key before that opens it too; and
  -- it returns the place of that key, which is not 0 once the keys have been rotated.
  pub box_open-box_seal :
      (r : Reads c) (newer older old : Box) (key nonce value ad sealed : Bytes)
      → length nonce ≡ 12
      → Closed newer key nonce value ad
      → box_seal c (key ∷ old) nonce value ad ≡ some sealed
      → box_open c (newer ++ key ∷ older) sealed ad ≡ some (value, length newer)
  unfolding box_seal box_open
  box_open-box_seal r newer older old key nonce value ad sealed size closed e =
      let is : c.encode (nonce ++ c.seal_by key nonce value ad) ≡ sealed = cc in
      let read : c.decode sealed ≡ some (nonce ++ c.seal_by key nonce value ad) =
        subst (λ s. c.decode s ≡ some (nonce ++ c.seal_by key nonce value ad)) is (r.decodes _) in
      rw (box_open, read) (open_raw-sealed r newer older key nonce value ad size closed)
