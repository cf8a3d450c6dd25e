-- ===== src/Seal.antt =====
-- Values sealed with an app's keys (internal/seal/seal.go). AES-256-GCM, HKDF, base64 and the random nonce, of 12 bytes, are arguments.
pub mod Rotates
mod Tests
use tug.Common.{
  ℕ, zero, suc, List, [], ◌∷◌, ◌++◌, Bool, true, false, not, Option, none, some, Bytes, ltb, ◌==◌,
  length, take, drop, if◌then◌else◌, ◌+◌, Result, ok, err,
}

-- What the code calls: a cipher's Seal and Open, with a derived key, a nonce and what the value is bound to.
pub record Cipher : Type 0 where
  pub hkdf : (key info : Bytes) → Bytes
  pub seal_by : (key nonce value ad : Bytes) → Bytes
  pub open_by : (key nonce sealed ad : Bytes) → Option Bytes
  pub encode : Bytes → Bytes
  pub decode : Bytes → Option Bytes

pub data NewError : Type 0 where
  no_keys : NewError
  bad_key : ℕ → NewError

-- A `Box`: the derived key of each cipher.
abbrev pub Box : Type 0
Box = List Bytes

abbrev pub nonce_bytes : ℕ
nonce_bytes = 12

module _ (c : Cipher) where
  -- The loop of `New`.
  unfoldable pub derived : (info : Bytes) → List Bytes → Result NewError Box
  derived info [] = ok []
  derived info (key ∷ keys) =
      if not (length key == 32)
      then err (bad_key (length key))
      else elim (derived info keys) [ err e ↦ err e | ok box ↦ ok (c.hkdf key info ∷ box) ]

  -- `New`.
  unfoldable pub new_box : (keys : List Bytes) → (info : Bytes) → Result NewError Box
  new_box [] info = err no_keys
  new_box (key ∷ keys) info = derived info (key ∷ keys)

  -- `Box.Seal`, with a nonce; none is a panic, which New's boxes never come to.
  unfoldable pub box_seal : Box → (nonce value ad : Bytes) → Option Bytes
  box_seal [] nonce value ad = none
  box_seal (key ∷ box) nonce value ad = some (c.encode (nonce ++ c.seal_by key nonce value ad))

  -- The loop of `Box.Open`: the value, and the place of the cipher that opened it.
  unfoldable pub open_raw : Box → (raw ad : Bytes) → Option (Bytes × ℕ)
  open_raw [] raw ad = none
  open_raw (key ∷ box) raw ad =
      let rest = open_raw box raw ad in
      if ltb (length raw) nonce_bytes
      then none
      else elim (c.open_by key (take nonce_bytes raw) (drop nonce_bytes raw) ad) [
        | some value ↦ some (value, 0)
        | none ↦ elim rest [ none ↦ none | some found ↦ some (found.0, found.1 + 1) ]
      ]

  -- `Box.Open`, none for ErrOpen.
  unfoldable pub box_open : Box → (sealed ad : Bytes) → Option (Bytes × ℕ)
  box_open box sealed ad = elim (c.decode sealed) [ none ↦ none | some raw ↦ open_raw box raw ad ]
