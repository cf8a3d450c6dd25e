-- ===== src/Seal/Tests.antt =====
-- A box whose keys were rotated, with a cipher that marks a value by the length of its key (internal/seal/seal.go).
use tug.Common.{
  [], ◌∷◌, ◌++◌, true, Option, none, some, Bytes, ◌==◌, length, if◌then◌else◌, ◌≡◌, refl, arith,
}
use tug.Seal.{Cipher, box_seal, box_open}
use tug.Seal.Rotates.{Reads, box_open-box_seal}

unfoldable unmark : (key nonce sealed ad : Bytes) → Option Bytes
unmark key nonce [] ad = none
unmark key nonce (n ∷ value) ad = if n == length key then some value else none

abbrev cipher : Cipher
cipher = record {
  hkdf = λ key info. key;
  seal_by = λ key nonce value ad. length key ∷ value;
  open_by = unmark;
  encode = λ b. b;
  decode = λ b. some b;
}

cipher-Reads : Reads cipher
unfolding unmark
cipher-Reads = record {
  decodes = λ b. refl;
  opens =
      λ key nonce value ad. let is : (length key == length key) ≡ true = ground arith in rw is refl;
}

abbrev nonce : Bytes
nonce = 1 ∷ 2 ∷ 3 ∷ 4 ∷ 5 ∷ 6 ∷ 7 ∷ 8 ∷ 9 ∷ 10 ∷ 11 ∷ 12 ∷ []

abbrev sealed : Bytes
sealed = nonce ++ 2 ∷ 40 ∷ []

box_open-box_seal_example :
    box_open cipher ((5 ∷ []) ∷ (6 ∷ 6 ∷ []) ∷ []) sealed [] ≡ some (40 ∷ [], 1)
unfolding box_seal unmark
box_open-box_seal_example =
    box_open-box_seal cipher cipher-Reads ((5 ∷ []) ∷ []) [] [] (6 ∷ 6 ∷ []) nonce (40 ∷ []) []
      sealed refl (refl, tt) refl
