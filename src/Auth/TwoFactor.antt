-- ===== src/Auth/TwoFactor.antt =====
-- Two-factor logins (auth/twofactor.go): the codes of an authenticator app, and recovery codes. HMAC-SHA1, the decoding
-- of a secret and ToLower are arguments, and a time is in seconds since 1970.
pub mod Codes
pub mod Recovery
mod Tests
use tug.Common.{
  ℕ, zero, suc, List, [], ◌∷◌, ◌++◌, Bool, true, false, not, ◌&&◌, ◌||◌, Option, none, some, Bytes,
  str_eq, ltb, leb, ◌==◌, if◌then◌else◌, length, ◌+◌, ◌-◌, ◌*◌, ◌/◌, ◌%◌, ◌^◌,
}

-- `binary.BigEndian.PutUint64`.
abbrev pub put_uint64 : ℕ → Bytes
put_uint64 n =
    n / 2 ^ 56 % 256
    ∷ n / 2 ^ 48 % 256
    ∷ n / 2 ^ 40 % 256
    ∷ n / 2 ^ 32 % 256
    ∷ n / 2 ^ 24 % 256
    ∷ n / 2 ^ 16 % 256
    ∷ n / 2 ^ 8 % 256
    ∷ n % 256
    ∷ []

-- `binary.BigEndian.Uint32`; the code has 4 bytes at least, a SHA-1 being of 20.
abbrev pub uint32 : Bytes → ℕ
uint32 (a ∷ b ∷ c ∷ d ∷ _) = ((a * 256 + b) * 256 + c) * 256 + d
uint32 _ = 0

abbrev pub last_byte : Bytes → ℕ
last_byte [] = 0
last_byte (c ∷ []) = c
last_byte (c ∷ d ∷ s) = last_byte (d ∷ s)

abbrev pub from_byte : ℕ → Bytes → Bytes
from_byte zero s = s
from_byte (suc n) [] = []
from_byte (suc n) (c ∷ s) = from_byte n s

-- `%06d`, of a number below a million.
unfoldable pub six_digits : ℕ → Bytes
six_digits n =
    (48 + n / 100000 % 10)
    ∷ (48 + n / 10000 % 10)
    ∷ (48 + n / 1000 % 10)
    ∷ (48 + n / 100 % 10)
    ∷ (48 + n / 10 % 10)
    ∷ (48 + n % 10)
    ∷ []

-- The code without its spaces.
unfoldable pub without_spaces : Bytes → Bytes
without_spaces [] = []
without_spaces (c ∷ s) = if c == 32 then without_spaces s else c ∷ without_spaces s

module _ (hmac : (key message : Bytes) → Bytes) where
  unfoldable pub totp : (key : Bytes) → (step : ℕ) → Bytes
  totp key step =
      let sum = hmac key (put_uint64 step) in
      six_digits (uint32 (from_byte (last_byte sum % 16) sum) % 2 ^ 31 % 1000000)

  abbrev pub works : (key code : Bytes) → (after step : ℕ) → Bool
  works key code after step = ltb after step && str_eq (totp key step) code

  -- The loop of `Check`. The step before the first is -1, which is after none.
  unfoldable pub find_step : (key code : Bytes) → (after now : ℕ) → Option ℕ
  find_step key code after now =
      if ltb 0 now && works key code after (now - 1)
      then some (now - 1)
      else if works key code after now
      then some now
      else if works key code after (now + 1)
      then some (now + 1)
      else none

  module _ (decode : (secret : Bytes) → Option Bytes) where
    -- `Check`, at a time: the step, where the code works.
    unfoldable pub check : (secret code : Bytes) → (after time : ℕ) → Option ℕ
    check secret code after time = elim (decode secret) [
      | none ↦ none
      | some key ↦
          if str_eq key [] || not (length (without_spaces code) == 6)
          then none
          else find_step key (without_spaces code) after (time / 30)
    ]

    -- `Code`.
    unfoldable pub code : (secret : Bytes) → (time : ℕ) → Option Bytes
    code secret time = elim (decode secret) [
      | none ↦ none
      | some key ↦ if str_eq key [] then none else some (totp key (time / 30))
    ]

module _ (lower : Bytes → Bytes) where
  unfoldable pub without_dashes : Bytes → Bytes
  without_dashes [] = []
  without_dashes (c ∷ s) = if c == 45 || c == 32 then without_dashes s else c ∷ without_dashes s

  -- `plainCode`.
  abbrev pub plain_code : Bytes → Bytes
  plain_code c = lower (without_dashes c)

  -- The codes without the first that reads as another, none if there is none.
  unfoldable pub used : (want : Bytes) → List Bytes → Option (List Bytes)
  used want [] = none
  used want (c ∷ codes) =
      let rest = used want codes in
      if str_eq (plain_code c) want
      then some codes
      else elim rest [ none ↦ none | some left ↦ some (c ∷ left) ]

  -- `UseRecoveryCode`.
  unfoldable pub use_recovery_code : List Bytes → (code : Bytes) → List Bytes × Bool
  use_recovery_code codes code =
      if str_eq (plain_code code) []
      then (codes, false)
      else elim (used (plain_code code) codes) [ none ↦ (codes, false) | some left ↦ (left, true) ]
