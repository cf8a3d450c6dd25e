-- ===== src/Auth/TwoFactor/Recovery.antt =====
-- Recovery codes (auth/twofactor.go).
use tug.Common.{List, [], ◌∷◌, Bool, false, Bytes, str_eq, any, ◌≡◌}
use tug.Auth.TwoFactor.{plain_code}

module _ (lower : Bytes → Bytes) where
  -- Whether one of the codes reads so, as it is compared.
  abbrev pub reads : (plain : Bytes) → List Bytes → Bool
  reads plain codes = any (λ c. str_eq (plain_code lower c) plain) codes

  -- No two codes read the same.
  abbrev pub Different : List Bytes → Type 0
  Different [] = Unit
  Different (c ∷ codes) = (reads (plain_code lower c) codes ≡ false) × Different codes
