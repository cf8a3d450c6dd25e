-- ===== src/Ulid.antt =====
-- IDs that sort as they were made (internal/ulid/ulid.go). A time is in milliseconds since 1970, and the ten random bytes are
-- two numbers.
pub mod Digits
pub mod Sorted
pub mod Valid
mod Tests
use tug.Common.{
  ℕ, zero, suc, List, [], ◌∷◌, Bool, true, false, ◌&&◌, ◌||◌, Option, none, some, Bytes, ltb, leb,
  ◌==◌, any, length, get_elem?, if◌then◌else◌, ◌+◌, ◌*◌, ◌/◌, ◌%◌, ◌^◌,
}

abbrev pub crockford : Bytes
crockford =
    b'0' ∷ b'1' ∷ b'2' ∷ b'3' ∷ b'4' ∷ b'5' ∷ b'6' ∷ b'7' ∷ b'8' ∷ b'9' ∷ b'A' ∷ b'B' ∷ b'C' ∷ b'D'
    ∷ b'E' ∷ b'F' ∷ b'G' ∷ b'H' ∷ b'J' ∷ b'K' ∷ b'M' ∷ b'N' ∷ b'P' ∷ b'Q' ∷ b'R' ∷ b'S' ∷ b'T'
    ∷ b'V' ∷ b'W' ∷ b'X' ∷ b'Y' ∷ b'Z' ∷ []

pub record Maker : Type 0 where
  pub ms : ℕ
  pub high : ℕ
  pub low : ℕ

-- The number that `Next` makes an ID of, from a time and the random bytes, if it takes them.
unfoldable pub advance : Maker → (ms high low : ℕ) → Maker
advance u ms high low =
    if leb ms u.ms
    then record {
      ms = u.ms;
      high = if (u.low + 1) % 2 ^ 64 == 0 then (u.high + 1) % 2 ^ 16 else u.high;
      low = (u.low + 1) % 2 ^ 64;
    }
    else record { ms = ms; high = high; low = low }

-- `crockford[n]`, of a number below 32.
unfoldable pub digit : ℕ → ℕ
digit n = elim (get_elem? crockford n) [ none ↦ 0 | some c ↦ c ]

-- The loop of `Next`, from the last digit, before those that there are; `hi<<59` is kept to 64 bits.
unfoldable pub put_digits : (rounds hi lo : ℕ) → Bytes → Bytes
put_digits zero hi lo id = id
put_digits (suc rounds) hi lo id =
    put_digits rounds (hi / 32) (lo / 32 + hi * 2 ^ 59 % 2 ^ 64) (digit (lo % 32) ∷ id)

-- The ID of a Maker's number: `u.ms<<16|uint64(u.high)` and `u.low`.
unfoldable pub id_of : Maker → Bytes
id_of u = put_digits 26 (u.ms * 2 ^ 16 % 2 ^ 64 + u.high) u.low []

-- `Next`.
unfoldable pub next : Maker → (ms high low : ℕ) → Maker × Bytes
next u ms high low = let u₁ = advance u ms high low in (u₁, id_of u₁)

-- `Valid`.
unfoldable pub all_crockford : Bytes → Bool
all_crockford [] = true
all_crockford (c ∷ s) = any (λ d. d == c) crockford && all_crockford s

unfoldable pub valid : Bytes → Bool
valid [] = false
valid (c ∷ s) = length (c ∷ s) == 26 && (leb c 55 && all_crockford (c ∷ s))
