-- ===== src/Ulid/Sorted.antt =====
-- The order of the IDs that a Maker makes (internal/ulid/ulid.go).
use tug.Common.{
  ℕ, List, [], ◌∷◌, Bool, false, Bytes, ◌==◌, ◌+◌, ◌*◌, ◌%◌, ◌^◌, ◌<◌, ◌≡◌, sym, ap, ◌∙◌, subst,
  arith, inl,
}
use tug.Ulid.{Maker, advance, id_of, next}
use tug.Ulid.Digits.{Before, digits_of, put_digits-digits_of, digits_of-Before, numbers}

-- The widths of a Maker's numbers: a millisecond until the year 10889.
pub record Fits (u : Maker) : Type 0 where
  pub ms_fits : u.ms < 2 ^ 48
  pub high_fits : u.high < 2 ^ 16
  pub low_fits : u.low < 2 ^ 64

abbrev pub number_of : Maker → ℕ
number_of u = (u.ms * 2 ^ 16 + u.high) * 2 ^ 64 + u.low

-- A call of Next: its time, and the random bytes.
pub record Call : Type 0 where
  pub ms : ℕ
  pub high : ℕ
  pub low : ℕ

abbrev pub CallFits : Call → Type 0
CallFits c = (c.ms < 2 ^ 48) × (c.high < 2 ^ 16) × (c.low < 2 ^ 64)

-- The 80 bits that count up in one millisecond have run out.
abbrev pub is_full : Maker → Bool
is_full u = (u.high * 2 ^ 64 + u.low + 1) == 2 ^ 80

pub id_of-digits_of : (u : Maker) → Fits u → id_of u ≡ digits_of 26 (number_of u) []
unfolding id_of
id_of-digits_of u f =
    let m = f.ms_fits in
    let h = f.high_fits in
    let same : u.ms * 2 ^ 16 % 2 ^ 64 + u.high ≡ u.ms * 2 ^ 16 + u.high = omega arith in
    put_digits-digits_of 26 _ u.low [] f.low_fits
    ∙ ap (λ hi. digits_of 26 (hi * 2 ^ 64 + u.low) []) same

pub advance-Fits : (u : Maker) (c : Call) → Fits u → CallFits c → Fits (advance u c.ms c.high c.low)
unfolding advance
advance-Fits u c f (m, h, l) =
    let m' = f.ms_fits in
    let h' = f.high_fits in
    let l' = f.low_fits in
    record { ms_fits = ground arith; high_fits = ground arith; low_fits = ground arith }

advance-less :
    (u : Maker) (c : Call)
    → Fits u
    → CallFits c
    → is_full u ≡ false
    → number_of u < number_of (advance u c.ms c.high c.low)
unfolding advance
advance-less u c f (m, h, l) n =
    let m' = f.ms_fits in let h' = f.high_fits in let l' = f.low_fits in ground arith

-- The IDs that calls of Next return, one call after the other.
unfoldable pub ids : Maker → List Call → List Bytes
ids u [] = []
ids u (c ∷ calls) = (next u c.ms c.high c.low).1 ∷ ids (next u c.ms c.high c.low).0 calls

-- The calls' numbers have their widths, and no call finds the 80 bits of a millisecond used up.
abbrev pub CallsFit : Maker → List Call → Type 0
CallsFit u [] = Unit
CallsFit u (c ∷ calls) =
    CallFits c × (is_full u ≡ false) × CallsFit (advance u c.ms c.high c.low) calls

-- Each ID comes before the next.
abbrev pub Sorted : Bytes → List Bytes → Type 0
Sorted last [] = Unit
Sorted last (id ∷ ids) = Before last id × Sorted id ids

id_of-Before :
    (u v : Maker) → Fits u → Fits v → number_of u < number_of v → Before (id_of u) (id_of v)
id_of-Before u v f g less =
    let m = g.ms_fits in
    let h = g.high_fits in
    let l = g.low_fits in
    let fits : number_of v < numbers 26 = omega arith in
    let before = digits_of-Before 26 (number_of u) (number_of v) [] [] fits (inl less) in
    subst (λ b. Before (id_of u) b) (sym (id_of-digits_of v g))
      (subst (λ a. Before a (digits_of 26 (number_of v) [])) (sym (id_of-digits_of u f)) before)

-- The IDs that one Maker makes sort as they were made, each strictly before the next, whatever the clock reads, back in time and in
-- the same millisecond too, while milliseconds have 48 bits and the 80 bits that count in one do not run out.
pub ids-Sorted :
    (calls : List Call) (u : Maker) → Fits u → CallsFit u calls → Sorted (id_of u) (ids u calls)
unfolding ids next
ids-Sorted [] u f c = tt
ids-Sorted (c ∷ calls) u f (fits, room, rest) =
    let f' = advance-Fits u c f fits in
    (
      id_of-Before u (advance u c.ms c.high c.low) f f' (advance-less u c f fits room),
      ids-Sorted calls (advance u c.ms c.high c.low) f' rest,
    )
