-- ===== src/Ulid/Tests.antt =====
-- A Maker's IDs: two in one millisecond, one as the clock goes back, and one later (internal/ulid/ulid.go).
use tug.Common.{ℕ, List, [], ◌∷◌, refl, arith}
use tug.Ulid.{Maker, advance, id_of}
use tug.Ulid.Sorted.{Call, Sorted, ids, ids-Sorted}

abbrev start : Maker
start = record { ms = 0; high = 0; low = 0 }

abbrev call : ℕ → Call
call ms = record { ms = ms; high = 5; low = 18446744073709551615 }

abbrev calls : List Call
calls = call 900 ∷ call 900 ∷ call 800 ∷ call 901 ∷ []

ids-Sorted_example : Sorted (id_of start) (ids start calls)
unfolding advance
ids-Sorted_example =
    ids-Sorted calls start
      (record { ms_fits = omega arith; high_fits = omega arith; low_fits = omega arith })
      (
        (omega arith, omega arith, omega arith),
        refl,
        (
          (omega arith, omega arith, omega arith),
          refl,
          (
            (omega arith, omega arith, omega arith),
            refl,
            ((omega arith, omega arith, omega arith), refl, tt),
          ),
        ),
      )
