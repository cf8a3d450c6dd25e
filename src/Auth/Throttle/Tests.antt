-- ===== src/Auth/Throttle/Tests.antt =====
-- Runs of a throttle (auth/throttle.go) with a limit of 2, and the theorems at them. In place of SHA-256
-- stands the function that returns what it is given.
use tug.Common.{◌≡◌, refl, suc, min, arith, List, [], ◌∷◌, Bytes, str_eq, lookup, only_if}
use tug.Common.Int.{pos}
use tug.Auth.Throttle.{
  Throttle, MemoryThrottles, empty, limit, window, or_default, hash, wait, try_key, Op, does_try,
  clears,
}
use tug.Auth.Throttle.Counts.{wait_foretells, lets_in-limit, lets_in, tries_made}

abbrev twice : Throttle
twice = record { name = 116 ∷ []; max_tries = pos 2; window_time = pos 60 }

abbrev as_is : Bytes → Bytes
as_is b = b

abbrev key : Bytes
key = 107 ∷ []

abbrev once_tried : MemoryThrottles
once_tried = (try_key as_is twice empty key 5).0

wait_foretells_example :
    wait as_is twice once_tried key 6 ≡ (try_key as_is twice once_tried key 6).1
wait_foretells_example = wait_foretells as_is twice once_tried key 6

-- Three tries after the first, one of another key.
abbrev more : List Op
more = does_try key 6 ∷ does_try (108 ∷ []) 7 ∷ does_try key 8 ∷ clears (108 ∷ []) ∷ []

lets_in-limit_example :
    lets_in as_is twice key empty (does_try key 5 ∷ more)
    ≡ min (suc (tries_made as_is twice key more)) (limit twice)
unfolding hash lookup only_if str_eq window or_default
lets_in-limit_example =
    lets_in-limit as_is twice key empty 5 more tt refl
      (omega arith, (omega arith, (omega arith, (refl, tt))))
