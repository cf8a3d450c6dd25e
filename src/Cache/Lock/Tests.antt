-- ===== src/Cache/Lock/Tests.antt =====
-- Runs of locks (cache/lock.go) on an empty memory store, and the theorems at them.
use tug.Common.{ℕ, ◌≡◌, refl, arith, [], ◌∷◌, false, lookup}
use tug.Cache.Memory.{MemoryStore, empty, saw, sweep, set, found, add, gets}
use tug.Cache.Lock.{Lock, try_lock, Round}
use tug.Cache.Lock.Exclusion.{IsHeld, try_lock-IsHeld, lock_exclusive}
use tug.Cache.Memory.{run}

abbrev mine : Lock
mine = record { key = 1 ∷ []; ttl = 10; owner = 7 ∷ [] }

abbrev theirs : Lock
theirs = record { key = 1 ∷ []; ttl = 10; owner = 8 ∷ [] }

abbrev locked : MemoryStore
locked = (try_lock empty mine 5).0

locked-IsHeld : IsHeld (1 ∷ []) (7 ∷ []) 15 locked
unfolding try_lock add found lookup saw set sweep
locked-IsHeld = try_lock-IsHeld empty locked mine 5 tt (omega arith) (omega arith) refl

lock_exclusive_example : (try_lock (run locked (gets (2 ∷ []) 6 ∷ [])) theirs 14).1 ≡ false
unfolding try_lock add found lookup saw set sweep
lock_exclusive_example =
    lock_exclusive empty locked mine theirs (gets (2 ∷ []) 6 ∷ []) 5 14 tt (omega arith)
      (omega arith) refl (omega arith, tt) refl (omega arith)

abbrev round : ℕ → Round
round clock = record { others = []; clock = clock; is_over = false }
