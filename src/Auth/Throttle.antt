-- ===== src/Auth/Throttle.antt =====
-- Throttles that count in their own memory (auth/throttle.go). Each method of the memory runs under its
-- mutex, so it is one function from the counts before to the counts after; none returns an error.
-- SHA-256 is the argument `sha256`.
pub mod Counts
mod Tests
use tug.Common.{
  ℕ, suc, ◌+◌, ◌-◌, ◌*◌, max, List, [], ◌∷◌, ◌++◌, Bool, true, false, not, ◌||◌, Option, none, some,
  Bytes, lookup, insert, erase, keep_values, ltb, leb, ◌==◌, if◌then◌else◌, length,
}
use tug.Common.Int.{ℤ, pos, negsuc}

-- `max` and `window`, which are times in nanoseconds and may be negative, as they are configured.
pub record Throttle : Type 0 where
  pub name : Bytes
  pub max_tries : ℤ
  pub window_time : ℤ

pub record Tries : Type 0 where
  pub count : ℕ
  pub until : ℕ

pub record MemoryThrottles : Type 0 where
  pub keys : List (Bytes × Tries)
  pub sweep_at : ℕ

abbrev pub empty : MemoryThrottles
empty = record { keys = []; sweep_at = 0 }

-- What is set, if it is more than 0, or else the default.
unfoldable pub or_default : ℕ → ℤ → ℕ
or_default d (pos n) = if n == 0 then d else n
or_default d (negsuc _) = d

unfoldable pub limit : Throttle → ℕ
limit t = or_default 5 t.max_tries

unfoldable pub window : Throttle → ℕ
window t = or_default 60000000000 t.window_time

unfoldable pub hash : (sha256 : Bytes → Bytes) → Throttle → Bytes → Bytes
hash sha256 t key = sha256 (t.name ++ 0 ∷ key)

abbrev pub lasts : ℕ → Tries → Bool
lasts now k = ltb now k.until

unfoldable pub sweep : MemoryThrottles → ℕ → MemoryThrottles
sweep m now =
    if ltb (length m.keys) (max m.sweep_at 1024)
    then m
    else let left : List (Bytes × Tries) = keep_values (lasts now) m.keys in
      record { keys = left; sweep_at = 2 * length left }

-- `k.count++`, where `k` points to the map's own entry, if the map still has it.
unfoldable pub bump : Bytes → MemoryThrottles → Option Tries → MemoryThrottles
bump key m none = m
bump key m (some k) = record m { keys = insert key (record k { count = suc k.count }) m.keys }

unfoldable pub opened : MemoryThrottles → Bytes → ℕ → ℕ → MemoryThrottles × Tries
opened m key now window =
    let k : Tries = record { count = 0; until = now + window } in
    (sweep (record m { keys = insert key k m.keys }) now, k)

-- The entry that a hit counts in: one that still lasts, or a new one.
unfoldable pub entry : MemoryThrottles → Bytes → ℕ → ℕ → Option Tries → MemoryThrottles × Tries
entry m key now window none = opened m key now window
entry m key now window (some k) = if lasts now k then (m, k) else opened m key now window

-- `Hit`, which returns the tries counted and when their window ends.
unfoldable pub hit : MemoryThrottles → Bytes → ℕ → ℕ → MemoryThrottles × Tries
hit m key now window =
    let (m', k) = entry m key now window (lookup key m.keys) in
    (bump key m' (lookup key m'.keys), record k { count = suc k.count })

-- The tries that still last, 0 and the zero time for none.
unfoldable pub lasting : ℕ → Option Tries → Tries
lasting now none = record { count = 0; until = 0 }
lasting now (some k) = if lasts now k then k else record { count = 0; until = 0 }

-- `Tries`.
unfoldable pub tries : MemoryThrottles → Bytes → ℕ → Tries
tries m key now = lasting now (lookup key m.keys)

-- `Clear` of the memory.
unfoldable pub clear_hash : MemoryThrottles → Bytes → MemoryThrottles
clear_hash m key = record m { keys = erase key m.keys }

module _ (sha256 : Bytes → Bytes) (t : Throttle) where
  -- `Try`: how long the key waits, 0 for a try let in.
  unfoldable pub try_key : MemoryThrottles → Bytes → ℕ → MemoryThrottles × ℕ
  try_key m key now =
      let (m', k) = hit m (hash sha256 t key) now (window t) in
      (m', if leb k.count (limit t) then 0 else k.until - now)

  -- `Wait`.
  unfoldable pub wait : MemoryThrottles → Bytes → ℕ → ℕ
  wait m key now =
      let k : Tries = tries m (hash sha256 t key) now in
      if ltb k.count (limit t) || not (lasts now k) then 0 else k.until - now

  -- `Clear`.
  unfoldable pub clear : MemoryThrottles → Bytes → MemoryThrottles
  clear m key = clear_hash m (hash sha256 t key)

-- A call of the throttle.
pub data Op : Type 0 where
  does_try : (key : Bytes) (now : ℕ) → Op
  clears : (key : Bytes) → Op
