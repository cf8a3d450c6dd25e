-- ===== src/Cache/Memory.antt =====
-- The memory store of a cache (cache/memory.go). Each method runs under the store's mutex, so it is one
-- function from the state before to the state after. No method returns an error. A nil map and an
-- empty one are the same empty list, and a value is never changed once kept, so its copies are it.
pub mod View
pub mod Refines
pub mod Sweeps
mod Tests
use tug.Common.{
  ℕ, ◌*◌, max, List, [], ◌∷◌, Bool, true, false, not, Option, none, some, Bytes, str_eq, lookup,
  insert, erase, keep_values, ltb, if◌then◌else◌, length,
}

pub record MemoryValue : Type 0 where
  pub value : Bytes
  pub expires : ℕ

pub record MemoryStore : Type 0 where
  pub values : List (Bytes × MemoryValue)
  pub now : ℕ
  pub sweep_at : ℕ

-- The zero value, an empty store.
abbrev pub empty : MemoryStore
empty = record { values = []; now = 0; sweep_at = 0 }

-- `now.Before(v.expires)`.
abbrev pub lives : ℕ → MemoryValue → Bool
lives now v = ltb now v.expires

unfoldable pub saw : MemoryStore → ℕ → MemoryStore
saw m now = if ltb m.now now then record m { now = now } else m

unfoldable pub sweep : MemoryStore → MemoryStore
sweep m =
    if ltb (length m.values) (max m.sweep_at 1024)
    then m
    else let left : List (Bytes × MemoryValue) = keep_values (lives m.now) m.values in
      record m { values = left; sweep_at = 2 * length left }

-- `set`, and `Set`, which only calls it.
unfoldable pub set : MemoryStore → Bytes → Bytes → ℕ → MemoryStore
set m key value expires =
    sweep (record m { values = insert key (record { value = value; expires = expires }) m.values })

-- The value of a key that lives at now.
unfoldable pub found : ℕ → Option MemoryValue → Option Bytes
found now none = none
found now (some v) = if lives now v then some v.value else none

unfoldable pub get : MemoryStore → Bytes → ℕ → MemoryStore × Option Bytes
get m key now = (saw m now, found now (lookup key (saw m now).values))

unfoldable pub add : MemoryStore → Bytes → Bytes → ℕ → ℕ → MemoryStore × Bool
add m key value expires now = elim (found now (lookup key (saw m now).values)) [
  | some _ ↦ (saw m now, false)
  | none ↦ (set (saw m now) key value expires, true)
]

unfoldable pub delete : MemoryStore → Bytes → MemoryStore
delete m key = record m { values = erase key m.values }

unfoldable pub keeps : Bytes → Option MemoryValue → Bool
keeps value none = false
keeps value (some v) = str_eq v.value value

unfoldable pub delete_if : MemoryStore → Bytes → Bytes → MemoryStore × Bool
delete_if m key value =
    if keeps value (lookup key m.values) then (delete m key, true) else (m, false)

-- A call of one of the methods, with what it is given.
pub data Op : Type 0 where
  gets : (key : Bytes) (now : ℕ) → Op
  sets : (key value : Bytes) (expires : ℕ) → Op
  adds : (key value : Bytes) (expires now : ℕ) → Op
  deletes : (key : Bytes) → Op
  deletes_if : (key value : Bytes) → Op

unfoldable pub step : MemoryStore → Op → MemoryStore
step m (gets key now) = (get m key now).0
step m (sets key value expires) = set m key value expires
step m (adds key value expires now) = (add m key value expires now).0
step m (deletes key) = delete m key
step m (deletes_if key value) = (delete_if m key value).0

-- A history of calls, in the order in which they take the mutex.
unfoldable pub run : MemoryStore → List Op → MemoryStore
run m [] = m
run m (op ∷ ops) = run (step m op) ops
