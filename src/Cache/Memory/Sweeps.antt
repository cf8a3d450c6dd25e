-- ===== src/Cache/Memory/Sweeps.antt =====
-- Expired values do not pile up in a cache's memory store.
use tug.Common.{
  ℕ, ◌≤◌, ◌<◌, max, List, [], ◌∷◌, arith, Bytes, lookup, erase, ltb, length, Bool-cases,
  Option-cases, inl, inr,
}
use tug.Cache.Memory.{
  MemoryStore, MemoryValue, empty, saw, sweep, set, found, get, add, delete, keeps, delete_if, Op,
  gets, sets, adds, deletes, deletes_if, step, run,
}

-- The store has fewer values than the next sweep waits for.
abbrev IsBounded : MemoryStore → Type 0
IsBounded m = length m.values < max m.sweep_at 1024

sweep-IsBounded : (m : MemoryStore) → IsBounded (sweep m)
unfolding sweep
sweep-IsBounded m = elim (Bool-cases (ltb (length m.values) (max m.sweep_at 1024))) [
  | inl b ↦ rw b (ground arith)
  | inr b ↦ rw b (omega arith)
]

saw-IsBounded : (m : MemoryStore) (now : ℕ) → IsBounded m → IsBounded (saw m now)
unfolding saw
saw-IsBounded m now b = elim (Bool-cases (ltb m.now now)) [ inl e ↦ rw e b | inr e ↦ rw e b ]

length-erase : (k : Bytes) (xs : List (Bytes × MemoryValue)) → length (erase k xs) ≤ length xs
unfolding erase
length-erase k [] = omega arith
length-erase k ((j, v) ∷ xs) = ground (arith, length-erase k xs)

delete-IsBounded : (m : MemoryStore) (key : Bytes) → IsBounded m → IsBounded (delete m key)
unfolding delete
delete-IsBounded m key b = omega (arith, length-erase key m.values)

add-IsBounded :
    (m : MemoryStore) (key value : Bytes) (expires now : ℕ)
    → IsBounded m
    → IsBounded (add m key value expires now).0
unfolding add set
add-IsBounded m key value expires now b =
    elim (Option-cases (found now (lookup key (saw m now).values))) [
      | inl e ↦ rw (e, add) (sweep-IsBounded _)
      | inr (x, e) ↦ rw (e, add) (saw-IsBounded m now b)
    ]

delete_if-IsBounded :
    (m : MemoryStore) (key value : Bytes) → IsBounded m → IsBounded (delete_if m key value).0
unfolding delete_if
delete_if-IsBounded m key value b = elim (Bool-cases (keeps value (lookup key m.values))) [
  | inl e ↦ rw e (delete-IsBounded m key b)
  | inr e ↦ rw e b
]

step-IsBounded : (m : MemoryStore) (op : Op) → IsBounded m → IsBounded (step m op)
unfolding step get set
step-IsBounded m (gets key now) b = saw-IsBounded m now b
step-IsBounded m (sets key value expires) b = sweep-IsBounded _
step-IsBounded m (adds key value expires now) b = add-IsBounded m key value expires now b
step-IsBounded m (deletes key) b = delete-IsBounded m key b
step-IsBounded m (deletes_if key value) b = delete_if-IsBounded m key value b

from-IsBounded : (m : MemoryStore) (ops : List Op) → IsBounded m → IsBounded (run m ops)
unfolding run
from-IsBounded m [] b = b
from-IsBounded m (op ∷ ops) b = from-IsBounded (step m op) ops (step-IsBounded m op b)

-- After any history of an empty store, it has fewer values than 1,024, or than twice as many as its last
-- sweep left.
pub run-bounded :
    (ops : List Op) → length (run empty ops).values < max (run empty ops).sweep_at 1024
run-bounded ops = from-IsBounded empty ops (omega arith)
