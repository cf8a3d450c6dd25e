-- ===== src/Cache/Lock.antt =====
-- Locks that the instances of an app see on their cache's store (cache/lock.go), here the memory store.
-- A lock's key, the SHA-256 of its name, and its owner, 16 random bytes, are what it is made with.
pub mod Exclusion
mod Tests
use tug.Common.{
  ℕ, ◌+◌, List, [], ◌∷◌, Bool, true, false, Option, none, some, Bytes, if◌then◌else◌, ◌==◌,
}
use tug.Cache.Memory.{MemoryStore, Op, add, delete_if, run}

pub record Lock : Type 0 where
  pub key : Bytes
  pub ttl : ℕ
  pub owner : Bytes

-- The lock of a name for a time, and nothing where `mustLive` panics. `hash` is the cache's, of the
-- kind "lock", and `random` the bytes that `rand.Read` gives.
unfoldable pub lock : (hash : Bytes → Bytes) → Bytes → ℕ → (random : Bytes) → Option Lock
lock hash name ttl random =
    if ttl == 0 then none else some (record { key = hash name; ttl = ttl; owner = random })

unfoldable pub try_lock : MemoryStore → Lock → ℕ → MemoryStore × Bool
try_lock m l now = add m l.key l.owner (now + l.ttl) now

unfoldable pub release : MemoryStore → Lock → MemoryStore
release m l = (delete_if m l.key l.owner).0

-- A round of `Wait`: what others do to the store before it, what the clock reads, and whether ctx is
-- done after a Try that fails.
pub record Round : Type 0 where
  pub others : List Op
  pub clock : ℕ
  pub is_over : Bool

pub data Outcome : Type 0 where
  taken : Outcome
  canceled : Outcome
  waiting : Outcome

-- `Wait` for some rounds; it still waits after the last.
unfoldable pub wait : MemoryStore → Lock → List Round → MemoryStore × Outcome
wait m l [] = (m, waiting)
wait m l (round ∷ rounds) =
    let (m', ok) = try_lock (run m round.others) l round.clock in
    let rest = wait m' l rounds in
    if ok then (m', taken) else if round.is_over then (m', canceled) else rest
