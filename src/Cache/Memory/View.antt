-- ===== src/Cache/Memory/View.antt =====
-- What a cache's memory store promises: the store is a map from keys to values, each seen until it
-- expires. Sweeps are not seen while the times that the store is given do not go back.
use tug.Common.{
  ℕ, ◌≤◌, max, ◌≡◌, refl, ◌∙◌, Option, none, some, arith, Bytes, str_eq, lookup, insert, only_if,
  Distinct, lookup-insert, lookup-erase, lookup-keep_values, insert-Distinct, erase-Distinct,
  keep_values-Distinct, ltb, if◌then◌else◌, length, Bool-cases, inl, inr,
}
use tug.Cache.Memory.{MemoryStore, MemoryValue, lives, saw, sweep, set, found, delete}

-- The value that a reader at a time sees under a key.
abbrev pub view : MemoryStore → ℕ → Bytes → Option Bytes
view m t k = found t (lookup k m.values)

-- The store's keys are those of a map, and the times that it saw are not past t.
pub record IsSane (t : ℕ) (m : MemoryStore) : Type 0 where
  pub distinct : Distinct m.values
  pub past : m.now ≤ t

found-only_if :
    (s t : ℕ) (o : Option MemoryValue) → s ≤ t → found t (only_if (lives s) o) ≡ found t o
unfolding found only_if
found-only_if s t none le = refl
found-only_if s t (some v) le = ground arith

sweep-view : (t : ℕ) (m : MemoryStore) (k : Bytes) → IsSane t m → view (sweep m) t k ≡ view m t k
unfolding sweep
sweep-view t m k s = elim (Bool-cases (ltb (length m.values) (max m.sweep_at 1024))) [
  | inl b ↦ rw b refl
  | inr b ↦
      rw (b, lookup-keep_values (lives m.now) k m.values s.distinct)
        (found-only_if m.now t (lookup k m.values) s.past)
]

sweep-IsSane : (t : ℕ) (m : MemoryStore) → IsSane t m → IsSane t (sweep m)
unfolding sweep
sweep-IsSane t m s = elim (Bool-cases (ltb (length m.values) (max m.sweep_at 1024))) [
  | inl b ↦ rw b s
  | inr b ↦
      rw b (record {
        distinct = keep_values-Distinct (lives m.now) m.values s.distinct;
        past = s.past;
      })
]

pub saw-view : (t now : ℕ) (m : MemoryStore) (k : Bytes) → view (saw m now) t k ≡ view m t k
unfolding saw
saw-view t now m k = elim (Bool-cases (ltb m.now now)) [ inl b ↦ rw b refl | inr b ↦ rw b refl ]

saw-values : (now : ℕ) (m : MemoryStore) → (saw m now).values ≡ m.values
unfolding saw
saw-values now m = elim (Bool-cases (ltb m.now now)) [ inl b ↦ rw b refl | inr b ↦ rw b refl ]

pub saw-IsSane : (t now : ℕ) (m : MemoryStore) → now ≤ t → IsSane t m → IsSane t (saw m now)
unfolding saw
saw-IsSane t now m le s = elim (Bool-cases (ltb m.now now)) [
  | inl b ↦ rw b (record { distinct = s.distinct; past = le })
  | inr b ↦ rw b s
]

pub set-IsSane :
    (t : ℕ) (m : MemoryStore) (key value : Bytes) (expires : ℕ)
    → IsSane t m
    → IsSane t (set m key value expires)
unfolding set
set-IsSane t m key value expires s =
    sweep-IsSane t _
      (record { distinct = insert-Distinct key _ m.values s.distinct; past = s.past })

pub set-view :
    (t : ℕ) (m : MemoryStore) (key value : Bytes) (expires : ℕ) (k : Bytes)
    → IsSane t m
    → view (set m key value expires) t k
      ≡ (if str_eq key k then (if ltb t expires then some value else none) else view m t k)
unfolding set found
set-view t m key value expires k s =
    let v : MemoryValue = record { value = value; expires = expires } in
    let m' : MemoryStore = record m { values = insert key v m.values } in
    let sane : IsSane t m' = record {
      distinct = insert-Distinct key v m.values s.distinct;
      past = s.past;
    } in
    sweep-view t m' k sane ∙ ground (arith, lookup-insert key k v m.values)

pub delete-view :
    (t : ℕ) (m : MemoryStore) (key k : Bytes)
    → view (delete m key) t k ≡ (if str_eq key k then none else view m t k)
unfolding delete found
delete-view t m key k = ground (arith, lookup-erase key k m.values)

pub delete-IsSane : (t : ℕ) (m : MemoryStore) (key : Bytes) → IsSane t m → IsSane t (delete m key)
unfolding delete
delete-IsSane t m key s = record {
  distinct = erase-Distinct key m.values s.distinct;
  past = s.past;
}
