-- ===== src/Cache/Lock/Exclusion.antt =====
-- A lock has one holder at a time.
use tug.Common.{
  ℕ, ◌+◌, ◌<◌, max, ◌≡◌, ◌≢◌, ap, refl, sym, List, [], ◌∷◌, true, false, none, some, arith, Bytes,
  str_eq, str_eq_iff, str_eq_refl, str_eq-false, lookup, only_if, Distinct, lookup-insert,
  lookup-erase, lookup-keep_values, insert-Distinct, erase-Distinct, keep_values-Distinct, ltb,
  if◌then◌else◌, length, Bool-cases, Option-cases, inl, inr, All,
}
use tug.Cache.Memory.{
  MemoryStore, lives, saw, sweep, set, found, get, add, delete, keeps, delete_if, Op, gets, sets,
  adds, deletes, deletes_if, step, run,
}
use tug.Cache.Lock.{Lock, try_lock, release, Round, taken, wait}

-- The store's key is the owner's until a time that it has not seen.
pub record IsHeld (key owner : Bytes) (until : ℕ) (m : MemoryStore) : Type 0 where
  pub kept : lookup key m.values ≡ some (record { value = owner; expires = until })
  pub distinct : Distinct m.values
  pub unseen : m.now < until

-- A call of another: it reads, sets and deletes other keys as it likes, and of this one, before the
-- holder's time is up, it only tries to take it or lets go of a lock that is not the holder's.
abbrev pub IsForeign : Bytes → Bytes → ℕ → Op → Type 0
IsForeign key owner until (gets _ now) = now < until
IsForeign key owner until (sets k _ _) = k ≢ key
IsForeign key owner until (adds _ _ _ now) = now < until
IsForeign key owner until (deletes k) = k ≢ key
IsForeign key owner until (deletes_if k value) = k ≡ key → value ≢ owner

module _ (key owner : Bytes) (until : ℕ) where
  sweep-IsHeld : (m : MemoryStore) → IsHeld key owner until m → IsHeld key owner until (sweep m)
  unfolding sweep only_if
  sweep-IsHeld m h = elim (Bool-cases (ltb (length m.values) (max m.sweep_at 1024))) [
    | inl b ↦ rw b h
    | inr b ↦
        let lives_on : ltb m.now until ≡ true = ground (arith, h.unseen) in
        rw b (record {
          kept =
              rw (lookup-keep_values (lives m.now) key m.values h.distinct, h.kept, lives_on) refl;
          distinct = keep_values-Distinct (lives m.now) m.values h.distinct;
          unseen = h.unseen;
        })
  ]

  saw-IsHeld :
      (m : MemoryStore) (now : ℕ)
      → now < until
      → IsHeld key owner until m
      → IsHeld key owner until (saw m now)
  unfolding saw
  saw-IsHeld m now lt h = elim (Bool-cases (ltb m.now now)) [
    | inl b ↦ rw b (record { kept = h.kept; distinct = h.distinct; unseen = lt })
    | inr b ↦ rw b h
  ]

  set-IsHeld :
      (m : MemoryStore) (k value : Bytes) (expires : ℕ)
      → k ≢ key
      → IsHeld key owner until m
      → IsHeld key owner until (set m k value expires)
  unfolding set
  set-IsHeld m k value expires ne h = sweep-IsHeld _ (record {
    kept = rw (lookup-insert k key _ m.values, str_eq-false k key ne) h.kept;
    distinct = insert-Distinct k _ m.values h.distinct;
    unseen = h.unseen;
  })

  delete-IsHeld :
      (m : MemoryStore) (k : Bytes)
      → k ≢ key
      → IsHeld key owner until m
      → IsHeld key owner until (delete m k)
  unfolding delete
  delete-IsHeld m k ne h = record {
    kept = rw (lookup-erase k key m.values, str_eq-false k key ne) h.kept;
    distinct = erase-Distinct k m.values h.distinct;
    unseen = h.unseen;
  }

  saw-kept : (m : MemoryStore) (now : ℕ) → (saw m now).values ≡ m.values
  unfolding saw
  saw-kept m now = elim (Bool-cases (ltb m.now now)) [ inl b ↦ rw b refl | inr b ↦ rw b refl ]

  -- Who tries to take the lock before its time is up does not.
  refuses :
      (m : MemoryStore) (value : Bytes) (expires now : ℕ)
      → now < until
      → IsHeld key owner until m
      → add m key value expires now ≡ (saw m now, false)
  unfolding add found
  refuses m value expires now lt h =
      let lives_on : ltb now until ≡ true = ground arith in
      let there : found now (lookup key (saw m now).values) ≡ some owner =
        rw (saw-kept m now, h.kept, lives_on) refl in
      rw (there, add) refl

  add-IsHeld :
      (m : MemoryStore) (k value : Bytes) (expires now : ℕ)
      → now < until
      → IsHeld key owner until m
      → IsHeld key owner until (add m k value expires now).0
  unfolding add
  add-IsHeld m k value expires now lt h = elim (Bool-cases (str_eq k key)) [
    | inl e ↦ rw ((str_eq_iff k key).0 e, refuses m value expires now lt h) (saw-IsHeld m now lt h)
    | inr e ↦
        let ne : k ≢ key = λ s. cc (e, (str_eq_iff k key).1 s) in
        elim (Option-cases (found now (lookup k (saw m now).values))) [
          | inl o ↦ rw (o, add) (set-IsHeld (saw m now) k value expires ne (saw-IsHeld m now lt h))
          | inr (x, o) ↦ rw (o, add) (saw-IsHeld m now lt h)
        ]
  ]

  delete_if-IsHeld :
      (m : MemoryStore) (k value : Bytes)
      → (k ≡ key → value ≢ owner)
      → IsHeld key owner until m
      → IsHeld key owner until (delete_if m k value).0
  unfolding delete_if keeps
  delete_if-IsHeld m k value ne h = elim (Bool-cases (str_eq k key)) [
    | inl e ↦
        let other : str_eq owner value ≡ false =
          str_eq-false owner value (λ s. ne ((str_eq_iff k key).0 e) (sym s)) in
        rw ((str_eq_iff k key).0 e, h.kept, other) h
    | inr e ↦
        let apart : k ≢ key = λ s. cc (e, (str_eq_iff k key).1 s) in
        elim (Bool-cases (keeps value (lookup k m.values))) [
          | inl b ↦ rw b (delete-IsHeld m k apart h)
          | inr b ↦ rw b h
        ]
  ]

  run-IsHeld :
      (m : MemoryStore) (ops : List Op)
      → All (IsForeign key owner until) ops
      → IsHeld key owner until m
      → IsHeld key owner until (run m ops)
  unfolding run step get
  run-IsHeld m [] f h = h
  run-IsHeld m (gets k now ∷ ops) f h = run-IsHeld _ ops f.1 (saw-IsHeld m now f.0 h)
  run-IsHeld m (sets k value e ∷ ops) f h = run-IsHeld _ ops f.1 (set-IsHeld m k value e f.0 h)
  run-IsHeld m (adds k value e now ∷ ops) f h =
      run-IsHeld (add m k value e now).0 ops f.1 (add-IsHeld m k value e now f.0 h)
  run-IsHeld m (deletes k ∷ ops) f h = run-IsHeld _ ops f.1 (delete-IsHeld m k f.0 h)
  run-IsHeld m (deletes_if k value ∷ ops) f h =
      run-IsHeld (delete_if m k value).0 ops f.1 (delete_if-IsHeld m k value f.0 h)

new-IsHeld :
    (m : MemoryStore) (l : Lock) (now : ℕ)
    → Distinct m.values
    → m.now < now + l.ttl
    → 0 < l.ttl
    → IsHeld l.key l.owner (now + l.ttl) (set (saw m now) l.key l.owner (now + l.ttl))
unfolding set saw
new-IsHeld m l now d lt live = elim (Bool-cases (ltb m.now now)) [
  | inl b ↦ rw b (
      sweep-IsHeld l.key l.owner (now + l.ttl) _ (record {
        kept = rw (lookup-insert l.key l.key _ m.values, str_eq_refl l.key) refl;
        distinct = insert-Distinct l.key _ m.values d;
        unseen = omega arith;
      }))
  | inr b ↦ rw b (
      sweep-IsHeld l.key l.owner (now + l.ttl) _ (record {
        kept = rw (lookup-insert l.key l.key _ m.values, str_eq_refl l.key) refl;
        distinct = insert-Distinct l.key _ m.values d;
        unseen = lt;
      }))
]

pub try_lock-IsHeld :
    (m m' : MemoryStore) (l : Lock) (now : ℕ)
    → Distinct m.values
    → m.now < now + l.ttl
    → 0 < l.ttl
    → try_lock m l now ≡ (m', true)
    → IsHeld l.key l.owner (now + l.ttl) m'
unfolding try_lock add
try_lock-IsHeld m m' l now d lt live e =
    elim (Option-cases (found now (lookup l.key (saw m now).values))) [
      | inl o ↦
          let after : set (saw m now) l.key l.owner (now + l.ttl) ≡ m' =
            ap (λ r. r.0) (rw (o, add) at e) in
          rw (← after) (new-IsHeld m l now d lt live)
      | inr (x, o) ↦ let refused : false ≡ true = ap (λ r. r.1) (rw (o, add) at e) in cc
    ]

-- Once Try has taken a lock, no other Lock of its key takes it before its time is up, whatever calls on
-- the store come between, as long as each comes before then and none is the holder's Release, or sets
-- or deletes the lock's key as a value; the lock's time is not 0,
-- and the store, a map, had not seen a time past it.
pub lock_exclusive :
    (m m' : MemoryStore) (l other : Lock) (ops : List Op) (now now₂ : ℕ)
    → Distinct m.values
    → m.now < now + l.ttl
    → 0 < l.ttl
    → try_lock m l now ≡ (m', true)
    → All (IsForeign l.key l.owner (now + l.ttl)) ops
    → other.key ≡ l.key
    → now₂ < now + l.ttl
    → (try_lock (run m' ops) other now₂).1 ≡ false
unfolding try_lock
lock_exclusive m m' l other ops now now₂ d lt live e foreign same before =
    let h =
      run-IsHeld l.key l.owner (now + l.ttl) m' ops foreign
        (try_lock-IsHeld m m' l now d lt live e) in
    rw
      (
        same,
        refuses l.key l.owner (now + l.ttl) (run m' ops) other.owner (now₂ + other.ttl) now₂ before
            h,
      )
      refl

released :
    (m : MemoryStore) (l : Lock) (owner : Bytes) (until : ℕ)
    → IsHeld l.key owner until m
    → release m l ≡ (if str_eq owner l.owner then delete m l.key else m)
unfolding release delete_if keeps
released m l owner until h = elim (Bool-cases (str_eq owner l.owner)) [
  | inl b ↦ rw (h.kept, b, release, delete_if, keeps) refl
  | inr b ↦ rw (h.kept, b, release, delete_if, keeps) refl
]

takes_free :
    (m : MemoryStore) (key value : Bytes) (expires now : ℕ)
    → (add (delete m key) key value expires now).1 ≡ true
unfolding add delete found
takes_free m key value expires now =
    let gone : found now (lookup key (saw (delete m key) now).values) ≡ none =
      rw (saw-kept key value 0 (delete m key) now, lookup-erase key key m.values, str_eq_refl key)
        refl in
    rw (gone, add) refl

-- While a lock is held, Release by a Lock of its key lets it go if that Lock is its owner, and otherwise
-- leaves it held: a Try before the holder's time is up then succeeds in the first case alone.
pub release_own :
    (m : MemoryStore) (l next : Lock) (owner : Bytes) (until now : ℕ)
    → IsHeld l.key owner until m
    → next.key ≡ l.key
    → now < until
    → (try_lock (release m l) next now).1 ≡ str_eq owner l.owner
unfolding try_lock
release_own m l next owner until now h same lt = elim (Bool-cases (str_eq owner l.owner)) [
  | inl b ↦
      rw (released m l owner until h, b, same) (takes_free m l.key next.owner (now + next.ttl) now)
  | inr b ↦
      rw
        (
          released m l owner until h,
          b,
          same,
          refuses l.key owner until m next.owner (now + next.ttl) now lt h,
        )
        refl
]

-- A round of Wait while another holds the lock.
abbrev pub IsRefused : Bytes → Bytes → ℕ → Round → Type 0
IsRefused key owner until round =
    All (IsForeign key owner until) round.others × (round.clock < until)

-- While another holds the lock, Wait does not take it, however many rounds it goes, and the holder's
-- lock stays, as long as the rounds come before the holder's time is up and the others' calls leave
-- the lock alone.
pub wait_refused :
    (m : MemoryStore) (l : Lock) (rounds : List Round) (owner : Bytes) (until : ℕ)
    → IsHeld l.key owner until m
    → All (IsRefused l.key owner until) rounds
    → ((wait m l rounds).1 ≢ taken) × IsHeld l.key owner until (wait m l rounds).0
unfolding wait try_lock
wait_refused m l [] owner until h refused = (λ e. cc, h)
wait_refused m l (round ∷ rounds) owner until h refused =
    let m' : MemoryStore = run m round.others in
    let h' = run-IsHeld l.key owner until m round.others refused.0.0 h in
    let no =
      refuses l.key owner until m' l.owner (round.clock + l.ttl) round.clock refused.0.1 h' in
    let seen = saw-IsHeld l.key owner until m' round.clock refused.0.1 h' in
    elim (Bool-cases round.is_over) [
      | inl b ↦ rw (no, b) (λ e. cc, seen)
      | inr b ↦ rw (no, b) (wait_refused (saw m' round.clock) l rounds owner until seen refused.1)
    ]
