-- ===== src/Auth/Throttle/Counts.antt =====
-- A throttle lets in as many tries of a key as its limit says, in each window.
use mathlib.Core.Option.{some-injective}
use tug.Common.{
  ℕ, suc, ◌+◌, ◌-◌, ◌<◌, min, max, ◌≡◌, refl, sym, ◌∙◌, List, [], ◌∷◌, Bool, true, false, ◌&&◌,
  Option, none, some, arith, Bytes, str_eq, str_eq_iff, str_eq_refl, lookup, insert, only_if,
  Distinct, lookup-insert, lookup-erase, lookup-keep_values, insert-Distinct, erase-Distinct,
  keep_values-Distinct, ltb, ◌==◌, if◌then◌else◌, length, Bool-cases, Option-cases, inl, inr, All,
}
use tug.Common.Int.{ℤ, pos, negsuc}
use tug.Auth.Throttle.{
  Throttle, Tries, MemoryThrottles, or_default, limit, window, hash, lasts, sweep, bump, opened,
  entry, hit, lasting, tries, clear_hash, try_key, wait, clear, Op, does_try, clears,
}

or_default-positive : (d : ℕ) (z : ℤ) → 0 < d → 0 < or_default d z
unfolding or_default
or_default-positive d (pos n) lt = ground arith
or_default-positive d (negsuc n) lt = lt

limit-positive : (t : Throttle) → 0 < limit t
unfolding limit
limit-positive t = or_default-positive 5 t.max_tries (omega arith)

window-positive : (t : Throttle) → 0 < window t
unfolding window
window-positive t = or_default-positive 60000000000 t.window_time (omega arith)

-- What a hit of the key answers.
abbrev answer : ℕ → ℕ → Option Tries → Tries
answer now window none = record { count = 1; until = now + window }
answer now window (some k) =
    if lasts now k
    then record k { count = suc k.count }
    else record { count = 1; until = now + window }

entry-answer :
    (m : MemoryThrottles) (key : Bytes) (now window : ℕ) (o : Option Tries)
    → record (entry m key now window o).1 { count = suc (entry m key now window o).1.count }
      ≡ answer now window o
unfolding entry opened
entry-answer m key now window none = refl
entry-answer m key now window (some k) = elim (Bool-cases (lasts now k)) [
  | inl b ↦ rw b refl
  | inr b ↦ rw b refl
]

hit-answer :
    (m : MemoryThrottles) (key : Bytes) (now window : ℕ)
    → (hit m key now window).1 ≡ answer now window (lookup key m.keys)
unfolding hit
hit-answer m key now window = entry-answer m key now window (lookup key m.keys)

-- Wait says what the next Try at its time would answer, without counting it: 0 for a try to be let in,
-- and otherwise how long the key waits.
pub wait_foretells :
    (sha256 : Bytes → Bytes) (t : Throttle) (m : MemoryThrottles) (key : Bytes) (now : ℕ)
    → wait sha256 t m key now ≡ (try_key sha256 t m key now).1
unfolding wait try_key tries lasting
wait_foretells sha256 t m key now =
    let h : Bytes = hash sha256 t key in
    let some_limit : 0 < limit t = limit-positive t in
    elim (Option-cases (lookup h m.keys)) [
      | inl o ↦ rw (hit-answer m h now (window t), o, try_key, lasting) (ground arith)
      | inr (k, o) ↦ elim (Bool-cases (lasts now k)) [
        | inl b ↦ rw (hit-answer m h now (window t), o, b) (ground arith)
        | inr b ↦ rw (hit-answer m h now (window t), o, b) (ground arith)
      ]
    ]

-- The key's window lasts until a time, and n tries of it are counted.
pub record IsCounted (key : Bytes) (until n : ℕ) (m : MemoryThrottles) : Type 0 where
  pub counted : lookup key m.keys ≡ some (record { count = n; until = until })
  pub distinct : Distinct m.keys

module _ (key : Bytes) (until n : ℕ) where
  sweep-IsCounted :
      (m : MemoryThrottles) (now : ℕ)
      → now < until
      → IsCounted key until n m
      → IsCounted key until n (sweep m now)
  unfolding sweep only_if
  sweep-IsCounted m now lt c = elim (Bool-cases (ltb (length m.keys) (max m.sweep_at 1024))) [
    | inl b ↦ rw b c
    | inr b ↦
        let on : ltb now until ≡ true = ground arith in
        rw b (record {
          counted = rw (lookup-keep_values (lasts now) key m.keys c.distinct, c.counted, on) refl;
          distinct = keep_values-Distinct (lasts now) m.keys c.distinct;
        })
  ]

  insert-IsCounted :
      (m : MemoryThrottles) (k : Bytes) (v : Tries)
      → str_eq k key ≡ false
      → IsCounted key until n m
      → IsCounted key until n (record m { keys = insert k v m.keys })
  insert-IsCounted m k v ne c = record {
    counted = rw (lookup-insert k key v m.keys, ne) c.counted;
    distinct = insert-Distinct k v m.keys c.distinct;
  }

  opened-IsCounted :
      (m : MemoryThrottles) (k : Bytes) (now window : ℕ)
      → str_eq k key ≡ false
      → now < until
      → IsCounted key until n m
      → IsCounted key until n (opened m k now window).0
  unfolding opened
  opened-IsCounted m k now window ne lt c = sweep-IsCounted _ now lt (insert-IsCounted m k _ ne c)

  entry-IsCounted :
      (m : MemoryThrottles) (k : Bytes) (now window : ℕ) (o : Option Tries)
      → str_eq k key ≡ false
      → now < until
      → IsCounted key until n m
      → IsCounted key until n (entry m k now window o).0
  unfolding entry
  entry-IsCounted m k now window none ne lt c = opened-IsCounted m k now window ne lt c
  entry-IsCounted m k now window (some v) ne lt c = elim (Bool-cases (lasts now v)) [
    | inl b ↦ rw b c
    | inr b ↦ rw b (opened-IsCounted m k now window ne lt c)
  ]

  bump-IsCounted :
      (m : MemoryThrottles) (k : Bytes) (o : Option Tries)
      → str_eq k key ≡ false
      → IsCounted key until n m
      → IsCounted key until n (bump k m o)
  unfolding bump
  bump-IsCounted m k none ne c = c
  bump-IsCounted m k (some v) ne c = insert-IsCounted m k _ ne c

  hit_other-IsCounted :
      (m : MemoryThrottles) (k : Bytes) (now window : ℕ)
      → str_eq k key ≡ false
      → now < until
      → IsCounted key until n m
      → IsCounted key until n (hit m k now window).0
  unfolding hit
  hit_other-IsCounted m k now window ne lt c =
      bump-IsCounted _ k _ ne (entry-IsCounted m k now window (lookup k m.keys) ne lt c)

  erase-IsCounted :
      (m : MemoryThrottles) (k : Bytes)
      → str_eq k key ≡ false
      → IsCounted key until n m
      → IsCounted key until n (clear_hash m k)
  unfolding clear_hash
  erase-IsCounted m k ne c = record {
    counted = rw (lookup-erase k key m.keys, ne) c.counted;
    distinct = erase-Distinct k m.keys c.distinct;
  }

  bump_own-IsCounted :
      (m : MemoryThrottles) (o : Option Tries)
      → lookup key m.keys ≡ o
      → IsCounted key until n m
      → IsCounted key until (suc n) (bump key m o)
  unfolding bump
  bump_own-IsCounted m none e c = cc (e, c.counted)
  bump_own-IsCounted m (some v) e c =
      let same : v ≡ record { count = n; until = until } = some-injective _ _ (sym e ∙ c.counted) in
      record {
        counted = rw (same, lookup-insert key key _ m.keys, str_eq_refl key) refl;
        distinct = insert-Distinct key _ m.keys c.distinct;
      }

  -- A try of the key in its window is counted in it.
  hit_own-IsCounted :
      (m : MemoryThrottles) (now window : ℕ)
      → now < until
      → IsCounted key until n m
      → IsCounted key until (suc n) (hit m key now window).0
        × ((hit m key now window).1 ≡ record { count = suc n; until = until })
  unfolding hit entry
  hit_own-IsCounted m now window lt c =
      let on : ltb now until ≡ true = ground arith in
      rw (c.counted, on) (bump_own-IsCounted m (lookup key m.keys) refl c, refl)

new-IsCounted :
    (m : MemoryThrottles) (key : Bytes) (now window : ℕ)
    → 0 < window
    → Distinct m.keys
    → IsCounted key (now + window) 0 (opened m key now window).0
unfolding opened
new-IsCounted m key now window some_time d =
    sweep-IsCounted key (now + window) 0 _ now (omega arith) (record {
      counted = rw (lookup-insert key key _ m.keys, str_eq_refl key) refl;
      distinct = insert-Distinct key _ m.keys d;
    })

entry_new-IsCounted :
    (m : MemoryThrottles) (key : Bytes) (now time : ℕ) (o : Option Tries)
    → 0 < time
    → Distinct m.keys
    → only_if (lasts now) o ≡ none
    → IsCounted key (now + time) 0 (entry m key now time o).0
      × ((entry m key now time o).1 ≡ record { count = 0; until = now + time })
unfolding entry only_if opened
entry_new-IsCounted m key now time none some_time d over =
    (new-IsCounted m key now time some_time d, refl)
entry_new-IsCounted m key now time (some k) some_time d over = elim (Bool-cases (lasts now k)) [
  | inl b ↦ let impossible : some k ≡ none = rw b at over in cc
  | inr b ↦ rw b (new-IsCounted m key now time some_time d, refl)
]

-- A try of a key whose window is over, or that has none, opens one.
hit_new-IsCounted :
    (m : MemoryThrottles) (key : Bytes) (now time : ℕ)
    → 0 < time
    → Distinct m.keys
    → only_if (lasts now) (lookup key m.keys) ≡ none
    → IsCounted key (now + time) 1 (hit m key now time).0
      × ((hit m key now time).1 ≡ record { count = 1; until = now + time })
unfolding hit
hit_new-IsCounted m key now time some_time d over =
    let (c, e) = entry_new-IsCounted m key now time (lookup key m.keys) some_time d over in
    (bump_own-IsCounted key (now + time) 0 _ _ refl c, rw e refl)

module _ (sha256 : Bytes → Bytes) (t : Throttle) (key : Bytes) where
  -- A key that is counted with this one, as it is when it is the same.
  abbrev pub same_hash : Bytes → Bool
  same_hash k = str_eq (hash sha256 t k) (hash sha256 t key)

  -- How many tries of the key a history lets in.
  unfoldable pub lets_in : MemoryThrottles → List Op → ℕ
  lets_in m [] = 0
  lets_in m (does_try k now ∷ ops) =
      (if same_hash k && (try_key sha256 t m k now).1 == 0 then 1 else 0)
      + lets_in (try_key sha256 t m k now).0 ops
  lets_in m (clears k ∷ ops) = lets_in (clear sha256 t m k) ops

  unfoldable pub tries_made : List Op → ℕ
  tries_made [] = 0
  tries_made (does_try k now ∷ ops) = (if same_hash k then 1 else 0) + tries_made ops
  tries_made (clears k ∷ ops) = tries_made ops

  -- A call before the window ends, which does not clear the key.
  abbrev pub IsWithin : ℕ → Op → Type 0
  IsWithin until (does_try k now) = now < until
  IsWithin until (clears k) = same_hash k ≡ false

  counts_on :
      (m : MemoryThrottles) (ops : List Op) (until n : ℕ)
      → IsCounted (hash sha256 t key) until n m
      → All (IsWithin until) ops
      → lets_in m ops ≡ min (tries_made ops) (limit t - n)
  unfolding lets_in tries_made try_key clear
  counts_on m [] until n c within = omega arith
  counts_on m (clears k ∷ ops) until n c within =
      counts_on (clear sha256 t m k) ops until n
        (erase-IsCounted (hash sha256 t key) until n m (hash sha256 t k) within.0 c) within.1
  counts_on m (does_try k now ∷ ops) until n c within = elim (Bool-cases (same_hash k)) [
    | inr b ↦
        let rest =
          counts_on (try_key sha256 t m k now).0 ops until n
            (hit_other-IsCounted (hash sha256 t key) until n m (hash sha256 t k) now (window t) b
              within.0 c)
            within.1 in
        rw b (omega (arith, rest))
    | inl b ↦
        let e : hash sha256 t k ≡ hash sha256 t key = (str_eq_iff _ _).0 b in
        let c' : IsCounted (hash sha256 t k) until n m = rw e c in
        let own = hit_own-IsCounted (hash sha256 t k) until n m now (window t) within.0 c' in
        let counted : IsCounted (hash sha256 t key) until (suc n) (try_key sha256 t m k now).0 =
          rw (← e) own.0 in
        let rest = counts_on (try_key sha256 t m k now).0 ops until (suc n) counted within.1 in
        rw (b, own.1) (ground (arith, rest, within.0))
  ]

  -- Of the tries of a key in a window, those let in are the first ones, as many as the limit: of a Try that
  -- opens a window and the calls that follow, in the window and not clearing the key, the number of
  -- tries let in is the number made, or the limit where that is less. (The key's hash tells it apart.)
  pub lets_in-limit :
      (m : MemoryThrottles) (now : ℕ) (ops : List Op)
      → Distinct m.keys
      → only_if (lasts now) (lookup (hash sha256 t key) m.keys) ≡ none
      → All (IsWithin (now + window t)) ops
      → lets_in m (does_try key now ∷ ops) ≡ min (suc (tries_made ops)) (limit t)
  unfolding lets_in tries_made try_key
  lets_in-limit m now ops d over within =
      let h : Bytes = hash sha256 t key in
      let first = hit_new-IsCounted m h now (window t) (window-positive t) d over in
      let rest = counts_on (try_key sha256 t m key now).0 ops (now + window t) 1 first.0 within in
      rw (str_eq_refl h, first.1) (ground (arith, rest, limit-positive t))
