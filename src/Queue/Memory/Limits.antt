-- ===== src/Queue/Memory/Limits.antt =====
-- How many jobs claims hold at once: an AtOnce kind's, and a OneAtATime key's.
use mathlib.Core.Option.{some-injective}
use mathlib.Core.Path.{ap₂}
use native.Mathlib.Decide.{ℕ_discrete}
use tug.Common.{
  ℕ, zero, suc, ◌+◌, ◌≤◌, ◌<◌, ◌≡◌, refl, sym, ap, ◌∙◌, subst, ◌≢◌, List, [], ◌∷◌, ◌++◌, Bool, true,
  false, ◌&&◌, Option, none, some, arith, Bytes, str_eq, str_eq_iff, if◌then◌else◌, get_elem?, set,
  count_if, Bool-cases, Option-cases, inl, inr, All, All-append, All-get, and_split,
}
use tug.Queue.Job.{Job}
use tug.Queue.Memory.{
  Memory, MemoryJob, empty, kept, push, push_scheduled, push_unique, push_latest, move, claim,
  is_held, held_of_kind, Op, pushes, pushes_scheduled, pushes_unique, pushes_latest, holds_back,
  claims, is_done, retries, fails, runs_again, step, run, push_scheduled_cases, noted, waiting,
}
use tug.Queue.Memory.Eased.{
  Eased, nil, change, drop, move-Eased, hold_back-Eased, done-Eased, retry-Eased, fail-Eased,
  run_again-Eased,
}
use tug.Queue.Memory.Claims.{MayRun, Claimed, claim-Claimed, claim-none_same, held_count}

-- The claims of a history are told times that do not go back: the first at t or later, and the last
-- at t' or sooner.
abbrev pub Timed : ℕ → List Op → ℕ → Type 0
Timed t [] t' = t ≤ t'
Timed t (claims now until ∷ ops) t' = (t ≤ now) × Timed now ops t'
Timed t (_ ∷ ops) t' = Timed t ops t'

-- Those jobs of a sort that a claim holds at a time.
abbrev pub holds : (MemoryJob → Bool) → ℕ → MemoryJob → Bool
holds q now mj = q mj && is_held now mj

module _ (p : MemoryJob → Bool) where
  count-append :
      (xs : List MemoryJob) (y : MemoryJob)
      → p y ≡ false
      → count_if p (xs ++ y ∷ []) ≡ count_if p xs
  count-append [] y h = rw h
  count-append (x ∷ xs) y h = omega (arith, count-append xs y h)

  count-set :
      (xs : List MemoryJob) (i : ℕ) (a b : MemoryJob)
      → get_elem? xs i ≡ some a
      → p a ≡ false
      → count_if p (set xs i b) ≡ count_if p xs + (if p b then 1 else 0)
  count-set [] i a b g h = cc
  count-set (x ∷ xs) zero a b g h =
      let same : p x ≡ false = ap p (some-injective _ _ g) ∙ h in rw same (omega arith)
  count-set (x ∷ xs) (suc i) a b g h = omega (arith, count-set xs i a b g h)

-- Whether a job is of the sort depends on what no method changes.
abbrev IsStatic {ℓ} : {A : Type ℓ} → (MemoryJob → A) → Type ℓ
IsStatic q =
    (a b : MemoryJob) → b.kind ≡ a.kind → b.alone ≡ a.alone → b.at_once ≡ a.at_once → q b ≡ q a

module _ (q : MemoryJob → Bool) (static : IsStatic q) where
  count-Eased :
      {xs ys : List MemoryJob} (t : ℕ)
      → Eased xs ys
      → count_if (holds q t) ys ≤ count_if (holds q t) xs
  count-Eased t nil = omega arith
  count-Eased t (drop d) = omega (arith, count-Eased t d)
  count-Eased t (change {a} {b} s d) =
      ground (arith, count-Eased t d, static a b s.same_kind s.same_alone s.same_limit)

  count-later :
      (t t' : ℕ) (xs : List MemoryJob) → t ≤ t' → count_if (holds q t') xs ≤ count_if (holds q t) xs
  count-later t t' [] h = omega arith
  count-later t t' (x ∷ xs) h = ground (arith, count-later t t' xs h)

-- What holds of one job, of each job.
All-Eased :
    (P : MemoryJob → Type 0) {xs ys : List MemoryJob}
    → IsStatic P
    → Eased xs ys
    → All P xs
    → All P ys
All-Eased P h nil k = tt
All-Eased P h (drop d) k = All-Eased P h d k.1
All-Eased P h (change {a} {b} s d) k =
    (subst (λ T. T) (sym (h a b s.same_kind s.same_alone s.same_limit)) k.0, All-Eased P h d k.1)

All-set :
    (P : MemoryJob → Type 0) (xs : List MemoryJob) (i : ℕ) (b : MemoryJob)
    → P b
    → All P xs
    → All P (set xs i b)
All-set P [] i b h k = tt
All-set P (x ∷ xs) zero b h k = (h, k.1)
All-set P (x ∷ xs) (suc i) b h k = (k.0, All-set P xs i b h k.1)

-- The jobs that a history pushes are as P says, whatever their IDs.
abbrev pub PushesOnly : (MemoryJob → Type 0) → Op → Type 0
PushesOnly P (pushes j) = (id : Bytes) → P (kept (record j { id = id }))
PushesOnly P (pushes_scheduled s j) = (id : Bytes) → P (kept (record j { id = id }))
PushesOnly P (pushes_unique j) = (id : Bytes) → P (kept (record j { id = id }))
PushesOnly P (pushes_latest j) = (id : Bytes) → P (kept (record j { id = id }))
PushesOnly P _ = Unit

-- A limit of n on the jobs of a sort q, all of them as P says, where a claim of one finds room.
module _ (q : MemoryJob → Bool) (n : ℕ) (P : MemoryJob → Type 0) (static : IsStatic q)
    (static_P : IsStatic P)
    (room : (m : Memory) (now i : ℕ) (mj : MemoryJob)
      → get_elem? m.jobs i ≡ some mj
      → MayRun m now i mj
      → P mj
      → q mj ≡ true
      → count_if (holds q now) m.jobs < n) where
  -- The limit is kept at t.
  abbrev Kept : List MemoryJob → ℕ → Type 0
  Kept jobs t = All P jobs × (count_if (holds q t) jobs ≤ n)

  Eased-Kept : (t : ℕ) {xs ys : List MemoryJob} → Eased xs ys → Kept xs t → Kept ys t
  Eased-Kept t d (a, c) = (All-Eased P static_P d a, omega (arith, count-Eased q static t d))

  push-Kept :
      (m : Memory) (j : Job) (t : ℕ)
      → ((id : Bytes) → P (kept (record j { id = id })))
      → Kept m.jobs t
      → Kept (push m j).0.jobs t
  unfolding push
  push-Kept m j t h (a, c) = (
    All-append P m.jobs _ a (h _, tt),
    ground (arith, count-append (holds q t) m.jobs (kept (push m j).1)),
  )

  unheld_not_counted : (now : ℕ) (mj : MemoryJob) → mj.held_until ≤ now → holds q now mj ≡ false
  unheld_not_counted now mj h = ground arith

  Claimed-Kept :
      (m m' : Memory) (t now until i : ℕ) (mj : MemoryJob) (j : Job)
      → Claimed m now until i mj m' j
      → t ≤ now
      → Kept m.jobs t
      → Kept m'.jobs now
  Claimed-Kept m m' t now until i mj j claimed le (a, c) =
      let mj' : MemoryJob = record mj { job = j; held_until = until } in
      let kind : mj'.kind ≡ mj.kind = ap (λ (x : Job). x.kind) claimed.returned in
      let limit : mj'.at_once ≡ mj.at_once = ap (λ (x : Job). x.at_once) claimed.returned in
      let here : P mj = All-get P m.jobs i mj a claimed.listed in
      rw claimed.store_after (
        All-set P m.jobs i mj' (subst (λ T. T) (sym (static_P mj mj' kind refl limit)) here) a,
        ground (
          arith,
          static mj mj' kind refl limit,
          room m now i mj claimed.listed claimed.may_run here,
          count-set (holds q now) m.jobs i mj mj' claimed.listed
              (unheld_not_counted now mj claimed.may_run.unheld),
          count-later q static t now m.jobs le,
        ),
      )

  claim-Kept :
      (m m' : Memory) (t now until : ℕ) (o : Option Job)
      → claim m now until ≡ (m', o)
      → t ≤ now
      → Kept m.jobs t
      → Kept m'.jobs now
  claim-Kept m m' t now until none e le (a, c) =
      rw (claim-none_same m m' now until e) (a, omega (arith, count-later q static t now m.jobs le))
  claim-Kept m m' t now until (some j) e le k =
      let (i, mj, claimed) = claim-Claimed m m' now until j e in
      Claimed-Kept m m' t now until i mj j claimed le k

  push_scheduled-Kept :
      (m : Memory) (s : Bytes) (j : Job) (t : ℕ)
      → ((id : Bytes) → P (kept (record j { id = id })))
      → Kept m.jobs t
      → Kept (push_scheduled m s j).0.jobs t
  push_scheduled-Kept m s j t h k =
      push_scheduled_cases (λ m'. Kept m'.jobs t) m s j k k (push-Kept (noted m s j) j t h k)

  push_unique-Kept :
      (m : Memory) (j : Job) (t : ℕ)
      → ((id : Bytes) → P (kept (record j { id = id })))
      → Kept m.jobs t
      → Kept (push_unique m j).0.jobs t
  unfolding push_unique
  push_unique-Kept m j t h k = elim (Bool-cases (waiting m.jobs j)) [
    | inl b ↦ rw b k
    | inr b ↦ rw b (push-Kept m j t h k)
  ]

  push_latest-Kept :
      (m : Memory) (j : Job) (t : ℕ)
      → ((id : Bytes) → P (kept (record j { id = id })))
      → Kept m.jobs t
      → Kept (push_latest m j).0.jobs t
  unfolding push_latest
  push_latest-Kept m j t h k = elim (Option-cases (move j m.jobs)) [
    | inl o ↦ rw (o, push_latest) (push-Kept m j t h k)
    | inr ((ys, id), o) ↦ rw (o, push_latest) (Eased-Kept t (move-Eased j m.jobs ys id o) k)
  ]

  -- The limit is kept through a history, at the last of its times.
  run-Kept :
      (m : Memory) (ops : List Op) (t t' : ℕ)
      → Timed t ops t'
      → All (PushesOnly P) ops
      → Kept m.jobs t
      → Kept (run m ops).jobs t'
  unfolding run step
  run-Kept m [] t t' le h (a, c) = (a, omega (arith, count-later q static t t' m.jobs le))
  run-Kept m (pushes j ∷ ops) t t' le h k =
      run-Kept (step m (pushes j)) ops t t' le h.1 (push-Kept m j t h.0 k)
  run-Kept m (pushes_scheduled s j ∷ ops) t t' le h k =
      run-Kept (step m (pushes_scheduled s j)) ops t t' le h.1 (push_scheduled-Kept m s j t h.0 k)
  run-Kept m (pushes_unique j ∷ ops) t t' le h k =
      run-Kept (step m (pushes_unique j)) ops t t' le h.1 (push_unique-Kept m j t h.0 k)
  run-Kept m (pushes_latest j ∷ ops) t t' le h k =
      run-Kept (step m (pushes_latest j)) ops t t' le h.1 (push_latest-Kept m j t h.0 k)
  run-Kept m (holds_back j until ∷ ops) t t' le h k =
      run-Kept (step m (holds_back j until)) ops t t' le h.1
        (Eased-Kept t (hold_back-Eased m j until) k)
  run-Kept m (claims now until ∷ ops) t t' le h k =
      run-Kept (step m (claims now until)) ops now t' le.1 h.1
        (claim-Kept m _ t now until _ refl le.0 k)
  run-Kept m (is_done j ∷ ops) t t' le h k =
      run-Kept (step m (is_done j)) ops t t' le h.1 (Eased-Kept t (done-Eased m j) k)
  run-Kept m (retries j ∷ ops) t t' le h k =
      run-Kept (step m (retries j)) ops t t' le h.1 (Eased-Kept t (retry-Eased m j) k)
  run-Kept m (fails j clock ∷ ops) t t' le h k =
      run-Kept (step m (fails j clock)) ops t t' le h.1 (Eased-Kept t (fail-Eased m j clock) k)
  run-Kept m (runs_again id at ∷ ops) t t' le h k =
      run-Kept (step m (runs_again id at)) ops t t' le h.1
        (Eased-Kept t (run_again-Eased m id at) k)

-- A job of an AtOnce kind is pushed with the kind's limit.
abbrev pub HasLimit : Bytes → ℕ → MemoryJob → Type 0
HasLimit kind n mj = mj.kind ≡ kind → mj.at_once ≡ n

at_once_room :
    (kind : Bytes) (n : ℕ)
    → n ≢ 0
    → (m : Memory) (now i : ℕ) (mj : MemoryJob) → get_elem? m.jobs i ≡ some mj
    → MayRun m now i mj
    → HasLimit kind n mj
    → str_eq mj.kind kind ≡ true
    → count_if (holds (λ o. str_eq o.kind kind) now) m.jobs < n
unfolding held_of_kind
at_once_room kind n nz m now i mj g r limit same =
    let e : mj.kind ≡ kind = (str_eq_iff mj.kind kind).0 same in
    let l : mj.at_once ≡ n = limit e in
    let room : held_count m mj.kind now < mj.at_once = r.below_limit (λ z. nz (sym l ∙ z)) in
    subst (λ k. count_if (held_of_kind k now) m.jobs < n) e (rw l at room)

-- Of a kind whose jobs are all pushed with AtOnce n, claims never hold more than n at once, whatever
-- the history of an empty store, as long as its claims' times do not go back.
pub run-at_once :
    (ops : List Op) (kind : Bytes) (n t : ℕ)
    → n ≢ 0
    → Timed 0 ops t
    → All (PushesOnly (HasLimit kind n)) ops
    → held_count (run empty ops) kind t ≤ n
unfolding held_of_kind
run-at_once ops kind n t nz timed only =
    (run-Kept (λ o. str_eq o.kind kind) n (HasLimit kind n)
      (λ a b ek ea el. ap (λ k. str_eq k kind) ek)
      (λ a b ek ea el. ap₂ (λ k l. k ≡ kind → l ≡ n) ek el) (at_once_room kind n nz) empty ops 0 t
      timed only (tt, omega arith)).1

-- How many jobs of the kind and OneAtATime key claims hold at now.
abbrev pub held_alone : Memory → Bytes → Bytes → ℕ → ℕ
held_alone m kind key now =
    count_if (holds (λ o. str_eq o.kind kind && str_eq o.alone key) now) m.jobs

count-zero :
    (p : MemoryJob → Bool) (xs : List MemoryJob)
    → ((k : ℕ) (x : MemoryJob) → get_elem? xs k ≡ some x → p x ≡ false)
    → count_if p xs ≡ 0
count-zero p [] h = refl
count-zero p (x ∷ xs) h = rw (h 0 x refl) (omega (arith, count-zero p xs (λ k y e. h (suc k) y e)))

-- Where a job may run, no job of its key counts as held.
none_beside :
    (kind key : Bytes) (m : Memory) (now i : ℕ) (mj : MemoryJob)
    → key ≢ []
    → MayRun m now i mj
    → get_elem? m.jobs i ≡ some mj
    → mj.kind ≡ kind
    → mj.alone ≡ key
    → (k : ℕ) (x : MemoryJob) → get_elem? m.jobs k ≡ some x
    → holds (λ o. str_eq o.kind kind && str_eq o.alone key) now x ≡ false
none_beside kind key m now i mj nonempty r g ek ea k x gk = elim (ℕ_discrete k i) [
  | yes here ↦
      let same : x ≡ mj = some-injective _ _ (sym gk ∙ rw here g) in
      let unheld : x.held_until ≤ now = rw same r.unheld in ground arith
  | no other ↦ ground (
    arith,
    str_eq_iff x.kind kind,
    str_eq_iff x.alone key,
    λ (a : x.kind ≡ mj.kind) (b : x.alone ≡ mj.alone).
        r.alone_open k x other gk a b (λ e. nonempty (sym ea ∙ e)),
  )
]

alone_room :
    (kind key : Bytes)
    → key ≢ []
    → (m : Memory) (now i : ℕ) (mj : MemoryJob) → get_elem? m.jobs i ≡ some mj
    → MayRun m now i mj
    → Unit {0}
    → (str_eq mj.kind kind && str_eq mj.alone key) ≡ true
    → held_alone m kind key now < 1
alone_room kind key nonempty m now i mj g r _ same =
    let (same_kind, same_key) = and_split _ _ same in
    let none_held : held_alone m kind key now ≡ 0 = count-zero _ m.jobs (
      none_beside kind key m now i mj nonempty r g ((str_eq_iff mj.kind kind).0 same_kind)
        ((str_eq_iff mj.alone key).0 same_key)) in
    omega arith

anything : (ops : List Op) → All (PushesOnly (λ _. Unit {0})) ops
anything [] = tt
anything (pushes j ∷ ops) = (λ _. tt, anything ops)
anything (pushes_scheduled s j ∷ ops) = (λ _. tt, anything ops)
anything (pushes_unique j ∷ ops) = (λ _. tt, anything ops)
anything (pushes_latest j ∷ ops) = (λ _. tt, anything ops)
anything (_ ∷ ops) = (tt, anything ops)

-- Of the jobs of one kind and OneAtATime key, claims never hold more than one at once, whatever the
-- history of an empty store, as long as its claims' times do not go back.
pub run-one_at_a_time :
    (ops : List Op) (kind key : Bytes) (t : ℕ)
    → key ≢ []
    → Timed 0 ops t
    → held_alone (run empty ops) kind key t ≤ 1
run-one_at_a_time ops kind key t nonempty timed =
    (run-Kept (λ o. str_eq o.kind kind && str_eq o.alone key) 1 (λ _. Unit {0})
      (λ a b ek ea el. ap₂ (λ k l. str_eq k kind && str_eq l key) ek ea) (λ a b ek ea el. refl)
      (alone_room kind key nonempty) empty ops 0 t timed (anything ops) (tt, omega arith)).1
