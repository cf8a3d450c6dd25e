-- ===== src/Queue/Memory/Ids.antt =====
-- The IDs of the jobs in memory: each is the number of its push, so no two jobs share one.
use mathlib.Core.List.{map-append, append-nil, append_assoc}
use tug.Common.{
  ℕ, zero, suc, ◌≤◌, ◌<◌, ◌≡◌, refl, sym, ap, ◌∙◌, ◌≢◌, List, [], ◌∷◌, ◌++◌, map, Bool, Option,
  none, some, arith, Bytes, itoa, itoa_injective, get_elem?, set, keep, Bool-cases, Option-cases,
  inl, inr,
}
use tug.Queue.Job.{Job}
use tug.Queue.Memory.{
  Memory, MemoryJob, push, push_scheduled, push_unique, move, push_latest, give_back, give_back_all,
  hold_back, done, change_claimed, retry, fail, revive, run_again, waiting, push_scheduled_cases,
  noted, empty, due_at, revived, claim, put_back, fail_with, Op, pushes, pushes_scheduled,
  pushes_unique, pushes_latest, holds_back, claims, is_done, retries, fails, runs_again, step, run,
}
use tug.Queue.Memory.Updates.{move-Moved, revive-Revived}
use tug.Queue.Memory.Claims.{claim-Claimed, claim-none_same}

-- Numbers above `lo` and up to `hi`, rising, as IDs.
abbrev pub Rising : ℕ → ℕ → List Bytes → Type 0
Rising lo hi [] = lo ≤ hi
Rising lo hi (id ∷ rest) = (n : ℕ) × (lo < n) × (id ≡ itoa n) × Rising n hi rest

abbrev pub ids : List MemoryJob → List Bytes
ids jobs = map (λ mj. mj.id) jobs

-- The jobs stand in the order of their pushes, with the numbers of those pushes for IDs.
abbrev pub IsNumbered : Memory → Type 0
IsNumbered m = Rising 0 m.last (ids m.jobs)

Rising-lower : (lo lo' hi : ℕ) (l : List Bytes) → lo' ≤ lo → Rising lo hi l → Rising lo' hi l
Rising-lower lo lo' hi [] le h = omega arith
Rising-lower lo lo' hi (id ∷ rest) le (n, h, e, r) = (n, omega arith, e, r)

Rising-concat :
    (lo hi : ℕ) (l : List Bytes) → Rising lo hi l → Rising lo (suc hi) (l ++ itoa (suc hi) ∷ [])
Rising-concat lo hi [] h = (suc hi, omega arith, refl, omega arith)
Rising-concat lo hi (x ∷ rest) (n, h, e, r) = (n, h, e, Rising-concat n hi rest r)

-- The ID of a job further on is another.
Rising-ne :
    (lo hi n : ℕ) (l : List Bytes) (k : ℕ) (id : Bytes)
    → Rising lo hi l
    → n ≤ lo
    → get_elem? l k ≡ some id
    → id ≢ itoa n
Rising-ne lo hi n [] k id r le g = cc
Rising-ne lo hi n (x ∷ rest) zero id (p, h, e, r) le g =
    λ e'. let eq : itoa p ≡ itoa n = cc in omega (arith, itoa_injective p n eq)
Rising-ne lo hi n (x ∷ rest) (suc k) id (p, h, e, r) le g =
    Rising-ne p hi n rest k id r (omega arith) g

Rising-unique :
    (lo hi : ℕ) (l : List Bytes) (i k : ℕ) (id : Bytes)
    → Rising lo hi l
    → get_elem? l i ≡ some id
    → get_elem? l k ≡ some id
    → i ≡ k
Rising-unique lo hi [] i k id r gi gk = cc
Rising-unique lo hi (x ∷ rest) zero zero id r gi gk = refl
Rising-unique lo hi (x ∷ rest) zero (suc k) id (n, h, ex, r) gi gk =
    absurd (Rising-ne n hi n rest k id r (omega arith) gk (cc))
Rising-unique lo hi (x ∷ rest) (suc i) zero id (n, h, ex, r) gi gk =
    absurd (Rising-ne n hi n rest i id r (omega arith) gi (cc))
Rising-unique lo hi (x ∷ rest) (suc i) (suc k) id (n, h, ex, r) gi gk =
    ap suc (Rising-unique n hi rest i k id r gi gk)

get-ids :
    (jobs : List MemoryJob) (i : ℕ) (mj : MemoryJob)
    → get_elem? jobs i ≡ some mj
    → get_elem? (ids jobs) i ≡ some mj.id
get-ids [] i mj e = cc
get-ids (x ∷ xs) zero mj e = ap (λ o. elim o [ none ↦ none | some y ↦ some y.id ]) e
get-ids (x ∷ xs) (suc i) mj e = get-ids xs i mj e

-- Two jobs in a numbered store with one ID are one job.
pub IsNumbered-unique :
    (m : Memory) (i k : ℕ) (a b : MemoryJob)
    → IsNumbered m
    → get_elem? m.jobs i ≡ some a
    → get_elem? m.jobs k ≡ some b
    → a.id ≡ b.id
    → i ≡ k
IsNumbered-unique m i k a b h gi gk e =
    Rising-unique 0 m.last (ids m.jobs) i k a.id h (get-ids m.jobs i a gi)
      (rw e (get-ids m.jobs k b gk))

pub ids-set :
    (xs : List MemoryJob) (i : ℕ) (a b : MemoryJob)
    → get_elem? xs i ≡ some a
    → a.id ≡ b.id
    → ids (set xs i b) ≡ ids xs
ids-set [] i a b g e = refl
ids-set (x ∷ xs) zero a b g e = ap (λ y. y ∷ ids xs) (sym e ∙ cc)
ids-set (x ∷ xs) (suc i) a b g e = ap (◌∷◌ x.id) (ids-set xs i a b g e)

ids-change_claimed :
    (f : MemoryJob → MemoryJob) (j : Job) (xs : List MemoryJob)
    → ((x : MemoryJob) → (f x).id ≡ x.id)
    → ids (change_claimed f j xs) ≡ ids xs
unfolding change_claimed
ids-change_claimed f j [] h = refl
ids-change_claimed f j (x ∷ xs) h = ground (arith, h x, ids-change_claimed f j xs h)

ids-move :
    (j : Job) (xs ys : List MemoryJob) (id : Bytes) → move j xs ≡ some (ys, id) → ids ys ≡ ids xs
ids-move j xs ys id e =
    let r = move-Moved j xs ys id e in
    rw r.after (ids-set xs r.at r.mj (due_at j.run_at r.mj) r.listed refl)

ids-revive :
    (id : Bytes) (at : ℕ) (xs ys : List MemoryJob) → revive id at xs ≡ some ys → ids ys ≡ ids xs
ids-revive id at xs ys e =
    let r = revive-Revived id at xs ys e in
    rw r.after (ids-set xs r.index r.mj (revived at r.mj) r.listed refl)

give_back-id :
    (j : Job) (before rest : List MemoryJob) (mj : MemoryJob)
    → (give_back j before mj rest).id ≡ mj.id
unfolding give_back
give_back-id j before rest mj = ground arith

ids-give_back_all :
    (j : Job) (before rest : List MemoryJob)
    → ids (give_back_all j before rest) ≡ ids (before ++ rest)
unfolding give_back_all
ids-give_back_all j before [] = ap ids (sym (append-nil before))
ids-give_back_all j before (mj ∷ rest) =
    ids-give_back_all j (before ++ give_back j before mj rest ∷ []) rest
    ∙ simp (map-append, append_assoc, give_back-id)

Rising-keep :
    (p : MemoryJob → Bool) (lo hi : ℕ) (xs : List MemoryJob)
    → Rising lo hi (ids xs)
    → Rising lo hi (ids (keep p xs))
Rising-keep p lo hi [] h = h
Rising-keep p lo hi (x ∷ xs) (n, h, e, r) = elim (Bool-cases (p x)) [
  | inl y ↦ rw y (n, h, e, Rising-keep p n hi xs r)
  | inr y ↦ rw y (Rising-lower n lo hi _ (omega arith) (Rising-keep p n hi xs r))
]

push-IsNumbered : (m : Memory) (j : Job) → IsNumbered m → IsNumbered (push m j).0
unfolding push
push-IsNumbered m j h = simp map-append (Rising-concat 0 m.last (ids m.jobs) h)

push_scheduled-IsNumbered :
    (m : Memory) (s : Bytes) (j : Job) → IsNumbered m → IsNumbered (push_scheduled m s j).0
push_scheduled-IsNumbered m s j h =
    push_scheduled_cases IsNumbered m s j h h (push-IsNumbered (noted m s j) j h)

push_latest-IsNumbered : (m : Memory) (j : Job) → IsNumbered m → IsNumbered (push_latest m j).0
unfolding push_latest
push_latest-IsNumbered m j h = elim (Option-cases (move j m.jobs)) [
  | inl o ↦ rw (o, push_latest) (push-IsNumbered m j h)
  | inr ((ys, id), o) ↦ rw (o, push_latest) (rw (ids-move j m.jobs ys id o) h)
]

run_again-IsNumbered :
    (m : Memory) (id : Bytes) (at : ℕ) → IsNumbered m → IsNumbered (run_again m id at).0
unfolding run_again
run_again-IsNumbered m id at h = elim (Option-cases (revive id at m.jobs)) [
  | inl o ↦ rw (o, run_again) h
  | inr (ys, o) ↦ rw (o, run_again) (rw (ids-revive id at m.jobs ys o) h)
]

push_unique-IsNumbered : (m : Memory) (j : Job) → IsNumbered m → IsNumbered (push_unique m j).0
unfolding push_unique
push_unique-IsNumbered m j h = elim (Bool-cases (waiting m.jobs j)) [
  | inl b ↦ rw b h
  | inr b ↦ rw b (push-IsNumbered m j h)
]

pub claim-IsNumbered :
    (m m' : Memory) (now until : ℕ) (o : Option Job)
    → claim m now until ≡ (m', o)
    → IsNumbered m
    → IsNumbered m'
claim-IsNumbered m m' now until none e h = rw (claim-none_same m m' now until e) h
claim-IsNumbered m m' now until (some j) e h =
    let (i, mj, claimed) = claim-Claimed m m' now until j e in
    let id : mj.id ≡ j.id = sym (ap (λ (x : Job). x.id) claimed.returned) in
    rw claimed.store_after
      (rw (ids-set m.jobs i mj (record mj { job = j; held_until = until }) claimed.listed id) h)

pub hold_back-IsNumbered :
    (m : Memory) (j : Job) (until : ℕ) → IsNumbered m → IsNumbered (hold_back m j until)
unfolding hold_back
hold_back-IsNumbered m j until h = rw (ids-give_back_all j [] m.jobs) h

-- Every method keeps the jobs numbered.
pub step-IsNumbered : (m : Memory) (op : Op) → IsNumbered m → IsNumbered (step m op)
unfolding step done retry fail
step-IsNumbered m (pushes j) h = push-IsNumbered m j h
step-IsNumbered m (pushes_scheduled s j) h = push_scheduled-IsNumbered m s j h
step-IsNumbered m (pushes_unique j) h = push_unique-IsNumbered m j h
step-IsNumbered m (pushes_latest j) h = push_latest-IsNumbered m j h
step-IsNumbered m (holds_back j until) h = hold_back-IsNumbered m j until h
step-IsNumbered m (claims now until) h = claim-IsNumbered m _ now until _ refl h
step-IsNumbered m (is_done j) h = Rising-keep _ 0 m.last m.jobs h
step-IsNumbered m (retries j) h = rw (ids-change_claimed (put_back j) j m.jobs (λ x. refl)) h
step-IsNumbered m (fails j clock) h =
    rw (ids-change_claimed (fail_with j clock) j m.jobs (λ x. refl)) h
step-IsNumbered m (runs_again id at) h = run_again-IsNumbered m id at h

pub run-IsNumbered : (m : Memory) (ops : List Op) → IsNumbered m → IsNumbered (run m ops)
unfolding run
run-IsNumbered m [] h = h
run-IsNumbered m (op ∷ ops) h = run-IsNumbered (step m op) ops (step-IsNumbered m op h)

-- After any history of an empty store, two jobs in it with one ID are one job.
pub run_ids_unique :
    (ops : List Op) (i k : ℕ) (a b : MemoryJob)
    → get_elem? (run empty ops).jobs i ≡ some a
    → get_elem? (run empty ops).jobs k ≡ some b
    → a.id ≡ b.id
    → i ≡ k
run_ids_unique ops i k a b gi gk e =
    IsNumbered-unique (run empty ops) i k a b (run-IsNumbered empty ops (omega arith)) gi gk e
