-- ===== src/Queue/Memory/Keys.antt =====
-- The keys of unique jobs, and the runs of schedules: of several pushes of one, one is kept.
use mathlib.Core.Option.{some-injective}
use mathlib.Core.List.{append-nil, append_assoc}
use mathlib.Core.Bool.{and-false}
use tug.Common.{
  ℕ, zero, suc, ◌+◌, ◌≤◌, ◌≡◌, refl, sym, ap, ◌∙◌, ◌≢◌, ◌⊎◌, List, [], ◌∷◌, ◌++◌, Bool, true, false,
  ◌&&◌, not, Option, none, some, arith, Bytes, str_eq, str_eq_iff, str_eq_refl, if◌then◌else◌,
  get_elem?, set, keep, Bool-cases, Option-cases, inl, inr, any, count_if, lookup, lookup-insert,
  ltb, and_split, itoa,
}
use tug.Queue.Job.{Job}
use tug.Queue.Memory.{
  Memory, MemoryJob, empty, kept, push, push_scheduled, keep_run, push_unique, push_latest, move,
  due_at, taken_back, give_back, give_back_all, hold_back, claim, claimed_by, done, change_claimed,
  retry, fail, put_back, fail_with, revive, revived, run_again, Op, pushes, pushes_scheduled,
  pushes_unique, pushes_latest, holds_back, claims, is_done, retries, fails, runs_again, step, run,
  noted, waiting, same_key, is_empty,
}
use tug.Queue.Memory.Updates.{move-Moved, revive-Revived}
use tug.Queue.Memory.Claims.{claim-Claimed, claim-none_same}

-- Jobs of the kind that wait with the key.
abbrev pub with_key : Bytes → Bytes → MemoryJob → Bool
with_key kind key mj = str_eq mj.kind kind && str_eq mj.key key

-- The queue gives a job that it pushes with Push no key, and HoldBack the job that a claim returned,
-- whose kind is the one that the store keeps.
abbrev pub Fits : Memory → Op → Type 0
Fits m (pushes j) = j.key ≡ []
Fits m (holds_back j until) =
    (i : ℕ) (mj : MemoryJob)
    → get_elem? m.jobs i ≡ some mj
    → claimed_by mj j ≡ true
    → mj.kind ≡ j.kind
Fits m _ = Unit

abbrev pub FitsAll : Memory → List Op → Type 0
FitsAll m [] = Unit
FitsAll m (op ∷ ops) = Fits m op × FitsAll (step m op) ops

count-none : (p : MemoryJob → Bool) (xs : List MemoryJob) → any p xs ≡ false → count_if p xs ≡ 0
count-none p [] h = refl
count-none p (x ∷ xs) h = ground (arith, count-none p xs)

count-append :
    (p : MemoryJob → Bool) (xs ys : List MemoryJob)
    → count_if p (xs ++ ys) ≡ count_if p xs + count_if p ys
count-append p [] ys = omega arith
count-append p (x ∷ xs) ys = omega (arith, count-append p xs ys)

count-set-le :
    (p : MemoryJob → Bool) (xs : List MemoryJob) (i : ℕ) (a b : MemoryJob)
    → get_elem? xs i ≡ some a
    → (p b ≡ p a) ⊎ (p b ≡ false)
    → count_if p (set xs i b) ≤ count_if p xs
count-set-le p [] i a b g h = cc
count-set-le p (x ∷ xs) zero a b g h =
    let same : p x ≡ p a = ap p (some-injective _ _ g) in ground arith
count-set-le p (x ∷ xs) (suc i) a b g h = omega (arith, count-set-le p xs i a b g h)

count-keep-le :
    (p q : MemoryJob → Bool) (xs : List MemoryJob) → count_if p (keep q xs) ≤ count_if p xs
count-keep-le p q [] = omega arith
count-keep-le p q (x ∷ xs) = ground (arith, count-keep-le p q xs)

count-change_claimed :
    (p : MemoryJob → Bool) (f : MemoryJob → MemoryJob) (j : Job) (xs : List MemoryJob)
    → ((x : MemoryJob) → p (f x) ≡ p x)
    → count_if p (change_claimed f j xs) ≡ count_if p xs
unfolding change_claimed
count-change_claimed p f j [] h = refl
count-change_claimed p f j (x ∷ xs) h = ground (arith, h x, count-change_claimed p f j xs h)

nonempty-false : (k : Bytes) → k ≢ [] → is_empty k ≡ false
nonempty-false [] h = absurd (h refl)
nonempty-false (x ∷ xs) h = refl

-- No job waits with j's key, so j's key is its own.
not_waiting-count :
    (xs : List MemoryJob) (j : Job) (kind key : Bytes)
    → waiting xs j ≡ false
    → key ≢ []
    → j.kind ≡ kind
    → j.key ≡ key
    → count_if (with_key kind key) xs ≡ 0
unfolding waiting same_key
not_waiting-count xs j kind key h nonempty ek eq =
    let some_key : is_empty j.key ≡ false = nonempty-false j.key (λ e. nonempty (sym eq ∙ e)) in
    let clear : any (with_key j.kind j.key) xs ≡ false = rw some_key at h in
    rw (← ek, ← eq) (count-none (with_key j.kind j.key) xs clear)

module _ (kind key : Bytes) (nonempty : key ≢ []) where
  -- One job at most waits with the key.
  abbrev One : List MemoryJob → Type 0
  One xs = count_if (with_key kind key) xs ≤ 1

  no_key-false : (mj : MemoryJob) → mj.key ≡ [] → with_key kind key mj ≡ false
  no_key-false mj e = elim (Bool-cases (str_eq mj.key key)) [
    | inl t ↦ absurd (nonempty (sym ((str_eq_iff mj.key key).0 t) ∙ e))
    | inr t ↦ rw t (and-false _)
  ]

  -- A job may join those that wait if none has its key, or it has none.
  joins :
      (xs : List MemoryJob) (j : Job) (b : Bool)
      → with_key kind key (kept j) ≡ b
      → (waiting xs j ≡ false) ⊎ (j.key ≡ [])
      → One xs
      → One (xs ++ kept j ∷ [])
  joins xs j false t h one = rw (count-append (with_key kind key) xs _, t) (omega arith)
  joins xs j true t (inr e) one = absurd (cc (t, no_key-false (kept j) e))
  joins xs j true t (inl w) one =
      let (k, c) = and_split _ _ t in
      let none_yet =
        not_waiting-count xs j kind key w nonempty ((str_eq_iff j.kind kind).0 k)
          ((str_eq_iff j.key key).0 c) in
      rw (count-append (with_key kind key) xs _, t, none_yet) (omega arith)

  push-One :
      (m : Memory) (j : Job)
      → (waiting m.jobs j ≡ false) ⊎ (j.key ≡ [])
      → One m.jobs
      → One (push m j).0.jobs
  unfolding push waiting same_key
  push-One m j h one = joins m.jobs (record j { id = itoa (suc m.last) }) _ refl h one

  count-middle :
      (before rest : List MemoryJob) (x : MemoryJob)
      → count_if (with_key kind key) (before ++ x ∷ rest)
        ≡ count_if (with_key kind key) before
          + ((if with_key kind key x then 1 else 0) + count_if (with_key kind key) rest)
  count-middle before rest x = count-append (with_key kind key) before (x ∷ rest)

  rekeyed-One :
      (j : Job) (before rest : List MemoryJob) (mj : MemoryJob) (b : Bool)
      → mj.kind ≡ j.kind
      → waiting (before ++ taken_back mj ∷ rest) j ≡ false
      → (str_eq mj.kind kind && str_eq j.key key) ≡ b
      → One (before ++ mj ∷ rest)
      → One (
          before
          ++ record (taken_back mj) { job = record (taken_back mj).job { key = j.key } } ∷ rest)
  rekeyed-One j before rest mj false same w t one =
      rw (count-middle before rest _, t) (omega (arith, count-middle before rest mj))
  rekeyed-One j before rest mj true same w t one =
      let (k, c) = and_split _ _ t in
      let none_yet =
        not_waiting-count (before ++ taken_back mj ∷ rest) j kind key w nonempty
          (sym same ∙ (str_eq_iff mj.kind kind).0 k) ((str_eq_iff j.key key).0 c) in
      rw (count-middle before rest _, t)
        (omega (arith, none_yet, count-middle before rest (taken_back mj)))

  give_back-One :
      (j : Job) (before rest : List MemoryJob) (mj : MemoryJob)
      → (claimed_by mj j ≡ true → mj.kind ≡ j.kind)
      → One (before ++ mj ∷ rest)
      → One (before ++ give_back j before mj rest ∷ rest)
  unfolding give_back
  give_back-One j before rest mj fits one = elim (Bool-cases (claimed_by mj j)) [
    | inr c ↦ rw c one
    | inl c ↦ elim (Bool-cases (waiting (before ++ taken_back mj ∷ rest) j)) [
      | inl w ↦
          rw (c, w)
            (omega (arith, count-middle before rest mj, count-middle before rest (taken_back mj)))
      | inr w ↦ rw (c, w) (rekeyed-One j before rest mj _ (fits c) w refl one)
    ]
  ]

  give_back_all-One :
      (j : Job) (before rest : List MemoryJob)
      → ((k : ℕ) (mj : MemoryJob)
          → get_elem? rest k ≡ some mj
          → claimed_by mj j ≡ true
          → mj.kind ≡ j.kind)
      → One (before ++ rest)
      → One (give_back_all j before rest)
  unfolding give_back_all
  give_back_all-One j before [] fits one = rw append-nil at one
  give_back_all-One j before (mj ∷ rest) fits one =
      give_back_all-One j (before ++ give_back j before mj rest ∷ []) rest
        (λ k x g. fits (suc k) x g)
        (rw append_assoc (give_back-One j before rest mj (fits 0 mj refl) one))

  push_unique-One : (m : Memory) (j : Job) → One m.jobs → One (push_unique m j).0.jobs
  unfolding push_unique
  push_unique-One m j one = elim (Bool-cases (waiting m.jobs j)) [
    | inl w ↦ rw w one
    | inr w ↦ rw w (push-One m j (inl w) one)
  ]

  -- Where nothing of the key waits the loop of PushLatest finds nothing.
  move-none : (j : Job) (xs : List MemoryJob) → move j xs ≡ none → waiting xs j ≡ false
  unfolding move waiting
  move-none j [] e = and-false _
  move-none j (x ∷ xs) e = elim (Option-cases (move j xs)) [
    | inl o ↦ ground (arith, move-none j xs o)
    | inr (found, o) ↦ absurd (ground arith)
  ]

  push_latest-One : (m : Memory) (j : Job) → One m.jobs → One (push_latest m j).0.jobs
  unfolding push_latest
  push_latest-One m j one = elim (Option-cases (move j m.jobs)) [
    | inl o ↦ rw (o, push_latest) (push-One m j (inl (move-none j m.jobs o)) one)
    | inr ((ys, id), o) ↦
        let r = move-Moved j m.jobs ys id o in
        let fewer =
          count-set-le (with_key kind key) m.jobs r.at r.mj (due_at j.run_at r.mj) r.listed
            (inl refl) in
        rw (o, push_latest) (rw r.after (omega (arith, fewer)))
  ]

  keep_run-One : (m : Memory) (s : Bytes) (j : Job) → One m.jobs → One (keep_run m s j).jobs
  unfolding keep_run
  keep_run-One m s j one = elim (Bool-cases (waiting m.jobs j)) [
    | inl w ↦ rw w one
    | inr w ↦ rw w (push-One (noted m s j) j (inl w) one)
  ]

  push_scheduled-One :
      (m : Memory) (s : Bytes) (j : Job) → One m.jobs → One (push_scheduled m s j).0.jobs
  unfolding push_scheduled
  push_scheduled-One m s j one = elim (Option-cases (lookup s m.schedules)) [
    | inl o ↦ rw (o, push_scheduled) (keep_run-One m s j one)
    | inr (at, o) ↦ elim (Bool-cases (ltb at j.run_at)) [
      | inl b ↦ rw (o, push_scheduled) (rw b (keep_run-One m s j one))
      | inr b ↦ rw (o, push_scheduled) (rw b one)
    ]
  ]

  claim-One :
      (m m' : Memory) (now until : ℕ) (o : Option Job)
      → claim m now until ≡ (m', o)
      → One m.jobs
      → One m'.jobs
  claim-One m m' now until none e one = rw (claim-none_same m m' now until e) one
  claim-One m m' now until (some j) e one =
      let (i, mj, claimed) = claim-Claimed m m' now until j e in
      let mj' : MemoryJob = record mj { job = j; held_until = until } in
      let let_go : j.key ≡ [] = ap (λ (x : Job). x.key) claimed.returned in
      let fewer =
        count-set-le (with_key kind key) m.jobs i mj mj' claimed.listed
          (inr (no_key-false mj' let_go)) in
      rw claimed.store_after (omega (arith, fewer))

  run_again-One : (m : Memory) (id : Bytes) (at : ℕ) → One m.jobs → One (run_again m id at).0.jobs
  unfolding run_again
  run_again-One m id at one = elim (Option-cases (revive id at m.jobs)) [
    | inl o ↦ rw (o, run_again) one
    | inr (ys, o) ↦
        let r = revive-Revived id at m.jobs ys o in
        let fewer =
          count-set-le (with_key kind key) m.jobs r.index r.mj (revived at r.mj) r.listed
            (inl refl) in
        rw (o, run_again) (rw r.after (omega (arith, fewer)))
  ]

  step-One : (m : Memory) (op : Op) → Fits m op → One m.jobs → One (step m op).jobs
  unfolding step hold_back done retry fail
  step-One m (pushes j) f one = push-One m j (inr f) one
  step-One m (pushes_scheduled s j) f one = push_scheduled-One m s j one
  step-One m (pushes_unique j) f one = push_unique-One m j one
  step-One m (pushes_latest j) f one = push_latest-One m j one
  step-One m (holds_back j until) f one = give_back_all-One j [] m.jobs f one
  step-One m (claims now until) f one = claim-One m _ now until _ refl one
  step-One m (is_done j) f one =
      omega (arith, count-keep-le (with_key kind key) (λ mj. not (claimed_by mj j)) m.jobs)
  step-One m (retries j) f one =
      rw (count-change_claimed (with_key kind key) (put_back j) j m.jobs (λ x. refl)) one
  step-One m (fails j clock) f one =
      rw (count-change_claimed (with_key kind key) (fail_with j clock) j m.jobs (λ x. refl)) one
  step-One m (runs_again id at) f one = run_again-One m id at one

  run-One : (m : Memory) (ops : List Op) → FitsAll m ops → One m.jobs → One (run m ops).jobs
  unfolding run
  run-One m [] f one = one
  run-One m (op ∷ ops) f one = run-One (step m op) ops f.1 (step-One m op f.0 one)

-- However the pushes, claims and other calls on an empty store follow one another, one job of a kind at
-- most waits with a key, as long as Push is given jobs with no key, and HoldBack jobs of the kind that
-- the store keeps under their IDs.
pub run-unique_keys :
    (ops : List Op) (kind key : Bytes)
    → key ≢ []
    → FitsAll empty ops
    → count_if (with_key kind key) (run empty ops).jobs ≤ 1
run-unique_keys ops kind key nonempty f = run-One kind key nonempty empty ops f (omega arith)

newly_noted : (m : Memory) (s : Bytes) (j : Job) → lookup s (noted m s j).schedules ≡ some j.run_at
newly_noted m s j = rw (lookup-insert s s j.run_at m.schedules, str_eq_refl s) refl

keep_run-schedules :
    (m : Memory) (s : Bytes) (j : Job) → lookup s (keep_run m s j).schedules ≡ some j.run_at
unfolding keep_run push
keep_run-schedules m s j = elim (Bool-cases (waiting m.jobs j)) [
  | inl w ↦ rw w (newly_noted m s j)
  | inr w ↦ rw w (newly_noted m s j)
]

refused :
    (m : Memory) (s : Bytes) (j : Job) (at : ℕ)
    → lookup s m.schedules ≡ some at
    → ltb at j.run_at ≡ false
    → push_scheduled m s j ≡ (m, false)
unfolding push_scheduled
refused m s j at o b = rw (o, push_scheduled) (rw b refl)

accepted :
    (m : Memory) (s : Bytes) (j older : Job)
    → older.run_at ≤ j.run_at
    → push_scheduled (keep_run m s j) s older ≡ (keep_run m s j, false)
accepted m s j older le =
    refused (keep_run m s j) s older j.run_at (keep_run-schedules m s j) (ground arith)

pushed_first :
    (m : Memory) (s : Bytes) (j : Job)
    → lookup s m.schedules ≡ none
    → push_scheduled m s j ≡ (keep_run m s j, true)
unfolding push_scheduled
pushed_first m s j o = rw (o, push_scheduled) refl

pushed_later :
    (m : Memory) (s : Bytes) (j : Job) (at : ℕ)
    → lookup s m.schedules ≡ some at
    → ltb at j.run_at ≡ true
    → push_scheduled m s j ≡ (keep_run m s j, true)
unfolding push_scheduled
pushed_later m s j at o b = rw (o, push_scheduled) (rw b refl)

answers :
    (m : Memory) (s : Bytes) (j older : Job)
    → older.run_at ≤ j.run_at
    → push_scheduled m s j ≡ (keep_run m s j, true)
    → ((push_scheduled m s j).1 ≡ true)
      × (push_scheduled (push_scheduled m s j).0 s older ≡ ((push_scheduled m s j).0, false))
answers m s j older le e = rw e (refl, accepted m s j older le)

-- A run of a schedule is pushed once: PushScheduled answers that it pushed j, and a later push of the
-- same run or of an older one is refused and leaves the store as it is; or it refuses j itself, and
-- refuses the older run too, leaving the store as it is.
pub push_scheduled_once :
    (m : Memory) (s : Bytes) (j older : Job)
    → older.run_at ≤ j.run_at
    → ((push_scheduled m s j).1 ≡ true)
        × (push_scheduled (push_scheduled m s j).0 s older ≡ ((push_scheduled m s j).0, false))
      ⊎ (push_scheduled m s j ≡ (m, false)) × (push_scheduled m s older ≡ (m, false))
push_scheduled_once m s j older le = elim (Option-cases (lookup s m.schedules)) [
  | inl o ↦ inl (answers m s j older le (pushed_first m s j o))
  | inr (at, o) ↦ elim (Bool-cases (ltb at j.run_at)) [
    | inl b ↦ inl (answers m s j older le (pushed_later m s j at o b))
    | inr b ↦ inr (refused m s j at o b, refused m s older at o (ground arith))
  ]
]
