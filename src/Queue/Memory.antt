-- ===== src/Queue/Memory.antt =====
-- The Store that keeps a queue's jobs in memory (queue/queuetest/queuetest.go). Each method runs under
-- the store's mutex, so it is one function from the state before to the state after. A method that
-- sets a field of the job it is given returns that job too. Methods here never return an error.
pub mod Updates
pub mod Ids
pub mod Claims
pub mod Eased
pub mod Limits
pub mod Holds
pub mod Late
pub mod Stale
pub mod Keys
mod Tests
use tug.Common.{
  ℕ, zero, suc, ◌+◌, ◌≡◌, List, [], ◌∷◌, ◌++◌, Bool, true, false, not, ◌&&◌, ◌||◌, Option, none,
  some, Bytes, str_eq, itoa, lookup, insert, zero_or, ltb, leb, ◌==◌, if◌then◌else◌, any, any_but,
  set, keep, count_if, Bool-cases, Option-cases, inl, inr,
}
use tug.Common.Int.{ℤ, pos, negsuc, ◌+ℤ◌, ◌-ℤ◌}
use tug.Queue.Job.{Job}

pub record MemoryJob : Type 0 where
  pub job : Job
  pub open job use *
  pub held_until : ℕ
  pub failed : Bool
  pub alone : Bytes

pub record Memory : Type 0 where
  pub last : ℕ
  pub jobs : List MemoryJob
  pub schedules : List (Bytes × ℕ)
  pub held : List (Bytes × ℕ)

-- The zero value, an empty store.
abbrev pub empty : Memory
empty = record { last = 0; jobs = []; schedules = []; held = [] }

-- Go's == on ints.
unfoldable pub same_attempts : ℤ → ℤ → Bool
same_attempts (pos a) (pos b) = a == b
same_attempts (negsuc a) (negsuc b) = a == b
same_attempts _ _ = false

abbrev pub is_empty : Bytes → Bool
is_empty [] = true
is_empty (_ ∷ _) = false

-- Whether j is mj as its latest claim returned it.
unfoldable pub claimed_by : MemoryJob → Job → Bool
unfolding same_attempts
claimed_by mj j = str_eq mj.id j.id && same_attempts mj.attempts j.attempts && not mj.failed

unfoldable pub same_key : Job → MemoryJob → Bool
same_key j mj = str_eq mj.kind j.kind && str_eq mj.key j.key

unfoldable pub waiting : List MemoryJob → Job → Bool
waiting jobs j = not (is_empty j.key) && any (same_key j) jobs

abbrev pub kept : Job → MemoryJob
kept j = record {
  job = j;
  held_until = 0;
  failed = false;
  alone = if j.one_at_a_time then j.key else [];
}

-- `push`, and `Push`, which only calls it.
unfoldable pub push : Memory → Job → Memory × Job
push m j =
    let j' : Job = record j { id = itoa (suc m.last) } in
    (record m { last = suc m.last; jobs = m.jobs ++ kept j' ∷ [] }, j')

-- The store with the schedule's run noted as pushed.
abbrev pub noted : Memory → Bytes → Job → Memory
noted m schedule j = record m { schedules = insert schedule j.run_at m.schedules }

-- `PushScheduled` past its first test.
unfoldable pub keep_run : Memory → Bytes → Job → Memory
keep_run m schedule j =
    if waiting m.jobs j then noted m schedule j else (push (noted m schedule j) j).0

unfoldable pub push_scheduled : Memory → Bytes → Job → Memory × Bool
push_scheduled m schedule j = elim (lookup schedule m.schedules) [
  | none ↦ (keep_run m schedule j, true)
  | some last_run ↦ if ltb last_run j.run_at then (keep_run m schedule j, true) else (m, false)
]

unfoldable pub push_unique : Memory → Job → Memory × Bool
push_unique m j = if waiting m.jobs j then (m, false) else ((push m j).0, true)

abbrev pub due_at : ℕ → MemoryJob → MemoryJob
due_at at mj = record mj { job = record mj.job { run_at = at } }

-- The loop of `PushLatest`: the first job of the key is moved, and its ID returned.
unfoldable pub move : Job → List MemoryJob → Option (List MemoryJob × Bytes)
move j [] = none
move j (mj ∷ rest) =
    if not (is_empty j.key) && same_key j mj
    then some (due_at j.run_at mj ∷ rest, mj.id)
    else elim (move j rest) [ none ↦ none | some (moved, id) ↦ some (mj ∷ moved, id) ]

unfoldable pub push_latest : Memory → Job → Memory × Job
push_latest m j = elim (move j m.jobs) [
  | none ↦ push m j
  | some (moved, id) ↦ (record m { jobs = moved }, record j { id = id })
]

abbrev pub taken_back : MemoryJob → MemoryJob
taken_back mj = record mj {
  job = record mj.job { attempts = mj.attempts -ℤ pos 1 };
  held_until = 0;
}

-- A round of the loop of `HoldBack`, on a job that stands between two parts of the list.
unfoldable pub give_back : Job → List MemoryJob → MemoryJob → List MemoryJob → MemoryJob
give_back j before mj rest =
    let back : MemoryJob = taken_back mj in
    if claimed_by mj j
    then if waiting (before ++ back ∷ rest) j
      then back
      else record back { job = record back.job { key = j.key } }
    else mj

-- The loop of `HoldBack`: the jobs that it has gone past, and those to come.
unfoldable pub give_back_all : Job → List MemoryJob → List MemoryJob → List MemoryJob
give_back_all j before [] = before
give_back_all j before (mj ∷ rest) =
    give_back_all j (before ++ give_back j before mj rest ∷ []) rest

-- When the kind was held back until, the zero time for never.
unfoldable pub held_back : Memory → Bytes → ℕ
held_back m kind = zero_or (lookup kind m.held)

unfoldable pub hold_back : Memory → Job → ℕ → Memory
hold_back m j until = record m {
  held = if ltb (held_back m j.kind) until then insert j.kind until m.held else m.held;
  jobs = give_back_all j [] m.jobs;
}

abbrev pub is_held : ℕ → MemoryJob → Bool
is_held now mj = ltb now mj.held_until

unfoldable pub runs_beside : MemoryJob → ℕ → MemoryJob → Bool
runs_beside mj now other =
    str_eq other.kind mj.kind && str_eq other.alone mj.alone && is_held now other

-- Whether a claim holds another job than mj, at index i, of its kind and OneAtATime key.
unfoldable pub running : Memory → ℕ → MemoryJob → ℕ → Bool
running m i mj now = not (is_empty mj.alone) && any_but i (runs_beside mj now) m.jobs

unfoldable pub held_of_kind : Bytes → ℕ → MemoryJob → Bool
held_of_kind kind now other = str_eq other.kind kind && is_held now other

unfoldable pub at_limit : Memory → MemoryJob → ℕ → Bool
at_limit m mj now =
    if mj.at_once == 0 then false else leb mj.at_once (count_if (held_of_kind mj.kind now) m.jobs)

-- The test of `Claim` for passing the job at index i over.
unfoldable pub passed_over : Memory → ℕ → ℕ → MemoryJob → Bool
passed_over m now i mj =
    mj.failed
    || ltb now mj.run_at
    || is_held now mj
    || ltb now (held_back m mj.kind)
    || running m i mj now
    || at_limit m mj now

abbrev pub Found : Type 0
Found = Option (ℕ × MemoryJob)

unfoldable pub sooner : ℕ → MemoryJob → Found → Found
sooner i mj none = some (i, mj)
sooner i mj (some (k, best)) = if ltb mj.run_at best.run_at then some (i, mj) else some (k, best)

-- The loop of `Claim`, from index i on; the last argument is `next`, with its index.
unfoldable pub find_next : Memory → ℕ → ℕ → List MemoryJob → Found → Found
find_next m now i [] next = next
find_next m now i (mj ∷ rest) next =
    find_next m now (suc i) rest (if passed_over m now i mj then next else sooner i mj next)

abbrev pub take_hold : MemoryJob → ℕ → MemoryJob
take_hold mj until = record mj {
  job = record mj.job { attempts = mj.attempts +ℤ pos 1; key = [] };
  held_until = until;
}

-- What `Claim` does with `next`.
unfoldable pub hold_next : Memory → ℕ → Found → Memory × Option Job
hold_next m until none = (m, none)
hold_next m until (some (i, mj)) =
    let mj' : MemoryJob = take_hold mj until in (record m { jobs = set m.jobs i mj' }, some mj'.job)

unfoldable pub claim : Memory → ℕ → ℕ → Memory × Option Job
claim m now until = hold_next m until (find_next m now 0 m.jobs none)

unfoldable pub done : Memory → Job → Memory
done m j = record m { jobs = keep (λ mj. not (claimed_by mj j)) m.jobs }

-- A change made to each job that j's claim holds.
unfoldable pub change_claimed : (MemoryJob → MemoryJob) → Job → List MemoryJob → List MemoryJob
change_claimed f j [] = []
change_claimed f j (mj ∷ rest) = (if claimed_by mj j then f mj else mj) ∷ change_claimed f j rest

abbrev pub put_back : Job → MemoryJob → MemoryJob
put_back j mj = record mj {
  job = record mj.job { run_at = j.run_at; error = j.error };
  held_until = 0;
}

unfoldable pub retry : Memory → Job → Memory
retry m j = record m { jobs = change_claimed (put_back j) j m.jobs }

-- A job that has failed; `clock` is what `time.Now` reads.
abbrev pub fail_with : Job → ℕ → MemoryJob → MemoryJob
fail_with j clock mj = record mj {
  job = record mj.job {
    error = j.error;
    failed_at = if j.failed_at == 0 then clock else j.failed_at;
  };
  failed = true;
  held_until = 0;
}

unfoldable pub fail : Memory → Job → ℕ → Memory
fail m j clock = record m { jobs = change_claimed (fail_with j clock) j m.jobs }

-- The failed jobs, the one pushed last first: the loop of `Failed`, which goes backward.
unfoldable pub failed_backward : List MemoryJob → List Job
failed_backward [] = []
failed_backward (mj ∷ rest) = failed_backward rest ++ (if mj.failed then mj.job ∷ [] else [])

-- `slices.SortStableFunc` by the later `failed_at` first.
unfoldable pub place : Job → List Job → List Job
place j [] = j ∷ []
place j (k ∷ rest) = if ltb j.failed_at k.failed_at then k ∷ place j rest else j ∷ k ∷ rest

unfoldable pub sort_latest : List Job → List Job
sort_latest [] = []
sort_latest (j ∷ rest) = place j (sort_latest rest)

unfoldable pub failed_jobs : Memory → List Job
failed_jobs m = sort_latest (failed_backward m.jobs)

abbrev pub revived : ℕ → MemoryJob → MemoryJob
revived at mj = record mj {
  job = record mj.job { attempts = pos 0; run_at = at; failed_at = 0 };
  failed = false;
  held_until = 0;
}

-- The loop of `RunAgain`, which returns at the first failed job with the ID.
unfoldable pub revive : Bytes → ℕ → List MemoryJob → Option (List MemoryJob)
revive id at [] = none
revive id at (mj ∷ rest) =
    if str_eq mj.id id && mj.failed
    then some (revived at mj ∷ rest)
    else elim (revive id at rest) [ none ↦ none | some others ↦ some (mj ∷ others) ]

unfoldable pub run_again : Memory → Bytes → ℕ → Memory × Bool
run_again m id at = elim (revive id at m.jobs) [
  | none ↦ (m, false)
  | some revived ↦ (record m { jobs = revived }, true)
]

-- A call of one of the methods, with what it is given. `push` stands for `Push` alone.
pub data Op : Type 0 where
  pushes : Job → Op
  pushes_scheduled : Bytes → Job → Op
  pushes_unique : Job → Op
  pushes_latest : Job → Op
  holds_back : Job → ℕ → Op
  claims : (now until : ℕ) → Op
  is_done : Job → Op
  retries : Job → Op
  fails : Job → ℕ → Op
  runs_again : Bytes → ℕ → Op

unfoldable pub step : Memory → Op → Memory
step m (pushes j) = (push m j).0
step m (pushes_scheduled s j) = (push_scheduled m s j).0
step m (pushes_unique j) = (push_unique m j).0
step m (pushes_latest j) = (push_latest m j).0
step m (holds_back j until) = hold_back m j until
step m (claims now until) = (claim m now until).0
step m (is_done j) = done m j
step m (retries j) = retry m j
step m (fails j clock) = fail m j clock
step m (runs_again id at) = (run_again m id at).0

-- A history of calls, in the order in which they take the mutex.
unfoldable pub run : Memory → List Op → Memory
run m [] = m
run m (op ∷ ops) = run (step m op) ops

kept_either {ℓ} :
    (P : Memory → Type ℓ) (m : Memory) (s : Bytes) (j : Job)
    → P (noted m s j)
    → P (push (noted m s j) j).0
    → P (keep_run m s j)
unfolding keep_run
kept_either P m s j waits pushed = elim (Bool-cases (waiting m.jobs j)) [
  | inl b ↦ rw b waits
  | inr b ↦ rw b pushed
]

-- What holds of the store as it was, with the run noted, and with its job pushed too, holds of it
-- after `PushScheduled`.
pub push_scheduled_cases {ℓ} :
    (P : Memory → Type ℓ) (m : Memory) (s : Bytes) (j : Job)
    → P m
    → P (noted m s j)
    → P (push (noted m s j) j).0
    → P (push_scheduled m s j).0
unfolding push_scheduled
push_scheduled_cases P m s j same waits pushed = elim (Option-cases (lookup s m.schedules)) [
  | inl o ↦ rw (o, push_scheduled) (kept_either P m s j waits pushed)
  | inr (at, o) ↦ elim (Bool-cases (ltb at j.run_at)) [
    | inl b ↦ rw (o, push_scheduled) (rw b (kept_either P m s j waits pushed))
    | inr b ↦ rw (o, push_scheduled) (rw b same)
  ]
]
