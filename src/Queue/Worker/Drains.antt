-- ===== src/Queue/Worker/Drains.antt =====
-- Drain ends, once it has run what is due.
use mathlib.Core.Option.{some-injective}
use tug.Common.{
  ℕ, zero, suc, ◌+◌, ◌≤◌, ◌<◌, ◌≡◌, refl, sym, ap, ◌∙◌, List, [], ◌∷◌, Bool, true, false, not, ◌&&◌,
  ◌||◌, none, some, arith, Bytes, str_eq_refl, get_elem?, set, get_elem?-set_self, keep, count_if,
  Bool-cases, Option-cases, inl, inr, leb,
}
use tug.Common.Int.{ℤ, pos, negsuc}
use tug.Queue.Job.{Job}
use tug.Queue.Memory.{
  Memory, MemoryJob, same_attempts, claimed_by, claim, done, change_claimed, put_back, retry,
  fail_with, fail,
}
use tug.Queue.Memory.Claims.{Claimed, claim-Claimed, claim-none_same}
use tug.Queue.Handler.{Handler}
use tug.Queue.Worker.{
  Turn, Answer, succeeds, errs, settle, held_for, run_job, handler_of, hold, drain, at_least,
}

-- A job that has not failed and is due.
abbrev pub is_due : ℕ → MemoryJob → Bool
is_due now mj = not mj.failed && leb mj.run_at now

abbrev pub due_count : ℕ → Memory → ℕ
due_count now m = count_if (is_due now) m.jobs

module _ (p : MemoryJob → Bool) where
  count-keep-le :
      (q : MemoryJob → Bool) (xs : List MemoryJob) → count_if p (keep q xs) ≤ count_if p xs
  count-keep-le q [] = omega arith
  count-keep-le q (x ∷ xs) = ground (arith, count-keep-le q xs)

  count-keep-lt :
      (q : MemoryJob → Bool) (xs : List MemoryJob) (i : ℕ) (x : MemoryJob)
      → get_elem? xs i ≡ some x
      → p x ≡ true
      → q x ≡ false
      → count_if p (keep q xs) < count_if p xs
  count-keep-lt q [] i x g t f = cc
  count-keep-lt q (y ∷ xs) zero x g t f =
      let e : y ≡ x = some-injective _ _ g in rw (e, t, f) (omega (arith, count-keep-le q xs))
  count-keep-lt q (y ∷ xs) (suc i) x g t f = ground (arith, count-keep-lt q xs i x g t f)

  count-change-le :
      (f : MemoryJob → MemoryJob) (j : Job) (xs : List MemoryJob)
      → ((x : MemoryJob) → p (f x) ≡ false)
      → count_if p (change_claimed f j xs) ≤ count_if p xs
  unfolding change_claimed
  count-change-le f j [] h = omega arith
  count-change-le f j (x ∷ xs) h = ground (arith, h x, count-change-le f j xs h)

  count-change-lt :
      (f : MemoryJob → MemoryJob) (j : Job) (xs : List MemoryJob) (i : ℕ) (x : MemoryJob)
      → ((y : MemoryJob) → p (f y) ≡ false)
      → get_elem? xs i ≡ some x
      → p x ≡ true
      → claimed_by x j ≡ true
      → count_if p (change_claimed f j xs) < count_if p xs
  unfolding change_claimed
  count-change-lt f j [] i x h g t c = cc
  count-change-lt f j (y ∷ xs) zero x h g t c =
      let e : y ≡ x = some-injective _ _ g in
      rw (e, t, c, h x) (omega (arith, count-change-le f j xs h))
  count-change-lt f j (y ∷ xs) (suc i) x h g t c =
      ground (arith, h y, count-change-lt f j xs i x h g t c)

  count-set_same :
      (xs : List MemoryJob) (i : ℕ) (a b : MemoryJob)
      → get_elem? xs i ≡ some a
      → p b ≡ p a
      → count_if p (set xs i b) ≡ count_if p xs
  count-set_same [] i a b g h = cc
  count-set_same (x ∷ xs) zero a b g h = let e : x ≡ a = some-injective _ _ g in rw (e, h) refl
  count-set_same (x ∷ xs) (suc i) a b g h = omega (arith, count-set_same xs i a b g h)

same_attempts_refl : (a : ℤ) → same_attempts a a ≡ true
unfolding same_attempts
same_attempts_refl (pos n) = ground arith
same_attempts_refl (negsuc n) = ground arith

-- A turn whose job is let past its rate, is not stopped, and, if it is to run again, waits past now.
pub record IsRun (now : ℕ) (h : Handler) (turn : Turn) : Type 0 where
  pub lets : held_for turn.is_stopped_early turn.rate_wait ≡ none
  pub goes_on : turn.is_stopped ≡ false
  pub waits : (a : ℤ) → now < turn.clock + h.wait_after a

-- The job that a claim has just returned, in the store.
record Runs (now : ℕ) (m : Memory) (j : Job) : Type 0 where
  index : ℕ
  mj : MemoryJob
  listed : get_elem? m.jobs index ≡ some mj
  due : is_due now mj ≡ true
  its_claim : claimed_by mj j ≡ true

Claimed-Runs :
    (m m' : Memory) (now until i : ℕ) (mj : MemoryJob) (j : Job)
    → Claimed m now until i mj m' j
    → Runs now m' j × (due_count now m' ≡ due_count now m)
unfolding claimed_by
Claimed-Runs m m' now until i mj j claimed =
    let kept : MemoryJob = record mj { job = j; held_until = until } in
    let at : j.run_at ≡ mj.run_at = ap (λ (x : Job). x.run_at) claimed.returned in
    let alive : mj.failed ≡ false = claimed.may_run.alive in
    let soon : mj.run_at ≤ now = claimed.may_run.due in
    let due : is_due now kept ≡ true = rw (at, alive) (ground arith) in
    let was_due : is_due now mj ≡ true = rw alive (ground arith) in
    (
      record {
        index = i;
        mj = kept;
        listed = rw claimed.store_after (get_elem?-set_self m.jobs i kept mj claimed.listed);
        due = due;
        its_claim = rw (str_eq_refl j.id, same_attempts_refl j.attempts, alive) refl;
      },
      rw claimed.store_after
          (count-set_same (is_due now) m.jobs i mj kept claimed.listed (due ∙ sym was_due)),
    )

settle-fewer :
    (m : Memory) (now : ℕ) (h : Handler) (j : Job) (turn : Turn) (answer : Answer)
    → IsRun now h turn
    → Runs now m j
    → due_count now (settle m h j turn answer).0 < due_count now m
unfolding settle done retry fail claimed_by
settle-fewer m now h j turn succeeds run r =
    count-keep-lt (is_due now) _ m.jobs r.index r.mj r.listed r.due (ap not r.its_claim)
settle-fewer m now h j turn (errs message is_permanent) run r =
    elim (Bool-cases (is_permanent || at_least j.attempts h.attempts)) [
      | inl b ↦
          let failed : Job = record j { error = message; failed_at = turn.clock } in
          rw (run.goes_on, b)
            (count-change-lt (is_due now) (fail_with failed turn.store_clock) failed m.jobs r.index
              r.mj (λ y. refl) r.listed r.due r.its_claim)
      | inr b ↦
          let again : Job = record j {
            run_at = turn.clock + h.wait_after j.attempts;
            error = message;
          } in
          let later : now < turn.clock + h.wait_after j.attempts = run.waits j.attempts in
          rw (run.goes_on, b)
            (count-change-lt (is_due now) (put_back again) again m.jobs r.index r.mj
              (λ y. ground (arith, later)) r.listed r.due r.its_claim)
    ]

run_job-fewer :
    (key_of : Bytes → Bytes) (m : Memory) (now : ℕ) (h : Handler) (j : Job) (turn : Turn)
    → IsRun now h turn
    → Runs now m j
    → due_count now (run_job key_of m h j turn).0 < due_count now m
unfolding run_job settle
run_job-fewer key_of m now h j turn run r = elim (Bool-cases h.has_rate) [
  | inl b ↦ rw (b, run.lets) (settle-fewer m now h j turn turn.answer run r)
  | inr b ↦ rw b (settle-fewer m now h j turn turn.answer run r)
]

-- Drain ends, and leaves nothing that may be claimed, in one round more than the jobs that are due, where
-- the clock stands still, no rate holds a job back, no turn is stopped, and a job that is to run again
-- waits past now.
pub drain_ends :
    (key_of : Bytes → Bytes) (random : ℕ) (handlers : List (Bytes × Handler)) (turn_of : Job → Turn)
    → (now rounds : ℕ) → (m : Memory)
    → ((j : Job) → IsRun now (handler_of random handlers j.kind) (turn_of j))
    → due_count now m < rounds
    → (m' : Memory) × (drain key_of random handlers turn_of now rounds m ≡ some m')
      × (claim m' now (now + hold handlers) ≡ (m', none))
unfolding drain
drain_ends key_of random handlers turn_of now zero m run enough = absurd (omega arith)
drain_ends key_of random handlers turn_of now (suc rounds) m run enough =
    let until : ℕ = now + hold handlers in
    let m₁ : Memory = (claim m now until).0 in
    elim (Option-cases (claim m now until).1) [
      | inl e ↦
          let nothing : claim m now until ≡ (m₁, none) = ap (λ o. (m₁, o)) e in
          let same : m₁ ≡ m = claim-none_same m m₁ now until nothing in
          (m, rw (e, drain) (ap some same), nothing ∙ ap (λ x. (x, none)) same)
      | inr (j, e) ↦
          let (i, mj, claimed) = claim-Claimed m m₁ now until j (ap (λ o. (m₁, o)) e) in
          let (runs, same) = Claimed-Runs m m₁ now until i mj j claimed in
          let h : Handler = handler_of random handlers j.kind in
          let next : Memory = (run_job key_of m₁ h j (turn_of j)).0 in
          let fewer = run_job-fewer key_of m₁ now h j (turn_of j) (run j) runs in
          rw (e, drain)
            (drain_ends key_of random handlers turn_of now rounds next run
              (omega (arith, fewer, same, enough)))
    ]
