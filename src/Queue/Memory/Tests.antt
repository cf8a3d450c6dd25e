-- ===== src/Queue/Memory/Tests.antt =====
-- Runs of the memory Store (queue/queuetest/queuetest.go) on small stores, and the theorems at them.
use tug.Common.{
  ℕ, ◌≤◌, ◌≡◌, refl, ◌≢◌, Option, List, [], ◌∷◌, true, false, some, arith, Bytes, str_eq, itoa,
  get_elem?, lookup, zero_or, count_if,
}
use tug.Common.Int.{pos, ◌+ℤ◌}
use tug.Queue.Job.{Job}
use tug.Queue.Memory.{
  retry, fail, hold_back, Memory, MemoryJob, empty, kept, push, held_back, hold_back, running,
  held_of_kind, at_limit, passed_over, sooner, find_next, hold_next, claim, done, Op, pushes,
  pushes_unique, pushes_latest, claims, step, run,
}
use tug.Queue.Memory.Ids.{run-IsNumbered, run_ids_unique}
use tug.Queue.Memory.Claims.{Claimed, claim-Claimed, held_count}
use tug.Queue.Memory.Limits.{run-at_once, run-one_at_a_time, held_alone}
use tug.Queue.Memory.Holds.{hold_exclusive}
use tug.Queue.Memory.Late.{late_calls_of_first}
use tug.Queue.Memory.Stale.{late_done_removes_held_back}
use tug.Queue.Memory.Keys.{run-unique_keys, with_key}

abbrev mail : Bytes
mail = 109 ∷ []

-- A job of the kind "m", with the key "k", at most one at once.
abbrev strict : ℕ → Job
strict at = record {
  id = [];
  kind = mail;
  payload = [];
  key = 107 ∷ [];
  run_at = at;
  attempts = pos 0;
  error = [];
  one_at_a_time = true;
  at_once = 1;
  failed_at = 0;
  carried = [];
}

-- A job with no key and no limit.
abbrev plain : ℕ → Job
plain at = record (strict at) { key = []; one_at_a_time = false; at_once = 0 }

abbrev numbered : ℕ → Job → Job
numbered digit j = record j { id = digit ∷ [] }

-- The job with that ID as a claim returns it at that attempt.
abbrev returned : ℕ → ℕ → Job → Job
returned digit attempt j = record j { id = digit ∷ []; attempts = pos attempt; key = [] }

abbrev two_plain : List Op
two_plain = pushes (plain 2) ∷ pushes (plain 1) ∷ []

abbrev two_strict : List Op
two_strict = pushes (strict 2) ∷ pushes (strict 1) ∷ claims 5 60 ∷ []

run_ids_unique_example : let i : ℕ = 1 in i ≡ i
unfolding run step push itoa
run_ids_unique_example =
    run_ids_unique two_plain 1 1 (kept (numbered 50 (plain 1))) (kept (numbered 50 (plain 1))) refl
      refl refl

-- The job due soonest is claimed first.
claims_soonest : (claim (run empty two_plain) 5 60).1 ≡ some (returned 50 1 (plain 1))
unfolding run step push itoa claim find_next passed_over held_back running at_limit sooner hold_next
    lookup zero_or held_of_kind str_eq ◌+ℤ◌
claims_soonest = refl

claim-Claimed_example :
    (i : ℕ) × (mj : MemoryJob) × Claimed
      (run empty two_plain)
      5
      60
      i
      mj
      (claim (run empty two_plain) 5 60).0
      (returned 50 1 (plain 1))
unfolding run step push itoa claim find_next passed_over held_back running at_limit sooner hold_next
    lookup zero_or held_of_kind str_eq ◌+ℤ◌
claim-Claimed_example =
    claim-Claimed (run empty two_plain) (claim (run empty two_plain) 5 60).0 5 60
      (returned 50 1 (plain 1)) refl

run-at_once_example : held_count (run empty two_strict) mail 6 ≤ 1
run-at_once_example =
    run-at_once two_strict mail 1 6 (omega arith) (omega arith, omega arith)
      ((λ _ _. refl), ((λ _ _. refl), (tt, tt)))

run-one_at_a_time_example : held_alone (run empty two_strict) mail (107 ∷ []) 6 ≤ 1
run-one_at_a_time_example =
    run-one_at_a_time two_strict mail (107 ∷ []) 6 (λ e. cc) (omega arith, omega arith)

hold_exclusive_example : (returned 49 1 (plain 2)).id ≢ (returned 50 1 (plain 1)).id
unfolding run step push itoa claim find_next passed_over held_back running at_limit sooner hold_next
    lookup zero_or held_of_kind str_eq ◌+ℤ◌
hold_exclusive_example =
    let m : Memory = run empty two_plain in
    hold_exclusive m (claim m 5 60).0 (claim (run (claim m 5 60).0 (pushes (plain 3) ∷ [])) 7 80).0
      (pushes (plain 3) ∷ []) 5 60 7 80 (returned 50 1 (plain 1)) (returned 49 1 (plain 2))
      (run-IsNumbered empty two_plain (omega arith)) refl (tt, tt) (omega arith) refl

-- A job whose first claim ran out, and which a second claim took.
abbrev claimed_twice : List Op
claimed_twice = pushes (plain 1) ∷ claims 2 10 ∷ claims 11 60 ∷ []

late_done_removes_held_back_example :
    let m : Memory = run empty (pushes (plain 1) ∷ []) in
    let m₂ : Memory = run empty claimed_twice in
    (key : Bytes) × (i : ℕ) × (mj : MemoryJob) × (get_elem?
        (hold_back m₂ (record (returned 49 2 (plain 1)) { key = key }) 30).jobs
        i
      ≡ some mj)
    × (mj.id ≡ 49 ∷ [])
    × ((k : ℕ) (x : MemoryJob)
        → get_elem?
            (done
              (hold_back m₂ (record (returned 49 2 (plain 1)) { key = key }) 30)
              (returned 49 1 (plain 1))).jobs
            k
          ≡ some x
        → x.id ≢ 49 ∷ [])
unfolding run step push itoa claim find_next passed_over held_back running at_limit sooner hold_next
    lookup zero_or held_of_kind str_eq ◌+ℤ◌
late_done_removes_held_back_example =
    late_done_removes_held_back (run empty (pushes (plain 1) ∷ []))
      (run empty (pushes (plain 1) ∷ claims 2 10 ∷ [])) (run empty claimed_twice) 2 10 11 60 30
      (returned 49 1 (plain 1)) (returned 49 2 (plain 1))
      (run-IsNumbered empty (pushes (plain 1) ∷ []) (omega arith)) refl refl refl

run-unique_keys_example :
    count_if
      (with_key mail (107 ∷ []))
      (run empty
        (pushes_unique (strict 1) ∷ pushes_unique (strict 2) ∷ pushes_latest (strict 3) ∷ [])).jobs
    ≤ 1
run-unique_keys_example =
    run-unique_keys
      (pushes_unique (strict 1) ∷ pushes_unique (strict 2) ∷ pushes_latest (strict 3) ∷ []) mail
      (107 ∷ []) (λ e. cc) (tt, (tt, (tt, tt)))

abbrev first_claim : Memory × Option Job
first_claim = claim (run empty (pushes (plain 1) ∷ [])) 5 20

abbrev second_claim : Memory × Option Job
second_claim = claim first_claim.0 30 60

late_calls_of_first_example :
    let m : Memory = run second_claim.0 (claims 31 70 ∷ []) in
    let j : Job = returned 49 1 (plain 1) in
    (done m j ≡ m) × (retry m j ≡ m) × (fail m j 12 ≡ m) × ((hold_back m j 30).jobs ≡ m.jobs)
unfolding run step push itoa claim find_next passed_over held_back running at_limit sooner hold_next
    lookup zero_or held_of_kind str_eq ◌+ℤ◌
late_calls_of_first_example =
    late_calls_of_first (run empty (pushes (plain 1) ∷ [])) first_claim.0 second_claim.0 []
      (claims 31 70 ∷ []) 5 20 30 60 12 30 (returned 49 1 (plain 1)) (returned 49 2 (plain 1))
      (run-IsNumbered empty (pushes (plain 1) ∷ []) (omega arith)) refl tt refl refl
      (omega arith, tt)
