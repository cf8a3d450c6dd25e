-- ===== src/Queue/Memory/Late.antt =====
-- Late calls of a claim that ran out (queue/queuetest/queuetest.go).
use tug.Common.{ℕ, ◌≡◌, ◌≢◌, sym, ap, ◌∙◌, List, Option, some, arith, All, get_elem?, inl}
use tug.Common.Int.{ℤ, pos, ◌+ℤ◌}
use tug.Queue.Job.{Job}
use tug.Queue.Memory.{Memory, MemoryJob, claim, done, retry, fail, hold_back, Op, run}
use tug.Queue.Memory.Ids.{IsNumbered, IsNumbered-unique, claim-IsNumbered, run-IsNumbered}
use tug.Queue.Memory.Claims.{claim-Claimed}
use tug.Queue.Memory.Holds.{Has-get, IsForeign, run-Stays, claim-Has}
use tug.Queue.Memory.Stale.{Outdated, late_calls_ignored}

next_other : (a : ℤ) → a +ℤ pos 1 ≢ a
unfolding ◌+ℤ◌
next_other a e = ground arith

same_some : {A : Type 0} (x y : A) → ◌≡◌ {A = Option A} (some x) (some y) → x ≡ y
same_some x y e = cc

-- A claim takes a job as an earlier claim left it once its hold is over: its attempts are others.
claim_again-attempts :
    (m m₁ m₂ : Memory) (ops : List Op) (now until now₂ until₂ : ℕ) (first second : Job)
    → IsNumbered m
    → claim m now until ≡ (m₁, some first)
    → All (IsForeign first.id first.attempts until) ops
    → claim (run m₁ ops) now₂ until₂ ≡ (m₂, some second)
    → second.id ≡ first.id
    → second.attempts ≢ first.attempts
claim_again-attempts m m₁ m₂ ops now until now₂ until₂ first second num e foreign e₂ same again =
    let (i, mj, there, h) =
      Has-get _ _ (
        run-Stays first.id first.attempts until m₁ ops foreign
          (claim-Has m m₁ now until first e)) in
    let (k, taken, claimed) = claim-Claimed (run m₁ ops) m₂ now₂ until₂ second e₂ in
    let numbered : IsNumbered (run m₁ ops) =
      run-IsNumbered m₁ ops (claim-IsNumbered m m₁ now until _ e num) in
    let id : taken.id ≡ mj.id =
      sym (ap (λ (x : Job). x.id) claimed.returned) ∙ same ∙ sym h.same_id in
    let one : k ≡ i =
      IsNumbered-unique (run m₁ ops) k i taken mj numbered claimed.listed there id in
    let eq : taken ≡ mj =
      same_some _ _ (sym claimed.listed ∙ ap (get_elem? (run m₁ ops).jobs) one ∙ there) in
    let before : taken.attempts ≡ first.attempts =
      ap (λ (x : MemoryJob). x.attempts) eq ∙ h.same_attempt in
    next_other taken.attempts
      (sym (ap (λ (x : Job). x.attempts) claimed.returned) ∙ again ∙ sym before)

-- When a claim of a job ran out and a later claim took the job, then, as long as the later claim's hold lasts, whatever calls come
-- between, a late Done, Retry or Fail of the first claim changes nothing, and a late HoldBack changes no job. That is where no Done, Retry,
-- Fail or HoldBack with the job at its attempt came before the second claim, nor, at the second's, after it, and no
-- claim between at a time past the hold, in a store whose IDs rise.
pub late_calls_of_first :
    (m m₁ m₂ : Memory) (ops later : List Op) (now until now₂ until₂ clock u : ℕ)
    (first second : Job)
    → IsNumbered m
    → claim m now until ≡ (m₁, some first)
    → All (IsForeign first.id first.attempts until) ops
    → claim (run m₁ ops) now₂ until₂ ≡ (m₂, some second)
    → second.id ≡ first.id
    → All (IsForeign second.id second.attempts until₂) later
    → (done (run m₂ later) first ≡ run m₂ later)
      × (retry (run m₂ later) first ≡ run m₂ later)
      × (fail (run m₂ later) first clock ≡ run m₂ later)
      × ((hold_back (run m₂ later) first u).jobs ≡ (run m₂ later).jobs)
late_calls_of_first m m₁ m₂ ops later now until now₂ until₂ clock u first second num e foreign e₂
      same foreign₂ =
    let num₁ = run-IsNumbered m₁ ops (claim-IsNumbered m m₁ now until _ e num) in
    let num₂ = run-IsNumbered m₂ later (claim-IsNumbered (run m₁ ops) m₂ now₂ until₂ _ e₂ num₁) in
    let (i, mj, there, h) = Has-get _ _ (
      run-Stays second.id second.attempts until₂ m₂ later foreign₂
        (claim-Has (run m₁ ops) m₂ now₂ until₂ second e₂)) in
    let other =
      claim_again-attempts m m₁ m₂ ops now until now₂ until₂ first second num e foreign e₂ same in
    let outdated : Outdated (run m₂ later) first = record {
      at = i;
      mj = mj;
      listed = there;
      same_id = h.same_id ∙ same;
      gone_on = inl (λ x. other (sym h.same_attempt ∙ x));
    } in
    late_calls_ignored (run m₂ later) first clock u num₂ outdated
