-- ===== src/Queue/Memory/Holds.antt =====
-- Holds: what a claim holds stays with it until its own worker says how it went, or its time is up.
use mathlib.Core.Option.{some-injective}
use mathlib.Core.List.{append-nil}
use tug.Common.{
  ℕ, zero, suc, ◌≤◌, ◌<◌, ◌≡◌, refl, sym, ap, ◌∙◌, subst, ◌≢◌, ◌⊎◌, List, [], ◌∷◌, ◌++◌, true,
  false, not, Option, none, some, arith, Bytes, str_eq_iff, get_elem?, get_elem?-set_self, set,
  keep, Bool-cases, Option-cases, inl, inr, All,
}
use tug.Common.Int.{ℤ}
use tug.Queue.Job.{Job}
use tug.Queue.Memory.{
  Memory, MemoryJob, push, push_unique, push_latest, move, give_back, give_back_all, hold_back,
  claim, claimed_by, same_attempts, done, change_claimed, retry, fail, revive, run_again, Op,
  pushes, pushes_scheduled, pushes_unique, pushes_latest, holds_back, claims, is_done, retries,
  fails, runs_again, step, run, push_scheduled_cases, noted, waiting, due_at, revived, put_back,
  fail_with,
}
use tug.Queue.Memory.Updates.{move-Moved, revive-Revived}
use tug.Queue.Memory.Claims.{claim-Claimed, claim-none_same}
use tug.Queue.Memory.Ids.{IsNumbered, IsNumbered-unique, claim-IsNumbered, run-IsNumbered}

-- Some job of the list is as P says.
abbrev pub Has : (MemoryJob → Type 0) → List MemoryJob → Type 0
Has P [] = ⊥
Has P (x ∷ xs) = P x ⊎ Has P xs

Has-append_left : (P : MemoryJob → Type 0) (xs ys : List MemoryJob) → Has P xs → Has P (xs ++ ys)
Has-append_left P [] ys h = absurd h
Has-append_left P (x ∷ xs) ys (inl h) = inl h
Has-append_left P (x ∷ xs) ys (inr h) = inr (Has-append_left P xs ys h)

Has-replace :
    (P : MemoryJob → Type 0) (before rest : List MemoryJob) (a b : MemoryJob)
    → (P a → P b)
    → Has P (before ++ a ∷ rest)
    → Has P ((before ++ b ∷ []) ++ rest)
Has-replace P [] rest a b f (inl h) = inl (f h)
Has-replace P [] rest a b f (inr h) = inr h
Has-replace P (x ∷ before) rest a b f (inl h) = inl h
Has-replace P (x ∷ before) rest a b f (inr h) = inr (Has-replace P before rest a b f h)

Has-set :
    (P : MemoryJob → Type 0) (xs : List MemoryJob) (i : ℕ) (a b : MemoryJob)
    → get_elem? xs i ≡ some a
    → (P a → P b)
    → Has P xs
    → Has P (set xs i b)
Has-set P (x ∷ xs) zero a b g n (inl h) = inl (n (subst P (some-injective _ _ g) h))
Has-set P (x ∷ xs) zero a b g n (inr h) = inr h
Has-set P (x ∷ xs) (suc i) a b g n (inl h) = inl h
Has-set P (x ∷ xs) (suc i) a b g n (inr h) = inr (Has-set P xs i a b g n h)
Has-set P [] i a b g n h = absurd h

pub Has-get :
    (P : MemoryJob → Type 0) (xs : List MemoryJob)
    → Has P xs
    → (i : ℕ) × (x : MemoryJob) × (get_elem? xs i ≡ some x) × P x
Has-get P [] h = absurd h
Has-get P (x ∷ xs) (inl h) = (0, x, refl, h)
Has-get P (x ∷ xs) (inr h) = let (i, y, g, p) = Has-get P xs h in (suc i, y, g, p)

-- The claim of the job with the ID at the attempt holds it until a time.
pub record IsHeld (id : Bytes) (attempts : ℤ) (until : ℕ) (mj : MemoryJob) : Type 0 where
  pub same_id : mj.id ≡ id
  pub same_attempt : mj.attempts ≡ attempts
  pub running : mj.failed ≡ false
  pub held : mj.held_until ≡ until

-- Calls of others: no Done, Retry, Fail or HoldBack with the claim's own job, and no claim once its
-- time is up.
abbrev pub IsForeign : Bytes → ℤ → ℕ → Op → Type 0
IsForeign id a until (holds_back j _) = j.id ≡ id → j.attempts ≢ a
IsForeign id a until (claims now _) = now < until
IsForeign id a until (is_done j) = j.id ≡ id → j.attempts ≢ a
IsForeign id a until (retries j) = j.id ≡ id → j.attempts ≢ a
IsForeign id a until (fails j _) = j.id ≡ id → j.attempts ≢ a
IsForeign id a until _ = Unit

same_attempts_sound : (a b : ℤ) → same_attempts a b ≡ true → a ≡ b
unfolding same_attempts
same_attempts_sound a b h = ground arith

module _ (id : Bytes) (a : ℤ) (until : ℕ) where
  not_claimed_by :
      (j : Job) (mj : MemoryJob)
      → (j.id ≡ id → j.attempts ≢ a)
      → IsHeld id a until mj
      → claimed_by mj j ≡ false
  unfolding claimed_by
  not_claimed_by j mj f h =
      ground (arith, str_eq_iff mj.id j.id, same_attempts_sound mj.attempts j.attempts, f)

  -- The job is in the store, held by its claim.
  abbrev Stays : List MemoryJob → Type 0
  Stays = Has (IsHeld id a until)

  keep-Stays :
      (j : Job) (xs : List MemoryJob)
      → (j.id ≡ id → j.attempts ≢ a)
      → Stays xs
      → Stays (keep (λ mj. not (claimed_by mj j)) xs)
  keep-Stays j [] f h = absurd h
  keep-Stays j (x ∷ xs) f (inl h) = rw (not_claimed_by j x f h) (inl h)
  keep-Stays j (x ∷ xs) f (inr h) = elim (Bool-cases (claimed_by x j)) [
    | inl e ↦ rw e (keep-Stays j xs f h)
    | inr e ↦ rw e (inr (keep-Stays j xs f h))
  ]

  change_claimed-Stays :
      (g : MemoryJob → MemoryJob) (j : Job) (xs : List MemoryJob)
      → (j.id ≡ id → j.attempts ≢ a)
      → Stays xs
      → Stays (change_claimed g j xs)
  unfolding change_claimed
  change_claimed-Stays g j [] f h = absurd h
  change_claimed-Stays g j (x ∷ xs) f (inl h) = rw (not_claimed_by j x f h) (inl h)
  change_claimed-Stays g j (x ∷ xs) f (inr h) = inr (change_claimed-Stays g j xs f h)

  give_back_all-Stays :
      (j : Job) (before rest : List MemoryJob)
      → (j.id ≡ id → j.attempts ≢ a)
      → Stays (before ++ rest)
      → Stays (give_back_all j before rest)
  unfolding give_back_all give_back
  give_back_all-Stays j before [] f h = rw append-nil at h
  give_back_all-Stays j before (mj ∷ rest) f h =
      give_back_all-Stays j (before ++ give_back j before mj rest ∷ []) rest f (
        Has-replace (IsHeld id a until) before rest mj (give_back j before mj rest)
          (λ p. rw (not_claimed_by j mj f p) p) h)

  move-Stays :
      (j : Job) (xs ys : List MemoryJob) (new : Bytes)
      → move j xs ≡ some (ys, new)
      → Stays xs
      → Stays ys
  move-Stays j xs ys new e h =
      let r = move-Moved j xs ys new e in
      rw r.after (
        Has-set (IsHeld id a until) xs r.at r.mj (due_at j.run_at r.mj) r.listed
          (λ p. record {
            same_id = p.same_id;
            same_attempt = p.same_attempt;
            running = p.running;
            held = p.held;
          })
          h)

  revive-Stays :
      (i : Bytes) (at : ℕ) (xs ys : List MemoryJob) → revive i at xs ≡ some ys → Stays xs → Stays ys
  revive-Stays i at xs ys e h =
      let r = revive-Revived i at xs ys e in
      rw r.after (
        Has-set (IsHeld id a until) xs r.index r.mj (revived at r.mj) r.listed
          (λ p. let stands : r.mj.failed ≡ false = p.running in cc (stands, r.had_failed)) h)

  claim-Stays :
      (m m' : Memory) (now until' : ℕ) (o : Option Job)
      → claim m now until' ≡ (m', o)
      → now < until
      → Stays m.jobs
      → Stays m'.jobs
  claim-Stays m m' now until' none e lt h = rw (claim-none_same m m' now until' e) h
  claim-Stays m m' now until' (some j) e lt h =
      let (i, mj, claimed) = claim-Claimed m m' now until' j e in
      rw claimed.store_after (
        Has-set (IsHeld id a until) m.jobs i mj _ claimed.listed
          (λ p.
            let held : mj.held_until ≡ until = p.held in
            let free : mj.held_until ≤ now = claimed.may_run.unheld in absurd (omega arith))
          h)

  push-Stays : (m : Memory) (j : Job) → Stays m.jobs → Stays (push m j).0.jobs
  unfolding push
  push-Stays m j h = Has-append_left (IsHeld id a until) m.jobs _ h

  push_unique-Stays : (m : Memory) (j : Job) → Stays m.jobs → Stays (push_unique m j).0.jobs
  unfolding push_unique
  push_unique-Stays m j h = elim (Bool-cases (waiting m.jobs j)) [
    | inl b ↦ rw b h
    | inr b ↦ rw b (push-Stays m j h)
  ]

  push_latest-Stays : (m : Memory) (j : Job) → Stays m.jobs → Stays (push_latest m j).0.jobs
  unfolding push_latest
  push_latest-Stays m j h = elim (Option-cases (move j m.jobs)) [
    | inl o ↦ rw (o, push_latest) (push-Stays m j h)
    | inr ((ys, new), o) ↦ rw (o, push_latest) (move-Stays j m.jobs ys new o h)
  ]

  run_again-Stays :
      (m : Memory) (i : Bytes) (at : ℕ) → Stays m.jobs → Stays (run_again m i at).0.jobs
  unfolding run_again
  run_again-Stays m i at h = elim (Option-cases (revive i at m.jobs)) [
    | inl o ↦ rw (o, run_again) h
    | inr (ys, o) ↦ rw (o, run_again) (revive-Stays i at m.jobs ys o h)
  ]

  step-Stays :
      (m : Memory) (op : Op) → IsForeign id a until op → Stays m.jobs → Stays (step m op).jobs
  unfolding step done hold_back retry fail
  step-Stays m (pushes j) f h = push-Stays m j h
  step-Stays m (pushes_scheduled s j) f h =
      push_scheduled_cases (λ m'. Stays m'.jobs) m s j h h (push-Stays (noted m s j) j h)
  step-Stays m (pushes_unique j) f h = push_unique-Stays m j h
  step-Stays m (pushes_latest j) f h = push_latest-Stays m j h
  step-Stays m (holds_back j u) f h = give_back_all-Stays j [] m.jobs f h
  step-Stays m (claims now u) f h = claim-Stays m _ now u _ refl f h
  step-Stays m (is_done j) f h = keep-Stays j m.jobs f h
  step-Stays m (retries j) f h = change_claimed-Stays (put_back j) j m.jobs f h
  step-Stays m (fails j clock) f h = change_claimed-Stays (fail_with j clock) j m.jobs f h
  step-Stays m (runs_again i at) f h = run_again-Stays m i at h

  pub run-Stays :
      (m : Memory) (ops : List Op)
      → All (IsForeign id a until) ops
      → Stays m.jobs
      → Stays (run m ops).jobs
  unfolding run
  run-Stays m [] f h = h
  run-Stays m (op ∷ ops) f h = run-Stays (step m op) ops f.1 (step-Stays m op f.0 h)

Has-of_get :
    (P : MemoryJob → Type 0) (xs : List MemoryJob) (i : ℕ) (x : MemoryJob)
    → get_elem? xs i ≡ some x
    → P x
    → Has P xs
Has-of_get P [] i x g p = cc
Has-of_get P (y ∷ ys) zero x g p = inl (subst P (sym (some-injective _ _ g)) p)
Has-of_get P (y ∷ ys) (suc i) x g p = inr (Has-of_get P ys i x g p)

-- After its claim a job stays in the store, held by it.
pub claim-Has :
    (m m' : Memory) (now until : ℕ) (j : Job)
    → claim m now until ≡ (m', some j)
    → Has (IsHeld j.id j.attempts until) m'.jobs
claim-Has m m' now until j e =
    let (i, mj, claimed) = claim-Claimed m m' now until j e in
    let mj' : MemoryJob = record mj { job = j; held_until = until } in
    rw claimed.store_after (
      Has-of_get (IsHeld j.id j.attempts until) (set m.jobs i mj') i mj'
        (get_elem?-set_self m.jobs i mj' mj claimed.listed)
        (record {
          same_id = refl;
          same_attempt = refl;
          running = claimed.may_run.alive;
          held = refl;
        }))

-- While a claim's hold lasts, no later claim returns its job, whatever calls come between, as long as
-- none of them is Done, Retry, Fail or HoldBack with the job at that attempt, and no claim between
-- them is at a time past the hold, in a store whose IDs rise, as a history's do.
pub hold_exclusive :
    (m m₁ m₂ : Memory) (ops : List Op) (now until now₂ until₂ : ℕ) (j j₂ : Job)
    → IsNumbered m
    → claim m now until ≡ (m₁, some j)
    → All (IsForeign j.id j.attempts until) ops
    → now₂ < until
    → claim (run m₁ ops) now₂ until₂ ≡ (m₂, some j₂)
    → j₂.id ≢ j.id
hold_exclusive m m₁ m₂ ops now until now₂ until₂ j j₂ num e foreign lt e₂ same =
    let (i, mj, held_there, h) =
      Has-get _ _ (run-Stays j.id j.attempts until m₁ ops foreign (claim-Has m m₁ now until j e)) in
    let (k, taken, claimed) = claim-Claimed (run m₁ ops) m₂ now₂ until₂ j₂ e₂ in
    let numbered : IsNumbered (run m₁ ops) =
      run-IsNumbered m₁ ops (claim-IsNumbered m m₁ now until _ e num) in
    let id : taken.id ≡ mj.id =
      sym (ap (λ (x : Job). x.id) claimed.returned) ∙ same ∙ sym h.same_id in
    let one : k ≡ i =
      IsNumbered-unique (run m₁ ops) k i taken mj numbered claimed.listed held_there id in
    let eq : taken ≡ mj =
      some-injective _ _ (sym claimed.listed ∙ ap (get_elem? (run m₁ ops).jobs) one ∙ held_there) in
    let until_there : taken.held_until ≡ until = ap (λ (x : MemoryJob). x.held_until) eq ∙ h.held in
    let free : taken.held_until ≤ now₂ = claimed.may_run.unheld in absurd (omega arith)
