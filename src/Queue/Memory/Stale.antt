-- ===== src/Queue/Memory/Stale.antt =====
-- Done, Retry, Fail and HoldBack with a job that its claim no longer has, and HoldBack with one that
-- it has, which undoes the claim.
use mathlib.Core.Option.{some-injective}
use mathlib.Core.List.{append-nil, append_assoc}
use mathlib.Core.Bool.{and-false}
use tug.Common.{
  ℕ, zero, suc, ◌≡◌, refl, sym, ap, ◌∙◌, ◌≢◌, ◌⊎◌, List, [], ◌∷◌, ◌++◌, Bool, true, false, ◌&&◌,
  not, some, arith, Bytes, str_eq, str_eq_iff, str_eq_refl, if◌then◌else◌, get_elem?,
  get_elem?-set_self, set, set-set, keep, take, drop, Bool-cases, inl, inr, any, any_but, ◌||◌,
}
use tug.Common.Int.{ℤ, pos, negsuc, ◌+ℤ◌, ◌-ℤ◌, +ℤ_cancel}
use tug.Queue.Job.{Job}
use tug.Queue.Memory.{
  Memory, MemoryJob, give_back, give_back_all, hold_back, claim, claimed_by, same_attempts, done,
  change_claimed, retry, fail, put_back, fail_with, waiting, same_key, is_empty, take_hold,
}
use tug.Queue.Memory.Claims.{Claimed, claim-Claimed}
use tug.Queue.Memory.Ids.{
  IsNumbered, IsNumbered-unique, claim-IsNumbered, hold_back-IsNumbered, ids-set,
}

-- j's claim has no job of the list.
abbrev NoneClaimed : Job → List MemoryJob → Type 0
NoneClaimed j xs = (k : ℕ) (x : MemoryJob) → get_elem? xs k ≡ some x → claimed_by x j ≡ false

keep-none :
    (j : Job) (xs : List MemoryJob) → NoneClaimed j xs → keep (λ mj. not (claimed_by mj j)) xs ≡ xs
keep-none j [] h = refl
keep-none j (x ∷ xs) h = rw (h 0 x refl) (ap (◌∷◌ x) (keep-none j xs (λ k y e. h (suc k) y e)))

change_claimed-none :
    (f : MemoryJob → MemoryJob) (j : Job) (xs : List MemoryJob)
    → NoneClaimed j xs
    → change_claimed f j xs ≡ xs
unfolding change_claimed
change_claimed-none f j [] h = refl
change_claimed-none f j (x ∷ xs) h =
    rw (h 0 x refl) (ap (◌∷◌ x) (change_claimed-none f j xs (λ k y e. h (suc k) y e)))

give_back_all-none :
    (j : Job) (before rest : List MemoryJob)
    → NoneClaimed j rest
    → give_back_all j before rest ≡ before ++ rest
unfolding give_back_all give_back
give_back_all-none j before [] h = sym (append-nil before)
give_back_all-none j before (x ∷ xs) h =
    rw (h 0 x refl) (
      give_back_all-none j (before ++ x ∷ []) xs (λ k y e. h (suc k) y e)
      ∙ append_assoc before _ xs)

-- The job of j's ID stands at another attempt, or has failed.
pub record Outdated (m : Memory) (j : Job) : Type 0 where
  pub at : ℕ
  pub mj : MemoryJob
  pub listed : get_elem? m.jobs at ≡ some mj
  pub same_id : mj.id ≡ j.id
  pub gone_on : (mj.attempts ≢ j.attempts) ⊎ (mj.failed ≡ true)

same_attempts_sound : (a b : ℤ) → same_attempts a b ≡ true → a ≡ b
unfolding same_attempts
same_attempts_sound a b h = ground arith

gone_on-false :
    (mj : MemoryJob) (j : Job)
    → (mj.attempts ≢ j.attempts) ⊎ (mj.failed ≡ true)
    → (same_attempts mj.attempts j.attempts && not mj.failed) ≡ false
gone_on-false mj j h = ground (arith, same_attempts_sound mj.attempts j.attempts)

Outdated-none : (m : Memory) (j : Job) → IsNumbered m → Outdated m j → NoneClaimed j m.jobs
unfolding claimed_by
Outdated-none m j num o k x e = elim (Bool-cases (str_eq x.id j.id)) [
  | inr other ↦ rw other
  | inl same ↦
      let id : x.id ≡ o.mj.id = (str_eq_iff x.id j.id).0 same ∙ sym o.same_id in
      let one : k ≡ o.at = IsNumbered-unique m k o.at x o.mj num e o.listed id in
      let eq : x ≡ o.mj = some-injective _ _ (sym e ∙ rw one o.listed) in
      rw (same, eq) (gone_on-false o.mj j o.gone_on)
]

-- Where the store has a job at other attempts than a call's, or failed, Done, Retry and Fail with the call's job
-- change nothing, and HoldBack changes no job, in a store whose IDs rise.
pub late_calls_ignored :
    (m : Memory) (j : Job) (clock until : ℕ)
    → IsNumbered m
    → Outdated m j
    → (done m j ≡ m)
      × (retry m j ≡ m)
      × (fail m j clock ≡ m)
      × ((hold_back m j until).jobs ≡ m.jobs)
unfolding done retry fail hold_back
late_calls_ignored m j clock until num o =
    let clear = Outdated-none m j num o in
    (
      ap (λ xs. record m { jobs = xs }) (keep-none j m.jobs clear),
      ap (λ xs. record m { jobs = xs }) (change_claimed-none (put_back j) j m.jobs clear),
      ap (λ xs. record m { jobs = xs }) (change_claimed-none (fail_with j clock) j m.jobs clear),
      give_back_all-none j [] m.jobs clear,
    )

give_back-other :
    (j : Job) (before rest : List MemoryJob) (x : MemoryJob)
    → claimed_by x j ≡ false
    → give_back j before x rest ≡ x
unfolding give_back
give_back-other j before rest x h = rw h

-- Where j's claim has just the job at an index of the rest, the loop of HoldBack changes that one.
give_back_all-one :
    (j : Job) (before rest : List MemoryJob) (i : ℕ) (mj : MemoryJob)
    → get_elem? rest i ≡ some mj
    → ((k : ℕ) (x : MemoryJob) → k ≢ i → get_elem? rest k ≡ some x → claimed_by x j ≡ false)
    → give_back_all j before rest
      ≡ before ++ set rest i (give_back j (before ++ take i rest) mj (drop (suc i) rest))
unfolding give_back_all
give_back_all-one j before [] i mj g h = cc
give_back_all-one j before (x ∷ xs) zero mj g h =
    let same : x ≡ mj = some-injective _ _ g in
    rw (same, append-nil)
      (give_back_all-none j (before ++ give_back j before mj xs ∷ []) xs
          (λ k y e. h (suc k) y (omega arith) e)
        ∙ append_assoc before _ xs)
give_back_all-one j before (x ∷ xs) (suc i) mj g h =
    rw (give_back-other j before xs x (h 0 x (omega arith) refl)) (
      give_back_all-one j (before ++ x ∷ []) xs i mj g (λ k y ne e. h (suc k) y (omega arith) e)
      ∙ simp append_assoc)

-- In a numbered store HoldBack with the job at an index changes no other.
hold_back-one :
    (m : Memory) (j : Job) (i until : ℕ) (mj : MemoryJob)
    → IsNumbered m
    → get_elem? m.jobs i ≡ some mj
    → mj.id ≡ j.id
    → (hold_back m j until).jobs
      ≡ set m.jobs i (give_back j (take i m.jobs) mj (drop (suc i) m.jobs))
unfolding hold_back claimed_by
hold_back-one m j i until mj num g id = give_back_all-one j [] m.jobs i mj g λ k x ne e.
    elim (Bool-cases (str_eq x.id j.id)) [
      | inr other ↦ rw other
      | inl same ↦
          absurd
            (ne (IsNumbered-unique m k i x mj num e g ((str_eq_iff x.id j.id).0 same ∙ sym id)))
    ]

any-around :
    (p : MemoryJob → Bool) (xs : List MemoryJob) (i : ℕ) (a v b : MemoryJob)
    → get_elem? xs i ≡ some a
    → p b ≡ false
    → any p (take i (set xs i v) ++ b ∷ drop (suc i) (set xs i v)) ≡ any_but i p xs
any-around p [] i a v b g h = cc
any-around p (x ∷ xs) zero a v b g h = rw h
any-around p (x ∷ xs) (suc i) a v b g h = ap (◌||◌ (p x)) (any-around p xs i a v b g h)

same_attempts_refl : (a : ℤ) → same_attempts a a ≡ true
unfolding same_attempts
same_attempts_refl (pos n) = ground arith
same_attempts_refl (negsuc n) = ground arith

-- A job whose claim is undone, with its key unless another of its kind has it.
abbrev pub unclaimed : Memory → ℕ → MemoryJob → MemoryJob
unclaimed m i mj = record mj {
  job = record mj.job { key = if any_but i (same_key mj.job) m.jobs then [] else mj.key };
  held_until = 0;
}

empty_key : (k : Bytes) → is_empty k ≡ true → k ≡ []
empty_key [] h = refl
empty_key (x ∷ xs) h = cc

other_key : (k : Bytes) → is_empty k ≡ false → str_eq [] k ≡ false
unfolding str_eq
other_key [] h = cc
other_key (x ∷ xs) h = refl

module _ (xs : List MemoryJob) (i until : ℕ) (mj : MemoryJob) (g : get_elem? xs i ≡ some mj) where
  abbrev taken_job : Job
  taken_job = record (take_hold mj until).job { key = mj.key }

  abbrev around : MemoryJob → List MemoryJob
  around back =
      take i (set xs i (take_hold mj until)) ++ back ∷ drop (suc i) (set xs i (take_hold mj until))

  waiting-around :
      (back : MemoryJob)
      → back.key ≡ []
      → waiting (around back) taken_job ≡ (not (is_empty mj.key) && any_but i (same_key mj.job) xs)
  unfolding waiting same_key
  waiting-around back e = elim (Bool-cases (is_empty mj.key)) [
    | inl no_key ↦ rw no_key
    | inr some_key ↦ rw some_key (
        any-around (same_key mj.job) xs i mj (take_hold mj until) back g
          (rw (e, other_key mj.key some_key) (and-false _)))
  ]

  give_back_taken :
      mj.failed ≡ false
      → give_back taken_job
          (take i (set xs i (take_hold mj until)))
          (take_hold mj until)
          (drop (suc i) (set xs i (take_hold mj until)))
        ≡ record mj {
          job = record mj.job { key = if any_but i (same_key mj.job) xs then [] else mj.key };
          held_until = 0;
        }
  unfolding give_back claimed_by
  give_back_taken ef = ground (
    arith,
    str_eq_refl mj.id,
    same_attempts_refl (mj.attempts +ℤ pos 1),
    +ℤ_cancel mj.attempts (pos 1),
    empty_key mj.key,
    waiting-around
        (record mj {
          job = record mj.job { attempts = mj.attempts +ℤ pos 1 -ℤ pos 1; key = [] };
          held_until = 0;
        })
        refl,
  )

undo_hold :
    (m : Memory) (i until u : ℕ) (mj : MemoryJob)
    → IsNumbered m
    → get_elem? m.jobs i ≡ some mj
    → mj.failed ≡ false
    → (hold_back
        (record m { jobs = set m.jobs i (take_hold mj until) })
        (record (take_hold mj until).job { key = mj.key })
        u).jobs
      ≡ set m.jobs i (unclaimed m i mj)
undo_hold m i until u mj num g ef =
    let m' : Memory = record m { jobs = set m.jobs i (take_hold mj until) } in
    let num' : IsNumbered m' = rw (ids-set m.jobs i mj (take_hold mj until) g refl) num in
    hold_back-one m' (record (take_hold mj until).job { key = mj.key }) i u (take_hold mj until)
      num' (get_elem?-set_self m.jobs i (take_hold mj until) mj g) refl
    ∙ set-set m.jobs i (take_hold mj until) _
    ∙ ap (set m.jobs i) (give_back_taken m.jobs i until mj g ef)

pub undo-Claimed :
    (m m' : Memory) (now until u i : ℕ) (mj : MemoryJob) (j : Job)
    → IsNumbered m
    → Claimed m now until i mj m' j
    → (hold_back m' (record j { key = mj.key }) u).jobs ≡ set m.jobs i (unclaimed m i mj)
undo-Claimed m m' now until u i mj j num claimed =
    rw (claimed.store_after, claimed.returned)
      (undo_hold m i until u mj num claimed.listed claimed.may_run.alive)

-- HoldBack with the job that a claim has just returned, with the key that it had, undoes the claim,
-- whatever time it holds the kind back until: the jobs are as they were before it, but that its hold
-- is the zero time, and that its key is let go if another job of its kind waits with it. The store's
-- IDs rise.
pub hold_back_undoes_claim :
    (m m' : Memory) (now until u : ℕ) (j : Job)
    → IsNumbered m
    → claim m now until ≡ (m', some j)
    → (i : ℕ) × (mj : MemoryJob) × (get_elem? m.jobs i ≡ some mj)
      × (mj.id ≡ j.id)
      × ((hold_back m' (record j { key = mj.key }) u).jobs ≡ set m.jobs i (unclaimed m i mj))
hold_back_undoes_claim m m' now until u j num e =
    let (i, mj, claimed) = claim-Claimed m m' now until j e in
    let id : mj.id ≡ j.id = sym (ap (λ (x : Job). x.id) claimed.returned) in
    (i, mj, claimed.listed, id, undo-Claimed m m' now until u i mj j num claimed)

head_or_tail :
    (p : MemoryJob → Bool) (y : MemoryJob) (ys : List MemoryJob)
    → p y ≡ true
    → ((k : ℕ) (x : MemoryJob)
        → get_elem? (keep p ys) k ≡ some x
        → (p x ≡ true) × ((n : ℕ) × (get_elem? ys n ≡ some x)))
    → (k : ℕ) (x : MemoryJob) → get_elem? (y ∷ keep p ys) k ≡ some x
    → (p x ≡ true) × ((n : ℕ) × (get_elem? (y ∷ ys) n ≡ some x))
head_or_tail p y ys t rest zero x e = (ap p (sym (some-injective _ _ e)) ∙ t, (0, e))
head_or_tail p y ys t rest (suc k) x e = let (px, (n, g)) = rest k x e in (px, (suc n, g))

keep-get :
    (p : MemoryJob → Bool) (xs : List MemoryJob) (k : ℕ) (x : MemoryJob)
    → get_elem? (keep p xs) k ≡ some x
    → (p x ≡ true) × ((n : ℕ) × (get_elem? xs n ≡ some x))
keep-get p [] k x e = cc
keep-get p (y ∷ ys) k x e = elim (Bool-cases (p y)) [
  | inl t ↦ head_or_tail p y ys t (keep-get p ys) k x (rw t at e)
  | inr t ↦ let (px, (n, g)) = keep-get p ys k x (rw t at e) in (px, (suc n, g))
]

-- After Done of a job that its claim has, no job has its ID.
done_removes :
    (m : Memory) (j : Job) (i : ℕ) (mj : MemoryJob)
    → IsNumbered m
    → get_elem? m.jobs i ≡ some mj
    → claimed_by mj j ≡ true
    → mj.id ≡ j.id
    → (k : ℕ) (x : MemoryJob) → get_elem? (done m j).jobs k ≡ some x
    → x.id ≢ j.id
unfolding done
done_removes m j i mj num g c id k x gx same =
    let (p, (n, gn)) = keep-get (λ y. not (claimed_by y j)) m.jobs k x gx in
    let one : n ≡ i = IsNumbered-unique m n i x mj num gn g (same ∙ sym id) in
    let eq : x ≡ mj = some-injective _ _ (sym gn ∙ ap (get_elem? m.jobs) one ∙ g) in
    let c' : claimed_by x j ≡ true = rw eq c in ground arith

same-claimed_by :
    (x : MemoryJob) (j : Job)
    → x.id ≡ j.id
    → x.attempts ≡ j.attempts
    → x.failed ≡ false
    → claimed_by x j ≡ true
unfolding claimed_by
same-claimed_by x j id a f = rw (id, a, f, str_eq_refl j.id, same_attempts_refl j.attempts)

-- The job's place after a claim of it.
Claimed-listed :
    (m m' : Memory) (now until i : ℕ) (mj : MemoryJob) (j : Job)
    → Claimed m now until i mj m' j
    → get_elem? m'.jobs i ≡ some (record mj { job = j; held_until = until })
Claimed-listed m m' now until i mj j claimed =
    rw claimed.store_after (get_elem?-set_self m.jobs i _ mj claimed.listed)

-- HoldBack takes an attempt back, so the attempts of two claims can be one. When one claim of a job
-- ran out, a second took the job, and the second was held back with some key, the job is in the
-- store, and a late Done of the first claim removes it all the same. The store's IDs rise.
pub late_done_removes_held_back :
    (m m₁ m₂ : Memory) (now until now₂ until₂ u : ℕ) (first second : Job)
    → IsNumbered m
    → claim m now until ≡ (m₁, some first)
    → claim m₁ now₂ until₂ ≡ (m₂, some second)
    → second.id ≡ first.id
    → (key : Bytes) × (i : ℕ) × (mj : MemoryJob) × (get_elem?
          (hold_back m₂ (record second { key = key }) u).jobs
          i
        ≡ some mj)
      × (mj.id ≡ first.id)
      × ((k : ℕ) (x : MemoryJob)
          → get_elem? (done (hold_back m₂ (record second { key = key }) u) first).jobs k ≡ some x
          → x.id ≢ first.id)
late_done_removes_held_back m m₁ m₂ now until now₂ until₂ u first second num e₁ e₂ same =
    let (i₁, mj₁, c₁) = claim-Claimed m m₁ now until first e₁ in
    let num₁ = claim-IsNumbered m m₁ now until _ e₁ num in
    let (i, mj, listed, id, undone) = hold_back_undoes_claim m₁ m₂ now₂ until₂ u second num₁ e₂ in
    let there = Claimed-listed m m₁ now until i₁ mj₁ first c₁ in
    let one : i ≡ i₁ = IsNumbered-unique m₁ i i₁ mj _ num₁ listed there (id ∙ same) in
    let eq = some-injective _ _ (sym listed ∙ ap (get_elem? m₁.jobs) one ∙ there) in
    let held : get_elem? (hold_back m₂ (record second { key = mj.key }) u).jobs i
        ≡ some (unclaimed m₁ i mj) =
      rw undone (get_elem?-set_self m₁.jobs i (unclaimed m₁ i mj) mj listed) in
    let claimed : claimed_by (unclaimed m₁ i mj) first ≡ true =
      same-claimed_by (unclaimed m₁ i mj) first (id ∙ same) (ap (λ (x : MemoryJob). x.attempts) eq)
        (ap (λ (x : MemoryJob). x.failed) eq ∙ c₁.may_run.alive) in
    let num₂ = claim-IsNumbered m₁ m₂ now₂ until₂ _ e₂ num₁ in
    (
      mj.key,
      i,
      unclaimed m₁ i mj,
      held,
      id ∙ same,
      done_removes _ first i _ (hold_back-IsNumbered m₂ _ u num₂) held claimed (id ∙ same),
    )
