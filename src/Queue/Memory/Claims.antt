-- ===== src/Queue/Memory/Claims.antt =====
-- What `Claim` returns: the job due soonest of those that may run.
use Prim.Native.Nat.add
use native.Mathlib.Nat.{add-zero}
use mathlib.Core.Option.{some-injective}
use tug.Common.{
  ℕ, zero, suc, ◌+◌, ◌≤◌, ◌<◌, ◌≡◌, refl, ap, subst, ◌≢◌, ◌↔◌, ◌⊎◌, List, [], ◌∷◌, false, none,
  some, arith, Bytes, str_eq_iff, if◌then◌else◌, get_elem?, set, Bool-cases, Option-cases, inl, inr,
  ltb, any_but, count_if, any_but-false_get, any_but-false_of_get,
}
use tug.Common.Int.{pos, ◌+ℤ◌}
use tug.Queue.Job.{Job}
use tug.Queue.Memory.{
  Memory, MemoryJob, claim, hold_next, find_next, sooner, Found, passed_over, held_back, running,
  runs_beside, at_limit, held_of_kind, is_empty,
}

-- How many jobs of the kind claims hold at now.
abbrev pub held_count : Memory → Bytes → ℕ → ℕ
held_count m kind now = count_if (held_of_kind kind now) m.jobs

-- The job at index i may be claimed at now: it has not failed, is due, and no claim holds it; its
-- kind is not held back; no claim holds another job of its kind and OneAtATime key; and claims hold
-- fewer jobs of its kind than its AtOnce, where it has one.
pub record MayRun (m : Memory) (now i : ℕ) (mj : MemoryJob) : Type 0 where
  pub alive : mj.failed ≡ false
  pub due : mj.run_at ≤ now
  pub unheld : mj.held_until ≤ now
  pub kind_open : held_back m mj.kind ≤ now
  pub alone_open :
      (k : ℕ) (other : MemoryJob)
      → k ≢ i
      → get_elem? m.jobs k ≡ some other
      → other.kind ≡ mj.kind
      → other.alone ≡ mj.alone
      → mj.alone ≢ []
      → other.held_until ≤ now
  pub below_limit : mj.at_once ≢ 0 → held_count m mj.kind now < mj.at_once

-- No claim holds another job beside the one at index i.
abbrev Alone : Memory → ℕ → ℕ → MemoryJob → Type 0
Alone m now i mj =
    (k : ℕ) (other : MemoryJob)
    → k ≢ i
    → get_elem? m.jobs k ≡ some other
    → other.kind ≡ mj.kind
    → other.alone ≡ mj.alone
    → mj.alone ≢ []
    → other.held_until ≤ now

running-false :
    (m : Memory) (now i : ℕ) (mj : MemoryJob) → running m i mj now ≡ false → Alone m now i mj
unfolding running runs_beside
running-false m now i mj h k other ne e same_kind same_alone some_key =
    let clear : any_but i (runs_beside mj now) m.jobs ≡ false = ground arith in
    let here : runs_beside mj now other ≡ false =
      any_but-false_get i (runs_beside mj now) m.jobs k other clear ne e in
    ground (arith, str_eq_iff other.kind mj.kind, str_eq_iff other.alone mj.alone)

Alone-running :
    (m : Memory) (now i : ℕ) (mj : MemoryJob) → Alone m now i mj → running m i mj now ≡ false
unfolding running runs_beside
Alone-running m now i mj h = elim (Bool-cases (is_empty mj.alone)) [
  | inl e ↦ rw e
  | inr e ↦ rw e (
      any_but-false_of_get i (runs_beside mj now) m.jobs λ k other ne g.
        ground
          (arith, h k other ne g, str_eq_iff other.kind mj.kind, str_eq_iff other.alone mj.alone))
]

-- The code's test is a decision of `MayRun`.
passed_over-MayRun :
    (m : Memory) (now i : ℕ) (mj : MemoryJob) → passed_over m now i mj ≡ false → MayRun m now i mj
unfolding passed_over at_limit
passed_over-MayRun m now i mj h = record {
  alive = ground arith;
  due = ground arith;
  unheld = ground arith;
  kind_open = ground arith;
  alone_open = running-false m now i mj (ground arith);
  below_limit = λ nz. ground arith;
}

MayRun-passed_over :
    (m : Memory) (now i : ℕ) (mj : MemoryJob) → MayRun m now i mj → passed_over m now i mj ≡ false
unfolding passed_over at_limit
MayRun-passed_over m now i mj r =
    ground (arith, Alone-running m now i mj r.alone_open, r.below_limit)

-- The loop has found a job due at t or sooner.
abbrev AtMost : Found → ℕ → Type 0
AtMost none t = ⊥
AtMost (some (_, best)) t = best.run_at ≤ t

module _ (m : Memory) (now : ℕ) where
  sooner-AtMost :
      (i t : ℕ) (mj : MemoryJob) (next : Found) → AtMost next t → AtMost (sooner i mj next) t
  unfolding sooner
  sooner-AtMost i t mj none h = absurd h
  sooner-AtMost i t mj (some (k, best)) h = ground arith

  sooner-AtMost_self : (i : ℕ) (mj : MemoryJob) (next : Found) → AtMost (sooner i mj next) mj.run_at
  unfolding sooner
  sooner-AtMost_self i mj none = omega arith
  sooner-AtMost_self i mj (some (k, best)) = ground arith

  find_next-AtMost :
      (i t : ℕ) (rest : List MemoryJob) (next : Found)
      → AtMost next t
      → AtMost (find_next m now i rest next) t
  unfolding find_next
  find_next-AtMost i t [] next h = h
  find_next-AtMost i t (mj ∷ rest) next h = elim (Bool-cases (passed_over m now i mj)) [
    | inl e ↦ rw e (find_next-AtMost (suc i) t rest next h)
    | inr e ↦
        rw e (find_next-AtMost (suc i) t rest (sooner i mj next) (sooner-AtMost i t mj next h))
  ]

  -- Nothing that may run is due sooner than what the loop finds.
  find_next_covers :
      (i d : ℕ) (rest : List MemoryJob) (next : Found) (x : MemoryJob)
      → get_elem? rest d ≡ some x
      → passed_over m now (d + i) x ≡ false
      → AtMost (find_next m now i rest next) x.run_at
  unfolding find_next
  find_next_covers i d [] next x g h = cc
  find_next_covers i zero (mj ∷ rest) next x g h =
      let same : mj ≡ x = some-injective _ _ g in
      let open_here : passed_over m now i x ≡ false = rw add.zero at h in
      rw (same, open_here)
        (find_next-AtMost (suc i) x.run_at rest (sooner i x next) (sooner-AtMost_self i x next))
  find_next_covers i (suc d) (mj ∷ rest) next x g h =
      let e : suc d + i ≡ d + suc i = omega arith in
      find_next_covers (suc i) d rest (if passed_over m now i mj then next else sooner i mj next) x
        g (rw e at h)

  sooner_found :
      (i k : ℕ) (mj b : MemoryJob) (next : Found)
      → sooner i mj next ≡ some (k, b)
      → (next ≡ some (k, b)) ⊎ ((k ≡ i) × (mj ≡ b))
  unfolding sooner
  sooner_found i k mj b none e = inr (ground arith)
  sooner_found i k mj b (some (j, best)) e = elim (Bool-cases (ltb mj.run_at best.run_at)) [
    | inl t ↦ inr (ground arith)
    | inr t ↦ inl (ground arith)
  ]

  -- What the loop finds is what it began with, or a job of the list that may run.
  find_next_found :
      (i : ℕ) (rest : List MemoryJob) (next : Found) (k : ℕ) (b : MemoryJob)
      → find_next m now i rest next ≡ some (k, b)
      → (next ≡ some (k, b))
        ⊎ ((d : ℕ) × (k ≡ d + i) × (get_elem? rest d ≡ some b) × (passed_over m now k b ≡ false))
  unfolding find_next
  find_next_found i [] next k b e = inl e
  find_next_found i (mj ∷ rest) next k b e =
      elim (find_next_found (suc i) rest (if passed_over m now i mj then next else sooner i mj next)
        k b e) [
          | inl h ↦ elim (Bool-cases (passed_over m now i mj)) [
            | inl t ↦ inl (ground arith)
            | inr t ↦ elim (sooner_found i k mj b next (ground arith)) [
              | inl old ↦ inl old
              | inr (ei, eb) ↦ inr (0, omega arith, ap some eb, rw (ei, ← eb) t)
            ]
          ]
          | inr (d, ek, g, h) ↦ inr (suc d, omega arith, g, h)
        ]

-- A claim of the job that stood at index i: it may run, nothing that may run is due sooner, and it is
-- returned as it is kept from then on, held until its time, with one attempt more and its key let go.
pub record Claimed (m : Memory) (now until i : ℕ) (mj : MemoryJob) (m' : Memory) (j : Job)
    : Type 0 where
  pub listed : get_elem? m.jobs i ≡ some mj
  pub may_run : MayRun m now i mj
  pub soonest :
      (k : ℕ) (x : MemoryJob)
      → get_elem? m.jobs k ≡ some x
      → MayRun m now k x
      → mj.run_at ≤ x.run_at
  pub returned : j ≡ record mj.job { attempts = mj.attempts +ℤ pos 1; key = [] }
  pub store_after :
      m' ≡ record m { jobs = set m.jobs i (record mj { job = j; held_until = until }) }

hold_next-Claimed :
    (m m' : Memory) (now until : ℕ) (j : Job) (next : Found)
    → find_next m now 0 m.jobs none ≡ next
    → hold_next m until next ≡ (m', some j)
    → (i : ℕ) × (mj : MemoryJob) × Claimed m now until i mj m' j
unfolding hold_next
hold_next-Claimed m m' now until j none o e = cc
hold_next-Claimed m m' now until j (some (i, mj)) o e =
    elim (find_next_found m now 0 m.jobs none i mj o) [
      | inl impossible ↦ cc
      | inr (d, ed, g, h) ↦
          let same : i ≡ d = omega arith in
          (
            i,
            mj,
            record {
              listed = rw same g;
              may_run = passed_over-MayRun m now i mj h;
              soonest = λ k x gk r.
                  let at_k : passed_over m now (k + 0) x ≡ false =
                    rw add-zero (MayRun-passed_over m now k x r) in
                  subst (λ f. AtMost f x.run_at) o
                    (find_next_covers m now 0 k m.jobs none x gk at_k);
              returned = ground arith;
              store_after = ground arith;
            },
          )
    ]

-- Whenever Claim returns a job, it is the one due soonest of those that may run, held until the
-- claim's time with one attempt more and no key; no other job, and nothing else of the store, changes.
pub claim-Claimed :
    (m m' : Memory) (now until : ℕ) (j : Job)
    → claim m now until ≡ (m', some j)
    → (i : ℕ) × (mj : MemoryJob) × Claimed m now until i mj m' j
unfolding claim
claim-Claimed m m' now until j e =
    hold_next-Claimed m m' now until j (find_next m now 0 m.jobs none) refl e

none-idle :
    (m : Memory) (now until i : ℕ) (mj : MemoryJob) (next : Found)
    → find_next m now 0 m.jobs none ≡ next
    → hold_next m until next ≡ (m, none)
    → get_elem? m.jobs i ≡ some mj
    → ¬ MayRun m now i mj
unfolding hold_next
none-idle m now until i mj none o e g r =
    subst (λ f. AtMost f mj.run_at) o
      (find_next_covers m now 0 i m.jobs none mj g (rw add-zero (MayRun-passed_over m now i mj r)))
none-idle m now until i mj (some (k, b)) o e g r = cc

idle-none :
    (m : Memory) (now until : ℕ) (next : Found)
    → find_next m now 0 m.jobs none ≡ next
    → ((i : ℕ) (mj : MemoryJob) → get_elem? m.jobs i ≡ some mj → ¬ MayRun m now i mj)
    → hold_next m until next ≡ (m, none)
unfolding hold_next
idle-none m now until none o h = refl
idle-none m now until (some (i, mj)) o h = elim (find_next_found m now 0 m.jobs none i mj o) [
  | inl impossible ↦ cc
  | inr (d, ed, g, p) ↦
      let same : i ≡ d = omega arith in
      absurd (h i mj (rw same g) (passed_over-MayRun m now i mj p))
]

-- Claim returns no job exactly when none may run, and then changes nothing.
pub claim-none_iff :
    (m : Memory) (now until : ℕ)
    → (claim m now until ≡ (m, none))
      ↔ ((i : ℕ) (mj : MemoryJob) → get_elem? m.jobs i ≡ some mj → ¬ MayRun m now i mj)
unfolding claim
claim-none_iff m now until = (
  λ e i mj g r. none-idle m now until i mj (find_next m now 0 m.jobs none) refl e g r,
  idle-none m now until (find_next m now 0 m.jobs none) refl,
)

pub claim-none_same : (m m' : Memory) (now until : ℕ) → claim m now until ≡ (m', none) → m' ≡ m
unfolding claim hold_next
claim-none_same m m' now until e = elim (Option-cases (find_next m now 0 m.jobs none)) [
  | inl o ↦ ground arith
  | inr (found, o) ↦ ground arith
]
