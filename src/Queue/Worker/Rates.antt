-- ===== src/Queue/Worker/Rates.antt =====
-- A job that its kind's rate refuses, and the waits of jobs that failed.
use native.Mathlib.Nat.{mul-le-mul}
use tug.Common.{
  ℕ, ◌+◌, ◌*◌, ◌≤◌, min, ◌≡◌, refl, sym, ap, ◌∙◌, [], true, some, arith, Bytes, get_elem?, set,
  Bool-cases, inl, inr, ltb, if◌then◌else◌,
}
use tug.Queue.Job.{Job}
use tug.Queue.Memory.{Memory, MemoryJob, claim, hold_back}
use tug.Queue.Memory.Claims.{claim-Claimed}
use tug.Queue.Memory.Ids.{IsNumbered}
use tug.Queue.Memory.Stale.{unclaimed, undo-Claimed}
use tug.Queue.Handler.{Handler, backoff, second}
use tug.Queue.Worker.{Turn, was_held_back, held_for, run_job}

-- The jobs have the keys of their handler's kind: the hash of the payload, for a unique kind, or none.
abbrev pub IsKeyed : (Bytes → Bytes) → Handler → Memory → Type 0
IsKeyed key_of h m =
    (i : ℕ) (mj : MemoryJob)
    → get_elem? m.jobs i ≡ some mj
    → mj.key ≡ (if h.is_unique then key_of mj.payload else [])

refused_turn :
    (key_of : Bytes → Bytes) (m : Memory) (h : Handler) (j : Job) (turn : Turn) (wait : ℕ)
    → h.has_rate ≡ true
    → held_for turn.is_stopped_early turn.rate_wait ≡ some wait
    → run_job key_of m h j turn ≡ (
      hold_back m
          (record j { key = if h.is_unique then key_of j.payload else j.key })
          (turn.rate_clock + wait),
      was_held_back,
    )
unfolding run_job
refused_turn key_of m h j turn wait rated refused = rw (rated, refused) refl

-- A job that its kind's rate refuses goes back as it was: after the claim and the job's turn, the jobs are
-- as they were before, but that its hold is the zero time, and that its key is let go if another job
-- of its kind waits with it. The refused attempt is not counted. The store's IDs rise, and its jobs
-- have the keys of their handler's kind.
pub refused-undone :
    (key_of : Bytes → Bytes) (m m' : Memory) (now until wait : ℕ) (h : Handler) (j : Job)
    (turn : Turn)
    → IsNumbered m
    → IsKeyed key_of h m
    → claim m now until ≡ (m', some j)
    → h.has_rate ≡ true
    → held_for turn.is_stopped_early turn.rate_wait ≡ some wait
    → (i : ℕ) × (mj : MemoryJob) × (get_elem? m.jobs i ≡ some mj)
      × (mj.id ≡ j.id)
      × ((run_job key_of m' h j turn).0.jobs ≡ set m.jobs i (unclaimed m i mj))
      × ((run_job key_of m' h j turn).1 ≡ was_held_back)
refused-undone key_of m m' now until wait h j turn num keyed e rated refused =
    let (i, mj, claimed) = claim-Claimed m m' now until j e in
    let id : mj.id ≡ j.id = sym (ap (λ (x : Job). x.id) claimed.returned) in
    let payload : j.payload ≡ mj.payload = ap (λ (x : Job). x.payload) claimed.returned in
    let no_key : j.key ≡ [] = ap (λ (x : Job). x.key) claimed.returned in
    let key : (if h.is_unique then key_of j.payload else j.key) ≡ mj.key =
      rw (payload, no_key) (sym (keyed i mj claimed.listed)) in
    let turned = rw key at (refused_turn key_of m' h j turn wait rated refused) in
    (
      i,
      mj,
      claimed.listed,
      id,
      ap (λ r. r.0.jobs) turned
          ∙ undo-Claimed m m' now until (turn.rate_clock + wait) i mj j num claimed,
      ap (λ r. r.1) turned,
    )

-- A job waits after its attempts for attempt⁴ seconds, or a day where that is less, at least; and for a day
-- at most, and what is drawn at random more than attempt⁴ seconds.
pub backoff-bounds :
    (random attempt : ℕ)
    → (min (attempt * attempt * attempt * attempt * second) (86400 * second)
        ≤ backoff random attempt)
      × (backoff random attempt ≤ 86400 * second)
      × (backoff random attempt ≤ attempt * attempt * attempt * attempt * second + random)
unfolding backoff
backoff-bounds random attempt = elim (Bool-cases (ltb 19 attempt)) [
  | inr b ↦ rw b (omega arith, omega arith, omega arith)
  | inl b ↦
      let big : 19 ≤ attempt = ground arith in
      let squared = mul-le-mul {n₁ = 19} {m₁ = 19} {n₂ = attempt} {m₂ = attempt} big big in
      let cubed =
        mul-le-mul {n₁ = 19 * 19} {m₁ = 19} {n₂ = attempt * attempt} {m₂ = attempt} squared big in
      let fourth =
        mul-le-mul {n₁ = 19 * 19 * 19} {m₁ = 19} {n₂ = attempt * attempt * attempt} {m₂ = attempt}
          cubed big in
      rw b (omega arith, omega arith, omega (arith, fourth))
]
