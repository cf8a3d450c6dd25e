-- ===== src/Queue/Worker.antt =====
-- How a queue's worker runs a job that it claimed, and tells the Store how it went (queue/queue.go), on the
-- memory Store. What a handler answers, what its kind's rate says, whether the worker's context is done,
-- and what the clock reads are arguments. Logs, observers, what a job carried, the functions that are
-- told of a failure, and the wakes of idle workers are not modelled.
pub mod Drains
pub mod Rates
mod Tests
use tug.Common.{
  ℕ, zero, suc, ◌+◌, ◌*◌, ◌/◌, min, max, List, [], ◌∷◌, Bool, true, false, ◌||◌, Option, none, some,
  Bytes, lookup, ltb, if◌then◌else◌,
}
use tug.Common.Int.{ℤ, pos, negsuc}
use tug.Queue.Job.{Job}
use tug.Queue.Handler.{
  Handler, default_handler, default_timeout, hold_margin, held_on_error, backoff,
}
use tug.Queue.Memory.{Memory, hold_back, claim, done, retry, fail}

-- What `call` returns, which for a kind without a handler is an error that says so: nil, or an error, with
-- its message and whether it is a permanent one. A handler that panics returns an error too.
pub data Answer : Type 0 where
  succeeds : Answer
  errs : (message : Bytes) (is_permanent : Bool) → Answer

-- What a job's turn meets: what the rate's Try returns, none for an error, and whether the context was
-- done then; what the handler answers, and whether the context is done after it; and the times.
pub record Turn : Type 0 where
  pub rate_wait : Option ℤ
  pub is_stopped_early : Bool
  pub rate_clock : ℕ
  pub answer : Answer
  pub is_stopped : Bool
  pub clock : ℕ
  pub store_clock : ℕ

pub data Event : Type 0 where
  was_done : Event
  was_retried : Event
  was_failed : Event
  was_held_back : Event

-- Go's >= on ints.
unfoldable pub at_least : ℤ → ℤ → Bool
at_least (pos a) (pos b) = if ltb a b then false else true
at_least (pos a) (negsuc b) = true
at_least (negsuc a) (pos b) = false
at_least (negsuc a) (negsuc b) = if ltb b a then false else true

-- The switch of `run`, on what the handler answered.
unfoldable pub settle : Memory → Handler → Job → Turn → Answer → Memory × Event
settle m h j turn succeeds = (done m j, was_done)
settle m h j turn (errs message is_permanent) =
    if turn.is_stopped
    then (retry m (record j { run_at = turn.clock; error = message }), was_retried)
    else if is_permanent || at_least j.attempts h.attempts
    then (
      fail m (record j { error = message; failed_at = turn.clock }) turn.store_clock,
      was_failed,
    )
    else (
      retry m (record j { run_at = turn.clock + h.wait_after j.attempts; error = message }),
      was_retried,
    )

-- How long `held` holds a job back, none for a job let past its rate.
unfoldable pub held_for : Bool → Option ℤ → Option ℕ
held_for true wait = some 0
held_for false none = some held_on_error
held_for false (some (pos zero)) = none
held_for false (some (pos (suc n))) = some (suc n)
held_for false (some (negsuc n)) = none

-- `run`. `key_of` is `keyOf`, the SHA-256 of a payload.
unfoldable pub run_job : (key_of : Bytes → Bytes) → Memory → Handler → Job → Turn → Memory × Event
run_job key_of m h j turn =
    let ran = settle m h j turn turn.answer in
    let key : Bytes = if h.is_unique then key_of j.payload else j.key in
    if h.has_rate
    then elim (held_for turn.is_stopped_early turn.rate_wait) [
      | none ↦ ran
      | some wait ↦ (hold_back m (record j { key = key }) (turn.rate_clock + wait), was_held_back)
    ]
    else ran

-- The handler that `run` takes for a kind without one; a claimed job's attempts are never negative.
abbrev pub no_handler : ℕ → Handler
no_handler random = default_handler random

unfoldable pub handler_of : ℕ → List (Bytes × Handler) → Bytes → Handler
handler_of random handlers kind = elim (lookup kind handlers) [
  | none ↦ no_handler random
  | some h ↦ h
]

unfoldable pub longest : List (Bytes × Handler) → ℕ → ℕ
longest [] most = most
longest ((_, h) ∷ rest) most = longest rest (max most h.timeout)

-- `hold`: how long a claim holds a job.
unfoldable pub hold : List (Bytes × Handler) → ℕ
hold handlers = longest handlers default_timeout + hold_margin

-- `Drain`, for so many rounds and one more, none when they are over before it ends. The clock stands
-- still at `now`, and the context is not done between rounds; `turn_of` is a job's turn.
unfoldable pub drain :
    (key_of : Bytes → Bytes)
    → (random : ℕ) → List (Bytes × Handler)
    → (turn_of : Job → Turn) → (now : ℕ) → ℕ
    → Memory
    → Option Memory
drain key_of random handlers turn_of now zero m = none
drain key_of random handlers turn_of now (suc rounds) m =
    let (m', claimed) = claim m now (now + hold handlers) in
    elim claimed [
      | none ↦ some m'
      | some j ↦
          drain key_of random handlers turn_of now rounds
            (run_job key_of m' (handler_of random handlers j.kind) j (turn_of j)).0
    ]
