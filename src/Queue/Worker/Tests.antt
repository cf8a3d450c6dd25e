-- ===== src/Queue/Worker/Tests.antt =====
-- A queue that drains (queue/queue.go), and the theorems at it.
use mathlib.Core.Option.{some-injective}
use tug.Common.{
  sym, zero, suc, ◌≡◌, refl, ◌+◌, arith, List, [], ◌∷◌, true, false, none, some, Bytes, itoa,
}
use tug.Common.Int.{pos}
use tug.Queue.Job.{Job}
use tug.Queue.Memory.{Memory, empty, kept, push, claim, run, step, pushes}
use tug.Queue.Worker.Rates.{IsKeyed}
use tug.Queue.Handler.{Handler, backoff}
use tug.Queue.Worker.{Turn, errs, hold, held_for, drain}
use tug.Queue.Worker.Drains.{drain_ends}

abbrev job : Job
job = record {
  id = [];
  kind = 109 ∷ [];
  payload = [];
  key = [];
  run_at = 3;
  attempts = pos 0;
  error = [];
  one_at_a_time = false;
  at_once = 0;
  failed_at = 0;
  carried = [];
}

abbrev one_job : Memory
one_job = (push empty job).0

-- A handler that waits a second after a failure, with no rate.
abbrev waits : Handler
waits = record {
  attempts = pos 3;
  timeout = 5;
  wait_after = λ a. 10;
  is_unique = false;
  is_latest = false;
  one_at_a_time = false;
  at_once = 0;
  has_rate = false;
}

abbrev broken : Job → Turn
broken j = record {
  rate_wait = some (pos 0);
  is_stopped_early = false;
  rate_clock = 7;
  answer = errs (33 ∷ []) false;
  is_stopped = false;
  clock = 8;
  store_clock = 7;
}

-- A job waits a second after its first attempt, 16 after its second, and a day at most.
backoffs :
    (backoff 0 1 ≡ 1000000000) × (backoff 0 2 ≡ 16000000000) × (backoff 0 25 ≡ 86400000000000)
unfolding backoff
backoffs = (refl, refl, refl)

abbrev kinds : List (Bytes × Handler)
kinds = (109 ∷ [], waits) ∷ []

drain_ends_example :
    (m' : Memory) × (drain (λ b. b) 0 kinds broken 7 2 one_job ≡ some m')
    × (claim m' 7 (7 + hold kinds) ≡ (m', none))
unfolding push held_for
drain_ends_example =
    drain_ends (λ b. b) 0 kinds broken 7 2 one_job
      (λ j. record { lets = refl; goes_on = refl; waits = λ a. omega arith }) (omega arith)

abbrev unique_job : Job
unique_job = record job { payload = 112 ∷ []; key = 112 ∷ [] }

abbrev one_unique : Memory
one_unique = run empty (pushes unique_job ∷ [])

abbrev rated : Handler
rated = record waits { is_unique = true; has_rate = true }

abbrev busy : Turn
busy = record (broken job) { rate_wait = some (pos 30) }

one_unique-IsKeyed : IsKeyed (λ b. b) rated one_unique
unfolding run step push
one_unique-IsKeyed zero mj g =
    let same : mj ≡ kept (record unique_job { id = itoa 1 }) = sym (some-injective _ _ g) in
    rw same refl
one_unique-IsKeyed (suc i) mj g = cc

abbrev claimed_job : Job
claimed_job = record unique_job { id = 49 ∷ []; key = []; attempts = pos 1 }
