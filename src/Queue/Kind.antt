-- ===== src/Queue/Kind.antt =====
-- Kinds of jobs: their handlers, their pushes and their schedules (queue/kind.go, queue/carry.go, and
-- pushScheduled of queue/queue.go), on the memory Store. What encoding/json makes of a value, the SHA-256 of
-- a payload, and what the queue's Carriers take are arguments.
pub mod Handles
pub mod Pushes
mod Tests
use tug.Common.{
  ℕ, zero, suc, ◌≤◌, List, [], ◌∷◌, ◌++◌, Bool, true, false, not, ◌&&◌, ◌||◌, Option, none, some,
  Bytes, str_eq, lookup, insert, any, ltb, leb, ◌==◌, if◌then◌else◌, Result, ok, err, ◌>>=◌,
}
use tug.Common.Int.{pos}
use tug.Queue.Job.{Job}
use tug.Queue.Handler.{Handler, KindOption, Extras, apply_options, default_handler, has_needs}
use tug.Queue.Memory.{Memory, push, push_unique, push_latest, push_scheduled}

pub record Kind : Type 0 where
  pub name : Bytes
  pub handler : Handler
  -- Whether its jobs go to a Store that In was given, which its workers do not see yet.
  pub is_in : Bool

-- A kind's schedule. `next` is its Next, 0 for the zero time.
pub record Scheduled : Type 0 where
  pub kind : Bytes
  pub next : ℕ → ℕ
  pub payload : Bytes
  pub key : Bytes
  pub one_at_a_time : Bool
  pub at_once : ℕ

-- What a queue knows of its kinds.
pub record Kinds : Type 0 where
  pub extras : Extras
  pub handlers : List (Bytes × Handler)
  pub schedules : List Scheduled
  pub is_started : Bool

pub data Panic : Type 0 where
  no_name bad_option needs_extra not_on_fail already_started has_handler no_json no_schedules
        has_schedule :
      Panic

unfoldable pub check : Bool → Panic → Result Panic (Unit {0})
check b p = if b then ok tt else err p

unfoldable pub is_absent : Option Handler → Bool
is_absent none = true
is_absent (some h) = false

unfoldable pub options_or_panic : Option Handler → Result Panic Handler
options_or_panic none = err bad_option
options_or_panic (some h) = ok h

-- `Handle`, given whether its function is not nil, and whether OnFail's function takes the kind's value.
unfoldable pub handle :
    (random : ℕ)
    → Kinds
    → (name : Bytes) → (has_function on_fail_fits : Bool) → List KindOption
    → Result Panic (Kinds × Kind)
handle random q name has_function on_fail_fits options = do
  _ ← check (not (str_eq name []) && has_function) no_name
  h ← options_or_panic (apply_options options (default_handler random))
  _ ← check (has_needs h q.extras) needs_extra
  _ ← check (not h.has_rate || q.extras.hold_back_store) needs_extra
  _ ← check on_fail_fits not_on_fail
  _ ← check (not q.is_started) already_started
  _ ← check (is_absent (lookup name q.handlers)) has_handler
  ok (
    record q { handlers = insert name h q.handlers },
    record { name = name; handler = h; is_in = false },
  )

-- `In`, to a Store with those extras.
unfoldable pub in_store : Kind → Extras → Result Panic Kind
in_store k s = do _ ← check (has_needs k.handler s) needs_extra; ok (record k { is_in = true })

abbrev pub Carried : Type 0
Carried = List (Bytes × Bytes)

pub data PushError : Type 0 where
  not_json carries_too_much : PushError

-- `carried`: what the Carriers take, and how long it is as JSON, none where it is not JSON.
unfoldable pub carried :
    (has_carriers : Bool) → Extras → Carried → (size : Option ℕ) → Result PushError Carried
carried has_carriers s into size =
    if not has_carriers || not s.carry_store then ok [] else elim into [
      | [] ↦ ok []
      | (x ∷ xs) ↦ elim size [
        | none ↦ err carries_too_much
        | some n ↦ if ltb 4096 n then err carries_too_much else ok (x ∷ xs)
      ]
    ]

abbrev pub new_job : Kind → Bytes → ℕ → Carried → Job
new_job k payload at with_it = record {
  id = [];
  kind = k.name;
  payload = payload;
  key = [];
  run_at = at;
  attempts = pos 0;
  error = [];
  one_at_a_time = k.handler.one_at_a_time;
  at_once = k.handler.at_once;
  failed_at = 0;
  carried = with_it;
}

module _ (key_of : Bytes → Bytes) where
  -- The push that a kind's options choose.
  unfoldable pub push_job : Memory → Kind → Job → Memory
  push_job m k j =
      let keyed : Job = record j { key = key_of j.payload } in
      if k.handler.is_latest
      then (push_latest m keyed).0
      else if k.handler.is_unique
      then (push_unique m keyed).0
      else (push m j).0

  -- `PushAt`, given the value's JSON, none for an error; what it carries; and the time of the queue's
  -- clock after the push. It says whether it wakes the queue.
  unfoldable pub push_at :
      Memory
      → Kind
      → (payload : Option Bytes) → (at : ℕ) → Result PushError Carried
      → (clock : ℕ) → Memory × Result PushError Bool
  push_at m k none at with_it clock = (m, err not_json)
  push_at m k (some payload) at (err e) clock = (m, err e)
  push_at m k (some payload) at (ok with_it) clock =
      (push_job m k (new_job k payload at with_it), ok (not k.is_in && leb at clock))

  -- `Schedule`, of a kind whose next times are `next`, given its value's JSON.
  unfoldable pub schedule : Kinds → Kind → (ℕ → ℕ) → Option Bytes → Result Panic Kinds
  schedule q k next none = err no_json
  schedule q k next (some payload) = do
    _ ← check q.extras.schedule_store no_schedules
    _ ← check (not q.is_started) already_started
    _ ← check (not (any (λ (sc : Scheduled). str_eq sc.kind k.name) q.schedules)) has_schedule
    ok (record q {
      schedules =
          q.schedules
          ++ record {
            kind = k.name;
            next = next;
            payload = payload;
            key = if k.handler.is_unique then key_of payload else [];
            one_at_a_time = k.handler.one_at_a_time;
            at_once = k.handler.at_once;
          }
            ∷ [];
    })

abbrev pub run_of : Scheduled → ℕ → Job
run_of sc at = record {
  id = [];
  kind = sc.kind;
  payload = sc.payload;
  key = sc.key;
  run_at = at;
  attempts = pos 0;
  error = [];
  one_at_a_time = sc.one_at_a_time;
  at_once = sc.at_once;
  failed_at = 0;
  carried = [];
}

-- A round of the loop of `pushScheduled`, for a schedule whose run pushed last is due at `pushed`: the
-- store, and the run pushed last from then on. The context is not done.
unfoldable pub push_run : Memory → Scheduled → (pushed now : ℕ) → Memory × ℕ
push_run m sc pushed now =
    let at : ℕ = sc.next now in
    if ltb now pushed
    then (m, pushed)
    else if at == 0
    then (m, pushed)
    else ((push_scheduled m sc.kind (run_of sc at)).0, at)

-- `pushScheduled`, over the schedules with their runs pushed last.
unfoldable pub push_runs : Memory → List (Scheduled × ℕ) → (now : ℕ) → Memory × List (Scheduled × ℕ)
push_runs m [] now = (m, [])
push_runs m ((sc, pushed) ∷ rest) now =
    let (m₁, at) = push_run m sc pushed now in
    let (m₂, others) = push_runs m₁ rest now in (m₂, (sc, at) ∷ others)
