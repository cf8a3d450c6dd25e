-- ===== src/Queue/Kind/Pushes.antt =====
-- A kind's options hold for all that is pushed through it: the queue of kinds keeps to its limits.
use tug.Common.{
  ℕ, ◌≤◌, ◌≡◌, ◌≢◌, refl, sym, ap, ◌∙◌, subst, List, [], ◌∷◌, Option, none, some, arith, Bytes, All,
  All-append, if◌then◌else◌, ok, err, Bool-cases, inl, inr, Result, Ensures, get_elem?, All-get,
}
use tug.Queue.Job.{Job}
use tug.Queue.Memory.{
  Memory, MemoryJob, empty, push_scheduled, Op, pushes, pushes_scheduled, pushes_unique,
  pushes_latest, holds_back, claims, is_done, retries, fails, runs_again, step, run,
}
use tug.Queue.Memory.Claims.{held_count}
use tug.Queue.Memory.Limits.{run-at_once, HasLimit, PushesOnly, Timed}
use tug.Queue.Kind.{
  Kind, Kinds, Panic, Scheduled, Carried, new_job, push_job, push_at, run_of, schedule,
}
use tug.Queue.Kind.Handles.{check-then}

-- A call that pushes nothing.
abbrev pub IsCall : Op → Type 0
IsCall (pushes j) = 1 ≤ 0
IsCall (pushes_scheduled s j) = 1 ≤ 0
IsCall (pushes_unique j) = 1 ≤ 0
IsCall (pushes_latest j) = 1 ≤ 0
IsCall _ = Unit

-- What happens to a queue and its store: a Schedule of a kind, given its value's JSON; a push through a kind; a run of one of
-- the queue's schedules that is pushed; or a worker's call.
pub data KindOp : Type 0 where
  schedules_kind : Kind → (next : ℕ → ℕ) → (payload : Option Bytes) → KindOp
  kind_pushes : Kind → (payload : Bytes) → (at : ℕ) → Carried → KindOp
  run_pushes : (nth : ℕ) → (at : ℕ) → KindOp
  calls : Op → KindOp

-- A kind of the name has the limit n.
abbrev pub KeepsLimit : Bytes → ℕ → KindOp → Type 0
KeepsLimit name n (schedules_kind k next payload) = k.name ≡ name → k.handler.at_once ≡ n
KeepsLimit name n (kind_pushes k payload at with_it) = k.name ≡ name → k.handler.at_once ≡ n
KeepsLimit name n (run_pushes nth at) = Unit
KeepsLimit name n (calls op) = IsCall op

abbrev pub after_schedule : Kinds → Result Panic Kinds → Kinds
after_schedule q (err e) = q
after_schedule q (ok q') = q'

abbrev pub push_nth : Option Scheduled → (at : ℕ) → Memory → Memory
push_nth none at m = m
push_nth (some sc) at m = (push_scheduled m sc.kind (run_of sc at)).0

abbrev pub with_run : Option Scheduled → (at : ℕ) → List Op → List Op
with_run none at ops = ops
with_run (some sc) at ops = pushes_scheduled sc.kind (run_of sc at) ∷ ops

module _ (key_of : Bytes → Bytes) where
  -- A queue after Schedule, which panics or adds to the schedules.
  abbrev pub scheduled : Kinds → Kind → (ℕ → ℕ) → Option Bytes → Kinds
  scheduled q k next payload = after_schedule q (schedule key_of q k next payload)

  unfoldable pub kind_step : Kinds × Memory → KindOp → Kinds × Memory
  kind_step (q, m) (schedules_kind k next payload) = (scheduled q k next payload, m)
  kind_step (q, m) (kind_pushes k payload at with_it) =
      (q, (push_at key_of m k (some payload) at (ok with_it) 0).0)
  kind_step (q, m) (run_pushes nth at) = (q, push_nth (get_elem? q.schedules nth) at m)
  kind_step (q, m) (calls op) = (q, step m op)

  unfoldable pub kind_run : Kinds × Memory → List KindOp → Kinds × Memory
  kind_run x [] = x
  kind_run x (op ∷ ops) = kind_run (kind_step x op) ops

  -- The call of the Store's that a push makes.
  unfoldable pub push_op : Kind → (payload : Bytes) → (at : ℕ) → Carried → Op
  push_op k payload at with_it =
      let j : Job = new_job k payload at with_it in
      let keyed : Job = record j { key = key_of payload } in
      if k.handler.is_latest
      then pushes_latest keyed
      else if k.handler.is_unique
      then pushes_unique keyed
      else pushes j

  -- The calls of the Store's that a history makes.
  unfoldable pub store_ops : Kinds → List KindOp → List Op
  store_ops q [] = []
  store_ops q (schedules_kind k next payload ∷ ops) = store_ops (scheduled q k next payload) ops
  store_ops q (kind_pushes k payload at with_it ∷ ops) =
      push_op k payload at with_it ∷ store_ops q ops
  store_ops q (run_pushes nth at ∷ ops) = with_run (get_elem? q.schedules nth) at (store_ops q ops)
  store_ops q (calls op ∷ ops) = op ∷ store_ops q ops

  step-push_op :
      (m : Memory) (k : Kind) (payload : Bytes) (at : ℕ) (with_it : Carried)
      → (push_at key_of m k (some payload) at (ok with_it) 0).0
        ≡ step m (push_op k payload at with_it)
  unfolding push_op step push_at push_job
  step-push_op m k payload at with_it = elim (Bool-cases k.handler.is_latest) [
    | inl a ↦ rw a refl
    | inr a ↦ elim (Bool-cases k.handler.is_unique) [
      | inl b ↦ rw (a, b) refl
      | inr b ↦ rw (a, b) refl
    ]
  ]

  run-with_run :
      (o : Option Scheduled) (at : ℕ) (m : Memory) (ops : List Op)
      → run (push_nth o at m) ops ≡ run m (with_run o at ops)
  unfolding run step
  run-with_run none at m ops = refl
  run-with_run (some sc) at m ops = refl

  run-store_ops :
      (q : Kinds) (m : Memory) (ops : List KindOp)
      → (kind_run (q, m) ops).1 ≡ run m (store_ops q ops)
  unfolding kind_run kind_step store_ops run step
  run-store_ops q m [] = refl
  run-store_ops q m (schedules_kind k next payload ∷ ops) =
      run-store_ops (scheduled q k next payload) m ops
  run-store_ops q m (kind_pushes k payload at with_it ∷ ops) =
      run-store_ops q _ ops
      ∙ ap (λ m'. run m' (store_ops q ops)) (step-push_op m k payload at with_it)
  run-store_ops q m (run_pushes nth at ∷ ops) =
      run-store_ops q _ ops ∙ run-with_run (get_elem? q.schedules nth) at m (store_ops q ops)
  run-store_ops q m (calls op ∷ ops) = run-store_ops q _ ops

call-PushesOnly : (P : MemoryJob → Type 0) (op : Op) → IsCall op → PushesOnly P op
call-PushesOnly P (pushes j) c = absurd (omega arith)
call-PushesOnly P (pushes_scheduled s j) c = absurd (omega arith)
call-PushesOnly P (pushes_unique j) c = absurd (omega arith)
call-PushesOnly P (pushes_latest j) c = absurd (omega arith)
call-PushesOnly P (holds_back j u) c = tt
call-PushesOnly P (claims n u) c = tt
call-PushesOnly P (is_done j) c = tt
call-PushesOnly P (retries j) c = tt
call-PushesOnly P (fails j u) c = tt
call-PushesOnly P (runs_again i u) c = tt

module _ (key_of : Bytes → Bytes) (name : Bytes) (n : ℕ) where
  -- The schedules of a queue's kinds of the name have the limit n.
  abbrev AllLimited : Kinds → Type 0
  AllLimited q = All (λ (sc : Scheduled). sc.kind ≡ name → sc.at_once ≡ n) q.schedules

  schedule-AllLimited :
      (q : Kinds) (k : Kind) (next : ℕ → ℕ) (payload : Option Bytes)
      → (k.name ≡ name → k.handler.at_once ≡ n)
      → AllLimited q
      → Ensures AllLimited (schedule key_of q k next payload)
  unfolding schedule
  schedule-AllLimited q k next none keeps a = tt
  schedule-AllLimited q k next (some payload) keeps a = check-then AllLimited _ _ _ λ can.
      check-then AllLimited _ _ _ λ open_yet. check-then AllLimited _ _ _ λ new.
        All-append (λ (sc : Scheduled). sc.kind ≡ name → sc.at_once ≡ n) q.schedules _ a (keeps, tt)

  scheduled-AllLimited :
      (q : Kinds) (k : Kind) (next : ℕ → ℕ) (payload : Option Bytes)
      → (k.name ≡ name → k.handler.at_once ≡ n)
      → AllLimited q
      → AllLimited (scheduled key_of q k next payload)
  scheduled-AllLimited q k next payload keeps a =
      after_schedule-AllLimited q (schedule key_of q k next payload) a
        (schedule-AllLimited q k next payload keeps a)
    where
      after_schedule-AllLimited :
          (q : Kinds) (r : Result Panic Kinds)
          → AllLimited q
          → Ensures AllLimited r
          → AllLimited (after_schedule q r)
      after_schedule-AllLimited q (err e) a b = a
      after_schedule-AllLimited q (ok q') a b = b

  push_op-PushesOnly :
      (k : Kind) (payload : Bytes) (at : ℕ) (with_it : Carried)
      → (k.name ≡ name → k.handler.at_once ≡ n)
      → PushesOnly (HasLimit name n) (push_op key_of k payload at with_it)
  unfolding push_op
  push_op-PushesOnly k payload at with_it keeps = elim (Bool-cases k.handler.is_latest) [
    | inl a ↦ rw a (λ id e. keeps e)
    | inr a ↦ elim (Bool-cases k.handler.is_unique) [
      | inl b ↦ rw (a, b) (λ id e. keeps e)
      | inr b ↦ rw (a, b) (λ id e. keeps e)
    ]
  ]

  with_run-PushesOnly :
      (o : Option Scheduled) (at : ℕ) (ops : List Op)
      → ((sc : Scheduled) → o ≡ some sc → sc.kind ≡ name → sc.at_once ≡ n)
      → All (PushesOnly (HasLimit name n)) ops
      → All (PushesOnly (HasLimit name n)) (with_run o at ops)
  with_run-PushesOnly none at ops limited rest = rest
  with_run-PushesOnly (some sc) at ops limited rest = ((λ id same. limited sc refl same), rest)

  store_ops-PushesOnly :
      (q : Kinds) (ops : List KindOp)
      → AllLimited q
      → All (KeepsLimit name n) ops
      → All (PushesOnly (HasLimit name n)) (store_ops key_of q ops)
  unfolding store_ops
  store_ops-PushesOnly q [] a keeps = tt
  store_ops-PushesOnly q (schedules_kind k next payload ∷ ops) a keeps =
      store_ops-PushesOnly (scheduled key_of q k next payload) ops
        (scheduled-AllLimited q k next payload keeps.0 a) keeps.1
  store_ops-PushesOnly q (kind_pushes k payload at with_it ∷ ops) a keeps =
      (push_op-PushesOnly k payload at with_it keeps.0, store_ops-PushesOnly q ops a keeps.1)
  store_ops-PushesOnly q (run_pushes nth at ∷ ops) a keeps =
      with_run-PushesOnly (get_elem? q.schedules nth) at (store_ops key_of q ops)
        (λ sc e.
          All-get (λ (sc : Scheduled). sc.kind ≡ name → sc.at_once ≡ n) q.schedules nth sc a e)
        (store_ops-PushesOnly q ops a keeps.1)
  store_ops-PushesOnly q (calls op ∷ ops) a keeps =
      (call-PushesOnly (HasLimit name n) op keeps.0, store_ops-PushesOnly q ops a keeps.1)

  -- Of a kind with AtOnce n, claims never hold more than n jobs at once, however its pushes, plain, unique
  -- or latest, the schedules that Schedule gives it and their runs mix with those of other kinds and the workers' calls, from a queue
  -- with no schedules and an empty store on, as long as the claims' times do not go back.
  pub kinds-at_once :
      (q : Kinds) (ops : List KindOp) (t : ℕ)
      → n ≢ 0
      → q.schedules ≡ []
      → Timed 0 (store_ops key_of q ops) t
      → All (KeepsLimit name n) ops
      → held_count (kind_run key_of (q, empty) ops).1 name t ≤ n
  kinds-at_once q ops t nz none_yet timed keeps = rw (run-store_ops key_of q empty ops) (
      run-at_once (store_ops key_of q ops) name n t nz timed (
        store_ops-PushesOnly q ops
          (subst (λ scs. All (λ (sc : Scheduled). sc.kind ≡ name → sc.at_once ≡ n) scs)
            (sym none_yet) tt)
          keeps))
