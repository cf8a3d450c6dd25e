-- ===== src/Queue/Kind/Handles.antt =====
-- Handle gives a queue only kinds that its Store can keep.
use tug.Common.{
  ℕ, zero, suc, ◌<◌, ◌≡◌, refl, List, [], ◌∷◌, Bool, true, false, not, ◌||◌, Option, none, some,
  arith, Bytes, lookup, insert, lookup-insert, str_eq_refl, ltb, ◌==◌, Result, ok, ◌>>=◌, Ensures,
  Ensures-ok, Bool-cases, inl, inr, Option-cases,
}
use tug.Common.Int.{pos, negsuc}
use tug.Queue.Handler.{
  Handler, Extras, KindOption, UniqueOption, apply_options, apply_option, apply_uniques,
  apply_unique, default_handler, has_needs, latest, at_a_time, attempts_option, timeout_option,
  unique_option, backoff_option, at_once_option, rate_option,
}
use tug.Queue.Kind.{Kind, Kinds, Panic, check, handle, options_or_panic, is_absent}

-- A handler whose jobs run once at least, for some time.
abbrev pub RunsOnce : Handler → Type 0
RunsOnce h = ((n : ℕ) × (h.attempts ≡ pos (suc n))) × (0 < h.timeout)

apply_uniques-RunsOnce :
    (os : List UniqueOption) (h : Handler) → RunsOnce h → RunsOnce (apply_uniques os h)
unfolding apply_uniques apply_unique
apply_uniques-RunsOnce [] h r = r
apply_uniques-RunsOnce (latest ∷ os) h r =
    apply_uniques-RunsOnce os (record h { is_latest = true }) r
apply_uniques-RunsOnce (at_a_time ∷ os) h r =
    apply_uniques-RunsOnce os (record h { one_at_a_time = true }) r

AllRunOnce : Option Handler → Type 0
AllRunOnce none = Unit
AllRunOnce (some h) = RunsOnce h

apply_option-RunsOnce : (o : KindOption) (h : Handler) → RunsOnce h → AllRunOnce (apply_option o h)
unfolding apply_option AllRunOnce
apply_option-RunsOnce (attempts_option (pos zero)) h r = tt
apply_option-RunsOnce (attempts_option (pos (suc n))) h r =
    let some_time : 0 < h.timeout = r.1 in
    let b : ltb (suc n) 1 ≡ false = ground arith in rw b ((n, refl), some_time)
apply_option-RunsOnce (attempts_option (negsuc n)) h r = tt
apply_option-RunsOnce (timeout_option (pos n)) h r = elim (Bool-cases (n == 0)) [
  | inl b ↦ rw b tt
  | inr b ↦ rw b (r.0, ground arith)
]
apply_option-RunsOnce (timeout_option (negsuc n)) h r = tt
apply_option-RunsOnce (unique_option os) h r =
    apply_uniques-RunsOnce os (record h { is_unique = true }) r
apply_option-RunsOnce (backoff_option none) h r = tt
apply_option-RunsOnce (backoff_option (some f)) h r = r
apply_option-RunsOnce (at_once_option (pos n)) h r = elim (Bool-cases (ltb n 1)) [
  | inl b ↦ rw b tt
  | inr b ↦ rw b r
]
apply_option-RunsOnce (at_once_option (negsuc n)) h r = tt
apply_option-RunsOnce (rate_option true) h r = r
apply_option-RunsOnce (rate_option false) h r = tt

apply_options-RunsOnce :
    (os : List KindOption) (h : Handler) → RunsOnce h → AllRunOnce (apply_options os h)
unfolding apply_options AllRunOnce
apply_options-RunsOnce [] h r = r
apply_options-RunsOnce (o ∷ os) h r = elim (Option-cases (apply_option o h)) [
  | inl e ↦ rw (e, apply_options) tt
  | inr (h', e) ↦
      let r' : RunsOnce h' = rw e at (apply_option-RunsOnce o h r) in
      rw (e, apply_options) (apply_options-RunsOnce os h' r')
]

-- What a kind that was handled is: its handler runs its jobs once at least, and the Store keeps what each of
-- its options needs; it had no handler, and has this one.
pub record Handled (q : Kinds) (name : Bytes) (q' : Kinds) (k : Kind) : Type 0 where
  pub named : k.name ≡ name
  pub runs_once : RunsOnce k.handler
  pub keeps_unique : (not k.handler.is_unique || q.extras.unique_store) ≡ true
  pub keeps_latest : (not k.handler.is_latest || q.extras.latest_store) ≡ true
  pub keeps_one : (not k.handler.one_at_a_time || q.extras.one_at_a_time_store) ≡ true
  pub keeps_at_once : (k.handler.at_once == 0 || q.extras.at_once_store) ≡ true
  pub keeps_rate : (not k.handler.has_rate || q.extras.hold_back_store) ≡ true
  pub was_open : q.is_started ≡ false
  pub was_absent : lookup name q.handlers ≡ none
  pub is_there : lookup name q'.handlers ≡ some k.handler

has_unique :
    (h : Handler) (s : Extras) → has_needs h s ≡ true → (not h.is_unique || s.unique_store) ≡ true
unfolding has_needs
has_unique h s e = ground (arith, has_needs)

has_latest :
    (h : Handler) (s : Extras) → has_needs h s ≡ true → (not h.is_latest || s.latest_store) ≡ true
unfolding has_needs
has_latest h s e = ground (arith, has_needs)

has_one :
    (h : Handler) (s : Extras)
    → has_needs h s ≡ true
    → (not h.one_at_a_time || s.one_at_a_time_store) ≡ true
unfolding has_needs
has_one h s e = ground (arith, has_needs)

has_at_once :
    (h : Handler) (s : Extras) → has_needs h s ≡ true → (h.at_once == 0 || s.at_once_store) ≡ true
unfolding has_needs
has_at_once h s e = ground (arith, has_needs)

pub check-then :
    {A : Type 0} (Q : A → Type 0) (b : Bool) (p : Panic) (f : Unit {0} → Result Panic A)
    → (b ≡ true → Ensures Q (f tt))
    → Ensures Q (check b p >>= f)
unfolding check
check-then Q true p f k = k refl
check-then Q false p f k = tt

options_or_panic-then :
    {A : Type 0} (Q : A → Type 0) (o : Option Handler) (f : Handler → Result Panic A)
    → AllRunOnce o
    → ((h : Handler) → RunsOnce h → Ensures Q (f h))
    → Ensures Q (options_or_panic o >>= f)
unfolding options_or_panic AllRunOnce
options_or_panic-then Q none f r k = tt
options_or_panic-then Q (some h) f r k = k h r

is_absent-none : (o : Option Handler) → is_absent o ≡ true → o ≡ none
unfolding is_absent
is_absent-none none e = refl
is_absent-none (some h) e = cc

not-false : (b : Bool) → not b ≡ true → b ≡ false
not-false b e = ground arith

handle-Ensures :
    (random : ℕ) (q : Kinds) (name : Bytes) (f on_fail : Bool) (os : List KindOption)
    → Ensures (λ (r : Kinds × Kind). Handled q name r.0 r.1) (handle random q name f on_fail os)
unfolding handle
handle-Ensures random q name f on_fail os =
    let H : Kinds × Kind → Type 0 = λ r. Handled q name r.0 r.1 in
    check-then H _ _ _ λ named.
      options_or_panic-then H _ _
        (apply_options-RunsOnce os (default_handler random) ((9, refl), omega arith))
        λ h runs. check-then H _ _ _ λ needs. check-then H _ _ _ λ rate. check-then H _ _ _ λ fits.
          check-then H _ _ _ λ open_yet. check-then H _ _ _ λ absent.
            let made : Kind = record { name = name; handler = h; is_in = false } in
            let handled : Handled q name (record q { handlers = insert name h q.handlers }) made =
              record {
                named = refl;
                runs_once = runs;
                keeps_unique = has_unique h q.extras needs;
                keeps_latest = has_latest h q.extras needs;
                keeps_one = has_one h q.extras needs;
                keeps_at_once = has_at_once h q.extras needs;
                keeps_rate = rate;
                was_open = not-false _ open_yet;
                was_absent = is_absent-none _ absent;
                is_there = rw (lookup-insert name name h q.handlers, str_eq_refl name) refl;
              } in
            handled

-- Where Handle does not panic, the kind that it returns runs its jobs once at least, each for some time, and
-- the queue's Store is one for unique jobs, for the latest, for one at a time, for AtOnce or for holding back, where the kind is so; the queue had not started and had no handler of the
-- name, and has the kind's from then on.
pub handle-Handled :
    (random : ℕ) (q : Kinds) (name : Bytes) (f on_fail : Bool) (os : List KindOption) (q' : Kinds)
    (k : Kind)
    → handle random q name f on_fail os ≡ ok (q', k)
    → Handled q name q' k
handle-Handled random q name f on_fail os q' k e =
    Ensures-ok (λ (r : Kinds × Kind). Handled q name r.0 r.1) _ (q', k) e
      (handle-Ensures random q name f on_fail os)
