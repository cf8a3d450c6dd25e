-- ===== src/Queue/Handler.antt =====
-- How one kind of job runs, and the options that say so (queue/kind.go). What OnFail runs is not modelled.
use tug.Common.{
  ℕ, ◌+◌, ◌*◌, min, List, [], ◌∷◌, Bool, true, false, not, ◌&&◌, ◌||◌, Option, none, some, ltb,
  ◌==◌, if◌then◌else◌,
}
use tug.Common.Int.{ℤ, pos, negsuc}

abbrev pub second : ℕ
second = 1000000000

abbrev pub default_attempts : ℤ
default_attempts = pos 10

abbrev pub default_timeout : ℕ
default_timeout = 60 * second

abbrev pub hold_margin : ℕ
hold_margin = 60 * second

abbrev pub held_on_error : ℕ
held_on_error = 10 * second

-- `backoff`, of an attempt that is not negative, as a claimed job's is not; `random` is what rand.N
-- gives, which is at most a tenth.
unfoldable pub backoff : (random : ℕ) → ℕ → ℕ
backoff random attempt =
    let a : ℕ = if ltb 19 attempt then 19 else attempt in
    min (a * a * a * a * second + random) (24 * 3600 * second)

-- What a handler's kind says of its jobs. It has a rate if a Limiter is set.
pub record Handler : Type 0 where
  pub attempts : ℤ
  pub timeout : ℕ
  pub wait_after : ℤ → ℕ
  pub is_unique : Bool
  pub is_latest : Bool
  pub one_at_a_time : Bool
  pub at_once : ℕ
  pub has_rate : Bool

-- The handler that `Handle` starts from, and that `run` takes for a kind without one; a claimed job's attempts
-- are never negative.
abbrev pub default_handler : ℕ → Handler
default_handler random = record {
  attempts = default_attempts;
  timeout = default_timeout;
  wait_after = λ a. elim a [ pos n ↦ backoff random n | negsuc n ↦ backoff random 0 ];
  is_unique = false;
  is_latest = false;
  one_at_a_time = false;
  at_once = 0;
  has_rate = false;
}

pub data UniqueOption : Type 0 where
  latest : UniqueOption
  at_a_time : UniqueOption

-- An option as it is given, where a function or a Limiter that is nil is none or false.
pub data KindOption : Type 0 where
  attempts_option : ℤ → KindOption
  timeout_option : ℤ → KindOption
  unique_option : List UniqueOption → KindOption
  backoff_option : Option (ℤ → ℕ) → KindOption
  at_once_option : ℤ → KindOption
  rate_option : Bool → KindOption

unfoldable pub apply_unique : UniqueOption → Handler → Handler
apply_unique latest h = record h { is_latest = true }
apply_unique at_a_time h = record h { one_at_a_time = true }

unfoldable pub apply_uniques : List UniqueOption → Handler → Handler
apply_uniques [] h = h
apply_uniques (o ∷ rest) h = apply_uniques rest (apply_unique o h)

-- What an option makes of a handler, and nothing where it panics.
unfoldable pub apply_option : KindOption → Handler → Option Handler
apply_option (attempts_option (negsuc n)) h = none
apply_option (attempts_option (pos n)) h =
    if ltb n 1 then none else some (record h { attempts = pos n })
apply_option (timeout_option (negsuc n)) h = none
apply_option (timeout_option (pos n)) h = if n == 0 then none else some (record h { timeout = n })
apply_option (unique_option options) h =
    some (apply_uniques options (record h { is_unique = true }))
apply_option (backoff_option none) h = none
apply_option (backoff_option (some wait)) h = some (record h { wait_after = wait })
apply_option (at_once_option (negsuc n)) h = none
apply_option (at_once_option (pos n)) h = if ltb n 1 then none else some (record h { at_once = n })
apply_option (rate_option given) h = if given then some (record h { has_rate = true }) else none

unfoldable pub apply_options : List KindOption → Handler → Option Handler
apply_options [] h = some h
apply_options (o ∷ rest) h = elim (apply_option o h) [
  | none ↦ none
  | some h' ↦ apply_options rest h'
]

-- Which of the extras of a Store a Store is.
pub record Extras : Type 0 where
  pub unique_store : Bool
  pub latest_store : Bool
  pub one_at_a_time_store : Bool
  pub at_once_store : Bool
  pub hold_back_store : Bool
  pub schedule_store : Bool
  pub carry_store : Bool

-- Whether `needs` returns, rather than panics.
unfoldable pub has_needs : Handler → Extras → Bool
has_needs h s =
    (not h.is_unique || s.unique_store)
    && (not h.is_latest || s.latest_store)
    && (not h.one_at_a_time || s.one_at_a_time_store)
    && (not (ltb 0 h.at_once) || s.at_once_store)
