-- ===== src/Queue/Job.antt =====
-- A job as a Store keeps it (queue/store.go). Times are nanoseconds since Go's zero time, which is 0;
-- strings and byte slices are lists of bytes, and what a job carried is a map as a list of entries.
use tug.Common.{ℕ, List, Bool, Bytes}
use tug.Common.Int.{ℤ}

pub record Job : Type 0 where
  pub id : Bytes
  pub kind : Bytes
  pub payload : Bytes
  pub key : Bytes
  pub run_at : ℕ
  pub attempts : ℤ
  pub error : Bytes
  pub one_at_a_time : Bool
  pub at_once : ℕ
  pub failed_at : ℕ
  pub carried : List (Bytes × Bytes)
