-- ===== src/Migrate.antt =====
-- The running of an app's migrations (migrate/migrate.go), by a Store of the app's, which is the record Store:
-- its database is a state, and its promises are the record Keeps. SHA-256 in hex is an argument. The lock is
-- let go of as each function returns, which the Store does not hear of otherwise.
pub mod Downs
pub mod Files
pub mod Again
pub mod Ups
mod Tests
use tug.Common.{
  List, [], ◌∷◌, ◌++◌, Bool, true, false, not, ◌&&◌, ◌||◌, Option, none, some, ◌≡◌, Bytes, str_eq,
  str_leb, lookup, insert, erase, any, if◌then◌else◌, Result, ok, err, ℕ,
}

pub record Migration : Type 0 where
  pub name : Bytes
  pub up : Bytes
  pub down : Bytes

pub record Ran : Type 0 where
  pub name : Bytes
  pub hash : Bytes
  pub at : ℕ

-- A Store of the app's. `ran` is what Ran returns of the rows of the database.
pub record Store (S E : Type 0) : Type 0 where
  pub lock : S → Result E S
  pub rows : S → List Ran
  pub ran_fails : S → Option E
  pub run : S → Migration → S × Option E
  pub undo : S → Migration → S × Option E

pub data Failure (E : Type 0) : Type 0 where
  store_failed : E → Failure E
  is_changed : (name : Bytes) → Failure E
  migration_failed : (name : Bytes) → E → Failure E
  none_ran : Failure E
  no_file : (name : Bytes) → Failure E
  no_down : (name : Bytes) → Failure E

-- The loop of `ranByName`: of two rows with a name, the later.
unfoldable pub rows_by_name : List (Bytes × Ran) → List Ran → List (Bytes × Ran)
rows_by_name m [] = m
rows_by_name m (r ∷ rs) = rows_by_name (insert r.name r m) rs

abbrev pub by_name : List Ran → List (Bytes × Ran)
by_name rs = rows_by_name [] rs

-- A state of `Status`. A time is none for the zero time.
pub record State : Type 0 where
  pub name : Bytes
  pub ran : Bool
  pub at : Option ℕ
  pub changed : Bool
  pub no_file : Bool

unfoldable pub has_run : List (Bytes × Ran) → Migration → Bool
has_run ran m = elim (lookup m.name ran) [ none ↦ false | some r ↦ true ]

module _ (sha : Bytes → Bytes) where
  -- `Hash`.
  abbrev pub hash : Migration → Bytes
  hash m = sha m.up

  -- Whether a migration ran, and has changed since.
  unfoldable pub has_changed : List (Bytes × Ran) → Migration → Bool
  has_changed ran m = elim (lookup m.name ran) [
    | none ↦ false
    | some r ↦ not (str_eq r.hash (hash m))
  ]

  unfoldable pub first_changed : List (Bytes × Ran) → List Migration → Option Migration
  first_changed ran [] = none
  first_changed ran (m ∷ ms) = if has_changed ran m then some m else first_changed ran ms

  module _ {S E : Type 0} (st : Store S E) where
    -- Ran, of a database.
    unfoldable pub read_rows : S → Result E (List Ran)
    read_rows s = elim (st.ran_fails s) [ some e ↦ err e | none ↦ ok (st.rows s) ]

    -- The second loop of `Up`, and the names that it ran.
    unfoldable pub run_all :
        S → List (Bytes × Ran) → List Migration → S × List Bytes × Option (Failure E)
    run_all s ran [] = (s, [], none)
    run_all s ran (m ∷ ms) =
        let (s₁, e) = st.run s m in
        let skipped : S × List Bytes × Option (Failure E) = run_all s ran ms in
        let (s₂, names, failure) = run_all s₁ ran ms in
        if has_run ran m then skipped else elim e [
          | some e ↦ (s₁, [], some (migration_failed m.name e))
          | none ↦ (s₂, m.name ∷ names, failure)
        ]

    -- `Up`, once the Store is locked.
    unfoldable pub up_locked : S → List Migration → S × List Bytes × Option (Failure E)
    up_locked s ms = elim (read_rows s) [
      | err e ↦ (s, [], some (store_failed e))
      | ok rs ↦ elim (first_changed (by_name rs) ms) [
        | some m ↦ (s, [], some (is_changed m.name))
        | none ↦ run_all s (by_name rs) ms
      ]
    ]

    -- `Up`.
    unfoldable pub up : S → List Migration → S × List Bytes × Option (Failure E)
    up s ms = elim (st.lock s) [ err e ↦ (s, [], some (store_failed e)) | ok s₁ ↦ up_locked s₁ ms ]

    -- `slices.MaxFunc`: the first of the rows whose name comes last.
    unfoldable pub last_row : Ran → List Ran → Ran
    last_row r [] = r
    last_row r (r' ∷ rs) = last_row (if str_leb r'.name r.name then r else r') rs

    unfoldable pub file_of : (name : Bytes) → List Migration → Option Migration
    file_of name [] = none
    file_of name (m ∷ ms) = if str_eq m.name name then some m else file_of name ms

    unfoldable pub undo_file : S → Migration → S × Result (Failure E) Bytes
    undo_file s m =
        let (s₁, e) = st.undo s m in
        elim e [ some e ↦ (s₁, err (migration_failed m.name e)) | none ↦ (s₁, ok m.name) ]

    unfoldable pub undo_last : S → List Migration → List Ran → S × Result (Failure E) Bytes
    undo_last s ms [] = (s, err none_ran)
    undo_last s ms (r ∷ rs) =
        let last : Ran = last_row r rs in
        elim (file_of last.name ms) [
          | none ↦ (s, err (no_file last.name))
          | some m ↦
              if not (str_eq (hash m) last.hash)
              then (s, err (is_changed m.name))
              else if str_eq m.down []
              then (s, err (no_down last.name))
              else undo_file s m
        ]

    -- `Down`, once the Store is locked.
    unfoldable pub down_locked : S → List Migration → S × Result (Failure E) Bytes
    down_locked s ms = elim (read_rows s) [
      | err e ↦ (s, err (store_failed e))
      | ok rs ↦ undo_last s ms rs
    ]

    -- `Down`.
    unfoldable pub down : S → List Migration → S × Result (Failure E) Bytes
    down s ms = elim (st.lock s) [ err e ↦ (s, err (store_failed e)) | ok s₁ ↦ down_locked s₁ ms ]

    -- The loops of `Status`, and its order; states have a name each.
    unfoldable pub state_of : List (Bytes × Ran) → Migration → State
    state_of ran m = record {
      name = m.name;
      ran = has_run ran m;
      at = elim (lookup m.name ran) [ none ↦ none | some r ↦ some r.at ];
      changed = has_changed ran m;
      no_file = false;
    }

    unfoldable pub states : List (Bytes × Ran) → List Migration → List State
    states ran [] = []
    states ran (m ∷ ms) = state_of ran m ∷ states (erase m.name ran) ms

    unfoldable pub left_over : List (Bytes × Ran) → List Migration → List (Bytes × Ran)
    left_over ran [] = ran
    left_over ran (m ∷ ms) = left_over (erase m.name ran) ms

    unfoldable pub without_file : List (Bytes × Ran) → List State
    without_file [] = []
    without_file ((k, r) ∷ ran) =
        record { name = r.name; ran = true; at = some r.at; changed = false; no_file = true }
        ∷ without_file ran

    unfoldable pub place : State → List State → List State
    place x [] = x ∷ []
    place x (y ∷ sorted) = if str_leb x.name y.name then x ∷ y ∷ sorted else y ∷ place x sorted

    unfoldable pub sort_states : List State → List State
    sort_states [] = []
    sort_states (x ∷ xs) = place x (sort_states xs)

    -- `Status`.
    unfoldable pub status : S → List Migration → Result E (List State)
    status s ms = elim (st.lock s) [
      | err e ↦ err e
      | ok s₁ ↦ elim (read_rows s₁) [
        | err e ↦ err e
        | ok rs ↦
            ok (sort_states (states (by_name rs) ms ++ without_file (left_over (by_name rs) ms)))
      ]
    ]
