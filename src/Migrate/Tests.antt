-- ===== src/Migrate/Tests.antt =====
-- A database with room for one migration, and what Up, Down and Load make of it (migrate/migrate.go).
use tug.Common.{
  List, [], ◌∷◌, true, false, Option, none, some, ◌≡◌, refl, Bytes, str_eq, str_eq_iff, lookup,
  insert, if◌then◌else◌, ok, err, Bool-cases, inl, inr, ◌++◌, ◌||◌, ◌==◌,
}
use tug.Migrate.{
  Migration, Ran, Store, migration_failed, rows_by_name, has_run, first_changed, run_all, up_locked,
  up, undo_file, undo_last, down_locked, down, read_rows, last_row, file_of, has_changed,
}
use tug.Migrate.Ups.{recorded, with_record, Keeps, Recorded, up-Recorded}
use tug.Migrate.Again.{up-again}
use tug.Migrate.Downs.{Undone, down-Undone}
use tug.Migrate.Files.{Entry, sql_suffix}

abbrev sha : Bytes → Bytes
sha s = s

unfoldable room_run : Option Ran → Migration → Option Ran × Option Bytes
room_run none m = (some (record { name = m.name; hash = m.up; at = 7 }), none)
room_run (some r) m =
    if str_eq r.name m.name then (some r, none) else (some r, some (102 ∷ 117 ∷ 108 ∷ 108 ∷ []))

unfoldable room_undo : Option Ran → Migration → Option Ran × Option Bytes
room_undo none m = (none, some (110 ∷ 111 ∷ 116 ∷ 104 ∷ 105 ∷ 110 ∷ 103 ∷ []))
room_undo (some r) m =
    if str_eq r.name m.name
    then (none, none)
    else (some r, some (97 ∷ 110 ∷ 111 ∷ 116 ∷ 104 ∷ 101 ∷ 114 ∷ []))

unfoldable room_rows : Option Ran → List Ran
room_rows none = []
room_rows (some r) = r ∷ []

abbrev room : Store (Option Ran) Bytes
room = record {
  lock = λ s. ok s;
  rows = room_rows;
  ran_fails = λ s. none;
  run = room_run;
  undo = room_undo;
}

room_run-keeps :
    (s : Option Ran) (m : Migration) (name : Bytes)
    → (room_run s m).1 ≡ none
    → recorded sha room (room_run s m).0 name ≡ with_record sha room s m name
unfolding room_run room_rows recorded with_record rows_by_name lookup insert
room_run-keeps none m name e = elim (Bool-cases (str_eq m.name name)) [
  | inl a ↦ rw (with_record, recorded, a) refl
  | inr a ↦ rw (with_record, recorded, a) refl
]
room_run-keeps (some r) m name e = elim (Bool-cases (str_eq r.name m.name)) [
  | inr b ↦ let full : some (102 ∷ 117 ∷ 108 ∷ 108 ∷ []) ≡ none = rw (room_run, b) at e in cc
  | inl b ↦
      let same : r.name ≡ m.name = (str_eq_iff r.name m.name).0 b in
      elim (Bool-cases (str_eq m.name name)) [
        | inl a ↦
            let there : str_eq r.name name ≡ true = rw (same, a) refl in
            rw (b, with_record, a, recorded, there) refl
        | inr a ↦ rw (b, with_record, a) refl
      ]
]

room_run-fails :
    (s : Option Ran) (m : Migration) (e : Bytes) (name : Bytes)
    → (room_run s m).1 ≡ some e
    → recorded sha room (room_run s m).0 name ≡ recorded sha room s name
unfolding room_run
room_run-fails none m e name f = let x : none ≡ some e = f in cc
room_run-fails (some r) m e name f = elim (Bool-cases (str_eq r.name m.name)) [
  | inl b ↦ rw b refl
  | inr b ↦ rw b refl
]

room_undo-forgets :
    (s : Option Ran) (m : Migration) (name : Bytes)
    → (room_undo s m).1 ≡ none
    → recorded sha room (room_undo s m).0 name
      ≡ (if str_eq m.name name then none else recorded sha room s name)
unfolding room_undo room_rows recorded rows_by_name lookup insert
room_undo-forgets none m name e =
    let x : some (110 ∷ 111 ∷ 116 ∷ 104 ∷ 105 ∷ 110 ∷ 103 ∷ []) ≡ none = e in cc
room_undo-forgets (some r) m name e = elim (Bool-cases (str_eq r.name m.name)) [
  | inr b ↦
      let other : some (97 ∷ 110 ∷ 111 ∷ 116 ∷ 104 ∷ 101 ∷ 114 ∷ []) ≡ none =
        rw (room_undo, b) at e in
      cc
  | inl b ↦
      let same : r.name ≡ m.name = (str_eq_iff r.name m.name).0 b in
      elim (Bool-cases (str_eq m.name name)) [
        | inl a ↦ rw (b, a) refl
        | inr a ↦
            let there : str_eq r.name name ≡ false = rw (same, a) refl in
            rw (b, a, recorded, there) refl
      ]
]

room-Keeps : Keeps sha room
room-Keeps = record {
  runs = room_run-keeps;
  fails = room_run-fails;
  undoes = room_undo-forgets;
  locks = λ s s' name l. let x : s ≡ s' = cc in rw x refl;
}

abbrev posts : Migration
posts = record { name = 49 ∷ []; up = 65 ∷ []; down = 66 ∷ [] }

abbrev users : Migration
users = record { name = 50 ∷ []; up = 67 ∷ []; down = [] }

up-Recorded_example :
    Recorded sha room none [] (posts ∷ users ∷ []) (up sha room none (posts ∷ users ∷ []))
unfolding first_changed has_changed lookup rows_by_name room_rows str_eq
up-Recorded_example =
    up-Recorded sha room room-Keeps none none (posts ∷ users ∷ []) (refl, (refl, tt)) refl refl refl

-- There is no room for the second.
up_test : up sha room none (posts ∷ users ∷ []) ≡ (
  some (record { name = 49 ∷ []; hash = 65 ∷ []; at = 7 }),
  (49 ∷ []) ∷ [],
  some (migration_failed (50 ∷ []) (102 ∷ 117 ∷ 108 ∷ 108 ∷ [])),
)
unfolding up up_locked read_rows run_all first_changed has_changed has_run room_run str_eq lookup
    rows_by_name room_rows
up_test = refl

abbrev with_posts : Option Ran
with_posts = some (record { name = 49 ∷ []; hash = 65 ∷ []; at = 7 })

up-again_example : up sha room with_posts (posts ∷ []) ≡ (with_posts, [], none)
unfolding up up_locked read_rows run_all first_changed has_changed has_run room_run str_eq lookup
    rows_by_name room_rows insert
up-again_example =
    up-again sha room room-Keeps none with_posts (posts ∷ []) (refl, tt) refl refl refl

down-Undone_example : Undone sha room (posts ∷ []) with_posts (49 ∷ []) none
unfolding down down_locked read_rows undo_last undo_file room_undo str_eq room_rows last_row file_of
down-Undone_example =
    down-Undone sha room room-Keeps with_posts with_posts (posts ∷ []) (49 ∷ []) refl refl

-- The bytes of a text without its spaces and newlines.
unfoldable trim : Bytes → Bytes
trim [] = []
trim (c ∷ s) = if c == 10 || c == 13 then trim s else c ∷ trim s

abbrev down_line : Bytes
down_line = 45 ∷ 45 ∷ 32 ∷ 100 ∷ 111 ∷ 119 ∷ 110 ∷ []

-- "A;", a down line and "B;".
abbrev posts_file : Bytes
posts_file = 65 ∷ 59 ∷ 10 ∷ down_line ++ 10 ∷ 66 ∷ 59 ∷ []

-- A .gitkeep, a directory, and 20261001093000_a.sql.
abbrev posts_name : Bytes
posts_name = 50 ∷ 48 ∷ 50 ∷ 54 ∷ 49 ∷ 48 ∷ 48 ∷ 49 ∷ 48 ∷ 57 ∷ 51 ∷ 48 ∷ 48 ∷ 48 ∷ 95 ∷ 97 ∷ []

abbrev entries : List (Entry Bytes)
entries =
    record { name = 46 ∷ 103 ∷ []; is_dir = false; read = err [] }
    ∷ record { name = 97 ∷ sql_suffix; is_dir = true; read = err [] }
    ∷ record { name = posts_name ++ sql_suffix; is_dir = false; read = ok posts_file }
    ∷ []
