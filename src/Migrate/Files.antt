-- ===== src/Migrate/Files.antt =====
-- The reading of an app's migrations from their files (migrate/migrate.go): Load, and the two parts of a file.
-- `strings.TrimSpace` is an argument.
pub mod Loads
use tug.Common.{
  List, [], ◌∷◌, ◌++◌, Bool, true, false, not, ◌&&◌, ◌||◌, Option, none, some, ◌≡◌, refl, ap, ◌∙◌,
  sym, Bytes, str_eq, ℕ, ◌==◌, ltb, leb, cut, split, all_digits, any, map, if◌then◌else◌, Result,
  ok, err, ◌>>=◌, All, Bool-cases, or_false_split, inl, inr, length, is_digits, arith, Ensures,
  Option-cases, Result-cases, and_split,
}
use tug.Migrate.{Migration}

-- An entry of the directory, and what reading it makes.
pub record Entry (E : Type 0) : Type 0 where
  pub name : Bytes
  pub is_dir : Bool
  pub read : Result E Bytes

pub data LoadFailure (E : Type 0) : Type 0 where
  bad_name : (name : Bytes) → LoadFailure E
  not_read : E → LoadFailure E
  without_sql : (name : Bytes) → LoadFailure E

abbrev pub sql_suffix : Bytes
sql_suffix = b'.' ∷ b's' ∷ b'q' ∷ b'l' ∷ []

abbrev pub down_line : Bytes
down_line = b'-' ∷ b'-' ∷ b' ' ∷ b'd' ∷ b'o' ∷ b'w' ∷ b'n' ∷ []

-- `strings.CutSuffix`.
unfoldable pub cut_suffix : Bytes → (suffix : Bytes) → Option Bytes
cut_suffix [] suffix = if str_eq [] suffix then some [] else none
cut_suffix (x ∷ s) suffix =
    if str_eq (x ∷ s) suffix
    then some []
    else elim (cut_suffix s suffix) [ none ↦ none | some before ↦ some (x ∷ before) ]

-- What a migration does, in its name: the bytes that `strings.Trim` leaves nothing of.
unfoldable pub is_what : Bytes → Bool
is_what [] = true
is_what (c ∷ s) = (leb b'a' c && leb c b'z' || (leb b'0' c && leb c b'9' || c == b'_')) && is_what s

-- `migrationName`.
unfoldable pub migration_name : Bytes → Bool
migration_name name =
    let (made, what, found) = cut b'_' name in
    found && (length made == 14 && (all_digits made && (not (str_eq what []) && is_what what)))

-- `strings.ReplaceAll` of "\r\n" by "\n". The first argument is whether a "\r" is held back.
unfoldable pub unix_from : Bool → Bytes → Bytes
unix_from false [] = []
unix_from true [] = b'\r' ∷ []
unix_from false (c ∷ s) = if c == b'\r' then unix_from true s else c ∷ unix_from false s
unix_from true (c ∷ s) =
    let after : Bytes = unix_from false s in
    let held : Bytes = unix_from true s in
    if c == b'\n' then c ∷ after else if c == b'\r' then c ∷ held else b'\r' ∷ c ∷ after

abbrev pub unix : Bytes → Bytes
unix s = unix_from false s

-- `strings.Join` at a newline.
unfoldable pub join_lines : List Bytes → Bytes
join_lines [] = []
join_lines (line ∷ []) = line
join_lines (line ∷ next ∷ lines) = line ++ b'\n' ∷ join_lines (next ∷ lines)

-- `strings.Lines`: each with its newline.
unfoldable pub text_lines : Bytes → List Bytes
text_lines [] = []
text_lines (c ∷ s) =
    let rest = text_lines s in
    if c == b'\n'
    then (c ∷ []) ∷ rest
    else elim rest [ [] ↦ (c ∷ []) ∷ [] | line ∷ more ↦ (c ∷ line) ∷ more ]

unfoldable pub is_comment : Bytes → Bool
is_comment (x ∷ y ∷ s) = x == b'-' && y == b'-'
is_comment _ = false

module _ (trim : Bytes → Bytes) where
  -- A line of SQL.
  abbrev pub is_sql : (line : Bytes) → Bool
  is_sql line = not (str_eq (trim line) []) && not (is_comment (trim line))

  -- `hasSQL`.
  unfoldable pub has_sql : Bytes → Bool
  has_sql sql = any is_sql (text_lines sql)

  abbrev pub is_down : (line : Bytes) → Bool
  is_down line = str_eq (trim line) down_line

  -- The lines before the first down line, and those after it.
  unfoldable pub at_down : List Bytes → Option (List Bytes × List Bytes)
  at_down [] = none
  at_down (line ∷ lines) =
      let rest = at_down lines in
      if is_down line
      then some ([], lines)
      else elim rest [ none ↦ none | some (before, after) ↦ some (line ∷ before, after) ]

  unfoldable pub down_part : Bytes → Bytes
  down_part down = if has_sql down then down else []

  -- `split`: the SQL that makes the change, and the SQL that undoes it.
  unfoldable pub split_file : Bytes → Bytes × Bytes
  split_file file = elim (at_down (split b'\n' (unix file))) [
    | some (before, after) ↦ (trim (join_lines before), trim (down_part (join_lines after)))
    | none ↦ (trim file, [])
  ]

  module _ {E : Type 0} where
    -- A file with the suffix, in the loop of `Load`.
    unfoldable pub load_file : (name : Bytes) → Result E Bytes → Result (LoadFailure E) Migration
    load_file name read = if not (migration_name name) then err (bad_name name) else elim read [
      | err e ↦ err (not_read e)
      | ok file ↦
          let (up, down) = split_file file in
          if not (has_sql up)
          then err (without_sql name)
          else ok (record { name = name; up = up; down = down })
    ]

    -- `Load`, of what `fs.ReadDir` returns, in the order of the names.
    unfoldable pub load : List (Entry E) → Result (LoadFailure E) (List Migration)
    load [] = ok []
    load (e ∷ es) = elim (cut_suffix e.name sql_suffix) [
      | none ↦ load es
      | some name ↦
          if e.is_dir then load es else load_file name e.read >>= λ m. load es >>= λ ms. ok (m ∷ ms)
    ]
