-- ===== src/Migrate/Files/Loads.antt =====
-- What Load makes of an app's files, and of those that were checked out on Windows (migrate/migrate.go).
use tug.Common.{
  List, [], ◌∷◌, Bool, true, false, ◌&&◌, none, some, ◌≡◌, refl, ap, ◌∙◌, sym, subst, Bytes, ◌==◌,
  split, any, map, if◌then◌else◌, Result, ok, err, ◌>>=◌, All, Bool-cases, or_false_split, inl, inr,
  Ensures, Ensures-bind, Option-cases,
}
use tug.Migrate.{Migration}
use tug.Migrate.Files.{
  Entry, LoadFailure, sql_suffix, cut_suffix, migration_name, unix_from, unix, has_sql, at_down,
  split_file, load_file, load, join_lines, down_part,
}

-- A file as it is on Windows.
unfoldable pub windows : Bytes → Bytes
windows [] = []
windows (c ∷ s) = if c == b'\n' then b'\r' ∷ c ∷ windows s else c ∷ windows s

abbrev pub has_return : Bytes → Bool
has_return s = any (λ c. c == b'\r') s

unix-windows : (s : Bytes) → has_return s ≡ false → unix (windows s) ≡ s
unfolding windows unix_from
unix-windows [] h = refl
unix-windows (c ∷ s) h =
    let (other, rest) = or_false_split (c == b'\r') _ h in
    elim (Bool-cases (c == b'\n')) [
      | inl e ↦ rw (e, unix_from, e) (ap (λ t. c ∷ t) (unix-windows s rest))
      | inr e ↦ rw (e, other) (ap (λ t. c ∷ t) (unix-windows s rest))
    ]

unix-same : (s : Bytes) → has_return s ≡ false → unix s ≡ s
unfolding unix_from
unix-same [] h = refl
unix-same (c ∷ s) h =
    let (other, rest) = or_false_split (c == b'\r') _ h in
    rw other (ap (λ t. c ∷ t) (unix-same s rest))

module _ (trim : Bytes → Bytes) where
  split_file-parts :
      (file : Bytes) (before after : List Bytes)
      → at_down trim (split b'\n' (unix file)) ≡ some (before, after)
      → split_file trim file ≡ (trim (join_lines before), trim (down_part trim (join_lines after)))
  unfolding split_file
  split_file-parts file before after e = rw (split_file, e) refl

  -- A file that has a down line, and no carriage return, has the same two parts where it was checked out on Windows.
  pub split_file-windows :
      (file : Bytes) (before after : List Bytes)
      → has_return file ≡ false
      → at_down trim (split b'\n' file) ≡ some (before, after)
      → split_file trim (windows file) ≡ split_file trim file
  split_file-windows file before after h e =
      let downs : (s : Bytes) → s ≡ file → at_down trim (split b'\n' s) ≡ some (before, after) =
        λ s w. ap (λ t. at_down trim (split b'\n' t)) w ∙ e in
      split_file-parts (windows file) before after (downs _ (unix-windows file h))
      ∙ sym (split_file-parts file before after (downs _ (unix-same file h)))

  -- The names of the migrations among the entries.
  unfoldable pub sql_names : {E : Type 0} → List (Entry E) → List Bytes
  sql_names [] = []
  sql_names (e ∷ es) = elim (cut_suffix e.name sql_suffix) [
    | none ↦ sql_names es
    | some name ↦ if e.is_dir then sql_names es else name ∷ sql_names es
  ]

  -- As a migration's files are.
  unfoldable pub is_good : Migration → Bool
  is_good m = migration_name m.name && has_sql trim m.up

  abbrev pub Loaded : List Bytes → List Migration → Type 0
  Loaded names ms = (map (λ (m : Migration). m.name) ms ≡ names) × (All (λ m. is_good m ≡ true) ms)

  module _ {E : Type 0} where
    load_file-is_good :
        (name : Bytes) (read : Result E Bytes)
        → Ensures (λ m. (m.name ≡ name) × (is_good m ≡ true)) (load_file trim name read)
    unfolding load_file is_good
    load_file-is_good name (err e) = elim (Bool-cases (migration_name name)) [
      | inl a ↦ rw a tt
      | inr a ↦ rw a tt
    ]
    load_file-is_good name (ok file) = elim (Bool-cases (migration_name name)) [
      | inr a ↦ rw a tt
      | inl a ↦ elim (Bool-cases (has_sql trim (split_file trim file).0)) [
        | inr b ↦ rw (a, b) tt
        | inl b ↦ rw (a, b) (refl, rw (a, b) refl)
      ]
    ]

    Loaded-same :
        (names names' : List Bytes) (r r' : Result (LoadFailure E) (List Migration))
        → names ≡ names'
        → r ≡ r'
        → Ensures (λ ms. Loaded names' ms) r'
        → Ensures (λ ms. Loaded names ms) r
    Loaded-same names names' r r' n e l =
        subst (λ x. Ensures (λ ms. Loaded x ms) r) (sym n)
          (subst (λ x. Ensures (λ ms. Loaded names' ms) x) (sym e) l)

    -- Where Load returns migrations, they are one of each .sql file of the directory, in the order of the
    -- files, each named as a migration is and with SQL before its down line.
    pub load-Loaded :
        (es : List (Entry E)) → Ensures (λ ms. Loaded (sql_names es) ms) (load trim es)
    unfolding load sql_names
    load-Loaded [] = (refl, tt)
    load-Loaded (e ∷ es) = elim (Option-cases (cut_suffix e.name sql_suffix)) [
      | inl n ↦ Loaded-same _ _ _ _ (rw (sql_names, n) refl) (rw (load, n) refl) (load-Loaded es)
      | inr (name, n) ↦ elim (Bool-cases e.is_dir) [
        | inl d ↦
            Loaded-same _ _ _ _ (rw (sql_names, n, d) refl) (rw (load, n, d) refl) (load-Loaded es)
        | inr d ↦
            Loaded-same _ (name ∷ sql_names es) _
              (load_file trim name e.read >>= λ m. load trim es >>= λ ms. ok (m ∷ ms))
              (rw (sql_names, n, d) refl) (rw (load, n, d) refl)
              (Ensures-bind (λ m. (m.name ≡ name) × (is_good m ≡ true))
                (λ ms. Loaded (name ∷ sql_names es) ms) (load_file trim name e.read) _
                (load_file-is_good name e.read)
                λ m (same, good).
                  Ensures-bind (λ ms. Loaded (sql_names es) ms)
                    (λ ms. Loaded (name ∷ sql_names es) ms) (load trim es) _ (load-Loaded es)
                    λ ms (names, goods). (rw (same, names) refl, (good, goods)))
      ]
    ]
