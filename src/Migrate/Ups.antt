-- ===== src/Migrate/Ups.antt =====
-- What Up does to a database, for a Store that keeps its promises (migrate/migrate.go).
use tug.Common.{
  List, [], ◌∷◌, Bool, true, false, Option, none, some, ◌≡◌, ◌≢◌, refl, sym, ◌∙◌, subst, Bytes,
  str_eq, str_eq_refl, str_eq_iff, lookup, any, str_eq-false, or_false_split, if◌then◌else◌, ok,
  All, Bool-cases, Option-cases, inl, inr,
}
use tug.Migrate.{
  Migration, Ran, Store, Failure, by_name, hash, first_changed, has_run, read_rows, run_all,
  up_locked, up,
}

module _ (sha : Bytes → Bytes) {S E : Type 0} (st : Store S E) where
  -- The hash that a database has of a migration.
  unfoldable pub recorded : S → (name : Bytes) → Option Bytes
  recorded s name = elim (lookup name (by_name (st.rows s))) [ none ↦ none | some r ↦ some r.hash ]

  -- What recording a migration makes of those, unless it has run already.
  unfoldable pub with_record : S → Migration → (name : Bytes) → Option Bytes
  with_record s m name =
      if str_eq m.name name
      then elim (recorded s name) [ none ↦ some (hash sha m) | some h ↦ some h ]
      else recorded s name

  -- What a Store promises of Run and Undo: both the change and its record, or neither; and of Lock, while
  -- no other instance runs.
  pub record Keeps : Type 0 where
    pub runs :
        (s : S) (m : Migration) (name : Bytes)
        → (st.run s m).1 ≡ none
        → recorded (st.run s m).0 name ≡ with_record s m name
    pub fails :
        (s : S) (m : Migration) (e : E) (name : Bytes)
        → (st.run s m).1 ≡ some e
        → recorded (st.run s m).0 name ≡ recorded s name
    pub undoes :
        (s : S) (m : Migration) (name : Bytes)
        → (st.undo s m).1 ≡ none
        → recorded (st.undo s m).0 name ≡ (if str_eq m.name name then none else recorded s name)
    pub locks : (s s' : S) (name : Bytes) → st.lock s ≡ ok s' → recorded s' name ≡ recorded s name

  -- The names of the migrations that have not run.
  unfoldable pub to_run : List (Bytes × Ran) → List Migration → List Bytes
  to_run ran [] = []
  to_run ran (m ∷ ms) = if has_run ran m then to_run ran ms else m.name ∷ to_run ran ms

  -- The hash of the migration with a name, of those to run.
  unfoldable pub hash_to_run : List (Bytes × Ran) → List Migration → (name : Bytes) → Option Bytes
  hash_to_run ran [] name = none
  hash_to_run ran (m ∷ ms) name =
      if has_run ran m
      then hash_to_run ran ms name
      else if str_eq m.name name
      then some (hash sha m)
      else hash_to_run ran ms name

  -- The names ran are the first of those to run, and all of them where nothing failed.
  abbrev pub RanFirst : List Bytes → List Bytes → Option (Failure E) → Type 0
  RanFirst [] [] e = e ≡ none
  RanFirst [] (n ∷ names) e = e ≢ none
  RanFirst (d ∷ done) [] e = d ≢ d
  RanFirst (d ∷ done) (n ∷ names) e = (d ≡ n) × RanFirst done names e

  abbrev pub among : List Bytes → (name : Bytes) → Bool
  among names name = any (λ n. str_eq n name) names

  -- Each name stands once.
  abbrev pub NamedOnce : List Migration → Type 0
  NamedOnce [] = Unit
  NamedOnce (m ∷ ms) = (any (λ (m' : Migration). str_eq m'.name m.name) ms ≡ false) × NamedOnce ms

  absent-to_run :
      (ran : List (Bytes × Ran)) (ms : List Migration) (name : Bytes)
      → any (λ (m : Migration). str_eq m.name name) ms ≡ false
      → among (to_run ran ms) name ≡ false
  unfolding to_run
  absent-to_run ran [] name e = refl
  absent-to_run ran (m ∷ ms) name e =
      let (other, rest) = or_false_split (str_eq m.name name) _ e in
      elim (Bool-cases (has_run ran m)) [
        | inl a ↦ rw a (absent-to_run ran ms name rest)
        | inr a ↦ rw (a, other) (absent-to_run ran ms name rest)
      ]

  absent-RanFirst :
      (done names : List Bytes) (e : Option (Failure E)) (name : Bytes)
      → RanFirst done names e
      → among names name ≡ false
      → among done name ≡ false
  absent-RanFirst [] names e name r a = refl
  absent-RanFirst (d ∷ done) [] e name r a = absurd (r refl)
  absent-RanFirst (d ∷ done) (n ∷ names) e name (same, r) a =
      let (other, rest) = or_false_split (str_eq n name) _ a in
      rw (same, other) (absent-RanFirst done names e name r rest)

  -- A database that has no record of the migrations that ran does not have.
  abbrev pub Unrun : S → List (Bytes × Ran) → List Migration → Type 0
  Unrun s ran ms = All (λ (m : Migration). has_run ran m ≡ false → recorded s m.name ≡ none) ms

  pub run-recorded :
      (k : Keeps) (s : S) (m : Migration)
      → (st.run s m).1 ≡ none
      → recorded s m.name ≡ none
      → recorded (st.run s m).0 m.name ≡ some (hash sha m)
  unfolding with_record
  run-recorded k s m e n = k.runs s m m.name e ∙ rw (str_eq_refl m.name, n) refl

  -- A record stays as it is.
  pub run-keeps :
      (k : Keeps) (s : S) (m : Migration) (name h : Bytes)
      → recorded s name ≡ some h
      → recorded (st.run s m).0 name ≡ some h
  unfolding with_record
  run-keeps k s m name h e = elim (Option-cases (st.run s m).1) [
    | inr (x, f) ↦ k.fails s m x name f ∙ e
    | inl f ↦
        k.runs s m name f
        ∙ elim (Bool-cases (str_eq m.name name)) [ inl b ↦ rw (b, e) refl | inr b ↦ rw (b, e) refl ]
  ]

  pub run_all-keeps :
      (k : Keeps) (ms : List Migration) (ran : List (Bytes × Ran)) (s : S) (name h : Bytes)
      → recorded s name ≡ some h
      → recorded (run_all sha st s ran ms).0 name ≡ some h
  unfolding run_all
  run_all-keeps k [] ran s name h e = e
  run_all-keeps k (m ∷ ms) ran s name h e = elim (Bool-cases (has_run ran m)) [
    | inl a ↦ rw a (run_all-keeps k ms ran s name h e)
    | inr a ↦ elim (Option-cases (st.run s m).1) [
      | inr (x, f) ↦ rw (a, f) (run-keeps k s m name h e)
      | inl f ↦ rw (a, f) (run_all-keeps k ms ran (st.run s m).0 name h (run-keeps k s m name h e))
    ]
  ]

  pub Unrun-run :
      (k : Keeps) (s : S) (ran : List (Bytes × Ran)) (m : Migration) (ms : List Migration)
      → (st.run s m).1 ≡ none
      → any (λ (m' : Migration). str_eq m'.name m.name) ms ≡ false
      → Unrun s ran ms
      → Unrun (st.run s m).0 ran ms
  unfolding with_record
  Unrun-run k s ran m [] e a u = tt
  Unrun-run k s ran m (m' ∷ ms) e a (here, u) =
      let (other, rest) = or_false_split (str_eq m'.name m.name) _ a in
      let differ : str_eq m.name m'.name ≡ false =
        str_eq-false m.name m'.name λ (x : m.name ≡ m'.name).
          let y = str_eq_refl m'.name in
          let z : str_eq m'.name m'.name ≡ false = rw x at other in cc in
      let same : recorded (st.run s m).0 m'.name ≡ recorded s m'.name =
        k.runs s m m'.name e ∙ rw differ refl in
      ((λ n. same ∙ here n), Unrun-run k s ran m ms e rest u)

  -- What a database has after Up: of the migrations that ran, their hashes, and of the others what it had.
  abbrev pub Recorded :
      S → List (Bytes × Ran) → List Migration → S × List Bytes × Option (Failure E) → Type 0
  Recorded s ran ms r =
      RanFirst r.1 (to_run ran ms) r.2
      × ((name : Bytes)
          → recorded r.0 name
            ≡ (if among r.1 name then hash_to_run ran ms name else recorded s name))

  run_all-Recorded :
      Keeps
      → (ms : List Migration) (ran : List (Bytes × Ran)) (s : S) → NamedOnce ms
      → Unrun s ran ms
      → Recorded s ran ms (run_all sha st s ran ms)
  unfolding run_all to_run hash_to_run with_record
  run_all-Recorded k [] ran s once u = (refl, λ name. refl)
  run_all-Recorded k (m ∷ ms) ran s (once, others) (u, us) = elim (Bool-cases (has_run ran m)) [
    | inl a ↦ rw a (run_all-Recorded k ms ran s others us)
    | inr a ↦ elim (Option-cases (st.run s m).1) [
      | inr (e, f) ↦ rw (a, f) ((λ x. cc), λ name. k.fails s m e name f)
      | inl f ↦
          let rest =
            run_all-Recorded k ms ran (st.run s m).0 others (Unrun-run k s ran m ms f once us) in
          let absent : among (run_all sha st (st.run s m).0 ran ms).1 m.name ≡ false =
            absent-RanFirst _ _ _ m.name rest.0 (absent-to_run ran ms m.name once) in
          let got : recorded (run_all sha st (st.run s m).0 ran ms).0 m.name ≡ some (hash sha m) =
            rest.1 m.name ∙ rw absent (run-recorded k s m f (u a)) in
          rw (a, f)
            (
              (refl, rest.0),
              λ name. elim (Bool-cases (str_eq m.name name)) [
                | inl b ↦ rw b (
                    subst
                      (λ n. recorded (run_all sha st (st.run s m).0 ran ms).0 n ≡ some (hash sha m))
                      ((str_eq_iff m.name name).0 b) got)
                | inr b ↦
                    let same : recorded (st.run s m).0 name ≡ recorded s name =
                      k.runs s m name f ∙ rw b refl in
                    rw b (rest.1 name ∙ rw same refl)
              ],
            )
    ]
  ]

  pub Unrun-by_name : (s : S) (ms : List Migration) → Unrun s (by_name (st.rows s)) ms
  unfolding recorded has_run
  Unrun-by_name s [] = tt
  Unrun-by_name s (m ∷ ms) = (
    (λ n. elim (Option-cases (lookup m.name (by_name (st.rows s)))) [
      | inl e ↦ rw (recorded, e) refl
      | inr (r, e) ↦ let x : true ≡ false = rw (has_run, e) at n in cc
    ]),
    Unrun-by_name s ms,
  )

  -- Where the Store is locked and read, and no migration that ran has changed, Up runs the migrations that have not
  -- run, in order, up to the first that fails: the names it returns are the first of those, and all of
  -- them where it returns no error. What the database has of a name afterwards is the hash of the migration's file for those
  -- names, and what it had before for any other.
  pub up-Recorded :
      Keeps
      → (s s₁ : S) (ms : List Migration) → NamedOnce ms
      → st.lock s ≡ ok s₁
      → st.ran_fails s₁ ≡ none
      → first_changed sha (by_name (st.rows s₁)) ms ≡ none
      → Recorded s₁ (by_name (st.rows s₁)) ms (up sha st s ms)
  unfolding up up_locked read_rows
  up-Recorded k s s₁ ms once l r c =
      let is : up sha st s ms ≡ run_all sha st s₁ (by_name (st.rows s₁)) ms =
        rw (up, l, up_locked, read_rows, r, c) refl in
      subst (λ x. Recorded s₁ (by_name (st.rows s₁)) ms x) (sym is)
        (run_all-Recorded k ms (by_name (st.rows s₁)) s₁ once (Unrun-by_name s₁ ms))
