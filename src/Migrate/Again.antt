-- ===== src/Migrate/Again.antt =====
-- What a second run of Up finds (migrate/migrate.go).
use tug.Common.{
  List, [], ◌∷◌, true, false, none, some, ◌≡◌, refl, sym, ap, ◌∙◌, subst, Bytes, str_eq, str_eq_iff,
  lookup, ok, All, Bool-cases, Option-cases, Result-cases, inl, inr,
}
use tug.Migrate.{
  Migration, Ran, Store, store_failed, is_changed, migration_failed, by_name, hash, has_changed,
  first_changed, has_run, read_rows, run_all, up_locked, up,
}
use tug.Migrate.Ups.{
  recorded, Keeps, NamedOnce, Unrun, Unrun-run, Unrun-by_name, run-keeps, run_all-keeps,
  run-recorded,
}

module _ (sha : Bytes → Bytes) {S E : Type 0} (st : Store S E) where
  -- Each migration is recorded, with the hash of its file.
  abbrev pub AllRecorded : S → List Migration → Type 0
  AllRecorded s ms = All (λ (m : Migration). recorded sha st s m.name ≡ some (hash sha m)) ms

  -- Those that ran have not changed.
  abbrev Unchanged : S → List (Bytes × Ran) → List Migration → Type 0
  Unchanged s ran ms =
      All (λ (m : Migration). has_run ran m ≡ true → recorded sha st s m.name ≡ some (hash sha m))
        ms

  Unchanged-run :
      (k : Keeps sha st) (s : S) (ran : List (Bytes × Ran)) (m : Migration) (ms : List Migration)
      → Unchanged s ran ms
      → Unchanged (st.run s m).0 ran ms
  Unchanged-run k s ran m [] u = tt
  Unchanged-run k s ran m (m' ∷ ms) (here, u) =
      ((λ a. run-keeps sha st k s m m'.name (hash sha m') (here a)), Unchanged-run k s ran m ms u)

  run_all-AllRecorded :
      (k : Keeps sha st) (ms : List Migration) (ran : List (Bytes × Ran)) (s : S)
      → NamedOnce sha st ms
      → Unrun sha st s ran ms
      → Unchanged s ran ms
      → (run_all sha st s ran ms).2 ≡ none
      → AllRecorded (run_all sha st s ran ms).0 ms
  unfolding run_all
  run_all-AllRecorded k [] ran s once u c e = tt
  run_all-AllRecorded k (m ∷ ms) ran s (once, others) (u, us) (c, cs) e =
      elim (Bool-cases (has_run ran m)) [
        | inl a ↦
            let is : run_all sha st s ran (m ∷ ms) ≡ run_all sha st s ran ms = rw a refl in
            subst (λ x. AllRecorded x.0 (m ∷ ms)) (sym is)
              (
                run_all-keeps sha st k ms ran s m.name (hash sha m) (c a),
                run_all-AllRecorded k ms ran s others us cs (rw a at e),
              )
        | inr a ↦ elim (Option-cases (st.run s m).1) [
          | inr (x, f) ↦ let failed : some (migration_failed m.name x) ≡ none = rw (a, f) at e in cc
          | inl f ↦
              let is : (run_all sha st s ran (m ∷ ms)).0
                  ≡ (run_all sha st (st.run s m).0 ran ms).0 =
                rw (a, f) refl in
              subst (λ x. AllRecorded x (m ∷ ms)) (sym is)
                (
                  run_all-keeps sha st k ms ran (st.run s m).0 m.name (hash sha m)
                      (run-recorded sha st k s m f (u a)),
                  run_all-AllRecorded k ms ran (st.run s m).0 others
                      (Unrun-run sha st k s ran m ms f once us) (Unchanged-run k s ran m ms cs)
                      (rw (a, f) at e),
                )
        ]
      ]

  -- What Up checks of those that ran.
  first_changed-Unchanged :
      (s : S) (ms : List Migration)
      → first_changed sha (by_name (st.rows s)) ms ≡ none
      → Unchanged s (by_name (st.rows s)) ms
  unfolding first_changed has_changed has_run recorded
  first_changed-Unchanged s [] e = tt
  first_changed-Unchanged s (m ∷ ms) e = elim (Option-cases (lookup m.name (by_name (st.rows s)))) [
    | inl n ↦ (
      (λ a. let x : false ≡ true = rw (has_run, n) at a in cc),
      first_changed-Unchanged s ms (rw (first_changed, has_changed, n) at e),
    )
    | inr (r, n) ↦ elim (Bool-cases (str_eq r.hash (hash sha m))) [
      | inl b ↦ (
        (λ a. rw (recorded, n) (ap some ((str_eq_iff r.hash (hash sha m)).0 b))),
        first_changed-Unchanged s ms (rw (has_changed, n, b) at e),
      )
      | inr b ↦ let x : some m ≡ none = rw (has_changed, n, b) at e in cc
    ]
  ]

  -- Nothing is left to run, and nothing has changed.
  AllRecorded-first_changed :
      (s : S) (ms : List Migration)
      → AllRecorded s ms
      → first_changed sha (by_name (st.rows s)) ms ≡ none
  unfolding first_changed has_changed recorded
  AllRecorded-first_changed s [] a = refl
  AllRecorded-first_changed s (m ∷ ms) (here, a) =
      elim (Option-cases (lookup m.name (by_name (st.rows s)))) [
        | inl n ↦ let x : none ≡ some (hash sha m) = rw (recorded, n) at here in cc
        | inr (r, n) ↦
            let x : some r.hash ≡ some (hash sha m) = rw (recorded, n) at here in
            let same : r.hash ≡ hash sha m = cc in
            rw (has_changed, n, (str_eq_iff r.hash (hash sha m)).1 same)
              (AllRecorded-first_changed s ms a)
      ]

  AllRecorded-run_all :
      (s s' : S) (ms : List Migration)
      → AllRecorded s ms
      → run_all sha st s' (by_name (st.rows s)) ms ≡ (s', [], none)
  unfolding run_all has_run recorded
  AllRecorded-run_all s s' [] a = refl
  AllRecorded-run_all s s' (m ∷ ms) (here, a) =
      elim (Option-cases (lookup m.name (by_name (st.rows s)))) [
        | inl n ↦ let x : none ≡ some (hash sha m) = rw (recorded, n) at here in cc
        | inr (r, n) ↦ rw (has_run, n) (AllRecorded-run_all s s' ms a)
      ]

  AllRecorded-lock :
      (k : Keeps sha st) (s s' : S) (ms : List Migration)
      → st.lock s ≡ ok s'
      → AllRecorded s ms
      → AllRecorded s' ms
  AllRecorded-lock k s s' [] l a = tt
  AllRecorded-lock k s s' (m ∷ ms) l (here, a) =
      (k.locks s s' m.name l ∙ here, AllRecorded-lock k s s' ms l a)

  AllRecorded-up_locked :
      (k : Keeps sha st) (s : S) (ms : List Migration)
      → NamedOnce sha st ms
      → (up_locked sha st s ms).2 ≡ none
      → AllRecorded (up_locked sha st s ms).0 ms
  unfolding up_locked read_rows
  AllRecorded-up_locked k s ms once e = elim (Option-cases (st.ran_fails s)) [
    | inr (x, f) ↦
        let failed : some (store_failed x) ≡ none = rw (up_locked, read_rows, f) at e in cc
    | inl r ↦ elim (Option-cases (first_changed sha (by_name (st.rows s)) ms)) [
      | inr (m, c) ↦
          let failed : some (is_changed m.name) ≡ none = rw (up_locked, read_rows, r, c) at e in cc
      | inl c ↦
          let is : up_locked sha st s ms ≡ run_all sha st s (by_name (st.rows s)) ms =
            rw (up_locked, read_rows, r, c) refl in
          subst (λ x. AllRecorded x.0 ms) (sym is)
            (run_all-AllRecorded k ms (by_name (st.rows s)) s once (Unrun-by_name sha st s ms)
              (first_changed-Unchanged s ms c) (ap (λ x. x.2) (sym is) ∙ e))
    ]
  ]

  AllRecorded-up :
      (k : Keeps sha st) (s : S) (ms : List Migration)
      → NamedOnce sha st ms
      → (up sha st s ms).2 ≡ none
      → AllRecorded (up sha st s ms).0 ms
  unfolding up
  AllRecorded-up k s ms once e = elim (Result-cases (st.lock s)) [
    | inl (x, l) ↦ let failed : some (store_failed x) ≡ none = rw (up, l) at e in cc
    | inr (s₁, l) ↦
        let is : up sha st s ms ≡ up_locked sha st s₁ ms = rw (up, l) refl in
        subst (λ x. AllRecorded x.0 ms) (sym is)
          (AllRecorded-up_locked k s₁ ms once (ap (λ x. x.2) (sym is) ∙ e))
  ]

  -- Once Up has returned no error, another Up of the same files, where the Store can be locked and read, runs nothing, returns no
  -- error, and leaves the database as it is: no migration is run twice, and none is left behind.
  pub up-again :
      (k : Keeps sha st) (s s₂ : S) (ms : List Migration)
      → NamedOnce sha st ms
      → (up sha st s ms).2 ≡ none
      → st.lock (up sha st s ms).0 ≡ ok s₂
      → st.ran_fails s₂ ≡ none
      → up sha st (up sha st s ms).0 ms ≡ (s₂, [], none)
  unfolding up up_locked read_rows
  up-again k s s₂ ms once e l r =
      let a = AllRecorded-lock k (up sha st s ms).0 s₂ ms l (AllRecorded-up k s ms once e) in
      let is : up sha st (up sha st s ms).0 ms ≡ up_locked sha st s₂ ms = rw (up, l) refl in
      is
      ∙ rw (up_locked, read_rows, r, AllRecorded-first_changed s₂ ms a)
          (AllRecorded-run_all s₂ s₂ ms a)
