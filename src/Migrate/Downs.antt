-- ===== src/Migrate/Downs.antt =====
-- What Down undoes (migrate/migrate.go).
use mathlib.Core.List.{Memᴰ}
use mathlib.Core.List.Memᴰ.{head, tail}
use tug.Common.{
  List, [], ◌∷◌, true, none, some, ◌≡◌, ◌≢◌, refl, sym, ap, ◌∙◌, subst, Bytes, str_eq, str_eq_iff,
  str_leb, if◌then◌else◌, ok, err, All, Bool-cases, Option-cases, inl, inr, str_leb_refl,
  str_leb_total, str_leb_trans,
}
use tug.Migrate.{
  Migration, Ran, Store, store_failed, is_changed, migration_failed, none_ran, no_file, no_down,
  hash, read_rows, last_row, file_of, undo_file, undo_last, down_locked, down,
}
use tug.Migrate.Ups.{recorded, Keeps}

-- No row's name comes after a name.
abbrev pub UpTo : (name : Bytes) → List Ran → Type 0
UpTo name rs = All (λ (r : Ran). str_leb r.name name ≡ true) rs

module _ (sha : Bytes → Bytes) {S E : Type 0} (st : Store S E) where
  last_row-Memᴰ : (r : Ran) (rs : List Ran) → Memᴰ (last_row sha st r rs) (r ∷ rs)
  unfolding last_row
  last_row-Memᴰ r [] = head refl
  last_row-Memᴰ r (r' ∷ rs) = elim (Bool-cases (str_leb r'.name r.name)) [
    | inl b ↦ rw b (elim (last_row-Memᴰ r rs) [ head e ↦ head e | tail m ↦ tail (tail m) ])
    | inr b ↦ rw b (tail (last_row-Memᴰ r' rs))
  ]

  last_row-UpTo : (r : Ran) (rs : List Ran) → UpTo (last_row sha st r rs).name (r ∷ rs)
  unfolding last_row
  last_row-UpTo r [] = (str_leb_refl r.name, tt)
  last_row-UpTo r (r' ∷ rs) = elim (Bool-cases (str_leb r'.name r.name)) [
    | inl b ↦
        let is : last_row sha st r (r' ∷ rs) ≡ last_row sha st r rs = rw b refl in
        let (here, rest) = last_row-UpTo r rs in
        subst (λ (x : Ran). UpTo x.name (r ∷ r' ∷ rs)) (sym is)
          (here, (str_leb_trans r'.name r.name _ b here, rest))
    | inr b ↦
        let is : last_row sha st r (r' ∷ rs) ≡ last_row sha st r' rs = rw b refl in
        let (here, rest) = last_row-UpTo r' rs in
        subst (λ (x : Ran). UpTo x.name (r ∷ r' ∷ rs)) (sym is)
          (str_leb_trans r.name r'.name _ (str_leb_total r'.name r.name b) here, (here, rest))
  ]

  file_of-name :
      (name : Bytes) (ms : List Migration) (m : Migration)
      → file_of sha st name ms ≡ some m
      → m.name ≡ name
  unfolding file_of
  file_of-name name [] m e = let x : none ≡ some m = e in cc
  file_of-name name (m' ∷ ms) m e = elim (Bool-cases (str_eq m'.name name)) [
    | inl b ↦
        let same : some m' ≡ some m = rw (file_of, b) at e in
        let x : m' ≡ m = cc in
        sym (ap (λ (m : Migration). m.name) x) ∙ (str_eq_iff m'.name name).0 b
    | inr b ↦ file_of-name name ms m (rw (file_of, b) at e)
  ]

  file_of-Memᴰ :
      (name : Bytes) (ms : List Migration) (m : Migration)
      → file_of sha st name ms ≡ some m
      → Memᴰ m ms
  unfolding file_of
  file_of-Memᴰ name [] m e = let x : none ≡ some m = e in cc
  file_of-Memᴰ name (m' ∷ ms) m e = elim (Bool-cases (str_eq m'.name name)) [
    | inl b ↦
        let same : some m' ≡ some m = rw (file_of, b) at e in let x : m' ≡ m = cc in head (sym x)
    | inr b ↦ tail (file_of-Memᴰ name ms m (rw (file_of, b) at e))
  ]

  -- What Down returned and did: of the rows, none comes after the one it undid; one of the files, of its name, is as it
  -- was when it ran, has a down part, and is what the Store undid; no other record has changed.
  pub record Undone (ms : List Migration) (s : S) (name : Bytes) (s' : S) : Type 0 where
    pub row : Ran
    pub file : Migration
    pub is_row : Memᴰ row (st.rows s)
    pub is_last : UpTo row.name (st.rows s)
    pub of_row : row.name ≡ name
    pub of_file : file.name ≡ name
    pub is_file : Memᴰ file ms
    pub undid : st.undo s file ≡ (s', none)
    pub unchanged : hash sha file ≡ row.hash
    pub has_down : file.down ≢ []
    pub forgets :
        (n : Bytes) → recorded sha st s' n ≡ (if str_eq name n then none else recorded sha st s n)

  undo_file-Undone :
      (k : Keeps sha st) (s : S) (m : Migration) (name : Bytes)
      → (undo_file sha st s m).1 ≡ ok name
      → (m.name ≡ name)
        × (st.undo s m ≡ ((undo_file sha st s m).0, none))
        × ((n : Bytes)
            → recorded sha st (undo_file sha st s m).0 n
              ≡ (if str_eq m.name n then none else recorded sha st s n))
  unfolding undo_file
  undo_file-Undone k s m name e = elim (Option-cases (st.undo s m).1) [
    | inr (x, f) ↦
        let failed : err (migration_failed m.name x) ≡ ok name = rw (undo_file, f) at e in cc
    | inl f ↦
        let same : ok m.name ≡ ok name = rw (undo_file, f) at e in
        let is : (undo_file sha st s m).0 ≡ (st.undo s m).0 = rw (undo_file, f) refl in
        (
          cc,
          subst (λ x. st.undo s m ≡ (x, none)) (sym is) (ap (λ x. ((st.undo s m).0, x)) f),
          λ n. ap (λ x. recorded sha st x n) is ∙ k.undoes s m n f,
        )
  ]

  undo_last-Undone :
      (k : Keeps sha st) (s : S) (ms : List Migration) (rs : List Ran) (name : Bytes)
      → st.rows s ≡ rs
      → (undo_last sha st s ms rs).1 ≡ ok name
      → Undone ms s name (undo_last sha st s ms rs).0
  unfolding undo_last
  undo_last-Undone k s ms [] name r e = let x : err none_ran ≡ ok name = e in cc
  undo_last-Undone k s ms (r₀ ∷ rs) name r e =
      let last : Ran = last_row sha st r₀ rs in
      elim (Option-cases (file_of sha st last.name ms)) [
        | inl f ↦ let x : err (no_file last.name) ≡ ok name = rw (undo_last, f) at e in cc
        | inr (m, f) ↦ elim (Bool-cases (str_eq (hash sha m) last.hash)) [
          | inr h ↦ let x : err (is_changed m.name) ≡ ok name = rw (undo_last, f, h) at e in cc
          | inl h ↦ elim (Bool-cases (str_eq m.down [])) [
            | inl d ↦ let x : err (no_down last.name) ≡ ok name = rw (undo_last, f, h, d) at e in cc
            | inr d ↦
                let is : undo_last sha st s ms (r₀ ∷ rs) ≡ undo_file sha st s m =
                  rw (undo_last, f, h, d) refl in
                let (named, undid, forgot) =
                  undo_file-Undone k s m name (ap (λ x. x.1) (sym is) ∙ e) in
                let found : m.name ≡ last.name = file_of-name last.name ms m f in
                subst (λ x. Undone ms s name x.0) (sym is)
                  (record {
                    row = last;
                    file = m;
                    is_row = subst (λ rows. Memᴰ last rows) (sym r) (last_row-Memᴰ r₀ rs);
                    is_last = subst (λ rows. UpTo last.name rows) (sym r) (last_row-UpTo r₀ rs);
                    of_row = sym found ∙ named;
                    of_file = named;
                    is_file = file_of-Memᴰ last.name ms m f;
                    undid = undid;
                    unchanged = (str_eq_iff (hash sha m) last.hash).0 h;
                    has_down = λ (x : m.down ≡ []).
                        let y : str_eq m.down [] ≡ true = (str_eq_iff m.down []).1 x in cc;
                    forgets = λ n. forgot n ∙ rw named refl;
                  })
          ]
        ]
      ]

  -- Where Down returns a name, the Store has undone the one of the files that is of the migration that ran last by name, and no
  -- other: it is as it was when it ran and has a down part. What the database has of any other name stays as it was.
  pub down-Undone :
      (k : Keeps sha st) (s s₁ : S) (ms : List Migration) (name : Bytes)
      → st.lock s ≡ ok s₁
      → (down sha st s ms).1 ≡ ok name
      → Undone ms s₁ name (down sha st s ms).0
  unfolding down down_locked read_rows
  down-Undone k s s₁ ms name l e = elim (Option-cases (st.ran_fails s₁)) [
    | inr (x, f) ↦
        let failed : err (store_failed x) ≡ ok name =
          rw (down, l, down_locked, read_rows, f) at e in
        cc
    | inl f ↦
        let is : down sha st s ms ≡ undo_last sha st s₁ ms (st.rows s₁) =
          rw (down, l, down_locked, read_rows, f) refl in
        subst (λ x. Undone ms s₁ name x.0) (sym is)
          (undo_last-Undone k s₁ ms _ name refl (ap (λ x. x.1) (sym is) ∙ e))
  ]
