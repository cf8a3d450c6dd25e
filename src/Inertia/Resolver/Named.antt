-- ===== src/Inertia/Resolver/Named.antt =====
-- The deferred props that a page's first load names (inertia/props.go).
use tug.Common.{
  ◌||◌, [], Bool, true, false, not, ◌&&◌, Bytes, str_eq, ok, ◌≡◌, refl, sym, ◌∙◌, subst, arith,
  Bool-cases, inl, inr, ◌⊎◌, Ensures, Ensures-bind, Ensures-weaken, Ensures-ok,
}
use tug.Inertia.Props.{
  Behavior, Content, Entries, Outcome, plain, holds, end, data_entry, prop_entry, fails, gives,
  scrolls,
}
use tug.Inertia.Notes.{Visit, Meta, collect, see, note_rescued, collect_scroll, path_of, inside}
use tug.Inertia.Resolver.{
  Outs, then_put, asked, kept, note_level, see_data, send_content, send_entries, send_outcome,
  level,
}
use tug.Inertia.Resolver.Reaches.{
  send_entries-data_asked, send_entries-prop_kept, send_entries-prop_not_kept, send_outcome-rescued,
  send_outcome-failed,
}
use tug.Inertia.Resolver.Paths.{
  Fetches, is_named, was_sent, below_prefix, below_prefix-inside, path_of-filled, see_data-is_named,
}
use tug.Inertia.Resolver.Shows.{outs_have, is_rescued, level-Shown}
use tug.Inertia.Resolver.Settles.{entries_settle, level-GoesThrough}
use tug.Inertia.Resolver.Fetched.{
  Sends, Names, inside-asked, data-Sends, prop-Sends, data_rest-Sends, prop_rest-Sends,
  note_level-Names, holds-Sends, gives-Sends, scrolls-Sends,
}

not_missing : (a b : Bool) → (not a && b) ≡ true → a ≡ false
not_missing a b h = ground arith

module _ {D E : Type 0} where
  -- No path of the entries is empty.
  abbrev pub Pathed : Entries D E → (prefix : Bytes) → Type 0
  Pathed end prefix = Unit
  Pathed (data_entry key c es) prefix = (str_eq (path_of prefix key) [] ≡ false) × Pathed es prefix
  Pathed (prop_entry key missing b o es) prefix =
      (str_eq (path_of prefix key) [] ≡ false) × Pathed es prefix

  below-Pathed : (es : Entries D E) (prefix : Bytes) → str_eq prefix [] ≡ false → Pathed es prefix
  below-Pathed end prefix e = tt
  below-Pathed (data_entry key c es) prefix e =
      (path_of-filled prefix key e, below-Pathed es prefix e)
  below-Pathed (prop_entry key missing b o es) prefix e =
      (path_of-filled prefix key e, below-Pathed es prefix e)

module _ {D E : Type 0} (p : Bytes) (v w : Visit) (f : Fetches p v w) where
  mutual
    unfolding send_content then_put collect collect_scroll see note_rescued

    content-Names :
        (c : Content D E) (path : Bytes) (pr : Bool) (m : Meta D)
        → str_eq path [] ≡ false
        → Names p v w f m (send_content v c path pr m) (send_content w c path pr) (inside p path)
    content-Names (plain d) path pr m e = λ h. inl h
    content-Names (holds es) path pr m e =
        Ensures-bind
          (λ x.
            is_named p x.1 ≡ true
            → (is_named p (note_level v es path m) ≡ true)
              ⊎ (below_prefix p path ≡ true) × Sends p v w f (send_entries w es path pr))
          (λ x.
            is_named p x.1 ≡ true
            → (is_named p m ≡ true)
              ⊎ (inside p path ≡ true) × Sends p v w f (send_content w (holds es) path pr))
          (send_entries v es path pr (note_level v es path m)) _
          (entries-Names es path pr (note_level v es path m) (below-Pathed es path e))
          λ x k h. elim (k h) [
            | inr (i, s) ↦ inr (rw e at i, holds-Sends p v w f es path pr s)
            | inl h' ↦ elim (note_level-Names p v w f es path pr m h') [
              | inl y ↦ inl y
              | inr (i, s) ↦ inr (rw e at i, holds-Sends p v w f es path pr s)
            ]
          ]

    entries-Names :
        (es : Entries D E) (prefix : Bytes) (pr : Bool) (m : Meta D)
        → Pathed es prefix
        → Names p v w f m
            (send_entries v es prefix pr m)
            (send_entries w es prefix pr)
            (below_prefix p prefix)
    entries-Names end prefix pr m k = λ h. inl h
    entries-Names (data_entry key c es) prefix pr m (k, ks) =
        let path = path_of prefix key in
        let walk = send_entries w (data_entry key c es) prefix pr in
        let a : asked v false path pr ≡ true = rw f.loads refl in
        subst (λ r. Names p v w f m r walk (below_prefix p prefix))
          (sym (send_entries-data_asked v key c es prefix pr m a))
          (Ensures-bind
            (λ x.
              is_named p x.1 ≡ true
              → (is_named p m ≡ true)
                ⊎ (inside p path ≡ true) × Sends p v w f (send_content w c path pr))
            (λ x.
              is_named p x.1 ≡ true
              → (is_named p m ≡ true) ⊎ (below_prefix p prefix ≡ true) × Sends p v w f walk)
            (send_content v c path pr m) _ (content-Names c path pr m k)
            λ x q.
              Ensures-bind _
                (λ x.
                  is_named p x.1 ≡ true
                  → (is_named p m ≡ true) ⊎ (below_prefix p prefix ≡ true) × Sends p v w f walk)
                (send_entries v es prefix pr (see_data v prefix path x.1)) _
                (entries-Names es prefix pr (see_data v prefix path x.1) ks)
                λ y r h. elim (r h) [
                  | inr (i, s) ↦ inr (i, data_rest-Sends p v w f key c es prefix pr s)
                  | inl h' ↦ elim (q (sym (see_data-is_named v p prefix path x.1) ∙ h')) [
                    | inl z ↦ inl z
                    | inr (i, s) ↦ inr (
                      below_prefix-inside p prefix key i,
                      data-Sends p v w f key c es prefix pr i s,
                    )
                  ]
                ])
    entries-Names (prop_entry key missing b o es) prefix pr m (k, ks) =
        let path = path_of prefix key in
        let walk = send_entries w (prop_entry key missing b o es) prefix pr in
        elim (Bool-cases (kept v missing b path pr)) [
          | inr a ↦
              subst (λ r. Names p v w f m r walk (below_prefix p prefix))
                (sym (send_entries-prop_not_kept v key missing b o es prefix pr m a))
                (Ensures-weaken _ _ (send_entries v es prefix pr m)
                  (λ y r h. elim (r h) [
                    | inl z ↦ inl z
                    | inr (i, s) ↦ inr (i, prop_rest-Sends p v w f key missing b o es prefix pr s)
                  ])
                  (entries-Names es prefix pr m ks))
          | inl a ↦
              let there : missing ≡ false = not_missing missing _ a in
              subst (λ r. Names p v w f m r walk (below_prefix p prefix))
                (sym (send_entries-prop_kept v key missing b o es prefix pr m a))
                (Ensures-bind
                  (λ x.
                    is_named p x.1 ≡ true
                    → (is_named p m ≡ true)
                      ⊎ (inside p path ≡ true) × Sends p v w f (send_outcome w o b path))
                  (λ x.
                    is_named p x.1 ≡ true
                    → (is_named p m ≡ true) ⊎ (below_prefix p prefix ≡ true) × Sends p v w f walk)
                  (send_outcome v o b path m) _ (outcome-Names o b path m k)
                  λ x q.
                    Ensures-bind _
                      (λ x.
                        is_named p x.1 ≡ true
                        → (is_named p m ≡ true)
                          ⊎ (below_prefix p prefix ≡ true) × Sends p v w f walk)
                      (send_entries v es prefix pr x.1) _ (entries-Names es prefix pr x.1 ks)
                      λ y r h. elim (r h) [
                        | inr (i, s) ↦
                            inr (i, prop_rest-Sends p v w f key missing b o es prefix pr s)
                        | inl h' ↦ elim (q h') [
                          | inl z ↦ inl z
                          | inr (i, s) ↦ inr (
                            below_prefix-inside p prefix key i,
                            subst
                                (λ k.
                                  Sends p v w f
                                    (send_entries w (prop_entry key k b o es) prefix pr))
                                (sym there)
                                (prop-Sends p v w f key b o es prefix pr
                                  (inside-asked p v w f path b.always pr i) s),
                          )
                        ]
                      ])
        ]

    outcome-Names :
        (o : Outcome D E) (b : Behavior) (path : Bytes) (m : Meta D)
        → str_eq path [] ≡ false
        → Names p v w f m (send_outcome v o b path m) (send_outcome w o b path) (inside p path)
    outcome-Names (fails e) b path m k = elim (Bool-cases b.rescue) [
      | inl a ↦
          subst (λ r. Names p v w f m r (send_outcome w (fails e) b path) (inside p path))
            (sym (send_outcome-rescued v e b path m a)) λ h. inl h
      | inr a ↦
          subst (λ r. Names p v w f m r (send_outcome w (fails e) b path) (inside p path))
            (sym (send_outcome-failed v e b path m a)) tt
    ]
    outcome-Names (gives c) b path m k =
        Ensures-bind _
          (λ x.
            is_named p x.1 ≡ true
            → (is_named p m ≡ true)
              ⊎ (inside p path ≡ true) × Sends p v w f (send_outcome w (gives c) b path))
          (send_content v c path true (collect v true b path m)) _
          (content-Names c path true (collect v true b path m) k)
          λ x q h. elim (q h) [
            | inl z ↦ inl z
            | inr (i, s) ↦ inr (i, gives-Sends p v w f c b path s)
          ]
    outcome-Names (scrolls pg c) b path m k =
        Ensures-bind _
          (λ x.
            is_named p x.1 ≡ true
            → (is_named p m ≡ true)
              ⊎ (inside p path ≡ true) × Sends p v w f (send_outcome w (scrolls pg c) b path))
          (send_content v c path true (collect v true b path (collect_scroll v pg path m))) _
          (content-Names c path true (collect v true b path (collect_scroll v pg path m)) k)
          λ x q h. elim (q h) [
            | inl z ↦ inl z
            | inr (i, s) ↦ inr (i, scrolls-Sends p v w f pg c b path s)
          ]

  level-Sends :
      (es : Entries D E) (m : Meta D)
      → Pathed es []
      → is_named p m ≡ false
      → Ensures
          (λ x. is_named p x.1 ≡ true → Sends p v w f (level w es [] false))
          (level v es [] false m)
  unfolding level
  level-Sends es m k e =
      Ensures-weaken _ _ (send_entries v es [] false (note_level v es [] m))
        (λ x q h. elim (q h) [
          | inr (i, s) ↦ λ n. s (note_level w es [] n)
          | inl h' ↦ elim (note_level-Names p v w f es [] false m h') [
            | inl y ↦ let x : false ≡ true = sym e ∙ y in cc
            | inr (i, s) ↦ λ n. s (note_level w es [] n)
          ]
        ])
        (entries-Names es [] false (note_level v es [] m) k)

  -- A full visit of a page whose props have names, and a partial reload of the same page that asks for a path and excepts
  -- nothing: when each prop's function returns a value, or the prop is rescued, and the visit names the path in
  -- deferredProps, then the reload goes through, and the prop at the path is in what it sends, or among the rescued. Neither had noted
  -- the path before.
  pub level-Fetched :
      (es : Entries D E) (m n : Meta D) (x : Outs D × Meta D)
      → Pathed es []
      → entries_settle es ≡ true
      → is_named p m ≡ false
      → was_sent p n ≡ false
      → level v es [] false m ≡ ok x
      → is_named p x.1 ≡ true
      → (y : Outs D × Meta D) × (level w es [] false n ≡ ok y)
        × ((outs_have p [] y.0 || is_rescued p y.1) ≡ true)
  level-Fetched es m n x k s e not_yet is h =
      let (y, goes) = level-GoesThrough w es [] false n s in
      let was = Ensures-ok _ _ y goes (Ensures-ok _ _ x is (level-Sends es m k e) h n) in
      let shown = Ensures-ok _ _ y goes (level-Shown p w es [] false n) in
      (
        y,
        goes,
        elim (shown.0 was) [ inl old ↦ let z : false ≡ true = sym not_yet ∙ old in cc | inr t ↦ t ],
      )
