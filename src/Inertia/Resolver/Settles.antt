-- ===== src/Inertia/Resolver/Settles.antt =====
-- Pages whose props all resolve go out (inertia/props.go).
use tug.Common.{
  Bool, true, false, ◌&&◌, Option, some, Bytes, Result, ok, ◌>>=◌, ◌≡◌, refl, sym, subst,
  Bool-cases, inl, inr, and_split,
}
use tug.Inertia.Props.{
  Behavior, Content, Entries, Outcome, plain, holds, end, data_entry, prop_entry, fails, gives,
  scrolls,
}
use tug.Inertia.Notes.{Visit, Meta, path_of}
use tug.Inertia.Resolver.{
  Out, Outs, PropFailed, then_put, asked, kept, note_level, see_data, send_content, send_entries,
  send_outcome, level,
}
use tug.Inertia.Resolver.Reaches.{
  send_entries-data_asked, send_entries-data_not_asked, send_entries-prop_kept,
  send_entries-prop_not_kept, send_outcome-rescued,
}

-- Whether each function of a prop returns a value, or its prop is rescued.
unfoldable mutual
  pub content_settles : {D E : Type 0} → Content D E → Bool
  content_settles (plain d) = true
  content_settles (holds es) = entries_settle es

  pub entries_settle : {D E : Type 0} → Entries D E → Bool
  entries_settle end = true
  entries_settle (data_entry key c es) = content_settles c && entries_settle es
  entries_settle (prop_entry key missing b o es) = outcome_settles o b && entries_settle es

  pub outcome_settles : {D E : Type 0} → Outcome D E → Behavior → Bool
  outcome_settles (fails e) b = b.rescue
  outcome_settles (gives c) b = content_settles c
  outcome_settles (scrolls p c) b = content_settles c

abbrev pub GoesThrough : {A B : Type 0} → Result B A → Type 0
GoesThrough {A} r = (a : A) × (r ≡ ok a)

bind-GoesThrough :
    {A B C : Type 0} (r : Result B A) (f : A → Result B C)
    → GoesThrough r
    → ((a : A) → GoesThrough (f a))
    → GoesThrough (r >>= f)
bind-GoesThrough r f (a, e) g = subst (λ x. GoesThrough (x >>= f)) (sym e) (g a)

module _ {D E : Type 0} (v : Visit) where
  then_put-GoesThrough :
      (key : Bytes) (rest : Meta D → Result (PropFailed E) (Outs D × Meta D))
      (x : Option (Out D) × Meta D)
      → GoesThrough (rest x.1)
      → GoesThrough (then_put key rest x)
  unfolding then_put
  then_put-GoesThrough key rest x e = bind-GoesThrough (rest x.1) _ e λ y. (_, refl)

  mutual
    unfolding send_content content_settles

    content-GoesThrough :
        (c : Content D E) (path : Bytes) (pr : Bool) (m : Meta D)
        → content_settles c ≡ true
        → GoesThrough (send_content v c path pr m)
    content-GoesThrough (plain d) path pr m s = (_, refl)
    content-GoesThrough (holds es) path pr m s =
        bind-GoesThrough (send_entries v es path pr (note_level v es path m)) _
          (entries-GoesThrough es path pr _ s) λ x. (_, refl)

    pub entries-GoesThrough :
        (es : Entries D E) (prefix : Bytes) (pr : Bool) (m : Meta D)
        → entries_settle es ≡ true
        → GoesThrough (send_entries v es prefix pr m)
    entries-GoesThrough end prefix pr m s = (_, refl)
    entries-GoesThrough (data_entry key c es) prefix pr m s =
        let path = path_of prefix key in
        let parts = and_split (content_settles c) (entries_settle es) s in
        elim (Bool-cases (asked v false path pr)) [
          | inr a ↦
              subst (λ r. GoesThrough r)
                (sym (send_entries-data_not_asked v key c es prefix pr m a))
                (entries-GoesThrough es prefix pr m parts.1)
          | inl a ↦
              subst (λ r. GoesThrough r) (sym (send_entries-data_asked v key c es prefix pr m a))
                (bind-GoesThrough (send_content v c path pr m) _
                  (content-GoesThrough c path pr m parts.0)
                  λ x.
                    then_put-GoesThrough key _ (some x.0, see_data v prefix path x.1)
                      (entries-GoesThrough es prefix pr _ parts.1))
        ]
    entries-GoesThrough (prop_entry key missing b o es) prefix pr m s =
        let path = path_of prefix key in
        let parts = and_split (outcome_settles o b) (entries_settle es) s in
        elim (Bool-cases (kept v missing b path pr)) [
          | inr a ↦
              subst (λ r. GoesThrough r)
                (sym (send_entries-prop_not_kept v key missing b o es prefix pr m a))
                (entries-GoesThrough es prefix pr m parts.1)
          | inl a ↦
              subst (λ r. GoesThrough r)
                (sym (send_entries-prop_kept v key missing b o es prefix pr m a))
                (bind-GoesThrough (send_outcome v o b path m) _
                  (outcome-GoesThrough o b path m parts.0)
                  λ x. then_put-GoesThrough key _ x (entries-GoesThrough es prefix pr x.1 parts.1))
        ]

    outcome-GoesThrough :
        (o : Outcome D E) (b : Behavior) (path : Bytes) (m : Meta D)
        → outcome_settles o b ≡ true
        → GoesThrough (send_outcome v o b path m)
    outcome-GoesThrough (fails e) b path m s =
        subst (λ r. GoesThrough r) (sym (send_outcome-rescued v e b path m s)) (_, refl)
    outcome-GoesThrough (gives c) b path m s =
        bind-GoesThrough (send_content v c path true _) _ (content-GoesThrough c path true _ s)
          λ x. (_, refl)
    outcome-GoesThrough (scrolls pg c) b path m s =
        bind-GoesThrough (send_content v c path true _) _ (content-GoesThrough c path true _ s)
          λ x. (_, refl)

  pub level-GoesThrough :
      (es : Entries D E) (prefix : Bytes) (pr : Bool) (m : Meta D)
      → entries_settle es ≡ true
      → GoesThrough (level v es prefix pr m)
  unfolding level
  level-GoesThrough es prefix pr m s = entries-GoesThrough es prefix pr _ s
