-- ===== src/Inertia/Resolver/FirstLoads.antt =====
-- What goes out with a full visit (inertia/props.go).
use tug.Common.{
  [], Bool, true, false, not, ◌&&◌, ◌||◌, Option, none, some, Bytes, str_eq, any, if◌then◌else◌,
  Result, ok, err, ◌>>=◌, ◌≡◌, refl, sym, ap, ◌∙◌, arith, Bool-cases, inl, inr,
}
use tug.Inertia.Props.{
  FirstLoad, sent, optional, deferred, Behavior, Content, Entries, Outcome, plain, holds, end,
  data_entry, prop_entry, fails, gives, scrolls,
}
use tug.Inertia.Notes.{Visit, Meta, left_out, client_has, or_else, waits, path_of}
use tug.Inertia.Resolver.{
  Out, Outs, json, object, nothing, put, PropFailed, prop_failed, put_any, then_put, asked, kept,
  note_level, see_data, send_content, send_entries, send_outcome, level,
}
use tug.Inertia.Resolver.Reaches.{
  send_entries-data_asked, send_entries-prop_kept, send_entries-prop_not_kept, send_outcome-rescued,
  send_outcome-failed,
}

module _ (v : Visit) where
  -- Whether a prop waits for a partial reload, or Inertia's client has it as a once prop, which may keep it.
  abbrev pub stays_out : Behavior → (path : Bytes) → Bool
  stays_out b path = elim b.first_load [
    | optional ↦ true
    | deferred ↦ true
    | sent ↦
        v.inertia
        && (b.once
            && (not b.fresh
                && any (λ k. str_eq k (if str_eq b.once_key [] then path else b.once_key))
                    v.loaded))
  ]

  left_out-stays_out : (b : Behavior) (path : Bytes) → left_out v b path ≡ stays_out b path
  unfolding left_out client_has or_else
  left_out-stays_out b path = waits_or b.first_load _
    where
      waits_or :
          (l : FirstLoad) (x : Bool)
          → (waits v l || x) ≡ elim l [ optional ↦ true | deferred ↦ true | sent ↦ x ]
      waits_or sent x = refl
      waits_or optional x = refl
      waits_or deferred x = refl

  -- What a full visit is to send of a page: its data, and its props but those that are missing or stay out, with what is
  -- nested in each; a prop that failed fails the page unless it is rescued, and is left out then.
  unfoldable mutual
    pub page_content : {D E : Type 0} → Content D E → (path : Bytes) → Result (PropFailed E) (Out D)
    page_content (plain d) path = ok (json d)
    page_content (holds es) path = page_entries es path >>= λ outs. ok (object outs)

    pub page_entries :
        {D E : Type 0} → Entries D E → (prefix : Bytes) → Result (PropFailed E) (Outs D)
    page_entries end prefix = ok nothing
    page_entries (data_entry key c es) prefix =
        let rest = page_entries es prefix in
        page_content c (path_of prefix key) >>= λ out. rest >>= λ outs. ok (put key out outs)
    page_entries (prop_entry key missing b o es) prefix =
        let rest = page_entries es prefix in
        let here = page_outcome o b (path_of prefix key) in
        if missing || stays_out b (path_of prefix key)
        then rest
        else (here >>= λ out. rest >>= λ outs. ok (put_any key out outs))

    pub page_outcome :
        {D E : Type 0}
        → Outcome D E
        → Behavior
        → (path : Bytes) → Result (PropFailed E) (Option (Out D))
    page_outcome (fails e) b path = if b.rescue then ok none else err (prop_failed path e)
    page_outcome (gives c) b path = page_content c path >>= λ out. ok (some out)
    page_outcome (scrolls pg c) b path = page_content c path >>= λ out. ok (some out)

-- What a walk puts out, without its notes.
abbrev pub outs_of : {A B C : Type 0} → Result C (A × B) → Result C A
outs_of (ok x) = ok x.0
outs_of (err e) = err e

outs_of-bind :
    {A B C M : Type 0} (r : Result C (A × M)) (f : A × M → Result C (B × M)) (g : A → Result C B)
    → ((x : A × M) → outs_of (f x) ≡ g x.0)
    → outs_of (r >>= f) ≡ (outs_of r >>= g)
outs_of-bind (ok x) f g k = k x
outs_of-bind (err e) f g k = refl

kept_parts : (a b c d : Bool) → (not a && (b && (c || not d))) ≡ true → c ≡ false → (a || d) ≡ false
kept_parts a b c d h e = ground arith

not_kept_parts :
    (a b c d : Bool)
    → (not a && (b && (c || not d))) ≡ false
    → b ≡ true
    → c ≡ false
    → (a || d) ≡ true
not_kept_parts a b c d h k e = ground arith

module _ (v : Visit) (full : v.partial ≡ false) where
  -- All is asked for.
  asked_all : (always : Bool) (path : Bytes) (pr : Bool) → asked v always path pr ≡ true
  asked_all always path pr = rw full refl

module _ {D E : Type 0} (v : Visit) where
  then_put-page :
      (key : Bytes) (es : Entries D E) (prefix : Bytes) (pr : Bool) (out : Option (Out D))
      (n : Meta D)
      → outs_of (send_entries v es prefix pr n) ≡ page_entries v es prefix
      → outs_of (then_put key (send_entries v es prefix pr) (out, n))
        ≡ (page_entries v es prefix >>= λ outs. ok (put_any key out outs))
  unfolding then_put
  then_put-page key es prefix pr out n is =
      outs_of-bind (send_entries v es prefix pr n) _ (λ outs. ok (put_any key out outs)) (λ x. refl)
      ∙ ap (λ r. r >>= λ outs. ok (put_any key out outs)) is

  page_entries-skips :
      (key : Bytes) (missing : Bool) (b : Behavior) (o : Outcome D E) (es : Entries D E)
      (prefix : Bytes)
      → (missing || stays_out v b (path_of prefix key)) ≡ true
      → page_entries v (prop_entry key missing b o es) prefix ≡ page_entries v es prefix
  unfolding page_content
  page_entries-skips key missing b o es prefix s = rw (page_entries, s) refl

  page_entries-sends :
      (key : Bytes) (missing : Bool) (b : Behavior) (o : Outcome D E) (es : Entries D E)
      (prefix : Bytes)
      → (missing || stays_out v b (path_of prefix key)) ≡ false
      → page_entries v (prop_entry key missing b o es) prefix ≡ (
          page_outcome v o b (path_of prefix key) >>= λ out.
          page_entries v es prefix >>= λ outs. ok (put_any key out outs))
  unfolding page_content
  page_entries-sends key missing b o es prefix s = rw (page_entries, s) refl

module _ {D E : Type 0} (v : Visit) (full : v.partial ≡ false) where
  mutual
    unfolding send_content page_content then_put put_any

    content-page :
        (c : Content D E) (path : Bytes) (pr : Bool) (m : Meta D)
        → outs_of (send_content v c path pr m) ≡ page_content v c path
    content-page (plain d) path pr m = refl
    content-page (holds es) path pr m =
        outs_of-bind (send_entries v es path pr (note_level v es path m)) _
          (λ outs. ok (object outs)) (λ x. refl)
        ∙ ap (λ r. r >>= λ outs. ok (object outs))
            (entries-page es path pr (note_level v es path m))

    entries-page :
        (es : Entries D E) (prefix : Bytes) (pr : Bool) (m : Meta D)
        → outs_of (send_entries v es prefix pr m) ≡ page_entries v es prefix
    entries-page end prefix pr m = refl
    entries-page (data_entry key c es) prefix pr m =
        let path = path_of prefix key in
        ap outs_of (send_entries-data_asked v key c es prefix pr m (asked_all v full false path pr))
        ∙ outs_of-bind (send_content v c path pr m) _
            (λ out. page_entries v es prefix >>= λ outs. ok (put key out outs))
            (λ x.
              then_put-page v key es prefix pr (some x.0) (see_data v prefix path x.1)
                (entries-page es prefix pr (see_data v prefix path x.1)))
        ∙ ap (λ r. r >>= λ out. page_entries v es prefix >>= λ outs. ok (put key out outs))
            (content-page c path pr m)
    entries-page (prop_entry key missing b o es) prefix pr m =
        let path = path_of prefix key in
        let out_is = left_out-stays_out v b path in
        elim (Bool-cases (kept v missing b path pr)) [
          | inr a ↦
              let skips : (missing || stays_out v b path) ≡ true =
                ap (λ x. missing || x) (sym out_is)
                ∙ not_kept_parts missing _ _ _ a (asked_all v full b.always path pr) full in
              ap outs_of (send_entries-prop_not_kept v key missing b o es prefix pr m a)
              ∙ entries-page es prefix pr m
              ∙ sym (page_entries-skips v key missing b o es prefix skips)
          | inl a ↦
              let sends : (missing || stays_out v b path) ≡ false =
                ap (λ x. missing || x) (sym out_is) ∙ kept_parts missing _ _ _ a full in
              ap outs_of (send_entries-prop_kept v key missing b o es prefix pr m a)
              ∙ outs_of-bind (send_outcome v o b path m) _
                  (λ out. page_entries v es prefix >>= λ outs. ok (put_any key out outs))
                  (λ x. then_put-page v key es prefix pr x.0 x.1 (entries-page es prefix pr x.1))
              ∙ ap
                  (λ r. r >>= λ out. page_entries v es prefix >>= λ outs. ok (put_any key out outs))
                  (outcome-page o b path m)
              ∙ sym (page_entries-sends v key missing b o es prefix sends)
        ]

    outcome-page :
        (o : Outcome D E) (b : Behavior) (path : Bytes) (m : Meta D)
        → outs_of (send_outcome v o b path m) ≡ page_outcome v o b path
    outcome-page (fails e) b path m = elim (Bool-cases b.rescue) [
      | inl a ↦ ap outs_of (send_outcome-rescued v e b path m a) ∙ rw a refl
      | inr a ↦ ap outs_of (send_outcome-failed v e b path m a) ∙ rw a refl
    ]
    outcome-page (gives c) b path m =
        outs_of-bind (send_content v c path true _) _ (λ out. ok (some out)) (λ x. refl)
        ∙ ap (λ r. r >>= λ out. ok (some out)) (content-page c path true _)
    outcome-page (scrolls pg c) b path m =
        outs_of-bind (send_content v c path true _) _ (λ out. ok (some out)) (λ x. refl)
        ∙ ap (λ r. r >>= λ out. ok (some out)) (content-page c path true _)

  -- What goes out with a full visit is the page's data and its props, at every depth, but those that are missing, Optional or
  -- deferred, those that failed and are rescued, and, on a visit of Inertia's client, the once props that it has and may keep. It fails as the
  -- first prop of them does that failed and is not rescued.
  pub level-page_entries :
      (es : Entries D E) (prefix : Bytes) (pr : Bool) (m : Meta D)
      → outs_of (level v es prefix pr m) ≡ page_entries v es prefix
  unfolding level
  level-page_entries es prefix pr m = entries-page es prefix pr (note_level v es prefix m)
