-- ===== src/Inertia/Resolver/Fetched.antt =====
-- What the client gets that fetches a deferred prop (inertia/props.go).
use tug.Common.{
  Bool, true, false, not, ◌&&◌, Option, some, Bytes, str_eq, str_eq_iff, Result, ◌≡◌, refl, sym,
  ◌∙◌, subst, arith, Bool-cases, inl, inr, ◌⊎◌, Ensures, Ensures-bind, Ensures-any,
}
use tug.Inertia.Props.{
  Behavior, Paging, Content, Entries, Outcome, holds, end, data_entry, prop_entry, fails, gives,
  scrolls,
}
use tug.Inertia.Notes.{
  Visit, Meta, Seen, left_out, collect, note_left_out, see, note_rescued, collect_scroll, path_of,
  inside, within, path_wanted, is_nil,
}
use tug.Inertia.Resolver.{
  Out, PropFailed, then_put, asked, kept, note_prop, note_level, see_data, send_content,
  send_entries, send_outcome,
}
use tug.Inertia.Resolver.Reaches.{
  send_entries-data_asked, send_entries-data_not_asked, send_entries-prop_kept,
  send_entries-prop_not_kept, send_outcome-rescued, send_outcome-failed, Stable, send_entries-Ends,
  see_data-P,
}
use tug.Inertia.Resolver.Paths.{
  Fetches, is_named, was_sent, below_prefix, below_prefix-path_of, within-member, leads_to-member,
  any-append_one, names_path-noted, or_true_of,
}

module _ {D : Type 0} (p : Bytes) (w : Visit) where
  was_sent-Stable : Stable {D = D} w (λ m. was_sent p m ≡ true)
  unfolding note_left_out collect collect_scroll see note_rescued
  was_sent-Stable = record {
    noted = λ b path m s. s;
    collected = λ b path m s. s;
    scrolled = λ pg path m s. s;
    sees = λ x m s. any-append_one (λ (s : Seen). str_eq s.path p) m.saw x ∙ rw s refl;
    rescues = λ path m s. s;
  }

  was_sent-see :
      (path : Bytes) (b : Option Behavior) (r : Bool) (m : Meta D)
      → str_eq path p ≡ true
      → was_sent p (see w (record { path = path; behavior = b; rescued = r }) m) ≡ true
  unfolding see
  was_sent-see path b r m e =
      any-append_one (λ (s : Seen). str_eq s.path p) m.saw
        (record { path = path; behavior = b; rescued = r })
      ∙ or_true_of _ _ e

module _ (p : Bytes) (v w : Visit) (f : Fetches p v w) where
  pub inside-asked :
      (path : Bytes) (always pr : Bool) → inside p path ≡ true → asked w always path pr ≡ true
  unfolding path_wanted is_nil
  inside-asked path always pr i =
      let leads = leads_to-member p path w.only f.is_asked i in
      let nil : is_nil w.except ≡ true = rw f.none_excepted refl in
      rw (path_wanted, leads, nil) (ground arith)

  self-asked :
      (path : Bytes) (always pr : Bool) → str_eq path p ≡ true → asked w always path pr ≡ true
  unfolding path_wanted is_nil
  self-asked path always pr i =
      let here =
        subst (λ s. within s w.only ≡ true) (sym ((str_eq_iff path p).0 i))
          (within-member p w.only f.is_asked) in
      let nil : is_nil w.except ≡ true = rw f.none_excepted refl in
      rw (path_wanted, here, nil) (ground arith)

module _ {D E : Type 0} (p : Bytes) (v w : Visit) (f : Fetches p v w) where
  -- A walk of the fetch that does not fail sends the path.
  abbrev pub Sends : {A : Type 0} → (Meta D → Result (PropFailed E) (A × Meta D)) → Type 0
  Sends walk = (n : Meta D) → Ensures (λ x. was_sent p x.1 ≡ true) (walk n)

  -- If a walk of the load named the path, it had been named, or the fetch sends it.
  abbrev pub Names :
      {A B : Type 0}
      → Meta D
      → Result (PropFailed E) (A × Meta D)
      → (Meta D → Result (PropFailed E) (B × Meta D))
      → Bool
      → Type 0
  Names m load walk inner =
      Ensures (λ x. is_named p x.1 ≡ true → (is_named p m ≡ true) ⊎ (inner ≡ true) × Sends walk)
        load

  pub self-Sends :
      (o : Outcome D E) (b : Behavior) (path : Bytes)
      → str_eq path p ≡ true
      → Sends (send_outcome w o b path)
  unfolding send_entries
  self-Sends (fails e) b path i n = elim (Bool-cases b.rescue) [
    | inl a ↦
        subst (λ r. Ensures (λ x. was_sent p x.1 ≡ true) r)
          (sym (send_outcome-rescued w e b path n a)) (was_sent-see p w path (some b) true _ i)
    | inr a ↦
        subst (λ r. Ensures (λ x. was_sent p x.1 ≡ true) r)
          (sym (send_outcome-failed w e b path n a)) tt
  ]
  self-Sends (gives c) b path i n =
      Ensures-bind (λ _. Unit {0}) (λ x. was_sent p x.1 ≡ true) (send_content w c path true _) _
        (Ensures-any (send_content w c path true _))
        λ x q. was_sent-see p w path (some b) false x.1 i
  self-Sends (scrolls pg c) b path i n =
      Ensures-bind (λ _. Unit {0}) (λ x. was_sent p x.1 ≡ true) (send_content w c path true _) _
        (Ensures-any (send_content w c path true _))
        λ x q. was_sent-see p w path (some b) false x.1 i

  -- What follows keeps what was sent, and comes after anything.
  then_put-was_sent :
      (es : Entries D E) (prefix key : Bytes) (pr : Bool) (out : Option (Out D)) (n : Meta D)
      → was_sent p n ≡ true
      → Ensures (λ x. was_sent p x.1 ≡ true) (then_put key (send_entries w es prefix pr) (out, n))
  unfolding then_put
  then_put-was_sent es prefix key pr out n s =
      Ensures-bind (λ x. was_sent p x.1 ≡ true) (λ x. was_sent p x.1 ≡ true)
        (send_entries w es prefix pr n) _
        (send_entries-Ends w (λ m. was_sent p m ≡ true) (was_sent-Stable p w) es prefix pr n s)
        λ x q. q

  then_put-Sends :
      (es : Entries D E) (prefix key : Bytes) (pr : Bool) (out : Option (Out D)) (n : Meta D)
      → Sends (send_entries w es prefix pr)
      → Ensures (λ x. was_sent p x.1 ≡ true) (then_put key (send_entries w es prefix pr) (out, n))
  unfolding then_put
  then_put-Sends es prefix key pr out n s =
      Ensures-bind (λ x. was_sent p x.1 ≡ true) (λ x. was_sent p x.1 ≡ true)
        (send_entries w es prefix pr n) _ (s n) λ x q. q

  pub data-Sends :
      (key : Bytes) (c : Content D E) (es : Entries D E) (prefix : Bytes) (pr : Bool)
      → inside p (path_of prefix key) ≡ true
      → Sends (send_content w c (path_of prefix key) pr)
      → Sends (send_entries w (data_entry key c es) prefix pr)
  data-Sends key c es prefix pr i s n =
      let path = path_of prefix key in
      subst (λ r. Ensures (λ x. was_sent p x.1 ≡ true) r)
        (sym
          (send_entries-data_asked w key c es prefix pr n (inside-asked p v w f path false pr i)))
        (Ensures-bind (λ x. was_sent p x.1 ≡ true) (λ x. was_sent p x.1 ≡ true)
          (send_content w c path pr n) _ (s n)
          λ x q.
            then_put-was_sent es prefix key pr (some x.0) _ (see_data-was_sent prefix path x.1 q))
    where
      see_data-was_sent :
          (prefix path : Bytes) (m : Meta D)
          → was_sent p m ≡ true
          → was_sent p (see_data w prefix path m) ≡ true
      see_data-was_sent prefix path m s =
          see_data-P w (λ m. was_sent p m ≡ true) (was_sent-Stable p w) prefix path m s

  pub prop-Sends :
      (key : Bytes) (b : Behavior) (o : Outcome D E) (es : Entries D E) (prefix : Bytes) (pr : Bool)
      → asked w b.always (path_of prefix key) pr ≡ true
      → Sends (send_outcome w o b (path_of prefix key))
      → Sends (send_entries w (prop_entry key false b o es) prefix pr)
  prop-Sends key b o es prefix pr a s n =
      let path = path_of prefix key in
      let is_kept : kept w false b path pr ≡ true = rw (a, f.fetches) refl in
      subst (λ r. Ensures (λ x. was_sent p x.1 ≡ true) r)
        (sym (send_entries-prop_kept w key false b o es prefix pr n is_kept))
        (Ensures-bind (λ x. was_sent p x.1 ≡ true) (λ x. was_sent p x.1 ≡ true)
          (send_outcome w o b path n) _ (s n) λ x q. then_put-was_sent es prefix key pr x.0 x.1 q)

  -- The entries after one.
  pub data_rest-Sends :
      (key : Bytes) (c : Content D E) (es : Entries D E) (prefix : Bytes) (pr : Bool)
      → Sends (send_entries w es prefix pr)
      → Sends (send_entries w (data_entry key c es) prefix pr)
  data_rest-Sends key c es prefix pr s n =
      elim (Bool-cases (asked w false (path_of prefix key) pr)) [
        | inr a ↦
            subst (λ r. Ensures (λ x. was_sent p x.1 ≡ true) r)
              (sym (send_entries-data_not_asked w key c es prefix pr n a)) (s n)
        | inl a ↦
            subst (λ r. Ensures (λ x. was_sent p x.1 ≡ true) r)
              (sym (send_entries-data_asked w key c es prefix pr n a))
              (Ensures-bind (λ _. Unit {0}) (λ x. was_sent p x.1 ≡ true)
                (send_content w c (path_of prefix key) pr n) _
                (Ensures-any (send_content w c (path_of prefix key) pr n))
                λ x q. then_put-Sends es prefix key pr (some x.0) _ s)
      ]

  pub prop_rest-Sends :
      (key : Bytes) (missing : Bool) (b : Behavior) (o : Outcome D E) (es : Entries D E)
      (prefix : Bytes) (pr : Bool)
      → Sends (send_entries w es prefix pr)
      → Sends (send_entries w (prop_entry key missing b o es) prefix pr)
  prop_rest-Sends key missing b o es prefix pr s n =
      elim (Bool-cases (kept w missing b (path_of prefix key) pr)) [
        | inr a ↦
            subst (λ r. Ensures (λ x. was_sent p x.1 ≡ true) r)
              (sym (send_entries-prop_not_kept w key missing b o es prefix pr n a)) (s n)
        | inl a ↦
            subst (λ r. Ensures (λ x. was_sent p x.1 ≡ true) r)
              (sym (send_entries-prop_kept w key missing b o es prefix pr n a))
              (Ensures-bind (λ _. Unit {0}) (λ x. was_sent p x.1 ≡ true)
                (send_outcome w o b (path_of prefix key) n) _
                (Ensures-any (send_outcome w o b (path_of prefix key) n))
                λ x q. then_put-Sends es prefix key pr x.0 x.1 s)
      ]

  pub note_level-Names :
      (es : Entries D E) (prefix : Bytes) (pr : Bool) (m : Meta D)
      → is_named p (note_level v es prefix m) ≡ true
      → (is_named p m ≡ true) ⊎ (below_prefix p prefix ≡ true) × Sends (send_entries w es prefix pr)
  unfolding note_level note_prop note_left_out
  note_level-Names end prefix pr m h = inl h
  note_level-Names (data_entry key c es) prefix pr m h = elim (note_level-Names es prefix pr m h) [
    | inl e ↦ inl e
    | inr (i, s) ↦ inr (i, data_rest-Sends key c es prefix pr s)
  ]
  note_level-Names (prop_entry key missing b o es) prefix pr m h =
      let path = path_of prefix key in
      elim (note_level-Names es prefix pr (note_prop v missing b path m) h) [
        | inr (i, s) ↦ inr (i, prop_rest-Sends key missing b o es prefix pr s)
        | inl e ↦ elim (Bool-cases missing) [
          | inl a ↦ inl (rw (note_prop, a) at e)
          | inr a ↦ elim (Bool-cases (not v.partial && left_out v b path)) [
            | inr l ↦ inl (rw (note_prop, a, l) at e)
            | inl l ↦ elim (names_path-noted v b p path m.deferred (rw (note_prop, a, l) at e)) [
              | inl old ↦ inl old
              | inr self ↦ inr (
                subst (λ s. below_prefix s prefix ≡ true) ((str_eq_iff path p).0 self)
                    (below_prefix-path_of prefix key),
                subst (λ k. Sends (send_entries w (prop_entry key k b o es) prefix pr)) (sym a)
                    (prop-Sends key b o es prefix pr (self-asked p v w f path b.always pr self)
                      (self-Sends o b path self)),
              )
            ]
          ]
        ]
      ]

  pub holds-Sends :
      (es : Entries D E) (path : Bytes) (pr : Bool)
      → Sends (send_entries w es path pr)
      → Sends (send_content w (holds es) path pr)
  unfolding send_content
  holds-Sends es path pr s n =
      Ensures-bind (λ x. was_sent p x.1 ≡ true) (λ x. was_sent p x.1 ≡ true)
        (send_entries w es path pr (note_level w es path n)) _ (s (note_level w es path n)) λ x q. q

  pub gives-Sends :
      (c : Content D E) (b : Behavior) (path : Bytes)
      → Sends (send_content w c path true)
      → Sends (send_outcome w (gives c) b path)
  unfolding send_content
  gives-Sends c b path s n =
      Ensures-bind (λ x. was_sent p x.1 ≡ true) (λ x. was_sent p x.1 ≡ true)
        (send_content w c path true _) _ (s _) λ x q. st.sees _ x.1 q
    where
      st : Stable w (λ (m : Meta D). was_sent p m ≡ true)
      st = was_sent-Stable p w

  pub scrolls-Sends :
      (pg : Paging D) (c : Content D E) (b : Behavior) (path : Bytes)
      → Sends (send_content w c path true)
      → Sends (send_outcome w (scrolls pg c) b path)
  unfolding send_content
  scrolls-Sends pg c b path s n =
      Ensures-bind (λ x. was_sent p x.1 ≡ true) (λ x. was_sent p x.1 ≡ true)
        (send_content w c path true _) _ (s _) λ x q. st.sees _ x.1 q
    where
      st : Stable w (λ (m : Meta D). was_sent p m ≡ true)
      st = was_sent-Stable p w
