-- ===== src/Inertia/Resolver/Shows.antt =====
-- What the resolver sees go out is in what goes out (inertia/props.go).
use tug.Common.{
  [], Bool, true, false, not, ◌&&◌, ◌||◌, Option, none, some, Bytes, str_eq, any, ◌≡◌, refl, sym,
  ◌∙◌, subst, arith, Bool-cases, inl, inr, ◌⊎◌, Ensures, Ensures-bind, Ensures-weaken,
}
use tug.Inertia.Props.{
  Behavior, Content, Entries, Outcome, plain, holds, end, data_entry, prop_entry, fails, gives,
  scrolls,
}
use tug.Inertia.Notes.{
  Visit, Meta, Seen, left_out, collect, note_left_out, see, note_rescued, collect_scroll, path_of,
}
use tug.Inertia.Resolver.{
  Out, Outs, json, object, nothing, put, put_any, then_put, asked, kept, note_prop, note_level,
  see_data, send_content, send_entries, send_outcome, level,
}
use tug.Inertia.Resolver.Reaches.{
  send_entries-data_asked, send_entries-data_not_asked, send_entries-prop_kept,
  send_entries-prop_not_kept, send_outcome-rescued, send_outcome-failed,
}
use tug.Inertia.Resolver.Paths.{was_sent, any-append_one}

-- Whether the entries below a prefix have one at a path, at any depth.
unfoldable mutual
  pub outs_have : {D : Type 0} → (p prefix : Bytes) → Outs D → Bool
  outs_have p prefix nothing = false
  outs_have p prefix (put key out outs) =
      (str_eq (path_of prefix key) p || out_has p (path_of prefix key) out)
      || outs_have p prefix outs

  pub out_has : {D : Type 0} → (p path : Bytes) → Out D → Bool
  out_has p path (json d) = false
  out_has p path (object outs) = outs_have p path outs

any_has : {D : Type 0} → (p path : Bytes) → Option (Out D) → Bool
any_has p path none = false
any_has p path (some out) = str_eq path p || out_has p path out

abbrev pub is_rescued : {D : Type 0} → (p : Bytes) → Meta D → Bool
is_rescued p m = any (λ q. str_eq q p) m.rescued

-- What a walk saw go out goes out, or is rescued; and what was rescued stays so.
abbrev pub Shown : {D A : Type 0} → (p : Bytes) → Meta D → (A → Bool) → A × Meta D → Type 0
Shown p m has x =
    (was_sent p x.1 ≡ true → (was_sent p m ≡ true) ⊎ ((has x.0 || is_rescued p x.1) ≡ true))
    × (is_rescued p m ≡ true → is_rescued p x.1 ≡ true)

or_right : (a b c : Bool) → (b || c) ≡ true → ((a || b) || c) ≡ true
or_right a b c h = ground arith

or_left : (a b c d : Bool) → (a || c) ≡ true → (c ≡ true → d ≡ true) → ((a || b) || d) ≡ true
or_left true b c d h k = refl
or_left false b c d h k = let x : d ≡ true = k h in rw x (ground arith)

or_cases : (a b : Bool) → (a || b) ≡ true → (a ≡ true) ⊎ (b ≡ true)
or_cases true b h = inl refl
or_cases false b h = inr h

or_first : (a b c : Bool) → a ≡ true → ((a || b) || c) ≡ true
or_first a b c h = rw h refl

or_skip : (a b c : Bool) → (b || c) ≡ true → ((a || b) || c) ≡ true
or_skip a b c h = ground arith

module _ {D : Type 0} (p : Bytes) (v : Visit) where
  see-was_sent :
      (s : Seen) (m : Meta D) → was_sent p (see v s m) ≡ (was_sent p m || str_eq s.path p)
  unfolding see
  see-was_sent s m = any-append_one (λ (s : Seen). str_eq s.path p) m.saw s

  -- What is seen after a walk, of what it gives.
  see-Shown :
      (path : Bytes) (s : Seen) (m n : Meta D) (out : Out D)
      → s.path ≡ path
      → Shown p m (out_has p path) (out, n)
      → Shown p m (any_has p path) (some out, see v s n)
  unfolding see any_has
  see-Shown path s m n out e (q, mono) = (
    λ h. elim (or_cases _ _ (sym (see-was_sent s n) ∙ h)) [
      | inr here ↦ inr (
          or_first (str_eq path p) (out_has p path out) (is_rescued p n)
            (subst (λ t. str_eq t p ≡ true) e here))
      | inl old ↦ elim (q old) [
        | inl z ↦ inl z
        | inr t ↦ inr (or_skip (str_eq path p) (out_has p path out) (is_rescued p n) t)
      ]
    ],
    mono,
  )

  see_data-Shown :
      (prefix path : Bytes) (m n : Meta D) (out : Out D)
      → Shown p m (out_has p path) (out, n)
      → Shown p m (any_has p path) (some out, see_data v prefix path n)
  unfolding see_data any_has
  see_data-Shown prefix path m n out s = elim (Bool-cases (str_eq prefix [])) [
    | inl a ↦ rw a (see-Shown path _ m n out refl s)
    | inr a ↦ rw a (
      λ h. elim (s.0 h) [
        | inl z ↦ inl z
        | inr t ↦ inr (or_skip (str_eq path p) (out_has p path out) (is_rescued p n) t)
      ],
      s.1,
    )
  ]

  rescued-Shown :
      (path : Bytes) (s : Seen) (m : Meta D)
      → s.path ≡ path
      → Shown p m (any_has {D = D} p path) (none, see v s (note_rescued v path m))
  unfolding see note_rescued any_has
  rescued-Shown path s m e =
      let more = any-append_one (λ q. str_eq q p) m.rescued path in
      (
        λ h. elim (or_cases _ _ (sym (see-was_sent s m) ∙ h)) [
          | inl old ↦ inl old
          | inr here ↦
              let x : str_eq path p ≡ true = subst (λ t. str_eq t p ≡ true) e here in
              inr (more ∙ rw x (ground arith))
        ],
        λ h. more ∙ rw h refl,
      )

  note_level_same :
      {E : Type 0}
      → (f : Meta D → Bool)
      → ((b : Behavior) (path : Bytes) (m : Meta D) → f (note_left_out v b path m) ≡ f m)
      → (es : Entries D E) (prefix : Bytes) (m : Meta D) → f (note_level v es prefix m) ≡ f m
  unfolding note_level note_prop
  note_level_same f k end prefix m = refl
  note_level_same f k (data_entry key c es) prefix m = note_level_same f k es prefix m
  note_level_same f k (prop_entry key missing b o es) prefix m =
      note_level_same f k es prefix _
      ∙ elim (Bool-cases (not missing && (not v.partial && left_out v b (path_of prefix key)))) [
        | inl a ↦ rw (note_prop, a) (k b (path_of prefix key) m)
        | inr a ↦ rw (note_prop, a) refl
      ]

module _ {D E : Type 0} (p : Bytes) (v : Visit) where
  then_put-Shown :
      (prefix key : Bytes) (es : Entries D E) (pr : Bool) (m n : Meta D) (out : Option (Out D))
      → Shown p m (any_has p (path_of prefix key)) (out, n)
      → Ensures (Shown p n (outs_have p prefix)) (send_entries v es prefix pr n)
      → Ensures
          (Shown p m (outs_have p prefix))
          (then_put key (send_entries v es prefix pr) (out, n))
  unfolding then_put put_any any_has outs_have
  then_put-Shown prefix key es pr m n out (h, mono) r =
      Ensures-bind (Shown p n (outs_have p prefix)) (Shown p m (outs_have p prefix))
        (send_entries v es prefix pr n) _ r
        λ (outs, k) (q, mono'). (
          λ s. elim (q s) [
            | inr t ↦ inr (put_right prefix key out outs _ t)
            | inl sn ↦ elim (h sn) [
              | inl z ↦ inl z
              | inr t ↦ inr (put_left prefix key out outs _ _ t mono')
            ]
          ],
          λ a. mono' (mono a),
        )
    where
      put_right :
          (prefix key : Bytes) (out : Option (Out D)) (outs : Outs D) (c : Bool)
          → (outs_have p prefix outs || c) ≡ true
          → (outs_have p prefix (put_any key out outs) || c) ≡ true
      put_right prefix key none outs c t = t
      put_right prefix key (some out) outs c t =
          or_right (str_eq (path_of prefix key) p || out_has p (path_of prefix key) out)
            (outs_have p prefix outs) c t

      put_left :
          (prefix key : Bytes) (out : Option (Out D)) (outs : Outs D) (c d : Bool)
          → (any_has p (path_of prefix key) out || c) ≡ true
          → (c ≡ true → d ≡ true)
          → (outs_have p prefix (put_any key out outs) || d) ≡ true
      put_left prefix key none outs c d t k = let x : d ≡ true = k t in rw x (ground arith)
      put_left prefix key (some out) outs c d t k =
          or_left (str_eq (path_of prefix key) p || out_has p (path_of prefix key) out)
            (outs_have p prefix outs) c d t k

  note_level-Shown :
      (es : Entries D E) (prefix : Bytes) (pr : Bool) (m : Meta D)
      → Ensures
          (Shown p (note_level v es prefix m) (outs_have p prefix))
          (send_entries v es prefix pr (note_level v es prefix m))
      → Ensures
          (Shown p m (outs_have p prefix))
          (send_entries v es prefix pr (note_level v es prefix m))
  unfolding note_left_out collect
  note_level-Shown es prefix pr m r =
      Ensures-weaken (Shown p (note_level v es prefix m) (outs_have p prefix))
        (Shown p m (outs_have p prefix)) (send_entries v es prefix pr (note_level v es prefix m))
        (λ x (q, mono). (
          λ s. elim (q s) [
            | inl z ↦
                inl (sym (note_level_same p v (was_sent p) (λ b path m. refl) es prefix m) ∙ z)
            | inr t ↦ inr t
          ],
          λ a. mono (note_level_same p v (is_rescued p) (λ b path m. refl) es prefix m ∙ a),
        ))
        r

  mutual
    unfolding send_content out_has collect collect_scroll

    content-Shown :
        (c : Content D E) (path : Bytes) (pr : Bool) (m : Meta D)
        → Ensures (Shown p m (out_has p path)) (send_content v c path pr m)
    content-Shown (plain d) path pr m = (λ s. inl s, λ a. a)
    content-Shown (holds es) path pr m =
        Ensures-bind (Shown p m (outs_have p path)) (Shown p m (out_has p path))
          (send_entries v es path pr (note_level v es path m)) _
          (note_level-Shown es path pr m (entries-Shown es path pr (note_level v es path m)))
          λ x q. q

    pub entries-Shown :
        (es : Entries D E) (prefix : Bytes) (pr : Bool) (m : Meta D)
        → Ensures (Shown p m (outs_have p prefix)) (send_entries v es prefix pr m)
    entries-Shown end prefix pr m = (λ s. inl s, λ a. a)
    entries-Shown (data_entry key c es) prefix pr m =
        let path = path_of prefix key in
        elim (Bool-cases (asked v false path pr)) [
          | inr a ↦
              subst (λ r. Ensures (Shown p m (outs_have p prefix)) r)
                (sym (send_entries-data_not_asked v key c es prefix pr m a))
                (entries-Shown es prefix pr m)
          | inl a ↦
              subst (λ r. Ensures (Shown p m (outs_have p prefix)) r)
                (sym (send_entries-data_asked v key c es prefix pr m a))
                (Ensures-bind (Shown p m (out_has p path)) (Shown p m (outs_have p prefix))
                  (send_content v c path pr m) _ (content-Shown c path pr m)
                  λ (out, n) q.
                    then_put-Shown prefix key es pr m (see_data v prefix path n) (some out)
                      (see_data-Shown p v prefix path m n out q)
                      (entries-Shown es prefix pr (see_data v prefix path n)))
        ]
    entries-Shown (prop_entry key missing b o es) prefix pr m =
        let path = path_of prefix key in
        elim (Bool-cases (kept v missing b path pr)) [
          | inr a ↦
              subst (λ r. Ensures (Shown p m (outs_have p prefix)) r)
                (sym (send_entries-prop_not_kept v key missing b o es prefix pr m a))
                (entries-Shown es prefix pr m)
          | inl a ↦
              subst (λ r. Ensures (Shown p m (outs_have p prefix)) r)
                (sym (send_entries-prop_kept v key missing b o es prefix pr m a))
                (Ensures-bind (Shown p m (any_has p path)) (Shown p m (outs_have p prefix))
                  (send_outcome v o b path m) _ (outcome-Shown o b path m)
                  λ (out, n) q.
                    then_put-Shown prefix key es pr m n out q (entries-Shown es prefix pr n))
        ]

    outcome-Shown :
        (o : Outcome D E) (b : Behavior) (path : Bytes) (m : Meta D)
        → Ensures (Shown p m (any_has p path)) (send_outcome v o b path m)
    outcome-Shown (fails e) b path m = elim (Bool-cases b.rescue) [
      | inl a ↦
          subst (λ r. Ensures (Shown p m (any_has p path)) r)
            (sym (send_outcome-rescued v e b path m a)) (rescued-Shown p v path _ m refl)
      | inr a ↦
          subst (λ r. Ensures (Shown p m (any_has {D = D} p path)) r)
            (sym (send_outcome-failed v e b path m a)) tt
    ]
    outcome-Shown (gives c) b path m =
        Ensures-bind (Shown p m (out_has p path)) (Shown p m (any_has p path))
          (send_content v c path true _) _ (content-Shown c path true _)
          λ (out, n) q. see-Shown p v path _ m n out refl q
    outcome-Shown (scrolls pg c) b path m =
        Ensures-bind (Shown p m (out_has p path)) (Shown p m (any_has p path))
          (send_content v c path true _) _ (content-Shown c path true _)
          λ (out, n) q. see-Shown p v path _ m n out refl q

  pub level-Shown :
      (es : Entries D E) (prefix : Bytes) (pr : Bool) (m : Meta D)
      → Ensures (Shown p m (outs_have p prefix)) (level v es prefix pr m)
  unfolding level
  level-Shown es prefix pr m =
      note_level-Shown es prefix pr m (entries-Shown es prefix pr (note_level v es prefix m))
