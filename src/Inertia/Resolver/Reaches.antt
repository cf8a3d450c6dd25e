-- ===== src/Inertia/Resolver/Reaches.antt =====
-- What every note of the resolver keeps, the whole walk of a page's props keeps (inertia/props.go).
use tug.Common.{
  [], Bool, true, false, not, ◌&&◌, Option, none, some, Bytes, str_eq, Result, ok, err, ◌>>=◌, ◌≡◌,
  refl, sym, subst, Bool-cases, inl, inr, Ensures, Ensures-bind,
}
use tug.Inertia.Props.{
  Behavior, Paging, Content, Entries, Outcome, plain, holds, end, data_entry, prop_entry, fails,
  gives, scrolls,
}
use tug.Inertia.Notes.{
  Visit, Meta, Seen, left_out, collect, note_left_out, see, note_rescued, collect_scroll, path_of,
}
use tug.Inertia.Resolver.{
  Out, Outs, PropFailed, then_put, asked, kept, note_prop, note_level, see_data, send_content,
  send_entries, send_outcome, prop_failed,
}

module _ {D E : Type 0} (v : Visit) where
  -- The second loop, on each branch.
  pub send_entries-data_asked :
      (key : Bytes) (c : Content D E) (es : Entries D E) (prefix : Bytes) (pr : Bool) (m : Meta D)
      → asked v false (path_of prefix key) pr ≡ true
      → send_entries v (data_entry key c es) prefix pr m ≡ (
          send_content v c (path_of prefix key) pr m >>= λ (out, n).
          then_put key
            (send_entries v es prefix pr)
            (some out, see_data v prefix (path_of prefix key) n))
  unfolding send_entries
  send_entries-data_asked key c es prefix pr m a = rw (send_entries, a) refl

  pub send_entries-data_not_asked :
      (key : Bytes) (c : Content D E) (es : Entries D E) (prefix : Bytes) (pr : Bool) (m : Meta D)
      → asked v false (path_of prefix key) pr ≡ false
      → send_entries v (data_entry key c es) prefix pr m ≡ send_entries v es prefix pr m
  unfolding send_entries
  send_entries-data_not_asked key c es prefix pr m a = rw (send_entries, a) refl

  pub send_entries-prop_kept :
      (key : Bytes) (missing : Bool) (b : Behavior) (o : Outcome D E) (es : Entries D E)
      (prefix : Bytes) (pr : Bool) (m : Meta D)
      → kept v missing b (path_of prefix key) pr ≡ true
      → send_entries v (prop_entry key missing b o es) prefix pr m
        ≡ (send_outcome v o b (path_of prefix key) m >>= then_put key (send_entries v es prefix pr))
  unfolding send_entries
  send_entries-prop_kept key missing b o es prefix pr m a = rw (send_entries, a) refl

  pub send_entries-prop_not_kept :
      (key : Bytes) (missing : Bool) (b : Behavior) (o : Outcome D E) (es : Entries D E)
      (prefix : Bytes) (pr : Bool) (m : Meta D)
      → kept v missing b (path_of prefix key) pr ≡ false
      → send_entries v (prop_entry key missing b o es) prefix pr m ≡ send_entries v es prefix pr m
  unfolding send_entries
  send_entries-prop_not_kept key missing b o es prefix pr m a = rw (send_entries, a) refl

  pub send_outcome-rescued :
      (e : E) (b : Behavior) (path : Bytes) (m : Meta D)
      → b.rescue ≡ true
      → send_outcome v {D = D} (fails e) b path m
        ≡ ok (
          none,
          see v (record { path = path; behavior = some b; rescued = true }) (note_rescued v path m),
        )
  unfolding send_entries
  send_outcome-rescued e b path m a = rw (send_outcome, a) refl

  pub send_outcome-failed :
      (e : E) (b : Behavior) (path : Bytes) (m : Meta D)
      → b.rescue ≡ false
      → send_outcome v {D = D} (fails e) b path m ≡ err (prop_failed path e)
  unfolding send_entries
  send_outcome-failed e b path m a = rw (send_outcome, a) refl

module _ {D : Type 0} (v : Visit) (P : Meta D → Type 0) where
  pub record Stable : Type 0 where
    pub noted : (b : Behavior) (path : Bytes) (m : Meta D) → P m → P (note_left_out v b path m)
    pub collected : (b : Behavior) (path : Bytes) (m : Meta D) → P m → P (collect v true b path m)
    pub scrolled : (p : Paging D) (path : Bytes) (m : Meta D) → P m → P (collect_scroll v p path m)
    pub sees : (s : Seen) (m : Meta D) → P m → P (see v s m)
    pub rescues : (path : Bytes) (m : Meta D) → P m → P (note_rescued v path m)

  note_prop-P :
      (st : Stable) (missing : Bool) (b : Behavior) (path : Bytes) (m : Meta D)
      → P m
      → P (note_prop v missing b path m)
  unfolding note_prop
  note_prop-P st missing b path m p =
      elim (Bool-cases (not missing && (not v.partial && left_out v b path))) [
        | inl a ↦ rw a (st.noted b path m p)
        | inr a ↦ rw a p
      ]

  pub see_data-P :
      (st : Stable) (prefix path : Bytes) (m : Meta D) → P m → P (see_data v prefix path m)
  unfolding see_data
  see_data-P st prefix path m p = elim (Bool-cases (str_eq prefix [])) [
    | inl a ↦ rw a (st.sees _ m p)
    | inr a ↦ rw a p
  ]

  module _ {E : Type 0} where
    -- A walk that goes through ends in notes of the kind.
    abbrev pub Ends : {A : Type 0} → Result (PropFailed E) (A × Meta D) → Type 0
    Ends r = Ensures (λ x. P x.1) r

    pub note_level-P :
        (st : Stable) (es : Entries D E) (prefix : Bytes) (m : Meta D)
        → P m
        → P (note_level v es prefix m)
    unfolding note_level
    note_level-P st end prefix m p = p
    note_level-P st (data_entry key c es) prefix m p = note_level-P st es prefix m p
    note_level-P st (prop_entry key missing b o es) prefix m p =
        note_level-P st es prefix _ (note_prop-P st missing b (path_of prefix key) m p)

    then_put-Ends :
        (key : Bytes) (rest : Meta D → Result (PropFailed E) (Outs D × Meta D))
        (out : Option (Out D)) (n : Meta D)
        → Ends (rest n)
        → Ends (then_put key rest (out, n))
    unfolding then_put
    then_put-Ends key rest out n e = Ensures-bind (λ x. P x.1) (λ x. P x.1) (rest n) _ e λ x q. q

    mutual
      unfolding send_content

      pub send_content-Ends :
          (st : Stable) (c : Content D E) (path : Bytes) (pr : Bool) (m : Meta D)
          → P m
          → Ends (send_content v c path pr m)
      send_content-Ends st (plain d) path pr m p = p
      send_content-Ends st (holds es) path pr m p =
          Ensures-bind (λ x. P x.1) (λ x. P x.1)
            (send_entries v es path pr (note_level v es path m)) _
            (send_entries-Ends st es path pr _ (note_level-P st es path m p)) λ x q. q

      pub send_entries-Ends :
          (st : Stable) (es : Entries D E) (prefix : Bytes) (pr : Bool) (m : Meta D)
          → P m
          → Ends (send_entries v es prefix pr m)
      send_entries-Ends st end prefix pr m p = p
      send_entries-Ends st (data_entry key c es) prefix pr m p =
          let path = path_of prefix key in
          let rest = send_entries v es prefix pr in
          elim (Bool-cases (asked v false path pr)) [
            | inr a ↦
                subst (λ r. Ends r) (sym (send_entries-data_not_asked v key c es prefix pr m a))
                  (send_entries-Ends st es prefix pr m p)
            | inl a ↦
                subst (λ r. Ends r) (sym (send_entries-data_asked v key c es prefix pr m a))
                  (Ensures-bind (λ x. P x.1) (λ x. P x.1) (send_content v c path pr m)
                    (λ x. then_put key rest (some x.0, see_data v prefix path x.1))
                    (send_content-Ends st c path pr m p)
                    λ x q.
                      then_put-Ends key rest (some x.0) _
                        (send_entries-Ends st es prefix pr _ (see_data-P st prefix path x.1 q)))
          ]
      send_entries-Ends st (prop_entry key missing b o es) prefix pr m p =
          let path = path_of prefix key in
          let rest = send_entries v es prefix pr in
          elim (Bool-cases (kept v missing b path pr)) [
            | inr a ↦
                subst (λ r. Ends r)
                  (sym (send_entries-prop_not_kept v key missing b o es prefix pr m a))
                  (send_entries-Ends st es prefix pr m p)
            | inl a ↦
                subst (λ r. Ends r)
                  (sym (send_entries-prop_kept v key missing b o es prefix pr m a))
                  (Ensures-bind (λ x. P x.1) (λ x. P x.1) (send_outcome v o b path m)
                    (then_put key rest) (send_outcome-Ends st o b path m p)
                    λ x q. then_put-Ends key rest x.0 x.1 (send_entries-Ends st es prefix pr x.1 q))
          ]

      pub send_outcome-Ends :
          (st : Stable) (o : Outcome D E) (b : Behavior) (path : Bytes) (m : Meta D)
          → P m
          → Ends (send_outcome v o b path m)
      send_outcome-Ends st (fails e) b path m p = elim (Bool-cases b.rescue) [
        | inl a ↦
            subst (λ r. Ends r) (sym (send_outcome-rescued v e b path m a))
              (st.sees _ _ (st.rescues path m p))
        | inr a ↦ subst (λ r. Ends r) (sym (send_outcome-failed v e b path m a)) tt
      ]
      send_outcome-Ends st (gives c) b path m p =
          Ensures-bind (λ x. P x.1) (λ x. P x.1) (send_content v c path true _) _
            (send_content-Ends st c path true _ (st.collected b path m p)) λ x q. st.sees _ x.1 q
      send_outcome-Ends st (scrolls pg c) b path m p =
          Ensures-bind (λ x. P x.1) (λ x. P x.1) (send_content v c path true _) _
            (send_content-Ends st c path true _ (st.collected b path _ (st.scrolled pg path m p)))
            λ x q. st.sees _ x.1 q
