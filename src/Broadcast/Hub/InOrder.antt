-- ===== src/Broadcast/Hub/InOrder.antt =====
-- Which of the events on its channels a subscriber gets (broadcast/broadcast.go).
use mathlib.Core.List.{append_assoc, append-nil}
use tug.Common.{
  ℕ, List, [], ◌∷◌, ◌++◌, Bool, true, false, ◌||◌, Option, some, Bytes, any, ltb, ◌==◌,
  if◌then◌else◌, get_elem?, length, ◌≡◌, refl, sym, ap, ◌∙◌, subst, Bool-cases, Option-cases, inl,
  inr, arith, ◌≤◌, ◌<◌, get_elem?-append_last, length-append, or_false_split,
}
use tug.Broadcast.Hub.{
  Event, Subscriber, Hub, room, subscribe, drop, follows, send, received, read_event, Op,
  subscribes, delivers, ends, receives, stops, run,
}
use tug.Broadcast.Hub.Alone.{
  published_by, published, got, is_end, alone, heard, run_alone, hears, run-alone, alone-channels,
  closed-hears,
}

-- Of the events that are due to a subscriber, those it has got and those that wait for it come first, and the others are
-- missed: none is while it is open, and it is closed only where it has ended or more than 16 were due.
pub record Told (due taken : List Event) (ended : Bool) (s : Subscriber) : Type 0 where
  pub missed : List Event
  pub whole : taken ++ (s.waiting ++ missed) ≡ due
  pub none_missed : s.is_open ≡ true → missed ≡ []
  pub fits : length s.waiting ≤ 16
  pub fell_behind : s.is_open ≡ false → ended ≡ false → 16 < length due

module _ (unmarshal : Bytes → Option Event) where
  Told-then :
      (due before : List Event) (ended : Bool) (s : Subscriber) (pubs later : List Event)
      (ended' : Bool) (s' : Subscriber)
      → Told due before ended s
      → s.is_open ≡ true
      → Told (s.waiting ++ pubs) later ended' s'
      → Told (due ++ pubs) (before ++ later) (ended || ended') s'
  Told-then due before ended s pubs later ended' s' t o r =
      let none_yet : s.waiting ++ t.missed ≡ s.waiting =
        ap (λ x. s.waiting ++ x) (t.none_missed o) ∙ append-nil s.waiting in
      let all : before ++ s.waiting ≡ due = ap (λ x. before ++ x) (sym none_yet) ∙ t.whole in
      record {
        missed = r.missed;
        whole =
            append_assoc before later _
            ∙ (ap (λ x. before ++ x) r.whole
                ∙ (sym (append_assoc before s.waiting pubs) ∙ ap (λ x. x ++ pubs) all));
        none_missed = r.none_missed;
        fits = r.fits;
        fell_behind = λ c e.
            let behind = r.fell_behind c (or_false_split ended ended' e).1 in
            let sizes = ap (λ x. length x) all in
            omega (
              arith,
              behind,
              sizes,
              length-append due pubs,
              length-append s.waiting pubs,
              length-append before s.waiting,
            );
      }

  Told-closed :
      (due before : List Event) (ended : Bool) (s : Subscriber) (pubs later : List Event)
      (ended' : Bool) (s' : Subscriber)
      → Told due before ended s
      → s.is_open ≡ false
      → (s'.is_open ≡ false) × (later ++ s'.waiting ≡ s.waiting)
      → Told (due ++ pubs) (before ++ later) (ended || ended') s'
  Told-closed due before ended s pubs later ended' s' t o (c, rest) = record {
    missed = t.missed ++ pubs;
    whole =
        append_assoc before later _
        ∙ (ap (λ x. before ++ x)
              (sym (append_assoc later s'.waiting _)
                ∙ (ap (λ x. x ++ (t.missed ++ pubs)) rest
                    ∙ sym (append_assoc s.waiting t.missed pubs)))
            ∙ (sym (append_assoc before (s.waiting ++ t.missed) pubs)
                ∙ ap (λ x. x ++ pubs) t.whole));
    none_missed = λ x. let no_way : true ≡ false = sym x ∙ c in cc;
    fits =
        let sizes = ap (λ x. length x) rest in
        let less = t.fits in omega (arith, length-append later s'.waiting);
    fell_behind = λ x e.
        let behind = t.fell_behind o (or_false_split ended ended' e).0 in
        omega (arith, length-append due pubs);
  }

  Told-same :
      (s : Subscriber) (ended : Bool)
      → s.is_open ≡ true
      → length s.waiting ≤ 16
      → Told (s.waiting ++ []) [] ended s
  Told-same s ended o f = record {
    missed = [];
    whole = refl;
    none_missed = λ x. refl;
    fits = f;
    fell_behind = λ c e. let no_way : true ≡ false = sym o ∙ c in cc;
  }

  Told-drop : (s : Subscriber) → length s.waiting ≤ 16 → Told (s.waiting ++ []) [] true (drop s)
  unfolding drop
  Told-drop s f = record {
    missed = [];
    whole = refl;
    none_missed = λ x. refl;
    fits = f;
    fell_behind = λ c e. cc;
  }

  Told-sent :
      (s : Subscriber) (e : Event)
      → s.is_open ≡ true
      → follows s.channels e.channel ≡ true
      → length s.waiting ≤ 16
      → Told (s.waiting ++ e ∷ []) [] false (send e s)
  unfolding send drop
  Told-sent s e o b f = elim (Bool-cases (ltb (length s.waiting) room)) [
    | inl r ↦
        let is : send e s
            ≡ record { channels = s.channels; waiting = s.waiting ++ e ∷ []; is_open = true } =
          rw (o, b, r) refl in
        subst (λ x. Told (s.waiting ++ e ∷ []) [] false x) (sym is)
          (record {
            missed = [];
            whole = append-nil (s.waiting ++ e ∷ []);
            none_missed = λ x. refl;
            fits =
                let less : length s.waiting < 16 = ground arith in
                omega (arith, length-append s.waiting (e ∷ []));
            fell_behind = λ c x. cc;
          })
    | inr r ↦
        let is : send e s ≡ drop s = rw (o, b, r) refl in
        subst (λ x. Told (s.waiting ++ e ∷ []) [] false x) (sym is)
          (record {
            missed = e ∷ [];
            whole = refl;
            none_missed = λ x. cc;
            fits = f;
            fell_behind = λ c x.
                let full : 16 ≤ length s.waiting = ground arith in
                omega (arith, length-append s.waiting (e ∷ []));
          })
  ]

  Told-send :
      (s : Subscriber) (e : Event)
      → s.is_open ≡ true
      → length s.waiting ≤ 16
      → Told
          (s.waiting ++ (if follows s.channels e.channel then e ∷ [] else []))
          []
          false
          (send e s)
  unfolding send drop
  Told-send s e o f = elim (Bool-cases (follows s.channels e.channel)) [
    | inr b ↦
        let is : send e s ≡ s = rw (o, b) refl in
        subst
          (λ x.
            Told (s.waiting ++ (if follows s.channels e.channel then e ∷ [] else [])) [] false x)
          (sym is) (rw b (Told-same s false o f))
    | inl b ↦
        let is : (if follows s.channels e.channel then e ∷ [] else []) ≡ e ∷ [] = rw b refl in
        subst (λ x. Told (s.waiting ++ x) [] false (send e s)) (sym is) (Told-sent s e o b f)
  ]

  Told-received :
      (channels : List Bytes) (waiting : List Event) (is_open : Bool)
      → is_open ≡ true
      → length waiting ≤ 16
      → Told
          (waiting ++ [])
          (elim waiting [ [] ↦ [] | e ∷ es ↦ e ∷ [] ])
          false
          (received (record { channels = channels; waiting = waiting; is_open = is_open })).0
  unfolding received
  Told-received channels [] is_open o f =
      Told-same (record { channels = channels; waiting = []; is_open = is_open }) false o f
  Told-received channels (e ∷ es) is_open o f = record {
    missed = [];
    whole = refl;
    none_missed = λ x. refl;
    fits = omega arith;
    fell_behind = λ c x. let no_way : true ≡ false = sym o ∙ c in cc;
  }

  Told-alone :
      (i : ℕ) (s : Subscriber) (op : Op)
      → s.is_open ≡ true
      → length s.waiting ≤ 16
      → Told
          (s.waiting ++ published_by unmarshal s.channels op)
          (heard unmarshal i s op)
          (is_end unmarshal i op)
          (alone unmarshal i s op)
  unfolding alone heard published_by is_end received
  Told-alone i s (subscribes channels) o f = Told-same s false o f
  Told-alone i s (delivers b) o f = elim (Option-cases (read_event unmarshal b)) [
    | inl n ↦
        let is : alone unmarshal i s (delivers b) ≡ s = rw (alone, n) refl in
        let pubs : published_by unmarshal s.channels (delivers b) ≡ [] =
          rw (published_by, n) refl in
        subst (λ x. Told (s.waiting ++ published_by unmarshal s.channels (delivers b)) [] false x)
          (sym is)
          (subst (λ x. Told (s.waiting ++ x) [] false s) (sym pubs) (Told-same s false o f))
    | inr (e, n) ↦
        let is : alone unmarshal i s (delivers b) ≡ send e s = rw (alone, n) refl in
        let pubs : published_by unmarshal s.channels (delivers b)
            ≡ (if follows s.channels e.channel then e ∷ [] else []) =
          rw (published_by, n) refl in
        subst (λ x. Told (s.waiting ++ published_by unmarshal s.channels (delivers b)) [] false x)
          (sym is)
          (subst (λ x. Told (s.waiting ++ x) [] false (send e s)) (sym pubs) (Told-send s e o f))
  ]
  Told-alone i s (ends j) o f = elim (Bool-cases (i == j)) [
    | inl b ↦ rw b (Told-drop s f)
    | inr b ↦ rw b (Told-same s false o f)
  ]
  Told-alone i s (receives j) o f = elim (Bool-cases (i == j)) [
    | inr b ↦ rw b (Told-same s false o f)
    | inl b ↦ rw b (Told-received s.channels s.waiting s.is_open o f)
  ]
  Told-alone i s stops o f = Told-drop s f

  hears-Told :
      (ops : List Op) (i : ℕ) (s : Subscriber)
      → s.is_open ≡ true
      → length s.waiting ≤ 16
      → Told
          (s.waiting ++ published unmarshal s.channels ops)
          (hears unmarshal i s ops)
          (any (is_end unmarshal i) ops)
          (run_alone unmarshal i s ops)
  unfolding hears published run_alone
  hears-Told [] i s o f = Told-same s false o f
  hears-Told (op ∷ ops) i s o f =
      let now = Told-alone i s op o f in
      let pubs = published unmarshal s.channels ops in
      let whole = append_assoc s.waiting (published_by unmarshal s.channels op) pubs in
      subst
        (λ x.
          Told x (hears unmarshal i s (op ∷ ops)) (any (is_end unmarshal i) (op ∷ ops))
            (run_alone unmarshal i s (op ∷ ops)))
        whole
        elim (Bool-cases (alone unmarshal i s op).is_open) [
          | inr c ↦
              Told-closed _ _ (is_end unmarshal i op) (alone unmarshal i s op) pubs
                (hears unmarshal i (alone unmarshal i s op) ops) (any (is_end unmarshal i) ops) _
                now c (closed-hears unmarshal ops i (alone unmarshal i s op) c)
          | inl c ↦
              Told-then _ _ (is_end unmarshal i op) (alone unmarshal i s op) pubs
                (hears unmarshal i (alone unmarshal i s op) ops) (any (is_end unmarshal i) ops) _
                now c
                (subst
                  (λ x.
                    Told ((alone unmarshal i s op).waiting ++ published unmarshal x ops)
                      (hears unmarshal i (alone unmarshal i s op) ops)
                      (any (is_end unmarshal i) ops)
                      (run_alone unmarshal i (alone unmarshal i s op) ops))
                  (alone-channels unmarshal i s op)
                  (hears-Told ops i (alone unmarshal i s op) c now.fits))
        ]

  -- Whatever happens to a Hub after Subscribe, the events published on the channels of the new subscriber from then on are, in their
  -- order: those it received, then those that wait for it, of which there are at most 16, then those it missed. It misses none while
  -- its Go channel is open, and unless its context or the Store's Listen has ended, that is closed only
  -- where more than 16 events were published for it.
  pub subscribe-Told :
      (h : Hub) (channels : List Bytes) (ops : List Op)
      → (s : Subscriber) × (get_elem? (run unmarshal (subscribe h channels) ops) (length h)
          ≡ some s)
        × Told
            (published unmarshal channels ops)
            (got unmarshal (length h) (subscribe h channels) ops)
            (any (is_end unmarshal (length h)) ops)
            s
  unfolding subscribe
  subscribe-Told h channels ops =
      let new : Subscriber = record { channels = channels; waiting = []; is_open = true } in
      let (there, heard_all) =
        run-alone unmarshal ops (length h) (subscribe h channels) new
          (get_elem?-append_last h new) in
      (
        run_alone unmarshal (length h) new ops,
        there,
        subst
            (λ x.
              Told (published unmarshal channels ops) x (any (is_end unmarshal (length h)) ops)
                (run_alone unmarshal (length h) new ops))
            (sym heard_all) (hears-Told ops (length h) new refl (omega arith)),
      )
