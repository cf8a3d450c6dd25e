-- ===== src/Broadcast/Hub/Alone.antt =====
-- What one subscriber of a Hub sees of the operations on it (broadcast/broadcast.go).
use mathlib.Core.List.{append_assoc}
use tug.Common.{
  ℕ, List, [], ◌∷◌, ◌++◌, Bool, true, false, Option, none, some, Bytes, ◌==◌, if◌then◌else◌,
  get_elem?, ◌≡◌, ◌≢◌, refl, sym, ap, ◌∙◌, subst, Bool-cases, Option-cases, List-cases, inl, inr,
  arith, get_elem?-set_self, get_elem?-set_ne, get_elem?-map, get_elem?-append_left,
}
use tug.Broadcast.Hub.{
  Event, Subscriber, Hub, subscribe, drop, follows, send, received, change, receive, read_event,
  deliver, Op, subscribes, delivers, ends, receives, stops, step, run,
}

-- What a subscriber got by an operation that returned an event, or none.
unfoldable pub got_by : ℕ → Op → Option Event → List Event
got_by i (receives j) (some e) = if i == j then e ∷ [] else []
got_by i _ _ = []

module _ (unmarshal : Bytes → Option Event) where
  -- The events on some channels, as they are delivered.
  unfoldable pub published_by : List Bytes → Op → List Event
  published_by channels (delivers b) = elim (read_event unmarshal b) [
    | none ↦ []
    | some e ↦ if follows channels e.channel then e ∷ [] else []
  ]
  published_by channels _ = []

  unfoldable pub published : List Bytes → List Op → List Event
  published channels [] = []
  published channels (op ∷ ops) = published_by channels op ++ published channels ops

  -- The events that a subscriber receives.
  unfoldable pub got : ℕ → Hub → List Op → List Event
  got i h [] = []
  got i h (op ∷ ops) = got_by i op (step unmarshal h op).1 ++ got i (step unmarshal h op).0 ops

  -- Whether an operation is the end of a subscriber.
  unfoldable pub is_end : ℕ → Op → Bool
  is_end i (ends j) = i == j
  is_end i stops = true
  is_end i _ = false

  -- An operation, and what is received by it, as one subscriber sees them.
  unfoldable pub alone : ℕ → Subscriber → Op → Subscriber
  alone i s (subscribes channels) = s
  alone i s (delivers b) = elim (read_event unmarshal b) [ none ↦ s | some e ↦ send e s ]
  alone i s (ends j) = if i == j then drop s else s
  alone i s (receives j) = if i == j then (received s).0 else s
  alone i s stops = drop s

  unfoldable pub heard : ℕ → Subscriber → Op → List Event
  heard i s (receives j) = if i == j then elim s.waiting [ [] ↦ [] | e ∷ es ↦ e ∷ [] ] else []
  heard i s _ = []

  unfoldable pub run_alone : ℕ → Subscriber → List Op → Subscriber
  run_alone i s [] = s
  run_alone i s (op ∷ ops) = run_alone i (alone i s op) ops

  unfoldable pub hears : ℕ → Subscriber → List Op → List Event
  hears i s [] = []
  hears i s (op ∷ ops) = heard i s op ++ hears i (alone i s op) ops

  change_self :
      (i : ℕ) (f : Subscriber → Subscriber) (h : Hub) (s : Subscriber)
      → get_elem? h i ≡ some s
      → get_elem? (change i f h) i ≡ some (f s)
  unfolding change
  change_self i f h s e = rw (change, e) (get_elem?-set_self h i (f s) s e)

  change_other :
      (i j : ℕ) (f : Subscriber → Subscriber) (h : Hub)
      → i ≢ j
      → get_elem? (change j f h) i ≡ get_elem? h i
  unfolding change
  change_other i j f h differ = elim (Option-cases (get_elem? h j)) [
    | inl n ↦ rw (change, n) refl
    | inr (s, n) ↦ rw (change, n) (get_elem?-set_ne h j i (f s) (λ e. differ (sym e)))
  ]

  receive-change : (j : ℕ) (h : Hub) → (receive j h).0 ≡ change j (λ s. (received s).0) h
  unfolding change receive
  receive-change j h = elim (Option-cases (get_elem? h j)) [
    | inl n ↦ rw (receive, change, n) refl
    | inr (s, n) ↦ rw (receive, change, n) refl
  ]

  change-alone :
      (i j : ℕ) (f : Subscriber → Subscriber) (h : Hub) (s : Subscriber)
      → get_elem? h i ≡ some s
      → get_elem? (change j f h) i ≡ some (if i == j then f s else s)
  change-alone i j f h s e = elim (Bool-cases (i == j)) [
    | inl b ↦
        let same : i ≡ j = ground arith in
        rw b (subst (λ k. get_elem? (change k f h) i ≡ some (f s)) same (change_self i f h s e))
    | inr b ↦ let differ : i ≢ j = λ x. ground arith in rw b (change_other i j f h differ ∙ e)
  ]

  receive-heard :
      (i j : ℕ) (h : Hub) (s : Subscriber)
      → get_elem? h i ≡ some s
      → got_by i (receives j) (receive j h).1 ≡ heard i s (receives j)
  unfolding got_by heard receive received
  receive-heard i j h s e = elim (Bool-cases (i == j)) [
    | inl b ↦
        let same : i ≡ j = ground arith in
        let there : get_elem? h j ≡ some s = subst (λ k. get_elem? h k ≡ some s) same e in
        let is : (receive j h).1 ≡ (received s).1 = rw (receive, there) refl in
        elim (List-cases s.waiting) [
          | inl w ↦ rw (is, received, w, b) refl
          | inr (x, xs, w) ↦ rw (is, received, w, b) refl
        ]
    | inr b ↦ elim (Option-cases (receive j h).1) [
      | inl n ↦ rw (n, b) refl
      | inr (x, n) ↦ rw (n, b) refl
    ]
  ]

  step-alone :
      (i : ℕ) (h : Hub) (s : Subscriber) (op : Op)
      → get_elem? h i ≡ some s
      → (get_elem? (step unmarshal h op).0 i ≡ some (alone i s op))
        × (got_by i op (step unmarshal h op).1 ≡ heard i s op)
  unfolding step alone heard got_by subscribe deliver change receive received
  step-alone i h s (subscribes channels) e = (get_elem?-append_left h _ i s e, refl)
  step-alone i h s (delivers b) e = elim (Option-cases (read_event unmarshal b)) [
    | inl n ↦ rw (step, deliver, alone, n) (e, refl)
    | inr (x, n) ↦ rw (step, deliver, alone, n) (get_elem?-map (send x) h i s e, refl)
  ]
  step-alone i h s (ends j) e = (change-alone i j drop h s e, refl)
  step-alone i h s (receives j) e = (
    ap (λ k. get_elem? k i) (receive-change j h) ∙ change-alone i j (λ s. (received s).0) h s e,
    receive-heard i j h s e,
  )
  step-alone i h s stops e = (get_elem?-map drop h i s e, refl)

  pub run-alone :
      (ops : List Op) (i : ℕ) (h : Hub) (s : Subscriber)
      → get_elem? h i ≡ some s
      → (get_elem? (run unmarshal h ops) i ≡ some (run_alone i s ops))
        × (got i h ops ≡ hears i s ops)
  unfolding run got run_alone hears
  run-alone [] i h s e = (e, refl)
  run-alone (op ∷ ops) i h s e =
      let (now, heard_now) = step-alone i h s op e in
      let (after, later) = run-alone ops i (step unmarshal h op).0 (alone i s op) now in
      (after, rw (heard_now, later) refl)

  pub alone-channels : (i : ℕ) (s : Subscriber) (op : Op) → (alone i s op).channels ≡ s.channels
  unfolding alone send drop received
  alone-channels i s (subscribes channels) = refl
  alone-channels i s (delivers b) = ground arith
  alone-channels i s (ends j) = ground arith
  alone-channels i s (receives j) = ground arith
  alone-channels i s stops = refl

  -- A closed subscriber gets what waits for it, and no more.
  closed-alone :
      (i : ℕ) (s : Subscriber) (op : Op)
      → s.is_open ≡ false
      → ((alone i s op).is_open ≡ false) × (heard i s op ++ (alone i s op).waiting ≡ s.waiting)
  unfolding alone heard send drop received
  closed-alone i s (subscribes channels) c = (c, refl)
  closed-alone i s (delivers b) c = ground arith
  closed-alone i s (ends j) c = ground arith
  closed-alone i s (receives j) c = ground arith
  closed-alone i s stops c = (refl, refl)

  pub closed-hears :
      (ops : List Op) (i : ℕ) (s : Subscriber)
      → s.is_open ≡ false
      → ((run_alone i s ops).is_open ≡ false)
        × (hears i s ops ++ (run_alone i s ops).waiting ≡ s.waiting)
  unfolding run_alone hears
  closed-hears [] i s c = (c, refl)
  closed-hears (op ∷ ops) i s c =
      let (closed, now) = closed-alone i s op c in
      let (after, later) = closed-hears ops i (alone i s op) closed in
      (after, append_assoc (heard i s op) _ _ ∙ (ap (λ x. heard i s op ++ x) later ∙ now))
