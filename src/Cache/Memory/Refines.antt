-- ===== src/Cache/Memory/Refines.antt =====
-- The memory store refines a map that never sweeps, as far as Get and Add can tell.
use tug.Common.{
  ℕ, ◌≤◌, ◌≡◌, refl, sym, ◌∙◌, List, [], ◌∷◌, Bool, true, false, Option, none, some, arith, Bytes,
  str_eq, str_eq_iff, lookup, if◌then◌else◌, Bool-cases, Option-cases, inl, inr,
}
use tug.Cache.Memory.{
  MemoryStore, MemoryValue, empty, saw, set, found, get, add, delete, keeps, delete_if, Op, gets,
  sets, adds, deletes, deletes_if, step, run,
}
use tug.Cache.Memory.View.{
  view, IsSane, saw-IsSane, set-IsSane, delete-IsSane, set-view, delete-view, saw-view,
}

-- What is kept under each key.
abbrev pub Kept : Type 0
Kept = Bytes → Option MemoryValue

abbrev pub put : Bytes → Option MemoryValue → Kept → Kept
put key o s = λ k. if str_eq key k then o else s k

-- The abstract store: a value is kept until it is replaced or deleted, and adds look at its time.
unfoldable pub keep_step : Kept → Op → Kept
keep_step s (gets key now) = s
keep_step s (sets key value expires) =
    put key (some (record { value = value; expires = expires })) s
keep_step s (adds key value expires now) = elim (found now (s key)) [
  | some _ ↦ s
  | none ↦ put key (some (record { value = value; expires = expires })) s
]
keep_step s (deletes key) = put key none s
keep_step s (deletes_if key value) = if keeps value (s key) then put key none s else s

unfoldable pub keep_run : Kept → List Op → Kept
keep_run s [] = s
keep_run s (op ∷ ops) = keep_run (keep_step s op) ops

-- The times that the calls of a history are given do not go back: the first is t or later, and the
-- last t' or sooner.
abbrev pub Timed : ℕ → List Op → ℕ → Type 0
Timed t [] t' = t ≤ t'
Timed t (gets key now ∷ ops) t' = (t ≤ now) × Timed now ops t'
Timed t (adds key value expires now ∷ ops) t' = (t ≤ now) × Timed now ops t'
Timed t (_ ∷ ops) t' = Timed t ops t'

-- The store at a time, and what is kept: a reader then or later sees the same.
record Agrees (t : ℕ) (m : MemoryStore) (s : Kept) : Type 0 where
  sane : IsSane t m
  same : (t' : ℕ) (k : Bytes) → t ≤ t' → view m t' k ≡ found t' (s k)

at-IsSane : (t t' : ℕ) (m : MemoryStore) → t ≤ t' → IsSane t m → IsSane t' m
at-IsSane t t' m le s =
    let past : m.now ≤ t = s.past in record { distinct = s.distinct; past = omega arith }

later-Agrees : (t t' : ℕ) (m : MemoryStore) (s : Kept) → t ≤ t' → Agrees t m s → Agrees t' m s
later-Agrees t t' m s le a = record {
  sane = at-IsSane t t' m le a.sane;
  same = λ u k l. a.same u k (omega arith);
}

saw-Agrees :
    (t now : ℕ) (m : MemoryStore) (s : Kept) → t ≤ now → Agrees t m s → Agrees now (saw m now) s
saw-Agrees t now m s le a = record {
  sane = saw-IsSane now now m (omega arith) (at-IsSane t now m le a.sane);
  same = λ u k l. saw-view u now m k ∙ a.same u k (omega arith);
}

set-Agrees :
    (t : ℕ) (m : MemoryStore) (s : Kept) (key value : Bytes) (expires : ℕ)
    → Agrees t m s
    → Agrees t
        (set m key value expires)
        (put key (some (record { value = value; expires = expires })) s)
unfolding found
set-Agrees t m s key value expires a = record {
  sane = set-IsSane t m key value expires a.sane;
  same = λ u k l.
      ground (arith, set-view u m key value expires k (at-IsSane t u m l a.sane), a.same u k l);
}

delete-Agrees :
    (t : ℕ) (m : MemoryStore) (s : Kept) (key : Bytes)
    → Agrees t m s
    → Agrees t (delete m key) (put key none s)
unfolding found
delete-Agrees t m s key a = record {
  sane = delete-IsSane t m key a.sane;
  same = λ u k l. ground (arith, delete-view u m key k, a.same u k l);
}

-- A value out of sight stays so.
out_of_sight : (t u : ℕ) (o : Option MemoryValue) → t ≤ u → found t o ≡ none → found u o ≡ none
unfolding found
out_of_sight t u none le e = refl
out_of_sight t u (some v) le e = ground arith

-- A value in sight is compared alike.
keeps-same :
    (t : ℕ) (value x : Bytes) (o p : Option MemoryValue)
    → found t o ≡ some x
    → found t o ≡ found t p
    → keeps value o ≡ keeps value p
unfolding found keeps
keeps-same t value x none p e same = cc
keeps-same t value x (some v) none e same = cc
keeps-same t value x (some v) (some w) e same = ground arith

delete_if-IsSane :
    (t : ℕ) (m : MemoryStore) (key value : Bytes) → IsSane t m → IsSane t (delete_if m key value).0
unfolding delete_if
delete_if-IsSane t m key value s = elim (Bool-cases (keeps value (lookup key m.values))) [
  | inl b ↦ rw b (delete-IsSane t m key s)
  | inr b ↦ rw b s
]

-- To delete what is out of sight is not seen.
delete_if-unseen :
    (t : ℕ) (m : MemoryStore) (key value k : Bytes)
    → view m t key ≡ none
    → view (delete_if m key value).0 t k ≡ view m t k
unfolding delete_if
delete_if-unseen t m key value k e = elim (Bool-cases (keeps value (lookup key m.values))) [
  | inl b ↦ rw b (ground (arith, delete-view t m key k, str_eq_iff key k))
  | inr b ↦ rw b refl
]

put-unseen :
    (t : ℕ) (s : Kept) (key k : Bytes) (b : Bool)
    → found t (s key) ≡ none
    → found t ((if b then put key none s else s) k) ≡ found t (s k)
unfolding found
put-unseen t s key k true e = ground (arith, str_eq_iff key k)
put-unseen t s key k false e = refl

delete_if-Agrees :
    (t : ℕ) (m : MemoryStore) (s : Kept) (key value : Bytes)
    → Agrees t m s
    → Agrees t (delete_if m key value).0 (if keeps value (s key) then put key none s else s)
unfolding delete_if
delete_if-Agrees t m s key value a = elim (Option-cases (found t (s key))) [
  | inr (x, e) ↦
      let alike : keeps value (lookup key m.values) ≡ keeps value (s key) =
        keeps-same t value x (lookup key m.values) (s key) (a.same t key (omega arith) ∙ e)
          (a.same t key (omega arith)) in
      elim (Bool-cases (keeps value (s key))) [
        | inl b ↦ rw (alike, b) (delete-Agrees t m s key a)
        | inr b ↦ rw (alike, b) a
      ]
  | inl e ↦ record {
    sane = delete_if-IsSane t m key value a.sane;
    same = λ u k l.
        let unseen : found u (s key) ≡ none = out_of_sight t u (s key) l e in
        delete_if-unseen u m key value k (a.same u key l ∙ unseen)
        ∙ a.same u k l
        ∙ sym (put-unseen u s key k (keeps value (s key)) unseen);
  }
]

add-Agrees :
    (t now : ℕ) (m : MemoryStore) (s : Kept) (key value : Bytes) (expires : ℕ)
    → t ≤ now
    → Agrees t m s
    → Agrees now (add m key value expires now).0 (keep_step s (adds key value expires now))
unfolding add keep_step
add-Agrees t now m s key value expires le a =
    let b : Agrees now (saw m now) s = saw-Agrees t now m s le a in
    let same : found now (lookup key (saw m now).values) ≡ found now (s key) =
      b.same now key (omega arith) in
    elim (Option-cases (found now (s key))) [
      | inl e ↦ rw (same, e, add, keep_step) (set-Agrees now (saw m now) s key value expires b)
      | inr (x, e) ↦ rw (same, e, add, keep_step) b
    ]

run-Agrees :
    (t t' : ℕ) (m : MemoryStore) (s : Kept) (ops : List Op)
    → Timed t ops t'
    → Agrees t m s
    → Agrees t' (run m ops) (keep_run s ops)
unfolding run step keep_run keep_step get
run-Agrees t t' m s [] timed a = later-Agrees t t' m s timed a
run-Agrees t t' m s (gets key now ∷ ops) (le, timed) a =
    run-Agrees now t' (saw m now) s ops timed (saw-Agrees t now m s le a)
run-Agrees t t' m s (sets key value expires ∷ ops) timed a =
    run-Agrees t t' _ _ ops timed (set-Agrees t m s key value expires a)
run-Agrees t t' m s (adds key value expires now ∷ ops) (le, timed) a =
    run-Agrees now t' (add m key value expires now).0 (keep_step s (adds key value expires now)) ops
      timed (add-Agrees t now m s key value expires le a)
run-Agrees t t' m s (deletes key ∷ ops) timed a =
    run-Agrees t t' _ _ ops timed (delete-Agrees t m s key a)
run-Agrees t t' m s (deletes_if key value ∷ ops) timed a =
    run-Agrees t t' _ _ ops timed (delete_if-Agrees t m s key value a)

-- Nothing is kept.
abbrev pub nothing : Kept
nothing = λ k. none

abbrev pub is_none : Option Bytes → Bool
is_none none = true
is_none (some _) = false

empty-Agrees : Agrees 0 empty nothing
unfolding found lookup
empty-Agrees = record { sane = record { distinct = tt; past = omega arith }; same = λ u k l. refl }

-- What Get and Add answer after a history of an empty store, whose times do not go back, is what they
-- would if the store kept every value that was set, or added where none lived, until it is replaced or
-- deleted: Get returns the value of the key that lives at its time, and Add succeeds where none lives.
pub run_refines :
    (ops : List Op) (t t' : ℕ) (key value : Bytes) (expires : ℕ)
    → Timed 0 ops t
    → t ≤ t'
    → ((get (run empty ops) key t').1 ≡ found t' (keep_run nothing ops key))
      × ((add (run empty ops) key value expires t').1
          ≡ is_none (found t' (keep_run nothing ops key)))
unfolding get add
run_refines ops t t' key value expires timed le =
    let m : MemoryStore = run empty ops in
    let s : Kept = keep_run nothing ops in
    let a : Agrees t m s = run-Agrees 0 t empty nothing ops timed empty-Agrees in
    let same : found t' (lookup key (saw m t').values) ≡ found t' (s key) =
      saw-view t' t' m key ∙ a.same t' key le in
    (
      same,
      elim (Option-cases (found t' (s key))) [
        | inl e ↦ rw (same, e, add) refl
        | inr (x, e) ↦ rw (same, e, add) refl
      ],
    )
