-- ===== src/Broadcast/Presence/Listed.antt =====
-- Who Here lists, as the entries of a channel's members say it (broadcast/presence.go).
use tug.Common.{
  str_leb, ℕ, ◌≡◌, ◌≢◌, refl, ap, ◌∙◌, arith, List, [], ◌∷◌, Bool, false, not, ◌&&◌, ◌||◌, none,
  some, Bytes, str_eq, str_eq_refl, str_eq_iff, lookup, lookup-insert, insert, erase, Distinct, All,
  any, ltb, Bool-cases, inl, inr,
}
use tug.Broadcast.Presence.{
  Member, LocalMember, Members, LocalPresence, members_of, is_page, once, place, sort, here,
}

-- Whether a member is among some.
abbrev pub listed : (id : Bytes) → List Member → Bool
listed id ms = any (λ m. str_eq m.id id) ms

abbrev pub is_here : (id : Bytes) → (now : ℕ) → Bytes × LocalMember → Bool
is_here id now kl = str_eq kl.1.member.id id && not (ltb kl.1.until now)

listed-place :
    (id : Bytes) (m : Member) (ms : List Member)
    → listed id (place m ms) ≡ (str_eq m.id id || listed id ms)
unfolding place
listed-place id m [] = refl
listed-place id m (n ∷ ms) = elim (Bool-cases (str_leb m.id n.id)) [
  | inl e ↦ rw e refl
  | inr e ↦ rw (e, listed-place id m ms) (ground arith)
]

listed-sort : (id : Bytes) (ms : List Member) → listed id (sort ms) ≡ listed id ms
unfolding sort
listed-sort id [] = refl
listed-sort id (m ∷ ms) = listed-place id m (sort ms) ∙ rw (listed-sort id ms) refl

listed-once :
    (id : Bytes) (now : ℕ) (seen : List Bytes) (ms : Members)
    → listed id (once now seen ms) ≡ (any (is_here id now) ms && not (any (str_eq id) seen))
unfolding once
listed-once id now seen [] = refl
listed-once id now seen ((k, l) ∷ ms) =
    let skipped = listed-once id now seen ms in
    let taken = listed-once id now (l.member.id ∷ seen) ms in
    elim (Bool-cases (str_eq l.member.id id)) [
      | inl same ↦
          let seen_same : any (str_eq l.member.id) seen ≡ any (str_eq id) seen =
            ap (λ i. any (str_eq i) seen) ((str_eq_iff l.member.id id).0 same) in
          elim (Bool-cases (ltb l.until now)) [
            | inl a ↦ rw (a, same) skipped
            | inr a ↦ elim (Bool-cases (any (str_eq id) seen)) [
              | inl b ↦ rw (a, seen_same, b, same) (skipped ∙ rw b (ground arith))
              | inr b ↦ rw (a, seen_same, b, same) refl
            ]
          ]
      | inr other ↦
          let other' : str_eq id l.member.id ≡ false =
            ground (arith, str_eq_iff id l.member.id, str_eq_iff l.member.id id) in
          elim (Bool-cases (ltb l.until now || any (str_eq l.member.id) seen)) [
            | inl e ↦ rw (e, other) skipped
            | inr e ↦ rw (e, other) (taken ∙ rw other' refl)
          ]
    ]

pub listed-here :
    (id : Bytes) (p : LocalPresence) (channel : Bytes) (now : ℕ)
    → listed id (here p channel now) ≡ any (is_here id now) (members_of p channel)
unfolding here
listed-here id p channel now =
    listed-sort id (once now [] (members_of p channel))
    ∙ listed-once id now [] (members_of p channel)
    ∙ ground arith

-- No lease ends at now, to the nanosecond.
abbrev pub NoneEnds : (now : ℕ) → Members → Type 0
NoneEnds now ms = All (λ (kl : Bytes × LocalMember). kl.1.until ≢ now) ms

pub still_alive : (until now : ℕ) → until ≢ now → ltb now until ≡ not (ltb until now)
still_alive until now off = ground arith

pub any-is_page :
    (id key : Bytes) (now : ℕ) (ms : Members)
    → lookup key ms ≡ none
    → NoneEnds now ms
    → any (is_page id key now) ms ≡ any (is_here id now) ms
unfolding lookup is_page
any-is_page id key now [] e a = refl
any-is_page id key now ((k, l) ∷ ms) e (off, a) = elim (Bool-cases (str_eq k key)) [
  | inl f ↦ let is : some l ≡ none = rw f at e in cc
  | inr f ↦
      let absent : lookup key ms ≡ none = rw f at e in
      let alive : ltb now l.until ≡ not (ltb l.until now) = still_alive l.until now off in
      rw (f, alive, any-is_page id key now ms absent a) refl
]

pub any-insert :
    (q : Bytes × LocalMember → Bool) (key : Bytes) (l : LocalMember) (ms : Members)
    → lookup key ms ≡ none
    → any q (insert key l ms) ≡ (q (key, l) || any q ms)
unfolding lookup insert
any-insert q key l [] e = refl
any-insert q key l ((k, l') ∷ ms) e = elim (Bool-cases (str_eq k key)) [
  | inl f ↦ let is : some l' ≡ none = rw f at e in cc
  | inr f ↦
      let absent : lookup key ms ≡ none = rw f at e in
      rw (f, any-insert q key l ms absent) (ground arith)
]

erase-absent : (key : Bytes) (ms : Members) → lookup key ms ≡ none → erase key ms ≡ ms
unfolding lookup erase
erase-absent key [] e = refl
erase-absent key ((k, l) ∷ ms) e = elim (Bool-cases (str_eq k key)) [
  | inl f ↦ let is : some l ≡ none = rw f at e in cc
  | inr f ↦ rw f (ap (λ xs. (k, l) ∷ xs) (erase-absent key ms (rw f at e)))
]

pub any-erase :
    (q : Bytes × LocalMember → Bool) (key : Bytes) (l : LocalMember) (ms : Members)
    → Distinct ms
    → lookup key ms ≡ some l
    → any q ms ≡ (q (key, l) || any q (erase key ms))
unfolding lookup erase
any-erase q key l [] d e = cc
any-erase q key l ((k, l') ∷ ms) d e = elim (Bool-cases (str_eq k key)) [
  | inl f ↦
      let is : some l' ≡ some l = rw f at e in
      let same : l' ≡ l = cc in
      let key_same : k ≡ key = (str_eq_iff k key).0 f in
      let absent : lookup key ms ≡ none = rw key_same at d.0 in
      rw (f, erase-absent key ms absent, same, key_same) refl
  | inr f ↦
      let there : lookup key ms ≡ some l = rw f at e in
      rw (f, any-erase q key l ms d.1 there) (ground arith)
]

pub members_of-insert :
    (channel : Bytes) (ms : Members) (p : LocalPresence)
    → members_of (insert channel ms p) channel ≡ ms
unfolding members_of
members_of-insert channel ms p =
    rw (members_of, lookup-insert channel channel ms p, str_eq_refl channel) refl
