-- ===== src/Broadcast/Presence/Hears.antt =====
-- What a channel hears of its members, and who is on it (broadcast/presence.go).
use tug.Common.{
  ℕ, ◌≤◌, ◌≡◌, refl, ap, ◌∙◌, arith, [], ◌∷◌, Bool, true, false, not, none, some, Bytes, str_eq,
  str_eq_refl, lookup, insert, erase, Distinct, any, ltb, if◌then◌else◌, Bool-cases, inl, inr,
}
use tug.Broadcast.Presence.{
  LocalMember, Members, LocalPresence, members_of, enter, is_left, leave, here, Page, enters,
  leaves, Told, nothing, joined, left, step,
}
use tug.Broadcast.Presence.Listed.{
  listed, is_here, NoneEnds, listed-here, any-is_page, any-insert, any-erase, members_of-insert,
  still_alive,
}

any-is_left :
    (id key : Bytes) (now : ℕ) (ms : Members)
    → NoneEnds now ms
    → any (is_left id now) (erase key ms) ≡ any (is_here id now) (erase key ms)
unfolding erase is_left
any-is_left id key now [] a = refl
any-is_left id key now ((k, l) ∷ ms) (off, a) = elim (Bool-cases (str_eq k key)) [
  | inl f ↦ rw f (any-is_left id key now ms a)
  | inr f ↦ rw (f, still_alive l.until now off, any-is_left id key now ms a) refl
]

-- How who is here changes, for one member, as a channel is told of it.
abbrev pub change : (before after : Bool) → Told
change false true = joined
change true false = left
change _ _ = nothing

abbrev pub channel_of : Page → Bytes
channel_of (enters channel m key until now) = channel
channel_of (leaves channel key now) = channel

abbrev pub now_of : Page → ℕ
now_of (enters channel m key until now) = now
now_of (leaves channel key now) = now

-- The member whose page it is.
abbrev pub who : LocalPresence → Page → Bytes
who p (enters channel m key until now) = m.id
who p (leaves channel key now) = elim (lookup key (members_of p channel)) [
  | none ↦ []
  | some l ↦ l.member.id
]

-- A page enters with a key of its own, and leaves the channel that it is on, its lease not over; each key
-- stands once, and no lease ends just then.
abbrev pub Fits : LocalPresence → Page → Type 0
Fits p (enters channel m key until now) =
    (lookup key (members_of p channel) ≡ none) × (now ≤ until) × NoneEnds now (members_of p channel)
Fits p (leaves channel key now) =
    ((l : LocalMember) × (lookup key (members_of p channel) ≡ some l) × (now ≤ l.until))
    × Distinct (members_of p channel)
    × NoneEnds now (members_of p channel)

on_time : (until now : ℕ) → now ≤ until → ltb until now ≡ false
on_time until now a = ground arith

told_entering : (b : Bool) → (if not b then joined else nothing) ≡ change b true
told_entering true = refl
told_entering false = refl

told_leaving : (b : Bool) → (if not b then left else nothing) ≡ change true b
told_leaving true = refl
told_leaving false = refl

left-change :
    (p : LocalPresence) (channel key : Bytes) (now : ℕ) (l : LocalMember)
    → lookup key (members_of p channel) ≡ some l
    → now ≤ l.until
    → Distinct (members_of p channel)
    → NoneEnds now (members_of p channel)
    → (if not (any (is_left l.member.id now) (erase key (members_of p channel)))
        then left
        else nothing)
      ≡ change (listed l.member.id (here p channel now)) (
          listed l.member.id
            (here (insert channel (erase key (members_of p channel)) p) channel now))
left-change p channel key now l there alive d ends =
    let ms : Members = members_of p channel in
    let id : Bytes = l.member.id in
    let before : listed id (here p channel now) ≡ true =
      listed-here id p channel now
      ∙ any-erase (is_here id now) key l ms d there
      ∙ rw (str_eq_refl id, on_time l.until now alive) refl in
    let after : listed id (here (insert channel (erase key ms) p) channel now)
        ≡ any (is_here id now) (erase key ms) =
      listed-here id (insert channel (erase key ms) p) channel now
      ∙ ap (any (is_here id now)) (members_of-insert channel (erase key ms) p) in
    rw (before, after, any-is_left id key now ms ends)
      (told_leaving (any (is_here id now) (erase key ms)))

-- What a channel hears as a page enters or leaves is how Here's list of it changes for the page's member:
-- joined where the member was not listed and is, left where it was and is not any more, and nothing
-- otherwise. The page enters with a new key and a lease that is not over, or leaves while its lease is not;
-- and no lease of the channel ends at that nanosecond.
pub step-change :
    (p : LocalPresence) (page : Page)
    → Fits p page
    → (step p page).1
      ≡ change
          (listed (who p page) (here p (channel_of page) (now_of page)))
          (listed (who p page) (here (step p page).0 (channel_of page) (now_of page)))
unfolding step enter leave
step-change p (enters channel m key until now) (fresh, alive, ends) =
    let ms : Members = members_of p channel in
    let l : LocalMember = record { member = m; until = until } in
    let before : listed m.id (here p channel now) ≡ any (is_here m.id now) ms =
      listed-here m.id p channel now in
    let after : listed m.id (here (insert channel (insert key l ms) p) channel now) ≡ true =
      listed-here m.id (insert channel (insert key l ms) p) channel now
      ∙ ap (any (is_here m.id now)) (members_of-insert channel (insert key l ms) p)
      ∙ any-insert (is_here m.id now) key l ms fresh
      ∙ rw (str_eq_refl m.id, on_time until now alive) refl in
    rw (before, after, any-is_page m.id key now ms fresh ends)
      (told_entering (any (is_here m.id now) ms))
step-change p (leaves channel key now) ((l, there, alive), d, ends) =
    rw (step, leave, who, there) (left-change p channel key now l there alive d ends)
