-- ===== src/Broadcast/Presence.antt =====
-- Who is on a channel, as one instance keeps it (broadcast/presence.go): localPresence, and what Enter, leave
-- and Here of a Hub make of it. A time is what the clock reads, and a member's data is JSON already.
pub mod Hears
mod Listed
mod Tests
use tug.Common.{
  ℕ, zero, suc, List, [], ◌∷◌, ◌++◌, Bool, true, false, not, ◌&&◌, ◌||◌, Option, none, some, Bytes,
  str_eq, lookup, insert, erase, any, str_leb, ltb, if◌then◌else◌,
}

pub record Member : Type 0 where
  pub id : Bytes
  pub info : Bytes

pub record LocalMember : Type 0 where
  pub member : Member
  pub until : ℕ

abbrev pub Members : Type 0
Members = List (Bytes × LocalMember)

-- By channel, then key. A channel that is not there has no members.
abbrev pub LocalPresence : Type 0
LocalPresence = List (Bytes × Members)

unfoldable pub members_of : LocalPresence → (channel : Bytes) → Members
members_of p channel = elim (lookup channel p) [ none ↦ [] | some members ↦ members ]

-- Whether an entry is another page of a member, whose lease is not over.
unfoldable pub is_page : (id key : Bytes) → (now : ℕ) → Bytes × LocalMember → Bool
is_page id key now (k, l) = str_eq l.member.id id && (not (str_eq k key) && ltb now l.until)

-- `localPresence.Enter`, and whether the member arrived.
unfoldable pub enter :
    LocalPresence
    → (channel : Bytes) → Member
    → (key : Bytes) → (until now : ℕ) → LocalPresence × Bool
enter p channel m key until now =
    let members : Members = members_of p channel in
    (
      insert channel (insert key (record { member = m; until = until }) members) p,
      not (any (is_page m.id key now) members),
    )

-- The loops of `Keep`: a key that is there has its lease said again.
unfoldable pub keep_all : (keys : List Bytes) → (until : ℕ) → Members → Members
keep_all keys until [] = []
keep_all keys until ((k, l) ∷ members) =
    (if any (str_eq k) keys then (k, record l { until = until }) else (k, l))
    ∷ keep_all keys until members

-- `localPresence.Keep`.
unfoldable pub keep : LocalPresence → (keys : List Bytes) → (until : ℕ) → LocalPresence
keep [] keys until = []
keep ((channel, members) ∷ p) keys until =
    (channel, keep_all keys until members) ∷ keep p keys until

-- Whether an entry is a page of a member, whose lease is not over.
unfoldable pub is_left : (id : Bytes) → (now : ℕ) → Bytes × LocalMember → Bool
is_left id now (k, l) = str_eq l.member.id id && ltb now l.until

-- `localPresence.Leave`, and whether the member is gone.
unfoldable pub leave : LocalPresence → (channel key : Bytes) → (now : ℕ) → LocalPresence × Bool
leave p channel key now =
    let members : Members = members_of p channel in
    elim (lookup key members) [
      | none ↦ (p, false)
      | some gone ↦ (
        insert channel (erase key members) p,
        not (any (is_left gone.member.id now) (erase key members)),
      )
    ]

-- The loop of `Here`: each member once, by the first entry that the map's order has.
unfoldable pub once : (now : ℕ) → (seen : List Bytes) → Members → List Member
once now seen [] = []
once now seen ((k, l) ∷ members) =
    let rest : List Member = once now (l.member.id ∷ seen) members in
    let others : List Member = once now seen members in
    if ltb l.until now || any (str_eq l.member.id) seen then others else l.member ∷ rest

-- `slices.SortFunc`, of members with an ID each.
unfoldable pub place : Member → List Member → List Member
place m [] = m ∷ []
place m (n ∷ sorted) = if str_leb m.id n.id then m ∷ n ∷ sorted else n ∷ place m sorted

unfoldable pub sort : List Member → List Member
sort [] = []
sort (m ∷ ms) = place m (sort ms)

-- `localPresence.Here`.
unfoldable pub here : LocalPresence → (channel : Bytes) → (now : ℕ) → List Member
here p channel now = sort (once now [] (members_of p channel))

-- A page that comes or goes.
pub data Page : Type 0 where
  enters : (channel : Bytes) → Member → (key : Bytes) → (until now : ℕ) → Page
  leaves : (channel key : Bytes) → (now : ℕ) → Page

-- What a channel hears of it, as `Enter` and `leave` of a Hub publish it: presence.joined or presence.left.
pub data Told : Type 0 where
  nothing : Told
  joined : Told
  left : Told

unfoldable pub step : LocalPresence → Page → LocalPresence × Told
step p (enters channel m key until now) =
    let (p', arrived) = enter p channel m key until now in (p', if arrived then joined else nothing)
step p (leaves channel key now) =
    let (p', gone) = leave p channel key now in (p', if gone then left else nothing)
