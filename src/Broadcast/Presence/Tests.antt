-- ===== src/Broadcast/Presence/Tests.antt =====
-- A member's two pages on a channel (broadcast/presence.go).
use tug.Common.{◌≡◌, refl, arith, [], ◌∷◌, Bytes, str_eq, lookup, insert}
use tug.Broadcast.Presence.{
  Member, LocalPresence, members_of, enter, is_page, step, nothing, enters, leaves, here,
}
use tug.Broadcast.Presence.Listed.{listed}
use tug.Broadcast.Presence.Hears.{change, step-change}

abbrev news : Bytes
news = 110 ∷ []

abbrev ann : Member
ann = record { id = 97 ∷ []; info = [] }

abbrev first_page : LocalPresence
first_page = (step [] (enters news ann (49 ∷ []) 60 1)).0

abbrev both_pages : LocalPresence
both_pages = (step first_page (enters news ann (50 ∷ []) 61 2)).0

hears_once : (step first_page (enters news ann (50 ∷ []) 61 2)).1 ≡ nothing
unfolding step enter members_of lookup insert str_eq is_page
hears_once = refl

step-change_example :
    (step both_pages (leaves news (49 ∷ []) 3)).1
    ≡ change
        (listed (97 ∷ []) (here both_pages news 3))
        (listed (97 ∷ []) (here (step both_pages (leaves news (49 ∷ []) 3)).0 news 3))
unfolding step enter members_of lookup insert str_eq is_page
step-change_example = step-change both_pages (leaves news (49 ∷ []) 3) (
  (record { member = ann; until = 60 }, refl, omega arith),
  (refl, (refl, tt)),
  ((omega arith), ((omega arith), tt)),
)
