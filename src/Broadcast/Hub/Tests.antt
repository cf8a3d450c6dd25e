-- ===== src/Broadcast/Hub/Tests.antt =====
-- A Hub whose events are their channel alone, and one subscriber that follows "p" (broadcast/broadcast.go).
use tug.Common.{
  List, [], ◌∷◌, ◌++◌, true, Option, none, some, Bytes, get_elem?, any, ◌≡◌, refl, str_eq, ok,
  Result,
}
use tug.Broadcast.Hub.{
  Event, Subscriber, Op, delivers, ends, receives, subscribe, run, publish, deliver, read_event,
  send, follows,
}
use tug.Broadcast.Hub.Alone.{got, published, published_by, is_end}
use tug.Broadcast.Hub.InOrder.{Told, subscribe-Told}

unfoldable unmarshal : Bytes → Option Event
unmarshal [] = none
unmarshal (c ∷ b) = some (record { channel = c ∷ []; name = b; json = [] })

-- Two events on "p" with one on "q" between them, of which one is received.
abbrev ops : List Op
ops =
    delivers (112 ∷ 1 ∷ [])
    ∷ receives 0
    ∷ delivers (113 ∷ [])
    ∷ delivers []
    ∷ delivers (112 ∷ 2 ∷ [])
    ∷ ends 1
    ∷ []

abbrev on_p : Bytes → Event
on_p b = record { channel = 112 ∷ []; name = b; json = [] }

published_test : published unmarshal ((112 ∷ []) ∷ []) ops ≡ on_p (1 ∷ []) ∷ on_p (2 ∷ []) ∷ []
unfolding published published_by read_event unmarshal follows str_eq
published_test = refl

subscribe-Told_example :
    (s : Subscriber) × (get_elem? (run unmarshal (subscribe [] ((112 ∷ []) ∷ [])) ops) 0 ≡ some s)
    × Told
        (published unmarshal ((112 ∷ []) ∷ []) ops)
        (got unmarshal 0 (subscribe [] ((112 ∷ []) ∷ [])) ops)
        (any (is_end unmarshal 0) ops)
        s
subscribe-Told_example = subscribe-Told unmarshal [] ((112 ∷ []) ∷ []) ops

abbrev the_json : Result Bytes Bytes
the_json = ok []

publish_test :
    publish unmarshal
      (λ e. e.channel ++ e.name)
      none
      (subscribe [] ((112 ∷ []) ∷ []))
      (112 ∷ [])
      (1 ∷ [])
      the_json
    ≡ (
      record { channels = (112 ∷ []) ∷ []; waiting = on_p (1 ∷ []) ∷ []; is_open = true } ∷ [],
      none,
    )
unfolding publish deliver read_event unmarshal send follows str_eq subscribe
publish_test = refl
