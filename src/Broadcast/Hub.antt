-- ===== src/Broadcast/Hub.antt =====
-- A Hub's subscribers and the events they get, on one instance (broadcast/broadcast.go). What encoding/json makes of
-- an event, and reads of one, are arguments.
pub mod Alone
pub mod InOrder
mod Tests
use tug.Common.{
  ℕ, zero, suc, List, [], ◌∷◌, ◌++◌, Bool, true, false, not, ◌&&◌, ◌||◌, Option, none, some, Bytes,
  str_eq, any, ltb, ◌==◌, if◌then◌else◌, get_elem?, set, map, length, Result, ok, err, min, ◌*◌,
}

pub record Event : Type 0 where
  pub channel : Bytes
  pub name : Bytes
  pub json : Bytes

-- A `subscriber`: `waiting` is in its Go channel, which holds 16, and `is_open` is whether that is open, which is also
-- whether the subscriber is one of the Hub's.
pub record Subscriber : Type 0 where
  pub channels : List Bytes
  pub waiting : List Event
  pub is_open : Bool

-- The subscribers there have been, each at its place.
abbrev pub Hub : Type 0
Hub = List Subscriber

abbrev pub room : ℕ
room = 16

-- `Subscribe`.
unfoldable pub subscribe : Hub → (channels : List Bytes) → Hub
subscribe h channels = h ++ record { channels = channels; waiting = []; is_open = true } ∷ []

-- `drop`.
unfoldable pub drop : Subscriber → Subscriber
drop s = record { channels = s.channels; waiting = s.waiting; is_open = false }

unfoldable pub follows : List Bytes → (channel : Bytes) → Bool
follows channels channel = any (λ c. str_eq c channel) channels

-- The loop of `deliver`, for one subscriber.
unfoldable pub send : Event → Subscriber → Subscriber
send e s =
    if not s.is_open
    then s
    else if not (follows s.channels e.channel)
    then s
    else if ltb (length s.waiting) room
    then record { channels = s.channels; waiting = s.waiting ++ e ∷ []; is_open = true }
    else drop s

-- A receive from the Go channel, for as long as events wait.
unfoldable pub received : Subscriber → Subscriber × Option Event
received s = elim s.waiting [
  | [] ↦ (s, none)
  | e ∷ es ↦ (record { channels = s.channels; waiting = es; is_open = s.is_open }, some e)
]

unfoldable pub change : ℕ → (Subscriber → Subscriber) → Hub → Hub
change i f h = elim (get_elem? h i) [ none ↦ h | some s ↦ set h i (f s) ]

unfoldable pub receive : ℕ → Hub → Hub × Option Event
receive i h = elim (get_elem? h i) [
  | none ↦ (h, none)
  | some s ↦ (set h i (received s).0, (received s).1)
]

-- What happens to a Hub: Subscribe, a delivery, the end of a subscriber's context, a receive by a subscriber, and the end
-- of the Store's Listen, after which `Run` closes every subscriber.
pub data Op : Type 0 where
  subscribes : (channels : List Bytes) → Op
  delivers : Bytes → Op
  ends : ℕ → Op
  receives : ℕ → Op
  stops : Op

-- The errors of `publish`.
pub data PublishError (E : Type 0) : Type 0 where
  no_channel : PublishError E
  not_json : E → PublishError E
  too_long : ℕ → PublishError E
  not_sent : E → PublishError E

abbrev pub max_event : ℕ
max_event = 7000

module _ (unmarshal : Bytes → Option Event) where
  -- What `deliver` reads: none for what is left out.
  unfoldable pub read_event : Bytes → Option Event
  read_event b = elim (unmarshal b) [
    | none ↦ none
    | some e ↦ if str_eq e.channel [] then none else some e
  ]

  -- `deliver`.
  unfoldable pub deliver : Bytes → Hub → Hub
  deliver b h = elim (read_event b) [ none ↦ h | some e ↦ map (send e) h ]

  unfoldable pub step : Hub → Op → Hub × Option Event
  step h (subscribes channels) = (subscribe h channels, none)
  step h (delivers b) = (deliver b h, none)
  step h (ends i) = (change i drop h, none)
  step h (receives i) = receive i h
  step h stops = (map drop h, none)

  unfoldable pub run : Hub → List Op → Hub
  run h [] = h
  run h (op ∷ ops) = run (step h op).0 ops

  -- `publish`, of data that is JSON already, or cannot be: the Hub after it. `marshal` is what encoding/json
  -- makes of a wire, and `publish_to` the Store's Publish, where there is a Store.
  unfoldable pub publish :
      {E : Type 0}
      → (marshal : Event → Bytes) → (publish_to : Option (Bytes → Option E)) → Hub
      → (channel name : Bytes) → Result E Bytes
      → Hub × Option (PublishError E)
  publish marshal publish_to h channel name json =
      if str_eq channel [] then (h, some no_channel) else elim json [
        | err e ↦ (h, some (not_json e))
        | ok raw ↦
            let event : Bytes = marshal (record { channel = channel; name = name; json = raw }) in
            if ltb max_event (length event)
            then (h, some (too_long (length event)))
            else elim publish_to [
              | none ↦ (deliver event h, none)
              | some send_to ↦ elim (send_to event) [
                | none ↦ (h, none)
                | some e ↦ (h, some (not_sent e))
              ]
            ]
      ]

-- How long `Run` waits, in seconds, once it has waited and Listen has stopped again.
unfoldable pub next_wait : ℕ → ℕ
next_wait wait = min (2 * wait) 60
