-- ===== src/Events.antt =====
-- `Hub` of internal/events/hub.go. Each operation holds the lock, so it is one step on the state. A
-- channel is its buffer; it is closed where it leaves the map.
pub mod Bounded
pub mod Delivery
pub mod Once
use ops_terminator.Base.{
  ℕ, suc, ◌+◌, Bool, true, false, List, [], ◌∷◌, ◌++◌, Option, none, some, ◌==◌, nat_eq, text_eq,
  ltb, if◌then◌else◌, is_empty,
}
use ops_terminator.Base.Text.{Text, bytes}
use ops_terminator.Models.{Event}

-- One entry of the inner map: the id and what the channel holds, the oldest first.
pub record Subscription : Type 0 where
  pub id : ℕ
  pub queue : List Event

-- `Hub`; the maps as lists of their entries.
pub record Hub : Type 0 where
  pub next_id : ℕ
  pub subscribers : List (Text × List Subscription)

abbrev pub channel_capacity : ℕ
channel_capacity = 128

-- `NewHub`.
abbrev pub new_hub : Hub
new_hub = record { next_id = 0; subscribers = [] }

-- `len` of a channel's buffer.
abbrev pub count_events : List Event → ℕ
count_events [] = 0
count_events (_ ∷ events) = suc (count_events events)

-- `h.subscribers[runID]`, nil if there is none.
unfoldable pub subscribers_of : Text → List (Text × List Subscription) → List Subscription
subscribers_of run [] = []
subscribers_of run ((r, subs) ∷ rest) = if r == run then subs else subscribers_of run rest

-- `h.subscribers[runID][id] = ch`, with a new inner map where there is none.
unfoldable pub add_subscription :
    Text → Subscription → List (Text × List Subscription) → List (Text × List Subscription)
add_subscription run s [] = (run, s ∷ []) ∷ []
add_subscription run s ((r, subs) ∷ rest) =
    if r == run then (r, subs ++ (s ∷ [])) ∷ rest else (r, subs) ∷ add_subscription run s rest

-- `Subscribe`: the hub, and the id that the cancel function keeps.
unfoldable pub subscribe : Text → Hub → Hub × ℕ
subscribe run h =
    let id = suc h.next_id in
    (
      record {
        next_id = id;
        subscribers = add_subscription run (record { id = id; queue = [] }) h.subscribers;
      },
      id,
    )

-- `SubscribeAll`.
unfoldable pub subscribe_all : Hub → Hub × ℕ
unfolding subscribe
subscribe_all h = subscribe (bytes "*") h

-- `delete(runSubs, id)`.
unfoldable pub delete_subscription : ℕ → List Subscription → List Subscription
delete_subscription id [] = []
delete_subscription id (s ∷ subs) =
    let rest = delete_subscription id subs in if s.id == id then rest else s ∷ rest

-- The entry of a run once one of its channels is closed; none if no channel is left.
unfoldable pub cancel_in :
    Text → ℕ → List (Text × List Subscription) → List (Text × List Subscription)
cancel_in run id [] = []
cancel_in run id ((r, subs) ∷ rest) =
    let left = delete_subscription id subs in
    let rest' = cancel_in run id rest in
    if r == run then (if is_empty left then rest else (r, left) ∷ rest) else (r, subs) ∷ rest'

-- The function that `Subscribe` returns.
unfoldable pub cancel : Text → ℕ → Hub → Hub
cancel run id h = record h { subscribers = cancel_in run id h.subscribers }

-- The `select` with a `default`: the event is dropped where the channel is full.
unfoldable pub offer : Event → Subscription → Subscription
offer event s =
    if ltb (count_events s.queue) channel_capacity
    then record s { queue = s.queue ++ (event ∷ []) }
    else s

unfoldable pub offer_all : Event → List Subscription → List Subscription
offer_all event [] = []
offer_all event (s ∷ subs) = offer event s ∷ offer_all event subs

-- A loop of `Emit` over the channels of one key.
unfoldable pub offer_to :
    Text → Event → List (Text × List Subscription) → List (Text × List Subscription)
offer_to run event [] = []
offer_to run event ((r, subs) ∷ rest) =
    if r == run then (r, offer_all event subs) ∷ rest else (r, subs) ∷ offer_to run event rest

-- `Emit`.
unfoldable pub emit : Event → Hub → Hub
unfolding offer_to
emit event h = record h {
  subscribers = offer_to (bytes "*") event (offer_to event.run_id event h.subscribers);
}

abbrev pub behind_first : List Event → List Event
behind_first [] = []
behind_first (_ ∷ events) = events

-- A receive from the channel of a subscription, by whoever subscribed: the oldest event leaves it.
unfoldable pub receive_from : ℕ → List Subscription → List Subscription
receive_from id [] = []
receive_from id (s ∷ subs) =
    let rest = receive_from id subs in
    if s.id == id then record s { queue = behind_first s.queue } ∷ subs else s ∷ rest

unfoldable pub receive_in :
    Text → ℕ → List (Text × List Subscription) → List (Text × List Subscription)
receive_in run id [] = []
receive_in run id ((r, subs) ∷ rest) =
    let rest' = receive_in run id rest in
    if r == run then (r, receive_from id subs) ∷ rest else (r, subs) ∷ rest'

unfoldable pub receive : Text → ℕ → Hub → Hub
receive run id h = record h { subscribers = receive_in run id h.subscribers }
