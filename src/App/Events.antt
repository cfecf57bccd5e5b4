-- ===== src/App/Events.antt =====
-- internal/app/events.go: the hub that hands events to the browsers' streams. Each client has a channel
-- of a bounded size: `queued` are the events sent and not yet received. A cancellation closure is a
-- client's number and whether its `sync.Once` has fired. The numbers do not wrap around: 2 ^ 64
-- subscriptions are out of reach.
use kfadapter.Base.{
  ℕ, zero, suc, ◌+◌, ◌-◌, ◌≤◌, ◌<◌, ◌≡◌, refl, Bool, true, false, ◌&&◌, ◌||◌, not, List, [], ◌∷◌,
  ◌++◌, Option, none, some, is_empty, length, ltb, leb, ◌==◌, if◌then◌else◌, map,
}
use kfadapter.Base.Bytes.{Bytes, codes, bytes_eq}
pub mod Queues
pub mod Lifetime

pub record Event : Type 0 where
  pub type_of : Bytes
  pub payload : Bytes

pub record Subscriber : Type 0 where
  pub id : ℕ
  pub queued : List Event

-- The hub, with the channels that have been closed; `buffer` is the size of a channel.
pub record EventHub : Type 0 where
  pub clients : List Subscriber
  pub next_id : ℕ
  pub capacity : ℕ
  pub buffer : ℕ
  pub closed : Bool
  pub closed_channels : List ℕ

pub data HubError : Type 0 where
  hub_stopped capacity_reached : HubError

pub data Subscription : Type 0 where
  subscribed : ℕ → Subscription
  refused : HubError → Subscription

-- Arguments below 1 are replaced by the defaults; numbers below 0 are not modelled.
unfoldable pub new_event_hub : ℕ → ℕ → EventHub
new_event_hub capacity buffer = record {
  clients = [];
  next_id = 0;
  capacity = if capacity == 0 then 16 else capacity;
  buffer = if buffer == 0 then 8 else buffer;
  closed = false;
  closed_channels = [];
}

-- `subscribe`. The goroutine that waits for the context calls the same cancellation.
unfoldable pub subscribe : EventHub → Subscription × EventHub
subscribe h =
    if h.closed
    then (refused hub_stopped, h)
    else if leb h.capacity (length h.clients)
    then (refused capacity_reached, h)
    else (let id = suc h.next_id in
        (
          subscribed id,
          record h { next_id = id; clients = record { id = id; queued = [] } ∷ h.clients },
        ))

abbrev pub has_client : ℕ → List Subscriber → Bool
has_client id [] = false
has_client id (s ∷ ss) = s.id == id || has_client id ss

abbrev pub delete_client : ℕ → List Subscriber → List Subscriber
delete_client id [] = []
delete_client id (s ∷ ss) = if s.id == id then delete_client id ss else s ∷ delete_client id ss

pub record Cancel : Type 0 where
  pub client : ℕ
  pub fired : Bool

-- The closure: the client is deleted and its channels closed, if it is still there.
unfoldable pub cancel : Cancel → EventHub → Cancel × EventHub
cancel c h = if c.fired then (c, h) else (
  record c { fired = true },
  if has_client c.client h.clients
      then record h {
        clients = delete_client c.client h.clients;
        closed_channels = c.client ∷ h.closed_channels;
      }
      else h,
)

unfoldable pub safe_event_type : Bytes → Bool
safe_event_type value =
    bytes_eq value (codes "state")
    || bytes_eq value (codes "refresh")
    || bytes_eq value (codes "probe")

-- A send that does not wait: a full channel drops the event.
abbrev pub offer : ℕ → Event → Subscriber → Subscriber
offer buffer event s =
    if ltb (length s.queued) buffer then record s { queued = s.queued ++ (event ∷ []) } else s

abbrev pub offer_all : ℕ → Event → List Subscriber → List Subscriber
offer_all buffer event [] = []
offer_all buffer event (s ∷ ss) = offer buffer event s ∷ offer_all buffer event ss

unfoldable pub publish : Event → EventHub → EventHub
unfolding safe_event_type
publish event h =
    if not (safe_event_type event.type_of) || h.closed
    then h
    else record h { clients = offer_all h.buffer event h.clients }

abbrev pub client_ids : List Subscriber → List ℕ
client_ids [] = []
client_ids (s ∷ ss) = s.id ∷ client_ids ss

unfoldable pub close : EventHub → EventHub
close h = if h.closed then h else record h {
  closed = true;
  clients = [];
  closed_channels = client_ids h.clients ++ h.closed_channels;
}

abbrev pub tail_of : List Event → List Event
tail_of [] = []
tail_of (e ∷ es) = es

abbrev pub pop : ℕ → List Subscriber → List Subscriber
pop id [] = []
pop id (s ∷ ss) = (if s.id == id then record s { queued = tail_of s.queued } else s) ∷ pop id ss

-- A client receives the event at the head of its channel.
unfoldable pub receive : ℕ → EventHub → EventHub
receive id h = record h { clients = pop id h.clients }

-- A call on the hub, and the hub after it. A cancellation that has fired is no call.
pub data Call : Type 0 where
  subscribing closing : Call
  cancelling receiving : ℕ → Call
  publishing : Event → Call

unfoldable pub step : Call → EventHub → EventHub
unfolding subscribe cancel publish close receive
step subscribing h = (subscribe h).1
step closing h = close h
step (cancelling id) h = (cancel (record { client = id; fired = false }) h).1
step (receiving id) h = receive id h
step (publishing event) h = publish event h

unfoldable pub run : List Call → EventHub → EventHub
unfolding step
run [] h = h
run (c ∷ cs) h = run cs (step c h)
