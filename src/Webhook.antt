-- ===== src/Webhook.antt =====
-- src/webhook.rs: the events and the bounded queue in front of the delivery task.
pub mod Url
pub mod Hosts
pub mod Delivery
pub mod Attempts
use dendri_server.Common.{
  ℕ, Bool, ◌&&◌, Option, none, some, List, [], ◌∷◌, ◌++◌, Text, codes, length, ltb, if◌then◌else◌,
}

-- `data` holds the bucket of a rate limit.
pub record WebhookEvent : Type 0 where
  pub event : Text
  pub timestamp : ℕ
  pub peer_id : Option Text
  pub room : Option Text
  pub bucket : Option Text

abbrev pub webhook_queue_capacity : ℕ
webhook_queue_capacity = 1024

pub record WebhookSender : Type 0 where
  pub queue : List WebhookEvent
  pub is_open : Bool

-- `try_send`: an event beyond the capacity is dropped, as is one after the delivery task died.
unfoldable pub emit : WebhookSender → WebhookEvent → WebhookSender
emit w e =
    if w.is_open && ltb (length w.queue) webhook_queue_capacity
    then record w { queue = w.queue ++ e ∷ [] }
    else w

abbrev pub peer_connected : ℕ → Text → WebhookEvent
peer_connected now peer_id = record {
  event = codes "peer.connected";
  timestamp = now;
  peer_id = some peer_id;
  room = none;
  bucket = none;
}

abbrev pub peer_disconnected : ℕ → Text → WebhookEvent
peer_disconnected now peer_id = record {
  event = codes "peer.disconnected";
  timestamp = now;
  peer_id = some peer_id;
  room = none;
  bucket = none;
}

abbrev pub room_joined : ℕ → Text → Text → WebhookEvent
room_joined now peer_id room = record {
  event = codes "room.joined";
  timestamp = now;
  peer_id = some peer_id;
  room = some room;
  bucket = none;
}

abbrev pub room_left : ℕ → Text → Text → WebhookEvent
room_left now peer_id room = record {
  event = codes "room.left";
  timestamp = now;
  peer_id = some peer_id;
  room = some room;
  bucket = none;
}

abbrev pub rate_limited : ℕ → Text → Text → WebhookEvent
rate_limited now peer_id bucket = record {
  event = codes "rate.limited";
  timestamp = now;
  peer_id = some peer_id;
  room = none;
  bucket = some bucket;
}
