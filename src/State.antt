-- ===== src/State.antt =====
-- src/state.rs: the shared state, and the channels behind the sender handles that it keeps.
pub mod Sends
pub mod Start
pub mod Drain
use dendri_server.Common.{
  ℕ, Bool, true, false, Option, none, some, List, [], ◌∷◌, ◌++◌, Text, if◌then◌else◌, nat_beq,
  text_eq, map_some, unwrap_or,
}
use dendri_server.Common.Maps.{Map, lookup, remove, contains_key}
use dendri_server.Config.{Config}
use dendri_server.RateLimiter.{RateLimiter}
use dendri_server.Realm
use dendri_server.Replay.{ReplayBuffer}
use dendri_server.RoomKey.{namespace_room}
use dendri_server.Slots.{release_connection_slot}
use dendri_server.Tenant.Access.{TenantCache}
use dendri_server.Webhook.{WebhookSender, WebhookEvent, emit}
use dendri_server.World.{World}

pub data TransportKind : Type 0 where
  web_socket sse polling : TransportKind

pub record ClientMeta : Type 0 where
  pub token : Text
  pub last_ping : ℕ
  pub last_message : ℕ
  pub transport : TransportKind

abbrev pub meta_new : ℕ → Text → TransportKind → ClientMeta
meta_new now token transport = record {
  token = token;
  last_ping = now;
  last_message = now;
  transport = transport;
}

abbrev pub touch : ℕ → ClientMeta → ClientMeta
touch now m = record m { last_ping = now }

abbrev pub record_message : ℕ → ClientMeta → ClientMeta
record_message now m = record m { last_message = now }

pub record PendingRemoval : Type 0 where
  pub rooms : List Text
  pub disconnected_at : ℕ

-- An unbounded channel: what was sent and not yet received, oldest first. It is closed once the
-- receiver is dropped.
pub record Channel : Type 0 where
  pub queue : List Text
  pub is_open : Bool

-- A sender handle is the number of its channel. Sets and maps are lists; presence maps a room to
-- the data of its peers. The start time and the mailer are left out.
pub record AppState (w : World) : Type 0 where
  pub channels : ℕ → Channel
  pub next_channel : ℕ
  pub ws_senders : Map Text ℕ
  pub clients : Map Text ClientMeta
  pub redis : w.redis.Conn
  pub config : Config
  pub rooms : Map Text (List Text)
  pub client_rooms : Map Text (List Text)
  pub seq_counter : ℕ
  pub rate_limiter : RateLimiter w.governor
  pub replay_buffer : ReplayBuffer
  pub pending_removals : Map Text PendingRemoval
  pub presence : Map Text (Map Text Text)
  pub client_claims : Map Text w.json.Value
  pub client_tenants : Map Text Text
  pub webhook : Option WebhookSender
  pub active_connections : ℕ
  pub polling_receivers : Map Text ℕ
  pub tenant_cache : TenantCache

abbrev pub put_frame : ℕ → Text → (ℕ → Channel) → ℕ → Channel
put_frame ch frame channels c =
    if nat_beq ch c
    then record { queue = (channels c).queue ++ frame ∷ []; is_open = (channels c).is_open }
    else channels c

module _ {w : World} where
  -- `sender.send`: an error if the channel is closed.
  unfoldable pub send : AppState w → ℕ → Text → AppState w × Bool
  send s ch frame =
      if (s.channels ch).is_open
      then (record s { channels = put_frame ch frame s.channels }, true)
      else (s, false)

  -- `if let Some(sender) = state.ws_senders.get(id) { let _ = sender.send(frame); }`
  unfoldable pub send_to : AppState w → Text → Text → AppState w
  unfolding send
  send_to s id frame = elim (lookup id s.ws_senders) [ none ↦ s | some ch ↦ (send s ch frame).0 ]

  -- `if let Some(ref webhook) = state.webhook { webhook.emit(event); }`
  unfoldable pub notify : AppState w → WebhookEvent → AppState w
  notify s e = record s { webhook = map_some (λ h. emit h e) s.webhook }

  -- The slot of a client that `clients.remove` found.
  unfoldable pub remove_and_release : AppState w → Text → AppState w
  remove_and_release s id =
      if contains_key id s.clients
      then record s {
        clients = remove id s.clients;
        active_connections = release_connection_slot s.active_connections;
      }
      else s

  -- Drop the sender and the client entry, then the client in Redis.
  unfoldable pub drop_client : AppState w → Text → AppState w
  unfolding remove_and_release
  drop_client s id =
      let s' = remove_and_release (record s { ws_senders = remove id s.ws_senders }) id in
      record s' { redis = (Realm.remove_client w.redis s'.redis id).0 }

  unfoldable pub room_key : AppState w → Text → Text → Text
  room_key s client_id room = namespace_room (lookup client_id s.client_tenants) room

  -- The members of a stored room; a room that is not there has none.
  abbrev pub members_of : AppState w → Text → List Text
  members_of s key = unwrap_or (lookup key s.rooms) []

  abbrev pub rooms_of : AppState w → Text → List Text
  rooms_of s id = unwrap_or (lookup id s.client_rooms) []
