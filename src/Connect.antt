-- ===== src/Connect.antt =====
-- src/handlers/mod.rs (`enforce_jwt`) and src/handlers/ws.rs: who comes back as what.
pub mod Greeting
pub mod Serving
pub mod Upgrade
pub mod Admission
pub mod Indexes
pub mod Run
pub mod Claims
pub mod Return
pub mod Departure
use dendri_server.Common.{
  ℕ, ◌+◌, ◌/◌, ◌&&◌, ◌||◌, ◌++◌, Bool, true, false, not, Option, none, some, List, [], ◌∷◌, Text,
  codes, length, ltb, nat_beq, text_beq, text_eq, is_some, map_some, unwrap_or, if◌then◌else◌,
}
use dendri_server.Common.Maps.{lookup, insert, remove}
use dendri_server.Common.Sets
use dendri_server.Dispatch.{handle_message}
use dendri_server.Enums.{MessageType, Message, PeerError}
use dendri_server.Frames.{error_frame, make_error_json, peers_frame}
use dendri_server.Jwt.{effective_jwt_secret, tid_matches}
use dendri_server.RateLimiter.{check_and_consume}
use dendri_server.Realm
use dendri_server.Realm.{decimal}
use dendri_server.Replay.{oldest_seq}
use dendri_server.RoomKey.{room_display}
use dendri_server.Sessions.{remove_client_from_all_rooms}
use dendri_server.Slots.{try_reserve_connection_slot, release_connection_slot}
use dendri_server.State.{
  AppState, Channel, TransportKind, meta_new, PendingRemoval, send, notify, remove_and_release,
  members_of,
}
use dendri_server.Tenant.{Tenant}
use dendri_server.Tenant.Access.{resolve_api_key}
use dendri_server.Validation.{constant_time_str_eq, is_valid_identifier}
use dendri_server.Webhook.{peer_connected, peer_disconnected, rate_limited}
use dendri_server.RateLimiter
use dendri_server.World.{World, Json, Clock}

pub record WsQuery : Type 0 where
  pub id : Option Text
  pub token : Option Text
  pub key : Option Text
  pub jwt : Option Text
  pub api_key : Option Text
  pub last_seq : Option ℕ

abbrev pub server_message : MessageType → Option Text → Message
server_message t payload = record {
  type_ = t;
  src = none;
  dst = none;
  payload = payload;
  seq = none;
  room = none;
  timestamp = none;
  topic_class = none;
}

-- The socket is closed with a last frame, or is served over the channel of its sender.
pub data Outcome : Type 0 where
  rejected : Text → Outcome
  connected : ℕ → Outcome

abbrev pub reject : PeerError → Outcome
reject e = rejected (make_error_json e)

abbrev pub jwt_secret_of : Option Tenant → Option Text
jwt_secret_of none = none
jwt_secret_of (some t) = t.jwt_secret

-- `into_iter().collect()`
abbrev pub set_of : List Text → List Text
set_of [] = []
set_of (k ∷ ks) = Sets.insert k (set_of ks)

abbrev pub tid_allows : (j : Json) → j.Value → Option Tenant → Bool
tid_allows j claims none = true
tid_allows j claims (some t) = tid_matches j claims t.id

module _ {w : World} where
  -- `jsonwebtoken` reads the clock in seconds.
  unfoldable pub enforce_jwt :
      AppState w → Clock → Option Tenant → Option Text → Text → AppState w × Bool
  enforce_jwt s now tenant jwt client_id =
      elim (effective_jwt_secret (jwt_secret_of tenant) s.config.jwt_secret) [
        | none ↦ (s, true)
        | some secret ↦ elim (w.decode_jwt secret (unwrap_or jwt []) (now.wall / 1000)) [
          | none ↦ (s, false)
          | some claims ↦
              if tid_allows w.json claims tenant
              then (record s { client_claims = insert client_id claims s.client_claims }, true)
              else (s, false)
        ]
      ]

  -- `state.clients.insert`, and the tenant if there is one.
  unfoldable pub store_client : AppState w → Clock → Text → Text → Option Tenant → AppState w
  store_client s now id token tenant =
      let s' = record s {
        clients = insert id (meta_new now.wall token TransportKind.web_socket) s.clients;
      } in
      elim tenant [
        | none ↦ s'
        | some t ↦ record s' { client_tenants = insert id t.id s'.client_tenants }
      ]

  unfoldable pub rejoin : AppState w → Text → List Text → AppState w
  rejoin s id [] = s
  rejoin s id (k ∷ ks) =
      rejoin (record s { rooms = insert k (Sets.insert id (members_of s k)) s.rooms }) id ks

  -- Cancel a pending removal; also the rooms of it.
  unfoldable pub restore : AppState w → Text → AppState w × List Text
  unfolding rejoin
  restore s id = elim (lookup id s.pending_removals) [
    | none ↦ (s, [])
    | some pending ↦
        let s' =
          rejoin (record s { pending_removals = remove id s.pending_removals }) id pending.rooms in
        (
          record s' { client_rooms = insert id (set_of pending.rooms) s'.client_rooms },
          pending.rooms,
        )
  ]
