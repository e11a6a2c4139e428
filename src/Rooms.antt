-- ===== src/Rooms.antt =====
-- src/handlers/message.rs: joining, presence and leaving.
pub mod Verdict
pub mod Effects
pub mod Leaving
use dendri_server.Common.{
  ℕ, Bool, true, false, not, ◌&&◌, Option, none, some, List, [], ◌∷◌, Text, codes, length, leb, ltb,
  text_eq, if◌then◌else◌, unwrap_or,
}
use dendri_server.Common.Maps.{Map, lookup, insert, remove, adjust, contains_key}
use dendri_server.Common.Sets
use dendri_server.Enums.{Message}
use dendri_server.Frames.{error_frame, denied_frame, peers_frame, presence_frame}
use dendri_server.Jwt.{room_allowed}
use dendri_server.Relay.{fan_out}
use dendri_server.RoomKey.{room_display}
use dendri_server.State.{AppState, send_to, notify, room_key, members_of, rooms_of}
use dendri_server.Validation.{is_valid_identifier}
use dendri_server.Webhook.{room_joined, room_left}
use dendri_server.World.{World, Clock}

abbrev pub is_nil {ℓ} : {A : Type ℓ} → List A → Bool
is_nil [] = true
is_nil (x ∷ xs) = false

-- A limit of 0 is no limit.
abbrev pub reached : ℕ → ℕ → Bool
reached limit n = ltb 0 limit && leb limit n

module _ {w : World} where
  open w.json use {message_to_json, list_to_json}

  unfoldable pub deny : AppState w → Text → Text → Text → AppState w
  deny s client_id room_name reason = send_to s client_id (denied_frame room_name reason)

  -- The loop that sends the stored presence of a room to a joiner.
  unfoldable pub send_presence : AppState w → Map Text Text → Text → Text → AppState w
  send_presence s [] client_id room_name = s
  send_presence s (entry ∷ entries) client_id room_name =
      send_presence (send_to s client_id (presence_frame entry.0 room_name entry.1)) entries
        client_id room_name

  -- Both indexes.
  unfoldable pub add_member : AppState w → Text → Text → AppState w
  add_member s client_id stored = record s {
    rooms = insert stored (Sets.insert client_id (members_of s stored)) s.rooms;
    client_rooms = insert client_id (Sets.insert stored (rooms_of s client_id)) s.client_rooms;
  }

  -- What a new member is sent, and the webhook.
  unfoldable pub welcome : AppState w → Clock → Text → Text → Text → AppState w
  unfolding send_presence
  welcome s now client_id room_name stored =
      notify
        (send_presence
          (send_to s client_id (peers_frame room_name (list_to_json (members_of s stored))))
          (unwrap_or (lookup stored s.presence) []) client_id room_name)
        (room_joined now.wall client_id room_name)

  abbrev pub already_member : AppState w → Text → Text → Bool
  already_member s client_id stored = Sets.contains stored (rooms_of s client_id)

  abbrev pub client_at_limit : AppState w → Text → Bool
  client_at_limit s client_id =
      reached s.config.max_rooms_per_client (length (rooms_of s client_id))

  abbrev pub server_at_limit : AppState w → Text → Bool
  server_at_limit s stored =
      ltb 0 s.config.max_total_rooms
      && (not (contains_key stored s.rooms) && leb s.config.max_total_rooms (length s.rooms))

  -- `if let Some(members) = … { if members.len() >= max_size { … } }`
  abbrev pub room_at_limit : AppState w → Text → Bool
  room_at_limit s stored =
      ltb 0 s.config.max_room_size
      && (contains_key stored s.rooms && leb s.config.max_room_size (length (members_of s stored)))

  unfoldable pub join_stored : AppState w → Clock → Text → Text → Text → AppState w
  join_stored s now client_id room_name stored =
      if not (already_member s client_id stored) && client_at_limit s client_id
      then deny s client_id room_name (codes "client_room_limit")
      else if not (already_member s client_id stored) && server_at_limit s stored
      then deny s client_id room_name (codes "server_room_limit")
      else if room_at_limit s stored
      then deny s client_id room_name (codes "room_full")
      else welcome (add_member s client_id stored) now client_id room_name stored

  -- The claims of the client, if any, allow the room.
  abbrev pub is_allowed : AppState w → Text → Text → Bool
  is_allowed s client_id room_name = elim (lookup client_id s.client_claims) [
    | none ↦ true
    | some claims ↦ room_allowed w.json claims room_name
  ]

  unfoldable pub handle_room_join : AppState w → Clock → Text → Message → AppState w
  handle_room_join s now client_id msg = elim msg.room [
    | none ↦ s
    | some room_name ↦
        if not (is_valid_identifier room_name)
        then send_to s client_id (error_frame (codes "Invalid room name"))
        else if not (is_allowed s client_id room_name)
        then deny s client_id room_name (codes "auth_denied")
        else join_stored s now client_id room_name (room_key s client_id room_name)
  ]

  unfoldable pub store_presence : AppState w → Text → Text → Option Text → AppState w
  store_presence s client_id stored none = s
  store_presence s client_id stored (some payload) = record s {
    presence =
        insert stored (insert client_id payload (unwrap_or (lookup stored s.presence) []))
          s.presence;
  }

  unfoldable pub handle_presence_update : AppState w → Text → Message → AppState w
  unfolding store_presence
  handle_presence_update s client_id msg = elim msg.room [
    | none ↦ s
    | some room_name ↦
        if not (is_valid_identifier room_name)
        then s
        else (let stored = room_key s client_id room_name in
            fan_out (store_presence s client_id stored msg.payload) (members_of s stored) client_id
              (message_to_json msg))
  ]

  -- The loop that tells every member of the room; unlike `fan_out` it leaves nobody out.
  unfoldable pub broadcast : AppState w → List Text → Text → AppState w
  broadcast s [] frame = s
  broadcast s (member ∷ members) frame = broadcast (send_to s member frame) members frame

  -- An empty room goes, with its presence; the members of another are told.
  unfoldable pub settle_room : AppState w → Text → AppState w
  unfolding broadcast
  settle_room s stored_key =
      if is_nil (members_of s stored_key)
      then record s { rooms = remove stored_key s.rooms; presence = remove stored_key s.presence }
      else broadcast s (members_of s stored_key)
          (peers_frame (room_display stored_key) (list_to_json (members_of s stored_key)))

  unfoldable pub take_member : AppState w → Text → Text → AppState w
  take_member s client_id stored_key = record s {
    rooms = adjust stored_key (Sets.remove client_id) s.rooms;
    presence = adjust stored_key (remove client_id) s.presence;
  }

  unfoldable pub remove_client_from_room : AppState w → Text → Text → AppState w
  unfolding settle_room take_member
  remove_client_from_room s client_id stored_key =
      if contains_key stored_key s.rooms
      then (let s' = settle_room (take_member s client_id stored_key) stored_key in
          record s' { client_rooms = adjust client_id (Sets.remove stored_key) s'.client_rooms })
      else s

  unfoldable pub handle_room_leave : AppState w → Clock → Text → Message → AppState w
  handle_room_leave s now client_id msg = elim msg.room [
    | none ↦ s
    | some room_name ↦
        if not (is_valid_identifier room_name)
        then s
        else notify (remove_client_from_room s client_id (room_key s client_id room_name))
            (room_left now.wall client_id room_name)
  ]
