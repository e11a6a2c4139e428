-- ===== src/Tests/Rooms.antt =====
-- The theorems on connections, messages, rooms and sessions at work on the small server.
use dendri_server.Common.{
  ◌%◌, length, ◌-◌, ◌≡◌, refl, ◌⊎◌, ◌&&◌, false, none, some, [], ◌∷◌, Text, arith, leb, text_beq,
  text_beq_iff, text_eq, codes, if◌then◌else◌,
}
use dendri_server.Common.Maps.{lookup, insert, adjust, IsDistinct}
use dendri_server.Common.Sets
use dendri_server.Connect.{WsQuery, connected, enforce_jwt, store_client}
use dendri_server.Connect.Serving.{disconnect}
use dendri_server.Connect.Admission.{Authentic, handle_socket-Authentic}
use dendri_server.Connect.Departure.{disconnect-IsCounted}
use dendri_server.Connect.Return.{cleanup-admit}
use dendri_server.Connect.Upgrade.{
  resolve_tenant, existing_token, admit, enter, authorize, handle_socket,
}
use dendri_server.Dispatch.{dispatch, record_activity, handle_message}
use dendri_server.Dispatch.Count.{IsCounted}
use dendri_server.Dispatch.Counted.{handle_message-IsCounted}
use dendri_server.Dispatch.Invariant.{
  IsMember, IsListed, IsConsistent, IsWithinLimits, handle_message-IsConsistent,
}
use dendri_server.Dispatch.Membership.{
  MayJoin, handle_message-IsMember, pending_rooms, IsAccounted, handle_message-IsAccounted,
}
use dendri_server.Enums.{MessageType}
use dendri_server.Jwt.{room_allowed, effective_jwt_secret}
use dendri_server.Realm
use dendri_server.RoomKey.{namespace_room}
use dendri_server.Rooms.{is_nil, add_member, send_presence, welcome, join_stored, handle_room_join}
use dendri_server.Services.{evict_clients, check_broken, evict_client}
use dendri_server.Services.Eviction.{survivor, check_broken-clients}
use dendri_server.Services.Ghosts.{disconnect-evict_client}
use dendri_server.Sessions.{remove_client_from_all_rooms, cleanup_expired_sessions}
use dendri_server.Sessions.Expiry.{is_due}
use dendri_server.Sessions.Grace.{
  contains-cleanup_expired_sessions, cleanup-remove_client_from_all_rooms,
  remove_client_from_all_rooms-orphan,
}
use dendri_server.Slots.{try_reserve_connection_slot}
use dendri_server.State.{members_of, rooms_of, room_key, send, send_to, notify}
use dendri_server.Tests.{noon, later, alice, bob, lobby, hall, server, away, room_message}
use dendri_server.Validation.{is_valid_identifier, is_identifier_byte, constant_time_str_eq}

pub server-IsConsistent : IsConsistent server
unfolding lookup Sets.contains
server-IsConsistent = record {
  listed = λ c k l. ground (arith, l, text_beq_iff bob c, text_beq_iff lobby k);
  inhabited = λ k e. ground (arith, e);
}

server-IsWithinLimits : IsWithinLimits server
unfolding lookup
server-IsWithinLimits = record {
  room_size = λ k pos. ground arith;
  client_rooms = λ c pos. ground arith;
  total = λ pos. omega arith;
}

handle_message-IsConsistent_example :
    IsConsistent (handle_message server noon alice (room_message MessageType.room_join lobby))
    × IsWithinLimits (handle_message server noon alice (room_message MessageType.room_join lobby))
handle_message-IsConsistent_example =
    handle_message-IsConsistent server noon alice (room_message MessageType.room_join lobby)
      server-IsConsistent server-IsWithinLimits

joined :
    IsMember
      (handle_message server noon alice (room_message MessageType.room_join lobby))
      alice
      lobby
unfolding handle_message dispatch record_activity handle_room_join join_stored welcome add_member
    send_presence send_to send notify room_key namespace_room is_valid_identifier is_identifier_byte
    lookup insert adjust Sets.contains Sets.insert text_beq room_allowed
joined = refl

handle_message-IsMember_example :
    IsMember server alice lobby ⊎ ((alice ≡ alice) × MayJoin server alice (some lobby) lobby)
handle_message-IsMember_example =
    handle_message-IsMember server noon alice (room_message MessageType.room_join lobby) alice lobby
      joined

server-IsAccounted : IsAccounted server
unfolding lookup Sets.contains
server-IsAccounted c k m = ground (arith, m, text_beq_iff bob c, text_beq_iff lobby k)

handle_message-IsAccounted_example :
    IsAccounted (handle_message server noon bob (room_message MessageType.room_leave lobby))
handle_message-IsAccounted_example =
    handle_message-IsAccounted server noon bob (room_message MessageType.room_leave lobby)
      server-IsAccounted

abbrev carol_query : WsQuery
carol_query = record {
  id = some (codes "carol");
  token = some (codes "t");
  key = some (codes "dendri");
  jwt = some (codes "s");
  api_key = none;
  last_seq = none;
}

carol_connects : (handle_socket server noon carol_query).1 ≡ connected 2
unfolding handle_socket is_valid_identifier is_identifier_byte constant_time_str_eq authorize
    resolve_tenant enforce_jwt effective_jwt_secret enter existing_token admit
    Realm.get_client_token Realm.register_client lookup text_beq try_reserve_connection_slot
    store_client
carol_connects = refl

handle_socket-Authentic_example : Authentic server noon carol_query
handle_socket-Authentic_example = handle_socket-Authentic server noon carol_query 2 carol_connects

away-IsDistinct : IsDistinct away.pending_removals
unfolding lookup
away-IsDistinct = (refl, tt)

away-IsAccounted : IsAccounted away
unfolding lookup Sets.contains
away-IsAccounted c k m =
    ground (arith, m, text_beq_iff bob c, text_beq_iff lobby k, text_beq_iff hall k)

contains-cleanup_expired_sessions_example :
    Sets.contains bob (members_of (cleanup_expired_sessions away later) hall) ≡ (
      if is_due 100000 30000 (lookup bob away.pending_removals)
        && Sets.contains hall (pending_rooms away bob)
      then false
      else Sets.contains bob (members_of away hall))
contains-cleanup_expired_sessions_example =
    contains-cleanup_expired_sessions away later refl away-IsDistinct bob hall

no_removal : lookup bob server.pending_removals ≡ none
unfolding lookup
no_removal = refl

cleanup-remove_client_from_all_rooms_example :
    Sets.contains bob (
      members_of
        (cleanup_expired_sessions (remove_client_from_all_rooms server noon bob) later)
        lobby)
    ≡ (if leb 30000 (100000 - 1000) then false else Sets.contains bob (members_of server lobby))
cleanup-remove_client_from_all_rooms_example =
    cleanup-remove_client_from_all_rooms server noon later bob refl no_removal tt server-IsAccounted
      lobby

away_facts :
    (is_nil (rooms_of away bob) ≡ false)
    × (Sets.contains hall (rooms_of away bob) ≡ false)
    × IsMember away bob hall
unfolding lookup Sets.contains text_beq
away_facts = (refl, refl, refl)

remove_client_from_all_rooms-orphan_example :
    IsMember (cleanup_expired_sessions (remove_client_from_all_rooms away noon bob) later) bob hall
    × (Sets.contains hall (pending_rooms (remove_client_from_all_rooms away noon bob) bob) ≡ false)
    × ¬ IsListed (remove_client_from_all_rooms away noon bob) bob hall
remove_client_from_all_rooms-orphan_example =
    remove_client_from_all_rooms-orphan away noon later bob hall refl away-IsDistinct away_facts.0
      away_facts.1 away_facts.2

server_clients : IsDistinct server.clients
unfolding lookup text_beq
server_clients = (refl, (refl, tt))

check_broken-clients_example :
    ((d : Text)
      → lookup d (check_broken server later 60).clients
        ≡ survivor 43299000 60000 0 (lookup d server.clients))
    × (60 % 60 ≡ 0
        → (check_broken server later 60).active_connections
          ≡ length (check_broken server later 60).clients)
check_broken-clients_example =
    check_broken-clients server later 60 server_clients (omega arith) (omega arith)

disconnect-evict_client_example :
    let t = disconnect (evict_client server bob) later bob 1 in
    (t.rooms ≡ server.rooms) × (t.client_rooms ≡ server.client_rooms)
disconnect-evict_client_example = disconnect-evict_client server later bob 1

pub server-IsCounted : IsCounted server
server-IsCounted = record { distinct = server_clients; count = refl; small = omega arith }

handle_message-IsCounted_example :
    IsCounted (handle_message server noon alice (room_message MessageType.leave lobby))
handle_message-IsCounted_example =
    handle_message-IsCounted server noon alice (room_message MessageType.leave lobby)
      server-IsCounted

cleanup-admit_example :
    Sets.contains bob (
      members_of
        (cleanup_expired_sessions
          (admit (remove_client_from_all_rooms server noon bob) noon bob (codes "t") none none).0
          later)
        lobby)
    ≡ (if leb 30000 (100000 - 1000) then false else Sets.contains bob (members_of server lobby))
cleanup-admit_example =
    cleanup-admit server noon noon later bob (codes "t") none none refl no_removal tt
      server-IsAccounted lobby

disconnect-IsCounted_example : IsCounted (disconnect (evict_clients server (bob ∷ [])) later bob 1)
disconnect-IsCounted_example = disconnect-IsCounted server later (bob ∷ []) bob 1 server-IsCounted
