-- ===== src/Sessions.antt =====
-- src/handlers/message.rs: the removal from all rooms, at once or after the session's TTL.
pub mod Purge
pub mod Expiry
pub mod Grace
pub mod Clients
use dendri_server.Common.{
  ℕ, ◌-◌, none, some, List, [], ◌∷◌, Text, leb, nat_beq, text_eq, if◌then◌else◌,
}
use dendri_server.Common.Maps.{Map, lookup, insert, remove}
use dendri_server.Replay
use dendri_server.Rooms.{remove_client_from_room, is_nil}
use dendri_server.State.{AppState, PendingRemoval}
use dendri_server.World.{World, Clock}

-- The clients whose grace period is over.
unfoldable pub expired_ids : ℕ → ℕ → Map Text PendingRemoval → List Text
expired_ids now ttl [] = []
expired_ids now ttl (e ∷ m) =
    if leb ttl (now - e.1.disconnected_at)
    then e.0 ∷ expired_ids now ttl m
    else expired_ids now ttl m

module _ {w : World} where
  unfoldable pub remove_from_rooms : AppState w → Text → List Text → AppState w
  remove_from_rooms s client_id [] = s
  remove_from_rooms s client_id (room ∷ rooms) =
      remove_from_rooms (remove_client_from_room s client_id room) client_id rooms

  -- `state.replay_buffer.remove_client`
  abbrev pub forget_replay : AppState w → Text → AppState w
  forget_replay s client_id = record s {
    replay_buffer = Replay.remove_client s.replay_buffer client_id;
  }

  unfoldable pub immediate_remove_from_all_rooms : AppState w → Text → AppState w
  unfolding remove_from_rooms
  immediate_remove_from_all_rooms s client_id = elim (lookup client_id s.client_rooms) [
    | none ↦ forget_replay s client_id
    | some rooms ↦
        forget_replay
          (remove_from_rooms (record s { client_rooms = remove client_id s.client_rooms }) client_id
            rooms)
          client_id
  ]

  unfoldable pub defer_removal : AppState w → Clock → Text → List Text → AppState w
  defer_removal s now client_id rooms = if is_nil rooms then s else record s {
    pending_removals =
        insert client_id (record { rooms = rooms; disconnected_at = now.instant })
          s.pending_removals;
  }

  unfoldable pub remove_client_from_all_rooms : AppState w → Clock → Text → AppState w
  unfolding immediate_remove_from_all_rooms defer_removal
  remove_client_from_all_rooms s now client_id =
      if nat_beq s.config.session_ttl 0
      then immediate_remove_from_all_rooms s client_id
      else elim (lookup client_id s.client_rooms) [
        | none ↦ forget_replay s client_id
        | some rooms ↦
            forget_replay
              (defer_removal (record s { client_rooms = remove client_id s.client_rooms }) now
                client_id rooms)
              client_id
      ]

  unfoldable pub expire_session : AppState w → Text → AppState w
  unfolding remove_from_rooms
  expire_session s client_id = elim (lookup client_id s.pending_removals) [
    | none ↦ s
    | some pending ↦
        remove_from_rooms (record s { pending_removals = remove client_id s.pending_removals })
          client_id pending.rooms
  ]

  unfoldable pub expire_sessions : AppState w → List Text → AppState w
  unfolding expire_session
  expire_sessions s [] = s
  expire_sessions s (id ∷ ids) = expire_sessions (expire_session s id) ids

  unfoldable pub cleanup_expired_sessions : AppState w → Clock → AppState w
  unfolding expire_sessions expired_ids
  cleanup_expired_sessions s now =
      if nat_beq s.config.session_ttl 0
      then s
      else expire_sessions s (expired_ids now.instant s.config.session_ttl s.pending_removals)
