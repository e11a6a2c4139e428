-- ===== src/Dispatch.antt =====
-- src/handlers/message.rs: `handle_message`, which every transport calls for each message.
pub mod Steady
pub mod RoomSteps
pub mod Invariant
pub mod Membership
pub mod Count
pub mod Counted
pub mod Signals
pub mod Refinement
use dendri_server.Common.{Bool, true, false, some, Text, text_eq, if◌then◌else◌}
use dendri_server.Common.Maps.{adjust}
use dendri_server.Enums.{Message, MessageType}
use dendri_server.Relay.{handle_transmission, handle_data}
use dendri_server.Rooms.{handle_room_join, handle_room_leave, handle_presence_update}
use dendri_server.State.{AppState, touch, record_message}
use dendri_server.World.{World, Clock}

abbrev pub is_heartbeat : MessageType → Bool
is_heartbeat MessageType.heartbeat = true
is_heartbeat _ = false

module _ {w : World} where
  unfoldable pub handle_heartbeat : AppState w → Clock → Text → AppState w
  handle_heartbeat s now client_id = record s {
    clients = adjust client_id (touch now.wall) s.clients;
  }

  -- The `match` on the type.
  unfoldable pub dispatch : MessageType → AppState w → Clock → Text → Message → AppState w
  unfolding handle_heartbeat
  dispatch MessageType.heartbeat s now client_id msg = handle_heartbeat s now client_id
  dispatch MessageType.offer s now client_id msg = handle_transmission s now msg
  dispatch MessageType.answer s now client_id msg = handle_transmission s now msg
  dispatch MessageType.candidate s now client_id msg = handle_transmission s now msg
  dispatch MessageType.ack s now client_id msg = handle_transmission s now msg
  dispatch MessageType.leave s now client_id msg = handle_transmission s now msg
  dispatch MessageType.expire s now client_id msg = handle_transmission s now msg
  dispatch MessageType.data_ s now client_id msg = handle_data s now client_id msg
  dispatch MessageType.room_join s now client_id msg = handle_room_join s now client_id msg
  dispatch MessageType.room_leave s now client_id msg = handle_room_leave s now client_id msg
  dispatch MessageType.presence_update s now client_id msg = handle_presence_update s client_id msg
  dispatch _ s now client_id msg = s

  -- Message activity, for the idle timeout; heartbeats are not counted.
  unfoldable pub record_activity : AppState w → Clock → Text → MessageType → AppState w
  record_activity s now client_id t =
      if is_heartbeat t
      then s
      else record s { clients = adjust client_id (record_message now.wall) s.clients }

  unfoldable pub handle_message : AppState w → Clock → Text → Message → AppState w
  unfolding dispatch record_activity
  handle_message s now client_id msg =
      dispatch msg.type_ (record_activity s now client_id msg.type_) now client_id
        (record msg { src = some client_id })
