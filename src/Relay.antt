-- ===== src/Relay.antt =====
-- src/handlers/message.rs: `handle_transmission` and `handle_data`, the routing of messages.
pub mod Delivery
pub mod Data
use dendri_server.Common.{
  ℕ, ◌+◌, ◌^◌, ◌%◌, Bool, true, false, not, ◌||◌, Option, none, some, List, [], ◌∷◌, Text, codes,
  text_beq, text_eq, if◌then◌else◌, unwrap_or,
}
use dendri_server.Common.Maps.{lookup}
use dendri_server.Common.Int.{pos}
use dendri_server.Enums.{Message, MessageType}
use dendri_server.Frames.{error_frame}
use dendri_server.Realm
use dendri_server.Replay.{push}
use dendri_server.State.{AppState, send, send_to, drop_client, room_key, members_of}
use dendri_server.Validation.{is_valid_identifier}
use dendri_server.World.{World, Clock}

abbrev pub is_leave : MessageType → Bool
is_leave MessageType.leave = true
is_leave _ = false

-- `matches!(msg_type, LEAVE | EXPIRE)`
abbrev pub is_not_queued : MessageType → Bool
is_not_queued MessageType.leave = true
is_not_queued MessageType.expire = true
is_not_queued _ = false

abbrev pub is_empty : Text → Bool
is_empty [] = true
is_empty (b ∷ s) = false

abbrev pub leave_message : Text → Text → Message
leave_message from_id to_id = record {
  type_ = MessageType.leave;
  src = some from_id;
  dst = some to_id;
  payload = none;
  seq = none;
  room = none;
  timestamp = none;
  topic_class = none;
}

abbrev pub u64_mod : ℕ
u64_mod = 2 ^ 64

abbrev pub is_ephemeral : Option Text → Bool
is_ephemeral none = false
is_ephemeral (some c) = text_beq c (codes "ephemeral")

abbrev pub is_valid_or_absent : Option Text → Bool
is_valid_or_absent none = true
is_valid_or_absent (some t) = is_valid_identifier t

module _ {w : World} where
  open w.json use {message_to_json}

  unfoldable pub send_leave_to_source : AppState w → Text → Text → AppState w
  send_leave_to_source s from_id to_id =
      send_to s to_id (message_to_json (leave_message from_id to_id))

  unfoldable pub queue_message_raw : AppState w → ℕ → Text → Text → AppState w
  queue_message_raw s now dst_id json = record s {
    redis = (Realm.add_message_to_queue w.redis s.redis now dst_id json).0;
  }

  -- To the destination's sender; if its channel is closed, the destination is dropped and the
  -- source told. With no sender the message is queued.
  unfoldable pub transmit : AppState w → Clock → Message → Text → Text → AppState w
  unfolding send_leave_to_source queue_message_raw
  transmit s now msg src_id dst_id = elim (lookup dst_id s.ws_senders) [
    | some ch ↦
        let (s', ok) = send s ch (message_to_json msg) in
        if ok then s' else send_leave_to_source (drop_client s' dst_id) dst_id src_id
    | none ↦
        if is_not_queued msg.type_
        then s
        else queue_message_raw s now.wall dst_id (message_to_json msg)
  ]

  unfoldable pub handle_transmission : AppState w → Clock → Message → AppState w
  handle_transmission s now msg =
      let src_id = unwrap_or msg.src [] in
      let dst_id = unwrap_or msg.dst [] in
      if is_empty dst_id
      then (if is_leave msg.type_ then drop_client s src_id else s)
      else transmit s now msg src_id dst_id

  -- The loop over the members of a room, the sender left out.
  unfoldable pub fan_out : AppState w → List Text → Text → Text → AppState w
  fan_out s [] client_id frame = s
  fan_out s (member ∷ members) client_id frame =
      fan_out (if text_beq member client_id then s else send_to s member frame) members client_id
        frame

  unfoldable pub buffer_frame : AppState w → Clock → Option Text → Text → ℕ → Text → AppState w
  buffer_frame s now topic_class key seq frame =
      if is_ephemeral topic_class
      then s
      else record s { replay_buffer = push s.replay_buffer now.instant key seq frame }

  -- The message, numbered and stamped by the server, to the other members of its room, or else to
  -- its destination; unless it is ephemeral, into the replay buffer of the room or destination.
  unfoldable pub relay : AppState w → Clock → Text → Message → ℕ → Text → AppState w
  unfolding buffer_frame
  relay s now client_id msg seq frame = elim msg.room [
    | some room_name ↦
        let key = room_key s client_id room_name in
        buffer_frame (fan_out s (members_of s key) client_id frame) now msg.topic_class key seq
          frame
    | none ↦ elim msg.dst [
      | some dst_id ↦ buffer_frame (send_to s dst_id frame) now msg.topic_class dst_id seq frame
      | none ↦ s
    ]
  ]

  -- `fetch_add(1) + 1`
  abbrev pub next_seq : AppState w → ℕ
  next_seq s = (s.seq_counter + 1) % u64_mod

  abbrev pub stamped : AppState w → Clock → Message → Message
  stamped s now msg = record msg { seq = some (next_seq s); timestamp = some (pos now.wall) }

  unfoldable pub handle_data : AppState w → Clock → Text → Message → AppState w
  unfolding relay
  handle_data s now client_id msg =
      if not s.config.enable_relay
      then send_to s client_id (error_frame (codes "Relay not enabled on this server"))
      else if not (is_valid_or_absent msg.room) || not (is_valid_or_absent msg.dst)
      then s
      else relay (record s { seq_counter = next_seq s }) now client_id (stamped s now msg)
          (next_seq s) (message_to_json (stamped s now msg))
