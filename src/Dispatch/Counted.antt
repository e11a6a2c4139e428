-- ===== src/Dispatch/Counted.antt =====
-- Every message keeps the count of connections (src/state.rs, src/handlers/message.rs).
use dendri_server.Common.{
  ℕ, refl, ap, inl, inr, Bool, true, false, not, ◌||◌, Option, none, some, Text, arith, text_eq,
  if◌then◌else◌, Option-cases, Bool-cases,
}
use dendri_server.Dispatch.{is_heartbeat, dispatch, record_activity, handle_message}
use dendri_server.Enums.{Message, MessageType}
use dendri_server.Relay.{
  buffer_frame, is_valid_or_absent, fan_out, relay, next_seq, stamped, handle_data,
}
use dendri_server.Relay.Delivery.{fan_out-OnlySends}
use dendri_server.Rooms.{
  add_member, store_presence, handle_presence_update, handle_room_join, handle_room_leave,
}
use dendri_server.Rooms.Effects.{Joins, refused, admitted, handle_room_join-Joins}
use dendri_server.Sessions.Clients.{SameClients, remove_client_from_room-SameClients}
use dendri_server.State.{AppState, send_to, room_key, members_of}
use dendri_server.State.Sends.{OnlySends, send_to-OnlySends, notify-OnlySends}
use dendri_server.Validation.{is_valid_identifier}
use dendri_server.World.{World, Clock}
use dendri_server.Dispatch.Count.{
  IsCounted, same_count, adjust-IsCounted, handle_transmission-IsCounted,
}
use dendri_server.Sessions.Clients.{SameClients-trans}
use dendri_server.State.{touch, record_message}

module _ {w : World} where
  -- Relaying and rooms concern neither the clients nor the count.
  buffer_frame-SameClients :
      (s : AppState w) (now : Clock) (topic_class : Option Text) (key : Text) (seq : ℕ)
      (frame : Text)
      → SameClients s (buffer_frame s now topic_class key seq frame)
  unfolding buffer_frame
  buffer_frame-SameClients s now topic_class key seq frame = record {
    clients = ground arith;
    count = ground arith;
  }

  OnlySends-SameClients : {s t : AppState w} → OnlySends s t → SameClients s t
  OnlySends-SameClients o = record {
    clients = ap (λ (t : AppState w). t.clients) o.moved;
    count = ap (λ (t : AppState w). t.active_connections) o.moved;
  }

  SameClients-IsCounted : {s t : AppState w} → SameClients s t → IsCounted s → IsCounted t
  SameClients-IsCounted v = same_count v.clients v.count

  either :
      (b : Bool) {s x y : AppState w}
      → SameClients s x
      → SameClients s y
      → SameClients s (if b then x else y)
  either true p q = p
  either false p q = q

  relay-SameClients :
      (s : AppState w) (now : Clock) (client_id : Text) (msg : Message) (seq : ℕ) (frame : Text)
      → SameClients s (relay s now client_id msg seq frame)
  unfolding relay
  relay-SameClients s now client_id msg seq frame = elim (Option-cases msg.room) [
    | inr (room_name, e) ↦
        let key = room_key s client_id room_name in
        let sent = fan_out s (members_of s key) client_id frame in
        rw (e, relay)
          (SameClients-trans
            (OnlySends-SameClients (fan_out-OnlySends s (members_of s key) client_id frame))
            (buffer_frame-SameClients sent now msg.topic_class key seq frame))
    | inl e ↦
        rw (e, relay)
          (elim (Option-cases msg.dst) [
            | inl f ↦ rw (f, relay) (record { clients = refl; count = refl })
            | inr (dst_id, f) ↦
                rw (f, relay)
                  (SameClients-trans (OnlySends-SameClients (send_to-OnlySends s dst_id frame)) (
                    buffer_frame-SameClients (send_to s dst_id frame) now msg.topic_class dst_id seq
                      frame))
          ])
  ]

  handle_data-SameClients :
      (s : AppState w) (now : Clock) (client_id : Text) (msg : Message)
      → SameClients s (handle_data s now client_id msg)
  unfolding handle_data
  handle_data-SameClients s now client_id msg =
      either (not s.config.enable_relay) (OnlySends-SameClients (send_to-OnlySends s client_id _)) (
        either (not (is_valid_or_absent msg.room) || not (is_valid_or_absent msg.dst))
          (record { clients = refl; count = refl })
          (SameClients-trans {t = record s { seq_counter = next_seq s }}
            (record { clients = refl; count = refl })
            (relay-SameClients (record s { seq_counter = next_seq s }) now client_id
              (stamped s now msg) (next_seq s) _)))

  handle_room_join-SameClients :
      (s : AppState w) (now : Clock) (client_id : Text) (msg : Message)
      → SameClients s (handle_room_join s now client_id msg)
  unfolding add_member
  handle_room_join-SameClients s now client_id msg =
      after (handle_room_join-Joins s now client_id msg)
    where
      after : {t : AppState w} → Joins s client_id msg.room t → SameClients s t
      after (refused h o) = OnlySends-SameClients o
      after (admitted room_name e a passed o) =
          let v = OnlySends-SameClients o in record { clients = v.clients; count = v.count }

  handle_room_leave-SameClients :
      (s : AppState w) (now : Clock) (client_id : Text) (msg : Message)
      → SameClients s (handle_room_leave s now client_id msg)
  unfolding handle_room_leave
  handle_room_leave-SameClients s now client_id msg = elim (Option-cases msg.room) [
    | inl e ↦ rw (e, handle_room_leave) (record { clients = refl; count = refl })
    | inr (room_name, e) ↦
        rw (e, handle_room_leave)
          (either (not (is_valid_identifier room_name)) (record { clients = refl; count = refl })
            (SameClients-trans
              (remove_client_from_room-SameClients s client_id (room_key s client_id room_name))
              (OnlySends-SameClients (notify-OnlySends _ _))))
  ]

  handle_presence_update-SameClients :
      (s : AppState w) (client_id : Text) (msg : Message)
      → SameClients s (handle_presence_update s client_id msg)
  unfolding handle_presence_update
  handle_presence_update-SameClients s client_id msg = elim (Option-cases msg.room) [
    | inl e ↦ rw (e, handle_presence_update) (record { clients = refl; count = refl })
    | inr (room_name, e) ↦
        rw (e, handle_presence_update)
          (either (not (is_valid_identifier room_name)) (record { clients = refl; count = refl })
            (SameClients-trans (stored (room_key s client_id room_name) msg.payload)
              (OnlySends-SameClients (fan_out-OnlySends _ _ client_id _))))
  ]
    where
      stored :
          (key : Text) (payload : Option Text)
          → SameClients s (store_presence s client_id key payload)
      stored key none = record { clients = refl; count = refl }
      stored key (some payload) = record { clients = refl; count = refl }

  dispatch-IsCounted :
      (t : MessageType) (s : AppState w) (now : Clock) (client_id : Text) (msg : Message)
      → IsCounted s
      → IsCounted (dispatch t s now client_id msg)
  unfolding dispatch
  dispatch-IsCounted MessageType.heartbeat s now client_id msg h =
      adjust-IsCounted s client_id (touch now.wall) h
  dispatch-IsCounted MessageType.offer s now client_id msg h =
      handle_transmission-IsCounted s now msg h
  dispatch-IsCounted MessageType.answer s now client_id msg h =
      handle_transmission-IsCounted s now msg h
  dispatch-IsCounted MessageType.candidate s now client_id msg h =
      handle_transmission-IsCounted s now msg h
  dispatch-IsCounted MessageType.ack s now client_id msg h =
      handle_transmission-IsCounted s now msg h
  dispatch-IsCounted MessageType.leave s now client_id msg h =
      handle_transmission-IsCounted s now msg h
  dispatch-IsCounted MessageType.expire s now client_id msg h =
      handle_transmission-IsCounted s now msg h
  dispatch-IsCounted MessageType.data_ s now client_id msg h =
      SameClients-IsCounted (handle_data-SameClients s now client_id msg) h
  dispatch-IsCounted MessageType.room_join s now client_id msg h =
      SameClients-IsCounted (handle_room_join-SameClients s now client_id msg) h
  dispatch-IsCounted MessageType.room_leave s now client_id msg h =
      SameClients-IsCounted (handle_room_leave-SameClients s now client_id msg) h
  dispatch-IsCounted MessageType.presence_update s now client_id msg h =
      SameClients-IsCounted (handle_presence_update-SameClients s client_id msg) h
  dispatch-IsCounted MessageType.open_ s now client_id msg h = h
  dispatch-IsCounted MessageType.id_taken s now client_id msg h = h
  dispatch-IsCounted MessageType.error s now client_id msg h = h
  dispatch-IsCounted MessageType.room_peers s now client_id msg h = h

  -- If the counter of connections is the number of clients, which are distinct and fewer than 2^64,
  -- then so it is after `handle_message`, whatever the message and whoever is dropped by it.
  pub handle_message-IsCounted :
      (s : AppState w) (now : Clock) (client_id : Text) (msg : Message)
      → IsCounted s
      → IsCounted (handle_message s now client_id msg)
  unfolding handle_message record_activity
  handle_message-IsCounted s now client_id msg h = elim (Bool-cases (is_heartbeat msg.type_)) [
    | inl e ↦
        rw (e, handle_message)
          (dispatch-IsCounted msg.type_ s now client_id (record msg { src = some client_id }) h)
    | inr e ↦
        rw (e, handle_message)
          (dispatch-IsCounted msg.type_ _ now client_id (record msg { src = some client_id })
            (adjust-IsCounted s client_id (record_message now.wall) h))
  ]
