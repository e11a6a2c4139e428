-- ===== src/Dispatch/RoomSteps.antt =====
-- What `handle_message` of src/handlers/message.rs may do to the two room indexes.
use dendri_server.Common.{
  ◌≡◌, refl, sym, ap, ◌∙◌, inl, inr, Option, some, [], Text, unwrap_or, text_eq, Option-cases,
  Bool-cases,
}
use dendri_server.Common.Maps.{Map, lookup}
use dendri_server.Dispatch.{is_heartbeat, dispatch, record_activity, handle_message}
use dendri_server.Enums.{Message, MessageType}
use dendri_server.Dispatch.Steady.{
  KeepsRooms, keeps, KeepsRooms-refl, KeepsRooms-trans, OnlySends-KeepsRooms,
  handle_transmission-KeepsRooms, handle_data-KeepsRooms, handle_presence_update-KeepsRooms,
}
use dendri_server.Rooms.{add_member, handle_room_leave}
use dendri_server.Rooms.Effects.{Admits, Joins, refused, admitted, handle_room_join-Joins}
use dendri_server.Rooms.Leaving.{Leaves, remove_client_from_room-Leaves}
use dendri_server.State.{AppState, ClientMeta, room_key}
use dendri_server.State.Sends.{notify-OnlySends}
use dendri_server.Validation.{is_valid_identifier}
use dendri_server.World.{World, Clock}

module _ {w : World} where
  -- What a message may do to the two room indexes.
  pub data RoomStep (s : AppState w) (c : Text) (room : Option Text) (t : AppState w) : Type 0 where
    kept : KeepsRooms s t → RoomStep s c room t
    joined :
        (room_name : Text)
        → room ≡ some room_name
        → Admits s c room_name
        → KeepsRooms (add_member s c (room_key s c room_name)) t
        → RoomStep s c room t
    left :
        (room_name : Text)
        → room ≡ some room_name
        → Leaves s c (room_key s c room_name) t
        → RoomStep s c room t

  Leaves-KeepsRooms :
      {s t u : AppState w} {c k : Text} → Leaves s c k t → KeepsRooms t u → Leaves s c k u
  Leaves-KeepsRooms l r = record {
    members = λ j. ap (λ m. unwrap_or (lookup j m) []) r.rooms ∙ l.members j;
    joined = λ d. ap (λ m. unwrap_or (lookup d m) []) r.client_rooms ∙ l.joined d;
    inhabited = λ j h e. l.inhabited j h (sym (ap (lookup j) r.rooms) ∙ e);
    fewer = rw (r.rooms) l.fewer;
    same = record {
      config = r.same.config ∙ l.same.config;
      pending_removals = r.same.pending_removals ∙ l.same.pending_removals;
      client_tenants = r.same.client_tenants ∙ l.same.client_tenants;
      client_claims = r.same.client_claims ∙ l.same.client_claims;
    };
  }

  Joins-RoomStep :
      {s t : AppState w} {c : Text} {room : Option Text} → Joins s c room t → RoomStep s c room t
  Joins-RoomStep (refused h o) = kept (OnlySends-KeepsRooms o)
  Joins-RoomStep (admitted room_name e a passed o) = joined room_name e a (OnlySends-KeepsRooms o)

  handle_room_leave-RoomStep :
      (s : AppState w) (now : Clock) (client_id : Text) (msg : Message)
      → RoomStep s client_id msg.room (handle_room_leave s now client_id msg)
  unfolding handle_room_leave
  handle_room_leave-RoomStep s now client_id msg = elim (Option-cases msg.room) [
    | inl e ↦ rw (e, handle_room_leave) (kept (KeepsRooms-refl s))
    | inr (room_name, e) ↦
        rw (e, handle_room_leave)
          (elim (Bool-cases (is_valid_identifier room_name)) [
            | inr v ↦ rw v (kept (KeepsRooms-refl s))
            | inl v ↦ rw v (
                left room_name refl (
                  Leaves-KeepsRooms
                    (remove_client_from_room-Leaves s client_id (room_key s client_id room_name))
                    (OnlySends-KeepsRooms (notify-OnlySends _ _))))
          ])
  ]

  dispatch-RoomStep :
      (t : MessageType) (s : AppState w) (now : Clock) (client_id : Text) (msg : Message)
      → RoomStep s client_id msg.room (dispatch t s now client_id msg)
  unfolding dispatch
  dispatch-RoomStep MessageType.heartbeat s now client_id msg =
      kept (keeps s _ refl refl refl refl refl refl)
  dispatch-RoomStep MessageType.offer s now client_id msg =
      kept (handle_transmission-KeepsRooms s now msg)
  dispatch-RoomStep MessageType.answer s now client_id msg =
      kept (handle_transmission-KeepsRooms s now msg)
  dispatch-RoomStep MessageType.candidate s now client_id msg =
      kept (handle_transmission-KeepsRooms s now msg)
  dispatch-RoomStep MessageType.ack s now client_id msg =
      kept (handle_transmission-KeepsRooms s now msg)
  dispatch-RoomStep MessageType.leave s now client_id msg =
      kept (handle_transmission-KeepsRooms s now msg)
  dispatch-RoomStep MessageType.expire s now client_id msg =
      kept (handle_transmission-KeepsRooms s now msg)
  dispatch-RoomStep MessageType.data_ s now client_id msg =
      kept (handle_data-KeepsRooms s now client_id msg)
  dispatch-RoomStep MessageType.room_join s now client_id msg =
      Joins-RoomStep (handle_room_join-Joins s now client_id msg)
  dispatch-RoomStep MessageType.room_leave s now client_id msg =
      handle_room_leave-RoomStep s now client_id msg
  dispatch-RoomStep MessageType.presence_update s now client_id msg =
      kept (handle_presence_update-KeepsRooms s client_id msg)
  dispatch-RoomStep MessageType.open_ s now client_id msg = kept (KeepsRooms-refl s)
  dispatch-RoomStep MessageType.id_taken s now client_id msg = kept (KeepsRooms-refl s)
  dispatch-RoomStep MessageType.error s now client_id msg = kept (KeepsRooms-refl s)
  dispatch-RoomStep MessageType.room_peers s now client_id msg = kept (KeepsRooms-refl s)

  -- The entries of the clients play no part.
  RoomStep-clients :
      (s : AppState w) {x : Map Text ClientMeta} {c : Text} {room : Option Text} {t : AppState w}
      → RoomStep (record s { clients = x }) c room t
      → RoomStep s c room t
  unfolding room_key add_member
  RoomStep-clients s (kept k) = kept (KeepsRooms-trans (keeps s _ refl refl refl refl refl refl) k)
  RoomStep-clients s (joined room_name e a k) =
      joined room_name e
        (record {
          valid = a.valid;
          allowed = a.allowed;
          client_limit = a.client_limit;
          server_limit = a.server_limit;
          room_limit = a.room_limit;
        })
        (KeepsRooms-trans (keeps _ _ refl refl refl refl refl refl) k)
  RoomStep-clients s (left room_name e l) = left room_name e (record {
    members = l.members;
    joined = l.joined;
    inhabited = l.inhabited;
    fewer = l.fewer;
    same = record {
      config = l.same.config;
      pending_removals = l.same.pending_removals;
      client_tenants = l.same.client_tenants;
      client_claims = l.same.client_claims;
    };
  })

  pub handle_message-RoomStep :
      (s : AppState w) (now : Clock) (client_id : Text) (msg : Message)
      → RoomStep s client_id msg.room (handle_message s now client_id msg)
  unfolding handle_message record_activity
  handle_message-RoomStep s now client_id msg = elim (Bool-cases (is_heartbeat msg.type_)) [
    | inl e ↦
        rw (e, handle_message)
          (dispatch-RoomStep msg.type_ s now client_id (record msg { src = some client_id }))
    | inr e ↦
        rw (e, handle_message)
          (RoomStep-clients s
            (dispatch-RoomStep msg.type_ _ now client_id (record msg { src = some client_id })))
  ]
