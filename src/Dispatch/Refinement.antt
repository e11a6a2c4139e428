-- ===== src/Dispatch/Refinement.antt =====
-- The abstract rooms that src/handlers/message.rs implements: a relation of clients and rooms.
use dendri_server.Common.{
  ◌≡◌, refl, sym, ap, ◌∙◌, fun_ext, inl, inr, Bool, true, false, ◌&&◌, Option, none, some, List, [],
  ◌∷◌, Text, arith, text_beq, text_eq, text_beq_iff, if◌then◌else◌, unwrap_or, subst, Option-cases,
  Bool-cases,
}
use dendri_server.Common.Maps.{Map, lookup, adjust}
use dendri_server.Common.Sets
use dendri_server.Dispatch.{is_heartbeat, record_activity, dispatch, handle_message}
use dendri_server.Dispatch.Invariant.{members_of-add_member}
use dendri_server.Dispatch.Steady.{
  KeepsRooms, OnlySends-KeepsRooms, handle_transmission-KeepsRooms, handle_data-KeepsRooms,
  handle_presence_update-KeepsRooms,
}
use dendri_server.Enums.{Message, MessageType}
use dendri_server.RoomKey.{namespace_room}
use dendri_server.Rooms.{add_member, handle_room_join, handle_room_leave, remove_client_from_room}
use dendri_server.Rooms.Effects.{Joins, refused, admitted, handle_room_join-Joins}
use dendri_server.Rooms.Verdict.{admits}
use dendri_server.Rooms.Leaving.{remove_client_from_room-Leaves}
use dendri_server.State.{AppState, ClientMeta, record_message, members_of, room_key, notify}
use dendri_server.Validation.{is_valid_identifier}
use dendri_server.World.{World, Clock}

-- Who is in which room, by storage key: neither the order of the members nor how the two indexes
-- represent them is seen.
abbrev pub View : Type 0
View = Text → Text → Bool

-- What a message may come to.
pub data Act : Type 0 where
  stays : Act
  enters leaves : Text → Text → Act

abbrev pub perform : Act → View → View
perform stays v = v
perform (enters c k) v = λ d j. if text_beq c d && text_beq k j then true else v d j
perform (leaves c k) v = λ d j. if text_beq c d && text_beq k j then false else v d j

abbrev pub perform_all : List Act → View → View
perform_all [] v = v
perform_all (a ∷ acts) v = perform_all acts (perform a v)

pub record Received : Type 0 where
  pub now : Clock
  pub client_id : Text
  pub msg : Message

same_view : (v u : View) → ((d j : Text) → v d j ≡ u d j) → v ≡ u
same_view v u h = fun_ext (λ d. fun_ext (h d))

module _ {w : World} where
  abbrev pub view : AppState w → View
  view s c k = Sets.contains c (members_of s k)

  -- What a message comes to, by its type alone: a ROOM-JOIN enters the room that it names, in the
  -- tenant of the sender, if the sender is let in; a ROOM-LEAVE leaves it; nothing else has an effect.
  abbrev pub act_of : AppState w → MessageType → Text → Option Text → Act
  act_of s MessageType.room_join c (some room_name) =
      if admits s c room_name
      then enters c (namespace_room (lookup c s.client_tenants) room_name)
      else stays
  act_of s MessageType.room_leave c (some room_name) =
      if is_valid_identifier room_name
      then leaves c (namespace_room (lookup c s.client_tenants) room_name)
      else stays
  act_of s _ c room = stays

  pub handle_messages : AppState w → List Received → AppState w
  handle_messages s [] = s
  handle_messages s (m ∷ ms) = handle_messages (handle_message s m.now m.client_id m.msg) ms

  -- The acts of a run, each as of the state that its message finds.
  pub acts_of : AppState w → List Received → List Act
  acts_of s [] = []
  acts_of s (m ∷ ms) =
      act_of s m.msg.type_ m.client_id m.msg.room
      ∷ acts_of (handle_message s m.now m.client_id m.msg) ms

  entered :
      (s t : AppState w) (c k : Text)
      → t.rooms ≡ (add_member s c k).rooms
      → view t ≡ perform (enters c k) (view s)
  entered s t c k r = same_view _ _ (λ d j. ground (
    arith,
    r,
    members_of-add_member s c k j,
    text_beq_iff c d,
    text_beq_iff k j,
    Sets.contains-insert c d (members_of s j),
  ))

  left_view :
      (s t : AppState w) (c k : Text)
      → ((j : Text)
          → members_of t j
            ≡ (if text_beq k j then Sets.remove c (members_of s j) else members_of s j))
      → view t ≡ perform (leaves c k) (view s)
  left_view s t c k r = same_view _ _ (λ d j.
      ground
        (arith, r j, text_beq_iff c d, text_beq_iff k j, Sets.contains-remove c d (members_of s j)))

  view-KeepsRooms : {s t : AppState w} → KeepsRooms s t → view t ≡ view s
  view-KeepsRooms r = ap (λ rooms c k. Sets.contains c (unwrap_or (lookup k rooms) [])) r.rooms

  view-handle_room_join :
      (s : AppState w) (now : Clock) (c : Text) (msg : Message)
      → view (handle_room_join s now c msg)
        ≡ perform (act_of s MessageType.room_join c msg.room) (view s)
  unfolding add_member room_key
  view-handle_room_join s now c msg = after (handle_room_join-Joins s now c msg)
    where
      after :
          {room : Option Text} {t : AppState w}
          → Joins s c room t
          → view t ≡ perform (act_of s MessageType.room_join c room) (view s)
      after {room = none} {t = t} (refused h o) = view-KeepsRooms (OnlySends-KeepsRooms o)
      after {room = some room_name} {t = t} (refused h o) =
          rw h (view-KeepsRooms (OnlySends-KeepsRooms o))
      after {t = t} (admitted room_name named a passed o) =
          subst (λ r. view t ≡ perform (act_of s MessageType.room_join c r) (view s)) (sym named)
            (rw passed (entered s t c (room_key s c room_name) (OnlySends-KeepsRooms o).rooms))

  view-handle_room_leave :
      (s : AppState w) (now : Clock) (c : Text) (msg : Message)
      → view (handle_room_leave s now c msg)
        ≡ perform (act_of s MessageType.room_leave c msg.room) (view s)
  unfolding handle_room_leave room_key notify
  view-handle_room_leave s now c msg = elim (Option-cases msg.room) [
    | inl e ↦ rw (e, handle_room_leave) refl
    | inr (room_name, e) ↦
        rw (e, handle_room_leave)
          (elim (Bool-cases (is_valid_identifier room_name)) [
            | inr v ↦ rw v refl
            | inl v ↦ rw v (
                left_view s (remove_client_from_room s c (room_key s c room_name)) c
                  (room_key s c room_name)
                  (remove_client_from_room-Leaves s c (room_key s c room_name)).members)
          ])
  ]

  -- By the type of the message.
  view-dispatch :
      (t : MessageType) (s : AppState w) (now : Clock) (c : Text) (msg : Message)
      → view (dispatch t s now c msg) ≡ perform (act_of s t c msg.room) (view s)
  unfolding dispatch
  view-dispatch MessageType.room_join s now c msg = view-handle_room_join s now c msg
  view-dispatch MessageType.room_leave s now c msg = view-handle_room_leave s now c msg
  view-dispatch MessageType.offer s now c msg =
      view-KeepsRooms (handle_transmission-KeepsRooms s now msg)
  view-dispatch MessageType.answer s now c msg =
      view-KeepsRooms (handle_transmission-KeepsRooms s now msg)
  view-dispatch MessageType.candidate s now c msg =
      view-KeepsRooms (handle_transmission-KeepsRooms s now msg)
  view-dispatch MessageType.ack s now c msg =
      view-KeepsRooms (handle_transmission-KeepsRooms s now msg)
  view-dispatch MessageType.leave s now c msg =
      view-KeepsRooms (handle_transmission-KeepsRooms s now msg)
  view-dispatch MessageType.expire s now c msg =
      view-KeepsRooms (handle_transmission-KeepsRooms s now msg)
  view-dispatch MessageType.data_ s now c msg = view-KeepsRooms (handle_data-KeepsRooms s now c msg)
  view-dispatch MessageType.presence_update s now c msg =
      view-KeepsRooms (handle_presence_update-KeepsRooms s c msg)
  view-dispatch _ s now c msg = refl

  -- The entries of the clients play no part.
  act_of-clients :
      (s : AppState w) (entries : Map Text ClientMeta) (t : MessageType) (c : Text)
      (room : Option Text)
      → act_of (record s { clients = entries }) t c room ≡ act_of s t c room
  unfolding room_key
  act_of-clients s entries MessageType.room_join c none = refl
  act_of-clients s entries MessageType.room_join c (some room_name) = refl
  act_of-clients s entries MessageType.room_leave c none = refl
  act_of-clients s entries MessageType.room_leave c (some room_name) = refl
  act_of-clients s entries _ c room = refl

  view-handle_message :
      (s : AppState w) (m : Received)
      → view (handle_message s m.now m.client_id m.msg)
        ≡ perform (act_of s m.msg.type_ m.client_id m.msg.room) (view s)
  unfolding handle_message record_activity
  view-handle_message s m = elim (Bool-cases (is_heartbeat m.msg.type_)) [
    | inl e ↦
        rw (e, handle_message)
          (view-dispatch m.msg.type_ s m.now m.client_id (record m.msg { src = some m.client_id }))
    | inr e ↦
        let entries = adjust m.client_id (record_message m.now.wall) s.clients in
        rw (e, handle_message)
          (view-dispatch m.msg.type_ (record s { clients = entries }) m.now m.client_id
              (record m.msg { src = some m.client_id })
            ∙ ap (λ act. perform act (view s))
                (act_of-clients s entries m.msg.type_ m.client_id m.msg.room))
  ]

  -- The memberships after any sequence of messages are those that their acts give, one after the
  -- other. The act of a ROOM-JOIN is that the sender enters the room that the message names, in the
  -- sender's tenant, if the name is valid, the sender's claims allow it, the room is below its limit,
  -- and the sender is listed for it or is below the limit of its rooms while the room is there or the
  -- server is below its limit of rooms; each as of the state that the message finds. The act of a
  -- ROOM-LEAVE with a valid name is that the sender leaves the room. Every other act changes nothing.
  pub handle_messages-acts_of :
      (s : AppState w) (ms : List Received)
      → view (handle_messages s ms) ≡ perform_all (acts_of s ms) (view s)
  unfolding handle_messages acts_of
  handle_messages-acts_of s [] = refl
  handle_messages-acts_of s (m ∷ ms) =
      let t = handle_message s m.now m.client_id m.msg in
      handle_messages-acts_of t ms ∙ ap (perform_all (acts_of t ms)) (view-handle_message s m)
