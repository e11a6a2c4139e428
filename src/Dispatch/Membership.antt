-- ===== src/Dispatch/Membership.antt =====
-- Who becomes and who stays a member of which room (src/handlers/message.rs).
use dendri_server.Common.{
  ◌≡◌, refl, ◌∙◌, ◌⊎◌, inl, inr, true, Option, none, some, List, [], Text, arith, text_eq,
  text_beq_iff,
}
use dendri_server.Common.Maps.{lookup}
use dendri_server.Common.Sets
use dendri_server.Dispatch.{handle_message}
use dendri_server.Dispatch.Steady.{KeepsRooms}
use dendri_server.Dispatch.RoomSteps.{RoomStep, kept, joined, left, handle_message-RoomStep}
use dendri_server.Dispatch.Invariant.{
  IsMember, IsListed, members_of-add_member, rooms_of-add_member,
}
use dendri_server.Enums.{Message}
use dendri_server.Rooms.{add_member, is_allowed}
use dendri_server.State.{AppState, room_key, members_of, rooms_of}
use dendri_server.Validation.{is_valid_identifier}
use dendri_server.World.{World, Clock}

module _ {w : World} where
  -- The room of the message is a valid one, which the claims of the client, if it has any, allow.
  pub record MayJoin (s : AppState w) (client_id : Text) (room : Option Text) (k : Text)
      : Type 0 where
    pub room_name : Text
    pub named : room ≡ some room_name
    pub valid : is_valid_identifier room_name ≡ true
    pub allowed : is_allowed s client_id room_name ≡ true
    pub stored : k ≡ room_key s client_id room_name

  -- A client that is a member of a room after a message from some client was one before, or else it
  -- is the sender of the message, and the room is the stored room of the one that the message
  -- names, which is valid and which the sender's claims allow.
  pub handle_message-IsMember :
      (s : AppState w) (now : Clock) (client_id : Text) (msg : Message) (d k : Text)
      → IsMember (handle_message s now client_id msg) d k
      → IsMember s d k ⊎ ((d ≡ client_id) × MayJoin s client_id msg.room k)
  handle_message-IsMember s now client_id msg d k =
      after (handle_message-RoomStep s now client_id msg)
    where
      after :
          {t : AppState w}
          → RoomStep s client_id msg.room t
          → IsMember t d k
          → IsMember s d k ⊎ ((d ≡ client_id) × MayJoin s client_id msg.room k)
      after (kept r) m = inl (ground (arith, m, r.rooms))
      after {t} (joined room_name e a r) m = elim (added t room_name r m) [
        | inl was ↦ inl was
        | inr (here, same) ↦ inr (
          same,
          record {
            room_name = room_name;
            named = e;
            valid = a.valid;
            allowed = a.allowed;
            stored = here;
          },
        )
      ]
        where
          added :
              (t : AppState w) (room_name : Text)
              → KeepsRooms (add_member s client_id (room_key s client_id room_name)) t
              → IsMember t d k
              → IsMember s d k ⊎ ((k ≡ room_key s client_id room_name) × (d ≡ client_id))
          added t room_name r m = ground (
            arith,
            m,
            r.rooms,
            members_of-add_member s client_id (room_key s client_id room_name) k,
            text_beq_iff client_id d,
            text_beq_iff (room_key s client_id room_name) k,
            Sets.contains-insert client_id d (members_of s k),
          )
      after (left room_name e v) m =
          inl (ground (arith, m, v.members k, Sets.contains-remove client_id d (members_of s k)))

  -- The rooms of a disconnected client, until its grace period is over.
  abbrev pub pending_rooms : AppState w → Text → List Text
  pending_rooms s c = elim (lookup c s.pending_removals) [ none ↦ [] | some p ↦ p.rooms ]

  -- Each member of a room has the room listed, or awaits its removal.
  abbrev pub IsAccounted : AppState w → Type 0
  IsAccounted s =
      (c k : Text) → IsMember s c k → IsListed s c k ⊎ (Sets.contains k (pending_rooms s c) ≡ true)

  pending_removals-add_member :
      (s : AppState w) (c k : Text) → (add_member s c k).pending_removals ≡ s.pending_removals
  unfolding add_member
  pending_removals-add_member s c k = refl

  -- If each member of a room has the room listed for it or awaits its removal from it, then so it is
  -- after `handle_message`, whatever the message.
  pub handle_message-IsAccounted :
      (s : AppState w) (now : Clock) (client_id : Text) (msg : Message)
      → IsAccounted s
      → IsAccounted (handle_message s now client_id msg)
  handle_message-IsAccounted s now client_id msg h d j =
      after (handle_message-RoomStep s now client_id msg)
    where
      after :
          {t : AppState w}
          → RoomStep s client_id msg.room t
          → IsMember t d j
          → IsListed t d j ⊎ (Sets.contains j (pending_rooms t d) ≡ true)
      after (kept r) m = ground (arith, h d j, m, r.rooms, r.client_rooms, r.same.pending_removals)
      after (joined room_name e a r) m =
          let k = room_key s client_id room_name in
          ground (
            arith,
            h d j,
            m,
            r.rooms,
            r.client_rooms,
            r.same.pending_removals ∙ pending_removals-add_member s client_id k,
            members_of-add_member s client_id k j,
            rooms_of-add_member s client_id k d,
            text_beq_iff client_id d,
            text_beq_iff k j,
            Sets.contains-insert client_id d (members_of s j),
            Sets.contains-insert k j (rooms_of s d),
          )
      after (left room_name e v) m =
          let k = room_key s client_id room_name in
          ground (
            arith,
            h d j,
            m,
            v.members j,
            v.joined d,
            v.same.pending_removals,
            text_beq_iff client_id d,
            text_beq_iff k j,
            Sets.contains-remove client_id d (members_of s j),
            Sets.contains-remove k j (rooms_of s d),
          )
