-- ===== src/Dispatch/Invariant.antt =====
-- The two room indexes of src/state.rs, kept consistent and within the limits of the configuration
-- by every message.
use dendri_server.Common.{
  ◌≤◌, ◌<◌, ◌≡◌, sym, ap, ◌∙◌, ◌≢◌, true, some, List, [], ◌∷◌, Text, arith, length, if◌then◌else◌,
  unwrap_or, text_eq, text_beq_iff, ◌==◌,
}
use dendri_server.Common.Maps.{lookup, lookup-insert, length-insert}
use dendri_server.Common.Sets
use dendri_server.Dispatch.{handle_message}
use dendri_server.Dispatch.Steady.{KeepsRooms}
use dendri_server.Dispatch.RoomSteps.{RoomStep, kept, joined, left, handle_message-RoomStep}
use dendri_server.Enums.{Message}
use dendri_server.Rooms.{add_member}
use dendri_server.Rooms.Effects.{Admits}
use dendri_server.Rooms.Leaving.{Leaves}
use dendri_server.State.{AppState, room_key, members_of, rooms_of}
use dendri_server.World.{World, Clock}

pub insert_cons : (c : Text) (xs : List Text) → Sets.insert c xs ≢ []
unfolding Sets.insert Sets.contains
insert_cons c [] e = ground (arith, e)
insert_cons c (x ∷ xs) e = ground (arith, e)

module _ {w : World} where
  abbrev pub IsMember : AppState w → Text → Text → Type 0
  IsMember s c k = Sets.contains c (members_of s k) ≡ true

  abbrev pub IsListed : AppState w → Text → Text → Type 0
  IsListed s c k = Sets.contains k (rooms_of s c) ≡ true

  -- A client is a member of each room that is listed for it, and no stored room is empty.
  pub record IsConsistent (s : AppState w) : Type 0 where
    pub listed : (c k : Text) → IsListed s c k → IsMember s c k
    pub inhabited : (k : Text) → lookup k s.rooms ≢ some []

  -- The three limits of the configuration, of which 0 is none.
  pub record IsWithinLimits (s : AppState w) : Type 0 where
    pub room_size :
        (k : Text) → 0 < s.config.max_room_size → length (members_of s k) ≤ s.config.max_room_size
    pub client_rooms :
        (c : Text)
        → 0 < s.config.max_rooms_per_client
        → length (rooms_of s c) ≤ s.config.max_rooms_per_client
    pub total : 0 < s.config.max_total_rooms → length s.rooms ≤ s.config.max_total_rooms

  pub members_of-add_member :
      (s : AppState w) (c k j : Text)
      → members_of (add_member s c k) j
        ≡ (if k == j then Sets.insert c (members_of s j) else members_of s j)
  unfolding add_member
  members_of-add_member s c k j =
      ap (λ o. unwrap_or o []) (lookup-insert k j (Sets.insert c (members_of s k)) s.rooms)
      ∙ ground (arith, text_beq_iff k j)

  pub rooms_of-add_member :
      (s : AppState w) (c k d : Text)
      → rooms_of (add_member s c k) d
        ≡ (if c == d then Sets.insert k (rooms_of s d) else rooms_of s d)
  unfolding add_member
  rooms_of-add_member s c k d =
      ap (λ o. unwrap_or o []) (lookup-insert c d (Sets.insert k (rooms_of s c)) s.client_rooms)
      ∙ ground (arith, text_beq_iff c d)

  add_member-inhabited :
      (s : AppState w) (c k j : Text)
      → lookup j s.rooms ≢ some []
      → lookup j (add_member s c k).rooms ≢ some []
  unfolding add_member
  add_member-inhabited s c k j h e = ground (
    arith,
    h,
    e,
    lookup-insert k j (Sets.insert c (members_of s k)) s.rooms,
    insert_cons c (members_of s k),
  )

  add_member-IsConsistent :
      (s : AppState w) (c k : Text) → IsConsistent s → IsConsistent (add_member s c k)
  add_member-IsConsistent s c k h = record {
    listed = λ d j l. ground (
      arith,
      h.listed d j,
      l,
      members_of-add_member s c k j,
      rooms_of-add_member s c k d,
      text_beq_iff k j,
      text_beq_iff c d,
      Sets.contains-insert c d (members_of s j),
      Sets.contains-insert k j (rooms_of s d),
    );
    inhabited = λ j. add_member-inhabited s c k j (h.inhabited j);
  }

  add_member-IsWithinLimits :
      (s : AppState w) (c room_name : Text)
      → IsConsistent s
      → Admits s c room_name
      → IsWithinLimits s
      → IsWithinLimits (add_member s c (room_key s c room_name))
  unfolding add_member Sets.contains
  add_member-IsWithinLimits s c room_name h a l =
      let k = room_key s c room_name in
      record {
        room_size = λ j pos. ground (
          arith,
          pos,
          l.room_size j pos,
          members_of-add_member s c k j,
          text_beq_iff k j,
          a.room_limit,
          Sets.length-insert c (members_of s j),
        );
        client_rooms = λ d pos. ground (
          arith,
          pos,
          l.client_rooms d pos,
          rooms_of-add_member s c k d,
          text_beq_iff c d,
          a.client_limit,
          Sets.length-insert k (rooms_of s d),
        );
        total = λ pos. ground (
          arith,
          pos,
          l.total pos,
          length-insert k (Sets.insert c (members_of s k)) s.rooms,
          a.server_limit,
          h.listed c k,
        );
      }

  pub Leaves-IsConsistent :
      {s t : AppState w} {c k : Text} → Leaves s c k t → IsConsistent s → IsConsistent t
  unfolding Sets.contains
  Leaves-IsConsistent {s} {t} {c} {k} v h = record {
    listed = λ d j l. ground (
      arith,
      h.listed d j,
      l,
      v.members j,
      v.joined d,
      text_beq_iff k j,
      text_beq_iff c d,
      Sets.contains-remove c d (members_of s j),
      Sets.contains-remove k j (rooms_of s d),
    );
    inhabited = λ j. v.inhabited j (h.inhabited j);
  }

  pub Leaves-IsWithinLimits :
      {s t : AppState w} {c k : Text} → Leaves s c k t → IsWithinLimits s → IsWithinLimits t
  Leaves-IsWithinLimits {s} {t} {c} {k} v l = record {
    room_size = λ j pos. ground (
      arith,
      pos,
      l.room_size j,
      v.same.config,
      v.members j,
      Sets.length-remove-le c (members_of s j),
    );
    client_rooms = λ d pos. ground (
      arith,
      pos,
      l.client_rooms d,
      v.same.config,
      v.joined d,
      Sets.length-remove-le k (rooms_of s d),
    );
    total = λ pos. ground (arith, pos, l.total, v.same.config, v.fewer);
  }

  KeepsRooms-IsConsistent : {s t : AppState w} → KeepsRooms s t → IsConsistent s → IsConsistent t
  KeepsRooms-IsConsistent {s} {t} r h = record {
    listed = λ d j l. ground (arith, h.listed d j, l, r.rooms, r.client_rooms);
    inhabited = λ j e. h.inhabited j (sym (ap (lookup j) r.rooms) ∙ e);
  }

  KeepsRooms-IsWithinLimits :
      {s t : AppState w} → KeepsRooms s t → IsWithinLimits s → IsWithinLimits t
  KeepsRooms-IsWithinLimits {s} {t} r l = record {
    room_size = λ j pos. ground (arith, pos, l.room_size j, r.same.config, r.rooms);
    client_rooms = λ d pos. ground (arith, pos, l.client_rooms d, r.same.config, r.client_rooms);
    total = λ pos. ground (arith, pos, l.total, r.same.config, r.rooms);
  }

  pub handle_message-keeps :
      (s : AppState w) (now : Clock) (client_id : Text) (msg : Message)
      → IsConsistent s
      → IsConsistent (handle_message s now client_id msg)
  handle_message-keeps s now client_id msg h = after (handle_message-RoomStep s now client_id msg)
    where
      after : {t : AppState w} → RoomStep s client_id msg.room t → IsConsistent t
      after (kept r) = KeepsRooms-IsConsistent r h
      after (joined room_name e a r) =
          KeepsRooms-IsConsistent r
            (add_member-IsConsistent s client_id (room_key s client_id room_name) h)
      after (left room_name e v) = Leaves-IsConsistent v h

  -- If every client is a member of each room listed for it, no stored room is empty, and the limits
  -- on members of a room, on rooms of a client and on rooms hold, then all this holds after
  -- `handle_message`, whatever the message.
  pub handle_message-IsConsistent :
      (s : AppState w) (now : Clock) (client_id : Text) (msg : Message)
      → IsConsistent s
      → IsWithinLimits s
      → IsConsistent (handle_message s now client_id msg)
        × IsWithinLimits (handle_message s now client_id msg)
  handle_message-IsConsistent s now client_id msg h l =
      after (handle_message-RoomStep s now client_id msg)
    where
      after : {t : AppState w} → RoomStep s client_id msg.room t → IsConsistent t × IsWithinLimits t
      after (kept r) = (KeepsRooms-IsConsistent r h, KeepsRooms-IsWithinLimits r l)
      after (joined room_name e a r) = (
        KeepsRooms-IsConsistent r
            (add_member-IsConsistent s client_id (room_key s client_id room_name) h),
        KeepsRooms-IsWithinLimits r (add_member-IsWithinLimits s client_id room_name h a l),
      )
      after (left room_name e v) = (Leaves-IsConsistent v h, Leaves-IsWithinLimits v l)
