-- ===== src/Rooms/Leaving.antt =====
-- What `remove_client_from_room` of src/handlers/message.rs does to the two room indexes.
use dendri_server.Common.{
  ◌≤◌, ◌≡◌, refl, ap, ◌∙◌, inl, inr, ◌≢◌, true, false, ◌&&◌, none, some, List, [], Text, arith,
  length, if◌then◌else◌, unwrap_or, text_eq, text_beq_iff, ◌==◌, Bool-cases,
}
use dendri_server.Common.Maps.{
  Map, lookup, adjust, contains_key, lookup-remove, lookup-adjust, length-remove-le, length-adjust,
}
use dendri_server.Common.Sets
use dendri_server.Frames.{peers_frame}
use dendri_server.RoomKey.{room_display}
use dendri_server.Rooms.{is_nil, settle_room, take_member, remove_client_from_room}
use dendri_server.Rooms.Effects.{broadcast-OnlySends}
use dendri_server.State.{AppState, members_of, rooms_of}
use dendri_server.State.Sends.{OnlySends}
use dendri_server.World.{World}

module _ {w : World} where
  -- What no room operation changes.
  pub record SameRest (s t : AppState w) : Type 0 where
    pub config : t.config ≡ s.config
    pub pending_removals : t.pending_removals ≡ s.pending_removals
    pub client_tenants : t.client_tenants ≡ s.client_tenants
    pub client_claims : t.client_claims ≡ s.client_claims

  pub OnlySends-SameRest : {s t : AppState w} → OnlySends s t → SameRest s t
  OnlySends-SameRest o = record {
    config = ap (λ (t : AppState w). t.config) o.moved;
    pending_removals = ap (λ (t : AppState w). t.pending_removals) o.moved;
    client_tenants = ap (λ (t : AppState w). t.client_tenants) o.moved;
    client_claims = ap (λ (t : AppState w). t.client_claims) o.moved;
  }

  pub record Leaves (s : AppState w) (c k : Text) (t : AppState w) : Type 0 where
    pub members :
        (j : Text)
        → members_of t j ≡ (if k == j then Sets.remove c (members_of s j) else members_of s j)
    pub joined :
        (d : Text)
        → rooms_of t d ≡ (
            if contains_key k s.rooms && c == d then Sets.remove k (rooms_of s d) else rooms_of s d)
    pub inhabited : (j : Text) → lookup j s.rooms ≢ some [] → lookup j t.rooms ≢ some []
    pub fewer : length t.rooms ≤ length s.rooms
    pub same : SameRest s t

  -- The rooms once the client is taken out, empty rooms dropped.
  lookup-settle_room :
      (s : AppState w) (k j : Text)
      → lookup j (settle_room s k).rooms
        ≡ (if is_nil (members_of s k) && k == j then none else lookup j s.rooms)
  unfolding settle_room
  lookup-settle_room s k j = elim (Bool-cases (is_nil (members_of s k))) [
    | inl e ↦ rw (e, settle_room) (lookup-remove k j s.rooms)
    | inr e ↦
        rw (e, settle_room)
          (ap (λ (t : AppState w). lookup j t.rooms)
            (broadcast-OnlySends s (members_of s k)
              (peers_frame (room_display k) (w.json.list_to_json (members_of s k)))).moved)
  ]

  settle_room-rest :
      (s : AppState w) (k : Text)
      → SameRest s (settle_room s k)
        × ((settle_room s k).client_rooms ≡ s.client_rooms)
        × (length (settle_room s k).rooms ≤ length s.rooms)
  unfolding settle_room
  settle_room-rest s k = elim (Bool-cases (is_nil (members_of s k))) [
    | inl e ↦
        rw (e, settle_room)
          (
            record {
              config = refl;
              pending_removals = refl;
              client_tenants = refl;
              client_claims = refl;
            },
            refl,
            length-remove-le k s.rooms,
          )
    | inr e ↦
        let o =
          broadcast-OnlySends s (members_of s k)
            (peers_frame (room_display k) (w.json.list_to_json (members_of s k))) in
        rw (e, settle_room)
          (
            OnlySends-SameRest o,
            ap (λ (t : AppState w). t.client_rooms) o.moved,
            rw (o.moved) (omega arith),
          )
  ]

  members_of-take_member :
      (s : AppState w) (c k j : Text)
      → members_of (take_member s c k) j
        ≡ (if k == j then Sets.remove c (members_of s j) else members_of s j)
  unfolding take_member Sets.remove
  members_of-take_member s c k j =
      ap (λ o. unwrap_or o []) (lookup-adjust k j (Sets.remove c) s.rooms) ∙ ground arith

  members_of-settle_room :
      (s : AppState w) (k j : Text) → members_of (settle_room s k) j ≡ members_of s j
  members_of-settle_room s k j =
      ap (λ o. unwrap_or o []) (lookup-settle_room s k j) ∙ ground (arith, text_beq_iff k j)

  inhabited-take_member :
      (s : AppState w) (c k j : Text)
      → lookup j s.rooms ≢ some []
      → lookup j (settle_room (take_member s c k) k).rooms ≢ some []
  unfolding take_member
  inhabited-take_member s c k j h e = ground (
    arith,
    h,
    e,
    text_beq_iff k j,
    lookup-settle_room (take_member s c k) k j,
    lookup-adjust k j (Sets.remove c) s.rooms,
  )

  Leaves-present :
      (s : AppState w) (c k : Text)
      → contains_key k s.rooms ≡ true
      → Leaves s c k (remove_client_from_room s c k)
  unfolding remove_client_from_room take_member Sets.remove
  Leaves-present s c k there =
      let t0 = take_member s c k in
      let (same, joined, fewer) = settle_room-rest t0 k in
      rw there (record {
        members = λ j. members_of-settle_room t0 k j ∙ members_of-take_member s c k j;
        joined = λ d. joined_lem d joined;
        inhabited = λ j h. inhabited-take_member s c k j h;
        fewer = omega (arith, fewer, length-adjust k (Sets.remove c) s.rooms);
        same = record {
          config = same.config;
          pending_removals = same.pending_removals;
          client_tenants = same.client_tenants;
          client_claims = same.client_claims;
        };
      })
    where
      joined_lem :
          (d : Text) {m : Map Text (List Text)}
          → m ≡ s.client_rooms
          → unwrap_or (lookup d (adjust c (Sets.remove k) m)) [] ≡ (
              if contains_key k s.rooms && c == d
              then Sets.remove k (rooms_of s d)
              else rooms_of s d)
      joined_lem d e =
          ap (λ m. unwrap_or (lookup d (adjust c (Sets.remove k) m)) []) e
          ∙ ap (λ o. unwrap_or o []) (lookup-adjust c d (Sets.remove k) s.client_rooms)
          ∙ ground (arith, there)

  -- A room that is not stored has no members, and nothing happens.
  Leaves-absent : (s : AppState w) (c k : Text) → contains_key k s.rooms ≡ false → Leaves s c k s
  unfolding Sets.remove
  Leaves-absent s c k gone = record {
    members = λ j. ground (arith, gone, text_beq_iff k j);
    joined = λ d. rw gone refl;
    inhabited = λ j h. h;
    fewer = omega arith;
    same = record {
      config = refl;
      pending_removals = refl;
      client_tenants = refl;
      client_claims = refl;
    };
  }

  -- The client is taken from the room and the room from the client, whether the room is stored or
  -- not; a room that it leaves empty is dropped.
  pub remove_client_from_room-Leaves :
      (s : AppState w) (c k : Text) → Leaves s c k (remove_client_from_room s c k)
  unfolding remove_client_from_room
  remove_client_from_room-Leaves s c k = elim (Bool-cases (contains_key k s.rooms)) [
    | inl there ↦ Leaves-present s c k there
    | inr gone ↦ rw (gone, remove_client_from_room) (Leaves-absent s c k gone)
  ]
