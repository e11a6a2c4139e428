-- ===== src/Sessions/Clients.antt =====
-- Leaving rooms and sweeping sessions (src/handlers/message.rs) concern neither the clients nor the
-- count of connections.
use dendri_server.Common.{
  ◌≡◌, refl, ap, ◌∙◌, inl, inr, List, [], ◌∷◌, Text, text_eq, nat_beq, Bool-cases, Option-cases,
}
use dendri_server.Common.Maps.{lookup, remove, contains_key}
use dendri_server.Rooms.{settle_room, take_member, remove_client_from_room, is_nil}
use dendri_server.Rooms.Effects.{broadcast-OnlySends}
use dendri_server.Frames.{peers_frame}
use dendri_server.RoomKey.{room_display}
use dendri_server.Sessions.{
  immediate_remove_from_all_rooms, remove_client_from_all_rooms, remove_from_rooms, expired_ids,
  expire_session, expire_sessions, cleanup_expired_sessions,
}
use dendri_server.State.{AppState, members_of}
use dendri_server.World.{World, Clock}

module _ {w : World} where
  -- Sweeping sessions leaves the clients and the count alone.
  pub record SameClients (s t : AppState w) : Type 0 where
    pub clients : t.clients ≡ s.clients
    pub count : t.active_connections ≡ s.active_connections

  pub SameClients-trans : {s t u : AppState w} → SameClients s t → SameClients t u → SameClients s u
  SameClients-trans p q = record { clients = q.clients ∙ p.clients; count = q.count ∙ p.count }

  settle_room-SameClients : (s : AppState w) (k : Text) → SameClients s (settle_room s k)
  unfolding settle_room
  settle_room-SameClients s k = elim (Bool-cases (is_nil (members_of s k))) [
    | inl e ↦ rw (e, settle_room) (record { clients = refl; count = refl })
    | inr e ↦
        let moved =
          (broadcast-OnlySends s (members_of s k)
            (peers_frame (room_display k) (w.json.list_to_json (members_of s k)))).moved in
        rw (e, settle_room)
          (record {
            clients = ap (λ (t : AppState w). t.clients) moved;
            count = ap (λ (t : AppState w). t.active_connections) moved;
          })
  ]

  pub remove_client_from_room-SameClients :
      (s : AppState w) (c k : Text) → SameClients s (remove_client_from_room s c k)
  unfolding remove_client_from_room take_member
  remove_client_from_room-SameClients s c k = elim (Bool-cases (contains_key k s.rooms)) [
    | inl e ↦
        let v = settle_room-SameClients (take_member s c k) k in
        rw (e, remove_client_from_room) (record { clients = v.clients; count = v.count })
    | inr e ↦ rw (e, remove_client_from_room) (record { clients = refl; count = refl })
  ]

  pub remove_from_rooms-SameClients :
      (s : AppState w) (c : Text) (ks : List Text) → SameClients s (remove_from_rooms s c ks)
  unfolding remove_from_rooms
  remove_from_rooms-SameClients s c [] = record { clients = refl; count = refl }
  remove_from_rooms-SameClients s c (k ∷ ks) =
      SameClients-trans (remove_client_from_room-SameClients s c k)
        (remove_from_rooms-SameClients (remove_client_from_room s c k) c ks)

  expire_session-SameClients : (s : AppState w) (c : Text) → SameClients s (expire_session s c)
  unfolding expire_session
  expire_session-SameClients s c = elim (Option-cases (lookup c s.pending_removals)) [
    | inl e ↦ rw (e, expire_session) (record { clients = refl; count = refl })
    | inr (p, e) ↦
        let v =
          remove_from_rooms-SameClients
            (record s { pending_removals = remove c s.pending_removals }) c p.rooms in
        rw (e, expire_session) (record { clients = v.clients; count = v.count })
  ]

  expire_sessions-SameClients :
      (s : AppState w) (ids : List Text) → SameClients s (expire_sessions s ids)
  unfolding expire_sessions
  expire_sessions-SameClients s [] = record { clients = refl; count = refl }
  expire_sessions-SameClients s (id ∷ ids) =
      SameClients-trans (expire_session-SameClients s id)
        (expire_sessions-SameClients (expire_session s id) ids)

  pub cleanup-SameClients :
      (s : AppState w) (now : Clock) → SameClients s (cleanup_expired_sessions s now)
  unfolding cleanup_expired_sessions
  cleanup-SameClients s now = elim (Bool-cases (nat_beq s.config.session_ttl 0)) [
    | inl e ↦ rw (e, cleanup_expired_sessions) (record { clients = refl; count = refl })
    | inr e ↦
        rw (e, cleanup_expired_sessions)
          (expire_sessions-SameClients s
            (expired_ids now.instant s.config.session_ttl s.pending_removals))
  ]

  immediate-SameClients :
      (s : AppState w) (c : Text) → SameClients s (immediate_remove_from_all_rooms s c)
  unfolding immediate_remove_from_all_rooms
  immediate-SameClients s c = elim (Option-cases (lookup c s.client_rooms)) [
    | inl e ↦ rw (e, immediate_remove_from_all_rooms) (record { clients = refl; count = refl })
    | inr (ks, e) ↦
        let v =
          remove_from_rooms-SameClients (record s { client_rooms = remove c s.client_rooms }) c
            ks in
        rw (e, immediate_remove_from_all_rooms) (record { clients = v.clients; count = v.count })
  ]

  pub remove_client_from_all_rooms-SameClients :
      (s : AppState w) (now : Clock) (c : Text)
      → SameClients s (remove_client_from_all_rooms s now c)
  unfolding remove_client_from_all_rooms
  remove_client_from_all_rooms-SameClients s now c =
      elim (Bool-cases (nat_beq s.config.session_ttl 0)) [
        | inl ttl ↦ rw (ttl, remove_client_from_all_rooms) (immediate-SameClients s c)
        | inr ttl ↦ elim (Option-cases (lookup c s.client_rooms)) [
          | inl e ↦
              rw (ttl, e, remove_client_from_all_rooms) (record { clients = refl; count = refl })
          | inr ([], e) ↦
              rw (ttl, e, remove_client_from_all_rooms) (record { clients = refl; count = refl })
          | inr (k ∷ ks, e) ↦
              rw (ttl, e, remove_client_from_all_rooms) (record { clients = refl; count = refl })
        ]
      ]
