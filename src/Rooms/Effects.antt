-- ===== src/Rooms/Effects.antt =====
-- What the room operations of src/handlers/message.rs do to the two room indexes.
use dendri_server.Common.{
  ◌≡◌, refl, ◌⊎◌, inl, inr, Bool, true, false, not, ◌&&◌, Option, some, List, [], ◌∷◌, Text,
  unwrap_or, text_eq, Option-cases, Bool-cases, none, ◌∙◌, subst, sym, codes,
}
use dendri_server.Common.Maps.{Map, lookup}
use dendri_server.Enums.{Message}
use dendri_server.Frames.{denied_frame, peers_frame, presence_frame}
use dendri_server.Rooms.Verdict.{
  verdict, verdict_client, verdict_server, verdict_room, verdict_open, admits, admits-verdict,
}
use dendri_server.Rooms.{
  deny, send_presence, add_member, welcome, already_member, client_at_limit, server_at_limit,
  room_at_limit, join_stored, is_allowed, handle_room_join, broadcast,
}
use dendri_server.State.{AppState, send_to, room_key, members_of}
use dendri_server.State.Sends.{
  OnlySends, OnlySends-refl, OnlySends-trans, send_to-OnlySends, notify-OnlySends,
}
use dendri_server.Validation.{is_valid_identifier}
use dendri_server.World.{World, Clock}

disjunct_lem : (a b : Bool) → (not a && b) ≡ false → (a ≡ true) ⊎ (b ≡ false)
disjunct_lem true b h = inl refl
disjunct_lem false b h = inr h

module _ {w : World} where
  send_presence-OnlySends :
      (s : AppState w) (entries : Map Text Text) (client_id room_name : Text)
      → OnlySends s (send_presence s entries client_id room_name)
  unfolding send_presence
  send_presence-OnlySends s [] client_id room_name = OnlySends-refl s
  send_presence-OnlySends s (e ∷ es) client_id room_name =
      OnlySends-trans (send_to-OnlySends s client_id (presence_frame e.0 room_name e.1)) (
        send_presence-OnlySends (send_to s client_id (presence_frame e.0 room_name e.1)) es
          client_id room_name)

  pub broadcast-OnlySends :
      (s : AppState w) (members : List Text) (frame : Text)
      → OnlySends s (broadcast s members frame)
  unfolding broadcast
  broadcast-OnlySends s [] frame = OnlySends-refl s
  broadcast-OnlySends s (m ∷ ms) frame =
      OnlySends-trans (send_to-OnlySends s m frame)
        (broadcast-OnlySends (send_to s m frame) ms frame)

  welcome-OnlySends :
      (s : AppState w) (now : Clock) (client_id room_name stored : Text)
      → OnlySends s (welcome s now client_id room_name stored)
  unfolding welcome
  welcome-OnlySends s now client_id room_name stored =
      OnlySends-trans
        (send_to-OnlySends s client_id
          (peers_frame room_name (w.json.list_to_json (members_of s stored))))
        (OnlySends-trans
          (send_presence-OnlySends _ (unwrap_or (lookup stored s.presence) []) client_id room_name)
          (notify-OnlySends _ _))

  -- A join that passes every test.
  pub record Admits (s : AppState w) (client_id room_name : Text) : Type 0 where
    pub valid : is_valid_identifier room_name ≡ true
    pub allowed : is_allowed s client_id room_name ≡ true
    pub client_limit :
        (already_member s client_id (room_key s client_id room_name) ≡ true)
        ⊎ (client_at_limit s client_id ≡ false)
    pub server_limit :
        (already_member s client_id (room_key s client_id room_name) ≡ true)
        ⊎ (server_at_limit s (room_key s client_id room_name) ≡ false)
    pub room_limit : room_at_limit s (room_key s client_id room_name) ≡ false

  abbrev pub IsRefused : AppState w → Text → Option Text → Type 0
  IsRefused s client_id none = Unit
  IsRefused s client_id (some room_name) = admits s client_id room_name ≡ false

  pub data Joins (s : AppState w) (client_id : Text) (room : Option Text) (t : AppState w)
      : Type 0 where
    refused : IsRefused s client_id room → OnlySends s t → Joins s client_id room t
    admitted :
        (room_name : Text)
        → room ≡ some room_name
        → Admits s client_id room_name
        → admits s client_id room_name ≡ true
        → OnlySends (add_member s client_id (room_key s client_id room_name)) t
        → Joins s client_id room t

  deny-OnlySends :
      (s : AppState w) (client_id room_name reason : Text)
      → OnlySends s (deny s client_id room_name reason)
  unfolding deny
  deny-OnlySends s client_id room_name reason =
      send_to-OnlySends s client_id (denied_frame room_name reason)

  IsRefused-by :
      (s : AppState w) (client_id room_name : Text) (room : Option Text)
      → room ≡ some room_name
      → admits s client_id room_name ≡ false
      → IsRefused s client_id room
  IsRefused-by s client_id room_name room named h = subst (IsRefused s client_id) (sym named) h

  -- From here on in the stored room's limits.
  open_room :
      (s : AppState w) (now : Clock) (client_id room_name : Text) (room : Option Text)
      → room ≡ some room_name
      → is_valid_identifier room_name ≡ true
      → is_allowed s client_id room_name ≡ true
      → let stored = room_key s client_id room_name in
        (already_member s client_id stored ≡ true) ⊎ (client_at_limit s client_id ≡ false)
        → (already_member s client_id stored ≡ true) ⊎ (server_at_limit s stored ≡ false)
        → room_at_limit s stored ≡ false
        → admits s client_id room_name ≡ true
        → Joins s client_id room
            (welcome (add_member s client_id stored) now client_id room_name stored)
  open_room s now client_id room_name room named valid allowed c1 c2 c3 passed =
      admitted room_name named
        (record {
          valid = valid;
          allowed = allowed;
          client_limit = c1;
          server_limit = c2;
          room_limit = c3;
        })
        passed (welcome-OnlySends _ now client_id room_name _)

  join_stored-Joins :
      (s : AppState w) (now : Clock) (client_id room_name : Text) (room : Option Text)
      → room ≡ some room_name
      → is_valid_identifier room_name ≡ true
      → is_allowed s client_id room_name ≡ true
      → Joins s client_id room
          (join_stored s now client_id room_name (room_key s client_id room_name))
  unfolding join_stored
  join_stored-Joins s now client_id room_name room named valid allowed =
      elim (Bool-cases (not already && client_at_limit s client_id)) [
        | inl e ↦ rw e (no (verdict_client tests already _ _ _ e) (codes "client_room_limit"))
        | inr e ↦ rw e (elim (Bool-cases (not already && server_at_limit s stored)) [
          | inl f ↦ rw f (no (verdict_server tests already _ _ _ f) (codes "server_room_limit"))
          | inr f ↦ rw f (elim (Bool-cases (room_at_limit s stored)) [
            | inl g ↦ rw g (no (verdict_room tests already _ _ _ g) (codes "room_full"))
            | inr g ↦ rw g (
                open_room s now client_id room_name room named valid allowed
                  (disjunct_lem already (client_at_limit s client_id) e)
                  (disjunct_lem already (server_at_limit s stored) f) g
                  (admits-verdict s client_id room_name
                    ∙ verdict_open tests already _ _ _ (rw (valid, allowed) refl) e f g))
          ])
        ])
      ]
    where
      stored : Text
      stored = room_key s client_id room_name

      already : Bool
      already = already_member s client_id stored

      tests : Bool
      tests = is_valid_identifier room_name && is_allowed s client_id room_name

      no :
          verdict tests already
              (client_at_limit s client_id)
              (server_at_limit s stored)
              (room_at_limit s stored)
            ≡ false
          → (reason : Text) → Joins s client_id room (deny s client_id room_name reason)
      no h reason =
          refused
            (IsRefused-by s client_id room_name room named
              (admits-verdict s client_id room_name ∙ h))
            (deny-OnlySends s client_id room_name reason)

  -- Every join is refused, with a frame at most, or is admitted.
  pub handle_room_join-Joins :
      (s : AppState w) (now : Clock) (client_id : Text) (msg : Message)
      → Joins s client_id msg.room (handle_room_join s now client_id msg)
  unfolding handle_room_join
  handle_room_join-Joins s now client_id msg = elim (Option-cases msg.room) [
    | inl e ↦ rw (e, handle_room_join) (refused tt (OnlySends-refl s))
    | inr (room_name, e) ↦
        rw (e, handle_room_join)
          (elim (Bool-cases (is_valid_identifier room_name)) [
            | inr invalid ↦ rw invalid (refused (rw invalid refl) (send_to-OnlySends s client_id _))
            | inl valid ↦ rw valid (elim (Bool-cases (is_allowed s client_id room_name)) [
              | inr denied ↦
                  rw denied
                    (refused (rw (valid, denied) refl) (deny-OnlySends s client_id room_name _))
              | inl allowed ↦
                  rw allowed (join_stored-Joins s now client_id room_name _ refl valid allowed)
            ])
          ])
  ]
