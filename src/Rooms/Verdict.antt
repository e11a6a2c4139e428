-- ===== src/Rooms/Verdict.antt =====
-- When a join is let in (src/handlers/message.rs), apart from the order of its tests.
use dendri_server.Common.{
  ◌≡◌, refl, Bool, true, false, not, ◌&&◌, ◌||◌, ℕ, Option, none, some, List, [], Text, unwrap_or,
  text_eq, arith, length, is_some, leb, ltb, nat_beq,
}
use dendri_server.Common.Maps.{lookup, contains_key}
use dendri_server.Common.Sets
use dendri_server.Rooms.{
  reached, already_member, client_at_limit, server_at_limit, room_at_limit, is_allowed,
}
use dendri_server.State.{AppState, room_key, members_of, rooms_of}
use dendri_server.Validation.{is_valid_identifier}
use dendri_server.World.{World}

-- A limit of 0 is none.
abbrev pub fits : ℕ → ℕ → Bool
fits limit n = nat_beq limit 0 || ltb n limit

fits_client : (limit n : ℕ) → reached limit n ≡ not (fits limit n)
fits_client limit n = ground arith

fits_server :
    (limit n : ℕ) (there : Bool)
    → (ltb 0 limit && (not there && leb limit n)) ≡ not (there || fits limit n)
fits_server limit n there = ground arith

fits_room :
    (limit : ℕ) (found : Option (List Text))
    → (ltb 0 limit && (is_some found && leb limit (length (unwrap_or found []))))
      ≡ not (fits limit (length (unwrap_or found [])))
fits_room limit none = ground arith
fits_room limit (some members) = ground arith

-- The tests of a join, and what they come to.
abbrev pub verdict : Bool → Bool → Bool → Bool → Bool → Bool
verdict valid already client server room =
    valid && ((already || (not client && not server)) && not room)

pub verdict_client :
    (valid already client server room : Bool)
    → (not already && client) ≡ true
    → verdict valid already client server room ≡ false
verdict_client valid already client server room h = ground (arith, h)

pub verdict_server :
    (valid already client server room : Bool)
    → (not already && server) ≡ true
    → verdict valid already client server room ≡ false
verdict_server valid already client server room h = ground (arith, h)

pub verdict_room :
    (valid already client server room : Bool)
    → room ≡ true
    → verdict valid already client server room ≡ false
verdict_room valid already client server room h = ground (arith, h)

pub verdict_open :
    (valid already client server room : Bool)
    → valid ≡ true
    → (not already && client) ≡ false
    → (not already && server) ≡ false
    → room ≡ false
    → verdict valid already client server room ≡ true
verdict_open valid already client server room h k l m = ground (arith, h, k, l, m)

not-not : (b : Bool) → not (not b) ≡ b
not-not true = refl
not-not false = refl

module _ {w : World} where
  -- When a join is let in: the limits on rooms do not bind a client that is in the room already.
  abbrev pub admits : AppState w → Text → Text → Bool
  admits s client_id room_name =
      let stored = room_key s client_id room_name in
      (is_valid_identifier room_name && is_allowed s client_id room_name)
      && ((Sets.contains stored (rooms_of s client_id)
            || (fits s.config.max_rooms_per_client (length (rooms_of s client_id))
                && (contains_key stored s.rooms || fits s.config.max_total_rooms (length s.rooms))))
          && fits s.config.max_room_size (length (members_of s stored)))

  pub admits-verdict :
      (s : AppState w) (client_id room_name : Text)
      → let stored = room_key s client_id room_name in
        admits s client_id room_name
        ≡ verdict
            (is_valid_identifier room_name && is_allowed s client_id room_name)
            (already_member s client_id stored)
            (client_at_limit s client_id)
            (server_at_limit s stored)
            (room_at_limit s stored)
  admits-verdict s client_id room_name =
      let stored = room_key s client_id room_name in
      rw
        (
          fits_client s.config.max_rooms_per_client (length (rooms_of s client_id)),
          fits_server s.config.max_total_rooms (length s.rooms) (contains_key stored s.rooms),
          fits_room s.config.max_room_size (lookup stored s.rooms),
        )
        (rw
          (
            not-not (fits s.config.max_rooms_per_client (length (rooms_of s client_id))),
            not-not (contains_key stored s.rooms || fits s.config.max_total_rooms (length s.rooms)),
            not-not (fits s.config.max_room_size (length (members_of s stored))),
          )
          refl)
