-- ===== src/RoomKey.antt =====
-- src/handlers/message.rs: `namespace_room` and `room_display`, the storage keys of rooms.
pub mod Isolation
use dendri_server.Common.{
  ℕ, Option, none, some, [], ◌∷◌, ◌++◌, Text, nat_beq, if◌then◌else◌, map_some,
}

-- The ASCII unit separator.
abbrev pub tenant_sep : ℕ
tenant_sep = 0x1f

unfoldable pub namespace_room : Option Text → Text → Text
namespace_room (some tenant) room = tenant ++ tenant_sep ∷ room
namespace_room none room = room

-- `str::split_once`
unfoldable pub split_once : ℕ → Text → Option (Text × Text)
split_once c [] = none
split_once c (b ∷ s) =
    if nat_beq b c
    then some ([], s)
    else map_some (λ (p : Text × Text). (b ∷ p.0, p.1)) (split_once c s)

unfoldable pub room_display : Text → Text
unfolding split_once
room_display key = elim (split_once tenant_sep key) [ none ↦ key | some (_, name) ↦ name ]
