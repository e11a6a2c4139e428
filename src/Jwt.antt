-- ===== src/Jwt.antt =====
-- src/jwt.rs: the claims of a JWT and what they allow.
use dendri_server.Common.{
  Bool, true, false, ◌||◌, Option, none, some, List, [], ◌∷◌, Text, codes, text_beq,
}
use dendri_server.World.{Json}

module _ (j : Json) where
  open j use {Value, get, as_array, as_str}

  abbrev names_room : Text → Option Text → Bool
  names_room room none = false
  names_room room (some r) = text_beq r room

  abbrev lists_room : Text → List Value → Bool
  lists_room room [] = false
  lists_room room (v ∷ vs) = names_room room (as_str v) || lists_room room vs

  -- `claims.get("rooms").and_then(|r| r.as_array())`
  abbrev pub rooms_claim : Value → Option (List Value)
  rooms_claim claims = elim (get claims (codes "rooms")) [ none ↦ none | some r ↦ as_array r ]

  unfoldable pub room_allowed : Value → Text → Bool
  room_allowed claims room = elim (rooms_claim claims) [
    | none ↦ true
    | some rooms ↦ lists_room room rooms
  ]

  abbrev pub tid_claim : Value → Option Text
  tid_claim claims = elim (get claims (codes "tid")) [ none ↦ none | some t ↦ as_str t ]

  unfoldable pub tid_matches : Value → Text → Bool
  tid_matches claims tenant_id = elim (tid_claim claims) [
    | none ↦ true
    | some tid ↦ text_beq tid tenant_id
  ]

-- The tenant's secret before the global one.
unfoldable pub effective_jwt_secret : Option Text → Option Text → Option Text
effective_jwt_secret none global_secret = global_secret
effective_jwt_secret (some s) global_secret = some s
