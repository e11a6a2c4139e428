-- ===== src/Api.antt =====
-- src/handlers/api.rs: the plain routes. The start time of the server is an argument.
pub mod Discovery
use dendri_server.Common.{
  ℕ, ◌+◌, ◌-◌, ◌/◌, Bool, true, false, not, Option, none, some, List, [], ◌∷◌, ◌++◌, Text, codes,
  length, map, text_beq, text_eq, unwrap_or, if◌then◌else◌,
}
use dendri_server.Common.Maps.{lookup}
use dendri_server.Realm
use dendri_server.Realm.{decimal}
use dendri_server.State.{AppState}
use dendri_server.World.{World, Clock}

pub record Health : Type 0 where
  pub clients : ℕ
  pub rooms : ℕ
  pub uptime_ms : ℕ
  pub relay_enabled : Bool

pub record PeersQuery : Type 0 where
  pub room : Option Text
  pub token : Option Text

pub record IceServer : Type 0 where
  pub urls : Text
  pub username : Text
  pub credential : Text

-- 401, 500 and 503, or a body with 200.
pub data Answer : Type 0 where
  unauthorized internal_server_error turn_not_configured : Answer
  id_text : Text → Answer
  peers : List Text → Answer
  ice_servers : List IceServer → ℕ → Answer

abbrev pub turn_ttl : ℕ
turn_ttl = 86400

-- `match params.token`
abbrev pub same_token : Option Text → Text → Bool
same_token none expected = false
same_token (some provided) expected = text_beq provided expected

-- Where no discovery token is set, none is asked for.
abbrev pub token_passes : Option Text → Option Text → Bool
token_passes none provided = true
token_passes (some expected) provided = same_token provided expected

abbrev pub answer_id : Option Text → Answer
answer_id none = internal_server_error
answer_id (some id) = id_text id

abbrev pub answer_peers : Option (List Text) → Answer
answer_peers none = internal_server_error
answer_peers (some ids) = peers ids

abbrev pub turn_username : Clock → Option Text → Text
turn_username now peer_id =
    decimal (now.wall / 1000 + turn_ttl) ++ (58 ∷ unwrap_or peer_id (codes "dendri"))

module _ {w : World} where
  unfoldable pub health : AppState w → Clock → ℕ → Health
  health s now start_time = record {
    clients = length s.clients;
    rooms = length s.rooms;
    uptime_ms = now.instant - start_time;
    relay_enabled = s.config.enable_relay;
  }

  -- `draws` are the random ids of the generator.
  unfoldable pub get_id : AppState w → Text → List Text → AppState w × Answer
  get_id s key draws =
      if not (text_beq key s.config.key)
      then (s, unauthorized)
      else (let (redis, id) = Realm.generate_client_id w.redis s.redis draws in
          (record s { redis = redis }, answer_id id))

  -- A room is looked up under the bare name, with no tenant.
  unfoldable pub list_peers : AppState w → Option Text → AppState w × Answer
  list_peers s (some room_name) = (s, peers (unwrap_or (lookup room_name s.rooms) []))
  list_peers s none =
      let (redis, ids) = Realm.get_all_client_ids w.redis s.redis in
      (record s { redis = redis }, answer_peers ids)

  unfoldable pub get_peers : AppState w → Text → PeersQuery → AppState w × Answer
  unfolding list_peers
  get_peers s key q =
      if not (text_beq key s.config.key)
      then (s, unauthorized)
      else if not s.config.allow_discovery
      then (s, unauthorized)
      else if not (token_passes s.config.discovery_token q.token)
      then (s, unauthorized)
      else list_peers s q.room

  -- The crates hmac with sha1, and base64, are one argument; a key that is refused gives none.
  unfoldable pub turn_credentials :
      (Text → Text → Option Text) → AppState w → Clock → Text → Option Text → Answer
  turn_credentials credential_of s now key peer_id =
      if not (text_beq key s.config.key) then unauthorized else elim s.config.turn_secret [
        | none ↦ turn_not_configured
        | some secret ↦ elim (credential_of secret (turn_username now peer_id)) [
          | none ↦ internal_server_error
          | some credential ↦
              ice_servers
                (map
                  (λ url. record {
                    urls = url;
                    username = turn_username now peer_id;
                    credential = credential;
                  })
                  s.config.turn_servers)
                turn_ttl
        ]
      ]
