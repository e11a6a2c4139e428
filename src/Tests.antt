-- ===== src/Tests.antt =====
-- A small server to try the theorems on, and the theorems at work on it.
pub mod Rooms
pub mod Parts
pub mod Signals
pub mod Services
pub mod Requests
pub mod Hooks
pub mod Tenants
pub mod Started
use dendri_server.Common.{
  ℕ, ◌-◌, Bool, true, false, Option, none, some, List, [], ◌∷◌, ◌++◌, Text, codes, map, ltb,
  text_beq, if◌then◌else◌, unwrap_or, map_some,
}
use dendri_server.Config.{Config}
use dendri_server.Enums.{MessageType, Message}
use dendri_server.RateLimiter.{Governor}
use dendri_server.Replay
use dendri_server.State.{AppState, ClientMeta, Channel, TransportKind, PendingRemoval, meta_new}
use dendri_server.World.{World, Redis, Json, Command, Reply, Clock}

-- It notes what it is asked, and answers nothing of use.
abbrev pub test_redis : Redis
test_redis = record {
  Conn = List (List Command);
  query = λ commands conn. (conn ++ commands ∷ [], some Reply.done);
}

abbrev first : List Text → Option Text
first [] = none
first (t ∷ ts) = some t

abbrev pub room_message : MessageType → Text → Message
room_message t room = record {
  type_ = t;
  src = none;
  dst = none;
  payload = none;
  seq = none;
  room = some room;
  timestamp = none;
  topic_class = none;
}

-- A value is a list of room names; a text is a message that joins the room of that name.
abbrev pub test_json : Json
test_json = record {
  Value = List Text;
  get = λ v key. if text_beq key (codes "rooms") then some v else none;
  as_array = λ v. some (map (λ t. t ∷ []) v);
  as_str = first;
  message_to_json = λ m. unwrap_or m.room [];
  message_from_json = λ t. some (room_message MessageType.room_join t);
  message_from_value = λ v. map_some (room_message MessageType.room_join) (first v);
  list_to_json = λ ts. unwrap_or (first ts) [];
  tenant_to_json = λ t. t.id;
  tenant_from_json = λ t. none;
}

-- The budget of a limiter never comes back.
abbrev pub test_governor : Governor
test_governor = record { Limiter = ℕ; direct = λ n. n; check = λ l now. (ltb 0 l, l - 1) }

abbrev pub test_world : World
test_world = record {
  redis = test_redis;
  json = test_json;
  governor = test_governor;
  ct_eq = text_beq;
  sha256 = λ t. t;
  decode_jwt =
      λ secret token now. if text_beq secret token then some (codes "lobby" ∷ []) else none;
}

abbrev pub noon : Clock
noon = record { wall = 43200000; instant = 1000 }

abbrev pub later : Clock
later = record { wall = 43299000; instant = 100000 }

abbrev pub test_config : Config
test_config = record {
  port = 9000;
  host = [];
  key = codes "dendri";
  key_file = none;
  path = [];
  concurrent_limit = 10;
  alive_timeout = 60000;
  idle_timeout = 0;
  expire_timeout = 5000;
  allow_discovery = false;
  discovery_token = none;
  cleanup_out_msgs = 1000;
  cors = [];
  sslkey = none;
  sslcert = none;
  enable_relay = true;
  max_message_size = 100;
  rate_limit_signaling = 1;
  rate_limit_data = 1;
  turn_secret = none;
  turn_servers = [];
  max_room_size = 2;
  max_rooms_per_client = 2;
  max_total_rooms = 2;
  replay_buffer_size = 100;
  replay_buffer_ttl = 60000;
  session_ttl = 30000;
  jwt_secret = some (codes "s");
  admin_token = none;
  require_api_key = false;
  mail_ak_id = none;
  mail_ak_secret = none;
  mail_region = [];
  mail_from = [];
  dashboard_url = [];
  website_url = [];
  webhook_url = none;
  webhook_secret = none;
  redis_url = [];
  strip_ice_candidates = false;
}

abbrev pub alice : Text
alice = codes "alice"

abbrev pub bob : Text
bob = codes "bob"

abbrev pub lobby : Text
lobby = codes "lobby"

abbrev pub hall : Text
hall = codes "hall"

abbrev pub client : Text → ClientMeta
client token = meta_new 0 token TransportKind.web_socket

-- Alice and Bob are connected, and Bob is in the lobby.
abbrev pub server : AppState test_world
server = record {
  channels = λ c. record { queue = []; is_open = true };
  next_channel = 2;
  ws_senders = (alice, 0) ∷ (bob, 1) ∷ [];
  clients = (alice, client alice) ∷ (bob, client bob) ∷ [];
  redis = [];
  config = test_config;
  rooms = (lobby, bob ∷ []) ∷ [];
  client_rooms = (bob, lobby ∷ []) ∷ [];
  seq_counter = 6;
  rate_limiter = [];
  replay_buffer = record { buffers = []; max_size = 100; ttl_ms = 60000 };
  pending_removals = [];
  presence = [];
  client_claims = [];
  client_tenants = [];
  webhook = none;
  active_connections = 2;
  polling_receivers = [];
  tenant_cache = [];
}

-- Bob is away; the hall is a second room of his.
abbrev pub away : AppState test_world
away = record server {
  rooms = (lobby, bob ∷ []) ∷ (hall, bob ∷ []) ∷ [];
  pending_removals = (bob, record { rooms = hall ∷ []; disconnected_at = 500 }) ∷ [];
}
