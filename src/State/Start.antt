-- ===== src/State/Start.antt =====
-- src/state.rs: `AppState::new` and `drain_ws`. Opening Redis and parsing a URL are parameters, as
-- are the readings that the wait of `drain_ws` takes.
use dendri_server.Common.{
  ℕ, zero, suc, ◌+◌, true, Option, none, some, List, [], ◌∷◌, ◌++◌, Text, codes, text_eq, leb,
  nat_beq, if◌then◌else◌,
}
use dendri_server.Common.Maps.{keys}
use dendri_server.Config.{Config}
use dendri_server.Mail
use dendri_server.Mail.{Mailer}
use dendri_server.RateLimiter
use dendri_server.Realm.{decimal}
use dendri_server.Replay
use dendri_server.State.{AppState, Channel, send_to}
use dendri_server.Webhook.{WebhookSender}
use dendri_server.Webhook.Url.{ParsedUrl, is_safe_webhook_url}
use dendri_server.World.{World}

unfoldable pub webhook_of : (Text → Option ParsedUrl) → Config → Option WebhookSender
webhook_of parse config = elim config.webhook_url [
  | none ↦ none
  | some url ↦
      if is_safe_webhook_url parse url then some (record { queue = []; is_open = true }) else none
]

unfoldable pub mailer_of : Config → Option Mailer
mailer_of config = elim config.mail_ak_id [
  | none ↦ none
  | some id ↦ elim config.mail_ak_secret [
    | none ↦ none
    | some secret ↦ some (Mail.new id secret config.mail_region config.mail_from)
  ]
]

abbrev pub fresh_channels : ℕ → Channel
fresh_channels c = record { queue = []; is_open = true }

-- `{"type":"CLOSE","code":…,"reason":"…"}`
unfoldable pub close_frame : ℕ → Text → Text
close_frame code reason =
    codes "{\"type\":\"CLOSE\",\"code\":"
    ++ (decimal code ++ (codes ",\"reason\":\"" ++ (reason ++ codes "\"}")))

-- The wait: what the round sees of the number of senders, first in its test and then in what it
-- returns, and of the time, by the number of the round. A round that goes on sleeps for 100 ms. The first number is fuel.
unfoldable pub drain_wait : (ℕ → ℕ) → (ℕ → ℕ) → (ℕ → ℕ) → ℕ → ℕ → ℕ → Option ℕ
drain_wait senders remaining instant deadline zero round = none
drain_wait senders remaining instant deadline (suc fuel) round =
    let rest = drain_wait senders remaining instant deadline fuel (suc round) in
    if nat_beq (senders round) 0
    then some 0
    else if leb deadline (instant round)
    then some (remaining round)
    else rest

-- 30 s, and one round more than the sleeps that fit in.
abbrev pub drain_ms : ℕ
drain_ms = 30000

abbrev pub drain_rounds : ℕ
drain_rounds = 301

module _ {w : World} where
  unfoldable pub fresh : (Text → Option ParsedUrl) → Config → w.redis.Conn → AppState w
  unfolding webhook_of
  fresh parse config redis = record {
    channels = fresh_channels;
    next_channel = 0;
    ws_senders = [];
    clients = [];
    redis = redis;
    config = config;
    rooms = [];
    client_rooms = [];
    seq_counter = 0;
    rate_limiter = RateLimiter.new w.governor;
    replay_buffer = Replay.new config.replay_buffer_size config.replay_buffer_ttl;
    pending_removals = [];
    presence = [];
    client_claims = [];
    client_tenants = [];
    webhook = webhook_of parse config;
    active_connections = 0;
    polling_receivers = [];
    tenant_cache = [];
  }

  -- The state and the mailer, unless Redis cannot be reached.
  unfoldable pub new :
      (Text → Option w.redis.Conn)
      → (Text → Option ParsedUrl)
      → Config
      → Option (AppState w × Option Mailer)
  unfolding fresh mailer_of
  new open_redis parse config = elim (open_redis config.redis_url) [
    | none ↦ none
    | some redis ↦ some (fresh parse config redis, mailer_of config)
  ]

  unfoldable pub close_each : AppState w → List Text → Text → AppState w
  close_each s [] frame = s
  close_each s (id ∷ ids) frame = close_each (send_to s id frame) ids frame

  -- `drain_ws` up to its wait.
  unfoldable pub close_all : AppState w → ℕ → Text → AppState w
  unfolding close_each close_frame
  close_all s code reason = close_each s (keys s.ws_senders) (close_frame code reason)

  -- What it has sent, and the number of senders that it returns.
  unfoldable pub drain_ws :
      AppState w → ℕ → Text → (ℕ → ℕ) → (ℕ → ℕ) → (ℕ → ℕ) → AppState w × Option ℕ
  unfolding close_all drain_wait
  drain_ws s code reason senders remaining instant = (
    close_all s code reason,
    drain_wait senders remaining instant (instant 0 + drain_ms) drain_rounds 0,
  )
