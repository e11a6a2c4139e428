-- ===== src/Http/Stream.antt =====
-- src/handlers/http.rs: `sse_handler`, what follows its stream, and `send_handler`.
use dendri_server.Common.{
  ℕ, Bool, true, false, not, Option, none, some, Text, codes, text_beq, text_eq, if◌then◌else◌,
}
use dendri_server.Common.Maps.{lookup, remove, adjust, contains_key}
use dendri_server.Connect.Greeting.{open_channel}
use dendri_server.Connect.Serving.{forget_client}
use dendri_server.Dispatch.{handle_message}
use dendri_server.Enums.{Message, MessageType}
use dendri_server.Http.{
  HttpQuery, StatusCode, Answer, answer, Entry, enter_http, register_client_backend,
  store_http_client, replay, welcome_http,
}
use dendri_server.RateLimiter.{check_and_consume}
use dendri_server.State.{AppState, TransportKind, touch, notify}
use dendri_server.Tenant.{Tenant}
use dendri_server.Webhook.{peer_connected, rate_limited}
use dendri_server.World.{World, Clock}

-- A request is refused, or answered with the stream of a channel.
pub data Stream : Type 0 where
  rejected : Answer → Stream
  streaming : ℕ → Stream

module _ {w : World} where
  unfoldable pub open_stream : AppState w → Clock → HttpQuery → Option Tenant → AppState w × Stream
  unfolding register_client_backend store_http_client open_channel welcome_http replay
  open_stream s now q tenant =
      let ch = s.next_channel in
      let s1 =
        store_http_client (register_client_backend s now q.id q.token) now q.id q.token
          TransportKind.sse tenant in
      let s2 = welcome_http (open_channel s1 q.id) now q.id ch in
      (notify (replay s2 now q.id ch q.last_seq) (peer_connected now.wall q.id), streaming ch)

  unfoldable pub sse_handler : AppState w → Clock → HttpQuery → AppState w × Stream
  unfolding enter_http open_stream
  sse_handler s now q =
      let (s', entry) = enter_http s now q in
      elim entry [
        | Entry.rejected a ↦ (s', rejected a)
        | Entry.fresh tenant ↦ open_stream s' now q tenant
        | Entry.known tenant ↦ open_stream s' now q tenant
      ]

  -- What `forget_client` does, for the receiver of polls also.
  unfoldable pub cleanup_client : AppState w → Clock → Text → AppState w
  unfolding forget_client
  cleanup_client s now client_id =
      forget_client (record s { polling_receivers = remove client_id s.polling_receivers }) now
        client_id

  -- One round of the watchdog of the stream of `ch`, and whether another follows.
  unfoldable pub watchdog : AppState w → Clock → Text → ℕ → AppState w × Bool
  unfolding cleanup_client
  watchdog s now id ch =
      if not (s.channels ch).is_open
      then (cleanup_client s now id, false)
      else (s, contains_key id s.clients)

  -- The `match` on the type of a message: its bucket and limit, or no limit.
  abbrev pub metered : AppState w → MessageType → Option (Text × ℕ)
  metered s MessageType.offer = some (codes "signaling", s.config.rate_limit_signaling)
  metered s MessageType.answer = some (codes "signaling", s.config.rate_limit_signaling)
  metered s MessageType.candidate = some (codes "signaling", s.config.rate_limit_signaling)
  metered s MessageType.data_ = some (codes "data", s.config.rate_limit_data)
  metered s _ = none

  abbrev pub apply_limit : AppState w → Clock → Text → Option (Text × ℕ) → AppState w × Bool
  apply_limit s now client_id none = (s, true)
  apply_limit s now client_id (some (bucket, limit)) =
      let (limiter, allowed) =
        check_and_consume w.governor s.rate_limiter now.instant client_id bucket limit in
      let s' = record s { rate_limiter = limiter } in
      (if not allowed then notify s' (rate_limited now.wall client_id bucket) else s', allowed)

  unfoldable pub apply_rate_limit : AppState w → Clock → Text → Message → AppState w × Bool
  apply_rate_limit s now client_id msg = apply_limit s now client_id (metered s msg.type_)

  -- A message that was read from the body, or none.
  unfoldable pub handle_body : AppState w → Clock → Text → Option Message → AppState w × Answer
  unfolding apply_rate_limit
  handle_body s now id none = (s, answer StatusCode.bad_request (codes "Invalid message"))
  handle_body s now id (some msg) =
      let (s', allowed) = apply_rate_limit s now id msg in
      if not allowed
      then (s', answer StatusCode.too_many_requests (codes "Rate limit exceeded"))
      else (handle_message s' now id msg, answer StatusCode.ok (codes "ok"))

  unfoldable pub send_handler : AppState w → Clock → HttpQuery → w.json.Value → AppState w × Answer
  unfolding handle_body
  send_handler s now q body = elim (lookup q.id s.clients) [
    | none ↦ (s, answer StatusCode.unauthorized (codes "Client not registered"))
    | some meta ↦
        if not (text_beq meta.token q.token)
        then (s, answer StatusCode.unauthorized (codes "Client not registered"))
        else handle_body (record s { clients = adjust q.id (touch now.wall) s.clients }) now q.id
            (w.json.message_from_value body)
  ]
