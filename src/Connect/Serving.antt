-- ===== src/Connect/Serving.antt =====
-- src/handlers/ws.rs: the read loop of `run_client`, and what follows it.
use dendri_server.Common.{
  ℕ, ◌++◌, Bool, true, false, not, none, some, Text, codes, length, ltb, nat_beq, text_eq,
  if◌then◌else◌,
}
use dendri_server.Common.Maps.{lookup, remove}
use dendri_server.Dispatch.{handle_message}
use dendri_server.Enums.{MessageType, Message}
use dendri_server.Frames.{error_frame}
use dendri_server.RateLimiter.{check_and_consume}
use dendri_server.Realm
use dendri_server.Realm.{decimal}
use dendri_server.Sessions.{remove_client_from_all_rooms}
use dendri_server.State.{AppState, send, notify, remove_and_release}
use dendri_server.Webhook.{peer_disconnected, rate_limited}
use dendri_server.RateLimiter
use dendri_server.World.{World, Clock}

-- The bucket that a refusal is reported for.
abbrev pub bucket_name : MessageType → Text
bucket_name MessageType.data_ = codes "data"
bucket_name _ = codes "signaling"

module _ {w : World} where
  open w.json use {message_to_json, message_from_json, list_to_json}

  abbrev pub consume : AppState w → Clock → Text → Text → ℕ → AppState w × Bool
  consume s now client_id bucket limit =
      let (limiter, allowed) =
        check_and_consume w.governor s.rate_limiter now.instant client_id bucket limit in
      (record s { rate_limiter = limiter }, allowed)

  -- The `match` on the type of a message; what it does not name is not limited.
  unfoldable pub check_limit : AppState w → Clock → Text → MessageType → AppState w × Bool
  check_limit s now client_id MessageType.offer =
      consume s now client_id (codes "signaling") s.config.rate_limit_signaling
  check_limit s now client_id MessageType.answer =
      consume s now client_id (codes "signaling") s.config.rate_limit_signaling
  check_limit s now client_id MessageType.candidate =
      consume s now client_id (codes "signaling") s.config.rate_limit_signaling
  check_limit s now client_id MessageType.data_ =
      consume s now client_id (codes "data") s.config.rate_limit_data
  check_limit s now client_id _ = (s, true)

  unfoldable pub take_message : AppState w → Clock → Text → ℕ → Message → AppState w
  unfolding check_limit
  take_message s now client_id ch msg =
      let (s', allowed) = check_limit s now client_id msg.type_ in
      if not allowed
      then (send (notify s' (rate_limited now.wall client_id (bucket_name msg.type_))) ch
          (error_frame (codes "Rate limit exceeded"))).0
      else handle_message s' now client_id msg

  -- One text of the read loop.
  unfoldable pub receive : AppState w → Clock → Text → ℕ → Text → AppState w
  unfolding take_message
  receive s now client_id ch text =
      if ltb s.config.max_message_size (length text)
      then (send s ch (
          error_frame (
            codes "Message exceeds maximum size of "
            ++ (decimal s.config.max_message_size ++ codes " bytes")))).0
      else elim (message_from_json text) [
        | none ↦ s
        | some msg ↦ take_message s now client_id ch msg
      ]

  -- After the read loop. The sender of another connection is left in place.
  abbrev pub is_current : AppState w → Text → ℕ → Bool
  is_current s client_id ch = elim (lookup client_id s.ws_senders) [
    | none ↦ false
    | some c ↦ nat_beq c ch
  ]

  -- The writer task, which holds the receiver, is aborted.
  abbrev pub close_channel : AppState w → ℕ → AppState w
  close_channel s ch = record s {
    channels = λ c.
        if nat_beq ch c
        then record { queue = (s.channels c).queue; is_open = false }
        else s.channels c;
  }

  unfoldable pub forget_client : AppState w → Clock → Text → AppState w
  forget_client s now client_id =
      let s1 =
        remove_and_release (record s { ws_senders = remove client_id s.ws_senders }) client_id in
      let s2 = record s1 {
        client_claims = remove client_id s1.client_claims;
        client_tenants = remove client_id s1.client_tenants;
        rate_limiter = RateLimiter.remove_client w.governor s1.rate_limiter client_id;
      } in
      let s3 = remove_client_from_all_rooms s2 now client_id in
      notify (record s3 { redis = (Realm.remove_client w.redis s3.redis client_id).0 })
        (peer_disconnected now.wall client_id)

  unfoldable pub disconnect : AppState w → Clock → Text → ℕ → AppState w
  unfolding forget_client
  disconnect s now client_id ch =
      close_channel (if is_current s client_id ch then forget_client s now client_id else s) ch
