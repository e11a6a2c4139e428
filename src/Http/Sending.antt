-- ===== src/Http/Sending.antt =====
-- A message that is posted, and the same one over a WebSocket (src/handlers/http.rs, ws.rs).
use dendri_server.Common.{
  ℕ, ◌≡◌, refl, inl, inr, some, Text, codes, Bool-cases, not, true, false, if◌then◌else◌, text_beq,
  text_eq, length, ltb, ◌≤◌, arith,
}
use dendri_server.Common.Maps.{lookup, adjust}
use dendri_server.Webhook.{rate_limited}
use dendri_server.Connect.Serving.{bucket_name, check_limit, take_message, receive}
use dendri_server.Enums.{Message, MessageType}
use dendri_server.Frames.{error_frame}
use dendri_server.Http.{
  HttpQuery, StatusCode, ok, too_many_requests, bad_request, unauthorized, forbidden, conflict,
  service_unavailable,
}
use dendri_server.Http.Stream.{metered, apply_limit, apply_rate_limit, handle_body, send_handler}
use dendri_server.State.{AppState, ClientMeta, touch, send, notify}
use dendri_server.World.{World, Clock}

le→not_ltb : (a b : ℕ) → a ≤ b → ltb b a ≡ false
le→not_ltb a b h = ground (arith, h)

module _ {w : World} where
  -- What a socket is sent besides, when a message is refused.
  pub told : AppState w → ℕ → StatusCode → AppState w
  told s ch too_many_requests = (send s ch (error_frame (codes "Rate limit exceeded"))).0
  told s ch ok = s
  told s ch bad_request = s
  told s ch unauthorized = s
  told s ch forbidden = s
  told s ch conflict = s
  told s ch service_unavailable = s

  -- The two matches on the type agree.
  apply_limit-check_limit :
      (s : AppState w) (now : Clock) (id : Text) (t : MessageType)
      → apply_limit s now id (metered s t) ≡ (
        if not (check_limit s now id t).1
            then notify (check_limit s now id t).0 (rate_limited now.wall id (bucket_name t))
            else (check_limit s now id t).0,
        (check_limit s now id t).1,
      )
  unfolding check_limit
  apply_limit-check_limit s now id MessageType.offer = refl
  apply_limit-check_limit s now id MessageType.answer = refl
  apply_limit-check_limit s now id MessageType.candidate = refl
  apply_limit-check_limit s now id MessageType.data_ = refl
  apply_limit-check_limit s now id _ = refl

  take_message-handle_body :
      (s : AppState w) (now : Clock) (client_id : Text) (ch : ℕ) (msg : Message)
      → take_message s now client_id ch msg
        ≡ told
            (handle_body s now client_id (some msg)).0
            ch
            (handle_body s now client_id (some msg)).1.status
  unfolding take_message handle_body told apply_rate_limit
  take_message-handle_body s now client_id ch msg =
      rw (apply_limit-check_limit s now client_id msg.type_)
        (elim (Bool-cases (check_limit s now client_id msg.type_).1) [
          | inl fine ↦ rw (fine, take_message, handle_body) refl
          | inr over ↦ rw (over, take_message, handle_body) refl
        ])

  abbrev pub touched : AppState w → Clock → Text → AppState w
  touched s now id = record s { clients = adjust id (touch now.wall) s.clients }

  -- A message that a client posts with its own token has the effect that its entry is touched, and
  -- then that of the same message in a text on its socket, if the text is not too large for that:
  -- the same rate limit, event of the webhook and handling, and where the post is answered 429 the
  -- socket is sent an error frame.
  pub receive-send_handler :
      (s : AppState w) (now : Clock) (q : HttpQuery) (body : w.json.Value) (text : Text) (ch : ℕ)
      (msg : Message) (meta : ClientMeta)
      → lookup q.id s.clients ≡ some meta
      → text_beq meta.token q.token ≡ true
      → w.json.message_from_value body ≡ some msg
      → w.json.message_from_json text ≡ some msg
      → length text ≤ s.config.max_message_size
      → receive (touched s now q.id) now q.id ch text
        ≡ told (send_handler s now q body).0 ch (send_handler s now q body).1.status
  unfolding receive send_handler
  receive-send_handler s now q body text ch msg meta known own read_body read_text small =
      rw (known, send_handler, own, read_body, le→not_ltb _ _ small, receive, read_text)
        (take_message-handle_body (touched s now q.id) now q.id ch msg)
