-- ===== src/Http/Counted.antt =====
-- The count of connections through any requests over HTTP (src/handlers/http.rs, src/state.rs).
use dendri_server.Common.{
  ℕ, ◌<◌, ◌≡◌, refl, inl, inr, Option, none, some, List, [], ◌∷◌, Text, All, text_beq, text_eq,
  Option-cases, Bool-cases, nat_beq,
}
use dendri_server.Common.Maps.{lookup, remove, adjust, contains_key}
use dendri_server.Connect.Departure.{forget_client-IsCounted}
use dendri_server.Connect.Serving.{forget_client}
use dendri_server.Dispatch.{handle_message}
use dendri_server.Dispatch.Count.{IsCounted, same_count, adjust-IsCounted}
use dendri_server.Dispatch.Counted.{handle_message-IsCounted}
use dendri_server.Dispatch.RoomSteps.{RoomStep, kept, joined, left, handle_message-RoomStep}
use dendri_server.Enums.{Message}
use dendri_server.Http.{HttpQuery}
use dendri_server.Http.Counting.{sse_handler-IsCounted, poll_handler-IsCounted}
use dendri_server.Http.Indexes.{sse_handler-SameIndexes, poll_handler-SameIndexes}
use dendri_server.Http.Poll.{collect_poll_messages_shared}
use dendri_server.Http.Run.{
  Event, on_socket, opens_stream, polls, collects, posts, drops_stream, watches, ends_stream,
  step_http, run_http,
}
use dendri_server.Http.Stream.{
  cleanup_client, watchdog, apply_rate_limit, apply_limit, metered, handle_body, send_handler,
}
use dendri_server.RateLimiter.{check_and_consume}
use dendri_server.Rooms.{add_member}
use dendri_server.Sessions.{remove_client_from_all_rooms, immediate_remove_from_all_rooms}
use dendri_server.Sessions.Grace.{defer-Deferred}
use dendri_server.Sessions.Purge.{remove_from_rooms-Purged}
use dendri_server.Slots.{usize_mod}
use dendri_server.State.{AppState, notify, touch, remove_and_release}
use dendri_server.World.{World, Clock}

module _ {w : World} where
  -- The settings stay.
  handle_message-config :
      (s : AppState w) (now : Clock) (client_id : Text) (msg : Message)
      → (handle_message s now client_id msg).config ≡ s.config
  unfolding add_member
  handle_message-config s now client_id msg = after (handle_message-RoomStep s now client_id msg)
    where
      after : {t : AppState w} → RoomStep s client_id msg.room t → t.config ≡ s.config
      after (kept r) = r.same.config
      after (joined room_name e a r) = r.same.config
      after (left room_name e v) = v.same.config

  remove_client_from_all_rooms-config :
      (s : AppState w) (now : Clock) (c : Text)
      → (remove_client_from_all_rooms s now c).config ≡ s.config
  unfolding remove_client_from_all_rooms immediate_remove_from_all_rooms
  remove_client_from_all_rooms-config s now c = elim (Bool-cases (nat_beq s.config.session_ttl 0)) [
    | inr ttl ↦ (defer-Deferred s now c ttl).config
    | inl ttl ↦
        rw (ttl, remove_client_from_all_rooms)
          (elim (Option-cases (lookup c s.client_rooms)) [
            | inl e ↦ rw (e, immediate_remove_from_all_rooms) refl
            | inr (ks, e) ↦
                rw (e, immediate_remove_from_all_rooms)
                  ((remove_from_rooms-Purged (record s { client_rooms = remove c s.client_rooms }) c
                    ks).same.config)
          ])
  ]

  cleanup_client-config :
      (s : AppState w) (now : Clock) (id : Text) → (cleanup_client s now id).config ≡ s.config
  unfolding cleanup_client forget_client remove_and_release notify
  cleanup_client-config s now id = elim (Bool-cases (contains_key id s.clients)) [
    | inl e ↦ rw (e, cleanup_client) (remove_client_from_all_rooms-config _ now id)
    | inr e ↦ rw (e, cleanup_client) (remove_client_from_all_rooms-config _ now id)
  ]

  -- The count is right, and the limit is a `usize`.
  pub record IsBounded (s : AppState w) : Type 0 where
    pub counted : IsCounted s
    pub limited : s.config.concurrent_limit < usize_mod

  bounded : {s t : AppState w} → t.config ≡ s.config → IsCounted t → IsBounded s → IsBounded t
  bounded e h b = record { counted = h; limited = rw e (b.limited) }

  cleanup_client-IsBounded :
      (s : AppState w) (now : Clock) (id : Text) → IsBounded s → IsBounded (cleanup_client s now id)
  unfolding cleanup_client
  cleanup_client-IsBounded s now id b =
      let s' : AppState w = record s { polling_receivers = remove id s.polling_receivers } in
      bounded (cleanup_client-config s now id)
        (forget_client-IsCounted s' now id (same_count {s = s} refl refl b.counted)) b

  watchdog-IsBounded :
      (s : AppState w) (now : Clock) (id : Text) (ch : ℕ)
      → IsBounded s
      → IsBounded (watchdog s now id ch).0
  unfolding watchdog
  watchdog-IsBounded s now id ch b = elim (Bool-cases (s.channels ch).is_open) [
    | inl e ↦ rw (e, watchdog) b
    | inr e ↦ rw (e, watchdog) (cleanup_client-IsBounded s now id b)
  ]

  apply_limit-IsBounded :
      (s : AppState w) (now : Clock) (id : Text) (limit : Option (Text × ℕ))
      → IsBounded s
      → IsBounded (apply_limit s now id limit).0
  unfolding notify
  apply_limit-IsBounded s now id none b = b
  apply_limit-IsBounded s now id (some (bucket, limit)) b =
      elim (Bool-cases
        (check_and_consume w.governor s.rate_limiter now.instant id bucket limit).1) [
          | inl fine ↦ rw fine (bounded {s = s} refl (same_count {s = s} refl refl b.counted) b)
          | inr over ↦ rw over (bounded {s = s} refl (same_count {s = s} refl refl b.counted) b)
        ]

  apply_rate_limit-IsBounded :
      (s : AppState w) (now : Clock) (id : Text) (msg : Message)
      → IsBounded s
      → IsBounded (apply_rate_limit s now id msg).0
  unfolding apply_rate_limit
  apply_rate_limit-IsBounded s now id msg b = apply_limit-IsBounded s now id (metered s msg.type_) b

  handle_body-IsBounded :
      (s : AppState w) (now : Clock) (id : Text) (read : Option Message)
      → IsBounded s
      → IsBounded (handle_body s now id read).0
  unfolding handle_body
  handle_body-IsBounded s now id none b = b
  handle_body-IsBounded s now id (some msg) b =
      let s' = (apply_rate_limit s now id msg).0 in
      let b' = apply_rate_limit-IsBounded s now id msg b in
      elim (Bool-cases (apply_rate_limit s now id msg).1) [
        | inl fine ↦
            rw (fine, handle_body)
              (bounded (handle_message-config s' now id msg)
                (handle_message-IsCounted s' now id msg b'.counted) b')
        | inr over ↦ rw (over, handle_body) b'
      ]

  send_handler-IsBounded :
      (s : AppState w) (now : Clock) (q : HttpQuery) (body : w.json.Value)
      → IsBounded s
      → IsBounded (send_handler s now q body).0
  unfolding send_handler
  send_handler-IsBounded s now q body b = elim (Option-cases (lookup q.id s.clients)) [
    | inl e ↦ rw (e, send_handler) b
    | inr (meta, e) ↦
        let s' : AppState w = record s { clients = adjust q.id (touch now.wall) s.clients } in
        rw (e, send_handler)
          (elim (Bool-cases (text_beq meta.token q.token)) [
            | inr other ↦ rw other b
            | inl own ↦ rw own (
                handle_body-IsBounded s' now q.id (w.json.message_from_value body)
                  (bounded {s = s} refl (adjust-IsCounted s q.id (touch now.wall) b.counted) b))
          ])
  ]

  -- Anything but an event of a socket.
  abbrev pub IsHttp : Event w → Type 0
  IsHttp (on_socket e) = ⊥
  IsHttp (opens_stream now q) = Unit
  IsHttp (polls now q) = Unit
  IsHttp (collects rx) = Unit
  IsHttp (posts now q body) = Unit
  IsHttp (drops_stream ch) = Unit
  IsHttp (watches now id ch) = Unit
  IsHttp (ends_stream now id) = Unit

  step_http-IsBounded :
      (s : AppState w) (e : Event w) → IsHttp e → IsBounded s → IsBounded (step_http s e)
  unfolding step_http collect_poll_messages_shared
  step_http-IsBounded s (on_socket e) i b = absurd i
  step_http-IsBounded s (opens_stream now q) i b =
      bounded (sse_handler-SameIndexes s now q).config
        (sse_handler-IsCounted s now q b.limited b.counted) b
  step_http-IsBounded s (polls now q) i b =
      bounded (poll_handler-SameIndexes s now q).config
        (poll_handler-IsCounted s now q b.limited b.counted) b
  step_http-IsBounded s (collects rx) i b =
      bounded {s = s} refl (same_count {s = s} refl refl b.counted) b
  step_http-IsBounded s (posts now q body) i b = send_handler-IsBounded s now q body b
  step_http-IsBounded s (drops_stream ch) i b =
      bounded {s = s} refl (same_count {s = s} refl refl b.counted) b
  step_http-IsBounded s (watches now id ch) i b = watchdog-IsBounded s now id ch b
  step_http-IsBounded s (ends_stream now id) i b = cleanup_client-IsBounded s now id b

  -- After any sequence of streams and polls that are asked for, posts, batches collected, and streams
  -- dropped, watched and ended, with no event of a socket among them, the counter of connections is
  -- the number of clients, which are distinct and fewer than 2^64, if it was before; the limit of
  -- connections is below 2^64.
  pub run_http-IsBounded :
      (s : AppState w) (events : List (Event w))
      → All IsHttp events
      → IsBounded s
      → IsBounded (run_http s events)
  unfolding run_http
  run_http-IsBounded s [] i b = b
  run_http-IsBounded s (e ∷ es) i b =
      run_http-IsBounded (step_http s e) es i.1 (step_http-IsBounded s e i.0 b)
