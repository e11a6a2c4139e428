-- ===== src/Http/Run.antt =====
-- Any sequence of requests over HTTP, and of what may happen over WebSockets (src/handlers/http.rs).
use dendri_server.Common.{
  ℕ, refl, inl, inr, Option, none, some, List, [], ◌∷◌, Text, text_beq, text_eq, Option-cases,
  Bool-cases,
}
use dendri_server.Common.Maps.{lookup, adjust, remove}
use dendri_server.Connect.Indexes.{SameIndexes, same, SameIndexes-IsConsistent}
use dendri_server.Connect.Run.{forget_client-IsConsistent, step, step-IsConsistent}
use dendri_server.Connect.Run
use dendri_server.Connect.Serving.{close_channel}
use dendri_server.Dispatch.Invariant.{IsConsistent, handle_message-keeps}
use dendri_server.Enums.{Message}
use dendri_server.Http.{HttpQuery}
use dendri_server.Http.Indexes.{sse_handler-SameIndexes, poll_handler-SameIndexes}
use dendri_server.Http.Poll.{poll_handler, collect_poll_messages_shared}
use dendri_server.Http.Stream.{
  sse_handler, cleanup_client, watchdog, apply_rate_limit, apply_limit, metered, handle_body,
  send_handler,
}
use dendri_server.RateLimiter.{check_and_consume}
use dendri_server.State.{AppState, notify, touch}
use dendri_server.World.{World, Clock}

-- The last three are of a stream: its client goes away, a round of its watchdog, its end.
pub data Event (w : World) : Type 0 where
  on_socket : Run.Event → Event w
  opens_stream polls : Clock → HttpQuery → Event w
  collects : ℕ → Event w
  posts : Clock → HttpQuery → w.json.Value → Event w
  drops_stream : ℕ → Event w
  watches : Clock → Text → ℕ → Event w
  ends_stream : Clock → Text → Event w

module _ {w : World} where
  unfoldable pub step_http : AppState w → Event w → AppState w
  unfolding step
  step_http s (on_socket e) = step s e
  step_http s (opens_stream now q) = (sse_handler s now q).0
  step_http s (polls now q) = (poll_handler s now q).0
  step_http s (collects rx) = (collect_poll_messages_shared s rx).0
  step_http s (posts now q body) = (send_handler s now q body).0
  step_http s (drops_stream ch) = close_channel s ch
  step_http s (watches now id ch) = (watchdog s now id ch).0
  step_http s (ends_stream now id) = cleanup_client s now id

  unfoldable pub run_http : AppState w → List (Event w) → AppState w
  run_http s [] = s
  run_http s (e ∷ es) = run_http (step_http s e) es

  cleanup_client-IsConsistent :
      (s : AppState w) (now : Clock) (id : Text)
      → IsConsistent s
      → IsConsistent (cleanup_client s now id)
  unfolding cleanup_client
  cleanup_client-IsConsistent s now id h =
      forget_client-IsConsistent (record s { polling_receivers = remove id s.polling_receivers })
        now id (SameIndexes-IsConsistent {s = s} (same refl refl refl refl) h)

  watchdog-IsConsistent :
      (s : AppState w) (now : Clock) (id : Text) (ch : ℕ)
      → IsConsistent s
      → IsConsistent (watchdog s now id ch).0
  unfolding watchdog
  watchdog-IsConsistent s now id ch h = elim (Bool-cases (s.channels ch).is_open) [
    | inl e ↦ rw (e, watchdog) h
    | inr e ↦ rw (e, watchdog) (cleanup_client-IsConsistent s now id h)
  ]

  apply_limit-SameIndexes :
      (s : AppState w) (now : Clock) (id : Text) (limit : Option (Text × ℕ))
      → SameIndexes s (apply_limit s now id limit).0
  unfolding notify
  apply_limit-SameIndexes s now id none = same refl refl refl refl
  apply_limit-SameIndexes s now id (some (bucket, limit)) =
      elim (Bool-cases
        (check_and_consume w.governor s.rate_limiter now.instant id bucket limit).1) [
          | inl fine ↦ rw fine (same refl refl refl refl)
          | inr over ↦ rw over (same refl refl refl refl)
        ]

  apply_rate_limit-SameIndexes :
      (s : AppState w) (now : Clock) (id : Text) (msg : Message)
      → SameIndexes s (apply_rate_limit s now id msg).0
  unfolding apply_rate_limit
  apply_rate_limit-SameIndexes s now id msg = apply_limit-SameIndexes s now id (metered s msg.type_)

  handle_body-IsConsistent :
      (s : AppState w) (now : Clock) (id : Text) (read : Option Message)
      → IsConsistent s
      → IsConsistent (handle_body s now id read).0
  unfolding handle_body
  handle_body-IsConsistent s now id none h = h
  handle_body-IsConsistent s now id (some msg) h =
      let s' = (apply_rate_limit s now id msg).0 in
      let h' = SameIndexes-IsConsistent (apply_rate_limit-SameIndexes s now id msg) h in
      elim (Bool-cases (apply_rate_limit s now id msg).1) [
        | inl fine ↦ rw (fine, handle_body) (handle_message-keeps s' now id msg h')
        | inr over ↦ rw (over, handle_body) h'
      ]

  send_handler-IsConsistent :
      (s : AppState w) (now : Clock) (q : HttpQuery) (body : w.json.Value)
      → IsConsistent s
      → IsConsistent (send_handler s now q body).0
  unfolding send_handler
  send_handler-IsConsistent s now q body h = elim (Option-cases (lookup q.id s.clients)) [
    | inl e ↦ rw (e, send_handler) h
    | inr (meta, e) ↦
        let s' : AppState w = record s { clients = adjust q.id (touch now.wall) s.clients } in
        rw (e, send_handler)
          (elim (Bool-cases (text_beq meta.token q.token)) [
            | inr other ↦ rw other h
            | inl own ↦ rw own (
                handle_body-IsConsistent s' now q.id (w.json.message_from_value body)
                  (SameIndexes-IsConsistent {s = s} (same refl refl refl refl) h))
          ])
  ]

  step_http-IsConsistent :
      (s : AppState w) (e : Event w) → IsConsistent s → IsConsistent (step_http s e)
  unfolding step_http collect_poll_messages_shared
  step_http-IsConsistent s (on_socket e) h = step-IsConsistent s e h
  step_http-IsConsistent s (opens_stream now q) h =
      SameIndexes-IsConsistent (sse_handler-SameIndexes s now q) h
  step_http-IsConsistent s (polls now q) h =
      SameIndexes-IsConsistent (poll_handler-SameIndexes s now q) h
  step_http-IsConsistent s (collects rx) h =
      SameIndexes-IsConsistent {s = s} (same refl refl refl refl) h
  step_http-IsConsistent s (posts now q body) h = send_handler-IsConsistent s now q body h
  step_http-IsConsistent s (drops_stream ch) h =
      SameIndexes-IsConsistent {s = s} (same refl refl refl refl) h
  step_http-IsConsistent s (watches now id ch) h = watchdog-IsConsistent s now id ch h
  step_http-IsConsistent s (ends_stream now id) h = cleanup_client-IsConsistent s now id h

  -- After any sequence of streams and polls that are asked for, posts, batches collected, streams
  -- dropped, watched and ended, and of connection attempts, texts, disconnections and sweeps, from a
  -- state where every client is a member of each room listed for it and no stored room is empty, this
  -- is so again.
  pub run_http-IsConsistent :
      (s : AppState w) (events : List (Event w)) → IsConsistent s → IsConsistent (run_http s events)
  unfolding run_http
  run_http-IsConsistent s [] h = h
  run_http-IsConsistent s (e ∷ es) h =
      run_http-IsConsistent (step_http s e) es (step_http-IsConsistent s e h)
