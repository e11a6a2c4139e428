-- ===== src/Http/Indexes.antt =====
-- What requests over HTTP do to the two room indexes (src/handlers/http.rs).
use dendri_server.Common.{
  ℕ, refl, inl, inr, Option, none, some, Text, text_beq, text_eq, Option-cases, Bool-cases,
}
use dendri_server.Common.Maps.{lookup, adjust}
use dendri_server.Connect.{enforce_jwt}
use dendri_server.Connect.Greeting.{open_channel, deliver_queued_messages}
use dendri_server.Connect.Indexes.{
  SameIndexes, same, SameIndexes-trans, send-SameIndexes, send_each-SameIndexes,
  deliver-SameIndexes, enforce_jwt-SameIndexes,
}
use dendri_server.Connect.Run.{resolve_tenant-SameIndexes}
use dendri_server.Connect.Upgrade.{resolve_tenant}
use dendri_server.Http.{
  HttpQuery, Access, refused, granted, Entry, rejected, fresh, known, key_matches, open_frame,
  authenticate, claim_id, enter_http, register_client_backend, store_http_client, deliver_backlog,
  missed, replay, welcome_http,
}
use dendri_server.Http.Poll
use dendri_server.Http.Poll.{ends_of, rebuild_ends, start_polling, catch_up, poll_handler}
use dendri_server.Http.Stream
use dendri_server.Http.Stream.{open_stream, sse_handler}
use dendri_server.Slots.{try_reserve_connection_slot}
use dendri_server.State.{AppState, TransportKind, send, notify, touch}
use dendri_server.Tenant.{Tenant}
use dendri_server.World.{World, Clock}

module _ {w : World} where
  authenticate-SameIndexes :
      (s : AppState w) (now : Clock) (q : HttpQuery) → SameIndexes s (authenticate s now q).0
  unfolding authenticate
  authenticate-SameIndexes s now q =
      let s1 = (resolve_tenant s now q.api_key).0 in
      let v1 = resolve_tenant-SameIndexes s now q.api_key in
      elim (Bool-cases (key_matches w.ct_eq q.key s.config.key)) [
        | inr bad ↦ rw (bad, authenticate) (same refl refl refl refl)
        | inl key ↦
            rw (key, authenticate)
              (elim (Option-cases (resolve_tenant s now q.api_key).1) [
                | inl e ↦ rw e v1
                | inr (tenant, e) ↦
                    let v2 =
                      SameIndexes-trans v1 (enforce_jwt-SameIndexes s1 now tenant q.jwt q.id) in
                    rw e (elim (Bool-cases (enforce_jwt s1 now tenant q.jwt q.id).1) [
                      | inr bad ↦ rw bad v2
                      | inl fine ↦ rw fine v2
                    ])
              ])
      ]

  claim_id-SameIndexes :
      (s : AppState w) (id token : Text) (tenant : Option Tenant)
      → SameIndexes s (claim_id s id token tenant).0
  unfolding claim_id
  claim_id-SameIndexes s id token tenant = elim (Option-cases (lookup id s.clients)) [
    | inr (meta, e) ↦
        rw (e, claim_id)
          (elim (Bool-cases (text_beq meta.token token)) [
            | inl own ↦ rw own (same refl refl refl refl)
            | inr other ↦ rw other (same refl refl refl refl)
          ])
    | inl e ↦
        let limit = s.config.concurrent_limit in
        rw (e, claim_id)
          (elim (Bool-cases (try_reserve_connection_slot s.active_connections limit).1) [
            | inl free ↦ rw free (same refl refl refl refl)
            | inr full ↦ rw full (same refl refl refl refl)
          ])
  ]

  pub enter_http-SameIndexes :
      (s : AppState w) (now : Clock) (q : HttpQuery) → SameIndexes s (enter_http s now q).0
  unfolding enter_http
  enter_http-SameIndexes s now q = after (authenticate s now q) (authenticate-SameIndexes s now q)
    where
      after :
          (r : AppState w × Access)
          → SameIndexes s r.0
          → SameIndexes s
              (elim r.1 as (λ _. AppState w × Entry) [
                | refused a ↦ (r.0, rejected a)
                | granted tenant ↦ claim_id r.0 q.id q.token tenant
              ]).0
      after (t, refused a) v = v
      after (t, granted tenant) v = SameIndexes-trans v (claim_id-SameIndexes t q.id q.token tenant)

  replay-SameIndexes :
      (s : AppState w) (now : Clock) (id : Text) (ch : ℕ) (last_seq : Option ℕ)
      → SameIndexes s (replay s now id ch last_seq)
  unfolding replay
  replay-SameIndexes s now id ch last_seq = send_each-SameIndexes s ch (missed s now id last_seq)

  -- A new client, and what it is sent.
  store-SameIndexes :
      (s : AppState w) (now : Clock) (id token : Text) (transport : TransportKind)
      (tenant : Option Tenant)
      → SameIndexes s
          (store_http_client (register_client_backend s now id token) now id token transport tenant)
  unfolding store_http_client register_client_backend
  store-SameIndexes s now id token transport none = same refl refl refl refl
  store-SameIndexes s now id token transport (some t) = same refl refl refl refl

  welcome-SameIndexes :
      (s : AppState w) (now : Clock) (id : Text) (ch : ℕ) → SameIndexes s (welcome_http s now id ch)
  unfolding welcome_http deliver_backlog deliver_queued_messages
  welcome-SameIndexes s now id ch =
      SameIndexes-trans (send-SameIndexes s ch open_frame)
        (deliver-SameIndexes (send s ch open_frame).0 now id ch)

  open_stream-SameIndexes :
      (s : AppState w) (now : Clock) (q : HttpQuery) (tenant : Option Tenant)
      → SameIndexes s (open_stream s now q tenant).0
  unfolding open_stream open_channel notify
  open_stream-SameIndexes s now q tenant =
      let ch = s.next_channel in
      let s1 =
        store_http_client (register_client_backend s now q.id q.token) now q.id q.token
          TransportKind.sse tenant in
      let s2 = welcome_http (open_channel s1 q.id) now q.id ch in
      SameIndexes-trans (store-SameIndexes s now q.id q.token TransportKind.sse tenant) (
        SameIndexes-trans {t = open_channel s1 q.id} (same refl refl refl refl) (
          SameIndexes-trans (welcome-SameIndexes (open_channel s1 q.id) now q.id ch) (
            SameIndexes-trans (replay-SameIndexes s2 now q.id ch q.last_seq)
              (same refl refl refl refl))))

  pub sse_handler-SameIndexes :
      (s : AppState w) (now : Clock) (q : HttpQuery) → SameIndexes s (sse_handler s now q).0
  unfolding sse_handler
  sse_handler-SameIndexes s now q = after (enter_http s now q) (enter_http-SameIndexes s now q)
    where
      after :
          (r : AppState w × Entry)
          → SameIndexes s r.0
          → SameIndexes s
              (elim r.1 as (λ _. AppState w × Stream.Stream) [
                | rejected a ↦ (r.0, Stream.rejected a)
                | fresh tenant ↦ open_stream r.0 now q tenant
                | known tenant ↦ open_stream r.0 now q tenant
              ]).0
      after (t, rejected a) v = v
      after (t, fresh tenant) v = SameIndexes-trans v (open_stream-SameIndexes t now q tenant)
      after (t, known tenant) v = SameIndexes-trans v (open_stream-SameIndexes t now q tenant)

  ends_of-SameIndexes : (s : AppState w) (id : Text) → SameIndexes s (ends_of s id).0
  unfolding ends_of rebuild_ends open_channel
  ends_of-SameIndexes s id = elim (Option-cases (lookup id s.polling_receivers)) [
    | inl e ↦ rw (e, ends_of) (same refl refl refl refl)
    | inr (rx, e) ↦
        rw (e, ends_of)
          (elim (Option-cases (lookup id s.ws_senders)) [
            | inl f ↦ rw f (same refl refl refl refl)
            | inr (tx, f) ↦ rw f (same refl refl refl refl)
          ])
  ]

  start_polling-SameIndexes :
      (s : AppState w) (now : Clock) (q : HttpQuery) (tenant : Option Tenant) (tx : ℕ)
      → SameIndexes s (start_polling s now q tenant tx)
  unfolding start_polling notify
  start_polling-SameIndexes s now q tenant tx =
      let s1 =
        store_http_client (register_client_backend s now q.id q.token) now q.id q.token
          TransportKind.polling tenant in
      SameIndexes-trans (store-SameIndexes s now q.id q.token TransportKind.polling tenant)
        (SameIndexes-trans (welcome-SameIndexes s1 now q.id tx) (same refl refl refl refl))

  pub poll_handler-SameIndexes :
      (s : AppState w) (now : Clock) (q : HttpQuery) → SameIndexes s (poll_handler s now q).0
  unfolding poll_handler catch_up
  poll_handler-SameIndexes s now q = after (enter_http s now q) (enter_http-SameIndexes s now q)
    where
      after :
          (r : AppState w × Entry)
          → SameIndexes s r.0
          → SameIndexes s
              (elim r.1 as (λ _. AppState w × Poll.Poll) [
                | rejected a ↦ (r.0, Poll.rejected a)
                | fresh tenant ↦
                    let (u, ends) = ends_of r.0 q.id in
                    catch_up (start_polling u now q tenant ends.tx) now q ends
                | known tenant ↦
                    let (u, ends) = ends_of r.0 q.id in
                    catch_up
                      (record u { clients = adjust q.id (touch now.wall) u.clients })
                      now
                      q
                      ends
              ]).0
      after (t, rejected a) v = v
      after (t, fresh tenant) v =
          let (u, ends) = ends_of t q.id in
          SameIndexes-trans v (
            SameIndexes-trans (ends_of-SameIndexes t q.id) (
              SameIndexes-trans (start_polling-SameIndexes u now q tenant ends.tx)
                (replay-SameIndexes _ now q.id ends.tx q.last_seq)))
      after (t, known tenant) v =
          let (u, ends) = ends_of t q.id in
          SameIndexes-trans v (
            SameIndexes-trans (ends_of-SameIndexes t q.id) (
              SameIndexes-trans {t = record u { clients = adjust q.id (touch now.wall) u.clients }}
                (same refl refl refl refl) (replay-SameIndexes _ now q.id ends.tx q.last_seq)))
