-- ===== src/Http/Stale.antt =====
-- The watchdog of a stream that is gone (src/handlers/http.rs).
use dendri_server.Common.{
  ℕ, ◌<◌, ◌≡◌, refl, ap, ◌∙◌, inl, inr, false, true, Option, none, some, Text, arith, text_beq,
  text_eq, text_beq_iff, Bool-cases, Option-cases, subst, nat_beq_iff, is_some,
}
use dendri_server.Common.Maps.{lookup, lookup-remove, lookup-insert}
use dendri_server.Connect.Greeting.{open_channel}
use dendri_server.Connect.Serving.{forget_client, close_channel}
use dendri_server.Http.{
  HttpQuery, Access, refused, granted, Entry, rejected, fresh, known, authenticate, claim_id,
  enter_http, store_http_client, register_client_backend, welcome_http, replay,
}
use dendri_server.Http.Admission.{authenticate-IsUntouched}
use dendri_server.Http.Deliveries.{
  IsDelivery-trans, welcome-IsDelivery, replay-IsDelivery, notify-IsDelivery,
}
use dendri_server.Http.Stream
use dendri_server.Http.Stream.{open_stream, sse_handler, cleanup_client, watchdog}
use dendri_server.Sessions.Clients.{remove_client_from_all_rooms-SameClients}
use dendri_server.Slots.{try_reserve_connection_slot}
use dendri_server.State.{AppState, meta_new, TransportKind, notify, remove_and_release}
use dendri_server.Tenant.{Tenant}
use dendri_server.World.{World, Clock}
use dendri_server.Webhook.{peer_connected}

module _ {w : World} where
  removed : (s : AppState w) (id : Text) → lookup id (remove_and_release s id).clients ≡ none
  unfolding remove_and_release
  removed s id = ground (arith, lookup-remove id id s.clients, text_beq_iff id id)

  cleanup_client-clients :
      (s : AppState w) (now : Clock) (id : Text)
      → lookup id (cleanup_client s now id).clients ≡ none
  unfolding cleanup_client forget_client notify
  cleanup_client-clients s now id =
      ap (lookup id) (remove_client_from_all_rooms-SameClients _ now id).clients ∙ removed _ id

  watchdog-clients :
      (s : AppState w) (now : Clock) (id : Text) (ch : ℕ)
      → (s.channels ch).is_open ≡ false
      → (lookup id (watchdog s now id ch).0.clients ≡ none) × ((watchdog s now id ch).1 ≡ false)
  unfolding watchdog
  watchdog-clients s now id ch closed =
      rw (closed, watchdog) (cleanup_client-clients s now id, refl)

  -- A closed channel of before stays closed.
  record IsClosed (t : AppState w) (ch : ℕ) : Type 0 where
    closed : (t.channels ch).is_open ≡ false
    older : ch < t.next_channel

  claim_id-IsClosed :
      (t : AppState w) (ch : ℕ) (id token : Text) (tenant : Option Tenant)
      → IsClosed t ch
      → IsClosed (claim_id t id token tenant).0 ch
  unfolding claim_id
  claim_id-IsClosed t ch id token tenant v = elim (Option-cases (lookup id t.clients)) [
    | inr (meta, e) ↦
        rw (e, claim_id)
          (elim (Bool-cases (text_beq meta.token token)) [
            | inl own ↦ rw own v
            | inr other ↦ rw other v
          ])
    | inl e ↦
        let limit = t.config.concurrent_limit in
        rw (e, claim_id)
          (elim (Bool-cases (try_reserve_connection_slot t.active_connections limit).1) [
            | inl free ↦ rw free (record { closed = v.closed; older = v.older })
            | inr full ↦ rw full (record { closed = v.closed; older = v.older })
          ])
  ]

  enter_http-IsClosed :
      (s : AppState w) (now : Clock) (q : HttpQuery) (ch : ℕ)
      → IsClosed s ch
      → IsClosed (enter_http s now q).0 ch
  unfolding enter_http
  enter_http-IsClosed s now q ch v =
      let u = (authenticate-IsUntouched s now q).untouched in
      after (authenticate s now q) (record {
        closed = ap (λ (t : AppState w). (t.channels ch).is_open) u ∙ v.closed;
        older = rw (ap (λ (t : AppState w). t.next_channel) u) (v.older);
      })
    where
      after :
          (r : AppState w × Access)
          → IsClosed r.0 ch
          → IsClosed
              (elim r.1 as (λ _. AppState w × Entry) [
                | refused a ↦ (r.0, rejected a)
                | granted tenant ↦ claim_id r.0 q.id q.token tenant
              ]).0
              ch
      after (t, refused a) v = v
      after (t, granted tenant) v = claim_id-IsClosed t ch q.id q.token tenant v

  store-IsClosed :
      (s : AppState w) (now : Clock) (id token : Text) (transport : TransportKind)
      (tenant : Option Tenant) (ch : ℕ)
      → IsClosed s ch
      → (((open_channel
              (store_http_client
                (register_client_backend s now id token)
                now
                id
                token
                transport
                tenant)
              id).channels
            ch).is_open
          ≡ false)
  unfolding store_http_client register_client_backend open_channel
  store-IsClosed s now id token transport none ch v = ground (arith, v.closed, v.older)
  store-IsClosed s now id token transport (some t) ch v = ground (arith, v.closed, v.older)

  store-present :
      (s : AppState w) (now : Clock) (id token : Text) (transport : TransportKind)
      (tenant : Option Tenant)
      → is_some (
          lookup id
            (store_http_client
              (register_client_backend s now id token)
              now
              id
              token
              transport
              tenant).clients)
        ≡ true
  unfolding store_http_client register_client_backend
  store-present s now id token transport none =
      ground (
        arith,
        lookup-insert id id (meta_new now.wall token transport) s.clients,
        text_beq_iff id id,
      )
  store-present s now id token transport (some t) =
      ground (
        arith,
        lookup-insert id id (meta_new now.wall token transport) s.clients,
        text_beq_iff id id,
      )

  -- The stream leaves the old channel closed, and the client stored.
  record IsStale (t : AppState w) (id : Text) (ch : ℕ) : Type 0 where
    closed : (t.channels ch).is_open ≡ false
    present : is_some (lookup id t.clients) ≡ true

  open_stream-IsStale :
      (s : AppState w) (now : Clock) (q : HttpQuery) (tenant : Option Tenant) (ch : ℕ)
      → IsClosed s ch
      → IsStale (open_stream s now q tenant).0 q.id ch
  unfolding open_stream open_channel
  open_stream-IsStale s now q tenant ch v =
      let s1 =
        store_http_client (register_client_backend s now q.id q.token) now q.id q.token
          TransportKind.sse tenant in
      let s2 = welcome_http (open_channel s1 q.id) now q.id s.next_channel in
      let s3 = replay s2 now q.id s.next_channel q.last_seq in
      let d = IsDelivery-trans (welcome-IsDelivery (open_channel s1 q.id) now q.id s.next_channel) (
        IsDelivery-trans (replay-IsDelivery s2 now q.id s.next_channel q.last_seq)
          (notify-IsDelivery s3 (peer_connected now.wall q.id))) in
      record {
        closed = d.openness ch ∙ store-IsClosed s now q.id q.token TransportKind.sse tenant ch v;
        present =
            ap (λ (t : AppState w). is_some (lookup q.id t.clients)) d.moved
            ∙ store-present s now q.id q.token TransportKind.sse tenant;
      }

  -- What holds of a stream, if there is one.
  Streams : Text → ℕ → AppState w × Stream.Stream → Type 0
  Streams id ch (t, Stream.rejected a) = Unit
  Streams id ch (t, Stream.streaming new) = IsStale t id ch

  sse_handler-Streams :
      (s : AppState w) (now : Clock) (q : HttpQuery) (ch : ℕ)
      → IsClosed s ch
      → Streams q.id ch (sse_handler s now q)
  unfolding sse_handler Streams open_stream
  sse_handler-Streams s now q ch v = after (enter_http s now q) (enter_http-IsClosed s now q ch v)
    where
      after :
          (r : AppState w × Entry)
          → IsClosed r.0 ch
          → Streams q.id ch (elim r.1 as (λ _. AppState w × Stream.Stream) [
            | rejected a ↦ (r.0, Stream.rejected a)
            | fresh tenant ↦ open_stream r.0 now q tenant
            | known tenant ↦ open_stream r.0 now q tenant
          ])
      after (t, rejected a) v = tt
      after (t, fresh tenant) v = open_stream-IsStale t now q tenant ch v
      after (t, known tenant) v = open_stream-IsStale t now q tenant ch v

  -- A client whose stream is dropped, and that gets a new stream before the next round of the watchdog
  -- of the old one, has an entry again, and that round removes it: the server then serves a stream of a
  -- client that it does not know. The old channel is one that was opened before.
  pub watchdog-sse_handler :
      (s : AppState w) (now later : Clock) (q : HttpQuery) (ch new : ℕ)
      → ch < s.next_channel
      → (sse_handler (close_channel s ch) now q).1 ≡ Stream.streaming new
      → (is_some (lookup q.id (sse_handler (close_channel s ch) now q).0.clients) ≡ true)
        × (lookup q.id (watchdog (sse_handler (close_channel s ch) now q).0 later q.id ch).0.clients
            ≡ none)
  unfolding Streams
  watchdog-sse_handler s now later q ch new older e =
      let s' = close_channel s ch in
      let v =
        subst (λ o. Streams q.id ch ((sse_handler s' now q).0, o)) e
          (sse_handler-Streams s' now q ch
            (record { closed = ground (arith, nat_beq_iff ch ch); older = older })) in
      (v.present, (watchdog-clients (sse_handler s' now q).0 later q.id ch v.closed).0)
