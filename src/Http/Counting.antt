-- ===== src/Http/Counting.antt =====
-- The count of connections over HTTP (src/handlers/http.rs, src/state.rs).
use dendri_server.Common.{
  ℕ, ◌+◌, ◌<◌, leb, ◌⊎◌, ◌≡◌, refl, ap, sym, ◌∙◌, subst, inl, inr, true, Option, none, some, Text,
  arith, length, text_beq, text_eq, is_some, Option-cases, Bool-cases,
}
use dendri_server.Common.Maps.{
  Map, lookup, insert, adjust, IsDistinct, insert-IsDistinct, length-insert,
}
use dendri_server.Connect.Greeting.{open_channel}
use dendri_server.Dispatch.Count.{IsCounted, same_count, adjust-IsCounted}
use dendri_server.Http.{
  HttpQuery, Access, refused, granted, Entry, rejected, fresh, known, authenticate, claim_id,
  enter_http, register_client_backend, store_http_client, replay, welcome_http,
}
use dendri_server.Http.Admission.{authenticate-IsUntouched}
use dendri_server.Http.Deliveries.{
  IsDelivery, IsDelivery-trans, welcome-IsDelivery, replay-IsDelivery, notify-IsDelivery,
}
use dendri_server.Http.Poll
use dendri_server.Http.Poll.{ends_of, rebuild_ends, start_polling, catch_up, poll_handler}
use dendri_server.Http.Stream
use dendri_server.Http.Stream.{open_stream, sse_handler}
use dendri_server.Webhook.{peer_connected}
use dendri_server.Slots.{usize_mod, try_reserve_connection_slot}
use dendri_server.State.{AppState, ClientMeta, TransportKind, meta_new, touch}
use dendri_server.Tenant.{Tenant}
use dendri_server.World.{World, Clock}

module _ {w : World} where
  IsDelivery-IsCounted : {s t : AppState w} → IsDelivery s t → IsCounted s → IsCounted t
  IsDelivery-IsCounted d =
      same_count (ap (λ (t : AppState w). t.clients) d.moved)
        (ap (λ (t : AppState w). t.active_connections) d.moved)

  -- A slot is reserved for a client that has no entry yet.
  record IsReserved (s : AppState w) (id : Text) : Type 0 where
    distinct : IsDistinct s.clients
    count : s.active_connections ≡ length s.clients + 1
    small : s.active_connections < usize_mod
    absent : lookup id s.clients ≡ none

  -- What an entry needs of the state, for the client to be stored.
  Entered : Text → AppState w × Entry → Type 0
  Entered id (t, rejected a) = IsCounted t
  Entered id (t, fresh tenant) = IsReserved t id
  Entered id (t, known tenant) = IsCounted t × (is_some (lookup id t.clients) ≡ true)

  claim_id-Entered :
      (s : AppState w) (id token : Text) (tenant : Option Tenant)
      → s.config.concurrent_limit < usize_mod
      → IsCounted s
      → Entered id (claim_id s id token tenant)
  unfolding claim_id Entered try_reserve_connection_slot
  claim_id-Entered s id token tenant limited h = elim (Option-cases (lookup id s.clients)) [
    | inr (meta, e) ↦
        rw (e, claim_id)
          (elim (Bool-cases (text_beq meta.token token)) [
            | inl own ↦ rw own (h, ap is_some e)
            | inr other ↦ rw other h
          ])
    | inl e ↦
        rw (e, claim_id)
          (elim (Bool-cases (leb s.config.concurrent_limit s.active_connections)) [
            | inl full ↦ rw full (record {
              distinct = h.distinct;
              count = ground (arith, h.count, h.small);
              small = omega arith;
            })
            | inr free ↦ rw free (record {
              distinct = h.distinct;
              count = ground (arith, h.count, limited, free);
              small = omega arith;
              absent = e;
            })
          ])
  ]

  insert-IsCounted :
      (s : AppState w) (id : Text) (meta : ClientMeta)
      → IsReserved s id ⊎ (IsCounted s × (is_some (lookup id s.clients) ≡ true))
      → IsCounted (record s { clients = insert id meta s.clients })
  insert-IsCounted s id meta (inl r) = record {
    distinct = insert-IsDistinct id meta s.clients r.distinct;
    count = ground (arith, r.count, r.absent, length-insert id meta s.clients);
    small = r.small;
  }
  insert-IsCounted s id meta (inr (h, found)) = record {
    distinct = insert-IsDistinct id meta s.clients h.distinct;
    count = ground (arith, h.count, found, length-insert id meta s.clients);
    small = h.small;
  }

  store-IsCounted :
      (s : AppState w) (now : Clock) (id token : Text) (transport : TransportKind)
      (tenant : Option Tenant)
      → IsReserved s id ⊎ (IsCounted s × (is_some (lookup id s.clients) ≡ true))
      → IsCounted
          (store_http_client (register_client_backend s now id token) now id token transport tenant)
  unfolding store_http_client register_client_backend
  store-IsCounted s now id token transport none h =
      same_count refl refl (insert-IsCounted s id (meta_new now.wall token transport) h)
  store-IsCounted s now id token transport (some t) h =
      same_count refl refl (insert-IsCounted s id (meta_new now.wall token transport) h)

  enter_http-Entered :
      (s : AppState w) (now : Clock) (q : HttpQuery)
      → s.config.concurrent_limit < usize_mod
      → IsCounted s
      → Entered q.id (enter_http s now q)
  unfolding enter_http Entered
  enter_http-Entered s now q limited h =
      let u = (authenticate-IsUntouched s now q).untouched in
      after (authenticate s now q)
        (same_count {s = s} (ap (λ (t : AppState w). t.clients) u)
          (ap (λ (t : AppState w). t.active_connections) u) h)
        (rw (ap (λ (t : AppState w). t.config) u) limited)
    where
      after :
          (r : AppState w × Access)
          → IsCounted r.0
          → r.0.config.concurrent_limit < usize_mod
          → Entered q.id (elim r.1 as (λ _. AppState w × Entry) [
            | refused a ↦ (r.0, rejected a)
            | granted tenant ↦ claim_id r.0 q.id q.token tenant
          ])
      after (t, refused a) h limited = h
      after (t, granted tenant) h limited = claim_id-Entered t q.id q.token tenant limited h

  open_stream-IsCounted :
      (s : AppState w) (now : Clock) (q : HttpQuery) (tenant : Option Tenant)
      → IsReserved s q.id ⊎ (IsCounted s × (is_some (lookup q.id s.clients) ≡ true))
      → IsCounted (open_stream s now q tenant).0
  unfolding open_stream open_channel
  open_stream-IsCounted s now q tenant h =
      let ch = s.next_channel in
      let s1 =
        store_http_client (register_client_backend s now q.id q.token) now q.id q.token
          TransportKind.sse tenant in
      let s2 = welcome_http (open_channel s1 q.id) now q.id ch in
      let d = IsDelivery-trans (welcome-IsDelivery (open_channel s1 q.id) now q.id ch) (
        IsDelivery-trans (replay-IsDelivery s2 now q.id ch q.last_seq)
          (notify-IsDelivery (replay s2 now q.id ch q.last_seq) (peer_connected now.wall q.id))) in
      IsDelivery-IsCounted d (
        same_count {s = s1} refl refl
          (store-IsCounted s now q.id q.token TransportKind.sse tenant h))

  pub sse_handler-IsCounted :
      (s : AppState w) (now : Clock) (q : HttpQuery)
      → s.config.concurrent_limit < usize_mod
      → IsCounted s
      → IsCounted (sse_handler s now q).0
  unfolding sse_handler Entered
  sse_handler-IsCounted s now q limited h =
      after (enter_http s now q) (enter_http-Entered s now q limited h)
    where
      after :
          (r : AppState w × Entry)
          → Entered q.id r
          → IsCounted
              (elim r.1 as (λ _. AppState w × Stream.Stream) [
                | rejected a ↦ (r.0, Stream.rejected a)
                | fresh tenant ↦ open_stream r.0 now q tenant
                | known tenant ↦ open_stream r.0 now q tenant
              ]).0
      after (t, rejected a) e = e
      after (t, fresh tenant) e = open_stream-IsCounted t now q tenant (inl e)
      after (t, known tenant) e = open_stream-IsCounted t now q tenant (inr e)

  -- The ends of the channel of a poll concern neither the clients nor the count.
  ends_of-keeps :
      (s : AppState w) (id : Text)
      → ((ends_of s id).0.clients ≡ s.clients)
        × ((ends_of s id).0.active_connections ≡ s.active_connections)
  unfolding ends_of rebuild_ends open_channel
  ends_of-keeps s id = elim (Option-cases (lookup id s.polling_receivers)) [
    | inl e ↦ rw (e, ends_of) (refl, refl)
    | inr (rx, e) ↦
        rw (e, ends_of)
          (elim (Option-cases (lookup id s.ws_senders)) [
            | inl f ↦ rw f (refl, refl)
            | inr (tx, f) ↦ rw f (refl, refl)
          ])
  ]

  same-IsReserved :
      {s t : AppState w} {id : Text}
      → (t.clients ≡ s.clients) × (t.active_connections ≡ s.active_connections)
      → IsReserved s id
      → IsReserved t id
  same-IsReserved {id = id} (e, f) r = record {
    distinct = subst IsDistinct (sym e) r.distinct;
    count = f ∙ r.count ∙ ap (λ (m : Map Text ClientMeta). length m + 1) (sym e);
    small = rw f r.small;
    absent = ap (lookup id) e ∙ r.absent;
  }

  start_polling-IsCounted :
      (s : AppState w) (now : Clock) (q : HttpQuery) (tenant : Option Tenant) (tx : ℕ)
      → IsReserved s q.id
      → IsCounted (start_polling s now q tenant tx)
  unfolding start_polling
  start_polling-IsCounted s now q tenant tx r =
      let s1 =
        store_http_client (register_client_backend s now q.id q.token) now q.id q.token
          TransportKind.polling tenant in
      IsDelivery-IsCounted
        (IsDelivery-trans (welcome-IsDelivery s1 now q.id tx)
          (notify-IsDelivery (welcome_http s1 now q.id tx) (peer_connected now.wall q.id)))
        (store-IsCounted s now q.id q.token TransportKind.polling tenant (inl r))

  pub poll_handler-IsCounted :
      (s : AppState w) (now : Clock) (q : HttpQuery)
      → s.config.concurrent_limit < usize_mod
      → IsCounted s
      → IsCounted (poll_handler s now q).0
  unfolding poll_handler catch_up Entered
  poll_handler-IsCounted s now q limited h =
      after (enter_http s now q) (enter_http-Entered s now q limited h)
    where
      after :
          (r : AppState w × Entry)
          → Entered q.id r
          → IsCounted
              (elim r.1 as (λ _. AppState w × Poll.Poll) [
                | rejected a ↦ (r.0, Poll.rejected a)
                | fresh tenant ↦
                    let (u, ends) = ends_of r.0 q.id in
                    catch_up (start_polling u now q tenant ends.tx) now q ends
                | known tenant ↦
                    let (u, ends) = ends_of r.0 q.id in
                    catch_up
                      (record u { clients = adjust q.id (touch now.wall) u.clients })
                      now
                      q
                      ends
              ]).0
      after (t, rejected a) e = e
      after (t, fresh tenant) e =
          let (u, ends) = ends_of t q.id in
          IsDelivery-IsCounted (replay-IsDelivery _ now q.id ends.tx q.last_seq) (
            start_polling-IsCounted u now q tenant ends.tx
              (same-IsReserved (ends_of-keeps t q.id) e))
      after (t, known tenant) e =
          let (u, ends) = ends_of t q.id in
          let kept = ends_of-keeps t q.id in
          IsDelivery-IsCounted (replay-IsDelivery _ now q.id ends.tx q.last_seq)
            (adjust-IsCounted u q.id (touch now.wall) (same_count {s = t} kept.0 kept.1 e.0))
