-- ===== src/Connect/Departure.antt =====
-- The count of connections when connections close (src/handlers/ws.rs) and clients are evicted
-- (src/services/check_broken.rs).
use dendri_server.Common.{ℕ, refl, inl, inr, List, [], ◌∷◌, Text, text_eq, Bool-cases}
use dendri_server.Common.Maps.{remove}
use dendri_server.Connect.Serving.{is_current, forget_client, disconnect}
use dendri_server.Dispatch.Count.{IsCounted, same_count, remove_and_release-IsCounted}
use dendri_server.RateLimiter
use dendri_server.Services.{evict_client, evict_clients}
use dendri_server.Sessions.{remove_client_from_all_rooms}
use dendri_server.Sessions.Clients.{remove_client_from_all_rooms-SameClients}
use dendri_server.State.{AppState, notify, remove_and_release}
use dendri_server.World.{World, Clock}

module _ {w : World} where
  pub forget_client-IsCounted :
      (s : AppState w) (now : Clock) (client_id : Text)
      → IsCounted s
      → IsCounted (forget_client s now client_id)
  unfolding forget_client notify
  forget_client-IsCounted s now client_id h =
      let s0 : AppState w = record s { ws_senders = remove client_id s.ws_senders } in
      let s1 = remove_and_release s0 client_id in
      let s2 : AppState w = record s1 {
        client_claims = remove client_id s1.client_claims;
        client_tenants = remove client_id s1.client_tenants;
        rate_limiter = RateLimiter.remove_client w.governor s1.rate_limiter client_id;
      } in
      let s3 = remove_client_from_all_rooms s2 now client_id in
      let v = remove_client_from_all_rooms-SameClients s2 now client_id in
      same_count {s = s3} refl refl (
        same_count {s = s2} v.clients v.count (
          same_count {s = s1} refl refl
            (remove_and_release-IsCounted s0 client_id (same_count {s = s} refl refl h))))

  evict_client-IsCounted :
      (s : AppState w) (id : Text) → IsCounted s → IsCounted (evict_client s id)
  unfolding evict_client
  evict_client-IsCounted s id h =
      let s0 : AppState w = record s { ws_senders = remove id s.ws_senders } in
      same_count {s = remove_and_release s0 id} refl refl
        (remove_and_release-IsCounted s0 id (same_count {s = s} refl refl h))

  evict_clients-IsCounted :
      (s : AppState w) (ids : List Text) → IsCounted s → IsCounted (evict_clients s ids)
  unfolding evict_clients
  evict_clients-IsCounted s [] h = h
  evict_clients-IsCounted s (id ∷ ids) h =
      evict_clients-IsCounted (evict_client s id) ids (evict_client-IsCounted s id h)

  -- If the counter of connections is the number of clients, which are distinct and fewer than 2^64,
  -- then so it is after any clients are evicted and then any connection is closed: a client that was
  -- evicted is not released again.
  pub disconnect-IsCounted :
      (s : AppState w) (now : Clock) (ids : List Text) (client_id : Text) (ch : ℕ)
      → IsCounted s
      → IsCounted (disconnect (evict_clients s ids) now client_id ch)
  unfolding disconnect
  disconnect-IsCounted s now ids client_id ch h =
      let t = evict_clients s ids in
      let h' = evict_clients-IsCounted s ids h in
      elim (Bool-cases (is_current t client_id ch)) [
        | inl e ↦
            rw (e, disconnect)
              (same_count {s = forget_client t now client_id} refl refl
                (forget_client-IsCounted t now client_id h'))
        | inr e ↦ rw (e, disconnect) (same_count {s = t} refl refl h')
      ]
