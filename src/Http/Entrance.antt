-- ===== src/Http/Entrance.antt =====
-- Which requests get a stream or a poll, and why others are refused (src/handlers/http.rs).
use dendri_server.Common.{ℕ, ◌<◌, ◌≡◌, text_eq, subst}
use dendri_server.Common.Maps.{adjust}
use dendri_server.Http.{HttpQuery, Answer, Entry, rejected, fresh, known, enter_http}
use dendri_server.Http.Admission.{IsEntitled, IsUntouched, Reason, Checked, enter_http-Checked}
use dendri_server.Http.Stream.{Stream, open_stream, sse_handler}
use dendri_server.Http.Poll.{Poll, ends_of, start_polling, catch_up, poll_handler}
use dendri_server.Slots.{usize_mod}
use dendri_server.State.{AppState, touch}
use dendri_server.World.{World, Clock}

module _ {w : World} where
  -- The request gets a stream, or a poll that waits.
  pub data IsConnected (s : AppState w) (now : Clock) (q : HttpQuery) : Type 0 where
    by_stream : (ch : ℕ) → (sse_handler s now q).1 ≡ Stream.streaming ch → IsConnected s now q
    by_poll : (rx : ℕ) → (poll_handler s now q).1 ≡ Poll.waits rx → IsConnected s now q

  -- The request is refused with an answer, and the server is left in a state.
  pub data IsRefused (s : AppState w) (now : Clock) (q : HttpQuery) (t : AppState w) (a : Answer)
      : Type 0 where
    by_stream : sse_handler s now q ≡ (t, Stream.rejected a) → IsRefused s now q t a
    by_poll : poll_handler s now q ≡ (t, Poll.rejected a) → IsRefused s now q t a

  Streams : AppState w → Clock → HttpQuery → AppState w × Stream → Type 0
  Streams s now q (t, Stream.rejected a) = IsUntouched s t × Reason s now q a.status
  Streams s now q (t, Stream.streaming ch) = IsEntitled s now q

  Polls : AppState w → Clock → HttpQuery → AppState w × Poll → Type 0
  Polls s now q (t, Poll.rejected a) = IsUntouched s t × Reason s now q a.status
  Polls s now q (t, Poll.waits rx) = IsEntitled s now q

  sse_handler-Streams :
      (s : AppState w) (now : Clock) (q : HttpQuery)
      → s.active_connections < usize_mod
      → Streams s now q (sse_handler s now q)
  unfolding sse_handler Streams open_stream Checked
  sse_handler-Streams s now q small = after (enter_http s now q) (enter_http-Checked s now q small)
    where
      after :
          (r : AppState w × Entry)
          → Checked s now q r
          → Streams s now q (elim r.1 [
            | rejected a ↦ (r.0, Stream.rejected a)
            | fresh tenant ↦ open_stream r.0 now q tenant
            | known tenant ↦ open_stream r.0 now q tenant
          ])
      after (t, rejected a) h = h
      after (t, fresh tenant) h = h
      after (t, known tenant) h = h

  poll_handler-Polls :
      (s : AppState w) (now : Clock) (q : HttpQuery)
      → s.active_connections < usize_mod
      → Polls s now q (poll_handler s now q)
  unfolding poll_handler Polls catch_up Checked
  poll_handler-Polls s now q small = after (enter_http s now q) (enter_http-Checked s now q small)
    where
      after :
          (r : AppState w × Entry)
          → Checked s now q r
          → Polls s now q (elim r.1 [
            | rejected a ↦ (r.0, Poll.rejected a)
            | fresh tenant ↦
                let (u, ends) = ends_of r.0 q.id in
                catch_up (start_polling u now q tenant ends.tx) now q ends
            | known tenant ↦
                let (u, ends) = ends_of r.0 q.id in
                catch_up (record u { clients = adjust q.id (touch now.wall) u.clients }) now q ends
          ])
      after (t, rejected a) h = h
      after (t, fresh tenant) h = h
      after (t, known tenant) h = h

  -- A request that gets a stream, or a poll that waits, gave the key of the server. If it gave an API
  -- key, that resolved to an active tenant; if it gave none, none is required. If the tenant or the
  -- server has a JWT secret, its JWT was decoded under it, with a `tid` claim, if any, of the tenant. If its
  -- id is that of a client, it gave that client's token, and if not, there was room for another. The
  -- count of connections is below 2^64.
  pub IsConnected-IsEntitled :
      (s : AppState w) (now : Clock) (q : HttpQuery)
      → s.active_connections < usize_mod
      → IsConnected s now q
      → IsEntitled s now q
  unfolding Streams Polls
  IsConnected-IsEntitled s now q small (by_stream ch e) =
      subst (λ o. Streams s now q ((sse_handler s now q).0, o)) e
        (sse_handler-Streams s now q small)
  IsConnected-IsEntitled s now q small (by_poll rx e) =
      subst (λ o. Polls s now q ((poll_handler s now q).0, o)) e (poll_handler-Polls s now q small)

  -- A request for a stream or a poll that is refused changes nothing but the Redis connection, the
  -- cache of tenants and the claims. With 401 the key was wrong or no tenant was resolved; with 403 the
  -- JWT did not pass; with 409 the id was that of a client with another token; with 503 the id was new
  -- and the limit of connections was reached; no other code is answered. The count of connections is
  -- below 2^64.
  pub IsRefused-Reason :
      (s : AppState w) (now : Clock) (q : HttpQuery) (t : AppState w) (a : Answer)
      → s.active_connections < usize_mod
      → IsRefused s now q t a
      → IsUntouched s t × Reason s now q a.status
  unfolding Streams Polls
  IsRefused-Reason s now q t a small (by_stream e) =
      subst (Streams s now q) e (sse_handler-Streams s now q small)
  IsRefused-Reason s now q t a small (by_poll e) =
      subst (Polls s now q) e (poll_handler-Polls s now q small)
