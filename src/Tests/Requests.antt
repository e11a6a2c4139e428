-- ===== src/Tests/Requests.antt =====
-- The theorems on requests over HTTP at work.
use dendri_server.Common.{
  ◌≡◌, refl, true, none, some, List, [], ◌∷◌, ◌++◌, arith, codes, is_some, text_beq, text_eq,
}
use dendri_server.Common.Maps.{lookup}
use dendri_server.Connect.{enforce_jwt}
use dendri_server.Connect.Run.{receives}
use dendri_server.Connect.Serving.{close_channel, receive}
use dendri_server.Connect.Upgrade.{resolve_tenant}
use dendri_server.Dispatch.Invariant.{IsConsistent}
use dendri_server.Enums.{MessageType}
use dendri_server.Http.{HttpQuery, StatusCode, answer, authenticate, claim_id, enter_http}
use dendri_server.Http.Entrance.{by_stream, IsConnected-IsEntitled, IsRefused, IsRefused-Reason}
use dendri_server.Http.Admission.{IsEntitled, IsUntouched, Reason}
use dendri_server.Http.Poll
use dendri_server.Http.Poll.{max_batch, poll_handler, collect_poll_messages_shared}
use dendri_server.Http.Poll.Batches
use dendri_server.Http.Poll.Batches.{sends, rounds, sent, run, run-sent}
use dendri_server.Http.Run.{
  Event, on_socket, opens_stream, polls, collects, posts, drops_stream, watches, run_http,
  run_http-IsConsistent,
}
use dendri_server.Http.Sending.{told, touched, receive-send_handler}
use dendri_server.Http.Stale.{watchdog-sse_handler}
use dendri_server.Http.Stream
use dendri_server.Http.Stream.{sse_handler, open_stream, watchdog, send_handler}
use dendri_server.Jwt.{effective_jwt_secret}
use dendri_server.Slots.{try_reserve_connection_slot}
use dendri_server.State.{AppState}
use dendri_server.Tests.{test_world, noon, later, alice, lobby, client, server, room_message}
use dendri_server.Tests.Rooms.{server-IsConsistent}
use dendri_server.Validation.{constant_time_str_eq}

abbrev dave : HttpQuery
dave = record {
  id = codes "dave";
  token = codes "t";
  key = some (codes "dendri");
  last_seq = some 4;
  api_key = none;
  jwt = some (codes "s");
}

-- The same without the key.
abbrev mallory : HttpQuery
mallory = record dave { key = none }

dave_connects : (sse_handler server noon dave).1 ≡ Stream.streaming 2
unfolding sse_handler enter_http authenticate claim_id open_stream constant_time_str_eq
    resolve_tenant enforce_jwt effective_jwt_secret lookup text_beq try_reserve_connection_slot
dave_connects = refl

IsConnected-IsEntitled_example : IsEntitled server noon dave
IsConnected-IsEntitled_example =
    IsConnected-IsEntitled server noon dave (omega arith) (by_stream 2 dave_connects)

mallory_is_refused :
    poll_handler server noon mallory
    ≡ (server, Poll.rejected (answer StatusCode.unauthorized (codes "Invalid key")))
unfolding poll_handler enter_http authenticate
mallory_is_refused = refl

IsRefused-Reason_example :
    IsUntouched server server × Reason server noon mallory StatusCode.unauthorized
IsRefused-Reason_example =
    IsRefused-Reason server noon mallory server
      (answer StatusCode.unauthorized (codes "Invalid key")) (omega arith)
      (IsRefused.by_poll mallory_is_refused)

abbrev pub day : List (Event test_world)
day =
    opens_stream noon dave
    ∷ posts noon dave (lobby ∷ [])
    ∷ drops_stream 2
    ∷ polls noon dave
    ∷ watches later (codes "dave") 2
    ∷ polls later dave
    ∷ collects 3
    ∷ []

run_http-IsConsistent_example :
    IsConsistent (run_http server (on_socket (receives noon alice 0 lobby) ∷ day))
run_http-IsConsistent_example =
    run_http-IsConsistent server (on_socket (receives noon alice 0 lobby) ∷ day) server-IsConsistent

reconnects : (sse_handler (close_channel server 1) noon dave).1 ≡ Stream.streaming 2
unfolding sse_handler enter_http authenticate claim_id open_stream constant_time_str_eq
    resolve_tenant enforce_jwt effective_jwt_secret lookup text_beq try_reserve_connection_slot
reconnects = refl

watchdog-sse_handler_example :
    (is_some (lookup (codes "dave") (sse_handler (close_channel server 1) noon dave).0.clients)
      ≡ true)
    × (lookup
          (codes "dave")
          (watchdog
            (sse_handler (close_channel server 1) noon dave).0
            later
            (codes "dave")
            1).0.clients
        ≡ none)
watchdog-sse_handler_example =
    watchdog-sse_handler server noon later dave 1 2 (omega arith) reconnects

abbrev busy : AppState test_world
busy = record server { channels = λ c. record { queue = lobby ∷ alice ∷ []; is_open = true } }

run-sent_example :
    (run busy 2 (Batches.polls ∷ sends lobby ∷ [])).1
      ++ ((run busy 2 (Batches.polls ∷ sends lobby ∷ [])).0.channels 2).queue
    ≡ (lobby ∷ alice ∷ []) ++ lobby ∷ []
run-sent_example = run-sent busy 2 (Batches.polls ∷ sends lobby ∷ []) refl

abbrev alice_query : HttpQuery
alice_query = record dave { id = alice; token = alice }

alice_is_known : lookup alice server.clients ≡ some (client alice)
unfolding lookup text_beq
alice_is_known = refl

alice_owns : text_beq (client alice).token alice_query.token ≡ true
unfolding text_beq
alice_owns = refl

receive-send_handler_example :
    receive (touched server noon alice) noon alice 0 lobby
    ≡ told
        (send_handler server noon alice_query (lobby ∷ [])).0
        0
        (send_handler server noon alice_query (lobby ∷ [])).1.status
receive-send_handler_example =
    receive-send_handler server noon alice_query (lobby ∷ []) lobby 0
      (room_message MessageType.room_join lobby) (client alice) alice_is_known alice_owns refl refl
      (omega arith)
