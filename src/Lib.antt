-- ===== src/Lib.antt =====
-- A model of the Dendri signalling server (the Rust server in src/). Peers connect over WebSockets,
-- exchange offers, answers and candidates, join rooms, and relay data through the server. All
-- handlers work on one shared state; the model passes it explicitly, one handler call after another,
-- and a text is the list of its UTF-8 bytes.
--
-- What the parts are, by file of this library:
--   * Common and its children: tests, keys, lists, maps (a DashMap or HashMap as an association list),
--     sets, the signed words of 64 bits, and texts as characters with `str::trim`.
--   * Validation (src/validation.rs): identifiers and the comparison of secrets.
--   * RoomKey (src/handlers/message.rs, namespace_room and room_display): storage keys of rooms.
--   * Replay (src/replay_buffer.rs): the ring buffers of recent messages. Replay.History runs any
--     sequence of calls beside an unbounded log.
--   * RateLimiter (src/rate_limiter.rs): token buckets by client and kind.
--   * Slots (src/state.rs, try_reserve_connection_slot and release_connection_slot): the counter of
--     connections, a usize of 64 bits that wraps. Slots.Interleaving schedules the atomic steps of
--     any number of threads.
--   * Enums (src/enums.rs, src/models/message.rs), Jwt (src/jwt.rs), Webhook (src/webhook.rs), Realm
--     (src/redis_realm.rs), Tenant (src/tenant.rs), Config (src/config.rs).
--   * World: what the server takes from elsewhere, as records of functions: Redis, serde_json, the
--     crates governor, subtle, sha2 and jsonwebtoken. Clock holds one reading of the two clocks; a
--     handler reads them once.
--   * State (src/state.rs): AppState. A sender handle is the number of its channel, a queue of frames
--     that is open or closed; the writer task, which empties it, is not modelled.
--   * Relay, Rooms, Sessions and Dispatch (src/handlers/message.rs): handle_transmission and
--     handle_data; joins, presence and leaves; the removal of a disconnected client after its grace
--     period; handle_message. Dispatch.RoomSteps sums up what a message may do to the rooms,
--     and Dispatch.Refinement states the abstract rooms that this implements.
--   * Connect (src/handlers/ws.rs, src/handlers/mod.rs): handle_socket, the greeting, the read loop
--     and the close; Connect.Run puts connections, texts, disconnections and sweeps in any order.
--   * Http (src/handlers/http.rs): the checks that streams and polls share; Http.Stream has the stream,
--     its watchdog, its end and the posts, Http.Poll the long polls. The wait of a poll is a step of its
--     own, collects. Http.Run puts requests in any order with what happens on sockets.
--   * Webhook.Url and Webhook.Delivery (src/webhook.rs): the check of the URL, on the host that the URL
--     parser shows, and the task that posts the events, over a network that is a parameter.
--   * Services (src/services): one round of each background task.
--   * Api (src/handlers/api.rs): the plain routes, with the list of peers for discovery.
--   * Dashboard (src/handlers/customer.rs): sign-in by link, the session token and the routes of a
--     customer on its own tenant; Dashboard.Email has the check of an address and the cooldown.
--   * Admin (src/handlers/admin.rs): the tenants and API keys behind the admin key.
--   * Mail (src/email.rs): the signed request of one mail, with its percent codes and its date.
--   * State.Start and State.Drain (src/state.rs): AppState::new and drain_ws. Startup (src/main.rs): the
--     key file, the prefix of the routes and the origins of CORS.
--   * Tests: a small server, and the theorems applied to it.
--
-- Every handler call is one step: where two of them interleave at an await, or between two locks of
-- a map, the model has them one after the other; only the slot counter is modelled to its atomic
-- steps. A loop is a recursion on the list that it walks, so nothing runs on fuel but the digits of
-- a number, which get one more than its value, and the wait of the drain, which gets one round more
-- than the sleeps of 100 ms in its 30 s. Durations stop at 0, as Instant does.
--
-- Not modelled: the log (src/pii.rs), the metrics, the command line, and of src/main.rs the table of
-- routes, the listeners and the signals.
pub mod Common
pub mod Validation
pub mod RoomKey
pub mod Replay
pub mod RateLimiter
pub mod Slots
pub mod Enums
pub mod Tenant
pub mod World
pub mod Frames
pub mod Jwt
pub mod Webhook
pub mod Realm
pub mod Config
pub mod State
pub mod Relay
pub mod Rooms
pub mod Sessions
pub mod Dispatch
pub mod Connect
pub mod Http
pub mod Dashboard
pub mod Mail
pub mod Api
pub mod Admin
pub mod Services
pub mod Startup
pub mod Tests
