-- ===== src/Http.antt =====
-- src/handlers/http.rs: the transports of peers without a WebSocket. Here: the query, the checks that
-- the stream and the poll share, and what a client is given when it connects. A refused poll, and
-- a send over the rate limit, wrap the text as `{"error":…}`.
pub mod Stream
pub mod Poll
pub mod Admission
pub mod Entrance
pub mod Indexes
pub mod Run
pub mod Deliveries
pub mod Counting
pub mod Counted
pub mod Stale
pub mod Started
pub mod Sending
use dendri_server.Common.{
  ℕ, ◌++◌, Bool, false, not, Option, none, some, List, [], Text, codes, text_beq, text_eq, is_some,
  unwrap_or, if◌then◌else◌,
}
use dendri_server.Common.Maps.{lookup, insert}
use dendri_server.Connect.{enforce_jwt}
use dendri_server.Connect.Greeting.{send_each, deliver, gap}
use dendri_server.Connect.Upgrade.{resolve_tenant}
use dendri_server.Realm
use dendri_server.Replay.{replay_since}
use dendri_server.Slots.{try_reserve_connection_slot}
use dendri_server.State.{AppState, TransportKind, meta_new, send}
use dendri_server.Tenant.{Tenant}
use dendri_server.Validation.{constant_time_str_eq}
use dendri_server.World.{World, Clock}

pub record HttpQuery : Type 0 where
  pub id : Text
  pub token : Text
  pub key : Option Text
  pub last_seq : Option ℕ
  pub api_key : Option Text
  pub jwt : Option Text

-- The codes that the handlers answer.
pub data StatusCode : Type 0 where
  ok bad_request unauthorized forbidden conflict too_many_requests service_unavailable : StatusCode

pub record Answer : Type 0 where
  pub status : StatusCode
  pub text : Text

abbrev pub answer : StatusCode → Text → Answer
answer status text = record { status = status; text = text }

-- What the checks of a request come to: the tenant of the client, if it has one.
pub data Access : Type 0 where
  refused : Answer → Access
  granted : Option Tenant → Access

-- A request that passes them comes from a new client, which has a slot, or from a known one.
pub data Entry : Type 0 where
  rejected : Answer → Entry
  fresh known : Option Tenant → Entry

abbrev pub key_matches : (Text → Text → Bool) → Option Text → Text → Bool
key_matches ct_eq none expected = false
key_matches ct_eq (some key) expected = constant_time_str_eq ct_eq key expected

abbrev pub open_frame : Text
open_frame = codes "{\"type\":\"OPEN\"}"

module _ {w : World} where
  -- The shared key, the tenant and the JWT, in this order.
  unfoldable pub authenticate : AppState w → Clock → HttpQuery → AppState w × Access
  authenticate s now q =
      if not (key_matches w.ct_eq q.key s.config.key)
      then (s, refused (answer StatusCode.unauthorized (codes "Invalid key")))
      else (let (s1, resolved) = resolve_tenant s now q.api_key in
          elim resolved [
            | none ↦ (
              s1,
              refused (
                  answer StatusCode.unauthorized (
                    if is_some q.api_key
                    then codes "Invalid api_key"
                    else codes "api_key required")),
            )
            | some tenant ↦
                let (s2, passes) = enforce_jwt s1 now tenant q.jwt q.id in
                if not passes
                then (s2, refused (answer StatusCode.forbidden (codes "Invalid token")))
                else (s2, granted tenant)
          ])

  -- The token of a known client is compared; a new client reserves a slot.
  unfoldable pub claim_id : AppState w → Text → Text → Option Tenant → AppState w × Entry
  claim_id s id token tenant = elim (lookup id s.clients) [
    | some meta ↦
        if not (text_beq meta.token token)
        then (s, rejected (answer StatusCode.conflict (codes "ID is taken")))
        else (s, known tenant)
    | none ↦
        let (count, reserved) =
          try_reserve_connection_slot s.active_connections s.config.concurrent_limit in
        let s' = record s { active_connections = count } in
        if not reserved
        then (
          s',
          rejected (answer StatusCode.service_unavailable (codes "Connection limit reached")),
        )
        else (s', fresh tenant)
  ]

  -- All checks of a request for a stream or a poll.
  unfoldable pub enter_http : AppState w → Clock → HttpQuery → AppState w × Entry
  unfolding authenticate claim_id
  enter_http s now q =
      let (s1, access) = authenticate s now q in
      elim access [
        | refused a ↦ (s1, rejected a)
        | granted tenant ↦ claim_id s1 q.id q.token tenant
      ]

  -- A failure of Redis is ignored.
  unfoldable pub register_client_backend : AppState w → Clock → Text → Text → AppState w
  register_client_backend s now id token = record s {
    redis = (Realm.register_client w.redis s.redis now.wall id token s.config.alive_timeout).0;
  }

  -- The entry of the client, and its tenant if it has one.
  unfoldable pub store_http_client :
      AppState w → Clock → Text → Text → TransportKind → Option Tenant → AppState w
  store_http_client s now id token transport tenant =
      let s' = record s { clients = insert id (meta_new now.wall token transport) s.clients } in
      elim tenant [
        | none ↦ s'
        | some t ↦ record s' { client_tenants = insert id t.id s'.client_tenants }
      ]

  -- What waits in Redis for the client.
  unfoldable pub deliver_backlog : AppState w → Clock → Text → ℕ → AppState w
  deliver_backlog s now id ch =
      let (redis, messages) = Realm.read_all_messages w.redis s.redis now.wall id in
      deliver (record s { redis = redis }) id ch (unwrap_or messages [])

  -- The gap frame, if there is a gap, and then the messages since the number that is asked for.
  abbrev pub missed : AppState w → Clock → Text → Option ℕ → List Text
  missed s now id none = []
  missed s now id (some requested) =
      gap s id (some requested) ++ replay_since s.replay_buffer now.instant id requested

  unfoldable pub replay : AppState w → Clock → Text → ℕ → Option ℕ → AppState w
  unfolding send_each
  replay s now id ch last_seq = send_each s ch (missed s now id last_seq)

  -- The first frame, and the queue of Redis.
  unfoldable pub welcome_http : AppState w → Clock → Text → ℕ → AppState w
  unfolding deliver_backlog
  welcome_http s now id ch = deliver_backlog (send s ch open_frame).0 now id ch
