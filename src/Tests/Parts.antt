-- ===== src/Tests/Parts.antt =====
-- The theorems on the parts of the server at work.
use dendri_server.Common.{
  ℕ, ◌+◌, ◌≤◌, ◌≡◌, refl, ◌≢◌, true, none, some, List, [], ◌∷◌, ◌++◌, arith, text_beq, text_eq,
  codes, filter,
}
use dendri_server.Common.Maps.{lookup, insert}
use dendri_server.Connect.{WsQuery, rejected}
use dendri_server.Connect.Claims.{authorize-client_claims}
use dendri_server.Connect.Upgrade.{Identity, id_taken, resolve_tenant, authorize}
use dendri_server.Enums.{MessageType}
use dendri_server.Jwt.{effective_jwt_secret}
use dendri_server.RateLimiter.Separation
use dendri_server.RateLimiter.Separation.{answers, concerns, answers-concerns}
use dendri_server.Relay.{handle_data}
use dendri_server.Relay.Data.{queue-handle_data, replay_buffer-handle_data}
use dendri_server.Relay.Delivery.{replicate, hits}
use dendri_server.Replay.{ReplayBuffer, is_wanted, bodies, replay_since, push, new}
use dendri_server.Replay.History
use dendri_server.Replay.History.{history, replay_since-run}
use dendri_server.Replay.Window.{last_n}
use dendri_server.RoomKey.Isolation.{namespace_room_injective}
use dendri_server.Slots.Interleaving.{start, holders, undecided, holders-run-le}
use dendri_server.Slots.Interleaving
use dendri_server.State.{members_of, room_key}
use dendri_server.Tenant.{Tenant, hex}
use dendri_server.Tenant.Access.{TenantCache, cache_get, hash_api_key, resolve_api_key}
use dendri_server.Tests.{
  test_world, test_governor, noon, alice, bob, lobby, hall, client, server, room_message,
}
use dendri_server.Validation.{is_valid_identifier, is_identifier_byte}
use dendri_server.Validation.Identifiers.{read_string, read_string-identifier}

is_valid : (is_valid_identifier lobby ≡ true) × (is_valid_identifier hall ≡ true)
unfolding is_valid_identifier is_identifier_byte
is_valid = (refl, refl)

read_string-identifier_example :
    read_string (lobby ++ 34 ∷ codes ",\"payload\":[]}") ≡ some (lobby, codes ",\"payload\":[]}")
read_string-identifier_example = read_string-identifier lobby (codes ",\"payload\":[]}") is_valid.0

namespace_room_injective_example : (some (codes "t") ≡ some (codes "t")) × (lobby ≡ lobby)
namespace_room_injective_example =
    namespace_room_injective (some (codes "t")) (some (codes "t")) lobby lobby
      ((λ e. ground (arith, e)), tt) ((λ e. ground (arith, e)), tt) is_valid.0 is_valid.0 refl

abbrev buffered : ReplayBuffer
buffered = record {
  buffers =
      (
        bob,
        record { seq = 1; body = codes "old"; created_at = 0 }
            ∷ record { seq = 2; body = codes "new"; created_at = 900 }
            ∷ [],
      )
      ∷ [];
  max_size = 2;
  ttl_ms = 500;
}

abbrev pushed : List (ℕ × History.Call)
pushed =
    (1, History.pushes bob 1 (codes "a"))
    ∷ (2, History.pushes bob 2 (codes "b"))
    ∷ (3, History.evicts)
    ∷ (4, History.pushes bob 3 (codes "c"))
    ∷ []

replay_since-run_example :
    replay_since (History.run (new 2 500) pushed) 10 bob 1
    ≡ bodies (filter (is_wanted 10 500 1) (last_n 2 (history bob [] pushed)))
replay_since-run_example =
    replay_since-run 2 500 pushed 10 bob 1 (omega arith)
      (omega arith, (omega arith, (omega arith, (omega arith, omega arith))))

abbrev checked : List (ℕ × Separation.Call)
checked =
    (1, Separation.checks bob (codes "data") 1)
    ∷ (2, Separation.checks alice (codes "data") 1)
    ∷ (3, Separation.checks bob (codes "data") 1)
    ∷ (4, Separation.removes bob)
    ∷ []

answers-concerns_example :
    answers test_governor (bob, codes "data") [] checked
    ≡ answers test_governor
        (bob, codes "data")
        []
        (filter (concerns test_governor (bob, codes "data")) checked)
answers-concerns_example = answers-concerns test_governor (bob, codes "data") [] checked

holders-run-le_example :
    (holders (Interleaving.run 1 (start 2) (0 ∷ 1 ∷ 0 ∷ 1 ∷ [])) ≤ 1)
    × ((Interleaving.run 1 (start 2) (0 ∷ 1 ∷ 0 ∷ 1 ∷ [])).active_connections
        ≡ holders (Interleaving.run 1 (start 2) (0 ∷ 1 ∷ 0 ∷ 1 ∷ []))
          + undecided (Interleaving.run 1 (start 2) (0 ∷ 1 ∷ 0 ∷ 1 ∷ [])))
holders-run-le_example = holders-run-le 1 2 (0 ∷ 1 ∷ 0 ∷ 1 ∷ []) (omega arith)

queue-handle_data_example :
    ((handle_data server noon alice (room_message MessageType.data_ lobby)).channels 1).queue
    ≡ [] ++ replicate (hits server 1 (members_of server (room_key server alice lobby)) alice) lobby
queue-handle_data_example =
    queue-handle_data server noon alice lobby (room_message MessageType.data_ lobby) 1 refl refl
      is_valid.0 refl

replay_buffer-handle_data_example :
    (handle_data server noon alice (room_message MessageType.data_ lobby)).replay_buffer
    ≡ push server.replay_buffer 1000 (room_key server alice lobby) 7 lobby
replay_buffer-handle_data_example =
    replay_buffer-handle_data server noon alice lobby (room_message MessageType.data_ lobby) refl
      refl is_valid.0 refl

abbrev intruder : Identity
intruder = record { id = alice; token = codes "x"; key = codes "dendri" }

abbrev intrusion : WsQuery
intrusion = record {
  id = some alice;
  token = some (codes "x");
  key = some (codes "dendri");
  jwt = some (codes "s");
  api_key = none;
  last_seq = none;
}

intrusion_facts :
    ((resolve_tenant server noon none).1 ≡ some none)
    × (effective_jwt_secret none (some (codes "s")) ≡ some (codes "s"))
    × (test_world.decode_jwt (codes "s") (codes "s") 43200 ≡ some (lobby ∷ []))
    × (lookup alice server.clients ≡ some (client alice))
    × (codes "x" ≢ alice)
unfolding resolve_tenant effective_jwt_secret lookup text_beq
intrusion_facts = (refl, refl, refl, refl, (λ e. ground (arith, e)))

authorize-client_claims_example :
    ((authorize server noon intrusion intruder).1
      ≡ rejected (test_world.json.message_to_json id_taken))
    × ((authorize server noon intrusion intruder).0.client_claims ≡ insert alice (lobby ∷ []) [])
authorize-client_claims_example =
    authorize-client_claims server noon intrusion intruder none (codes "s") (lobby ∷ [])
      (client alice) intrusion_facts.0 intrusion_facts.1 intrusion_facts.2 refl intrusion_facts.3
      intrusion_facts.4

abbrev acme : Tenant
acme = record {
  id = codes "t";
  name = codes "Acme";
  origins = [];
  active = true;
  max_rooms = 0;
  max_peers = 0;
  email = none;
  jwt_secret = none;
}

abbrev known : TenantCache
known = (codes "6b", (some acme, 0)) ∷ []

acme_resolves : (resolve_api_key test_world [] known 10 (codes "k")).2 ≡ some acme
unfolding resolve_api_key cache_get lookup hex text_beq
acme_resolves = refl

no_entry : cache_get [] 10 (hash_api_key test_world (codes "k")) ≡ none
unfolding cache_get lookup
no_entry = refl
