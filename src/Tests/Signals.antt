-- ===== src/Tests/Signals.antt =====
-- An offer from Alice, who claims to be someone else, to Bob.
use dendri_server.Common.{ℕ, ◌≡◌, refl, true, none, some, Text, codes, text_eq}
use dendri_server.Common.Maps.{lookup}
use dendri_server.Dispatch.{handle_message}
use dendri_server.Dispatch.Signals.{handle_message-transmission}
use dendri_server.Enums.{MessageType, Message}
use dendri_server.Realm
use dendri_server.State.{put_frame}
use dendri_server.Tests.{test_world, noon, alice, bob, lobby, server}

abbrev offer : Text → Message
offer from_id = record {
  type_ = MessageType.offer;
  src = some from_id;
  dst = some bob;
  payload = none;
  seq = none;
  room = some lobby;
  timestamp = none;
  topic_class = none;
}

handle_message-transmission_example :
    ((ch : ℕ)
      → lookup bob server.ws_senders ≡ some ch
      → (server.channels ch).is_open ≡ true
      → (handle_message server noon alice (offer (codes "eve"))).channels
        ≡ put_frame ch (test_world.json.message_to_json (offer alice)) server.channels)
    × (lookup bob server.ws_senders ≡ none
        → (handle_message server noon alice (offer (codes "eve"))).redis
          ≡ (Realm.add_message_to_queue test_world.redis server.redis 43200000 bob
              (test_world.json.message_to_json (offer alice))).0)
handle_message-transmission_example =
    handle_message-transmission server noon alice (offer (codes "eve")) bob refl refl refl
