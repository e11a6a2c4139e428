-- ===== src/Tests/Hooks.antt =====
-- The theorems on the webhook and on the abstract rooms at work.
use dendri_server.Common.{
  ℕ, ◌-◌, ◌≡◌, refl, true, false, Option, some, List, [], ◌∷◌, Text, arith, codes, nat_beq,
}
use dendri_server.Dispatch.Refinement.{
  Received, view, handle_messages, acts_of, perform_all, handle_messages-acts_of,
}
use dendri_server.Enums.{MessageType}
use dendri_server.Tenant.{hex}
use dendri_server.Tests.{noon, alice, bob, lobby, server, room_message}
use dendri_server.Webhook.{peer_connected}
use dendri_server.Webhook.Attempts.{request, Outcome, deliver_event-Outcome}
use dendri_server.Webhook.Delivery.{Network, sign, deliver_event}
use dendri_server.Webhook.Hosts.{
  address, class_b, is_safe_webhook_url-IsPrivate, is_safe_webhook_url-brackets,
}
use dendri_server.Webhook.Url.{ParsedUrl, is_safe_webhook_url}

-- A network that answers once so many posts have failed.
abbrev test_network : Network
test_network = record {
  Conn = ℕ;
  post = λ r n. (n - 1, nat_beq n 0);
  hmac_sha256 = λ key t. some (7 ∷ []);
  event_to_json = λ e. e.event;
}

signed :
    sign test_network.hmac_sha256 (some (codes "k")) (codes "peer.connected")
    ≡ some (some (codes "sha256=07"))
unfolding hex
signed = refl

deliver_event-Outcome_example :
    Outcome test_network
      (request test_network (codes "u") (peer_connected 1 alice) (some (codes "sha256=07")))
      2
      (deliver_event test_network (codes "u") (some (codes "k")) (peer_connected 1 alice) 2)
deliver_event-Outcome_example =
    deliver_event-Outcome test_network (codes "u") (some (codes "k")) (peer_connected 1 alice) 2
      (some (codes "sha256=07")) signed

-- Every text is the host of a URL over http.
abbrev as_host : Text → Option ParsedUrl
as_host t = some (record { scheme = codes "http"; host = some t })

is_safe_webhook_url-IsPrivate_example :
    is_safe_webhook_url as_host (address 172 20 (codes "0.1")) ≡ false
is_safe_webhook_url-IsPrivate_example =
    is_safe_webhook_url-IsPrivate as_host (address 172 20 (codes "0.1")) (codes "http") 172 20
      (codes "0.1") refl (class_b 20 (omega arith) (omega arith))

is_safe_webhook_url-brackets_example : is_safe_webhook_url as_host (codes "[::1]") ≡ true
is_safe_webhook_url-brackets_example =
    is_safe_webhook_url-brackets as_host (codes "[::1]") (codes "::1]") refl

abbrev comings : List Received
comings =
    record { now = noon; client_id = alice; msg = room_message MessageType.room_join lobby }
    ∷ record { now = noon; client_id = bob; msg = room_message MessageType.room_leave lobby }
    ∷ []

handle_messages-acts_of_example :
    view (handle_messages server comings) ≡ perform_all (acts_of server comings) (view server)
handle_messages-acts_of_example = handle_messages-acts_of server comings
