-- ===== src/Connect/Greeting.antt =====
-- src/handlers/ws.rs: what a new connection is sent (`run_client` up to its read loop).
use dendri_server.Common.{
  ℕ, ◌+◌, ◌++◌, true, Option, none, some, List, [], ◌∷◌, Text, codes, ltb, nat_beq, text_eq,
  unwrap_or, if◌then◌else◌,
}
use dendri_server.Common.Maps.{lookup, insert}
use dendri_server.Enums.{MessageType}
use dendri_server.Frames.{peers_frame}
use dendri_server.Realm
use dendri_server.Realm.{decimal}
use dendri_server.Replay.{oldest_seq}
use dendri_server.RoomKey.{room_display}
use dendri_server.State.{AppState, send, notify}
use dendri_server.Webhook.{peer_connected}
use dendri_server.World.{World, Clock}
use dendri_server.Connect.{server_message}

-- `{"type":"ERROR","payload":{"msg":"REPLAY_GAP","oldest_seq":…,"requested_seq":…}}`
unfoldable pub gap_frame : ℕ → ℕ → Text
gap_frame oldest requested =
    codes "{\"type\":\"ERROR\",\"payload\":{\"msg\":\"REPLAY_GAP\",\"oldest_seq\":"
    ++ (decimal oldest ++ (codes ",\"requested_seq\":" ++ (decimal requested ++ codes "}}")))

module _ {w : World} where
  open w.json use {message_to_json, message_from_json, list_to_json}

  -- The sends of the loops go to the client's own channel.
  unfoldable pub send_each : AppState w → ℕ → List Text → AppState w
  send_each s ch [] = s
  send_each s ch (frame ∷ frames) = send_each (send s ch frame).0 ch frames

  -- The queued messages that parse, printed again; they stop at an error of the channel.
  unfoldable pub requeue : AppState w → ℕ → List Text → AppState w
  requeue s ch [] = s
  requeue s ch (raw ∷ raws) = elim (message_from_json raw) [
    | none ↦ requeue s ch raws
    | some msg ↦
        let (s', ok) = send s ch (message_to_json msg) in
        let rest = requeue s' ch raws in if ok then rest else s'
  ]

  -- With none to deliver, or an error on the read, the queue is not cleared.
  abbrev pub deliver : AppState w → Text → ℕ → List Text → AppState w
  deliver s id ch [] = s
  deliver s id ch (m ∷ ms) =
      let s' = requeue s ch (m ∷ ms) in
      record s' { redis = (Realm.clear_message_queue w.redis s'.redis id).0 }

  unfoldable pub deliver_queued_messages : AppState w → Clock → Text → ℕ → AppState w
  unfolding requeue
  deliver_queued_messages s now id ch =
      let (redis, messages) = Realm.read_all_messages w.redis s.redis now.wall id in
      deliver (record s { redis = redis }) id ch (unwrap_or messages [])

  abbrev pub gap : AppState w → Text → Option ℕ → List Text
  gap s id none = []
  gap s id (some requested) = elim (oldest_seq s.replay_buffer id) [
    | none ↦ []
    | some oldest ↦ if ltb requested oldest then gap_frame oldest requested ∷ [] else []
  ]

  -- One frame for each restored room that is stored.
  abbrev pub peers_of : AppState w → List Text → List Text
  peers_of s [] = []
  peers_of s (k ∷ ks) = elim (lookup k s.rooms) [
    | none ↦ peers_of s ks
    | some members ↦ peers_frame (room_display k) (list_to_json members) ∷ peers_of s ks
  ]

  -- A new channel, whose sender replaces the client's.
  unfoldable pub open_channel : AppState w → Text → AppState w
  open_channel s id = record s {
    channels = λ c.
        if nat_beq s.next_channel c then record { queue = []; is_open = true } else s.channels c;
    next_channel = s.next_channel + 1;
    ws_senders = insert id s.next_channel s.ws_senders;
  }

  -- `run_client` up to its read loop.
  unfoldable pub greet : AppState w → Clock → Text → Option ℕ → List Text → AppState w
  unfolding open_channel deliver_queued_messages send_each
  greet s now id last_seq restored_rooms =
      let ch = s.next_channel in
      let s1 =
        (send (open_channel s id) ch (message_to_json (server_message MessageType.open_ none))).0 in
      let s2 = deliver_queued_messages (send_each s1 ch (gap s1 id last_seq)) now id ch in
      notify (send_each s2 ch (peers_of s2 restored_rooms)) (peer_connected now.wall id)
