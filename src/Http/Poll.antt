-- ===== src/Http/Poll.antt =====
-- src/handlers/http.rs: `poll_handler`. The wait of a poll ends in a step of its own, since others
-- send to the channel meanwhile.
pub mod Batches
use dendri_server.Common.{
  ℕ, zero, suc, ◌+◌, ◌-◌, Option, none, some, List, [], ◌∷◌, Text, nat_beq, text_eq, if◌then◌else◌,
}
use dendri_server.Common.Maps.{lookup, insert, adjust}
use dendri_server.Connect.Greeting.{open_channel}
use dendri_server.Http.{
  HttpQuery, Answer, Entry, enter_http, register_client_backend, store_http_client, replay,
  welcome_http,
}
use dendri_server.State.{AppState, TransportKind, touch, notify}
use dendri_server.Tenant.{Tenant}
use dendri_server.Webhook.{peer_connected}
use dendri_server.World.{World, Clock}

-- A poll is refused, or waits on the receiver of a channel.
pub data Poll : Type 0 where
  rejected : Answer → Poll
  waits : ℕ → Poll

abbrev pub max_batch : ℕ
max_batch = 500

-- The `try_recv` loop, with room for so many more: what it takes and what it leaves.
abbrev pub take_ready : ℕ → List Text → List Text × List Text
take_ready zero queue = ([], queue)
take_ready (suc room) [] = ([], [])
take_ready (suc room) (m ∷ ms) = let (taken, left) = take_ready room ms in (m ∷ taken, left)

-- The first message, if one came before the wait was over, then what is ready.
abbrev pub take_batch : List Text → List Text × List Text
take_batch [] = ([], [])
take_batch (m ∷ ms) = let (taken, left) = take_ready (max_batch - 1) ms in (m ∷ taken, left)

-- The two ends of the channel that a poll works with.
pub record Ends : Type 0 where
  pub tx : ℕ
  pub rx : ℕ

module _ {w : World} where
  unfoldable pub collect_poll_messages_shared : AppState w → ℕ → AppState w × List Text
  collect_poll_messages_shared s rx =
      let (taken, left) = take_batch (s.channels rx).queue in
      (
        record s {
          channels = λ c.
              if nat_beq rx c
              then record { queue = left; is_open = (s.channels c).is_open }
              else s.channels c;
        },
        taken,
      )

  -- A new channel, with its receiver kept for the polls.
  unfoldable pub rebuild_ends : AppState w → Text → AppState w × Ends
  unfolding open_channel
  rebuild_ends s id = (
    record (open_channel s id) { polling_receivers = insert id s.next_channel s.polling_receivers },
    record { tx = s.next_channel; rx = s.next_channel },
  )

  -- The stored sender and receiver, if both are there.
  unfoldable pub ends_of : AppState w → Text → AppState w × Ends
  unfolding rebuild_ends
  ends_of s id = elim (lookup id s.polling_receivers) [
    | none ↦ rebuild_ends s id
    | some rx ↦ elim (lookup id s.ws_senders) [
      | none ↦ rebuild_ends s id
      | some tx ↦ (s, record { tx = tx; rx = rx })
    ]
  ]

  unfoldable pub start_polling : AppState w → Clock → HttpQuery → Option Tenant → ℕ → AppState w
  unfolding register_client_backend store_http_client welcome_http
  start_polling s now q tenant tx =
      let s1 =
        store_http_client (register_client_backend s now q.id q.token) now q.id q.token
          TransportKind.polling tenant in
      notify (welcome_http s1 now q.id tx) (peer_connected now.wall q.id)

  -- The last step before the wait.
  unfoldable pub catch_up : AppState w → Clock → HttpQuery → Ends → AppState w × Poll
  unfolding replay
  catch_up s now q ends = (replay s now q.id ends.tx q.last_seq, waits ends.rx)

  unfoldable pub poll_handler : AppState w → Clock → HttpQuery → AppState w × Poll
  unfolding enter_http ends_of start_polling catch_up
  poll_handler s now q =
      let (s1, entry) = enter_http s now q in
      let (s2, ends) = ends_of s1 q.id in
      elim entry [
        | Entry.rejected a ↦ (s1, rejected a)
        | Entry.fresh tenant ↦ catch_up (start_polling s2 now q tenant ends.tx) now q ends
        | Entry.known tenant ↦
            catch_up (record s2 { clients = adjust q.id (touch now.wall) s2.clients }) now q ends
      ]
