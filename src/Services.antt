-- ===== src/Services.antt =====
-- src/services: one round of each background task. The waiting and the shutdown signal are left out.
pub mod Eviction
pub mod Ghosts
pub mod Expire
pub mod Notices
use dendri_server.Common.{
  ℕ, ◌%◌, Bool, not, ◌||◌, ◌&&◌, List, [], ◌∷◌, Text, text_eq, nat_beq, length, if◌then◌else◌,
}
use dendri_server.Common.Int.{pos, sub_ℕ, ltb_ℤ, as_i64}
use dendri_server.Common.Maps.{Map, remove, keys}
use dendri_server.Realm
use dendri_server.Replay.{evict_expired}
use dendri_server.Sessions.{cleanup_expired_sessions}
use dendri_server.State.{AppState, ClientMeta, remove_and_release}
use dendri_server.World.{World, Clock}

abbrev pub reconcile_ticks : ℕ
reconcile_ticks = 60

-- `now - last >= timeout as i64`. The times are not negative, so the difference does not overflow.
unfoldable pub is_over : ℕ → ℕ → ℕ → Bool
unfolding as_i64
is_over now last timeout = not (ltb_ℤ (sub_ℕ now last) (as_i64 timeout))

unfoldable pub is_stale : ℕ → ℕ → ℕ → ClientMeta → Bool
unfolding is_over as_i64
is_stale now alive idle meta =
    is_over now meta.last_ping alive
    || (ltb_ℤ (pos 0) (as_i64 idle) && is_over now meta.last_message idle)

unfoldable pub to_evict : ℕ → ℕ → ℕ → Map Text ClientMeta → List Text
unfolding is_stale
to_evict now alive idle [] = []
to_evict now alive idle (e ∷ m) =
    if is_stale now alive idle e.1
    then e.0 ∷ to_evict now alive idle m
    else to_evict now alive idle m

module _ {w : World} where
  -- The sender, the entry with its slot, the queue and the client in Redis.
  unfoldable pub evict_client : AppState w → Text → AppState w
  evict_client s id =
      let s1 = remove_and_release (record s { ws_senders = remove id s.ws_senders }) id in
      let s2 = record s1 { redis = (Realm.clear_message_queue w.redis s1.redis id).0 } in
      record s2 { redis = (Realm.remove_client w.redis s2.redis id).0 }

  unfoldable pub evict_clients : AppState w → List Text → AppState w
  unfolding evict_client
  evict_clients s [] = s
  evict_clients s (id ∷ ids) = evict_clients (evict_client s id) ids

  -- The count is set to the number of clients if it is not that already.
  unfoldable pub reconcile : AppState w → ℕ → AppState w
  reconcile s tick =
      if nat_beq (tick % reconcile_ticks) 0
      then record s { active_connections = length s.clients }
      else s

  unfoldable pub check_broken : AppState w → Clock → ℕ → AppState w
  unfolding evict_clients reconcile
  check_broken s now tick =
      cleanup_expired_sessions
        (reconcile
          (evict_clients s
            (to_evict now.wall s.config.alive_timeout s.config.idle_timeout s.clients))
          tick)
        now

  unfoldable pub replay_evict : AppState w → Clock → AppState w
  replay_evict s now = record s { replay_buffer = evict_expired s.replay_buffer now.instant }

  unfoldable pub sync_clients : AppState w → ℕ → List Text → AppState w
  sync_clients s now [] = s
  sync_clients s now (id ∷ ids) =
      sync_clients
        (record s { redis = (Realm.set_last_ping w.redis s.redis now id s.config.alive_timeout).0 })
        now ids

  unfoldable pub sync_redis : AppState w → Clock → AppState w
  unfolding sync_clients
  sync_redis s now = sync_clients s now.wall (keys s.clients)
