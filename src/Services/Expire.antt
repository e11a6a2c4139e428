-- ===== src/Services/Expire.antt =====
-- src/services/messages_expire.rs: one round of the expiry of queued messages.
use dendri_server.Common.{
  ℕ, ◌+◌, ◌-◌, ◌*◌, ◌^◌, ◌++◌, Bool, Option, none, some, List, [], ◌∷◌, Text, codes, text_eq,
  map_some, unwrap_or, nat_beq, leb, ◌&&◌, if◌then◌else◌,
}
use dendri_server.Common.Int.{ℤ, pos, sub_ℕ, ltb_ℤ, as_i64, sub_i64}
use dendri_server.Common.Sets
use dendri_server.Enums.{Message}
use dendri_server.Realm
use dendri_server.State.{AppState, send_to}
use dendri_server.World.{World, Redis, Clock, Reply, get}

abbrev digits : ℕ → Text → Option ℕ
digits n [] = some n
digits n (b ∷ s) = if leb 48 b && leb b 57 then digits (n * 10 + (b - 48)) s else none

-- At least one digit, and no more than the type holds.
abbrev magnitude : ℕ → Text → Option ℕ
magnitude limit [] = none
magnitude limit (b ∷ s) = elim (digits 0 (b ∷ s)) [
  | none ↦ none
  | some n ↦ if leb n limit then some n else none
]

-- `parse::<i64>`
unfoldable pub parse_i64 : Text → Option ℤ
parse_i64 [] = none
parse_i64 (b ∷ s) =
    if nat_beq b 45
    then map_some (sub_ℕ 0) (magnitude (2 ^ 63) s)
    else if nat_beq b 43
    then map_some pos (magnitude (2 ^ 63 - 1) s)
    else map_some pos (magnitude (2 ^ 63 - 1) (b ∷ s))

-- `now - last_read_at < timeout as i64`
unfoldable pub is_recent : ℕ → ℕ → ℤ → Bool
unfolding sub_i64 as_i64
is_recent now timeout last = ltb_ℤ (sub_i64 (pos now) last) (as_i64 timeout)

-- `{"type":"EXPIRE","src":"…","dst":"…"}`
unfoldable pub expire_frame : Text → Text → Text
expire_frame src dst =
    codes "{\"type\":\"EXPIRE\",\"src\":\""
    ++ (src ++ (codes "\",\"dst\":\"" ++ (dst ++ codes "\"}")))

abbrev pub src_of : Message → Text
src_of msg = unwrap_or msg.src []

abbrev pub dst_of : Message → Text
dst_of msg = unwrap_or msg.dst []

abbrev pub seen_key : Message → Text
seen_key msg = src_of msg ++ (codes "_" ++ dst_of msg)

module _ (redis : Redis) where
  abbrev stamp : redis.Conn × Option Reply → redis.Conn × Option (Option ℤ)
  stamp (conn, some Reply.nil) = (conn, some none)
  stamp (conn, some (Reply.text t)) = (conn, some (parse_i64 t))
  stamp (conn, _) = (conn, none)

  unfoldable pub get_queue_last_read_at : redis.Conn → Text → redis.Conn × Option (Option ℤ)
  get_queue_last_read_at conn id = stamp (redis.query (get (Realm.meta_key id) ∷ []) conn)

module _ {w : World} where
  -- The loop over the messages of a queue: one frame to the source for each source and destination.
  unfoldable pub notify_sources : AppState w → List Text → List Text → AppState w
  notify_sources s seen [] = s
  notify_sources s seen (raw ∷ raws) = elim (w.json.message_from_json raw) [
    | none ↦ notify_sources s seen raws
    | some msg ↦
        let rest =
          notify_sources (send_to s (src_of msg) (expire_frame (dst_of msg) (src_of msg)))
            (Sets.insert (seen_key msg) seen) raws in
        let same = notify_sources s seen raws in
        if Sets.contains (seen_key msg) seen then same else rest
  ]

  unfoldable pub expire_queue : AppState w → ℕ → Text → AppState w
  unfolding notify_sources is_recent
  expire_queue s now dst_id =
      let (conn, last) = get_queue_last_read_at w.redis s.redis dst_id in
      let s1 = record s { redis = conn } in
      if is_recent now s.config.expire_timeout (unwrap_or (unwrap_or last none) (pos 0))
      then s1
      else (let (conn', messages) = Realm.read_all_messages w.redis s1.redis now dst_id in
          let s2 = notify_sources (record s1 { redis = conn' }) [] (unwrap_or messages []) in
          record s2 { redis = (Realm.clear_message_queue w.redis s2.redis dst_id).0 })

  unfoldable pub expire_queues : AppState w → ℕ → List Text → AppState w
  unfolding expire_queue
  expire_queues s now [] = s
  expire_queues s now (id ∷ ids) = expire_queues (expire_queue s now id) now ids

  -- An error on the list of queues ends the round.
  unfoldable pub messages_expire : AppState w → Clock → AppState w
  unfolding expire_queues
  messages_expire s now =
      let (conn, ids) = Realm.get_client_ids_with_queue w.redis s.redis in
      expire_queues (record s { redis = conn }) now.wall (unwrap_or ids [])
