-- ===== src/Realm.antt =====
-- src/redis_realm.rs: the clients and the message queues that the server keeps in Redis.
use dendri_server.Common.{
  ℕ, suc, zero, ◌+◌, ◌*◌, ◌/◌, ◌%◌, ◌^◌, ◌++◌, Option, none, some, List, [], ◌∷◌, Text, codes, ltb,
  Bool, if◌then◌else◌,
}
use dendri_server.World.{
  Redis, Reply, hset, hget, sadd, srem, sismember, set, rpush, smembers, del, lrange, expire,
}

-- `to_string` of an unsigned integer; a number has fewer digits than its value plus one.
unfoldable pub decimal_digits : ℕ → ℕ → Text
decimal_digits zero n = []
decimal_digits (suc fuel) n =
    let high = decimal_digits fuel (n / 10) in
    let low : Text = (48 + n % 10) ∷ [] in if ltb n 10 then low else high ++ low

unfoldable pub decimal : ℕ → Text
unfolding decimal_digits
decimal n = decimal_digits (suc n) n

abbrev pub client_key : Text → Text
client_key id = codes "peer:client:" ++ id

abbrev pub queue_key : Text → Text
queue_key id = codes "peer:queue:" ++ id

abbrev pub meta_key : Text → Text
meta_key id = codes "peer:queue_meta:" ++ id

-- `((alive_timeout_ms * 2) / 1000).max(1)`, in 64 bits.
abbrev pub ttl_seconds : ℕ → ℕ
ttl_seconds alive_timeout_ms =
    let t = (alive_timeout_ms * 2) % 2 ^ 64 / 1000 in if ltb t 1 then 1 else t

module _ (redis : Redis) where
  open redis use {Conn, query}

  -- The reply to a pipeline whose answer is not looked at: whether it succeeded.
  abbrev pub ran : Conn × Option Reply → Conn × Bool
  ran (conn, none) = (conn, Bool.false)
  ran (conn, some r) = (conn, Bool.true)

  -- The replies that are converted to the type that the caller wants; any other is an error.
  abbrev as_text : Conn × Option Reply → Conn × Option (Option Text)
  as_text (conn, some Reply.nil) = (conn, some none)
  as_text (conn, some (Reply.text t)) = (conn, some (some t))
  as_text (conn, _) = (conn, none)

  abbrev as_texts : Conn × Option Reply → Conn × Option (List Text)
  as_texts (conn, some (Reply.texts ts)) = (conn, some ts)
  as_texts (conn, _) = (conn, none)

  unfoldable pub register_client : Conn → ℕ → Text → Text → ℕ → Conn × Bool
  register_client conn now id token alive_timeout_ms = ran (
      query
        (hset (client_key id) (codes "token") token
          ∷ hset (client_key id) (codes "last_ping") (decimal now)
          ∷ sadd (codes "peer:clients") id
          ∷ expire (client_key id) (ttl_seconds alive_timeout_ms)
          ∷ [])
        conn)

  unfoldable pub remove_client : Conn → Text → Conn × Bool
  remove_client conn id =
      ran (query (del (client_key id) ∷ srem (codes "peer:clients") id ∷ []) conn)

  unfoldable pub get_client_token : Conn → Text → Conn × Option (Option Text)
  get_client_token conn id = as_text (query (hget (client_key id) (codes "token") ∷ []) conn)

  unfoldable pub set_last_ping : Conn → ℕ → Text → ℕ → Conn × Bool
  set_last_ping conn now id alive_timeout_ms = ran (
      query
        (hset (client_key id) (codes "last_ping") (decimal now)
          ∷ expire (client_key id) (ttl_seconds alive_timeout_ms)
          ∷ [])
        conn)

  unfoldable pub add_message_to_queue : Conn → ℕ → Text → Text → Conn × Bool
  add_message_to_queue conn now id message_json = ran (
      query
        (rpush (queue_key id) message_json
          ∷ set (meta_key id) (decimal now)
          ∷ sadd (codes "peer:queues") id
          ∷ [])
        conn)

  -- The time of the read is stored first; if that fails, nothing is read.
  unfoldable pub read_all_messages : Conn → ℕ → Text → Conn × Option (List Text)
  read_all_messages conn now id =
      let (conn', ok) = ran (query (set (meta_key id) (decimal now) ∷ []) conn) in
      if ok then as_texts (query (lrange (queue_key id) ∷ []) conn') else (conn', none)

  unfoldable pub clear_message_queue : Conn → Text → Conn × Bool
  clear_message_queue conn id =
      ran (query (del (queue_key id) ∷ del (meta_key id) ∷ srem (codes "peer:queues") id ∷ []) conn)

  unfoldable pub get_client_ids_with_queue : Conn → Conn × Option (List Text)
  get_client_ids_with_queue conn = as_texts (query (smembers (codes "peer:queues") ∷ []) conn)

  unfoldable pub get_all_client_ids : Conn → Conn × Option (List Text)
  get_all_client_ids conn = as_texts (query (smembers (codes "peer:clients") ∷ []) conn)

  abbrev as_flag : Conn × Option Reply → Conn × Option Bool
  as_flag (conn, some (Reply.flag b)) = (conn, some b)
  as_flag (conn, _) = (conn, none)

  unfoldable pub client_exists : Conn → Text → Conn × Option Bool
  client_exists conn id = as_flag (query (sismember (codes "peer:clients") id ∷ []) conn)

  -- The loop over the random ids that are drawn: the first that no client has. It ends without one at
  -- an error of Redis, or when the list of draws is over.
  unfoldable pub generate_client_id : Conn → List Text → Conn × Option Text
  unfolding client_exists
  generate_client_id conn [] = (conn, none)
  generate_client_id conn (id ∷ ids) =
      let (conn', exists) = client_exists conn id in
      let rest = generate_client_id conn' ids in
      elim exists [ none ↦ (conn', none) | some taken ↦ if taken then rest else (conn', some id) ]
