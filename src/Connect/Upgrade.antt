-- ===== src/Connect/Upgrade.antt =====
-- `handle_socket` of src/handlers/ws.rs, up to the read loop.
use dendri_server.Common.{
  ℕ, ◌||◌, not, Option, none, some, [], Text, codes, text_beq, text_eq, map_some, unwrap_or,
  if◌then◌else◌,
}
use dendri_server.Common.Maps.{lookup}
use dendri_server.Connect.{
  WsQuery, Outcome, rejected, connected, reject, server_message, enforce_jwt, store_client, restore,
}
use dendri_server.Connect.Greeting.{greet}
use dendri_server.Enums.{MessageType, Message, PeerError}
use dendri_server.Realm
use dendri_server.Slots.{try_reserve_connection_slot, release_connection_slot}
use dendri_server.State.{AppState}
use dendri_server.Tenant.{Tenant}
use dendri_server.Tenant.Access.{resolve_api_key}
use dendri_server.Validation.{constant_time_str_eq, is_valid_identifier}
use dendri_server.World.{World, Clock}

-- The three parameters that are needed.
pub record Identity : Type 0 where
  pub id : Text
  pub token : Text
  pub key : Text

abbrev pub identity : WsQuery → Option Identity
identity q = elim q.id [
  | none ↦ none
  | some id ↦ elim q.token [
    | none ↦ none
    | some token ↦ map_some (λ key. record { id = id; token = token; key = key }) q.key
  ]
]

abbrev pub id_taken : Message
id_taken = server_message MessageType.id_taken (some (codes "{\"msg\":\"ID is taken\"}"))

module _ {w : World} where
  open w.json use {message_to_json}

  -- The tenant of the key, if a key is given, or a refusal.
  unfoldable pub resolve_tenant :
      AppState w → Clock → Option Text → AppState w × Option (Option Tenant)
  resolve_tenant s now none = (s, if s.config.require_api_key then none else some none)
  resolve_tenant s now (some api_key) =
      let (redis, cache, tenant) = resolve_api_key w s.redis s.tenant_cache now.instant api_key in
      (record s { redis = redis; tenant_cache = cache }, map_some some tenant)

  -- In memory, or else in Redis, where an error counts as none.
  unfoldable pub existing_token : AppState w → Text → AppState w × Option Text
  existing_token s id = elim (lookup id s.clients) [
    | some meta ↦ (s, some meta.token)
    | none ↦
        let (redis, stored) = Realm.get_client_token w.redis s.redis id in
        (record s { redis = redis }, unwrap_or stored none)
  ]

  unfoldable pub resume :
      AppState w → Clock → Text → Text → Option Tenant → Option ℕ → AppState w × Outcome
  resume s now id token tenant last_seq =
      let (s1, restored_rooms) = restore (store_client s now id token tenant) id in
      let (redis, ok) = Realm.set_last_ping w.redis s1.redis now.wall id s1.config.alive_timeout in
      let s2 = record s1 { redis = redis } in
      (greet s2 now id last_seq restored_rooms, connected s2.next_channel)

  -- A slot is taken first, and given back if Redis fails.
  unfoldable pub admit :
      AppState w → Clock → Text → Text → Option Tenant → Option ℕ → AppState w × Outcome
  admit s now id token tenant last_seq =
      let (count, reserved) =
        try_reserve_connection_slot s.active_connections s.config.concurrent_limit in
      let s1 = record s { active_connections = count } in
      if not reserved
      then (s1, reject PeerError.connection_limit_exceed)
      else (let (redis, ok) =
            Realm.register_client w.redis s1.redis now.wall id token s1.config.alive_timeout in
          let s2 = record s1 { redis = redis } in
          if not ok
          then (
            record s2 { active_connections = release_connection_slot s2.active_connections },
            reject PeerError.invalid_ws_parameters,
          )
          else (
            greet (store_client s2 now id token tenant) now id last_seq [],
            connected s2.next_channel,
          ))

  unfoldable pub enter :
      AppState w → Clock → Text → Text → Option Tenant → Option ℕ → AppState w × Outcome
  unfolding existing_token resume admit
  enter s now id token tenant last_seq =
      let (s1, stored) = existing_token s id in
      elim stored [
        | none ↦ admit s1 now id token tenant last_seq
        | some stored_token ↦
            if not (text_beq token stored_token)
            then (s1, rejected (message_to_json id_taken))
            else resume s1 now id token tenant last_seq
      ]

  unfoldable pub authorize : AppState w → Clock → WsQuery → Identity → AppState w × Outcome
  unfolding resolve_tenant enter
  authorize s now q who =
      let (s1, resolved) = resolve_tenant s now q.api_key in
      elim resolved [
        | none ↦ (s1, reject PeerError.invalid_key)
        | some tenant ↦
            let (s2, ok) = enforce_jwt s1 now tenant q.jwt who.id in
            if not ok
            then (s2, reject PeerError.invalid_token)
            else enter s2 now who.id who.token tenant q.last_seq
      ]

  unfoldable pub handle_socket : AppState w → Clock → WsQuery → AppState w × Outcome
  unfolding authorize
  handle_socket s now q = elim (identity q) [
    | none ↦ (s, reject PeerError.invalid_ws_parameters)
    | some who ↦
        if not (is_valid_identifier who.id) || not (is_valid_identifier who.token)
        then (s, reject PeerError.invalid_ws_parameters)
        else if not (constant_time_str_eq w.ct_eq who.key s.config.key)
        then (s, reject PeerError.invalid_key)
        else authorize s now q who
  ]
