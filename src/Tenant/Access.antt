-- ===== src/Tenant/Access.antt =====
-- src/tenant.rs: the operations on tenants.
use dendri_server.Common.{
  ℕ, ◌-◌, Bool, true, false, Option, none, some, List, [], ◌∷◌, Text, text_eq, ltb, map_some, codes,
  unwrap_or, if◌then◌else◌,
}
use dendri_server.Common.Maps.{Map, lookup, insert}
use dendri_server.Tenant.{Tenant, key_by_hash, key_by_id, key_by_email, cache_ttl, hex}
use dendri_server.World.{World, Reply, Command, get, set, del, mget}

-- By the hash of the key: the tenant, if there is one, and when it was stored.
abbrev pub TenantCache : Type 0
TenantCache = Map Text (Option Tenant × ℕ)

unfoldable pub cache_get : TenantCache → ℕ → Text → Option (Option Tenant)
cache_get cache now hash = elim (lookup hash cache) [
  | none ↦ none
  | some entry ↦ if ltb cache_ttl (now - entry.1) then none else some entry.0
]

unfoldable pub cache_put : TenantCache → ℕ → Text → Option Tenant → TenantCache
cache_put cache now hash value = insert hash (value, now) cache

abbrev pub invalidate_all : TenantCache → TenantCache
invalidate_all cache = []

abbrev pub if_active : Option Tenant → Option Tenant
if_active none = none
if_active (some t) = if t.active then some t else none

module _ (w : World) where
  open w.redis use {Conn, query}

  abbrev pub hash_api_key : Text → Text
  hash_api_key api_key = hex (w.sha256 api_key)

  -- The reply to GET, converted to an optional string.
  abbrev as_text : Conn × Option Reply → Conn × Option (Option Text)
  as_text (conn, some Reply.nil) = (conn, some none)
  as_text (conn, some (Reply.text t)) = (conn, some (some t))
  as_text (conn, _) = (conn, none)

  abbrev pub get_text : Conn → Text → Conn × Option (Option Text)
  get_text conn key = as_text (query (get key ∷ []) conn)

  abbrev parse : Option Text → Option Tenant
  parse none = none
  parse (some json) = w.json.tenant_from_json json

  unfoldable pub fetch_by_hash : Conn → Text → Conn × Option (Option Tenant)
  fetch_by_hash conn hash =
      let (conn', raw) = get_text conn (key_by_hash hash) in (conn', map_some parse raw)

  -- An error counts as no tenant, and is cached as such.
  unfoldable pub resolve_api_key :
      Conn → TenantCache → ℕ → Text → Conn × TenantCache × Option Tenant
  unfolding cache_get cache_put fetch_by_hash
  resolve_api_key conn cache now api_key = elim (cache_get cache now (hash_api_key api_key)) [
    | some value ↦ (conn, cache, if_active value)
    | none ↦
        let (conn', fetched) = fetch_by_hash conn (hash_api_key api_key) in
        (
          conn',
          cache_put cache now (hash_api_key api_key) (unwrap_or fetched none),
          if_active (unwrap_or fetched none),
        )
  ]

  abbrev ran : Conn × Option Reply → Conn × Bool
  ran (conn, none) = (conn, false)
  ran (conn, some r) = (conn, true)

  abbrev set_email : Tenant → List Command
  set_email t = elim t.email [ none ↦ [] | some email ↦ set (key_by_email email) t.id ∷ [] ]

  -- What follows once the hash is read: an error and an unknown id end the operation.
  abbrev with_hash {ℓ} :
      {A : Type ℓ}
      → A
      → (Conn → Text → Conn × Option A)
      → Conn × Option (Option Text)
      → Conn × Option A
  with_hash unknown f (conn, none) = (conn, none)
  with_hash unknown f (conn, some none) = (conn, some unknown)
  with_hash unknown f (conn, some (some hash)) = f conn hash

  unfoldable pub create_tenant : Conn → Tenant → Text → Conn × Bool
  create_tenant conn tenant api_key = ran (
      query
        (set (key_by_hash (hash_api_key api_key)) (w.json.tenant_to_json tenant)
          ∷ set (key_by_id tenant.id) (hash_api_key api_key)
          ∷ set_email tenant)
        conn)

  abbrev store_at : Tenant → Conn → Text → Conn × Option Bool
  store_at tenant conn hash =
      let (conn', ok) =
        ran (query (set (key_by_hash hash) (w.json.tenant_to_json tenant) ∷ []) conn) in
      (conn', if ok then some true else none)

  -- Whether the id is known, or an error.
  unfoldable pub update_tenant : Conn → Tenant → Conn × Option Bool
  update_tenant conn tenant =
      with_hash false (store_at tenant) (get_text conn (key_by_id tenant.id))

  unfoldable pub get_tenant_id_by_email : Conn → Text → Conn × Option (Option Text)
  get_tenant_id_by_email conn email = get_text conn (key_by_email email)

  unfoldable pub get_tenant_by_id : Conn → Text → Conn × Option (Option Tenant)
  get_tenant_by_id conn id = with_hash none fetch_by_hash (get_text conn (key_by_id id))

  -- `new_key` is the random key that the code draws.
  abbrev replace_key : Conn → Text → Text → Text → Tenant → Conn × Option (Option Text)
  replace_key conn id new_key old_hash tenant =
      let (conn', ok) = ran (
        query
          (set (key_by_hash (hash_api_key new_key)) (w.json.tenant_to_json tenant)
            ∷ set (key_by_id id) (hash_api_key new_key)
            ∷ del (key_by_hash old_hash)
            ∷ [])
          conn) in
      (conn', if ok then some (some new_key) else none)

  abbrev rotate_from :
      Text → Text → Text → Conn × Option (Option Tenant) → Conn × Option (Option Text)
  rotate_from id new_key old_hash (conn, none) = (conn, none)
  rotate_from id new_key old_hash (conn, some none) = (conn, some none)
  rotate_from id new_key old_hash (conn, some (some tenant)) =
      replace_key conn id new_key old_hash tenant

  unfoldable pub rotate_api_key : Conn → Text → Text → Conn × Option (Option Text)
  rotate_api_key conn id new_key =
      with_hash none
        (λ conn' old_hash. rotate_from id new_key old_hash (fetch_by_hash conn' old_hash))
        (get_text conn (key_by_id id))

  abbrev del_email : Option Tenant → List Command
  del_email none = []
  del_email (some t) = elim t.email [ none ↦ [] | some email ↦ del (key_by_email email) ∷ [] ]

  abbrev delete_at : Text → Text → Conn × Option (Option Tenant) → Conn × Option Bool
  delete_at id hash (conn, none) = (conn, none)
  delete_at id hash (conn, some tenant) =
      let (conn', ok) =
        ran (query (del (key_by_hash hash) ∷ del (key_by_id id) ∷ del_email tenant) conn) in
      (conn', if ok then some true else none)

  unfoldable pub delete_tenant : Conn → Text → Conn × Option Bool
  delete_tenant conn id =
      with_hash false (λ conn' hash. delete_at id hash (fetch_by_hash conn' hash))
        (get_text conn (key_by_id id))

  abbrev as_texts : Conn × Option Reply → Conn × Option (List Text)
  as_texts (conn, some (Reply.texts ts)) = (conn, some ts)
  as_texts (conn, _) = (conn, none)

  abbrev as_maybe_texts : Conn × Option Reply → Conn × Option (List (Option Text))
  as_maybe_texts (conn, some (Reply.maybe_texts ts)) = (conn, some ts)
  as_maybe_texts (conn, _) = (conn, none)

  -- Those that are there and parse.
  abbrev pub parsed : List (Option Text) → List Tenant
  parsed [] = []
  parsed (raw ∷ raws) = elim (parse raw) [ none ↦ parsed raws | some t ↦ t ∷ parsed raws ]

  abbrev get_all : Conn → List Text → Conn × Option (List Tenant)
  get_all conn [] = (conn, some [])
  get_all conn (k ∷ ks) =
      let (conn', raws) = as_maybe_texts (query (mget (k ∷ ks) ∷ []) conn) in
      (conn', map_some parsed raws)

  abbrev after_keys : Conn × Option (List Text) → Conn × Option (List Tenant)
  after_keys (conn, none) = (conn, none)
  after_keys (conn, some found) = get_all conn found

  -- A GET of one key, where there is but one, is read as such a list too.
  unfoldable pub list_tenants : Conn → Conn × Option (List Tenant)
  list_tenants conn = after_keys (as_texts (query (Command.keys (codes "tenant:key:*") ∷ []) conn))
