-- ===== src/Tenant/Cache.antt =====
-- Looking up the tenant of an API key twice, and after a failure (src/tenant.rs).
use dendri_server.Common.{
  ℕ, ◌-◌, ◌≤◌, ◌≡◌, refl, true, Option, none, some, arith, Text, text_eq, text_beq_iff, unwrap_or,
}
use dendri_server.Common.Maps.{lookup-insert}
use dendri_server.Tenant.{Tenant, cache_ttl}
use dendri_server.Tenant.Access.{
  TenantCache, cache_get, cache_put, if_active, hash_api_key, fetch_by_hash, resolve_api_key,
}
use dendri_server.World.{World}

module _ (w : World) where
  -- The tenant that an API key resolves to is active.
  pub resolve_api_key-active :
      (conn : w.redis.Conn) (cache : TenantCache) (now : ℕ) (api_key : Text) (t : Tenant)
      → (resolve_api_key w conn cache now api_key).2 ≡ some t
      → t.active ≡ true
  unfolding resolve_api_key
  resolve_api_key-active conn cache now api_key t e = ground (arith, e)

  miss_lem :
      (conn : w.redis.Conn) (cache : TenantCache) (now : ℕ) (api_key : Text)
      → cache_get cache now (hash_api_key w api_key) ≡ none
      → let (conn', fetched) = fetch_by_hash w conn (hash_api_key w api_key) in
        resolve_api_key w conn cache now api_key ≡ (
          conn',
          cache_put cache now (hash_api_key w api_key) (unwrap_or fetched none),
          if_active (unwrap_or fetched none),
        )
  unfolding resolve_api_key
  miss_lem conn cache now api_key e = rw (e, resolve_api_key) refl

  hit_lem :
      (conn : w.redis.Conn) (cache : TenantCache) (now : ℕ) (api_key : Text) (value : Option Tenant)
      → cache_get cache now (hash_api_key w api_key) ≡ some value
      → resolve_api_key w conn cache now api_key ≡ (conn, cache, if_active value)
  unfolding resolve_api_key
  hit_lem conn cache now api_key value e = rw (e, resolve_api_key) refl

  stored_lem :
      (cache : TenantCache) (now later : ℕ) (hash : Text) (value : Option Tenant)
      → later - now ≤ cache_ttl
      → cache_get (cache_put cache now hash value) later hash ≡ some value
  unfolding cache_get cache_put
  stored_lem cache now later hash value soon =
      ground (arith, soon, lookup-insert hash hash (value, now) cache, text_beq_iff hash hash)

  -- An API key that was looked up while the cache had no answer for it is not looked up in Redis
  -- again within the 30 seconds after: the second lookup gives the first one's answer and leaves
  -- Redis and the cache as they are.
  resolve_api_key-again :
      (conn conn' : w.redis.Conn) (cache : TenantCache) (now later : ℕ) (api_key : Text)
      → cache_get cache now (hash_api_key w api_key) ≡ none
      → later - now ≤ cache_ttl
      → let (_, cache', tenant) = resolve_api_key w conn cache now api_key in
        resolve_api_key w conn' cache' later api_key ≡ (conn', cache', tenant)
  resolve_api_key-again conn conn' cache now later api_key miss soon =
      rw (miss_lem conn cache now api_key miss) (
        hit_lem conn' _ later api_key _
          (stored_lem cache now later (hash_api_key w api_key) _ soon))
