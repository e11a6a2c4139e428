-- ===== src/Admin.antt =====
-- src/handlers/admin.rs: the administration of tenants.
pub mod Guard
use dendri_server.Common.{
  ℕ, Bool, true, false, not, ◌||◌, Option, none, some, List, [], ◌∷◌, Text, codes, is_some,
  map_some, map, unwrap_or, if◌then◌else◌,
}
use dendri_server.Dashboard.{
  ApiStatus, ok, created, no_content, unauthorized, not_found, unprocessable_entity,
  internal_server_error, bearer,
}
use dendri_server.State.{AppState}
use dendri_server.Common.Chars.{trim, is_nil}
use dendri_server.Tenant.{Tenant}
use dendri_server.Tenant.Access.{
  create_tenant, delete_tenant, list_tenants, get_tenant_by_id, update_tenant, invalidate_all,
}
use dendri_server.Validation.{constant_time_str_eq}
use dendri_server.World.{World}

pub record CreateTenantRequest : Type 0 where
  pub name : Text
  pub origins : List Text
  pub max_rooms : ℕ
  pub max_peers : ℕ
  pub email : Option Text
  pub jwt_secret : Option Text

-- What is shown of a tenant: whether it has a secret, and not which.
pub record TenantView : Type 0 where
  pub id : Text
  pub name : Text
  pub origins : List Text
  pub active : Bool
  pub max_rooms : ℕ
  pub max_peers : ℕ
  pub email : Option Text
  pub has_jwt_secret : Bool

abbrev pub view_of : Tenant → TenantView
view_of t = record {
  id = t.id;
  name = t.name;
  origins = t.origins;
  active = t.active;
  max_rooms = t.max_rooms;
  max_peers = t.max_peers;
  email = t.email;
  has_jwt_secret = is_some t.jwt_secret;
}

-- The body of an answer.
pub data AdminBody : Type 0 where
  error : Text → AdminBody
  tenant_and_key : Tenant → Text → AdminBody
  tenants : List TenantView → AdminBody
  jwt_secret : Text → AdminBody
  empty : AdminBody

pub record AdminResponse : Type 0 where
  pub status : ApiStatus
  pub body : AdminBody

abbrev pub fail : ApiStatus → Text → AdminResponse
fail status text = record { status = status; body = error text }

abbrev pub unauthorized_response : AdminResponse
unauthorized_response = fail unauthorized (codes "unauthorized")

abbrev pub storage_error : AdminResponse
storage_error = fail internal_server_error (codes "storage error")

abbrev pub unknown_tenant : AdminResponse
unknown_tenant = fail not_found (codes "unknown tenant")

-- The id and the key are the random ones that the code draws.
abbrev pub new_tenant : Text → Text → CreateTenantRequest → Tenant
new_tenant id name req = record {
  id = id;
  name = name;
  origins = req.origins;
  active = true;
  max_rooms = req.max_rooms;
  max_peers = req.max_peers;
  email = req.email;
  jwt_secret = req.jwt_secret;
}

module _ {w : World} where
  -- An empty or absent token of the server refuses all.
  unfoldable pub reject_unauthorized : AppState w → Option Text → Option AdminResponse
  unfolding bearer
  reject_unauthorized s header =
      let expected = unwrap_or s.config.admin_token [] in
      let provided = unwrap_or (bearer header) [] in
      if is_nil expected || not (constant_time_str_eq w.ct_eq provided expected)
      then some unauthorized_response
      else none

  abbrev pub invalidated : AppState w → AppState w
  invalidated s = record s { tenant_cache = invalidate_all s.tenant_cache }

  unfoldable pub create :
      AppState w → Option Text → Text → Text → CreateTenantRequest → AppState w × AdminResponse
  unfolding reject_unauthorized
  create s header id api_key req = elim (reject_unauthorized s header) [
    | some response ↦ (s, response)
    | none ↦
        if is_nil (trim req.name)
        then (s, fail unprocessable_entity (codes "name is required"))
        else (let tenant = new_tenant id (trim req.name) req in
            let (redis, stored) = create_tenant w s.redis tenant api_key in
            let s' = record s { redis = redis } in
            if stored
            then (invalidated s', record { status = created; body = tenant_and_key tenant api_key })
            else (s', storage_error))
  ]

  unfoldable pub list : AppState w → Option Text → AppState w × AdminResponse
  unfolding reject_unauthorized
  list s header = elim (reject_unauthorized s header) [
    | some response ↦ (s, response)
    | none ↦
        let (redis, found) = list_tenants w s.redis in
        (
          record s { redis = redis },
          elim found [
            | none ↦ storage_error
            | some ts ↦ record { status = ok; body = tenants (map view_of ts) }
          ],
        )
  ]

  unfoldable pub remove_tenant : AppState w → Option Text → Text → AppState w × AdminResponse
  unfolding reject_unauthorized
  remove_tenant s header id = elim (reject_unauthorized s header) [
    | some response ↦ (s, response)
    | none ↦
        let (redis, deleted) = delete_tenant w s.redis id in
        let s' = record s { redis = redis } in
        elim deleted [
          | none ↦ (s', storage_error)
          | some known ↦
              if known
              then (invalidated s', record { status = no_content; body = empty })
              else (s', unknown_tenant)
        ]
  ]

  -- The tenant is stored with a new secret, which is answered.
  unfoldable pub store_secret : AppState w → Tenant → Text → AppState w × AdminResponse
  store_secret s tenant new_secret =
      let (redis, updated) =
        update_tenant w s.redis (record tenant { jwt_secret = some new_secret }) in
      let s' = record s { redis = redis } in
      elim updated [
        | none ↦ (s', storage_error)
        | some known ↦
            if known
            then (invalidated s', record { status = ok; body = AdminBody.jwt_secret new_secret })
            else (s', unknown_tenant)
      ]

  -- `new_secret` is the random one that the code draws.
  unfoldable pub rotate_jwt_secret :
      AppState w → Option Text → Text → Text → AppState w × AdminResponse
  unfolding reject_unauthorized store_secret
  rotate_jwt_secret s header id new_secret = elim (reject_unauthorized s header) [
    | some response ↦ (s, response)
    | none ↦
        let (redis, found) = get_tenant_by_id w s.redis id in
        let s' = record s { redis = redis } in
        elim found [
          | none ↦ (s', storage_error)
          | some none ↦ (s', unknown_tenant)
          | some (some tenant) ↦ store_secret s' tenant new_secret
        ]
  ]
