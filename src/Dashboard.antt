-- ===== src/Dashboard.antt =====
-- src/handlers/customer.rs: sessions of the dashboard, and its routes on the signed-in tenant.
pub mod Email
pub mod Links
pub mod Sessions
use dendri_server.Common.{
  ℕ, ◌+◌, ◌*◌, ◌/◌, Bool, true, false, Option, none, some, List, [], ◌∷◌, Text, codes, nat_beq,
  text_beq, if◌then◌else◌,
}
use dendri_server.State.{AppState}
use dendri_server.Tenant.{Tenant}
use dendri_server.Tenant.Access.{resolve_api_key, get_tenant_by_id, rotate_api_key, invalidate_all}
use dendri_server.World.{World, Clock}

abbrev pub session_ttl_secs : ℕ
session_ttl_secs = 7 * 24 * 60 * 60

abbrev pub magic_ttl_secs : ℕ
magic_ttl_secs = 15 * 60

pub record SessionClaims : Type 0 where
  pub sub : Text
  pub purpose : Text
  pub exp : ℕ

-- `jsonwebtoken` with HS256 and a mandatory `exp`, by secret; decoding reads the time in seconds.
pub record Tokens : Type 0 where
  pub encode : Text → SessionClaims → Option Text
  pub decode : Text → Text → ℕ → Option SessionClaims

pub data ApiStatus : Type 0 where
  ok created no_content unauthorized not_found unprocessable_entity internal_server_error
        service_unavailable :
      ApiStatus

-- `tenant_view`
pub record TenantInfo : Type 0 where
  pub id : Text
  pub name : Text
  pub email : Option Text
  pub active : Bool
  pub max_rooms : ℕ
  pub max_peers : ℕ

abbrev pub tenant_view : Tenant → TenantInfo
tenant_view t = record {
  id = t.id;
  name = t.name;
  email = t.email;
  active = t.active;
  max_rooms = t.max_rooms;
  max_peers = t.max_peers;
}

-- `{"error":…}` under a code, or what a route answers with 200.
pub data ApiResponse : Type 0 where
  failed : ApiStatus → Text → ApiResponse
  signed_in : Text → TenantInfo → ApiResponse
  account : TenantInfo → ApiResponse
  new_api_key : Text → ApiResponse

abbrev pub now_secs : Clock → ℕ
now_secs now = now.wall / 1000

abbrev pub sign_token : Tokens → Clock → Text → Text → Text → ℕ → Option Text
sign_token tok now secret tenant_id purpose ttl =
    tok.encode secret (record { sub = tenant_id; purpose = purpose; exp = now_secs now + ttl })

abbrev pub decode_token : Tokens → Clock → Text → Text → Option SessionClaims
decode_token tok now secret token = tok.decode secret token (now_secs now)

abbrev pub sign_session : Tokens → Clock → Text → Text → Option Text
sign_session tok now secret tenant_id =
    sign_token tok now secret tenant_id (codes "session") session_ttl_secs

-- `strip_prefix`
abbrev pub strip_prefix : Text → Text → Option Text
strip_prefix [] t = some t
strip_prefix (p ∷ ps) [] = none
strip_prefix (p ∷ ps) (c ∷ cs) = let rest = strip_prefix ps cs in if nat_beq p c then rest else none

-- The token of an `Authorization` header.
unfoldable pub bearer : Option Text → Option Text
bearer none = none
bearer (some header) = strip_prefix (codes "Bearer ") header

abbrev pub subject_of : Text → Option SessionClaims → Option Text
subject_of purpose none = none
subject_of purpose (some claims) = if text_beq claims.purpose purpose then some claims.sub else none

abbrev pub issue : Option Text → Tenant → ApiResponse
issue none t = failed internal_server_error (codes "could not issue session")
issue (some token) t = signed_in token (tenant_view t)

module _ {w : World} (tok : Tokens) where
  abbrev pub signing_secret : AppState w → Option Text
  signing_secret s = s.config.admin_token

  unfoldable pub session_tenant_id : AppState w → Clock → Option Text → Option Text
  unfolding bearer
  session_tenant_id s now header = elim (signing_secret s) [
    | none ↦ none
    | some secret ↦ elim (bearer header) [
      | none ↦ none
      | some token ↦ subject_of (codes "session") (decode_token tok now secret token)
    ]
  ]

  unfoldable pub login : AppState w → Clock → Text → AppState w × ApiResponse
  login s now api_key = elim (signing_secret s) [
    | none ↦ (s, failed service_unavailable (codes "dashboard not configured"))
    | some secret ↦
        let (redis, cache, tenant) = resolve_api_key w s.redis s.tenant_cache now.instant api_key in
        (
          record s { redis = redis; tenant_cache = cache },
          elim tenant [
            | none ↦ failed unauthorized (codes "invalid api key")
            | some t ↦ issue (sign_session tok now secret t.id) t
          ],
        )
  ]

  unfoldable pub exchange_magic : AppState w → Clock → Text → AppState w × ApiResponse
  exchange_magic s now token = elim (signing_secret s) [
    | none ↦ (s, failed service_unavailable (codes "dashboard not configured"))
    | some secret ↦ elim (subject_of (codes "magic") (decode_token tok now secret token)) [
      | none ↦ (s, failed unauthorized (codes "invalid or expired link"))
      | some sub ↦
          let (redis, found) = get_tenant_by_id w s.redis sub in
          (
            record s { redis = redis },
            elim found [
              | none ↦ failed not_found (codes "account not found")
              | some none ↦ failed not_found (codes "account not found")
              | some (some t) ↦ issue (sign_session tok now secret t.id) t
            ],
          )
    ]
  ]

  unfoldable pub me : AppState w → Clock → Option Text → AppState w × ApiResponse
  unfolding session_tenant_id
  me s now header = elim (session_tenant_id s now header) [
    | none ↦ (s, failed unauthorized (codes "unauthorized"))
    | some id ↦
        let (redis, found) = get_tenant_by_id w s.redis id in
        (
          record s { redis = redis },
          elim found [
            | none ↦ failed internal_server_error (codes "storage error")
            | some none ↦ failed not_found (codes "tenant not found")
            | some (some t) ↦ account (tenant_view t)
          ],
        )
  ]

  -- `new_key` is the random key that the code draws.
  unfoldable pub rotate_key : AppState w → Clock → Option Text → Text → AppState w × ApiResponse
  unfolding session_tenant_id
  rotate_key s now header new_key = elim (session_tenant_id s now header) [
    | none ↦ (s, failed unauthorized (codes "unauthorized"))
    | some id ↦
        let (redis, rotated) = rotate_api_key w s.redis id new_key in
        let s' = record s { redis = redis } in
        elim rotated [
          | none ↦ (s', failed internal_server_error (codes "storage error"))
          | some none ↦ (s', failed not_found (codes "tenant not found"))
          | some (some key) ↦
              (record s' { tenant_cache = invalidate_all s'.tenant_cache }, new_api_key key)
        ]
  ]
