-- ===== src/Connect/Admission.antt =====
-- Who gets a WebSocket connection (src/handlers/ws.rs).
use dendri_server.Common.{
  ℕ, ◌/◌, ◌≡◌, refl, ap, ◌∙◌, inl, inr, true, false, not, ◌||◌, Option, none, some, [], Text, arith,
  text_beq, text_eq, text_beq_iff, unwrap_or, Option-cases, Bool-cases, subst, is_some,
}
use dendri_server.Common.Maps.{Map, lookup}
use dendri_server.Connect.{
  WsQuery, Outcome, rejected, connected, enforce_jwt, jwt_secret_of, tid_allows,
}
use dendri_server.Connect.Upgrade.{
  Identity, identity, resolve_tenant, existing_token, enter, authorize, handle_socket,
}
use dendri_server.Jwt.{effective_jwt_secret}
use dendri_server.State.{AppState, ClientMeta}
use dendri_server.Tenant.{Tenant}
use dendri_server.Tenant.Access.{resolve_api_key}
use dendri_server.Tenant.Cache.{resolve_api_key-active}
use dendri_server.Realm
use dendri_server.Validation.{constant_time_str_eq, is_valid_identifier}
use dendri_server.World.{World, Clock}

-- What holds of a connection, if there is one.
abbrev Passes : Type 0 → Outcome → Type 0
Passes A (rejected frame) = Unit
Passes A (connected ch) = A

holds : {A : Type 0} → A → (o : Outcome) → Passes A o
holds a (rejected frame) = tt
holds a (connected ch) = a

passes : {A B : Type 0} → (A → B) → (o : Outcome) → Passes A o → Passes B o
passes f (rejected frame) p = tt
passes f (connected ch) a = f a

-- The token of a connection that passes verification under the secret.
pub record Verified (w : World) (now : Clock) (secret : Text) (jwt : Option Text)
    (tenant : Option Tenant) : Type 0 where
  pub claims : w.json.Value
  pub decoded : w.decode_jwt secret (unwrap_or jwt []) (now.wall / 1000) ≡ some claims
  pub tid : tid_allows w.json claims tenant ≡ true

-- The token is that of the client with the id, if there is one in memory, or else that which Redis
-- has for the id, if it has one.
pub record Owns (w : World) (clients : Map Text ClientMeta) (redis : w.redis.Conn) (id token : Text)
    : Type 0 where
  pub in_memory : (meta : ClientMeta) → lookup id clients ≡ some meta → token ≡ meta.token
  pub in_redis :
      (stored : Text)
      → lookup id clients ≡ none
      → (Realm.get_client_token w.redis redis id).1 ≡ some (some stored)
      → token ≡ stored

module _ {w : World} where
  -- The tenant of the connection.
  pub Resolved : AppState w → Clock → Option Text → Option Tenant → Type 0
  Resolved s now none tenant = (s.config.require_api_key ≡ false) × (tenant ≡ none)
  Resolved s now (some api_key) tenant =
      (is_some tenant ≡ true)
      × ((resolve_api_key w s.redis s.tenant_cache now.instant api_key).2 ≡ tenant)
      × ((t : Tenant) → tenant ≡ some t → t.active ≡ true)

  pub resolve_tenant-Resolved :
      (s : AppState w) (now : Clock) (api_key : Option Text) (tenant : Option Tenant)
      → (resolve_tenant s now api_key).1 ≡ some tenant
      → Resolved s now api_key tenant
  unfolding resolve_tenant Resolved
  resolve_tenant-Resolved s now none tenant e = ground (arith, e)
  resolve_tenant-Resolved s now (some k) tenant e =
      let found : (resolve_api_key w s.redis s.tenant_cache now.instant k).2 ≡ tenant =
        ground (arith, e) in
      (
        ground (arith, e),
        found,
        λ t f. resolve_api_key-active w s.redis s.tenant_cache now.instant k t (found ∙ f),
      )

  pub record Authentic (s : AppState w) (now : Clock) (q : WsQuery) : Type 0 where
    pub who : Identity
    pub given : identity q ≡ some who
    pub valid_id : is_valid_identifier who.id ≡ true
    pub valid_token : is_valid_identifier who.token ≡ true
    pub key : constant_time_str_eq w.ct_eq who.key s.config.key ≡ true
    pub tenant : Option Tenant
    pub resolved : Resolved s now q.api_key tenant
    pub jwt :
        (secret : Text)
        → effective_jwt_secret (jwt_secret_of tenant) s.config.jwt_secret ≡ some secret
        → Verified w now secret q.jwt tenant
    pub token : Owns w s.clients (resolve_tenant s now q.api_key).0.redis who.id who.token

  pub enforce_jwt-Verified :
      (s : AppState w) (now : Clock) (tenant : Option Tenant) (jwt : Option Text) (id secret : Text)
      → (enforce_jwt s now tenant jwt id).1 ≡ true
      → effective_jwt_secret (jwt_secret_of tenant) s.config.jwt_secret ≡ some secret
      → Verified w now secret jwt tenant
  unfolding enforce_jwt
  enforce_jwt-Verified s now tenant jwt id secret ok e =
      elim (Option-cases (w.decode_jwt secret (unwrap_or jwt []) (now.wall / 1000))) [
        | inl d ↦ ground (arith, ok, e, d)
        | inr (claims, d) ↦ record { claims = claims; decoded = d; tid = ground (arith, ok, e, d) }
      ]

  resolve_tenant-keeps :
      (s : AppState w) (now : Clock) (api_key : Option Text)
      → ((resolve_tenant s now api_key).0.config ≡ s.config)
        × ((resolve_tenant s now api_key).0.clients ≡ s.clients)
  unfolding resolve_tenant
  resolve_tenant-keeps s now none = (refl, refl)
  resolve_tenant-keeps s now (some k) = (refl, refl)

  enforce_jwt-keeps :
      (s : AppState w) (now : Clock) (tenant : Option Tenant) (jwt : Option Text) (id : Text)
      → ((enforce_jwt s now tenant jwt id).0.clients ≡ s.clients)
        × ((enforce_jwt s now tenant jwt id).0.redis ≡ s.redis)
  unfolding enforce_jwt
  enforce_jwt-keeps s now tenant jwt id = (ground arith, ground arith)

  enter-token :
      (s : AppState w) (now : Clock) (id token : Text) (tenant : Option Tenant)
      (last_seq : Option ℕ)
      → Passes (Owns w s.clients s.redis id token) (enter s now id token tenant last_seq).1
  unfolding enter existing_token
  enter-token s now id token tenant last_seq = elim (Option-cases (lookup id s.clients)) [
    | inl e ↦
        rw (e, enter)
          (elim (Option-cases (unwrap_or (Realm.get_client_token w.redis s.redis id).1 none)) [
            | inl g ↦ rw g (
                holds {A = Owns w s.clients s.redis id token}
                  (record {
                    in_memory = λ m f. absurd (ground (arith, e, f));
                    in_redis = λ stored f k. absurd (ground (arith, g, k));
                  })
                  _)
            | inr (stored, g) ↦ rw g (elim (Bool-cases (text_beq token stored)) [
              | inl same ↦ rw same (record {
                in_memory = λ m f. absurd (ground (arith, e, f));
                in_redis = λ stored' f k. ground (arith, same, g, k, text_beq_iff token stored);
              })
              | inr other ↦ rw other tt
            ])
          ])
    | inr (meta, e) ↦
        rw (e, enter)
          (elim (Bool-cases (text_beq token meta.token)) [
            | inl same ↦ rw same (record {
              in_memory = λ m f. ground (arith, same, e, f, text_beq_iff token meta.token);
              in_redis = λ stored f g. absurd (ground (arith, e, f));
            })
            | inr other ↦ rw other tt
          ])
  ]

  same_owner :
      {clients clients' : Map Text ClientMeta} {redis redis' : w.redis.Conn} {id token : Text}
      → clients ≡ clients'
      → redis ≡ redis'
      → Owns w clients redis id token
      → Owns w clients' redis' id token
  same_owner {clients = clients} {redis' = redis'} {id = id} {token = token} e f owns =
      subst (λ c. Owns w c redis' id token) e (subst (λ r. Owns w clients r id token) f owns)

  authorize-Authentic :
      (s : AppState w) (now : Clock) (q : WsQuery) (who : Identity)
      → identity q ≡ some who
      → is_valid_identifier who.id ≡ true
      → is_valid_identifier who.token ≡ true
      → constant_time_str_eq w.ct_eq who.key s.config.key ≡ true
      → Passes (Authentic s now q) (authorize s now q who).1
  unfolding authorize
  authorize-Authentic s now q who given valid_id valid_token key =
      let kept = resolve_tenant-keeps s now q.api_key in
      let s1 = (resolve_tenant s now q.api_key).0 in
      elim (Option-cases (resolve_tenant s now q.api_key).1) [
        | inl e ↦ rw (e, authorize) tt
        | inr (tenant, e) ↦
            rw (e, authorize)
              (elim (Bool-cases (enforce_jwt s1 now tenant q.jwt who.id).1) [
                | inr bad ↦ rw bad tt
                | inl ok ↦ rw ok (
                    passes
                      {A = Owns w (enforce_jwt s1 now tenant q.jwt who.id).0.clients
                        (enforce_jwt s1 now tenant q.jwt who.id).0.redis who.id who.token}
                      {B = Authentic s now q}
                      (λ owns. record {
                        who = who;
                        given = given;
                        valid_id = valid_id;
                        valid_token = valid_token;
                        key = key;
                        tenant = tenant;
                        resolved = resolve_tenant-Resolved s now q.api_key tenant e;
                        jwt = λ secret f.
                            enforce_jwt-Verified s1 now tenant q.jwt who.id secret ok (
                              ap (λ c. effective_jwt_secret (jwt_secret_of tenant) c.jwt_secret)
                                kept.0
                              ∙ f);
                        token =
                            same_owner ((enforce_jwt-keeps s1 now tenant q.jwt who.id).0 ∙ kept.1)
                              (enforce_jwt-keeps s1 now tenant q.jwt who.id).1 owns;
                      })
                      _
                      (enter-token (enforce_jwt s1 now tenant q.jwt who.id).0 now who.id who.token
                        tenant q.last_seq))
              ])
      ]

  handle_socket-Passes :
      (s : AppState w) (now : Clock) (q : WsQuery)
      → Passes (Authentic s now q) (handle_socket s now q).1
  unfolding handle_socket
  handle_socket-Passes s now q = elim (Option-cases (identity q)) [
    | inl e ↦ rw (e, handle_socket) tt
    | inr (who, e) ↦
        rw (e, handle_socket)
          (elim (Bool-cases
            (not (is_valid_identifier who.id) || not (is_valid_identifier who.token))) [
              | inl bad ↦ rw bad tt
              | inr ok ↦
                  rw ok
                    (elim (Bool-cases (not (constant_time_str_eq w.ct_eq who.key s.config.key))) [
                      | inl bad ↦ rw bad tt
                      | inr same ↦ rw same (
                          authorize-Authentic s now q who e (ground (arith, ok))
                            (ground (arith, ok)) (ground (arith, same)))
                    ])
            ])
  ]

  -- A socket that gets a connection gave a valid id, a valid token and the key of the server. If it
  -- gave an API key, that resolved to an active tenant; if it gave none, none is required. If the
  -- tenant or the server has a JWT secret, its JWT was decoded under it, with a `tid` claim, if any,
  -- of the tenant. If the id is that of a client in memory, the token is that client's; if not, and
  -- Redis, asked after the tenant, has a token for the id, it is that one.
  pub handle_socket-Authentic :
      (s : AppState w) (now : Clock) (q : WsQuery) (ch : ℕ)
      → (handle_socket s now q).1 ≡ connected ch
      → Authentic s now q
  handle_socket-Authentic s now q ch e =
      subst (Passes (Authentic s now q)) e (handle_socket-Passes s now q)
