-- ===== src/Connect/Claims.antt =====
-- Whose claims a refused connection leaves behind (src/handlers/mod.rs and ws.rs).
use dendri_server.Common.{
  ℕ, ◌/◌, ◌≡◌, refl, ap, ◌∙◌, ◌≢◌, true, false, Option, none, some, [], Text, arith, text_beq,
  text_eq, text_beq_iff, unwrap_or,
}
use dendri_server.Common.Maps.{lookup, insert}
use dendri_server.Connect.{WsQuery, rejected, enforce_jwt, jwt_secret_of, tid_allows}
use dendri_server.Connect.Upgrade.{
  Identity, id_taken, resolve_tenant, existing_token, enter, authorize,
}
use dendri_server.Jwt.{effective_jwt_secret}
use dendri_server.State.{AppState, ClientMeta}
use dendri_server.Tenant.{Tenant}
use dendri_server.World.{World, Clock}

module _ {w : World} where
  enforce_jwt_lem :
      (s : AppState w) (now : Clock) (tenant : Option Tenant) (jwt : Option Text) (id secret : Text)
      → (claims : w.json.Value)
      → effective_jwt_secret (jwt_secret_of tenant) s.config.jwt_secret ≡ some secret
      → w.decode_jwt secret (unwrap_or jwt []) (now.wall / 1000) ≡ some claims
      → tid_allows w.json claims tenant ≡ true
      → enforce_jwt s now tenant jwt id
        ≡ (record s { client_claims = insert id claims s.client_claims }, true)
  unfolding enforce_jwt
  enforce_jwt_lem s now tenant jwt id secret claims a b c = rw (a, enforce_jwt) (rw b (rw c refl))

  enter_taken :
      (s : AppState w) (now : Clock) (id token : Text) (tenant : Option Tenant)
      (last_seq : Option ℕ)
      → (meta : ClientMeta) → lookup id s.clients ≡ some meta
      → text_beq token meta.token ≡ false
      → enter s now id token tenant last_seq ≡ (s, rejected (w.json.message_to_json id_taken))
  unfolding enter existing_token
  enter_taken s now id token tenant last_seq meta e f =
      rw (e, enter) (rw f (rw (e, existing_token) refl))

  stored :
      (s : AppState w) (now : Clock) (api_key : Option Text)
      → ((resolve_tenant s now api_key).0.config ≡ s.config)
        × ((resolve_tenant s now api_key).0.clients ≡ s.clients)
        × ((resolve_tenant s now api_key).0.client_claims ≡ s.client_claims)
  unfolding resolve_tenant
  stored s now none = (refl, refl, refl)
  stored s now (some k) = (refl, refl, refl)

  -- A caller whose tenant, if any, is resolved, whose JWT passes under the secret that is in
  -- effect, and that gives the id but not the token of a client in memory, is refused, and yet the
  -- claims in its JWT replace that client's claims.
  pub authorize-client_claims :
      (s : AppState w) (now : Clock) (q : WsQuery) (who : Identity)
      → (tenant : Option Tenant) (secret : Text) (claims : w.json.Value) (meta : ClientMeta)
      → (resolve_tenant s now q.api_key).1 ≡ some tenant
      → effective_jwt_secret (jwt_secret_of tenant) s.config.jwt_secret ≡ some secret
      → w.decode_jwt secret (unwrap_or q.jwt []) (now.wall / 1000) ≡ some claims
      → tid_allows w.json claims tenant ≡ true
      → lookup who.id s.clients ≡ some meta
      → who.token ≢ meta.token
      → ((authorize s now q who).1 ≡ rejected (w.json.message_to_json id_taken))
        × ((authorize s now q who).0.client_claims ≡ insert who.id claims s.client_claims)
  unfolding authorize
  authorize-client_claims s now q who tenant secret claims meta found has decoded tid there other =
      let kept = stored s now q.api_key in
      let s1 = (resolve_tenant s now q.api_key).0 in
      let s2 : AppState w = record s1 { client_claims = insert who.id claims s1.client_claims } in
      let done =
        enforce_jwt_lem s1 now tenant q.jwt who.id secret claims
          (ap (λ c. effective_jwt_secret (jwt_secret_of tenant) c.jwt_secret) kept.0 ∙ has) decoded
          tid in
      let taken =
        enter_taken s2 now who.id who.token tenant q.last_seq meta
          (ap (lookup who.id) kept.1 ∙ there)
          (ground (arith, other, text_beq_iff who.token meta.token)) in
      rw (found, authorize) (rw done (rw taken (refl, ap (insert who.id claims) kept.2)))
