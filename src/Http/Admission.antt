-- ===== src/Http/Admission.antt =====
-- Who is let in over HTTP, and what a refusal leaves behind (src/handlers/http.rs).
use dendri_server.Common.{
  ℕ, ◌/◌, ◌≤◌, ◌<◌, leb, ◌≡◌, ◌≢◌, ◌⊎◌, refl, ap, ◌∙◌, sym, inl, inr, true, false, Option, none,
  some, [], Text, arith, text_beq, text_eq, text_beq_iff, unwrap_or, Option-cases, Bool-cases,
}
use dendri_server.Common.Maps.{Map, lookup, insert}
use dendri_server.Config.{Config}
use dendri_server.Connect.{enforce_jwt, jwt_secret_of, tid_allows}
use dendri_server.Connect.Admission.{
  Verified, Resolved, resolve_tenant-Resolved, enforce_jwt-Verified,
}
use dendri_server.Connect.Upgrade.{resolve_tenant}
use dendri_server.Http.{
  HttpQuery, StatusCode, ok, bad_request, unauthorized, forbidden, conflict, too_many_requests,
  service_unavailable, Access, refused, granted, Entry, rejected, fresh, known, key_matches,
  authenticate, claim_id, enter_http,
}
use dendri_server.Jwt.{effective_jwt_secret}
use dendri_server.Slots.{usize_mod, fetch_add, fetch_sub, try_reserve_connection_slot}
use dendri_server.State.{AppState, ClientMeta}
use dendri_server.Tenant.{Tenant}
use dendri_server.World.{World, Clock}

owned :
    (o : Option ClientMeta) (meta : ClientMeta) (token : Text)
    → o ≡ some meta
    → text_beq meta.token token ≡ true
    → (found : ClientMeta) → o ≡ some found
    → token ≡ found.token
owned o meta token e same found f = ground (arith, e, f, same, text_beq_iff meta.token token)

differs : (a b : Text) → text_beq a b ≡ false → b ≢ a
differs a b h e = ground (arith, h, e, text_beq_iff a b)

fetch_sub-fetch_add : (n : ℕ) → n < usize_mod → fetch_sub (fetch_add n) ≡ n
fetch_sub-fetch_add n h = omega (arith, h)

full_up : (limit limit' n n' : ℕ) → limit ≡ limit' → n ≡ n' → leb limit n ≡ true → limit' ≤ n'
full_up limit limit' n n' e f h = ground (arith, e, f, h)

spare : (limit limit' n n' : ℕ) → limit ≡ limit' → n ≡ n' → leb limit n ≡ false → n' < limit'
spare limit limit' n n' e f h = ground (arith, e, f, h)

module _ {w : World} where
  -- What it must have given.
  pub record IsEntitled (s : AppState w) (now : Clock) (q : HttpQuery) : Type 0 where
    pub key : key_matches w.ct_eq q.key s.config.key ≡ true
    pub tenant : Option Tenant
    pub resolved : Resolved s now q.api_key tenant
    pub jwt :
        (secret : Text)
        → effective_jwt_secret (jwt_secret_of tenant) s.config.jwt_secret ≡ some secret
        → Verified w now secret q.jwt tenant
    pub token : (meta : ClientMeta) → lookup q.id s.clients ≡ some meta → q.token ≡ meta.token
    pub room : lookup q.id s.clients ≡ none → s.active_connections < s.config.concurrent_limit

  -- All but the Redis connection, the cache of tenants and the claims.
  pub record IsUntouched (s t : AppState w) : Type 0 where
    pub untouched : t ≡ record s {
      redis = t.redis;
      tenant_cache = t.tenant_cache;
      client_claims = t.client_claims;
    }

  -- Why a request is refused with a code.
  unfoldable pub Reason : AppState w → Clock → HttpQuery → StatusCode → Type 0
  Reason s now q unauthorized =
      (key_matches w.ct_eq q.key s.config.key ≡ false) ⊎ ((resolve_tenant s now q.api_key).1 ≡ none)
  Reason s now q forbidden =
      (tenant : Option Tenant) × ((resolve_tenant s now q.api_key).1 ≡ some tenant)
      × ((enforce_jwt (resolve_tenant s now q.api_key).0 now tenant q.jwt q.id).1 ≡ false)
  Reason s now q conflict =
      (meta : ClientMeta) × (lookup q.id s.clients ≡ some meta) × (q.token ≢ meta.token)
  Reason s now q service_unavailable =
      (lookup q.id s.clients ≡ none) × (s.config.concurrent_limit ≤ s.active_connections)
  Reason s now q ok = ⊥
  Reason s now q bad_request = ⊥
  Reason s now q too_many_requests = ⊥

  -- What the checks come to in each case.
  unfoldable pub Checked : AppState w → Clock → HttpQuery → AppState w × Entry → Type 0
  Checked s now q (t, rejected a) = IsUntouched s t × Reason s now q a.status
  Checked s now q (t, fresh tenant) = IsEntitled s now q
  Checked s now q (t, known tenant) = IsEntitled s now q

  Allowed : AppState w → Clock → HttpQuery → AppState w × Access → Type 0
  Allowed s now q (t, refused a) = IsUntouched s t × Reason s now q a.status
  Allowed s now q (t, granted tenant) =
      IsUntouched s t
      × (key_matches w.ct_eq q.key s.config.key ≡ true)
      × Resolved s now q.api_key tenant
      × ((secret : Text)
          → effective_jwt_secret (jwt_secret_of tenant) s.config.jwt_secret ≡ some secret
          → Verified w now secret q.jwt tenant)

  resolve_tenant-IsUntouched :
      (s : AppState w) (now : Clock) (api_key : Option Text)
      → IsUntouched s (resolve_tenant s now api_key).0
  unfolding resolve_tenant
  resolve_tenant-IsUntouched s now none = record { untouched = refl }
  resolve_tenant-IsUntouched s now (some k) = record { untouched = refl }

  with_claims :
      (s t : AppState w) (claims : Map Text w.json.Value)
      → IsUntouched s t
      → IsUntouched s (record t { client_claims = claims })
  with_claims s t claims u = record {
    untouched = ap (λ (t : AppState w). record t { client_claims = claims }) u.untouched;
  }

  with_count :
      (s t : AppState w) (count : ℕ)
      → IsUntouched s t
      → count ≡ t.active_connections
      → IsUntouched s (record t { active_connections = count })
  with_count s t count u e = record {
    untouched = ap (λ (n : ℕ). record t { active_connections = n }) e ∙ u.untouched;
  }

  enforce_jwt-IsUntouched :
      (s t : AppState w) (now : Clock) (tenant : Option Tenant) (jwt : Option Text) (id : Text)
      → IsUntouched s t
      → IsUntouched s (enforce_jwt t now tenant jwt id).0
  unfolding enforce_jwt
  enforce_jwt-IsUntouched s t now tenant jwt id u =
      elim (Option-cases (effective_jwt_secret (jwt_secret_of tenant) t.config.jwt_secret)) [
        | inl e ↦ rw (e, enforce_jwt) u
        | inr (secret, e) ↦
            let decoded = w.decode_jwt secret (unwrap_or jwt []) (now.wall / 1000) in
            rw (e, enforce_jwt)
              (elim (Option-cases decoded) [
                | inl d ↦ rw d u
                | inr (claims, d) ↦ rw d (elim (Bool-cases (tid_allows w.json claims tenant)) [
                  | inl good ↦ rw good (with_claims s t (insert id claims t.client_claims) u)
                  | inr bad ↦ rw bad u
                ])
              ])
      ]

  authenticate-Allowed :
      (s : AppState w) (now : Clock) (q : HttpQuery) → Allowed s now q (authenticate s now q)
  unfolding authenticate Allowed Reason
  authenticate-Allowed s now q =
      let s1 = (resolve_tenant s now q.api_key).0 in
      let u1 = resolve_tenant-IsUntouched s now q.api_key in
      elim (Bool-cases (key_matches w.ct_eq q.key s.config.key)) [
        | inr bad ↦ rw (bad, authenticate) (record { untouched = refl }, inl bad)
        | inl key ↦
            rw (key, authenticate)
              (elim (Option-cases (resolve_tenant s now q.api_key).1) [
                | inl e ↦ rw e (u1, inr e)
                | inr (tenant, e) ↦
                    let u2 = enforce_jwt-IsUntouched s s1 now tenant q.jwt q.id u1 in
                    rw e (elim (Bool-cases (enforce_jwt s1 now tenant q.jwt q.id).1) [
                      | inr bad ↦ rw bad (u2, (tenant, e, bad))
                      | inl fine ↦ rw fine (
                        u2,
                        key,
                        resolve_tenant-Resolved s now q.api_key tenant e,
                        λ secret f. enforce_jwt-Verified s1 now tenant q.jwt q.id secret fine (
                            ap
                              (λ (t : AppState w).
                                effective_jwt_secret (jwt_secret_of tenant) t.config.jwt_secret)
                              u1.untouched
                            ∙ f),
                      )
                    ])
              ])
      ]

  entitled :
      (s t : AppState w) (now : Clock) (q : HttpQuery) (tenant : Option Tenant)
      → Allowed s now q (t, granted tenant)
      → ((meta : ClientMeta) → lookup q.id s.clients ≡ some meta → q.token ≡ meta.token)
      → (lookup q.id s.clients ≡ none → s.active_connections < s.config.concurrent_limit)
      → IsEntitled s now q
  unfolding Allowed
  entitled s t now q tenant (u, key, resolved, jwt) token room = record {
    key = key;
    tenant = tenant;
    resolved = resolved;
    jwt = jwt;
    token = token;
    room = room;
  }

  pub authenticate-IsUntouched :
      (s : AppState w) (now : Clock) (q : HttpQuery) → IsUntouched s (authenticate s now q).0
  unfolding Allowed
  authenticate-IsUntouched s now q = after (authenticate s now q) (authenticate-Allowed s now q)
    where
      after : (r : AppState w × Access) → Allowed s now q r → IsUntouched s r.0
      after (t, refused a) h = h.0
      after (t, granted tenant) h = h.0

  -- The checks of the id, when those of the request are passed.
  claim_id-Checked :
      (s t : AppState w) (now : Clock) (q : HttpQuery) (tenant : Option Tenant)
      → s.active_connections < usize_mod
      → Allowed s now q (t, granted tenant)
      → Checked s now q (claim_id t q.id q.token tenant)
  unfolding claim_id Allowed Checked Reason try_reserve_connection_slot
  claim_id-Checked s t now q tenant small a =
      let u = a.0 in
      let clients = ap (λ (t : AppState w). t.clients) u.untouched in
      let config = ap (λ (t : AppState w). t.config) u.untouched in
      let active = ap (λ (t : AppState w). t.active_connections) u.untouched in
      let found = ap (lookup q.id) clients in
      let limit = ap (λ (c : Config). c.concurrent_limit) config in
      elim (Option-cases (lookup q.id t.clients)) [
        | inr (meta, e) ↦
            rw (e, claim_id)
              (elim (Bool-cases (text_beq meta.token q.token)) [
                | inl same ↦ rw same (
                    entitled s t now q tenant a (owned _ meta q.token (sym found ∙ e) same)
                      (λ n. absurd (cc (n, found, e))))
                | inr other ↦ rw other (u, (meta, sym found ∙ e, differs meta.token q.token other))
              ])
        | inl e ↦
            rw (e, claim_id)
              (elim (Bool-cases (leb t.config.concurrent_limit t.active_connections)) [
                | inl full ↦ rw full (
                  with_count s t (fetch_sub (fetch_add t.active_connections)) u
                      (fetch_sub-fetch_add t.active_connections (rw active small)),
                  (sym found ∙ e, full_up _ _ _ _ limit active full),
                )
                | inr free ↦ rw free (
                    entitled s t now q tenant a (λ m f. absurd (cc (f, found, e)))
                      (λ n. spare _ _ _ _ limit active free))
              ])
      ]

  pub enter_http-Checked :
      (s : AppState w) (now : Clock) (q : HttpQuery)
      → s.active_connections < usize_mod
      → Checked s now q (enter_http s now q)
  unfolding enter_http Checked Allowed
  enter_http-Checked s now q small = after (authenticate s now q) (authenticate-Allowed s now q)
    where
      after :
          (r : AppState w × Access)
          → Allowed s now q r
          → Checked s now q (elim r.1 [
            | refused a ↦ (r.0, rejected a)
            | granted tenant ↦ claim_id r.0 q.id q.token tenant
          ])
      after (t, refused a) h = h
      after (t, granted tenant) h = claim_id-Checked s t now q tenant small h
