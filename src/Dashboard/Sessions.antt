-- ===== src/Dashboard/Sessions.antt =====
-- Who is signed in to the dashboard (src/handlers/customer.rs).
use dendri_server.Common.{
  ◌≡◌, refl, inl, inr, ◌⊎◌, Option, none, some, Text, codes, text_beq, text_beq_iff, Option-cases,
  Bool-cases,
}
use dendri_server.Dashboard.{
  Tokens, SessionClaims, ApiResponse, failed, unauthorized, decode_token, bearer, session_tenant_id,
  me, rotate_key,
}
use dendri_server.State.{AppState}
use dendri_server.World.{World, Clock}

-- The two routes of a signed-in tenant.
pub data Route : Type 0 where
  shows : Route
  rotates : Text → Route

module _ {w : World} (tok : Tokens) where
  abbrev pub serve : AppState w → Clock → Option Text → Route → AppState w × ApiResponse
  serve s now header shows = me tok s now header
  serve s now header (rotates new_key) = rotate_key tok s now header new_key

  -- The header gives a token that decodes, under the admin token, to the claims of a session.
  pub record HasSession (s : AppState w) (now : Clock) (header : Option Text) : Type 0 where
    pub secret : Text
    pub configured : s.config.admin_token ≡ some secret
    pub token : Text
    pub given : bearer header ≡ some token
    pub claims : SessionClaims
    pub decoded : decode_token tok now secret token ≡ some claims
    pub purpose : claims.purpose ≡ codes "session"
    pub subject : session_tenant_id tok s now header ≡ some claims.sub

  session_tenant_id-HasSession :
      (s : AppState w) (now : Clock) (header : Option Text)
      → (session_tenant_id tok s now header ≡ none) ⊎ HasSession s now header
  unfolding session_tenant_id
  session_tenant_id-HasSession s now header = elim (Option-cases s.config.admin_token) [
    | inl e ↦ inl (rw (e, session_tenant_id) refl)
    | inr (secret, e) ↦ elim (Option-cases (bearer header)) [
      | inl b ↦ inl (rw (e, session_tenant_id) (rw b refl))
      | inr (token, b) ↦ elim (Option-cases (decode_token tok now secret token)) [
        | inl d ↦ inl (rw (e, session_tenant_id) (rw b (rw d refl)))
        | inr (claims, d) ↦ elim (Bool-cases (text_beq claims.purpose (codes "session"))) [
          | inr p ↦ inl (rw (e, session_tenant_id) (rw b (rw d (rw p refl))))
          | inl p ↦ inr (record {
            secret = secret;
            configured = e;
            token = token;
            given = b;
            claims = claims;
            decoded = d;
            purpose = (text_beq_iff claims.purpose (codes "session")).0 p;
            subject = rw (e, session_tenant_id) (rw b (rw d (rw p refl)));
          })
        ]
      ]
    ]
  ]

  not_signed_in :
      (s : AppState w) (now : Clock) (header : Option Text) (r : Route)
      → session_tenant_id tok s now header ≡ none
      → serve s now header r ≡ (s, failed unauthorized (codes "unauthorized"))
  unfolding me rotate_key
  not_signed_in s now header shows e = rw (e, me) refl
  not_signed_in s now header (rotates new_key) e = rw (e, rotate_key) refl

  -- A request to see or to rekey the signed-in tenant is answered 401 and changes nothing, or else its
  -- Authorization header gives a token that decodes under the admin token of the server, to claims
  -- whose purpose is a session; so a magic link's token opens neither.
  pub serve-HasSession :
      (s : AppState w) (now : Clock) (header : Option Text) (r : Route)
      → (serve s now header r ≡ (s, failed unauthorized (codes "unauthorized")))
        ⊎ HasSession s now header
  serve-HasSession s now header r = elim (session_tenant_id-HasSession s now header) [
    | inl e ↦ inl (not_signed_in s now header r e)
    | inr h ↦ inr h
  ]
