-- ===== src/Admin/Guard.antt =====
-- Who administers tenants, and the cache in front of them (src/handlers/admin.rs).
use dendri_server.Common.{
  ◌≡◌, refl, inl, inr, ◌⊎◌, true, false, Option, some, [], Text, unwrap_or, Option-cases,
  Bool-cases,
}
use dendri_server.Admin.{
  CreateTenantRequest, AdminResponse, unauthorized_response, reject_unauthorized, create, list,
  remove_tenant, rotate_jwt_secret,
}
use dendri_server.Dashboard.{bearer}
use dendri_server.State.{AppState}
use dendri_server.Common.Chars.{is_nil}
use dendri_server.Validation.{constant_time_str_eq}
use dendri_server.World.{World}

pub data AdminRequest : Type 0 where
  creates : Text → Text → CreateTenantRequest → AdminRequest
  lists : AdminRequest
  removes : Text → AdminRequest
  rotates : Text → Text → AdminRequest

module _ {w : World} where
  abbrev pub handle : AppState w → Option Text → AdminRequest → AppState w × AdminResponse
  handle s header (creates id api_key req) = create s header id api_key req
  handle s header lists = list s header
  handle s header (removes id) = remove_tenant s header id
  handle s header (rotates id new_secret) = rotate_jwt_secret s header id new_secret

  -- The header gives the token of the server, which is not empty.
  pub record IsAdmin (s : AppState w) (header : Option Text) : Type 0 where
    pub expected : Text
    pub configured : s.config.admin_token ≡ some expected
    pub nonempty : is_nil expected ≡ false
    pub given : constant_time_str_eq w.ct_eq (unwrap_or (bearer header) []) expected ≡ true

  reject_unauthorized-IsAdmin :
      (s : AppState w) (header : Option Text)
      → (reject_unauthorized s header ≡ some unauthorized_response) ⊎ IsAdmin s header
  unfolding reject_unauthorized
  reject_unauthorized-IsAdmin s header = elim (Option-cases s.config.admin_token) [
    | inl e ↦ inl (rw (e, reject_unauthorized) refl)
    | inr (expected, e) ↦ elim (Bool-cases (is_nil expected)) [
      | inl n ↦ inl (rw (e, reject_unauthorized) (rw n refl))
      | inr n ↦
          elim (Bool-cases (constant_time_str_eq w.ct_eq (unwrap_or (bearer header) []) expected)) [
            | inr g ↦ inl (rw (e, reject_unauthorized) (rw n (rw g refl)))
            | inl g ↦ inr (record { expected = expected; configured = e; nonempty = n; given = g })
          ]
    ]
  ]

  refused :
      (s : AppState w) (header : Option Text) (r : AdminRequest)
      → reject_unauthorized s header ≡ some unauthorized_response
      → handle s header r ≡ (s, unauthorized_response)
  unfolding create list remove_tenant rotate_jwt_secret
  refused s header (creates id api_key req) e = rw (e, create) refl
  refused s header lists e = rw (e, list) refl
  refused s header (removes id) e = rw (e, remove_tenant) refl
  refused s header (rotates id new_secret) e = rw (e, rotate_jwt_secret) refl

  -- Every request to the admin API is answered 401 and changes nothing, or else its Authorization header
  -- gives the admin token of the server, which is set and not empty.
  pub handle-IsAdmin :
      (s : AppState w) (header : Option Text) (r : AdminRequest)
      → (handle s header r ≡ (s, unauthorized_response)) ⊎ IsAdmin s header
  handle-IsAdmin s header r = elim (reject_unauthorized-IsAdmin s header) [
    | inl e ↦ inl (refused s header r e)
    | inr a ↦ inr a
  ]
