-- ===== src/Dashboard/Links.antt =====
-- src/handlers/customer.rs: `request_magic_link`. The tasks that send mail run at once; what they send
-- is given back, since the mailer is left out of the state.
use dendri_server.Common.{
  ◌≡◌, refl, inl, inr, Bool, true, not, Option, none, some, List, [], ◌∷◌, ◌++◌, Text, codes,
  nat_beq, if◌then◌else◌, All, ◌≤◌, length, arith, Bool-cases, Option-cases, ◌&&◌,
}
use dendri_server.Dashboard.{Tokens, sign_token, magic_ttl_secs, signing_secret}
use dendri_server.Dashboard.Email.{plausible_email, acquire_no_account_slot}
use dendri_server.State.{AppState}
use dendri_server.Common.Chars.{trim, is_nil}
use dendri_server.Tenant.Access.{get_tenant_id_by_email}
use dendri_server.World.{World, Clock}

pub record Mail : Type 0 where
  pub to : Text
  pub subject : Text
  pub html : Text

-- `trim_end_matches('/')`
unfoldable pub trim_slashes : Text → Text
trim_slashes [] = []
trim_slashes (b ∷ s) =
    let rest = trim_slashes s in if is_nil rest && nat_beq b 47 then [] else b ∷ rest

abbrev pub magic_email_html : Text → Text
magic_email_html link =
    codes "<p>Click to sign in to your Dendri dashboard. This link expires in 15 minutes.</p>"
    ++ (codes "<p><a href=\""
        ++ (link
            ++ (codes "\">Sign in to Dendri</a></p>"
                ++ codes "<p>If you didn't request this, you can ignore this email.</p>")))

-- The dash is three bytes of UTF-8.
abbrev pub dash : Text
dash = 226 ∷ 128 ∷ 148 ∷ []

abbrev pub no_account_email_html : Text → Text → Text
no_account_email_html website_url dashboard_url =
    codes "<p>You requested a sign-in link for the Dendri dashboard, but this email "
    ++ (codes "address doesn't have a hosted account yet.</p>"
        ++ (codes "<p><strong>To get one:</strong> choose a hosted plan on the <a href=\""
            ++ (website_url
                ++ (codes "/pricing/\">Dendri pricing page</a>. After checkout "
                    ++ (codes "your API key arrives by email, and you can sign in at the <a href=\""
                        ++ (dashboard_url
                            ++ (codes "\">Dendri dashboard</a> with this address.</p>"
                                ++ (codes
                                      "<p>Prefer to run it yourself? The Dendri server is open source and free forever "
                                    ++ (dash
                                        ++ (codes " follow the <a href=\""
                                            ++ (website_url
                                                ++ (codes
                                                      "/docs/self-hosting/\">self-hosting guide</a>.</p>"
                                                    ++ codes
                                                        "<p>If you didn't request this, you can ignore this email.</p>"))))))))))))

abbrev pub magic_link : Text → Text → Text
magic_link dashboard_url token = trim_slashes dashboard_url ++ (codes "/#magic=" ++ token)

-- The answer to every request, with 200.
abbrev pub generic : Text
generic = codes "Check your inbox for an email from Dendri."

-- The state, the answer, and the mail that is sent.
pub record Requested (w : World) : Type 0 where
  pub state : AppState w
  pub response : Text
  pub mails : List Mail

module _ {w : World} (tok : Tokens) where
  abbrev pub quiet : AppState w → Requested w
  quiet s = record { state = s; response = generic; mails = [] }

  -- To a known address.
  abbrev pub send_link : AppState w → Text → Option Text → Requested w
  send_link s email none = quiet s
  send_link s email (some token) = record {
    state = s;
    response = generic;
    mails =
        record {
          to = email;
          subject = codes "Sign in to Dendri";
          html = magic_email_html (magic_link s.config.dashboard_url token);
        }
        ∷ [];
  }

  -- To an unknown one, unless one was sent not long ago.
  unfoldable pub send_no_account : AppState w → Text → Requested w
  send_no_account s email =
      let (redis, acquired) = acquire_no_account_slot w s.redis email in
      let s' = record s { redis = redis } in
      if not acquired then quiet s' else record {
        state = s';
        response = generic;
        mails =
            record {
              to = email;
              subject = codes "Sign in to Dendri " ++ (dash ++ codes " no account found");
              html =
                  no_account_email_html (trim_slashes s.config.website_url)
                    (trim_slashes s.config.dashboard_url);
            }
            ∷ [];
      }

  unfoldable pub mail_to : AppState w → Clock → Text → Text → Requested w
  unfolding send_no_account
  mail_to s now secret email =
      let (redis, found) = get_tenant_id_by_email w s.redis email in
      let s' = record s { redis = redis } in
      elim found [
        | none ↦ quiet s'
        | some none ↦ send_no_account s' email
        | some (some tenant_id) ↦
            send_link s' email (sign_token tok now secret tenant_id (codes "magic") magic_ttl_secs)
      ]

  -- Whether a mailer is set up is an argument.
  unfoldable pub request_magic_link : AppState w → Clock → Bool → Text → Requested w
  unfolding mail_to
  request_magic_link s now has_mailer address = elim (signing_secret tok s) [
    | none ↦ quiet s
    | some secret ↦
        if not has_mailer
        then quiet s
        else if not (plausible_email (trim address))
        then quiet s
        else mail_to s now secret (trim address)
  ]

  -- What may be said of the answer to a request for an address.
  pub record IsDiscreet (address : Text) (r : Requested w) : Type 0 where
    pub same : r.response ≡ generic
    pub once : length r.mails ≤ 1
    pub addressed :
        All (λ (m : Mail). (m.to ≡ trim address) × (plausible_email (trim address) ≡ true)) r.mails

  quiet-IsDiscreet : (s : AppState w) (address : Text) → IsDiscreet address (quiet s)
  quiet-IsDiscreet s address = record { same = refl; once = omega arith; addressed = tt }

  send_link-IsDiscreet :
      (s : AppState w) (address : Text) (token : Option Text)
      → plausible_email (trim address) ≡ true
      → IsDiscreet address (send_link s (trim address) token)
  send_link-IsDiscreet s address none h = quiet-IsDiscreet s address
  send_link-IsDiscreet s address (some token) h = record {
    same = refl;
    once = omega arith;
    addressed = ((refl, h), tt);
  }

  send_no_account-IsDiscreet :
      (s : AppState w) (address : Text)
      → plausible_email (trim address) ≡ true
      → IsDiscreet address (send_no_account s (trim address))
  unfolding send_no_account
  send_no_account-IsDiscreet s address h =
      elim (Bool-cases (acquire_no_account_slot w s.redis (trim address)).1) [
        | inl e ↦
            rw (e, send_no_account)
              (record { same = refl; once = omega arith; addressed = ((refl, h), tt) })
        | inr e ↦ rw (e, send_no_account) (quiet-IsDiscreet _ address)
      ]

  mail_to-IsDiscreet :
      (s : AppState w) (now : Clock) (secret address : Text)
      → plausible_email (trim address) ≡ true
      → IsDiscreet address (mail_to s now secret (trim address))
  unfolding mail_to
  mail_to-IsDiscreet s now secret address h =
      after (record s { redis = (get_tenant_id_by_email w s.redis (trim address)).0 })
        (get_tenant_id_by_email w s.redis (trim address)).1
    where
      after :
          (t : AppState w) (found : Option (Option Text))
          → IsDiscreet address (elim found as (λ _. Requested w) [
            | none ↦ quiet t
            | some none ↦ send_no_account t (trim address)
            | some (some id) ↦
                send_link t
                  (trim address)
                  (sign_token tok now secret id (codes "magic") magic_ttl_secs)
          ])
      after t none = quiet-IsDiscreet t address
      after t (some none) = send_no_account-IsDiscreet t address h
      after t (some (some id)) =
          send_link-IsDiscreet t address
            (sign_token tok now secret id (codes "magic") magic_ttl_secs) h

  -- Every request for a magic link gets the same answer, whether the address is known, unknown or
  -- implausible; at most one mail is sent, to the trimmed address, which is plausible then.
  pub request_magic_link-IsDiscreet :
      (s : AppState w) (now : Clock) (has_mailer : Bool) (address : Text)
      → IsDiscreet address (request_magic_link s now has_mailer address)
  unfolding request_magic_link
  request_magic_link-IsDiscreet s now has_mailer address =
      elim (Option-cases (signing_secret tok s)) [
        | inl e ↦ rw (e, request_magic_link) (quiet-IsDiscreet s address)
        | inr (secret, e) ↦
            rw (e, request_magic_link)
              (elim (Bool-cases has_mailer) [
                | inr m ↦ rw m (quiet-IsDiscreet s address)
                | inl m ↦ rw m (elim (Bool-cases (plausible_email (trim address))) [
                  | inr p ↦ rw p (quiet-IsDiscreet s address)
                  | inl p ↦ rw p (mail_to-IsDiscreet s now secret address p)
                ])
              ])
      ]
