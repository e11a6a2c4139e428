-- ===== src/Tests/Tenants.antt =====
-- The theorems on the dashboard, its mail and the administration of tenants at work.
use dendri_server.Common.{
  ◌≡◌, ◌⊎◌, refl, false, true, some, codes, Text, [], ◌∷◌, ◌++◌, nat_beq, if◌then◌else◌,
}
use dendri_server.Admin.{unauthorized_response}
use dendri_server.Admin.Guard.{removes, handle, IsAdmin, handle-IsAdmin}
use dendri_server.RoomKey.{split_once}
use dendri_server.Common.Chars.{chars, trim, concat}
use dendri_server.Dashboard.{Tokens, failed, unauthorized}
use dendri_server.Dashboard.Links.{IsDiscreet, request_magic_link, request_magic_link-IsDiscreet}
use dendri_server.Dashboard.Sessions.{rotates, serve, HasSession, serve-HasSession}
use dendri_server.Dashboard.Email.{plausible_email, has_blank, contains_byte, ends_with_byte}
use dendri_server.Mail.{Mailer, sign, civil_from_days, iso8601_utc}
use dendri_server.Mail
use dendri_server.Mail.Order.{sign-Perm}
use mathlib.Core.List.{Permᴰ}
use dendri_server.Mail.Encoding.{IsDate, days_from_civil, days_from_civil-civil_from_days}
use dendri_server.Realm.{decimal, decimal_digits}
use dendri_server.State.{AppState}
use dendri_server.Tests.{test_world, noon, alice, server}

-- A token is the purpose that it stands for, of the tenant alice.
abbrev test_tokens : Tokens
test_tokens = record {
  encode = λ secret claims. some claims.purpose;
  decode = λ secret token now. some (record { sub = alice; purpose = token; exp = now });
}

abbrev hosted : AppState test_world
hosted = record server { config = record server.config { admin_token = some (codes "root") } }

serve-HasSession_example :
    (serve test_tokens hosted noon (some (codes "Bearer session")) (rotates (codes "dk_1"))
      ≡ (hosted, failed unauthorized (codes "unauthorized")))
    ⊎ HasSession test_tokens hosted noon (some (codes "Bearer session"))
serve-HasSession_example =
    serve-HasSession test_tokens hosted noon (some (codes "Bearer session"))
      (rotates (codes "dk_1"))

handle-IsAdmin_example :
    (handle hosted (some (codes "Bearer root")) (removes (codes "t_1"))
      ≡ (hosted, unauthorized_response))
    ⊎ IsAdmin hosted (some (codes "Bearer root"))
handle-IsAdmin_example = handle-IsAdmin hosted (some (codes "Bearer root")) (removes (codes "t_1"))

request_magic_link-IsDiscreet_example :
    IsDiscreet test_tokens
      (codes " a@b.co ")
      (request_magic_link test_tokens hosted noon true (codes " a@b.co "))
request_magic_link-IsDiscreet_example =
    request_magic_link-IsDiscreet test_tokens hosted noon true (codes " a@b.co ")

-- The 29th of February 2024.
days_from_civil-civil_from_days_example :
    (days_from_civil (civil_from_days 19782) ≡ 19782) × IsDate (civil_from_days 19782)
days_from_civil-civil_from_days_example = days_from_civil-civil_from_days 19782

-- The two parameters of the unit test, whose keys start with other letters.
abbrev action : Text × Text
action = (codes "Action", codes "SingleSendMail")

abbrev recipient : Text × Text
recipient = (codes "ToAddress", codes "x@y.com")

-- By the first letter of the key.
abbrev value_of : Text → Text
value_of [] = []
value_of (b ∷ s) = if nat_beq b 65 then action.1 else recipient.1

abbrev mailer : Mailer
mailer = Mail.new (codes "testid") (codes "testsecret") (codes "r") (codes "noreply@dendri.dev")

sign-Perm_example :
    sign (λ k t. k ++ t) (λ b. b) mailer (codes "POST") (recipient ∷ action ∷ [])
    ≡ sign (λ k t. k ++ t) (λ b. b) mailer (codes "POST") (action ∷ recipient ∷ [])
sign-Perm_example =
    sign-Perm (λ k t. k ++ t) (λ b. b) mailer (codes "POST") value_of (recipient ∷ action ∷ [])
      (action ∷ recipient ∷ []) (refl, (refl, tt)) (Permᴰ.swap refl refl)

new_year : iso8601_utc 1609459200 ≡ codes "2021-01-01T00:00:00Z"
unfolding iso8601_utc civil_from_days decimal decimal_digits
new_year = refl

junk :
    (plausible_email (codes "two@@example.com") ≡ false) × (plausible_email (codes "a@b.co") ≡ true)
unfolding plausible_email has_blank chars split_once contains_byte ends_with_byte
junk = (refl, refl)

-- A no-break space and an ideographic space around an address.
padded_address : trim ((194 ∷ 160 ∷ codes "a@b.co") ++ 227 ∷ 128 ∷ 128 ∷ 32 ∷ []) ≡ codes "a@b.co"
unfolding trim chars concat
padded_address = refl
