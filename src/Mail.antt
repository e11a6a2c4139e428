-- ===== src/Mail.antt =====
-- src/email.rs: the signed request that sends a mail. Sorting compares bytes, as `str` does; times are
-- after 1970, so that days and seconds are not negative.
pub mod Encoding
pub mod Order
use dendri_server.Common.{
  ℕ, zero, suc, ◌+◌, ◌-◌, ◌*◌, ◌/◌, ◌%◌, Bool, true, false, ◌&&◌, ◌||◌, Option, some, none, List,
  [], ◌∷◌, ◌++◌, Text, codes, leb, ltb, nat_beq, length, if◌then◌else◌,
}
use dendri_server.Realm.{decimal}

pub record Mailer : Type 0 where
  pub access_key_id : Text
  pub access_key_secret : Text
  pub region : Text
  pub from : Text
  pub from_alias : Text

abbrev pub new : Text → Text → Text → Text → Mailer
new access_key_id access_key_secret region from = record {
  access_key_id = access_key_id;
  access_key_secret = access_key_secret;
  region = region;
  from = from;
  from_alias = codes "Dendri";
}

-- The bytes that are left as they are: letters, digits, and four others.
abbrev pub is_unreserved : ℕ → Bool
is_unreserved b =
    (leb 65 b && leb b 90)
    || ((leb 97 b && leb b 122)
        || ((leb 48 b && leb b 57)
            || (nat_beq b 45 || (nat_beq b 95 || (nat_beq b 46 || nat_beq b 126)))))

-- One digit of `{b:02X}`.
abbrev pub upper_hex : ℕ → ℕ
upper_hex n = if ltb n 10 then 48 + n else 55 + n

unfoldable pub rfc3986 : Text → Text
rfc3986 [] = []
rfc3986 (b ∷ s) =
    let rest = rfc3986 s in
    if is_unreserved b then b ∷ rest else 37 ∷ upper_hex (b / 16) ∷ upper_hex (b % 16) ∷ rest

-- `{n:0width}`
abbrev pub zeros : ℕ → Text
zeros zero = []
zeros (suc n) = 48 ∷ zeros n

abbrev pub padded : ℕ → ℕ → Text
padded width n = zeros (width - length (decimal n)) ++ decimal n

pub record Date : Type 0 where
  pub year : ℕ
  pub month : ℕ
  pub day : ℕ

-- From the day number since 1970.
abbrev pub era_of : ℕ → ℕ
era_of days = (days + 719468) / 146097

abbrev pub day_of_era : ℕ → ℕ
day_of_era days = (days + 719468) - era_of days * 146097

abbrev pub year_of_era : ℕ → ℕ
year_of_era doe = (doe - doe / 1460 + doe / 36524 - doe / 146096) / 365

-- From March 1.
abbrev pub day_of_year : ℕ → ℕ → ℕ
day_of_year doe yoe = doe - (365 * yoe + yoe / 4 - yoe / 100)

abbrev pub month_index : ℕ → ℕ
month_index doy = (5 * doy + 2) / 153

abbrev pub date_of : ℕ → ℕ → Date
date_of y doy =
    let mp = month_index doy in
    let m = if ltb mp 10 then mp + 3 else mp - 9 in
    record { year = if leb m 2 then y + 1 else y; month = m; day = doy - (153 * mp + 2) / 5 + 1 }

unfoldable pub civil_from_days : ℕ → Date
civil_from_days days =
    let doe = day_of_era days in
    let yoe = year_of_era doe in date_of (yoe + era_of days * 400) (day_of_year doe yoe)

abbrev pub date_text : Date → Text
date_text d = padded 4 d.year ++ (45 ∷ (padded 2 d.month ++ (45 ∷ padded 2 d.day)))

abbrev pub time_text : ℕ → Text
time_text rem =
    padded 2 (rem / 3600) ++ (58 ∷ (padded 2 (rem % 3600 / 60) ++ (58 ∷ padded 2 (rem % 60))))

-- `YYYY-MM-DDTHH:MM:SSZ`
unfoldable pub iso8601_utc : ℕ → Text
unfolding civil_from_days
iso8601_utc secs =
    date_text (civil_from_days (secs / 86400)) ++ (84 ∷ (time_text (secs % 86400) ++ (90 ∷ [])))

-- `cmp`: whether the first text is not after the second.
unfoldable pub text_leb : Text → Text → Bool
text_leb [] t = true
text_leb (a ∷ s) [] = false
text_leb (a ∷ s) (b ∷ t) = ltb a b || (nat_beq a b && text_leb s t)

-- `sort_by` on the keys, which keeps equal ones in place.
unfoldable pub insert_param : Text × Text → List (Text × Text) → List (Text × Text)
unfolding text_leb
insert_param p [] = p ∷ []
insert_param p (q ∷ qs) = if text_leb p.0 q.0 then p ∷ q ∷ qs else q ∷ insert_param p qs

unfoldable pub sort_params : List (Text × Text) → List (Text × Text)
unfolding insert_param
sort_params [] = []
sort_params (p ∷ ps) = insert_param p (sort_params ps)

-- `join("&")` of the encoded pairs.
unfoldable pub canonical : List (Text × Text) → Text
unfolding rfc3986
canonical [] = []
canonical (p ∷ []) = rfc3986 p.0 ++ (61 ∷ rfc3986 p.1)
canonical (p ∷ q ∷ ps) = rfc3986 p.0 ++ (61 ∷ (rfc3986 p.1 ++ (38 ∷ canonical (q ∷ ps))))

-- The crates hmac with sha1, and base64, are arguments.
unfoldable pub sign :
    (Text → Text → List ℕ) → (List ℕ → Text) → Mailer → Text → List (Text × Text) → Text
unfolding canonical sort_params rfc3986
sign hmac_sha1 base64 m method params = base64 (
    hmac_sha1 (m.access_key_secret ++ codes "&")
      (method ++ (38 ∷ (rfc3986 (codes "/") ++ (38 ∷ rfc3986 (canonical (sort_params params)))))))

-- What `send` signs. The nonce is the random one that the code draws.
abbrev pub request_params : Mailer → Text → ℕ → Text → Text → Text → List (Text × Text)
request_params m nonce secs to subject html =
    (codes "Format", codes "JSON")
    ∷ (codes "Version", codes "2015-11-23")
    ∷ (codes "AccessKeyId", m.access_key_id)
    ∷ (codes "SignatureMethod", codes "HMAC-SHA1")
    ∷ (codes "SignatureVersion", codes "1.0")
    ∷ (codes "SignatureNonce", nonce)
    ∷ (codes "Timestamp", iso8601_utc secs)
    ∷ (codes "RegionId", m.region)
    ∷ (codes "Action", codes "SingleSendMail")
    ∷ (codes "AccountName", m.from)
    ∷ (codes "AddressType", codes "1")
    ∷ (codes "ReplyToAddress", codes "false")
    ∷ (codes "FromAlias", m.from_alias)
    ∷ (codes "ToAddress", to)
    ∷ (codes "Subject", subject)
    ∷ (codes "HtmlBody", html)
    ∷ []

-- What the HTTP client gives: an error, or whether the status is a success, the status and the body,
-- which is empty where it cannot be read.
pub data Posted : Type 0 where
  no_answer : Text → Posted
  answered : Bool → Text → Text → Posted

-- `Err` with its text, or none.
abbrev pub outcome : Posted → Option Text
outcome (no_answer e) = some (codes "directmail request failed: " ++ e)
outcome (answered success status body) =
    if success then none else some (codes "directmail " ++ (status ++ (codes ": " ++ body)))

-- The HTTP client, which posts a form to an endpoint, is an argument too. `sign` leaves its list
-- sorted.
unfoldable pub send :
    (Text → Text → List ℕ)
    → (List ℕ → Text)
    → (Text → List (Text × Text) → Posted)
    → Mailer
    → Text
    → ℕ
    → Text
    → Text
    → Text
    → Option Text
unfolding sign sort_params
send hmac_sha1 base64 post m nonce secs to subject html =
    let params = request_params m nonce secs to subject html in
    let signature = sign hmac_sha1 base64 m (codes "POST") params in
    outcome (
      post (codes "https://dm." ++ (m.region ++ codes ".aliyuncs.com/"))
        (sort_params params ++ (codes "Signature", signature) ∷ []))
