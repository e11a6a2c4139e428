-- ===== src/Tenant.antt =====
-- src/tenant.rs: tenants, and the cache in front of their records in Redis.
pub mod Access
pub mod Cache
use dendri_server.Common.{
  ℕ, ◌+◌, ◌*◌, ◌/◌, ◌%◌, ◌++◌, Bool, Option, List, [], ◌∷◌, Text, codes, ltb, leb, nat_beq, ◌&&◌,
  ◌||◌, if◌then◌else◌,
}
use dendri_server.Common.Chars.{trim}
use mathlib.Core.List.{map}

pub record Tenant : Type 0 where
  pub id : Text
  pub name : Text
  pub origins : List Text
  pub active : Bool
  pub max_rooms : ℕ
  pub max_peers : ℕ
  pub email : Option Text
  pub jwt_secret : Option Text

abbrev pub key_by_hash : Text → Text
key_by_hash hash = codes "tenant:key:" ++ hash

abbrev pub key_by_id : Text → Text
key_by_id id = codes "tenant:id:" ++ id

abbrev pub to_ascii_lowercase : Text → Text
to_ascii_lowercase = map (λ b. if leb b'A' b && leb b b'Z' then b + 32 else b)

unfoldable pub key_by_email : Text → Text
unfolding trim
key_by_email email = codes "tenant:email:" ++ to_ascii_lowercase (trim email)

-- In milliseconds.
abbrev pub cache_ttl : ℕ
cache_ttl = 30000

abbrev pub hex_digit : ℕ → ℕ
hex_digit n = if ltb n 10 then 48 + n else 87 + n

-- `{byte:02x}` for each byte of the digest.
unfoldable pub hex : List ℕ → Text
hex [] = []
hex (byte ∷ bytes) = hex_digit (byte / 16) ∷ hex_digit (byte % 16) ∷ hex bytes
