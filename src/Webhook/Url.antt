-- ===== src/Webhook/Url.antt =====
-- src/webhook.rs: `is_safe_webhook_url`. A host of the crate `url` is ASCII, so its slices are at
-- character boundaries.
use dendri_server.Common.{
  ℕ, zero, suc, ◌+◌, ◌-◌, ◌*◌, Bool, true, false, not, ◌&&◌, ◌||◌, Option, none, some, List, [],
  ◌∷◌, Text, codes, drop, leb, length, nat_beq, text_beq, if◌then◌else◌, map_some, is_some,
}

-- What `reqwest::Url::parse` gives: the scheme, and the host as `host_str` shows it.
pub record ParsedUrl : Type 0 where
  pub scheme : Text
  pub host : Option Text

abbrev pub to_lower : ℕ → ℕ
to_lower c = if leb 65 c && leb c 90 then c + 32 else c

unfoldable pub eq_ignore_ascii_case : Text → Text → Bool
eq_ignore_ascii_case [] [] = true
eq_ignore_ascii_case [] (d ∷ ds) = false
eq_ignore_ascii_case (c ∷ cs) [] = false
eq_ignore_ascii_case (c ∷ cs) (d ∷ ds) =
    nat_beq (to_lower c) (to_lower d) && eq_ignore_ascii_case cs ds

-- `t[..n]`, if the text has so many bytes.
abbrev pub front : ℕ → Text → Option Text
front zero t = some []
front (suc n) [] = none
front (suc n) (c ∷ cs) = map_some (λ t. c ∷ t) (front n cs)

-- `host.len() >= p.len() && host[..p.len()].eq_ignore_ascii_case(p)`
unfoldable pub has_prefix : Text → Text → Bool
unfolding eq_ignore_ascii_case
has_prefix p host = elim (front (length p) host) [
  | none ↦ false
  | some t ↦ eq_ignore_ascii_case t p
]

-- `starts_with`
abbrev pub starts_with : Text → Text → Bool
starts_with [] host = true
starts_with (p ∷ ps) [] = false
starts_with (p ∷ ps) (c ∷ cs) = nat_beq c p && starts_with ps cs

abbrev pub blocked_literals : List Text
blocked_literals =
    codes "localhost"
    ∷ codes "127.0.0.1"
    ∷ codes "0.0.0.0"
    ∷ codes "169.254.169.254"
    ∷ codes "::1"
    ∷ codes "fd00::"
    ∷ codes "fe80::"
    ∷ []

abbrev pub prefix_blocks : List Text
prefix_blocks =
    codes "127."
    ∷ codes "fc00:"
    ∷ codes "fd00:"
    ∷ codes "fe80:"
    ∷ codes "10."
    ∷ codes "172.16."
    ∷ codes "192.168."
    ∷ []

-- `Iterator::any`
abbrev pub any : (Text → Bool) → List Text → Bool
any p [] = false
any p (t ∷ ts) = p t || any p ts

-- `split('.').next()`
abbrev pub first_label : Text → Text
first_label [] = []
first_label (c ∷ cs) = if nat_beq c 46 then [] else c ∷ first_label cs

-- The value of digits, read from the left.
abbrev pub digits_value : ℕ → Text → Option ℕ
digits_value n [] = some n
digits_value n (c ∷ cs) =
    let rest = digits_value (n * 10 + (c - 48)) cs in if leb 48 c && leb c 57 then rest else none

abbrev pub fits_u8 : Option ℕ → Option ℕ
fits_u8 none = none
fits_u8 (some n) = if leb n 255 then some n else none

-- `parse::<u8>`, which takes a plus sign.
unfoldable pub parse_u8 : Text → Option ℕ
parse_u8 [] = none
parse_u8 (c ∷ []) = if nat_beq c 43 then none else fits_u8 (digits_value 0 (c ∷ []))
parse_u8 (c ∷ d ∷ cs) =
    if nat_beq c 43
    then fits_u8 (digits_value 0 (d ∷ cs))
    else fits_u8 (digits_value 0 (c ∷ d ∷ cs))

abbrev pub is_private_second : Option ℕ → Bool
is_private_second none = false
is_private_second (some n) = leb 16 n && leb n 31

-- 172.16.0.0 to 172.31.255.255, of at least 7 bytes.
unfoldable pub is_in_172_range : Text → Bool
unfolding parse_u8
is_in_172_range host =
    is_some (front 7 host)
    && (starts_with (codes "172.") host && is_private_second (parse_u8 (first_label (drop 4 host))))

unfoldable pub is_safe_host : Text → Bool
unfolding has_prefix eq_ignore_ascii_case is_in_172_range
is_safe_host host =
    if any (λ b. eq_ignore_ascii_case host b) blocked_literals
    then false
    else if any (λ p. has_prefix p host) prefix_blocks
    then false
    else not (is_in_172_range host)

unfoldable pub is_safe_webhook_url : (Text → Option ParsedUrl) → Text → Bool
unfolding is_safe_host
is_safe_webhook_url parse url = elim (parse url) [
  | none ↦ false
  | some parsed ↦
      if text_beq parsed.scheme (codes "http") || text_beq parsed.scheme (codes "https")
      then elim parsed.host [ none ↦ false | some host ↦ is_safe_host host ]
      else false
]
