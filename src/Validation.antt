-- ===== src/Validation.antt =====
-- src/validation.rs: identifiers and the comparison of shared secrets. `ct_eq` of the crate
-- `subtle` is a parameter.
pub mod Identifiers
use dendri_server.Common.{
  ℕ, Bool, false, ◌&&◌, ◌||◌, Text, length, all, leb, ltb, nat_beq, if◌then◌else◌,
}

unfoldable pub constant_time_str_eq : (Text → Text → Bool) → Text → Text → Bool
constant_time_str_eq ct_eq a b = if nat_beq (length a) (length b) then ct_eq a b else false

abbrev pub max_identifier_len : ℕ
max_identifier_len = 128

-- `u8::is_ascii_alphanumeric`
abbrev pub is_ascii_alphanumeric : ℕ → Bool
is_ascii_alphanumeric b =
    (leb b'0' b && leb b b'9') || (leb b'A' b && leb b b'Z') || (leb b'a' b && leb b b'z')

unfoldable pub is_identifier_byte : ℕ → Bool
is_identifier_byte b = is_ascii_alphanumeric b || nat_beq b b'_' || nat_beq b b'-'

unfoldable pub is_valid_identifier : Text → Bool
unfolding is_identifier_byte
is_valid_identifier s =
    if nat_beq (length s) 0 || ltb max_identifier_len (length s)
    then false
    else all is_identifier_byte s
