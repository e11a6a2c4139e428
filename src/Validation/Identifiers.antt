-- ===== src/Validation/Identifiers.antt =====
-- What `is_valid_identifier` of src/validation.rs accepts, and what that means for the
-- hand-written JSON.
use dendri_server.Common.{
  ℕ, ◌≤◌, ◌≡◌, refl, ◌≢◌, ◌↔◌, ◌⊎◌, true, Option, none, some, [], ◌∷◌, ◌++◌, arith, Text, length,
  all, All, nat_beq, ltb, leb, ◌||◌, if◌then◌else◌, map_some,
}
use dendri_server.Validation.{max_identifier_len, is_identifier_byte, is_valid_identifier}

abbrev pub IsIdentifierByte : ℕ → Type 0
IsIdentifierByte b =
    ((48 ≤ b) × (b ≤ 57)) ⊎ ((65 ≤ b) × (b ≤ 90)) ⊎ ((97 ≤ b) × (b ≤ 122)) ⊎ (b ≡ 95) ⊎ (b ≡ 45)

abbrev pub IsIdentifier : Text → Type 0
IsIdentifier s = (1 ≤ length s) × (length s ≤ max_identifier_len) × All IsIdentifierByte s

is_identifier_byte_sound : (b : ℕ) → is_identifier_byte b ≡ true → IsIdentifierByte b
unfolding is_identifier_byte
is_identifier_byte_sound b h = ground arith

is_identifier_byte-holds : (b : ℕ) → IsIdentifierByte b → is_identifier_byte b ≡ true
unfolding is_identifier_byte
is_identifier_byte-holds b h = ground arith

all_sound : (s : Text) → all is_identifier_byte s ≡ true → All IsIdentifierByte s
all_sound [] h = tt
all_sound (b ∷ s) h = (is_identifier_byte_sound b (ground arith), all_sound s (ground arith))

all-holds : (s : Text) → All IsIdentifierByte s → all is_identifier_byte s ≡ true
all-holds [] h = refl
all-holds (b ∷ s) h = ground (arith, is_identifier_byte-holds b h.0, all-holds s h.1)

valid_sound : (s : Text) → is_valid_identifier s ≡ true → IsIdentifier s
unfolding is_valid_identifier
valid_sound s h = (ground arith, ground arith, all_sound s (ground arith))

valid-holds : (s : Text) → IsIdentifier s → is_valid_identifier s ≡ true
unfolding is_valid_identifier
valid-holds s h = ground (arith, all-holds s h.2)

-- `is_valid_identifier` accepts exactly the texts of 1 to 128 bytes, each a letter, a digit, `_` or
-- `-`.
pub is_valid_identifier_iff : (s : Text) → (is_valid_identifier s ≡ true) ↔ IsIdentifier s
is_valid_identifier_iff s = (valid_sound s, valid-holds s)

-- No byte of an identifier is a given byte that the class leaves out.
pub All-ne : (c : ℕ) (s : Text) → ¬ IsIdentifierByte c → All IsIdentifierByte s → All (λ b. b ≢ c) s
All-ne c [] out h = tt
All-ne c (b ∷ s) out h = (λ e. out (ground arith), All-ne c s out h.1)

-- How a reader of JSON goes on behind the opening quote of a string (RFC 8259): up to the closing
-- quote. Control characters, the bytes below 32, are refused; so are, here, escapes and bytes from
-- 128 on, which other routines of a reader are for, and which no identifier needs.
pub read_string : Text → Option (Text × Text)
read_string [] = none
read_string (b ∷ s) =
    if nat_beq b b'"'
    then some ([], s)
    else if nat_beq b 92 || (ltb b 32 || leb 128 b)
    then none
    else map_some (λ (p : Text × Text). (b ∷ p.0, p.1)) (read_string s)

read_string-bytes :
    (s rest : Text) → All IsIdentifierByte s → read_string (s ++ b'"' ∷ rest) ≡ some (s, rest)
unfolding read_string
read_string-bytes [] rest h = refl
read_string-bytes (b ∷ s) rest h = ground (arith, read_string-bytes s rest h.1)

-- A valid identifier that is written between quotes, as the hand-built frames do, is read back
-- whole, and the reader stands right behind the closing quote.
pub read_string-identifier :
    (s rest : Text) → is_valid_identifier s ≡ true → read_string (s ++ b'"' ∷ rest) ≡ some (s, rest)
read_string-identifier s rest h = read_string-bytes s rest (valid_sound s h).2
