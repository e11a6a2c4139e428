-- ===== src/Common/Chars.antt =====
-- Texts as characters in UTF-8: white space, control characters, `str::trim` and `str::trim_end`.
use Prim.Native.Nat.{ℕ}
use mathlib.Core.Bool.{Bool, true, false, ◌&&◌, ◌||◌}
use mathlib.Core.List.{List, [], ◌∷◌, ◌++◌}
use dendri_server.Common.Keys.{Text}
use dendri_server.Common.Tests.{leb, nat_beq, if◌then◌else◌}

abbrev pub is_nil {ℓ} : {A : Type ℓ} → List A → Bool
is_nil [] = true
is_nil (b ∷ s) = false

-- `chars`, each as its bytes: a byte from 128 to 191 goes on with the character before it.
abbrev push_byte : ℕ → List Text → List Text
push_byte b [] = (b ∷ []) ∷ []
push_byte b ([] ∷ cs) = (b ∷ []) ∷ cs
push_byte b ((d ∷ c) ∷ cs) =
    if leb 128 d && leb d 191 then (b ∷ d ∷ c) ∷ cs else (b ∷ []) ∷ (d ∷ c) ∷ cs

unfoldable pub chars : Text → List Text
chars [] = []
chars (b ∷ s) = push_byte b (chars s)

-- `char::is_whitespace`: the property White_Space of Unicode.
abbrev pub is_whitespace : Text → Bool
is_whitespace (b ∷ []) = nat_beq b 32 || (leb 9 b && leb b 13)
is_whitespace (b ∷ c ∷ []) = nat_beq b 194 && (nat_beq c 133 || nat_beq c 160)
is_whitespace (b ∷ c ∷ d ∷ []) =
    (nat_beq b 225 && (nat_beq c 154 && nat_beq d 128))
    || ((nat_beq b 226
          && ((nat_beq c 128
                && ((leb 128 d && leb d 138)
                    || (nat_beq d 168 || (nat_beq d 169 || nat_beq d 175))))
              || (nat_beq c 129 && nat_beq d 159)))
        || (nat_beq b 227 && (nat_beq c 128 && nat_beq d 128)))
is_whitespace _ = false

-- `char::is_control`: the category Cc.
abbrev pub is_control : Text → Bool
is_control (b ∷ []) = leb b 31 || nat_beq b 127
is_control (b ∷ c ∷ []) = nat_beq b 194 && (leb 128 c && leb c 159)
is_control _ = false

-- `trim_start_matches` and `trim_end_matches` of white space.
abbrev drop_start : List Text → List Text
drop_start [] = []
drop_start (c ∷ cs) = let rest = drop_start cs in if is_whitespace c then rest else c ∷ cs

abbrev drop_end : List Text → List Text
drop_end [] = []
drop_end (c ∷ cs) =
    let rest = drop_end cs in if is_nil rest && is_whitespace c then [] else c ∷ rest

unfoldable pub concat : List Text → Text
concat [] = []
concat (c ∷ cs) = c ++ concat cs

unfoldable pub trim_end : Text → Text
unfolding chars concat
trim_end s = concat (drop_end (chars s))

unfoldable pub trim : Text → Text
unfolding chars concat
trim s = concat (drop_end (drop_start (chars s)))
