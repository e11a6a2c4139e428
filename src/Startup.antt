-- ===== src/Startup.antt =====
-- src/main.rs: the key file, the prefix of the routes, and the origins that CORS lets in. The list
-- of routes, the listeners and the signals are wiring of crates.
pub mod Prefix
use dendri_server.Common.{
  ◌-◌, Bool, true, false, not, ◌&&◌, ◌||◌, Option, none, some, List, [], ◌∷◌, ◌++◌, Text, codes,
  ltb, length, drop, nat_beq, text_beq, if◌then◌else◌,
}
use dendri_server.Config.{Config}
use dendri_server.Dashboard.Email.{starts_with_byte, ends_with_byte}
use dendri_server.Common.Chars.{trim_end, is_nil}

-- What the start does with the key file: what reading it gave, if it could be read. Without a
-- config, the process exits.
unfoldable pub read_key_file : (Text → Option Text) → Config → Option Config
unfolding trim_end
read_key_file read config = elim config.key_file [
  | none ↦ some config
  | some path ↦ elim (read path) [
    | none ↦ none
    | some text ↦
        let key = trim_end text in if is_nil key then none else some (record config { key = key })
  ]
]

-- `p[..p.len() - 1]`
unfoldable pub drop_last : Text → Text
drop_last [] = []
drop_last (b ∷ []) = []
drop_last (b ∷ c ∷ s) = b ∷ drop_last (c ∷ s)

-- 47 is the slash.
unfoldable pub without_slash : Text → Text
unfolding ends_with_byte drop_last
without_slash p =
    if ltb 1 (length p) && ends_with_byte 47 p
    then drop_last p
    else if text_beq p (47 ∷ [])
    then []
    else p

unfoldable pub normalize_path : Text → Text
unfolding without_slash
normalize_path path = without_slash (if starts_with_byte 47 path then path else 47 ∷ path)

unfoldable pub has_suffix : Text → Text → Bool
has_suffix suffix s = text_beq (drop (length s - length suffix) s) suffix

-- Whether an origin is let in. `valid` is whether a configured one parses as a header.
unfoldable pub explicit_origins : (Text → Bool) → List Text → List Text
explicit_origins valid [] = []
explicit_origins valid (o ∷ os) =
    let rest = explicit_origins valid os in if valid o then o ∷ rest else rest

abbrev pub is_default_origin : Text → Bool
unfolding has_suffix
is_default_origin origin =
    has_suffix (codes ".dendri.dev") origin
    || (text_beq origin (codes "https://dendri.dev")
        || text_beq origin (codes "http://localhost:5173"))

abbrev pub any_is : Text → List Text → Bool
any_is origin [] = false
any_is origin (o ∷ os) = text_beq o origin || any_is origin os

unfoldable pub allows_origin : (Text → Bool) → List Text → Text → Bool
unfolding explicit_origins has_suffix
allows_origin valid origins origin = elim (explicit_origins valid origins) [
  | [] ↦ is_default_origin origin
  | o ∷ os ↦ any_is origin (o ∷ os)
]
