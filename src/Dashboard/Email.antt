-- ===== src/Dashboard/Email.antt =====
-- src/handlers/customer.rs: `plausible_email`, and the cooldown of mail to unknown addresses.
use dendri_server.Common.{
  ℕ, ◌*◌, Bool, true, false, not, ◌&&◌, ◌||◌, Option, none, some, List, [], ◌∷◌, ◌++◌, Text, codes,
  ltb, nat_beq, length, if◌then◌else◌,
}
use dendri_server.RoomKey.{split_once}
use dendri_server.Common.Chars.{chars, is_whitespace, is_control, is_nil}
use dendri_server.Tenant.{to_ascii_lowercase}
use dendri_server.World.{World, Reply, set_ex_nx}

-- `chars().any(|c| c.is_whitespace() || c.is_control())`
abbrev any_blank : List Text → Bool
any_blank [] = false
any_blank (c ∷ cs) = (is_whitespace c || is_control c) || any_blank cs

unfoldable pub has_blank : Text → Bool
unfolding chars
has_blank s = any_blank (chars s)

unfoldable pub contains_byte : ℕ → Text → Bool
contains_byte c [] = false
contains_byte c (b ∷ s) = nat_beq b c || contains_byte c s

abbrev pub starts_with_byte : ℕ → Text → Bool
starts_with_byte c [] = false
starts_with_byte c (b ∷ s) = nat_beq b c

unfoldable pub ends_with_byte : ℕ → Text → Bool
ends_with_byte c [] = false
ends_with_byte c (b ∷ []) = nat_beq b c
ends_with_byte c (b ∷ d ∷ s) = ends_with_byte c (d ∷ s)

-- 64 is the at sign, 46 the dot.
abbrev pub is_domain : Text → Bool
is_domain domain =
    contains_byte 46 domain
    && (not (contains_byte 64 domain)
        && (not (starts_with_byte 46 domain) && not (ends_with_byte 46 domain)))

unfoldable pub plausible_email : Text → Bool
unfolding has_blank split_once contains_byte ends_with_byte
plausible_email email =
    if ltb (length email) 3 || ltb 254 (length email)
    then false
    else if has_blank email
    then false
    else elim (split_once 64 email) [
      | none ↦ false
      | some parts ↦ not (is_nil parts.0) && is_domain parts.1
    ]

abbrev pub no_account_cooldown_secs : ℕ
no_account_cooldown_secs = 10 * 60

abbrev pub no_account_cooldown_key : Text → Text
no_account_cooldown_key email = codes "auth:no-account:" ++ to_ascii_lowercase email

-- `Ok(Some(_))`
abbrev pub is_set : Option Reply → Bool
is_set (some Reply.done) = true
is_set (some (Reply.text t)) = true
is_set _ = false

module _ (w : World) where
  open w.redis use {Conn, query}

  -- Nothing is sent while a key is there, or after an error.
  unfoldable pub acquire_no_account_slot : Conn → Text → Conn × Bool
  acquire_no_account_slot conn email =
      let (conn', reply) =
        query (set_ex_nx (no_account_cooldown_key email) (codes "1") no_account_cooldown_secs ∷ [])
          conn in
      (conn', is_set reply)
