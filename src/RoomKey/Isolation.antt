-- ===== src/RoomKey/Isolation.antt =====
-- The storage keys of src/handlers/message.rs keep tenants apart.
use dendri_server.Common.{
  ◌≡◌, refl, sym, ap, ◌∙◌, ◌≢◌, Option, none, some, [], ◌∷◌, ◌++◌, arith, Text, All, true,
}
use dendri_server.Validation.{is_valid_identifier}
use dendri_server.Validation.Identifiers.{is_valid_identifier_iff, All-ne}
use dendri_server.RoomKey.{tenant_sep, namespace_room, split_once, room_display}

-- No byte is the separator.
abbrev pub IsUnseparated : Text → Type 0
IsUnseparated = All (λ b. b ≢ tenant_sep)

pub valid-IsUnseparated : (s : Text) → is_valid_identifier s ≡ true → IsUnseparated s
valid-IsUnseparated s h =
    All-ne tenant_sep s (λ c. ground arith) ((is_valid_identifier_iff s).0 h).2

split_once_absent : (s : Text) → IsUnseparated s → split_once tenant_sep s ≡ none
unfolding split_once
split_once_absent [] h = refl
split_once_absent (b ∷ s) h = ground (arith, h.0, split_once_absent s h.1)

split_once-append :
    (s rest : Text)
    → IsUnseparated s
    → split_once tenant_sep (s ++ tenant_sep ∷ rest) ≡ some (s, rest)
unfolding split_once
split_once-append [] rest h = refl
split_once-append (b ∷ s) rest h = ground (arith, h.0, split_once-append s rest h.1)

-- A tenant id, where there is one, has no separator in it.
abbrev pub IsTenant : Option Text → Type 0
IsTenant none = Unit
IsTenant (some t) = IsUnseparated t

-- The stored key shows the tenant and the room that it was made from.
split_once-namespace_room :
    (t : Option Text) (room : Text)
    → IsTenant t
    → IsUnseparated room
    → split_once tenant_sep (namespace_room t room)
      ≡ elim t [ none ↦ none | some t' ↦ some (t', room) ]
unfolding namespace_room
split_once-namespace_room none room ht hr = split_once_absent room hr
split_once-namespace_room (some t) room ht hr = split_once-append t room ht

-- The display name of a stored key is the room name that the client sent, for every tenant id
-- without the separator and every valid room name.
room_display-namespace_room :
    (t : Option Text) (room : Text)
    → IsTenant t
    → is_valid_identifier room ≡ true
    → room_display (namespace_room t room) ≡ room
unfolding room_display namespace_room
room_display-namespace_room none room ht hr =
    ground (arith, split_once_absent room (valid-IsUnseparated room hr))
room_display-namespace_room (some t) room ht hr = ground (arith, split_once-append t room ht)

-- Two clients share a storage key only if they are of the same tenant (or both of none) and named
-- the same room: for tenant ids without the separator and valid room names.
pub namespace_room_injective :
    (t u : Option Text) (r s : Text)
    → IsTenant t
    → IsTenant u
    → is_valid_identifier r ≡ true
    → is_valid_identifier s ≡ true
    → namespace_room t r ≡ namespace_room u s
    → (t ≡ u) × (r ≡ s)
namespace_room_injective t u r s ht hu hr hs e =
    let same =
      sym (split_once-namespace_room t r ht (valid-IsUnseparated r hr))
      ∙ ap (split_once tenant_sep) e
      ∙ split_once-namespace_room u s hu (valid-IsUnseparated s hs) in
    let names =
      sym (room_display-namespace_room t r ht hr)
      ∙ ap room_display e
      ∙ room_display-namespace_room u s hu hs in
    (ground arith, names)
