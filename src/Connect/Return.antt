-- ===== src/Connect/Return.antt =====
-- A client that returns within its grace period, but as a new one (src/handlers/ws.rs).
use dendri_server.Common.{
  ℕ, ◌-◌, ◌≡◌, sym, ap, ◌∙◌, subst, false, Option, none, Text, arith, text_eq, nat_beq, leb,
  if◌then◌else◌,
}
use dendri_server.Common.Maps.{lookup, IsDistinct}
use dendri_server.Common.Sets
use dendri_server.Connect.Indexes.{SameIndexes, admit-SameIndexes}
use dendri_server.Connect.Upgrade.{admit}
use dendri_server.Dispatch.Membership.{IsAccounted}
use dendri_server.Sessions.{remove_client_from_all_rooms, cleanup_expired_sessions}
use dendri_server.Sessions.Grace.{
  contains-cleanup_expired_sessions, cleanup-remove_client_from_all_rooms,
  remove_client_from_all_rooms-IsDistinct,
}
use dendri_server.State.{AppState, members_of}
use dendri_server.Tenant.{Tenant}
use dendri_server.World.{World, Clock}

module _ {w : World} where
  -- Sweeps of two states with the same indexes agree.
  sweep_agree :
      (s t : AppState w) (now : Clock)
      → SameIndexes s t
      → nat_beq s.config.session_ttl 0 ≡ false
      → IsDistinct s.pending_removals
      → (c k : Text)
      → Sets.contains c (members_of (cleanup_expired_sessions t now) k)
        ≡ Sets.contains c (members_of (cleanup_expired_sessions s now) k)
  sweep_agree s t now p ttl distinct c k =
      contains-cleanup_expired_sessions t now (ap (λ g. nat_beq g.session_ttl 0) p.config ∙ ttl)
        (subst IsDistinct (sym p.pending_removals) distinct) c k
      ∙ ground (arith, p.rooms, p.config, p.pending_removals)
      ∙ sym (contains-cleanup_expired_sessions s now ttl distinct c k)

  -- With a session TTL, pending removals of distinct clients, each member of a room listed or
  -- awaiting removal, and no removal pending for a client: if it disconnects and is back at any time
  -- by way of the branch for new clients, then the first sweep after the TTL, counted from the
  -- disconnection, takes it out of every room, and an earlier sweep out of none.
  pub cleanup-admit :
      (s : AppState w) (now back later : Clock) (c token : Text)
      → (tenant : Option Tenant) (last_seq : Option ℕ) → nat_beq s.config.session_ttl 0 ≡ false
      → lookup c s.pending_removals ≡ none
      → IsDistinct s.pending_removals
      → IsAccounted s
      → (k : Text)
      → Sets.contains c (
          members_of
            (cleanup_expired_sessions
              (admit (remove_client_from_all_rooms s now c) back c token tenant last_seq).0
              later)
            k)
        ≡ (if leb s.config.session_ttl (later.instant - now.instant)
            then false
            else Sets.contains c (members_of s k))
  cleanup-admit s now back later c token tenant last_seq ttl fresh distinct h k =
      let s1 = remove_client_from_all_rooms s now c in
      let (ttl1, distinct1) = remove_client_from_all_rooms-IsDistinct s now c ttl distinct in
      sweep_agree s1 (admit s1 back c token tenant last_seq).0 later
        (admit-SameIndexes s1 back c token tenant last_seq) ttl1 distinct1 c k
      ∙ cleanup-remove_client_from_all_rooms s now later c ttl fresh distinct h k
