-- ===== src/Sessions/Expiry.antt =====
-- The grace period of a disconnected client (src/handlers/message.rs): who is still a member.
use dendri_server.Common.{
  ℕ, ◌-◌, ◌≡◌, refl, ap, ◌∙◌, inl, inr, Bool, false, ◌&&◌, Option, none, some, List, [], ◌∷◌, Text,
  arith, leb, if◌then◌else◌, text_eq, text_beq_iff, Option-cases,
}
use dendri_server.Common.Maps.{Map, lookup, remove, lookup-remove, IsDistinct}
use dendri_server.Common.Sets
use dendri_server.Dispatch.Invariant.{IsListed, IsConsistent, IsWithinLimits}
use dendri_server.Dispatch.Membership.{pending_rooms}
use dendri_server.Sessions.{expired_ids, expire_session, expire_sessions}
use dendri_server.Sessions.Purge.{remove_from_rooms-Purged}
use dendri_server.State.{AppState, PendingRemoval, members_of}
use dendri_server.World.{World}

-- The grace period of the client is over.
abbrev pub is_due : ℕ → ℕ → Option PendingRemoval → Bool
is_due now ttl none = false
is_due now ttl (some p) = leb ttl (now - p.disconnected_at)

pub contains-expired_ids :
    (now ttl : ℕ) (m : Map Text PendingRemoval) (d : Text)
    → IsDistinct m
    → Sets.contains d (expired_ids now ttl m) ≡ is_due now ttl (lookup d m)
unfolding expired_ids Sets.contains lookup
contains-expired_ids now ttl [] d h = refl
contains-expired_ids now ttl (e ∷ m) d h =
    ground (arith, text_beq_iff e.0 d, contains-expired_ids now ttl m d h.1)

module _ {w : World} where
  -- The sessions of the list are over.
  pub record Ended (s : AppState w) (ids : List Text) (t : AppState w) : Type 0 where
    pub pending :
        (d : Text)
        → lookup d t.pending_removals
          ≡ (if Sets.contains d ids then none else lookup d s.pending_removals)
    pub members :
        (d j : Text)
        → Sets.contains d (members_of t j) ≡ (
            if Sets.contains d ids && Sets.contains j (pending_rooms s d)
            then false
            else Sets.contains d (members_of s j))
    pub rest :
        (d j : Text)
        → IsListed s d j
        → (Sets.contains d ids && Sets.contains j (pending_rooms s d)) ≡ false
        → IsListed t d j
    pub consistent : IsConsistent s → IsConsistent t
    pub within : IsWithinLimits s → IsWithinLimits t

  Ended-refl : (s : AppState w) → Ended s [] s
  unfolding Sets.contains
  Ended-refl s = record {
    pending = λ d. refl;
    members = λ d j. refl;
    rest = λ d j l e. l;
    consistent = λ h. h;
    within = λ h. h;
  }

  expire_session-Ended : (s : AppState w) (c : Text) → Ended s (c ∷ []) (expire_session s c)
  unfolding expire_session Sets.contains
  expire_session-Ended s c = elim (Option-cases (lookup c s.pending_removals)) [
    | inl e ↦
        rw (e, expire_session)
          (record {
            pending = λ d. ground (arith, e, text_beq_iff c d);
            members = λ d j. ground (arith, e, text_beq_iff c d);
            rest = λ d j l f. l;
            consistent = λ h. h;
            within = λ h. h;
          })
    | inr (p, e) ↦
        let purged =
          remove_from_rooms-Purged (record s { pending_removals = remove c s.pending_removals }) c
            p.rooms in
        rw (e, expire_session)
          (record {
            pending = λ d.
                ap (lookup d) purged.same.pending_removals
                ∙ ground (arith, lookup-remove c d s.pending_removals);
            members = λ d j. ground (arith, purged.members d j, e, text_beq_iff c d);
            rest = λ d j l f.
                ground (arith, purged.rest j, purged.others d, l, f, e, text_beq_iff c d);
            consistent =
                λ h. purged.consistent (record { listed = h.listed; inhabited = h.inhabited });
            within = λ h. purged.within (record {
              room_size = h.room_size;
              client_rooms = h.client_rooms;
              total = h.total;
            });
          })
  ]

  Ended-Ended :
      {s t u : AppState w} {c : Text} {ids : List Text}
      → Ended s (c ∷ []) t
      → Ended t ids u
      → Ended s (c ∷ ids) u
  unfolding Sets.contains
  Ended-Ended {s} {t} {u} {c} {ids} p q = record {
    pending = λ d. ground (arith, q.pending d, p.pending d);
    members = λ d j. ground (arith, q.members d j, p.members d j, p.pending d);
    rest =
        λ d j l e. q.rest d j (p.rest d j l (ground (arith, e))) (ground (arith, e, p.pending d));
    consistent = λ h. q.consistent (p.consistent h);
    within = λ h. q.within (p.within h);
  }

  pub expire_sessions-Ended :
      (s : AppState w) (ids : List Text) → Ended s ids (expire_sessions s ids)
  unfolding expire_sessions
  expire_sessions-Ended s [] = Ended-refl s
  expire_sessions-Ended s (c ∷ ids) =
      Ended-Ended (expire_session-Ended s c) (expire_sessions-Ended (expire_session s c) ids)
