-- ===== src/Sessions/Purge.antt =====
-- What removing a client from a list of rooms does (src/handlers/message.rs).
use dendri_server.Common.{
  ◌≡◌, refl, ◌∙◌, false, ◌&&◌, List, [], ◌∷◌, Text, arith, if◌then◌else◌, text_beq, text_eq,
  text_beq_iff,
}
use dendri_server.Common.Sets
use dendri_server.Dispatch.Invariant.{
  IsListed, IsConsistent, IsWithinLimits, Leaves-IsConsistent, Leaves-IsWithinLimits,
}
use dendri_server.Rooms.{remove_client_from_room}
use dendri_server.Rooms.Leaving.{SameRest, Leaves, remove_client_from_room-Leaves}
use dendri_server.Sessions.{remove_from_rooms}
use dendri_server.State.{AppState, members_of, rooms_of}
use dendri_server.World.{World}

module _ {w : World} where
  -- The client is out of the rooms of the list, and every other membership stays.
  pub record Purged (s : AppState w) (c : Text) (ks : List Text) (t : AppState w) : Type 0 where
    pub members :
        (d j : Text)
        → Sets.contains d (members_of t j)
          ≡ (if text_beq c d && Sets.contains j ks then false else Sets.contains d (members_of s j))
    pub others : (d : Text) → text_beq c d ≡ false → rooms_of t d ≡ rooms_of s d
    pub own : (j : Text) → IsListed t c j → IsListed s c j
    pub rest : (j : Text) → IsListed s c j → Sets.contains j ks ≡ false → IsListed t c j
    pub same : SameRest s t
    pub consistent : IsConsistent s → IsConsistent t
    pub within : IsWithinLimits s → IsWithinLimits t

  Purged-refl : (s : AppState w) (c : Text) → Purged s c [] s
  unfolding Sets.contains
  Purged-refl s c = record {
    members = λ d j. ground arith;
    others = λ d e. refl;
    own = λ j l. l;
    rest = λ j l e. l;
    same = record {
      config = refl;
      pending_removals = refl;
      client_tenants = refl;
      client_claims = refl;
    };
    consistent = λ h. h;
    within = λ h. h;
  }

  SameRest-trans : {s t u : AppState w} → SameRest s t → SameRest t u → SameRest s u
  SameRest-trans p q = record {
    config = q.config ∙ p.config;
    pending_removals = q.pending_removals ∙ p.pending_removals;
    client_tenants = q.client_tenants ∙ p.client_tenants;
    client_claims = q.client_claims ∙ p.client_claims;
  }

  Leaves-Purged :
      {s t u : AppState w} {c k : Text} {ks : List Text}
      → Leaves s c k t
      → Purged t c ks u
      → Purged s c (k ∷ ks) u
  unfolding Sets.contains
  Leaves-Purged {s} {t} {u} {c} {k} {ks} v p = record {
    members = λ d j. ground (
      arith,
      p.members d j,
      v.members j,
      text_beq_iff k j,
      text_beq_iff c d,
      Sets.contains-remove c d (members_of s j),
    );
    others = λ d e. p.others d e ∙ ground (arith, e, v.joined d);
    own = λ j l. ground (arith, p.own j l, v.joined c, Sets.contains-remove k j (rooms_of s c));
    rest = λ j l e.
        p.rest j
          (ground
            (arith, e, l, v.joined c, Sets.contains-remove k j (rooms_of s c), text_beq_iff k j))
          (ground (arith, e));
    same = SameRest-trans v.same p.same;
    consistent = λ h. p.consistent (Leaves-IsConsistent v h);
    within = λ h. p.within (Leaves-IsWithinLimits v h);
  }

  pub remove_from_rooms-Purged :
      (s : AppState w) (c : Text) (ks : List Text) → Purged s c ks (remove_from_rooms s c ks)
  unfolding remove_from_rooms
  remove_from_rooms-Purged s c [] = Purged-refl s c
  remove_from_rooms-Purged s c (k ∷ ks) =
      Leaves-Purged (remove_client_from_room-Leaves s c k)
        (remove_from_rooms-Purged (remove_client_from_room s c k) c ks)
