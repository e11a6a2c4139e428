-- ===== src/Sessions/Grace.antt =====
-- What a disconnection and the sweep over disconnected clients do to memberships
-- (src/handlers/message.rs).
use dendri_server.Common.{
  ◌-◌, ◌≡◌, refl, sym, ap, ◌∙◌, inl, inr, true, false, not, ◌&&◌, none, some, [], ◌∷◌, Text, arith,
  leb, nat_beq, if◌then◌else◌, unwrap_or, text_beq, text_eq, text_beq_iff, Option-cases, Bool-cases,
}
use dendri_server.Common.Maps.{
  lookup, remove, lookup-remove, lookup-insert, IsDistinct, insert-IsDistinct,
}
use dendri_server.Common.Sets
use dendri_server.Dispatch.Invariant.{IsMember, IsListed, IsConsistent}
use dendri_server.Dispatch.Membership.{IsAccounted, pending_rooms}
use dendri_server.Rooms.{is_nil}
use dendri_server.Sessions.{
  expired_ids, cleanup_expired_sessions, immediate_remove_from_all_rooms,
  remove_client_from_all_rooms,
}
use dendri_server.Sessions.Purge.{remove_from_rooms-Purged}
use dendri_server.Sessions.Expiry.{is_due, contains-expired_ids, Ended, expire_sessions-Ended}
use dendri_server.State.{AppState, members_of, rooms_of}
use dendri_server.World.{World, Clock}

contains_nil : (k : Text) → Sets.contains k [] ≡ false
unfolding Sets.contains
contains_nil k = refl

module _ {w : World} where
  cleanup-Ended :
      (s : AppState w) (now : Clock)
      → nat_beq s.config.session_ttl 0 ≡ false
      → Ended s
          (expired_ids now.instant s.config.session_ttl s.pending_removals)
          (cleanup_expired_sessions s now)
  unfolding cleanup_expired_sessions
  cleanup-Ended s now e = rw (e, cleanup_expired_sessions) (expire_sessions-Ended s _)

  -- With a session TTL, and pending removals of distinct clients, `cleanup_expired_sessions` takes
  -- each client whose TTL has passed out of its pending rooms, and changes no other membership.
  pub contains-cleanup_expired_sessions :
      (s : AppState w) (now : Clock)
      → nat_beq s.config.session_ttl 0 ≡ false
      → IsDistinct s.pending_removals
      → (d k : Text)
      → Sets.contains d (members_of (cleanup_expired_sessions s now) k) ≡ (
          if is_due now.instant s.config.session_ttl (lookup d s.pending_removals)
            && Sets.contains k (pending_rooms s d)
          then false
          else Sets.contains d (members_of s k))
  contains-cleanup_expired_sessions s now ttl distinct d k =
      (cleanup-Ended s now ttl).members d k
      ∙ rw (contains-expired_ids now.instant s.config.session_ttl s.pending_removals d distinct)
          refl

  -- With a session TTL, if each member of a room has the room listed for it or awaits its removal
  -- from it, then so it is after `cleanup_expired_sessions`.
  cleanup_expired_sessions-IsAccounted :
      (s : AppState w) (now : Clock)
      → nat_beq s.config.session_ttl 0 ≡ false
      → IsAccounted s
      → IsAccounted (cleanup_expired_sessions s now)
  cleanup_expired_sessions-IsAccounted s now ttl h d k m =
      let ended = cleanup-Ended s now ttl in
      ground (arith, m, h d k, ended.members d k, ended.rest d k, ended.pending d)

  -- The client's rooms, if it has any, are kept for the sweep, and the rooms for it.
  pub record Deferred (s : AppState w) (now : Clock) (c : Text) (t : AppState w) : Type 0 where
    rooms : t.rooms ≡ s.rooms
    pub config : t.config ≡ s.config
    listed : (d : Text) → rooms_of t d ≡ (if text_beq c d then [] else rooms_of s d)
    pending :
        (d : Text)
        → lookup d t.pending_removals ≡ (
            if text_beq c d && not (is_nil (rooms_of s c))
            then some (record { rooms = rooms_of s c; disconnected_at = now.instant })
            else lookup d s.pending_removals)
    distinct : IsDistinct s.pending_removals → IsDistinct t.pending_removals

  pub defer-Deferred :
      (s : AppState w) (now : Clock) (c : Text)
      → nat_beq s.config.session_ttl 0 ≡ false
      → Deferred s now c (remove_client_from_all_rooms s now c)
  unfolding remove_client_from_all_rooms
  defer-Deferred s now c ttl = elim (Option-cases (lookup c s.client_rooms)) [
    | inl e ↦
        rw (ttl, e, remove_client_from_all_rooms)
          (record {
            rooms = refl;
            config = refl;
            listed = λ d. ground (arith, e, text_beq_iff c d);
            pending = λ d. ground (arith, e);
            distinct = λ h. h;
          })
    | inr ([], e) ↦
        rw (ttl, e, remove_client_from_all_rooms)
          (record {
            rooms = refl;
            config = refl;
            listed = λ d. ground (arith, lookup-remove c d s.client_rooms);
            pending = λ d. ground (arith, e);
            distinct = λ h. h;
          })
    | inr (k ∷ ks, e) ↦
        rw (ttl, e, remove_client_from_all_rooms)
          (record {
            rooms = refl;
            config = refl;
            listed = λ d. ground (arith, lookup-remove c d s.client_rooms);
            pending = λ d. ground (
              arith,
              e,
              lookup-insert c d (record { rooms = k ∷ ks; disconnected_at = now.instant })
                  s.pending_removals,
            );
            distinct = insert-IsDistinct c _ s.pending_removals;
          })
  ]

  -- With a session TTL, if each member of a room has the room listed for it or awaits its removal
  -- from it, and the disconnecting client awaits no removal, then so it is after
  -- `remove_client_from_all_rooms`, and every membership is as it was.
  remove_client_from_all_rooms-IsAccounted :
      (s : AppState w) (now : Clock) (c : Text)
      → nat_beq s.config.session_ttl 0 ≡ false
      → lookup c s.pending_removals ≡ none
      → IsAccounted s
      → IsAccounted (remove_client_from_all_rooms s now c)
        × ((k : Text) → members_of (remove_client_from_all_rooms s now c) k ≡ members_of s k)
  remove_client_from_all_rooms-IsAccounted s now c ttl fresh h =
      let v = defer-Deferred s now c ttl in
      (
        (λ d k m.
            ground (arith, m, h d k, v.rooms, v.listed d, v.pending d, fresh, text_beq_iff c d)),
        λ k. ap (λ m. unwrap_or (lookup k m) []) v.rooms,
      )

  pub remove_client_from_all_rooms-IsDistinct :
      (s : AppState w) (now : Clock) (c : Text)
      → nat_beq s.config.session_ttl 0 ≡ false
      → IsDistinct s.pending_removals
      → (nat_beq (remove_client_from_all_rooms s now c).config.session_ttl 0 ≡ false)
        × IsDistinct (remove_client_from_all_rooms s now c).pending_removals
  remove_client_from_all_rooms-IsDistinct s now c ttl distinct =
      let v = defer-Deferred s now c ttl in
      (ap (λ g. nat_beq g.session_ttl 0) v.config ∙ ttl, v.distinct distinct)

  -- With a session TTL, pending removals of distinct clients, each member of a room listed or
  -- awaiting removal, and no removal pending for a client: if it disconnects and the sweep runs
  -- later, it is a member of no room if the TTL has passed, and of the same rooms if not.
  pub cleanup-remove_client_from_all_rooms :
      (s : AppState w) (now later : Clock) (c : Text)
      → nat_beq s.config.session_ttl 0 ≡ false
      → lookup c s.pending_removals ≡ none
      → IsDistinct s.pending_removals
      → IsAccounted s
      → (k : Text)
      → Sets.contains c
          (members_of (cleanup_expired_sessions (remove_client_from_all_rooms s now c) later) k)
        ≡ (if leb s.config.session_ttl (later.instant - now.instant)
            then false
            else Sets.contains c (members_of s k))
  unfolding Sets.contains
  cleanup-remove_client_from_all_rooms s now later c ttl fresh distinct h k =
      let v = defer-Deferred s now c ttl in
      contains-cleanup_expired_sessions (remove_client_from_all_rooms s now c) later
        (ap (λ g. nat_beq g.session_ttl 0) v.config ∙ ttl) (v.distinct distinct) c k
      ∙ ground (arith, h c k, v.rooms, v.config, v.pending c, fresh, text_beq_iff c c)

  -- With a session TTL and pending removals of distinct clients, for a client with some room
  -- listed that is a member of another room which is not listed for it: when it disconnects, that
  -- room is not among its pending ones and still not listed, and a sweep at any time leaves the
  -- client a member of it.
  pub remove_client_from_all_rooms-orphan :
      (s : AppState w) (now later : Clock) (c k : Text)
      → nat_beq s.config.session_ttl 0 ≡ false
      → IsDistinct s.pending_removals
      → is_nil (rooms_of s c) ≡ false
      → Sets.contains k (rooms_of s c) ≡ false
      → IsMember s c k
      → IsMember (cleanup_expired_sessions (remove_client_from_all_rooms s now c) later) c k
        × (Sets.contains k (pending_rooms (remove_client_from_all_rooms s now c) c) ≡ false)
        × ¬ IsListed (remove_client_from_all_rooms s now c) c k
  unfolding Sets.contains
  remove_client_from_all_rooms-orphan s now later c k ttl distinct some_room unlisted m =
      let v = defer-Deferred s now c ttl in
      let lost : Sets.contains k (pending_rooms (remove_client_from_all_rooms s now c) c) ≡ false =
        ground (arith, unlisted, some_room, v.pending c, text_beq_iff c c) in
      (
        contains-cleanup_expired_sessions (remove_client_from_all_rooms s now c) later
              (ap (λ g. nat_beq g.session_ttl 0) v.config ∙ ttl) (v.distinct distinct) c k
            ∙ ground (arith, lost, m, v.rooms),
        lost,
        ground (arith, v.listed c, text_beq_iff c c),
      )

  pub cleanup_expired_sessions-IsConsistent :
      (s : AppState w) (now : Clock)
      → IsConsistent s
      → IsConsistent (cleanup_expired_sessions s now)
  unfolding cleanup_expired_sessions
  cleanup_expired_sessions-IsConsistent s now h =
      elim (Bool-cases (nat_beq s.config.session_ttl 0)) [
        | inl e ↦ rw (e, cleanup_expired_sessions) h
        | inr e ↦ (cleanup-Ended s now e).consistent h
      ]

  immediate-IsConsistent :
      (s : AppState w) (c : Text)
      → IsConsistent s
      → IsConsistent (immediate_remove_from_all_rooms s c)
  unfolding immediate_remove_from_all_rooms
  immediate-IsConsistent s c h = elim (Option-cases (lookup c s.client_rooms)) [
    | inl e ↦
        rw (e, immediate_remove_from_all_rooms)
          (record { listed = h.listed; inhabited = h.inhabited })
    | inr (ks, e) ↦
        let p =
          remove_from_rooms-Purged (record s { client_rooms = remove c s.client_rooms }) c ks in
        let h' =
          p.consistent (record { listed = λ d k l. unlisted d k l; inhabited = h.inhabited }) in
        rw (e, immediate_remove_from_all_rooms)
          (record { listed = h'.listed; inhabited = h'.inhabited })
  ]
    where
      unlisted :
          (d k : Text)
          → Sets.contains k (unwrap_or (lookup d (remove c s.client_rooms)) []) ≡ true
          → IsMember s d k
      unlisted d k l = h.listed d k (no_more d k l)
        where
          no_more :
              (d k : Text)
              → Sets.contains k (unwrap_or (lookup d (remove c s.client_rooms)) []) ≡ true
              → IsListed s d k
          no_more d k l = ground (arith, l, lookup-remove c d s.client_rooms, contains_nil k)

  pub remove_client_from_all_rooms-IsConsistent :
      (s : AppState w) (now : Clock) (c : Text)
      → IsConsistent s
      → IsConsistent (remove_client_from_all_rooms s now c)
  unfolding remove_client_from_all_rooms
  remove_client_from_all_rooms-IsConsistent s now c h =
      elim (Bool-cases (nat_beq s.config.session_ttl 0)) [
        | inl e ↦ rw (e, remove_client_from_all_rooms) (immediate-IsConsistent s c h)
        | inr e ↦
            let v = defer-Deferred s now c e in
            record {
              listed =
                  λ d k l. ground (arith, l, h.listed d k, v.listed d, v.rooms, contains_nil k);
              inhabited = λ k f. h.inhabited k (sym (ap (lookup k) v.rooms) ∙ f);
            }
      ]
