-- ===== src/Connect/Indexes.antt =====
-- What connecting does to the two room indexes (src/handlers/ws.rs).
use dendri_server.Common.{
  ℕ, ◌≡◌, refl, sym, ap, ◌∙◌, inl, inr, true, Option, none, some, List, [], ◌∷◌, Text, arith,
  text_eq, text_beq_iff, if◌then◌else◌, unwrap_or, Option-cases, Bool-cases, ◌≢◌,
}
use dendri_server.Common.Maps.{lookup, insert, remove, lookup-insert}
use dendri_server.Common.Sets
use dendri_server.Connect.{enforce_jwt, store_client, set_of, rejoin, restore, server_message}
use dendri_server.Connect.Greeting.{
  send_each, requeue, deliver, deliver_queued_messages, greet, open_channel, gap, peers_of,
}
use dendri_server.Connect.Upgrade.{resume, admit}
use dendri_server.Dispatch.Invariant.{IsMember, IsListed, IsConsistent, insert_cons}
use dendri_server.Enums.{MessageType}
use dendri_server.Realm
use dendri_server.Slots.{try_reserve_connection_slot}
use dendri_server.State.{AppState, send, notify, members_of}
use dendri_server.Tenant.{Tenant}
use dendri_server.World.{World, Clock}

insert_again : (id : Text) (xs : List Text) → Sets.insert id (Sets.insert id xs) ≡ Sets.insert id xs
unfolding Sets.insert
insert_again id xs = ground (arith, Sets.contains-insert id id xs, text_beq_iff id id)

contains-set_of : (j : Text) (ks : List Text) → Sets.contains j (set_of ks) ≡ Sets.contains j ks
unfolding Sets.contains
contains-set_of j [] = refl
contains-set_of j (k ∷ ks) =
    ground (arith, contains-set_of j ks, Sets.contains-insert k j (set_of ks), text_beq_iff k j)

module _ {w : World} where
  -- The indexes, and what a sweep reads besides.
  pub record SameIndexes (s t : AppState w) : Type 0 where
    pub rooms : t.rooms ≡ s.rooms
    pub client_rooms : t.client_rooms ≡ s.client_rooms
    pub pending_removals : t.pending_removals ≡ s.pending_removals
    pub config : t.config ≡ s.config

  pub same :
      {s t : AppState w}
      → t.rooms ≡ s.rooms
      → t.client_rooms ≡ s.client_rooms
      → t.pending_removals ≡ s.pending_removals
      → t.config ≡ s.config
      → SameIndexes s t
  same e f g h = record { rooms = e; client_rooms = f; pending_removals = g; config = h }

  pub SameIndexes-trans : {s t u : AppState w} → SameIndexes s t → SameIndexes t u → SameIndexes s u
  SameIndexes-trans p q = record {
    rooms = q.rooms ∙ p.rooms;
    client_rooms = q.client_rooms ∙ p.client_rooms;
    pending_removals = q.pending_removals ∙ p.pending_removals;
    config = q.config ∙ p.config;
  }

  pub SameIndexes-IsConsistent :
      {s t : AppState w} → SameIndexes s t → IsConsistent s → IsConsistent t
  SameIndexes-IsConsistent p h = record {
    listed = λ d j l. ground (arith, h.listed d j, l, p.rooms, p.client_rooms);
    inhabited = λ j e. h.inhabited j (sym (ap (lookup j) p.rooms) ∙ e);
  }

  pub send-SameIndexes :
      (s : AppState w) (ch : ℕ) (frame : Text) → SameIndexes s (send s ch frame).0
  unfolding send
  send-SameIndexes s ch frame = elim (Bool-cases (s.channels ch).is_open) [
    | inl o ↦ rw o (same refl refl refl refl)
    | inr o ↦ rw o (same refl refl refl refl)
  ]

  pub send_each-SameIndexes :
      (s : AppState w) (ch : ℕ) (frames : List Text) → SameIndexes s (send_each s ch frames)
  unfolding send_each
  send_each-SameIndexes s ch [] = same refl refl refl refl
  send_each-SameIndexes s ch (f ∷ fs) =
      SameIndexes-trans (send-SameIndexes s ch f) (send_each-SameIndexes (send s ch f).0 ch fs)

  requeue-SameIndexes :
      (s : AppState w) (ch : ℕ) (raws : List Text) → SameIndexes s (requeue s ch raws)
  unfolding requeue
  requeue-SameIndexes s ch [] = same refl refl refl refl
  requeue-SameIndexes s ch (r ∷ rs) = elim (Option-cases (w.json.message_from_json r)) [
    | inl e ↦ rw (e, requeue) (requeue-SameIndexes s ch rs)
    | inr (msg, e) ↦
        let sent = send-SameIndexes s ch (w.json.message_to_json msg) in
        rw (e, requeue)
          (elim (Bool-cases (send s ch (w.json.message_to_json msg)).1) [
            | inl ok ↦ rw ok (
                SameIndexes-trans sent
                  (requeue-SameIndexes (send s ch (w.json.message_to_json msg)).0 ch rs))
            | inr bad ↦ rw bad sent
          ])
  ]

  pub deliver-SameIndexes :
      (s : AppState w) (now : Clock) (id : Text) (ch : ℕ)
      → SameIndexes s (deliver_queued_messages s now id ch)
  unfolding deliver_queued_messages
  deliver-SameIndexes s now id ch =
      go (unwrap_or (Realm.read_all_messages w.redis s.redis now.wall id).1 [])
    where
      go :
          (ms : List Text)
          → SameIndexes s (
              deliver
                (record s { redis = (Realm.read_all_messages w.redis s.redis now.wall id).0 })
                id
                ch
                ms)
      go [] = same refl refl refl refl
      go (m ∷ ms) =
          SameIndexes-trans {t = record s { redis = _ }} (same refl refl refl refl)
            (SameIndexes-trans (requeue-SameIndexes _ ch (m ∷ ms)) (same refl refl refl refl))

  greet-SameIndexes :
      (s : AppState w) (now : Clock) (id : Text) (last_seq : Option ℕ) (restored : List Text)
      → SameIndexes s (greet s now id last_seq restored)
  unfolding greet open_channel notify
  greet-SameIndexes s now id last_seq restored =
      let ch = s.next_channel in
      let frame = w.json.message_to_json (server_message MessageType.open_ none) in
      let s1 = (send (open_channel s id) ch frame).0 in
      let s1' = send_each s1 ch (gap s1 id last_seq) in
      let s2 = deliver_queued_messages s1' now id ch in
      SameIndexes-trans {t = open_channel s id} (same refl refl refl refl) (
        SameIndexes-trans (send-SameIndexes (open_channel s id) ch frame) (
          SameIndexes-trans (send_each-SameIndexes s1 ch (gap s1 id last_seq)) (
            SameIndexes-trans (deliver-SameIndexes s1' now id ch) (
              SameIndexes-trans (send_each-SameIndexes s2 ch (peers_of s2 restored))
                (same refl refl refl refl)))))

  store_client-SameIndexes :
      (s : AppState w) (now : Clock) (id token : Text) (tenant : Option Tenant)
      → SameIndexes s (store_client s now id token tenant)
  unfolding store_client
  store_client-SameIndexes s now id token none = same refl refl refl refl
  store_client-SameIndexes s now id token (some t) = same refl refl refl refl

  -- Rejoining only adds the client, to every room of the list.
  record Rejoins (s : AppState w) (id : Text) (ks : List Text) (t : AppState w) : Type 0 where
    members :
        (j : Text)
        → members_of t j
          ≡ (if Sets.contains j ks then Sets.insert id (members_of s j) else members_of s j)
    inhabited : (j : Text) → lookup j s.rooms ≢ some [] → lookup j t.rooms ≢ some []
    client_rooms : t.client_rooms ≡ s.client_rooms

  rejoin-Rejoins : (s : AppState w) (id : Text) (ks : List Text) → Rejoins s id ks (rejoin s id ks)
  unfolding rejoin Sets.contains
  rejoin-Rejoins s id [] = record { members = λ j. refl; inhabited = λ j h. h; client_rooms = refl }
  rejoin-Rejoins s id (k ∷ ks) =
      let s' : AppState w = record s {
        rooms = insert k (Sets.insert id (members_of s k)) s.rooms;
      } in
      let rest = rejoin-Rejoins s' id ks in
      let first = λ (j : Text). lookup-insert k j (Sets.insert id (members_of s k)) s.rooms in
      record {
        members = λ j. ground (
          arith,
          rest.members j,
          lookup-insert k j (Sets.insert id (members_of s k)) s.rooms,
          text_beq_iff k j,
          insert_again id (members_of s j),
        );
        inhabited = λ j h. rest.inhabited j (λ e. ground (
          arith,
          h,
          e,
          lookup-insert k j (Sets.insert id (members_of s k)) s.rooms,
          insert_cons id (members_of s k),
        ));
        client_rooms = rest.client_rooms;
      }

  rejoined :
      (s : AppState w) (id : Text) (ks : List Text) (t : AppState w)
      → Rejoins s id ks t
      → ((d j : Text) → IsListed s d j → IsMember s d j)
      → (d j : Text)
      → Sets.contains j (unwrap_or (lookup d (insert id (set_of ks) t.client_rooms)) []) ≡ true
      → IsMember t d j
  rejoined s id ks t r h d j l = ground (
    arith,
    h d j,
    l,
    r.members j,
    r.client_rooms,
    lookup-insert id d (set_of ks) t.client_rooms,
    text_beq_iff id d,
    contains-set_of j ks,
    Sets.contains-insert id d (members_of s j),
  )

  restore-IsConsistent :
      (s : AppState w) (id : Text) → IsConsistent s → IsConsistent (restore s id).0
  unfolding restore
  restore-IsConsistent s id h = elim (Option-cases (lookup id s.pending_removals)) [
    | inl e ↦ rw (e, restore) h
    | inr (p, e) ↦
        let r =
          rejoin-Rejoins (record s { pending_removals = remove id s.pending_removals }) id
            p.rooms in
        rw (e, restore)
          (record {
            listed = λ d j l. rejoined _ id p.rooms _ r h.listed d j l;
            inhabited = λ j. r.inhabited j (h.inhabited j);
          })
  ]

  pub enforce_jwt-SameIndexes :
      (s : AppState w) (now : Clock) (tenant : Option Tenant) (jwt : Option Text) (id : Text)
      → SameIndexes s (enforce_jwt s now tenant jwt id).0
  unfolding enforce_jwt
  enforce_jwt-SameIndexes s now tenant jwt id =
      same (ground arith) (ground arith) (ground arith) (ground arith)

  pub resume-IsConsistent :
      (s : AppState w) (now : Clock) (id token : Text) (tenant : Option Tenant)
      (last_seq : Option ℕ)
      → IsConsistent s
      → IsConsistent (resume s now id token tenant last_seq).0
  unfolding resume
  resume-IsConsistent s now id token tenant last_seq h =
      let s0 = store_client s now id token tenant in
      let s1 = (restore s0 id).0 in
      let h1 =
        restore-IsConsistent s0 id
          (SameIndexes-IsConsistent (store_client-SameIndexes s now id token tenant) h) in
      let redis = (Realm.set_last_ping w.redis s1.redis now.wall id s1.config.alive_timeout).0 in
      SameIndexes-IsConsistent
        (SameIndexes-trans {t = record s1 { redis = redis }} (same refl refl refl refl)
          (greet-SameIndexes (record s1 { redis = redis }) now id last_seq (restore s0 id).1))
        h1

  pub admit-SameIndexes :
      (s : AppState w) (now : Clock) (id token : Text) (tenant : Option Tenant)
      (last_seq : Option ℕ)
      → SameIndexes s (admit s now id token tenant last_seq).0
  unfolding admit
  admit-SameIndexes s now id token tenant last_seq =
      let (count, reserved) =
        try_reserve_connection_slot s.active_connections s.config.concurrent_limit in
      let (redis, ok) =
        Realm.register_client w.redis s.redis now.wall id token s.config.alive_timeout in
      let s2 : AppState w = record s { active_connections = count; redis = redis } in
      elim (Bool-cases reserved) [
        | inr full ↦ rw (full, admit) (same refl refl refl refl)
        | inl free ↦
            rw (free, admit)
              (elim (Bool-cases ok) [
                | inr bad ↦ rw bad (same refl refl refl refl)
                | inl fine ↦ rw fine (
                    SameIndexes-trans {t = s2} (same refl refl refl refl) (
                      SameIndexes-trans (store_client-SameIndexes s2 now id token tenant) (
                        greet-SameIndexes (store_client s2 now id token tenant) now id last_seq
                          [])))
              ])
      ]
