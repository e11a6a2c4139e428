-- ===== src/Connect/Run.antt =====
-- Any sequence of connections, texts, disconnections and sweeps (src/handlers/ws.rs, message.rs).
use dendri_server.Common.{
  ℕ, refl, inl, inr, Bool, true, false, not, ◌||◌, Option, none, some, List, [], ◌∷◌, Text,
  text_beq, text_eq, if◌then◌else◌, Option-cases, Bool-cases,
}
use dendri_server.Common.Maps.{lookup, contains_key}
use dendri_server.Connect.{WsQuery, enforce_jwt}
use dendri_server.Connect.Serving.{
  bucket_name, consume, check_limit, take_message, receive, is_current, forget_client, disconnect,
}
use dendri_server.Connect.Upgrade.{
  Identity, identity, resolve_tenant, existing_token, enter, authorize, handle_socket,
}
use dendri_server.Connect.Indexes.{
  SameIndexes, same, SameIndexes-trans, SameIndexes-IsConsistent, send-SameIndexes,
  enforce_jwt-SameIndexes, resume-IsConsistent, admit-SameIndexes,
}
use dendri_server.Dispatch.Invariant.{IsConsistent, handle_message-keeps}
use dendri_server.Enums.{Message, MessageType}
use dendri_server.Sessions.{cleanup_expired_sessions}
use dendri_server.Sessions.Grace.{
  cleanup_expired_sessions-IsConsistent, remove_client_from_all_rooms-IsConsistent,
}
use dendri_server.State.{AppState, send, notify, remove_and_release}
use dendri_server.Tenant.{Tenant}
use dendri_server.Webhook.{rate_limited}
use dendri_server.Validation.{constant_time_str_eq, is_valid_identifier}
use dendri_server.World.{World, Clock}

-- What may happen to the server over WebSockets.
pub data Event : Type 0 where
  connects : Clock → WsQuery → Event
  receives : Clock → Text → ℕ → Text → Event
  closes : Clock → Text → ℕ → Event
  sweeps : Clock → Event

module _ {w : World} where
  existing_token-SameIndexes : (s : AppState w) (id : Text) → SameIndexes s (existing_token s id).0
  unfolding existing_token
  existing_token-SameIndexes s id = elim (Option-cases (lookup id s.clients)) [
    | inl e ↦ rw (e, existing_token) (same refl refl refl refl)
    | inr (m, e) ↦ rw (e, existing_token) (same refl refl refl refl)
  ]

  enter-IsConsistent :
      (s : AppState w) (now : Clock) (id token : Text) (tenant : Option Tenant)
      (last_seq : Option ℕ)
      → IsConsistent s
      → IsConsistent (enter s now id token tenant last_seq).0
  unfolding enter
  enter-IsConsistent s now id token tenant last_seq h =
      let s1 = (existing_token s id).0 in
      let h1 = SameIndexes-IsConsistent (existing_token-SameIndexes s id) h in
      elim (Option-cases (existing_token s id).1) [
        | inl e ↦
            rw (e, enter)
              (SameIndexes-IsConsistent (admit-SameIndexes s1 now id token tenant last_seq) h1)
        | inr (stored, e) ↦
            rw (e, enter)
              (elim (Bool-cases (text_beq token stored)) [
                | inl ok ↦ rw ok (resume-IsConsistent s1 now id token tenant last_seq h1)
                | inr bad ↦ rw bad h1
              ])
      ]

  pub resolve_tenant-SameIndexes :
      (s : AppState w) (now : Clock) (api_key : Option Text)
      → SameIndexes s (resolve_tenant s now api_key).0
  unfolding resolve_tenant
  resolve_tenant-SameIndexes s now none = same refl refl refl refl
  resolve_tenant-SameIndexes s now (some k) = same refl refl refl refl

  authorize-IsConsistent :
      (s : AppState w) (now : Clock) (q : WsQuery) (who : Identity)
      → IsConsistent s
      → IsConsistent (authorize s now q who).0
  unfolding authorize
  authorize-IsConsistent s now q who h =
      let s1 = (resolve_tenant s now q.api_key).0 in
      let h1 = SameIndexes-IsConsistent (resolve_tenant-SameIndexes s now q.api_key) h in
      elim (Option-cases (resolve_tenant s now q.api_key).1) [
        | inl e ↦ rw (e, authorize) h1
        | inr (tenant, e) ↦
            let s2 = (enforce_jwt s1 now tenant q.jwt who.id).0 in
            let h2 =
              SameIndexes-IsConsistent (enforce_jwt-SameIndexes s1 now tenant q.jwt who.id) h1 in
            rw (e, authorize)
              (elim (Bool-cases (enforce_jwt s1 now tenant q.jwt who.id).1) [
                | inr bad ↦ rw bad h2
                | inl ok ↦ rw ok (enter-IsConsistent s2 now who.id who.token tenant q.last_seq h2)
              ])
      ]

  handle_socket-IsConsistent :
      (s : AppState w) (now : Clock) (q : WsQuery)
      → IsConsistent s
      → IsConsistent (handle_socket s now q).0
  unfolding handle_socket
  handle_socket-IsConsistent s now q h = elim (Option-cases (identity q)) [
    | inl e ↦ rw (e, handle_socket) h
    | inr (who, e) ↦
        rw (e, handle_socket)
          (elim (Bool-cases
            (not (is_valid_identifier who.id) || not (is_valid_identifier who.token))) [
              | inl bad ↦ rw bad h
              | inr ok ↦
                  rw ok
                    (elim (Bool-cases (not (constant_time_str_eq w.ct_eq who.key s.config.key))) [
                      | inl bad ↦ rw bad h
                      | inr good ↦ rw good (authorize-IsConsistent s now q who h)
                    ])
            ])
  ]

  consume-SameIndexes :
      (s : AppState w) (now : Clock) (client_id bucket : Text) (limit : ℕ)
      → SameIndexes s (consume s now client_id bucket limit).0
  consume-SameIndexes s now client_id bucket limit = same refl refl refl refl

  check_limit-SameIndexes :
      (s : AppState w) (now : Clock) (client_id : Text) (t : MessageType)
      → SameIndexes s (check_limit s now client_id t).0
  unfolding check_limit
  check_limit-SameIndexes s now client_id t =
      elim t as (λ t. SameIndexes s (check_limit s now client_id t).0) [
        | MessageType.offer ↦ consume-SameIndexes s now client_id _ _
        | MessageType.answer ↦ consume-SameIndexes s now client_id _ _
        | MessageType.candidate ↦ consume-SameIndexes s now client_id _ _
        | MessageType.data_ ↦ consume-SameIndexes s now client_id _ _
        | _ ↦ same refl refl refl refl
      ]

  take_message-IsConsistent :
      (s : AppState w) (now : Clock) (client_id : Text) (ch : ℕ) (msg : Message)
      → IsConsistent s
      → IsConsistent (take_message s now client_id ch msg)
  unfolding take_message notify
  take_message-IsConsistent s now client_id ch msg h =
      let s' : AppState w = (check_limit s now client_id msg.type_).0 in
      let h' : IsConsistent s' =
        SameIndexes-IsConsistent (check_limit-SameIndexes s now client_id msg.type_) h in
      elim (Bool-cases (check_limit s now client_id msg.type_).1) [
        | inl granted ↦ rw (granted, take_message) (handle_message-keeps s' now client_id msg h')
        | inr refused ↦
            rw (refused, take_message)
              (SameIndexes-IsConsistent
                (SameIndexes-trans
                  {t = notify s' (rate_limited now.wall client_id (bucket_name msg.type_))}
                  (same refl refl refl refl) (send-SameIndexes _ ch _))
                h')
      ]

  receive-IsConsistent :
      (s : AppState w) (now : Clock) (client_id : Text) (ch : ℕ) (text : Text)
      → IsConsistent s
      → IsConsistent (receive s now client_id ch text)
  unfolding receive
  receive-IsConsistent s now client_id ch text h =
      elim (Option-cases (w.json.message_from_json text)) [
        | inl e ↦ rw (e, receive) (choose _ _ _ (sent _) h)
        | inr (msg, e) ↦
            rw (e, receive)
              (choose _ _ _ (sent _) (take_message-IsConsistent s now client_id ch msg h))
      ]
    where
      choose :
          (b : Bool) (x y : AppState w)
          → IsConsistent x
          → IsConsistent y
          → IsConsistent (if b then x else y)
      choose true x y p q = p
      choose false x y p q = q

      sent : (frame : Text) → IsConsistent (send s ch frame).0
      sent frame = SameIndexes-IsConsistent (send-SameIndexes s ch frame) h

  pub forget_client-IsConsistent :
      (s : AppState w) (now : Clock) (client_id : Text)
      → IsConsistent s
      → IsConsistent (forget_client s now client_id)
  unfolding forget_client notify remove_and_release
  forget_client-IsConsistent s now client_id h =
      elim (Bool-cases (contains_key client_id s.clients)) [
        | inl e ↦
            rw (e, forget_client)
              (SameIndexes-IsConsistent (same refl refl refl refl) (
                remove_client_from_all_rooms-IsConsistent _ now client_id
                  (SameIndexes-IsConsistent (same refl refl refl refl) h)))
        | inr e ↦
            rw (e, forget_client)
              (SameIndexes-IsConsistent (same refl refl refl refl) (
                remove_client_from_all_rooms-IsConsistent _ now client_id
                  (SameIndexes-IsConsistent (same refl refl refl refl) h)))
      ]

  disconnect-IsConsistent :
      (s : AppState w) (now : Clock) (client_id : Text) (ch : ℕ)
      → IsConsistent s
      → IsConsistent (disconnect s now client_id ch)
  unfolding disconnect
  disconnect-IsConsistent s now client_id ch h = elim (Bool-cases (is_current s client_id ch)) [
    | inl e ↦
        rw (e, disconnect)
          (SameIndexes-IsConsistent {s = forget_client s now client_id} (same refl refl refl refl)
            (forget_client-IsConsistent s now client_id h))
    | inr e ↦ rw (e, disconnect) (SameIndexes-IsConsistent {s = s} (same refl refl refl refl) h)
  ]

  unfoldable pub step : AppState w → Event → AppState w
  step s (connects now q) = (handle_socket s now q).0
  step s (receives now client_id ch text) = receive s now client_id ch text
  step s (closes now client_id ch) = disconnect s now client_id ch
  step s (sweeps now) = cleanup_expired_sessions s now

  pub run : AppState w → List Event → AppState w
  run s [] = s
  run s (e ∷ es) = run (step s e) es

  pub step-IsConsistent : (s : AppState w) (e : Event) → IsConsistent s → IsConsistent (step s e)
  unfolding step
  step-IsConsistent s (connects now q) h = handle_socket-IsConsistent s now q h
  step-IsConsistent s (receives now client_id ch text) h =
      receive-IsConsistent s now client_id ch text h
  step-IsConsistent s (closes now client_id ch) h = disconnect-IsConsistent s now client_id ch h
  step-IsConsistent s (sweeps now) h = cleanup_expired_sessions-IsConsistent s now h

  -- After any sequence of connection attempts, texts received, disconnections and sweeps over
  -- expired sessions, from a state where every client is a member of each room listed for it and no
  -- stored room is empty, this is so again.
  run-IsConsistent :
      (s : AppState w) (events : List Event) → IsConsistent s → IsConsistent (run s events)
  unfolding run
  run-IsConsistent s [] h = h
  run-IsConsistent s (e ∷ es) h = run-IsConsistent (step s e) es (step-IsConsistent s e h)
