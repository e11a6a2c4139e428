-- ===== src/Dispatch/Signals.antt =====
-- Offers, answers and the like between peers (src/handlers/message.rs).
use dendri_server.Common.{
  ℕ, ◌≡◌, refl, ap, ◌∙◌, inl, inr, Bool, true, false, none, some, [], Text, arith, text_eq,
  if◌then◌else◌, unwrap_or, Bool-cases,
}
use dendri_server.Common.Maps.{lookup}
use dendri_server.Dispatch.{dispatch, record_activity, handle_message}
use dendri_server.Enums.{Message, MessageType}
use dendri_server.Realm
use dendri_server.Relay.{is_empty, is_not_queued, queue_message_raw, transmit, handle_transmission}
use dendri_server.State.{AppState, put_frame, send}
use dendri_server.World.{World, Clock}

-- The types that `handle_message` hands to `handle_transmission`.
abbrev pub is_transmission : MessageType → Bool
is_transmission MessageType.offer = true
is_transmission MessageType.answer = true
is_transmission MessageType.candidate = true
is_transmission MessageType.ack = true
is_transmission MessageType.leave = true
is_transmission MessageType.expire = true
is_transmission _ = false

module _ {w : World} where
  dispatch_lem :
      (t : MessageType) (s : AppState w) (now : Clock) (client_id : Text) (msg : Message)
      → is_transmission t ≡ true
      → dispatch t s now client_id msg ≡ handle_transmission s now msg
  unfolding dispatch
  dispatch_lem MessageType.offer s now client_id msg e = refl
  dispatch_lem MessageType.answer s now client_id msg e = refl
  dispatch_lem MessageType.candidate s now client_id msg e = refl
  dispatch_lem MessageType.ack s now client_id msg e = refl
  dispatch_lem MessageType.leave s now client_id msg e = refl
  dispatch_lem MessageType.expire s now client_id msg e = refl
  dispatch_lem MessageType.open_ s now client_id msg e = ground (arith, e)
  dispatch_lem MessageType.id_taken s now client_id msg e = ground (arith, e)
  dispatch_lem MessageType.error s now client_id msg e = ground (arith, e)
  dispatch_lem MessageType.heartbeat s now client_id msg e = ground (arith, e)
  dispatch_lem MessageType.data_ s now client_id msg e = ground (arith, e)
  dispatch_lem MessageType.room_join s now client_id msg e = ground (arith, e)
  dispatch_lem MessageType.room_leave s now client_id msg e = ground (arith, e)
  dispatch_lem MessageType.room_peers s now client_id msg e = ground (arith, e)
  dispatch_lem MessageType.presence_update s now client_id msg e = ground (arith, e)

  handle_transmission_lem :
      (s : AppState w) (now : Clock) (msg : Message) (d : Text)
      → msg.dst ≡ some d
      → is_empty d ≡ false
      → handle_transmission s now msg ≡ transmit s now msg (unwrap_or msg.src []) d
  unfolding handle_transmission
  handle_transmission_lem s now msg d e f = rw (e, handle_transmission) (rw f refl)

  recorded :
      (s : AppState w) (now : Clock) (client_id : Text) (t : MessageType)
      → ((record_activity s now client_id t).channels ≡ s.channels)
        × ((record_activity s now client_id t).ws_senders ≡ s.ws_senders)
        × ((record_activity s now client_id t).redis ≡ s.redis)
  unfolding record_activity
  recorded s now client_id t = (ground arith, ground arith, ground arith)

  online :
      (s : AppState w) (now : Clock) (msg : Message) (src d : Text) (ch : ℕ)
      → lookup d s.ws_senders ≡ some ch
      → (s.channels ch).is_open ≡ true
      → (transmit s now msg src d).channels ≡ put_frame ch (w.json.message_to_json msg) s.channels
  unfolding transmit send
  online s now msg src d ch e o = rw (e, transmit) (rw o refl)

  offline :
      (s : AppState w) (now : Clock) (msg : Message) (src d : Text)
      → lookup d s.ws_senders ≡ none
      → (transmit s now msg src d).redis ≡ (
          if is_not_queued msg.type_
          then s.redis
          else (Realm.add_message_to_queue w.redis s.redis now.wall d
              (w.json.message_to_json msg)).0)
  unfolding transmit queue_message_raw
  offline s now msg src d e =
      rw (e, transmit)
        (elim (Bool-cases (is_not_queued msg.type_)) [ inl q ↦ rw q refl | inr q ↦ rw q refl ])

  routed :
      (s : AppState w) (now : Clock) (client_id : Text) (msg : Message) (d : Text)
      → is_transmission msg.type_ ≡ true
      → msg.dst ≡ some d
      → is_empty d ≡ false
      → handle_message s now client_id msg
        ≡ transmit
            (record_activity s now client_id msg.type_)
            now
            (record msg { src = some client_id })
            client_id
            d
  unfolding handle_message
  routed s now client_id msg d t e f =
      dispatch_lem msg.type_ (record_activity s now client_id msg.type_) now client_id
        (record msg { src = some client_id }) t
      ∙ handle_transmission_lem (record_activity s now client_id msg.type_) now
          (record msg { src = some client_id }) d e f

  -- An offer, answer, candidate, ACK, LEAVE or EXPIRE with a destination that is not empty: if the
  -- destination has an open sender, its channel gets the message behind what is there, with the
  -- sender's own id as the source whatever source it claimed, and no other channel changes; if it
  -- has no sender, that message goes into its queue in Redis, but for LEAVE and EXPIRE, for which
  -- Redis is not asked.
  pub handle_message-transmission :
      (s : AppState w) (now : Clock) (client_id : Text) (msg : Message) (d : Text)
      → is_transmission msg.type_ ≡ true
      → msg.dst ≡ some d
      → is_empty d ≡ false
      → ((ch : ℕ)
          → lookup d s.ws_senders ≡ some ch
          → (s.channels ch).is_open ≡ true
          → (handle_message s now client_id msg).channels
            ≡ put_frame ch
                (w.json.message_to_json (record msg { src = some client_id }))
                s.channels)
        × (lookup d s.ws_senders ≡ none
            → (handle_message s now client_id msg).redis ≡ (
                if is_not_queued msg.type_
                then s.redis
                else (Realm.add_message_to_queue w.redis s.redis now.wall d
                    (w.json.message_to_json (record msg { src = some client_id }))).0))
  handle_message-transmission s now client_id msg d t e f =
      let s1 = record_activity s now client_id msg.type_ in
      let msg' : Message = record msg { src = some client_id } in
      let (channels, senders, redis) = recorded s now client_id msg.type_ in
      let path = routed s now client_id msg d t e f in
      (
        (λ ch there is_open.
            ap (λ (u : AppState w). u.channels) path
            ∙ online s1 now msg' client_id d ch (ap (lookup d) senders ∙ there)
                (ap (λ (c : ℕ → _). (c ch).is_open) channels ∙ is_open)
            ∙ ap (put_frame ch (w.json.message_to_json msg')) channels),
        λ away.
            ap (λ (u : AppState w). u.redis) path
            ∙ offline s1 now msg' client_id d (ap (lookup d) senders ∙ away)
            ∙ ap
                (λ r.
                  if is_not_queued msg.type_
                  then r
                  else (Realm.add_message_to_queue w.redis r now.wall d
                      (w.json.message_to_json msg')).0)
                redis,
      )
