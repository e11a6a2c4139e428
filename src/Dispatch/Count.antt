-- ===== src/Dispatch/Count.antt =====
-- The count of connections (src/state.rs) through every message (src/handlers/message.rs).
use dendri_server.Common.{
  ◌<◌, ◌≡◌, refl, subst, sym, ap, ◌∙◌, inl, inr, [], Text, arith, text_eq, unwrap_or, length,
  Option-cases, Bool-cases,
}
use dendri_server.Common.Maps.{
  lookup, remove, adjust, contains_key, IsDistinct, remove-IsDistinct, adjust-IsDistinct,
  length-remove, length-adjust,
}
use dendri_server.Enums.{Message}
use dendri_server.Relay.{
  is_leave, is_not_queued, is_empty, transmit, send_leave_to_source, queue_message_raw,
  handle_transmission,
}
use dendri_server.Slots.{usize_mod, release_connection_slot}
use dendri_server.State.{AppState, ClientMeta, send, remove_and_release, drop_client}
use dendri_server.State.Sends.{OnlySends, send_to-OnlySends}
use dendri_server.World.{World, Clock}

module _ {w : World} where
  -- The counter is the number of clients, which are distinct and fewer than 2^64.
  pub record IsCounted (s : AppState w) : Type 0 where
    pub distinct : IsDistinct s.clients
    pub count : s.active_connections ≡ length s.clients
    pub small : s.active_connections < usize_mod

  pub same_count :
      {s t : AppState w}
      → t.clients ≡ s.clients
      → t.active_connections ≡ s.active_connections
      → IsCounted s
      → IsCounted t
  same_count e f h = record {
    distinct = subst IsDistinct (sym e) h.distinct;
    count = f ∙ h.count ∙ ap length (sym e);
    small = rw f h.small;
  }

  OnlySends-IsCounted : {s t : AppState w} → OnlySends s t → IsCounted s → IsCounted t
  OnlySends-IsCounted o =
      same_count (ap (λ (t : AppState w). t.clients) o.moved)
        (ap (λ (t : AppState w). t.active_connections) o.moved)

  pub adjust-IsCounted :
      (s : AppState w) (id : Text) (f : ClientMeta → ClientMeta)
      → IsCounted s
      → IsCounted (record s { clients = adjust id f s.clients })
  adjust-IsCounted s id f h = record {
    distinct = adjust-IsDistinct id f s.clients h.distinct;
    count = h.count ∙ sym (length-adjust id f s.clients);
    small = h.small;
  }

  pub remove_and_release-IsCounted :
      (s : AppState w) (id : Text) → IsCounted s → IsCounted (remove_and_release s id)
  unfolding remove_and_release release_connection_slot
  remove_and_release-IsCounted s id h = elim (Bool-cases (contains_key id s.clients)) [
    | inl e ↦
        rw (e, remove_and_release)
          (record {
            distinct = remove-IsDistinct id s.clients h.distinct;
            count = ground (arith, h.count, h.small, e, length-remove id s.clients h.distinct);
            small = omega arith;
          })
    | inr e ↦ rw (e, remove_and_release) h
  ]

  drop_client-IsCounted : (s : AppState w) (id : Text) → IsCounted s → IsCounted (drop_client s id)
  unfolding drop_client
  drop_client-IsCounted s id h =
      same_count {s = remove_and_release (record s { ws_senders = remove id s.ws_senders }) id} refl
        refl
        (remove_and_release-IsCounted (record s { ws_senders = remove id s.ws_senders }) id
          (same_count {s = s} refl refl h))

  transmit-IsCounted :
      (s : AppState w) (now : Clock) (msg : Message) (src_id dst_id : Text)
      → IsCounted s
      → IsCounted (transmit s now msg src_id dst_id)
  unfolding transmit send queue_message_raw send_leave_to_source
  transmit-IsCounted s now msg src_id dst_id h = elim (Option-cases (lookup dst_id s.ws_senders)) [
    | inl e ↦
        rw (e, transmit)
          (elim (Bool-cases (is_not_queued msg.type_)) [
            | inl q ↦ rw q h
            | inr q ↦ rw q (same_count {s = s} refl refl h)
          ])
    | inr (ch, e) ↦
        rw (e, transmit)
          (elim (Bool-cases (s.channels ch).is_open) [
            | inl o ↦ rw o (same_count {s = s} refl refl h)
            | inr o ↦ rw o (
                OnlySends-IsCounted (send_to-OnlySends (drop_client s dst_id) src_id _)
                  (drop_client-IsCounted s dst_id h))
          ])
  ]

  pub handle_transmission-IsCounted :
      (s : AppState w) (now : Clock) (msg : Message)
      → IsCounted s
      → IsCounted (handle_transmission s now msg)
  unfolding handle_transmission
  handle_transmission-IsCounted s now msg h = elim (Bool-cases (is_empty (unwrap_or msg.dst []))) [
    | inr e ↦ rw (e, handle_transmission) (transmit-IsCounted s now msg _ _ h)
    | inl e ↦
        rw (e, handle_transmission)
          (elim (Bool-cases (is_leave msg.type_)) [
            | inl l ↦ rw l (drop_client-IsCounted s _ h)
            | inr l ↦ rw l h
          ])
  ]
