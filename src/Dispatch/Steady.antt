-- ===== src/Dispatch/Steady.antt =====
-- The operations of src/handlers/message.rs that leave the two room indexes alone.
use dendri_server.Common.{
  ℕ, ◌≡◌, refl, ap, ◌∙◌, inl, inr, Bool, true, false, not, ◌||◌, Option, none, some, [], Text,
  if◌then◌else◌, unwrap_or, text_eq, Option-cases, Bool-cases,
}
use dendri_server.Common.Maps.{lookup, contains_key}
use dendri_server.Enums.{Message}
use dendri_server.Relay.{
  is_leave, is_not_queued, is_empty, transmit, handle_transmission, buffer_frame, relay,
  handle_data, is_ephemeral, is_valid_or_absent, send_leave_to_source, queue_message_raw, next_seq,
  stamped,
}
use dendri_server.Relay.Delivery.{fan_out-OnlySends}
use dendri_server.Rooms.{store_presence, handle_presence_update}
use dendri_server.Rooms.Leaving.{SameRest, OnlySends-SameRest}
use dendri_server.State.{AppState, send, drop_client, room_key, members_of}
use dendri_server.State.Sends.{OnlySends, send_to-OnlySends}
use dendri_server.Validation.{is_valid_identifier}
use dendri_server.World.{World, Clock}

module _ {w : World} where
  pub record KeepsRooms (s t : AppState w) : Type 0 where
    pub rooms : t.rooms ≡ s.rooms
    pub client_rooms : t.client_rooms ≡ s.client_rooms
    pub same : SameRest s t

  -- From the six equations.
  pub keeps :
      (s t : AppState w)
      → t.rooms ≡ s.rooms
      → t.client_rooms ≡ s.client_rooms
      → t.config ≡ s.config
      → t.pending_removals ≡ s.pending_removals
      → t.client_tenants ≡ s.client_tenants
      → t.client_claims ≡ s.client_claims
      → KeepsRooms s t
  keeps s t a b c d e f = record {
    rooms = a;
    client_rooms = b;
    same = record { config = c; pending_removals = d; client_tenants = e; client_claims = f };
  }

  pub KeepsRooms-refl : (s : AppState w) → KeepsRooms s s
  KeepsRooms-refl s = record {
    rooms = refl;
    client_rooms = refl;
    same = record {
      config = refl;
      pending_removals = refl;
      client_tenants = refl;
      client_claims = refl;
    };
  }

  pub KeepsRooms-trans : {s t u : AppState w} → KeepsRooms s t → KeepsRooms t u → KeepsRooms s u
  KeepsRooms-trans p q = record {
    rooms = q.rooms ∙ p.rooms;
    client_rooms = q.client_rooms ∙ p.client_rooms;
    same = record {
      config = q.same.config ∙ p.same.config;
      pending_removals = q.same.pending_removals ∙ p.same.pending_removals;
      client_tenants = q.same.client_tenants ∙ p.same.client_tenants;
      client_claims = q.same.client_claims ∙ p.same.client_claims;
    };
  }

  pub OnlySends-KeepsRooms : {s t : AppState w} → OnlySends s t → KeepsRooms s t
  OnlySends-KeepsRooms o = record {
    rooms = ap (λ (t : AppState w). t.rooms) o.moved;
    client_rooms = ap (λ (t : AppState w). t.client_rooms) o.moved;
    same = OnlySends-SameRest o;
  }

  pub drop_client-KeepsRooms : (s : AppState w) (id : Text) → KeepsRooms s (drop_client s id)
  unfolding drop_client
  drop_client-KeepsRooms s id = elim (Bool-cases (contains_key id s.clients)) [
    | inl e ↦ rw (e, drop_client) (keeps s _ refl refl refl refl refl refl)
    | inr e ↦ rw (e, drop_client) (keeps s _ refl refl refl refl refl refl)
  ]

  transmit-KeepsRooms :
      (s : AppState w) (now : Clock) (msg : Message) (src_id dst_id : Text)
      → KeepsRooms s (transmit s now msg src_id dst_id)
  unfolding transmit send queue_message_raw send_leave_to_source
  transmit-KeepsRooms s now msg src_id dst_id = elim (Option-cases (lookup dst_id s.ws_senders)) [
    | inl e ↦
        rw (e, transmit)
          (elim (Bool-cases (is_not_queued msg.type_)) [
            | inl q ↦ rw q (KeepsRooms-refl s)
            | inr q ↦ rw q (keeps s _ refl refl refl refl refl refl)
          ])
    | inr (ch, e) ↦
        rw (e, transmit)
          (elim (Bool-cases (s.channels ch).is_open) [
            | inl o ↦ rw o (keeps s _ refl refl refl refl refl refl)
            | inr o ↦ rw o (
                KeepsRooms-trans (drop_client-KeepsRooms s dst_id)
                  (OnlySends-KeepsRooms (send_to-OnlySends _ src_id _)))
          ])
  ]

  pub handle_transmission-KeepsRooms :
      (s : AppState w) (now : Clock) (msg : Message) → KeepsRooms s (handle_transmission s now msg)
  unfolding handle_transmission
  handle_transmission-KeepsRooms s now msg = elim (Bool-cases (is_empty (unwrap_or msg.dst []))) [
    | inr e ↦ rw (e, handle_transmission) (transmit-KeepsRooms s now msg _ _)
    | inl e ↦
        rw (e, handle_transmission)
          (elim (Bool-cases (is_leave msg.type_)) [
            | inl l ↦ rw l (drop_client-KeepsRooms s _)
            | inr l ↦ rw l (KeepsRooms-refl s)
          ])
  ]

  buffer_frame-KeepsRooms :
      (s : AppState w) (now : Clock) (topic_class : Option Text) (key : Text) (seq : ℕ)
      (frame : Text)
      → KeepsRooms s (buffer_frame s now topic_class key seq frame)
  unfolding buffer_frame
  buffer_frame-KeepsRooms s now topic_class key seq frame =
      elim (Bool-cases (is_ephemeral topic_class)) [
        | inl e ↦ rw (e, buffer_frame) (KeepsRooms-refl s)
        | inr e ↦ rw (e, buffer_frame) (keeps s _ refl refl refl refl refl refl)
      ]

  relay-KeepsRooms :
      (s : AppState w) (now : Clock) (client_id : Text) (msg : Message) (seq : ℕ) (frame : Text)
      → KeepsRooms s (relay s now client_id msg seq frame)
  unfolding relay
  relay-KeepsRooms s now client_id msg seq frame = elim (Option-cases msg.room) [
    | inr (room_name, e) ↦
        rw (e, relay)
          (KeepsRooms-trans
            (OnlySends-KeepsRooms
              (fan_out-OnlySends s (members_of s (room_key s client_id room_name)) client_id frame))
            (buffer_frame-KeepsRooms _ now msg.topic_class (room_key s client_id room_name) seq
              frame))
    | inl e ↦
        rw (e, relay)
          (elim (Option-cases msg.dst) [
            | inl f ↦ rw (f, relay) (KeepsRooms-refl s)
            | inr (dst_id, f) ↦
                rw (f, relay)
                  (KeepsRooms-trans (OnlySends-KeepsRooms (send_to-OnlySends s dst_id frame))
                    (buffer_frame-KeepsRooms _ now msg.topic_class dst_id seq frame))
          ])
  ]

  either :
      (b : Bool) {s x y : AppState w}
      → KeepsRooms s x
      → KeepsRooms s y
      → KeepsRooms s (if b then x else y)
  either true p q = p
  either false p q = q

  pub handle_data-KeepsRooms :
      (s : AppState w) (now : Clock) (client_id : Text) (msg : Message)
      → KeepsRooms s (handle_data s now client_id msg)
  unfolding handle_data
  handle_data-KeepsRooms s now client_id msg =
      either (not s.config.enable_relay) (OnlySends-KeepsRooms (send_to-OnlySends s client_id _)) (
        either (not (is_valid_or_absent msg.room) || not (is_valid_or_absent msg.dst))
          (KeepsRooms-refl s)
          (KeepsRooms-trans (keeps s numbered refl refl refl refl refl refl)
            (relay-KeepsRooms numbered now client_id (stamped s now msg) (next_seq s) _)))
    where
      numbered : AppState w
      numbered = record s { seq_counter = next_seq s }

  pub handle_presence_update-KeepsRooms :
      (s : AppState w) (client_id : Text) (msg : Message)
      → KeepsRooms s (handle_presence_update s client_id msg)
  unfolding handle_presence_update
  handle_presence_update-KeepsRooms s client_id msg = elim (Option-cases msg.room) [
    | inl e ↦ rw (e, handle_presence_update) (KeepsRooms-refl s)
    | inr (room_name, e) ↦
        rw (e, handle_presence_update)
          (elim (Bool-cases (is_valid_identifier room_name)) [
            | inr v ↦ rw v (KeepsRooms-refl s)
            | inl v ↦ rw v (
                KeepsRooms-trans (stored s client_id (room_key s client_id room_name) msg.payload)
                  (OnlySends-KeepsRooms (fan_out-OnlySends _ _ client_id _)))
          ])
  ]
    where
      stored :
          (s : AppState w) (client_id key : Text) (payload : Option Text)
          → KeepsRooms s (store_presence s client_id key payload)
      stored s client_id key none = KeepsRooms-refl s
      stored s client_id key (some payload) = keeps s _ refl refl refl refl refl refl
