-- ===== src/Relay/Data.antt =====
-- A DATA message to a room (`handle_data` of src/handlers/message.rs), from end to end.
use dendri_server.Common.{
  ℕ, ◌≡◌, refl, ap, ◌∙◌, Bool, true, false, not, ◌||◌, Option, some, List, [], ◌∷◌, ◌++◌, arith,
  Text, if◌then◌else◌, text_eq,
}
use dendri_server.Enums.{Message}
use dendri_server.Relay.{
  buffer_frame, is_ephemeral, fan_out, relay, next_seq, stamped, is_valid_or_absent, handle_data,
}
use dendri_server.Relay.Delivery.{replicate, hits, queue-fan_out, fan_out-OnlySends}
use dendri_server.Replay.{push}
use dendri_server.State.{AppState, room_key, members_of}
use dendri_server.State.Sends.{reaches}
use dendri_server.Validation.{is_valid_identifier}
use dendri_server.World.{World, Clock}

if_false : {A : Type 0} (b : Bool) (x y : A) → b ≡ false → (if b then x else y) ≡ y
if_false true x y e = ground (arith, e)
if_false false x y e = refl

module _ {w : World} where
  abbrev pub numbered : AppState w → AppState w
  numbered s = record s { seq_counter = next_seq s }

  hits-numbered :
      (s : AppState w) (c : ℕ) (ms : List Text) (client_id : Text)
      → hits (numbered s) c ms client_id ≡ hits s c ms client_id
  unfolding hits reaches
  hits-numbered s c [] client_id = refl
  hits-numbered s c (m ∷ ms) client_id = rw (hits-numbered s c ms client_id) refl

  channels-buffer_frame :
      (s : AppState w) (now : Clock) (topic_class : Option Text) (key : Text) (seq : ℕ)
      (frame : Text)
      → (buffer_frame s now topic_class key seq frame).channels ≡ s.channels
  unfolding buffer_frame
  channels-buffer_frame s now topic_class key seq frame = ground arith

  queue-relay :
      (s : AppState w) (now : Clock) (client_id room_name : Text) (msg : Message) (seq : ℕ)
      (frame : Text) (c : ℕ)
      → msg.room ≡ some room_name
      → ((relay s now client_id msg seq frame).channels c).queue
        ≡ (s.channels c).queue
          ++ replicate (hits s c (members_of s (room_key s client_id room_name)) client_id) frame
  unfolding relay
  queue-relay s now client_id room_name msg seq frame c e =
      rw (e, relay)
        (ap (λ (f : ℕ → _). (f c).queue)
            (channels-buffer_frame
              (fan_out s (members_of s (room_key s client_id room_name)) client_id frame) now
              msg.topic_class (room_key s client_id room_name) seq frame)
          ∙ queue-fan_out s (members_of s (room_key s client_id room_name)) client_id frame c)

  replay_buffer-buffer_frame :
      (s : AppState w) (now : Clock) (topic_class : Option Text) (key : Text) (seq : ℕ)
      (frame : Text)
      → (buffer_frame s now topic_class key seq frame).replay_buffer ≡ (
          if is_ephemeral topic_class
          then s.replay_buffer
          else push s.replay_buffer now.instant key seq frame)
  unfolding buffer_frame
  replay_buffer-buffer_frame s now topic_class key seq frame = ground arith

  replay_buffer-relay :
      (s : AppState w) (now : Clock) (client_id room_name : Text) (msg : Message) (seq : ℕ)
      (frame : Text)
      → msg.room ≡ some room_name
      → (relay s now client_id msg seq frame).replay_buffer ≡ (
          if is_ephemeral msg.topic_class
          then s.replay_buffer
          else push s.replay_buffer now.instant (room_key s client_id room_name) seq frame)
  unfolding relay
  replay_buffer-relay s now client_id room_name msg seq frame e =
      let members = members_of s (room_key s client_id room_name) in
      let sent : (fan_out s members client_id frame).replay_buffer ≡ s.replay_buffer =
        ap (λ (t : AppState w). t.replay_buffer)
          (fan_out-OnlySends s members client_id frame).moved in
      rw (e, relay)
        (replay_buffer-buffer_frame (fan_out s members client_id frame) now msg.topic_class
            (room_key s client_id room_name) seq frame
          ∙ ap
              (λ r.
                if is_ephemeral msg.topic_class
                then r
                else push r now.instant (room_key s client_id room_name) seq frame)
              sent)

  handle_data-relay :
      (s : AppState w) (now : Clock) (client_id room_name : Text) (msg : Message)
      → s.config.enable_relay ≡ true
      → msg.room ≡ some room_name
      → is_valid_identifier room_name ≡ true
      → is_valid_or_absent msg.dst ≡ true
      → handle_data s now client_id msg
        ≡ relay
            (numbered s)
            now
            client_id
            (stamped s now msg)
            (next_seq s)
            (w.json.message_to_json (stamped s now msg))
  unfolding handle_data
  handle_data-relay s now client_id room_name msg on e valid dst =
      if_false (not s.config.enable_relay) _ _ (ground (arith, on))
      ∙ if_false (not (is_valid_or_absent msg.room) || not (is_valid_or_absent msg.dst)) _ _
          (ground (arith, e, valid, dst))

  -- With relaying on, a DATA message to a valid room (and to a valid destination or none) puts the
  -- message, numbered and stamped by the server, behind what is in each channel, once for each
  -- member of the sender's stored room, the sender left out, whose open sender is on the channel.
  pub queue-handle_data :
      (s : AppState w) (now : Clock) (client_id room_name : Text) (msg : Message) (c : ℕ)
      → s.config.enable_relay ≡ true
      → msg.room ≡ some room_name
      → is_valid_identifier room_name ≡ true
      → is_valid_or_absent msg.dst ≡ true
      → ((handle_data s now client_id msg).channels c).queue
        ≡ (s.channels c).queue
          ++ replicate
              (hits s c (members_of s (room_key s client_id room_name)) client_id)
              (w.json.message_to_json (stamped s now msg))
  unfolding room_key
  queue-handle_data s now client_id room_name msg c on e valid dst =
      ap (λ (t : AppState w). (t.channels c).queue)
        (handle_data-relay s now client_id room_name msg on e valid dst)
      ∙ queue-relay (numbered s) now client_id room_name (stamped s now msg) (next_seq s)
          (w.json.message_to_json (stamped s now msg)) c e
      ∙ rw (hits-numbered s c (members_of s (room_key s client_id room_name)) client_id) refl

  -- With relaying on, a DATA message to a valid room (and to a valid destination or none) is stored
  -- in the replay buffer of the sender's stored room under the server's number, unless its class is
  -- ephemeral: then the replay buffer stays as it is.
  pub replay_buffer-handle_data :
      (s : AppState w) (now : Clock) (client_id room_name : Text) (msg : Message)
      → s.config.enable_relay ≡ true
      → msg.room ≡ some room_name
      → is_valid_identifier room_name ≡ true
      → is_valid_or_absent msg.dst ≡ true
      → (handle_data s now client_id msg).replay_buffer ≡ (
          if is_ephemeral msg.topic_class
          then s.replay_buffer
          else push s.replay_buffer now.instant
              (room_key s client_id room_name)
              (next_seq s)
              (w.json.message_to_json (stamped s now msg)))
  unfolding room_key
  replay_buffer-handle_data s now client_id room_name msg on e valid dst =
      ap (λ (t : AppState w). t.replay_buffer)
        (handle_data-relay s now client_id room_name msg on e valid dst)
      ∙ replay_buffer-relay (numbered s) now client_id room_name (stamped s now msg) (next_seq s)
          (w.json.message_to_json (stamped s now msg)) e
