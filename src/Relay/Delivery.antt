-- ===== src/Relay/Delivery.antt =====
-- Who gets a relayed frame (`handle_data` of src/handlers/message.rs), and how often.
use dendri_server.Common.{
  ℕ, zero, suc, ◌≡◌, refl, sym, ◌∙◌, List, [], ◌∷◌, ◌++◌, Text, text_beq, if◌then◌else◌, Bool-cases,
  inl, inr,
}
use mathlib.Core.List.{append-nil, append_assoc}
use dendri_server.State.{AppState, send_to}
use dendri_server.State.Sends.{
  OnlySends, OnlySends-refl, OnlySends-trans, send_to-OnlySends, reaches, queue-send_to,
  reaches-send_to,
}
use dendri_server.Relay.{fan_out}
use dendri_server.World.{World}

abbrev pub replicate : ℕ → Text → List Text
replicate zero frame = []
replicate (suc n) frame = frame ∷ replicate n frame

module _ {w : World} where
  pub fan_out-OnlySends :
      (s : AppState w) (members : List Text) (client_id frame : Text)
      → OnlySends s (fan_out s members client_id frame)
  unfolding fan_out
  fan_out-OnlySends s [] client_id frame = OnlySends-refl s
  fan_out-OnlySends s (m ∷ ms) client_id frame = elim (Bool-cases (text_beq m client_id)) [
    | inl e ↦ rw e (fan_out-OnlySends s ms client_id frame)
    | inr e ↦ rw e (
        OnlySends-trans (send_to-OnlySends s m frame)
          (fan_out-OnlySends (send_to s m frame) ms client_id frame))
  ]

  -- How many of the members, the client itself left out, have their sender on the channel.
  unfoldable pub hits : AppState w → ℕ → List Text → Text → ℕ
  hits s c [] client_id = 0
  hits s c (m ∷ ms) client_id =
      if text_beq m client_id
      then hits s c ms client_id
      else if reaches s c m
      then suc (hits s c ms client_id)
      else hits s c ms client_id

  hits-send_to :
      (s : AppState w) (id frame : Text) (c : ℕ) (ms : List Text) (client_id : Text)
      → hits (send_to s id frame) c ms client_id ≡ hits s c ms client_id
  unfolding hits
  hits-send_to s id frame c [] client_id = refl
  hits-send_to s id frame c (m ∷ ms) client_id =
      rw (reaches-send_to s id frame c m, hits-send_to s id frame c ms client_id)

  pub queue-fan_out :
      (s : AppState w) (ms : List Text) (client_id frame : Text) (c : ℕ)
      → ((fan_out s ms client_id frame).channels c).queue
        ≡ (s.channels c).queue ++ replicate (hits s c ms client_id) frame
  unfolding fan_out hits
  queue-fan_out s [] client_id frame c = sym (append-nil _)
  queue-fan_out s (m ∷ ms) client_id frame c = elim (Bool-cases (text_beq m client_id)) [
    | inl e ↦ rw (e, fan_out) (queue-fan_out s ms client_id frame c)
    | inr e ↦
        rw (e, fan_out)
          (queue-fan_out (send_to s m frame) ms client_id frame c
            ∙ rw (queue-send_to s m frame c, hits-send_to s m frame c ms client_id)
                (elim (Bool-cases (reaches s c m)) [
                  | inl r ↦ rw r (append_assoc (s.channels c).queue (frame ∷ []) _)
                  | inr r ↦ rw r refl
                ]))
  ]
