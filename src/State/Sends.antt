-- ===== src/State/Sends.antt =====
-- What sending does to the state of src/state.rs: frames go into channels, and nothing else moves.
use dendri_server.Common.{
  ℕ, ◌≡◌, refl, ap, ◌∙◌, Bool, false, ◌&&◌, Option, none, some, [], ◌∷◌, ◌++◌, Text, arith,
  if◌then◌else◌, nat_beq, text_eq, Option-cases, Bool-cases, inl, inr, map_some,
}
use dendri_server.Common.Maps.{lookup}
use dendri_server.Webhook.{WebhookSender, WebhookEvent, emit}
use dendri_server.State.{AppState, Channel, put_frame, send_to, notify}
use dendri_server.World.{World}

module _ {w : World} where
  -- The second state is the first but for what is in the channels and in the webhook's queue.
  pub record OnlySends (s t : AppState w) : Type 0 where
    pub channels : ℕ → Channel
    pub webhook : Option WebhookSender
    pub moved : t ≡ record s { channels = channels; webhook = webhook }

  pub OnlySends-refl : (s : AppState w) → OnlySends s s
  OnlySends-refl s = record { channels = s.channels; webhook = s.webhook; moved = refl }

  pub OnlySends-trans : {s t u : AppState w} → OnlySends s t → OnlySends t u → OnlySends s u
  OnlySends-trans p q = record {
    channels = q.channels;
    webhook = q.webhook;
    moved =
        q.moved
        ∙ ap (λ (t : AppState w). record t { channels = q.channels; webhook = q.webhook }) p.moved;
  }

  pub send_to-OnlySends : (s : AppState w) (id frame : Text) → OnlySends s (send_to s id frame)
  unfolding send_to
  send_to-OnlySends s id frame = elim (Option-cases (lookup id s.ws_senders)) [
    | inl e ↦ record { channels = s.channels; webhook = s.webhook; moved = rw (e, send_to) refl }
    | inr (ch, e) ↦ elim (Bool-cases (s.channels ch).is_open) [
      | inl o ↦ record {
        channels = put_frame ch frame s.channels;
        webhook = s.webhook;
        moved = rw (e, send_to, o) refl;
      }
      | inr o ↦ record {
        channels = s.channels;
        webhook = s.webhook;
        moved = rw (e, send_to, o) refl;
      }
    ]
  ]

  pub notify-OnlySends : (s : AppState w) (e : WebhookEvent) → OnlySends s (notify s e)
  unfolding notify
  notify-OnlySends s e = record {
    channels = s.channels;
    webhook = map_some (λ h. emit h e) s.webhook;
    moved = refl;
  }

  -- The frame goes to the channel of the receiver's sender, if it is open.
  unfoldable pub reaches : AppState w → ℕ → Text → Bool
  reaches s c id = elim (lookup id s.ws_senders) [
    | none ↦ false
    | some ch ↦ nat_beq ch c && (s.channels c).is_open
  ]

  pub queue-send_to :
      (s : AppState w) (id frame : Text) (c : ℕ)
      → ((send_to s id frame).channels c).queue
        ≡ (if reaches s c id then (s.channels c).queue ++ frame ∷ [] else (s.channels c).queue)
  unfolding send_to reaches
  queue-send_to s id frame c = ground arith

  pub is_open-send_to :
      (s : AppState w) (id frame : Text) (c : ℕ)
      → ((send_to s id frame).channels c).is_open ≡ (s.channels c).is_open
  unfolding send_to
  is_open-send_to s id frame c = ground arith

  pub reaches-send_to :
      (s : AppState w) (id frame : Text) (c : ℕ) (other : Text)
      → reaches (send_to s id frame) c other ≡ reaches s c other
  unfolding reaches send_to
  reaches-send_to s id frame c other = ground arith
