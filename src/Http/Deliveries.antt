-- ===== src/Http/Deliveries.antt =====
-- What the sends of a connecting client touch (src/handlers/http.rs).
use dendri_server.Common.{
  ℕ, ◌≡◌, refl, ap, ◌∙◌, inl, inr, Option, List, [], ◌∷◌, Text, arith, Option-cases, Bool-cases,
  unwrap_or,
}
use dendri_server.Connect.Greeting.{send_each, requeue, deliver}
use dendri_server.Http.{deliver_backlog, missed, replay, welcome_http, open_frame}
use dendri_server.Realm
use dendri_server.State.{AppState, send, notify}
use dendri_server.Webhook.{WebhookEvent}
use dendri_server.World.{World, Clock}

module _ {w : World} where
  -- All but the channels, which stay open or closed, Redis and the queue of the webhook.
  pub record IsDelivery (s t : AppState w) : Type 0 where
    pub moved : t ≡ record s { channels = t.channels; redis = t.redis; webhook = t.webhook }
    pub openness : (c : ℕ) → (t.channels c).is_open ≡ (s.channels c).is_open

  pub IsDelivery-refl : (s : AppState w) → IsDelivery s s
  IsDelivery-refl s = record { moved = refl; openness = λ c. refl }

  pub IsDelivery-trans : {s t u : AppState w} → IsDelivery s t → IsDelivery t u → IsDelivery s u
  IsDelivery-trans {u = u} p q = record {
    moved =
        q.moved
        ∙ ap
            (λ (t : AppState w). record t {
              channels = u.channels;
              redis = u.redis;
              webhook = u.webhook;
            })
            p.moved;
    openness = λ c. q.openness c ∙ p.openness c;
  }

  send-IsDelivery : (s : AppState w) (ch : ℕ) (frame : Text) → IsDelivery s (send s ch frame).0
  unfolding send
  send-IsDelivery s ch frame = elim (Bool-cases (s.channels ch).is_open) [
    | inl o ↦ rw o (record { moved = refl; openness = λ c. ground arith })
    | inr o ↦ rw o (record { moved = refl; openness = λ c. refl })
  ]

  send_each-IsDelivery :
      (s : AppState w) (ch : ℕ) (frames : List Text) → IsDelivery s (send_each s ch frames)
  unfolding send_each
  send_each-IsDelivery s ch [] = IsDelivery-refl s
  send_each-IsDelivery s ch (f ∷ fs) =
      IsDelivery-trans (send-IsDelivery s ch f) (send_each-IsDelivery (send s ch f).0 ch fs)

  requeue-IsDelivery :
      (s : AppState w) (ch : ℕ) (raws : List Text) → IsDelivery s (requeue s ch raws)
  unfolding requeue
  requeue-IsDelivery s ch [] = IsDelivery-refl s
  requeue-IsDelivery s ch (r ∷ rs) = elim (Option-cases (w.json.message_from_json r)) [
    | inl e ↦ rw (e, requeue) (requeue-IsDelivery s ch rs)
    | inr (msg, e) ↦
        let sent = send-IsDelivery s ch (w.json.message_to_json msg) in
        let s' = (send s ch (w.json.message_to_json msg)).0 in
        rw (e, requeue)
          (elim (Bool-cases (send s ch (w.json.message_to_json msg)).1) [
            | inl fine ↦ rw fine (IsDelivery-trans sent (requeue-IsDelivery s' ch rs))
            | inr bad ↦ rw bad sent
          ])
  ]

  deliver-IsDelivery :
      (s : AppState w) (id : Text) (ch : ℕ) (ms : List Text) → IsDelivery s (deliver s id ch ms)
  deliver-IsDelivery s id ch [] = IsDelivery-refl s
  deliver-IsDelivery s id ch (m ∷ ms) =
      IsDelivery-trans (requeue-IsDelivery s ch (m ∷ ms))
        (record { moved = refl; openness = λ c. refl })

  pub welcome-IsDelivery :
      (s : AppState w) (now : Clock) (id : Text) (ch : ℕ) → IsDelivery s (welcome_http s now id ch)
  unfolding welcome_http deliver_backlog
  welcome-IsDelivery s now id ch =
      let s1 = (send s ch open_frame).0 in
      let (redis, messages) = Realm.read_all_messages w.redis s1.redis now.wall id in
      IsDelivery-trans (send-IsDelivery s ch open_frame) (
        IsDelivery-trans {t = record s1 { redis = redis }}
          (record { moved = refl; openness = λ c. refl })
          (deliver-IsDelivery (record s1 { redis = redis }) id ch (unwrap_or messages [])))

  pub replay-IsDelivery :
      (s : AppState w) (now : Clock) (id : Text) (ch : ℕ) (last_seq : Option ℕ)
      → IsDelivery s (replay s now id ch last_seq)
  unfolding replay
  replay-IsDelivery s now id ch last_seq = send_each-IsDelivery s ch (missed s now id last_seq)

  pub notify-IsDelivery : (s : AppState w) (e : WebhookEvent) → IsDelivery s (notify s e)
  unfolding notify
  notify-IsDelivery s e = record { moved = refl; openness = λ c. refl }
