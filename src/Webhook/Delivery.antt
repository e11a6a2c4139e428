-- ===== src/Webhook/Delivery.antt =====
-- src/webhook.rs: the delivery task behind the queue (`WebhookSender::new`).
use dendri_server.Common.{
  ℕ, zero, suc, ◌+◌, Bool, true, false, Option, none, some, List, [], ◌∷◌, ◌++◌, Text, codes, ltb,
  if◌then◌else◌, map_some,
}
use dendri_server.Tenant.{hex}
use dendri_server.Webhook.{WebhookEvent}

abbrev pub max_retries : ℕ
max_retries = 3

-- Seconds.
abbrev pub retry_delays : List ℕ
retry_delays = 1 ∷ 5 ∷ 25 ∷ []

-- An index beyond the list, which would panic, gives 0.
abbrev pub at_index : List ℕ → ℕ → ℕ
at_index [] n = 0
at_index (d ∷ ds) zero = d
at_index (d ∷ ds) (suc n) = at_index ds n

pub record Request : Type 0 where
  pub url : Text
  pub event : Text
  pub signature : Option Text
  pub body : Text

-- The crates reqwest, hmac and serde_json. A post gives whether an answer came; its status is not
-- looked at.
pub record Network : Type 1 where
  pub Conn : Type 0
  pub post : Request → Conn → Conn × Bool
  pub hmac_sha256 : Text → Text → Option (List ℕ)
  pub event_to_json : WebhookEvent → Text

-- The signature of a body, if there is a secret; none if the key is refused.
abbrev pub sign : (Text → Text → Option (List ℕ)) → Option Text → Text → Option (Option Text)
sign hmac none payload = some none
sign hmac (some secret) payload =
    map_some (λ mac. some (codes "sha256=" ++ hex mac)) (hmac secret payload)

module _ (net : Network) where
  open net use {Conn, post, hmac_sha256, event_to_json}

  -- What the attempts come to: whether an error is left, and the sleeps between them.
  pub record Result : Type 0 where
    pub conn : Conn
    pub last_error : Bool
    pub slept : List ℕ

  abbrev pub with_sleep : ℕ → Result → Result
  with_sleep attempt r =
      if ltb (attempt + 1) max_retries
      then record r { slept = at_index retry_delays attempt ∷ r.slept }
      else r

  -- The loop, with so many attempts left.
  unfoldable pub attempts : ℕ → ℕ → Text → WebhookEvent → Option Text → Conn → Bool → Result
  attempts zero attempt url event secret conn last_error = record {
    conn = conn;
    last_error = last_error;
    slept = [];
  }
  attempts (suc left) attempt url event secret conn last_error =
      elim (sign hmac_sha256 secret (event_to_json event)) [
        | none ↦ attempts left (attempt + 1) url event secret conn last_error
        | some signature ↦
            let (conn', answered) =
              post
                (record {
                  url = url;
                  event = event.event;
                  signature = signature;
                  body = event_to_json event;
                })
                conn in
            let again = attempts left (attempt + 1) url event secret conn' true in
            if answered
            then record { conn = conn'; last_error = false; slept = [] }
            else with_sleep attempt again
      ]

  unfoldable pub deliver_event : Text → Option Text → WebhookEvent → Conn → Result
  unfolding attempts
  deliver_event url secret event conn = attempts max_retries 0 url event secret conn false

  -- The loop over the queue; the sleeps of all its events.
  unfoldable pub deliver_events : Text → Option Text → List WebhookEvent → Conn → Conn × List ℕ
  unfolding deliver_event
  deliver_events url secret [] conn = (conn, [])
  deliver_events url secret (e ∷ es) conn =
      let r = deliver_event url secret e conn in
      let (conn', slept) = deliver_events url secret es r.conn in (conn', r.slept ++ slept)
