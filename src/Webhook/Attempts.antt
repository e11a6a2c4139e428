-- ===== src/Webhook/Attempts.antt =====
-- How the delivery task of src/webhook.rs goes through its attempts.
use dendri_server.Common.{
  ℕ, zero, suc, ◌+◌, ◌*◌, ◌≤◌, ◌<◌, ◌≡◌, refl, inl, inr, Bool, true, false, Option, some, List, [],
  ◌∷◌, ◌++◌, Text, arith, if◌then◌else◌, length, length-append, ltb, Bool-cases, Option-cases,
}
use dendri_server.Webhook.{WebhookEvent, WebhookSender, emit, webhook_queue_capacity}
use dendri_server.Webhook.Delivery.{
  Request, Network, sign, Result, attempts, deliver_event, deliver_events, max_retries, with_sleep,
  retry_delays, at_index,
}

abbrev pub total : List ℕ → ℕ
total [] = 0
total (n ∷ ns) = n + total ns

total-append : (ms ns : List ℕ) → total (ms ++ ns) ≡ total ms + total ns
total-append [] ns = omega arith
total-append (m ∷ ms) ns = omega (arith, total-append ms ns)

-- One event after the other.
abbrev pub emit_all : WebhookSender → List WebhookEvent → WebhookSender
emit_all h [] = h
emit_all h (e ∷ es) = emit_all (emit h e) es

emit-le :
    (h : WebhookSender) (e : WebhookEvent)
    → length h.queue ≤ webhook_queue_capacity
    → length (emit h e).queue ≤ webhook_queue_capacity
unfolding emit
emit-le h e small = ground (arith, small, length-append h.queue (e ∷ []))

emit_all-le :
    (h : WebhookSender) (events : List WebhookEvent)
    → length h.queue ≤ webhook_queue_capacity
    → length (emit_all h events).queue ≤ webhook_queue_capacity
emit_all-le h [] small = small
emit_all-le h (e ∷ es) small = emit_all-le (emit h e) es (emit-le h e small)

module _ (net : Network) where
  open net use {Conn, post, hmac_sha256, event_to_json}

  -- The request that is posted, with a signature.
  abbrev pub request : Text → WebhookEvent → Option Text → Request
  request url event signature = record {
    url = url;
    event = event.event;
    signature = signature;
    body = event_to_json event;
  }

  -- So many posts of a request, each without an answer, take one connection to another.
  pub data Fails (r : Request) : ℕ → Conn → Conn → Type 0 where
    none_yet : (c : Conn) → Fails r 0 c c
    once_more :
        {n : ℕ} {c d : Conn} → (post r c).1 ≡ false → Fails r n (post r c).0 d → Fails r (suc n) c d

  -- What comes of an event: an answer to the post after some failures, or three failures.
  pub data Outcome (r : Request) (c : Conn) (t : Result net) : Type 0 where
    delivered :
        (failures : ℕ) (d : Conn)
        → failures < 3
        → Fails r failures c d
        → (post r d).1 ≡ true
        → t.conn ≡ (post r d).0
        → t.last_error ≡ false
        → length t.slept ≡ failures
        → Outcome r c t
    given_up : Fails r 3 c t.conn → t.last_error ≡ true → t.slept ≡ 1 ∷ 5 ∷ [] → Outcome r c t

  attempts_step :
      (left attempt : ℕ) (url : Text) (event : WebhookEvent) (secret : Option Text) (c : Conn)
      (last_error : Bool) (signature : Option Text)
      → sign hmac_sha256 secret (event_to_json event) ≡ some signature
      → attempts net (suc left) attempt url event secret c last_error ≡ (
          if (post (request url event signature) c).1
          then record {
            conn = (post (request url event signature) c).0;
            last_error = false;
            slept = [];
          }
          else with_sleep net attempt (
              attempts net left
                (attempt + 1)
                url
                event
                secret
                (post (request url event signature) c).0
                true))
  unfolding attempts
  attempts_step left attempt url event secret c last_error signature e = rw (e, attempts) refl

  -- An event whose body can be signed is posted until the first answer, at most three times; the server
  -- has nothing left to do for it after an answer, whatever its status, or after the third failure,
  -- with a sleep of 1 and then 5 seconds after the first and the second failure.
  pub deliver_event-Outcome :
      (url : Text) (secret : Option Text) (event : WebhookEvent) (conn : Conn)
      (signature : Option Text)
      → sign hmac_sha256 secret (event_to_json event) ≡ some signature
      → Outcome (request url event signature) conn (deliver_event net url secret event conn)
  unfolding deliver_event
  deliver_event-Outcome url secret event conn signature e =
      let r = request url event signature in
      let c1 = (post r conn).0 in
      let c2 = (post r c1).0 in
      let step = λ (left attempt : ℕ) (c : Conn) (err : Bool).
        attempts_step left attempt url event secret c err signature e in
      rw (step 2 0 conn false) (elim (Bool-cases (post r conn).1) [
        | inl y ↦ rw y (delivered 0 conn (omega arith) (none_yet conn) y refl refl refl)
        | inr n1 ↦
            rw (n1, step 1 1 c1 true)
              (elim (Bool-cases (post r c1).1) [
                | inl y ↦
                    rw y
                      (delivered 1 c1 (omega arith) (once_more n1 (none_yet c1)) y refl refl refl)
                | inr n2 ↦
                    rw (n2, step 0 2 c2 true)
                      (elim (Bool-cases (post r c2).1) [
                        | inl y ↦ rw y (
                            delivered 2 c2 (omega arith) (once_more n1 (once_more n2 (none_yet c2)))
                              y refl refl refl)
                        | inr n3 ↦ rw n3 (
                            given_up (once_more n1 (once_more n2 (once_more n3 (none_yet _)))) refl
                              refl)
                      ])
              ])
      ])

  -- The most that the attempts left can sleep.
  budget : ℕ → ℕ → ℕ
  budget zero attempt = 0
  budget (suc left) attempt =
      (if ltb (attempt + 1) max_retries then at_index retry_delays attempt else 0)
      + budget left (attempt + 1)

  with_sleep-le :
      (attempt n : ℕ) (r : Result net)
      → total r.slept ≤ n
      → total (with_sleep net attempt r).slept
        ≤ (if ltb (attempt + 1) max_retries then at_index retry_delays attempt else 0) + n
  with_sleep-le attempt n r h = elim (Bool-cases (ltb (attempt + 1) max_retries)) [
    | inl e ↦ rw e (omega (arith, h))
    | inr e ↦ rw e (omega (arith, h))
  ]

  attempts-le :
      (left attempt : ℕ) (url : Text) (event : WebhookEvent) (secret : Option Text) (c : Conn)
      (last_error : Bool)
      → total (attempts net left attempt url event secret c last_error).slept ≤ budget left attempt
  unfolding attempts budget
  attempts-le zero attempt url event secret c last_error = omega arith
  attempts-le (suc left) attempt url event secret c last_error =
      elim (Option-cases (sign hmac_sha256 secret (event_to_json event))) [
        | inl e ↦
            rw (e, attempts)
              (omega (arith, attempts-le left (attempt + 1) url event secret c last_error))
        | inr (signature, e) ↦
            let (c', answered) = post (request url event signature) c in
            rw (e, attempts)
              (elim (Bool-cases answered) [
                | inl y ↦ rw y (omega arith)
                | inr n ↦ rw n (
                    with_sleep-le attempt (budget left (attempt + 1))
                      (attempts net left (attempt + 1) url event secret c' true)
                      (attempts-le left (attempt + 1) url event secret c' true))
              ])
      ]

  deliver_events-le :
      (url : Text) (secret : Option Text) (events : List WebhookEvent) (conn : Conn)
      → total (deliver_events net url secret events conn).1 ≤ 6 * length events
  unfolding deliver_events deliver_event budget
  deliver_events-le url secret [] conn = omega arith
  deliver_events-le url secret (e ∷ es) conn =
      let r = deliver_event net url secret e conn in
      let here = attempts-le max_retries 0 url e secret conn false in
      let there = deliver_events-le url secret es r.conn in
      rw (total-append r.slept (deliver_events net url secret es r.conn).1)
        (omega (arith, here, there))

  -- However many events are emitted to a webhook whose queue holds at most 1024, the queue holds at most
  -- 1024 then, and the task sleeps at most 6 seconds for each of them, 6144 in all, until it has gone
  -- through the queue.
  deliver_events-emit_all :
      (url : Text) (secret : Option Text) (h : WebhookSender) (events : List WebhookEvent)
      (conn : Conn)
      → length h.queue ≤ webhook_queue_capacity
      → (length (emit_all h events).queue ≤ webhook_queue_capacity)
        × (total (deliver_events net url secret (emit_all h events).queue conn).1 ≤ 6144)
  deliver_events-emit_all url secret h events conn small =
      let within = emit_all-le h events small in
      let slept = deliver_events-le url secret (emit_all h events).queue conn in
      (within, omega (arith, within, slept))
