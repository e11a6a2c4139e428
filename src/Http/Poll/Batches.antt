-- ===== src/Http/Poll/Batches.antt =====
-- What polls take out of a channel (src/handlers/http.rs, `collect_poll_messages_shared`).
use mathlib.Core.List.{append-nil, append_assoc}
use dendri_server.Common.{
  ℕ, zero, suc, ◌-◌, ◌*◌, ◌≤◌, ◌≡◌, refl, ap, ◌∙◌, sym, true, List, [], ◌∷◌, ◌++◌, Text, arith,
  length, nat_beq_iff,
}
use dendri_server.Http.Poll.{max_batch, take_ready, take_batch, collect_poll_messages_shared}
use dendri_server.State.{AppState, send}
use dendri_server.World.{World}

take_ready-append :
    (room : ℕ) (queue : List Text) → (take_ready room queue).0 ++ (take_ready room queue).1 ≡ queue
take_ready-append zero queue = refl
take_ready-append (suc room) [] = refl
take_ready-append (suc room) (m ∷ ms) = ap (λ t. m ∷ t) (take_ready-append room ms)

take_ready-le : (room : ℕ) (queue : List Text) → length (take_ready room queue).0 ≤ room
take_ready-le zero queue = omega arith
take_ready-le (suc room) [] = omega arith
take_ready-le (suc room) (m ∷ ms) = omega (arith, take_ready-le room ms)

length-take_ready :
    (room : ℕ) (queue : List Text) → length (take_ready room queue).1 ≡ length queue - room
length-take_ready zero queue = omega arith
length-take_ready (suc room) [] = omega arith
length-take_ready (suc room) (m ∷ ms) = omega (arith, length-take_ready room ms)

-- A batch is the front of the queue, is empty only when the queue is, and holds at most 500.
record IsBatch (queue taken left : List Text) : Type 0 where
  whole : taken ++ left ≡ queue
  small : length taken ≤ max_batch
  rest : length left ≡ length queue - max_batch

take_batch-IsBatch : (queue : List Text) → IsBatch queue (take_batch queue).0 (take_batch queue).1
take_batch-IsBatch [] = record { whole = refl; small = omega arith; rest = omega arith }
take_batch-IsBatch (m ∷ ms) = record {
  whole = ap (λ t. m ∷ t) (take_ready-append (max_batch - 1) ms);
  small = omega (arith, take_ready-le (max_batch - 1) ms);
  rest = omega (arith, length-take_ready (max_batch - 1) ms);
}

-- What comes to a channel: a frame of a sender, or a poll.
pub data Event : Type 0 where
  sends : Text → Event
  polls : Event

-- The frames that are sent.
abbrev pub sent : List Event → List Text
sent [] = []
sent (sends frame ∷ es) = frame ∷ sent es
sent (polls ∷ es) = sent es

run-sent-step :
    (taken left got end queue more : List Text)
    → taken ++ left ≡ queue
    → got ++ end ≡ left ++ more
    → (taken ++ got) ++ end ≡ queue ++ more
run-sent-step taken left got end queue more e f =
    append_assoc taken got end
    ∙ ap (◌++◌ taken) f
    ∙ sym (append_assoc taken left more)
    ∙ ap (λ q. q ++ more) e

empty : (queue : List Text) → length queue ≤ 0 → queue ≡ []
empty [] h = refl
empty (m ∷ ms) h = absurd (omega (arith, h))

-- So many polls, one after the other.
abbrev pub rounds : ℕ → List Event
rounds zero = []
rounds (suc n) = polls ∷ rounds n

module _ {w : World} where
  -- The state after the events, and all that the polls return.
  pub run : AppState w → ℕ → List Event → AppState w × List Text
  unfolding send collect_poll_messages_shared
  run s rx [] = (s, [])
  run s rx (sends frame ∷ es) = run (send s rx frame).0 rx es
  run s rx (polls ∷ es) =
      let (s', taken) = collect_poll_messages_shared s rx in
      let (end, rest) = run s' rx es in (end, taken ++ rest)

  collected :
      (s : AppState w) (rx : ℕ)
      → (((collect_poll_messages_shared s rx).0.channels rx).queue
          ≡ (take_batch (s.channels rx).queue).1)
        × (((collect_poll_messages_shared s rx).0.channels rx).is_open ≡ (s.channels rx).is_open)
  unfolding collect_poll_messages_shared
  collected s rx = ground (arith, nat_beq_iff rx rx)

  sent_to :
      (s : AppState w) (rx : ℕ) (frame : Text)
      → (s.channels rx).is_open ≡ true
      → (((send s rx frame).0.channels rx).queue ≡ (s.channels rx).queue ++ frame ∷ [])
        × (((send s rx frame).0.channels rx).is_open ≡ true)
  unfolding send
  sent_to s rx frame o = ground (arith, o, nat_beq_iff rx rx)

  -- While its receiver is kept, the polls of a channel return what was queued and then what is
  -- sent, in order and each frame once, but for what is still queued at the end, however sends and
  -- polls alternate.
  pub run-sent :
      (s : AppState w) (rx : ℕ) (events : List Event)
      → (s.channels rx).is_open ≡ true
      → (run s rx events).1 ++ ((run s rx events).0.channels rx).queue
        ≡ (s.channels rx).queue ++ sent events
  unfolding run
  run-sent s rx [] o = sym (append-nil _)
  run-sent s rx (sends frame ∷ es) o =
      run-sent (send s rx frame).0 rx es (sent_to s rx frame o).1
      ∙ ap (λ q. q ++ sent es) (sent_to s rx frame o).0
      ∙ append_assoc (s.channels rx).queue (frame ∷ []) (sent es)
  run-sent s rx (polls ∷ es) o =
      run-sent-step _ _ _ _ _ (sent es) (take_batch-IsBatch (s.channels rx).queue).whole (
        run-sent (collect_poll_messages_shared s rx).0 rx es ((collected s rx).1 ∙ o)
        ∙ ap (λ q. q ++ sent es) (collected s rx).0)

  drained :
      (s : AppState w) (rx n : ℕ)
      → length (s.channels rx).queue ≤ n * max_batch
      → ((run s rx (rounds n)).1 ≡ (s.channels rx).queue)
        × (((run s rx (rounds n)).0.channels rx).queue ≡ [])
  unfolding run
  drained s rx zero h = let e = empty (s.channels rx).queue (omega (arith, h)) in (sym e, e)
  drained s rx (suc n) h =
      let b = take_batch-IsBatch (s.channels rx).queue in
      let s' = (collect_poll_messages_shared s rx).0 in
      let left = (collected s rx).0 in
      let rest = drained s' rx n (rw left (omega (arith, b.rest, h))) in
      (ap (◌++◌ (take_batch (s.channels rx).queue).0) (rest.0 ∙ left) ∙ b.whole, rest.1)

  -- Each poll returns at most 500 frames, and as many polls as there are batches of 500 queued
  -- return all of them, in order, and leave none.
  run-polls :
      (s : AppState w) (rx n : ℕ)
      → length (s.channels rx).queue ≤ n * max_batch
      → (length (collect_poll_messages_shared s rx).1 ≤ max_batch)
        × ((run s rx (rounds n)).1 ≡ (s.channels rx).queue)
        × (((run s rx (rounds n)).0.channels rx).queue ≡ [])
  unfolding run
  run-polls s rx n h =
      let d = drained s rx n h in ((take_batch-IsBatch (s.channels rx).queue).small, d.0, d.1)
