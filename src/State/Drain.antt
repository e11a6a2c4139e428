-- ===== src/State/Drain.antt =====
-- What `drain_ws` of src/state.rs sends, and when its wait ends.
use dendri_server.Common.{
  ℕ, zero, suc, ◌+◌, ◌*◌, ◌≤◌, ◌<◌, ◌≡◌, refl, sym, ◌∙◌, Option, some, List, [], ◌∷◌, ◌++◌, Text,
  text_eq, arith, subst, Bool-cases, leb→le, leb_false→lt, inl, inr, if◌then◌else◌, nat_beq, leb,
}
use dendri_server.Common.Maps.{keys}
use dendri_server.Relay.Delivery.{replicate}
use dendri_server.State.{AppState, send_to}
use dendri_server.State.Sends.{reaches, queue-send_to, reaches-send_to}
use dendri_server.State.Start.{
  close_frame, drain_wait, drain_ms, drain_rounds, close_each, close_all, drain_ws,
}
use dendri_server.World.{World}
use mathlib.Core.List.{append-nil, append_assoc}

extend : (P : ℕ → Type 0) (n : ℕ) → ((j : ℕ) → j < n → P j) → P n → (j : ℕ) → j < suc n → P j
extend P n below here j l = elim (Bool-cases (leb n j)) [
  | inl e ↦ subst P (omega (arith, l, leb→le n j e)) here
  | inr e ↦ below j (leb_false→lt n j e)
]

module _ (senders remaining instant : ℕ → ℕ) where
  -- In the rounds before this one there were senders, and there was time.
  record IsWaiting (round : ℕ) : Type 0 where
    present : (j : ℕ) → j < round → 0 < senders j
    early : (j : ℕ) → j < round → instant j < instant 0 + drain_ms

  -- Why the wait ends: the senders are gone, or the time is over.
  pub data Ended : ℕ → Type 0 where
    emptied :
        (m : ℕ) → senders m ≡ 0 → ((j : ℕ) → j < m → instant j < instant 0 + drain_ms) → Ended 0
    timed_out :
        (m : ℕ)
        → instant 0 + drain_ms ≤ instant m
        → ((j : ℕ) → j < suc m → 0 < senders j)
        → Ended (remaining m)

  -- It returns this number of senders.
  pub record Returns (result : Option ℕ) : Type 0 where
    pub left : ℕ
    pub returned : result ≡ some left
    pub ended : Ended left

  module _ (sleeps : (n : ℕ) → instant n + 100 ≤ instant (suc n)) where
    instant-le : (n : ℕ) → instant 0 + 100 * n ≤ instant n
    instant-le zero = omega arith
    instant-le (suc n) = omega (arith, instant-le n, sleeps n)

    waited :
        (round : ℕ)
        → IsWaiting round
        → 0 < senders round
        → instant round < instant 0 + drain_ms
        → IsWaiting (suc round)
    waited round h p q = record {
      present = extend (λ j. 0 < senders j) round h.present p;
      early = extend (λ j. instant j < instant 0 + drain_ms) round h.early q;
    }

    drain_wait-Returns :
        (fuel round : ℕ)
        → fuel + round ≡ drain_rounds
        → IsWaiting round
        → Returns (drain_wait senders remaining instant (instant 0 + drain_ms) fuel round)
    unfolding drain_wait
    drain_wait-Returns zero round e h =
        absurd (omega (arith, e, instant-le 300, h.early 300 (omega (arith, e))))
    drain_wait-Returns (suc fuel) round e h = elim (Bool-cases (nat_beq (senders round) 0)) [
      | inl z ↦
          rw z (record {
            left = 0;
            returned = refl;
            ended = emptied round (ground (arith, z)) h.early;
          })
      | inr z ↦ rw z (elim (Bool-cases (leb (instant 0 + drain_ms) (instant round))) [
        | inl l ↦ rw l (record {
          left = remaining round;
          returned = refl;
          ended =
              timed_out round (ground (arith, l))
                (extend (λ j. 0 < senders j) round h.present (ground (arith, z)));
        })
        | inr l ↦ rw l (
            drain_wait-Returns fuel (suc round) (omega (arith, e))
              (waited round h (ground (arith, z)) (ground (arith, l))))
      ])
    ]

module _ {w : World} where
  -- How many of the senders are on the channel, if it is open.
  unfoldable pub senders_on : AppState w → ℕ → List Text → ℕ
  senders_on s c [] = 0
  senders_on s c (id ∷ ids) =
      let rest = senders_on s c ids in if reaches s c id then suc rest else rest

  senders_on-send_to :
      (s : AppState w) (id frame : Text) (c : ℕ) (ids : List Text)
      → senders_on (send_to s id frame) c ids ≡ senders_on s c ids
  unfolding senders_on
  senders_on-send_to s id frame c [] = refl
  senders_on-send_to s id frame c (m ∷ ms) =
      rw (reaches-send_to s id frame c m, senders_on-send_to s id frame c ms)

  queue-close_each :
      (s : AppState w) (ids : List Text) (frame : Text) (c : ℕ)
      → ((close_each s ids frame).channels c).queue
        ≡ (s.channels c).queue ++ replicate (senders_on s c ids) frame
  unfolding close_each senders_on
  queue-close_each s [] frame c = sym (append-nil _)
  queue-close_each s (m ∷ ms) frame c =
      queue-close_each (send_to s m frame) ms frame c
      ∙ rw (queue-send_to s m frame c, senders_on-send_to s m frame c ms)
          (elim (Bool-cases (reaches s c m)) [
            | inl r ↦ rw r (append_assoc (s.channels c).queue (frame ∷ []) _)
            | inr r ↦ rw r refl
          ])

  pub record IsDrained (s : AppState w) (code : ℕ) (reason : Text)
      (senders remaining instant : ℕ → ℕ) (r : AppState w × Option ℕ) : Type 0 where
    pub told :
        (c : ℕ)
        → (r.0.channels c).queue
          ≡ (s.channels c).queue
            ++ replicate (senders_on s c (keys s.ws_senders)) (close_frame code reason)
    pub waited_for : Returns senders remaining instant r.1

  -- When no sleep of the wait is shorter than 100 ms: `drain_ws` puts the CLOSE frame behind what
  -- is in each open channel, once for each sender that is on it, and then returns: 0 in a round that
  -- sees no sender, with no round before it that was 30 s or more after the first; or else the
  -- number of senders that it counts at the end of a round that is, at whose start and before which
  -- there were senders.
  pub drain_ws-IsDrained :
      (s : AppState w) (code : ℕ) (reason : Text) (senders remaining instant : ℕ → ℕ)
      → ((n : ℕ) → instant n + 100 ≤ instant (suc n))
      → IsDrained s code reason senders remaining instant
          (drain_ws s code reason senders remaining instant)
  unfolding drain_ws close_all
  drain_ws-IsDrained s code reason senders remaining instant sleeps = record {
    told = queue-close_each s (keys s.ws_senders) (close_frame code reason);
    waited_for = drain_wait-Returns senders remaining instant sleeps drain_rounds 0 refl (record {
      present = λ j l. absurd (omega (arith, l));
      early = λ j l. absurd (omega (arith, l));
    });
  }
