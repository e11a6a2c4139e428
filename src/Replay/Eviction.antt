-- ===== src/Replay/Eviction.antt =====
-- `evict_expired` and the reads of src/replay_buffer.rs.
use dendri_server.Common.{
  ℕ, ◌-◌, ◌≤◌, ◌<◌, ◌≡◌, refl, sym, ap, ◌∙◌, ◌⊎◌, inl, inr, Bool, true, Option, none, some, List,
  [], ◌∷◌, arith, Text, filter, if◌then◌else◌, unwrap_or, ◌==◌, text_eq, text_beq_iff, Bool-cases,
}
use dendri_server.Common.Maps.{Map, lookup, adjust, keys, lookup-remove, lookup-adjust}
use dendri_server.Common.Sets.{contains}
use dendri_server.Replay.{
  BufferedMessage, ClientBuffer, ReplayBuffer, evict_front, is_wanted, bodies, replay_since,
  evict_key, evict_keys, evict_expired,
}
use dendri_server.Replay.Window.{filter-evict_front}

-- The buffer of a client; a client without one has nothing buffered.
abbrev pub view : Text → Map Text ClientBuffer → ClientBuffer
view c buffers = unwrap_or (lookup c buffers) []

pub replay_since-view :
    (r : ReplayBuffer) (now : ℕ) (c : Text) (since : ℕ)
    → replay_since r now c since ≡ bodies (filter (is_wanted now r.ttl_ms since) (view c r.buffers))
unfolding replay_since
replay_since-view r now c since = ground arith

module _ (now ttl : ℕ) where
  pub view-evict_key :
      (k c : Text) (buffers : Map Text ClientBuffer)
      → view c (evict_key now ttl k buffers)
        ≡ (if k == c then evict_front now ttl (view c buffers) else view c buffers)
  unfolding evict_key evict_front
  view-evict_key k c buffers = ground (
    arith,
    text_beq_iff k c,
    lookup-adjust k c (evict_front now ttl) buffers,
    lookup-remove k c (adjust k (evict_front now ttl) buffers),
  )

  -- A sweep keeps whatever each eviction from the front keeps.
  pub view-evict_keys {ℓ} :
      (P : ClientBuffer → Type ℓ)
      → ((buf : ClientBuffer) → P buf → P (evict_front now ttl buf))
      → (c : Text) (ks : List Text) (buffers : Map Text ClientBuffer) → P (view c buffers)
      → P (view c (evict_keys now ttl ks buffers))
  unfolding evict_keys
  view-evict_keys P keep c [] buffers h = h
  view-evict_keys P keep c (k ∷ ks) buffers h =
      view-evict_keys P keep c ks (evict_key now ttl k buffers) (
        rw (view-evict_key k c buffers)
          (elim (Bool-cases (k == c)) [ inl e ↦ rw e (keep (view c buffers) h) | inr e ↦ rw e h ]))

-- An eviction sweep changes no later answer of `replay_since`, for any client and any sequence
-- number.
replay_since-evict_expired :
    (r : ReplayBuffer) (now later : ℕ) (c : Text) (since : ℕ)
    → now ≤ later
    → replay_since (evict_expired r now) later c since ≡ replay_since r later c since
unfolding evict_expired
replay_since-evict_expired r now later c since h =
    replay_since-view _ later c since
    ∙ ap bodies (
        view-evict_keys now r.ttl_ms (λ buf. filter wanted buf ≡ filter wanted (view c r.buffers))
          (λ buf p. filter-evict_front r.ttl_ms now later since buf h ∙ p) c (keys r.buffers)
          r.buffers refl)
    ∙ sym (replay_since-view r later c since)
  where
    wanted : BufferedMessage → Bool
    wanted = is_wanted later r.ttl_ms since

-- Nothing is stored, or a buffer whose oldest message has not expired.
abbrev pub IsLive : ℕ → ℕ → Option ClientBuffer → Type 0
IsLive now ttl none = Unit
IsLive now ttl (some []) = ⊥
IsLive now ttl (some (m ∷ ms)) = now - m.created_at < ttl

module _ (now ttl : ℕ) where
  evict_front-IsLive :
      (buf : ClientBuffer)
      → (evict_front now ttl buf ≡ []) ⊎ IsLive now ttl (some (evict_front now ttl buf))
  unfolding evict_front
  evict_front-IsLive [] = inl refl
  evict_front-IsLive (m ∷ ms) = ground (arith, evict_front-IsLive ms)

  -- What a sweep leaves of one entry.
  swept : Option ClientBuffer → Option ClientBuffer
  swept none = none
  swept (some buf) = elim (evict_front now ttl buf) [
    | [] ↦ none
    | m ∷ ms ↦ some (evict_front now ttl buf)
  ]

  lookup-evict_key :
      (k c : Text) (buffers : Map Text ClientBuffer)
      → lookup c (evict_key now ttl k buffers)
        ≡ (if k == c then swept (lookup c buffers) else lookup c buffers)
  unfolding evict_key swept
  lookup-evict_key k c buffers = ground (
    arith,
    text_beq_iff k c,
    lookup-adjust k c (evict_front now ttl) buffers,
    lookup-remove k c (adjust k (evict_front now ttl) buffers),
  )

  swept-IsLive : (o : Option ClientBuffer) → IsLive now ttl (swept o)
  unfolding swept
  swept-IsLive none = tt
  swept-IsLive (some buf) = ground (arith, evict_front-IsLive buf)

  evict_key-IsLive :
      (k c : Text) (buffers : Map Text ClientBuffer)
      → (k ≡ c) ⊎ IsLive now ttl (lookup c buffers)
      → IsLive now ttl (lookup c (evict_key now ttl k buffers))
  evict_key-IsLive k c buffers h = rw (lookup-evict_key k c buffers) (elim (Bool-cases (k == c)) [
    | inl e ↦ rw e (swept-IsLive (lookup c buffers))
    | inr e ↦ rw e (ground (arith, h, text_beq_iff k c))
  ])

  evict_keys-IsLive :
      (c : Text) (ks : List Text) (buffers : Map Text ClientBuffer)
      → (contains c ks ≡ true) ⊎ IsLive now ttl (lookup c buffers)
      → IsLive now ttl (lookup c (evict_keys now ttl ks buffers))
  unfolding evict_keys contains
  evict_keys-IsLive c [] buffers h = ground arith
  evict_keys-IsLive c (k ∷ ks) buffers h =
      evict_keys-IsLive c ks (evict_key now ttl k buffers)
        (ground (arith, text_beq_iff k c, evict_key-IsLive k c buffers))

contains-keys :
    (c : Text) (buffers : Map Text ClientBuffer)
    → (contains c (keys buffers) ≡ true) ⊎ (lookup c buffers ≡ none)
unfolding contains lookup
contains-keys c [] = inr refl
contains-keys c (b ∷ buffers) = ground (arith, contains-keys c buffers)

-- After a sweep no client is left with an empty buffer, nor with one whose oldest message has
-- expired.
evict_expired-IsLive :
    (r : ReplayBuffer) (now : ℕ) (c : Text)
    → IsLive now r.ttl_ms (lookup c (evict_expired r now).buffers)
unfolding evict_expired
evict_expired-IsLive r now c =
    evict_keys-IsLive now r.ttl_ms c (keys r.buffers) r.buffers
      (ground (arith, contains-keys c r.buffers))
