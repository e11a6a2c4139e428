-- ===== src/Replay.antt =====
-- src/replay_buffer.rs: the per-client ring buffers of recent messages. `Instant::now()` is the
-- argument `now`, in milliseconds; `duration_since` stops at 0, as `-` does.
pub mod Window
pub mod Eviction
pub mod History
use dendri_server.Common.{
  ℕ, ◌-◌, Bool, true, false, ◌&&◌, Option, none, some, List, [], ◌∷◌, ◌++◌, map, Text, length, tail,
  filter, leb, ltb, if◌then◌else◌, unwrap_or, text_eq,
}
use dendri_server.Common.Maps.{Map, lookup, insert, remove, adjust, keys}

pub record BufferedMessage : Type 0 where
  pub seq : ℕ
  pub body : Text
  pub created_at : ℕ

-- Oldest first.
abbrev pub ClientBuffer : Type 0
ClientBuffer = List BufferedMessage

pub record ReplayBuffer : Type 0 where
  pub buffers : Map Text ClientBuffer
  pub max_size : ℕ
  pub ttl_ms : ℕ

unfoldable pub new : ℕ → ℕ → ReplayBuffer
new max_size ttl_ms = record { buffers = []; max_size = max_size; ttl_ms = ttl_ms }

-- The loop that pops expired messages from the front.
unfoldable pub evict_front : ℕ → ℕ → ClientBuffer → ClientBuffer
evict_front now ttl [] = []
evict_front now ttl (m ∷ ms) =
    if leb ttl (now - m.created_at) then evict_front now ttl ms else m ∷ ms

unfoldable pub enforce_max_size : ℕ → ClientBuffer → ClientBuffer
enforce_max_size max buf = if leb max (length buf) then tail buf else buf

unfoldable pub push_message : ℕ → ℕ → BufferedMessage → ClientBuffer → ClientBuffer
push_message max ttl m buf = enforce_max_size max (evict_front m.created_at ttl buf) ++ m ∷ []

unfoldable pub push : ReplayBuffer → ℕ → Text → ℕ → Text → ReplayBuffer
push r now client_id seq body = record r {
  buffers = insert client_id (push_message r.max_size r.ttl_ms m old) r.buffers;
}
  where
    m : BufferedMessage
    m = record { seq = seq; body = body; created_at = now }

    old : ClientBuffer
    old = unwrap_or (lookup client_id r.buffers) []

-- The test of `replay_since`.
abbrev pub is_wanted : ℕ → ℕ → ℕ → BufferedMessage → Bool
is_wanted now ttl since_seq m = ltb since_seq m.seq && ltb (now - m.created_at) ttl

abbrev pub bodies : ClientBuffer → List Text
bodies = map (λ m. m.body)

unfoldable pub replay_since : ReplayBuffer → ℕ → Text → ℕ → List Text
replay_since r now client_id since_seq = elim (lookup client_id r.buffers) [
  | none ↦ []
  | some buf ↦ bodies (filter (is_wanted now r.ttl_ms since_seq) buf)
]

abbrev front_seq : ClientBuffer → Option ℕ
front_seq [] = none
front_seq (m ∷ ms) = some m.seq

unfoldable pub oldest_seq : ReplayBuffer → Text → Option ℕ
oldest_seq r client_id = elim (lookup client_id r.buffers) [
  | none ↦ none
  | some buf ↦ front_seq buf
]

unfoldable pub remove_client : ReplayBuffer → Text → ReplayBuffer
remove_client r client_id = record r { buffers = remove client_id r.buffers }

abbrev is_empty : ClientBuffer → Bool
is_empty [] = true
is_empty (m ∷ ms) = false

-- One round of the loop of `evict_expired`.
unfoldable pub evict_key : ℕ → ℕ → Text → Map Text ClientBuffer → Map Text ClientBuffer
evict_key now ttl key buffers = elim (lookup key buffers) [
  | none ↦ buffers
  | some buf ↦
      if is_empty (evict_front now ttl buf)
      then remove key (adjust key (evict_front now ttl) buffers)
      else adjust key (evict_front now ttl) buffers
]

unfoldable pub evict_keys : ℕ → ℕ → List Text → Map Text ClientBuffer → Map Text ClientBuffer
evict_keys now ttl [] buffers = buffers
evict_keys now ttl (key ∷ rest) buffers = evict_keys now ttl rest (evict_key now ttl key buffers)

unfoldable pub evict_expired : ReplayBuffer → ℕ → ReplayBuffer
evict_expired r now = record r { buffers = evict_keys now r.ttl_ms (keys r.buffers) r.buffers }
