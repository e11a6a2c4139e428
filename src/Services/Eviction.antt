-- ===== src/Services/Eviction.antt =====
-- Who is left after a round of src/services/check_broken.rs, and the count of connections.
use dendri_server.Common.{
  ℕ, ◌+◌, ◌%◌, ◌^◌, ◌<◌, ◌≡◌, Bool, ◌||◌, ◌&&◌, leb, ltb, refl, sym, ap, ◌∙◌, false, Option, none,
  some, List, [], ◌∷◌, Text, arith, text_eq, text_beq, text_beq_iff, length, if◌then◌else◌,
}
use dendri_server.Common.Int.{as_i64-small}
use dendri_server.Common.Maps.{Map, lookup, lookup-remove, IsDistinct}
use dendri_server.Common.Sets
use dendri_server.Services.{
  is_over, is_stale, to_evict, evict_client, evict_clients, reconcile, check_broken,
}
use dendri_server.Sessions.Clients.{cleanup-SameClients}
use dendri_server.State.{AppState, ClientMeta, remove_and_release}
use dendri_server.World.{World, Clock}

contains-to_evict :
    (now alive idle : ℕ) (m : Map Text ClientMeta) (d : Text)
    → IsDistinct m
    → Sets.contains d (to_evict now alive idle m)
      ≡ elim (lookup d m) [ none ↦ false | some meta ↦ is_stale now alive idle meta ]
unfolding to_evict Sets.contains lookup
contains-to_evict now alive idle [] d h = refl
contains-to_evict now alive idle (e ∷ m) d h =
    ground (arith, text_beq_iff e.0 d, contains-to_evict now alive idle m d h.1)

-- No heartbeat for the alive timeout, or no message for the idle timeout, if there is one.
abbrev pub has_expired : ℕ → ℕ → ℕ → ClientMeta → Bool
has_expired now alive idle meta =
    leb (meta.last_ping + alive) now || (ltb 0 idle && leb (meta.last_message + idle) now)

is_over-small :
    (now last timeout : ℕ) → timeout < 2 ^ 63 → is_over now last timeout ≡ leb (last + timeout) now
unfolding is_over
is_over-small now last timeout h = rw (as_i64-small timeout h) (ground arith)

is_stale-small :
    (now alive idle : ℕ) (meta : ClientMeta)
    → alive < 2 ^ 63
    → idle < 2 ^ 63
    → is_stale now alive idle meta ≡ has_expired now alive idle meta
unfolding is_stale
is_stale-small now alive idle meta h k =
    rw
      (
        is_over-small now meta.last_ping alive h,
        is_over-small now meta.last_message idle k,
        as_i64-small idle k,
      )
      (ground arith)

-- What becomes of the entry of a client.
abbrev pub survivor : ℕ → ℕ → ℕ → Option ClientMeta → Option ClientMeta
survivor now alive idle none = none
survivor now alive idle (some meta) = if has_expired now alive idle meta then none else some meta

survives :
    (now alive idle : ℕ) (found : Option ClientMeta)
    → alive < 2 ^ 63
    → idle < 2 ^ 63
    → (if elim found [ none ↦ false | some meta ↦ is_stale now alive idle meta ]
        then none
        else found)
      ≡ survivor now alive idle found
survives now alive idle none h k = refl
survives now alive idle (some meta) h k = rw (is_stale-small now alive idle meta h k) refl

module _ {w : World} where
  lookup-evict_client :
      (s : AppState w) (id d : Text)
      → lookup d (evict_client s id).clients ≡ (if text_beq id d then none else lookup d s.clients)
  unfolding evict_client remove_and_release
  lookup-evict_client s id d = ground (arith, lookup-remove id d s.clients, text_beq_iff id d)

  lookup-evict_clients :
      (s : AppState w) (ids : List Text) (d : Text)
      → lookup d (evict_clients s ids).clients
        ≡ (if Sets.contains d ids then none else lookup d s.clients)
  unfolding evict_clients Sets.contains
  lookup-evict_clients s [] d = refl
  lookup-evict_clients s (id ∷ ids) d =
      lookup-evict_clients (evict_client s id) ids d ∙ ground (arith, lookup-evict_client s id d)

  clients-reconcile : (s : AppState w) (tick : ℕ) → (reconcile s tick).clients ≡ s.clients
  unfolding reconcile
  clients-reconcile s tick = ground arith

  count-reconcile :
      (s : AppState w) (tick : ℕ)
      → tick % 60 ≡ 0
      → (reconcile s tick).active_connections ≡ length (reconcile s tick).clients
  unfolding reconcile
  count-reconcile s tick h = ground (arith, h)

  -- For a map of distinct clients, and timeouts below 2^63: a round of the check drops exactly the clients that have sent no
  -- heartbeat for the alive timeout or, if there is an idle timeout, no message for that. On every
  -- 60th round the count of connections is then the number of clients.
  pub check_broken-clients :
      (s : AppState w) (now : Clock) (tick : ℕ)
      → IsDistinct s.clients
      → s.config.alive_timeout < 2 ^ 63
      → s.config.idle_timeout < 2 ^ 63
      → ((d : Text)
          → lookup d (check_broken s now tick).clients
            ≡ survivor now.wall s.config.alive_timeout s.config.idle_timeout (lookup d s.clients))
        × (tick % 60 ≡ 0
            → (check_broken s now tick).active_connections
              ≡ length (check_broken s now tick).clients)
  unfolding check_broken
  check_broken-clients s now tick distinct alive idle =
      let ids = to_evict now.wall s.config.alive_timeout s.config.idle_timeout s.clients in
      let evicted = evict_clients s ids in
      let swept = cleanup-SameClients (reconcile evicted tick) now in
      (
        (λ d.
            ap (lookup d) (swept.clients ∙ clients-reconcile evicted tick)
            ∙ lookup-evict_clients s ids d
            ∙ rw
                (contains-to_evict now.wall s.config.alive_timeout s.config.idle_timeout s.clients d
                  distinct)
                (survives now.wall s.config.alive_timeout s.config.idle_timeout (lookup d s.clients)
                  alive idle)),
        λ h. swept.count ∙ count-reconcile evicted tick h ∙ ap length (sym swept.clients),
      )
