-- ===== src/Services/Ghosts.antt =====
-- The rooms of a client that src/services/check_broken.rs evicts.
use dendri_server.Common.{ℕ, ◌≡◌, refl, false, none, Text, arith, text_eq, text_beq_refl}
use dendri_server.Common.Maps.{lookup, lookup-remove}
use dendri_server.Connect.Serving.{is_current, disconnect}
use dendri_server.Services.{evict_client}
use dendri_server.State.{AppState, remove_and_release}
use dendri_server.World.{World, Clock}

module _ {w : World} where
  gone : (s : AppState w) (id : Text) → lookup id (evict_client s id).ws_senders ≡ none
  unfolding evict_client remove_and_release
  gone s id = ground (arith, lookup-remove id id s.ws_senders, text_beq_refl id)

  kept :
      (s : AppState w) (id : Text)
      → ((evict_client s id).rooms ≡ s.rooms) × ((evict_client s id).client_rooms ≡ s.client_rooms)
  unfolding evict_client remove_and_release
  kept s id = (ground arith, ground arith)

  not_current :
      (s : AppState w) (id : Text) (ch : ℕ)
      → lookup id s.ws_senders ≡ none
      → is_current s id ch ≡ false
  not_current s id ch e = rw (e, is_current) refl

  -- Evicting a client and then closing its connection, whatever its channel, changes neither of the
  -- two room indexes: the client stays a member of its rooms.
  pub disconnect-evict_client :
      (s : AppState w) (now : Clock) (id : Text) (ch : ℕ)
      → let t = disconnect (evict_client s id) now id ch in
        (t.rooms ≡ s.rooms) × (t.client_rooms ≡ s.client_rooms)
  unfolding disconnect
  disconnect-evict_client s now id ch =
      rw (not_current (evict_client s id) id ch (gone s id), disconnect) (kept s id)
