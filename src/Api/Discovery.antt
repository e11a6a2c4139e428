-- ===== src/Api/Discovery.antt =====
-- Who learns the peers of the server (src/handlers/api.rs).
use dendri_server.Common.{
  ◌≡◌, refl, inl, inr, ◌⊎◌, true, Option, some, none, Text, arith, text_beq, text_beq_iff,
  Bool-cases,
}
use dendri_server.Api.{PeersQuery, unauthorized, token_passes, get_peers}
use dendri_server.State.{AppState}
use dendri_server.World.{World}

token_passes_lem :
    (wanted given : Option Text)
    → token_passes wanted given ≡ true
    → (expected : Text) → wanted ≡ some expected
    → given ≡ some expected
token_passes_lem none given h expected e = absurd (cc e)
token_passes_lem (some t) none h expected e = absurd (cc h)
token_passes_lem (some t) (some g) h expected e = ground (arith, e, h, text_beq_iff g t)

module _ {w : World} where
  -- Discovery is on, the key is the server's, and so is the token if one is set.
  pub record MayDiscover (s : AppState w) (key : Text) (q : PeersQuery) : Type 0 where
    pub same_key : key ≡ s.config.key
    pub allowed : s.config.allow_discovery ≡ true
    pub token :
        (expected : Text) → s.config.discovery_token ≡ some expected → q.token ≡ some expected

  -- A request for the peers is answered 401 and changes nothing, or else it gave the key of the server,
  -- which allows discovery, and the discovery token if there is one.
  get_peers-MayDiscover :
      (s : AppState w) (key : Text) (q : PeersQuery)
      → (get_peers s key q ≡ (s, unauthorized)) ⊎ MayDiscover s key q
  unfolding get_peers
  get_peers-MayDiscover s key q = elim (Bool-cases (text_beq key s.config.key)) [
    | inr k ↦ inl (rw k refl)
    | inl k ↦ elim (Bool-cases s.config.allow_discovery) [
      | inr a ↦ inl (rw k (rw a refl))
      | inl a ↦ elim (Bool-cases (token_passes s.config.discovery_token q.token)) [
        | inr t ↦ inl (rw k (rw a (rw t refl)))
        | inl t ↦ inr (record {
          same_key = (text_beq_iff key s.config.key).0 k;
          allowed = a;
          token = token_passes_lem s.config.discovery_token q.token t;
        })
      ]
    ]
  ]
