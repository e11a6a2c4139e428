-- ===== src/Http/Started.antt =====
-- What holds of a server that was started by `AppState::new` of src/state.rs, whatever requests
-- over HTTP came since.
use dendri_server.Common.{
  ◌<◌, ◌≡◌, refl, Option, none, some, List, Text, All, arith, ap, subst, unwrap_or, text_eq,
}
use dendri_server.Common.Maps.{lookup}
use dendri_server.Common.Sets
use dendri_server.Config.{Config}
use dendri_server.Dispatch.Count.{IsCounted}
use dendri_server.Dispatch.Invariant.{IsConsistent}
use dendri_server.Http.Counted.{IsBounded, IsHttp, run_http-IsBounded}
use dendri_server.Http.Run.{Event, run_http, run_http-IsConsistent}
use dendri_server.Mail.{Mailer}
use dendri_server.Slots.{usize_mod}
use dendri_server.State.{AppState}
use dendri_server.State.Start.{fresh, mailer_of, new}
use dendri_server.Webhook.Url.{ParsedUrl}
use dendri_server.World.{World}

module _ {w : World} where
  record IsNew (config : Config) (s : AppState w) : Type 0 where
    consistent : IsConsistent s
    counted : IsCounted s
    configured : s.config ≡ config

  fresh-IsNew :
      (parse : Text → Option ParsedUrl) (config : Config) (redis : w.redis.Conn)
      → IsNew config (fresh parse config redis)
  unfolding fresh lookup Sets.contains
  fresh-IsNew parse config redis = record {
    consistent = record {
      listed = λ c k l. absurd (ground (arith, l));
      inhabited = λ k e. ground (arith, e);
    };
    counted = record { distinct = tt; count = refl; small = omega arith };
    configured = refl;
  }

  new-IsNew :
      (open_redis : Text → Option w.redis.Conn) (parse : Text → Option ParsedUrl) (config : Config)
      (s : AppState w) (mailer : Option Mailer)
      → new open_redis parse config ≡ some (s, mailer)
      → IsNew config s
  unfolding new
  new-IsNew open_redis parse config s mailer e = after (open_redis config.redis_url) e
    where
      after :
          (opened : Option w.redis.Conn)
          → elim opened as (λ _. Option (AppState w × Option Mailer)) [
            | none ↦ none
            | some redis ↦ some (fresh parse config redis, mailer_of config)
          ]
            ≡ some (s, mailer)
          → IsNew config s
      after none e' = absurd (ground (arith, e'))
      after (some redis) e' =
          subst (IsNew config)
            (ap (λ (r : Option (AppState w × Option Mailer)). (unwrap_or r (s, mailer)).0) e')
            (fresh-IsNew parse config redis)

  pub record IsSound (s : AppState w) : Type 0 where
    pub consistent : IsConsistent s
    pub bounded : IsBounded s

  -- If `new` gives a state, and the limit of connections is below 2^64, then after any sequence of
  -- streams and polls that are asked for, posts, batches collected, and streams dropped, watched and
  -- ended, from that state: every client is a member of each room listed for it, no stored room is
  -- empty, and the counter of connections is the number of clients, which are distinct and fewer
  -- than 2^64.
  pub run_http-new :
      (open_redis : Text → Option w.redis.Conn) (parse : Text → Option ParsedUrl) (config : Config)
      (s : AppState w) (mailer : Option Mailer) (events : List (Event w))
      → new open_redis parse config ≡ some (s, mailer)
      → config.concurrent_limit < usize_mod
      → All IsHttp events
      → IsSound (run_http s events)
  run_http-new open_redis parse config s mailer events e limit http =
      let n : IsNew config s = new-IsNew open_redis parse config s mailer e in
      record {
        consistent = run_http-IsConsistent s events n.consistent;
        bounded =
            run_http-IsBounded s events http
              (record { counted = n.counted; limited = rw (n.configured) limit });
      }
