-- ===== src/Tests/Started.antt =====
-- The theorems on the start and the end of the server at work.
use dendri_server.Common.{ℕ, ◌+◌, ◌*◌, ◌≡◌, refl, false, none, some, Option, [], Text, codes, arith}
use dendri_server.Dashboard.Email.{ends_with_byte}
use dendri_server.Http.Run.{run_http}
use dendri_server.Http.Started.{IsSound, run_http-new}
use dendri_server.State.{AppState}
use dendri_server.State.Drain.{IsDrained, drain_ws-IsDrained}
use dendri_server.State.Start.{new, fresh, mailer_of, drain_ws}
use dendri_server.Startup.Prefix.{Forms, normalize_path-Forms}
use dendri_server.Tests.{test_world, test_config, server}
use dendri_server.Tests.Requests.{day}
use dendri_server.Webhook.Url.{ParsedUrl}

-- Redis is reached, and no URL can be parsed.
abbrev open_redis : Text → Option test_world.redis.Conn
open_redis url = some []

abbrev no_url : Text → Option ParsedUrl
no_url url = none

abbrev started : AppState test_world
started = fresh no_url test_config []

starts : new open_redis no_url test_config ≡ some (started, none)
unfolding new mailer_of
starts = refl

run_http-new_example : IsSound (run_http started day)
run_http-new_example =
    run_http-new open_redis no_url test_config started none day starts (omega arith)
      (tt, (tt, (tt, (tt, (tt, (tt, (tt, tt)))))))

-- One sender is there at every reading of either kind, and each reading is 100 ms after the last.
abbrev tick : ℕ → ℕ
tick n = 7 + 100 * n

abbrev one : ℕ → ℕ
one n = 1

drain_ws-IsDrained_example :
    IsDrained server 4001
      (codes "shutting-down")
      one
      one
      tick
      (drain_ws server 4001 (codes "shutting-down") one one tick)
drain_ws-IsDrained_example =
    drain_ws-IsDrained server 4001 (codes "shutting-down") one one tick (λ n. omega arith)

no_slash : ends_with_byte 47 (codes "app") ≡ false
unfolding ends_with_byte
no_slash = refl

normalize_path-Forms_example : Forms (codes "app")
normalize_path-Forms_example = normalize_path-Forms 97 (codes "pp") refl no_slash
