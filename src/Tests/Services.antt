-- ===== src/Tests/Services.antt =====
-- The expiry of a queue at work.
use dendri_server.Common.{◌≡◌, List, [], ◌∷◌, Text, arith, text_eq, if◌then◌else◌}
use dendri_server.Common.Sets
use dendri_server.Services.Expire.{notify_sources}
use dendri_server.Services.Notices.{fresh, count, sources, IsFor, tell_each, notify_sources_lem}
use dendri_server.Tests.{test_json, lobby, hall, server}

abbrev queued : List Text
queued = lobby ∷ hall ∷ []

queued-IsFor : IsFor test_json [] queued
queued-IsFor = ((λ msg e. ground (arith, e)), ((λ msg e. ground (arith, e)), tt))

notify_sources_lem_example :
    (notify_sources server [] queued ≡ tell_each server [] (fresh [] (sources test_json queued)))
    × ((x : Text)
        → count x (fresh [] (sources test_json queued))
          ≡ (if Sets.contains x (sources test_json queued) then 1 else 0))
notify_sources_lem_example = notify_sources_lem server [] queued queued-IsFor
