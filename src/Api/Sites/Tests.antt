-- ===== src/Api/Sites/Tests.antt =====
-- Site requests at a concrete server.
use uptime_monitor_api.Base.{◌≡◌, refl, true, false, none, some, List, [], ◌∷◌, All}
use uptime_monitor_api.Db.{plain}
use uptime_monitor_api.Config.{apply_defaults}
use uptime_monitor_api.Registry.Tables.{empty_registry}
use uptime_monitor_api.Registry.Monitored.{monitored}
use uptime_monitor_api.Scheduler.Tracking.{uncancelled}
use uptime_monitor_api.Scheduler.Running.{at_most_one, Loyal, Follows-new}
use uptime_monitor_api.Scheduler.{ctx_done, ticker_fires}
use uptime_monitor_api.Api.{Server, decoded}
use uptime_monitor_api.Api.Sites.{SiteBody}
use uptime_monitor_api.Api.Sites.Synced.{Synced}
use uptime_monitor_api.Api.Sites.History.{
  SiteEvent, requested, loop_selects, creates, updates, deletes, happen_all, happen_all-runs,
}
use uptime_monitor_api.Samples.{one_host, one_config, toy_crypto, example_site, server}

abbrev fresh_server : Server
fresh_server = record server { registry = empty_registry }

abbrev body : SiteBody
body = record {
  site = example_site;
  enabled_given = false;
  key_input = some (record { api_key = none; generate_key = false });
}

-- The second creation conflicts; the first update cannot be written; the loop that the second update
-- cancels ticks once more and returns.
abbrev events : List SiteEvent
events =
    requested (creates 1000 none (decoded body)) []
    ∷ requested (creates 1001 none (decoded body)) []
    ∷ requested (updates 1002 none "example" (decoded body)) (none ∷ some (plain "locked") ∷ [])
    ∷ requested (updates 1003 none "example" (decoded body)) []
    ∷ loop_selects 0 ticker_fires
    ∷ loop_selects 0 ctx_done
    ∷ requested (deletes "other" true) []
    ∷ []

fresh-Synced : Synced one_config fresh_server
fresh-Synced = Follows-new []

happen_all-runs_example :
    let s = happen_all one_host one_config toy_crypto events fresh_server in
    (uncancelled "example" s.scheduler.loops
      ≡ at_most_one (monitored one_config s.registry "example"))
    × All Loyal s.scheduler.loops
unfolding apply_defaults
happen_all-runs_example =
    happen_all-runs one_host one_config toy_crypto events fresh_server "example"
      (refl, (refl, ((refl, refl), ((refl, refl), (tt, (tt, (tt, tt))))))) fresh-Synced
