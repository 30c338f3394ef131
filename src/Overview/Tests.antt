-- ===== src/Overview/Tests.antt =====
-- The dashboard of two sites, one of whose stores does not open.
use uptime_monitor_api.Base.{refl, some, none, [], ◌∷◌}
use uptime_monitor_api.Db.{plain, ◌>>=◌, Faults}
use uptime_monitor_api.Config.{SiteConfig}
use uptime_monitor_api.Registry.Tables.{empty_registry}
use uptime_monitor_api.Registry.Sites.{site_row, list_sites, scan_site, order_by_name}
use uptime_monitor_api.Stores.{new_stores}
use uptime_monitor_api.Overview.{Storage, of_registry, overview}
use uptime_monitor_api.Overview.Rows.{Answered}
use uptime_monitor_api.Overview.Reads.{Dashboard, overview-OneEach}
use uptime_monitor_api.Samples.{one_config, example_site}

abbrev second_site : SiteConfig
second_site = record example_site { id = "zeta" }

unfoldable storage : Storage
unfolding site_row
storage = record {
  registry = record empty_registry {
    sites = site_row one_config second_site ∷ site_row one_config example_site ∷ [];
  };
  stores = new_stores "data" [];
}

-- The listing runs; opening the first store fails.
abbrev faults : Faults
faults = none ∷ some (plain "disk I/O error") ∷ []

overview-OneEach_example :
    let listing = of_registry (list_sites one_config) storage faults in
    Answered
      (Dashboard one_config 9 "all" 0 (example_site ∷ second_site ∷ []) listing.1 listing.2)
      (overview one_config 9 "all" 0 storage faults).0
unfolding list_sites storage scan_site order_by_name ◌>>=◌
overview-OneEach_example =
    overview-OneEach one_config 9 "all" 0 storage faults (example_site ∷ second_site ∷ []) refl
