-- ===== src/Overview.antt =====
-- internal/storage/overview.go: one row of the dashboard for each site, read from the registry and
-- from the site's own store.
pub mod Rows
pub mod Reads
mod Tests
use uptime_monitor_api.Base.{ℕ, Bool, Option, none, some, List, [], ◌∷◌, String}
use uptime_monitor_api.Base.Int.{ℤ}
use uptime_monitor_api.Config.{SiteConfig}
use uptime_monitor_api.Db.{Exec, Result, ok, err, pure, ◌>>=◌, attempt_result}
use uptime_monitor_api.Registry.Tables.{RegistryDb}
use uptime_monitor_api.Registry.Sites.{Codec, list_sites}
use uptime_monitor_api.Site.Query.{Status, Uptime, Metrics, status, uptime, metrics}
use uptime_monitor_api.Stores.{Stores, get_store, on_store}

-- `error` is empty where everything was read.
pub record SiteOverview : Type 0 where
  pub site : SiteConfig
  pub up : Option Bool
  pub last_check_ts : Option ℕ
  pub ongoing_incident_id : Option ℕ
  pub ssl_expires_at : Option ℤ
  pub window : String
  pub checks : ℕ
  pub failed : ℕ
  pub uptime_percent : ℕ
  pub avg_ms : ℕ
  pub error : String

-- The registry and the per-site stores.
pub record Storage : Type 0 where
  pub registry : RegistryDb
  pub stores : Stores

module _ {A : Type 0} where
  unfoldable pub of_registry : Exec RegistryDb A → Exec Storage A
  of_registry m s fs = let (r, db, fs') = m s.registry fs in (r, record s { registry = db }, fs')

  unfoldable pub of_stores : Exec Stores A → Exec Storage A
  of_stores m s fs = let (r, st, fs') = m s.stores fs in (r, record s { stores = st }, fs')

abbrev pub blank_row : String → SiteConfig → SiteOverview
blank_row window site = record {
  site = site;
  up = none;
  last_check_ts = none;
  ongoing_incident_id = none;
  ssl_expires_at = none;
  window = window;
  checks = 0;
  failed = 0;
  uptime_percent = 0;
  avg_ms = 0;
  error = "";
}

module _ (json : Codec) (now : ℕ) (window : String) (since : ℕ) where
  abbrev pub with_uptime : SiteOverview → Result Uptime → Exec Storage SiteOverview
  with_uptime row (err e) = pure (record row { error = "site uptime unavailable" })
  with_uptime row (ok u) = pure (record row { uptime_percent = u.percent })

  abbrev pub with_metrics : String → SiteOverview → Result Metrics → Exec Storage SiteOverview
  with_metrics p row (err e) = pure (record row { error = "site metrics unavailable" })
  with_metrics p row (ok m) =
      attempt_result (of_stores (on_store p (uptime window since)))
      >>= with_uptime (record row { checks = m.checks; failed = m.failed; avg_ms = m.avg_ms })

  abbrev pub with_status : String → SiteOverview → Result Status → Exec Storage SiteOverview
  with_status p row (err e) = pure (record row { error = "site status unavailable" })
  with_status p row (ok st) =
      attempt_result (of_stores (on_store p (metrics window since)))
      >>= with_metrics p (record row {
        up = st.up;
        last_check_ts = st.last_check_ts;
        ongoing_incident_id = st.ongoing_incident_id;
        ssl_expires_at = st.ssl_expires_at;
      })

  abbrev pub with_store : SiteOverview → Result String → Exec Storage SiteOverview
  with_store row (err e) = pure (record row { error = "site data unavailable" })
  with_store row (ok p) = attempt_result (of_stores (on_store p status)) >>= with_status p row

  -- The body of the loop.
  unfoldable pub overview_row : SiteConfig → Exec Storage SiteOverview
  overview_row site =
      attempt_result (of_stores (get_store now site.id)) >>= with_store (blank_row window site)

  unfoldable pub overview_rows : List SiteConfig → Exec Storage (List SiteOverview)
  unfolding overview_row
  overview_rows [] = pure []
  overview_rows (site ∷ rest) = do
    row ← overview_row site
    rows ← overview_rows rest
    pure (row ∷ rows)

  -- `Overview`
  unfoldable pub overview : Exec Storage (List SiteOverview)
  unfolding overview_rows
  overview = of_registry (list_sites json) >>= overview_rows
