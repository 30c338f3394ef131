-- ===== src/Api/Data.antt =====
-- internal/api/api.go: the data endpoints of a site, and the dashboard.
use uptime_monitor_api.Base.{ℕ, Option, none, some, String, if◌then◌else◌}
use uptime_monitor_api.Base.Int.{ℤ, pos, pos_part, ltb_ℤ}
use uptime_monitor_api.Config.{SiteConfig}
use uptime_monitor_api.Db.{Exec, Result, ok, err, pure, ◌>>=◌, attempt_result}
use uptime_monitor_api.Registry.Sites.{Codec, get_site}
use uptime_monitor_api.Site.Tables.{SiteDb}
use uptime_monitor_api.Site.Query.{
  status, uptime, metrics, errors_since, incidents_newest, results_since,
}
use uptime_monitor_api.Site.Series.{series, default_series_buckets}
use uptime_monitor_api.Stores.{get_store, on_store}
use uptime_monitor_api.Overview.{overview}
use uptime_monitor_api.Api.{
  Server, Reply, Payload, json_reply, registry_error, failed, in_registry, in_stores, in_storage,
  site_status, site_uptime, site_metrics, site_errors, site_incidents, site_results, site_series,
  site_overview,
}
use uptime_monitor_api.Api.Params.{since_param, limit_param, parse_window}

-- The query parameters, after strconv.
pub record Query : Type 0 where
  pub window : String
  pub since : Option ℤ
  pub limit : Option ℤ
  pub buckets : Option ℤ

abbrev pub answered : {A : Type 0} → (A → Payload) → Result A → Reply
answered f (ok a) = json_reply 200 (f a)
answered f (err e) = failed e

abbrev pub buckets_of : Option ℤ → ℤ
buckets_of none = pos default_series_buckets
buckets_of (some v) = if ltb_ℤ (pos 0) v then v else pos default_series_buckets

module _ (json : Codec) (now : ℕ) where
  abbrev pub opened : (String → Exec Server Reply) → Result String → Exec Server Reply
  opened next (err e) = pure (failed e)
  opened next (ok p) = next p

  abbrev pub registered :
      String → (String → Exec Server Reply) → Result SiteConfig → Exec Server Reply
  registered id next (err e) = pure (registry_error e)
  registered id next (ok site) = attempt_result (in_stores (get_store now id)) >>= opened next

  -- `storeFor`, and what its caller does with the store
  unfoldable pub store_for : String → (String → Exec Server Reply) → Exec Server Reply
  store_for id next = attempt_result (in_registry (get_site json id)) >>= registered id next

  -- A handler that answers one read of the site's store.
  abbrev pub from_store : {A : Type 0} → String → (A → Payload) → Exec SiteDb A → Exec Server Reply
  from_store id f read =
      store_for id λ p. attempt_result (in_stores (on_store p read)) >>= λ r. pure (answered f r)

  -- A window that starts before 1970 takes in every row.
  abbrev pub window_start : Query → ℕ
  window_start q = pos_part (parse_window now q.window).1

  -- `handleStatus`
  unfoldable pub handle_status : String → Query → Exec Server Reply
  handle_status id q = from_store id site_status status

  -- `handleUptime`
  unfoldable pub handle_uptime : String → Query → Exec Server Reply
  handle_uptime id q =
      from_store id site_uptime (uptime (parse_window now q.window).0 (window_start q))

  -- `handleMetrics`
  unfoldable pub handle_metrics : String → Query → Exec Server Reply
  handle_metrics id q =
      from_store id site_metrics (metrics (parse_window now q.window).0 (window_start q))

  -- `handleErrors`
  unfoldable pub handle_errors : String → Query → Exec Server Reply
  handle_errors id q =
      from_store id site_errors (errors_since (since_param q.since) (limit_param q.limit 100))

  -- `handleIncidents`
  unfoldable pub handle_incidents : String → Query → Exec Server Reply
  handle_incidents id q = from_store id site_incidents (incidents_newest (limit_param q.limit 100))

  -- `handleResults`
  unfoldable pub handle_results : String → Query → Exec Server Reply
  handle_results id q =
      from_store id site_results (results_since (since_param q.since) (limit_param q.limit 100))

  -- `handleSeries`
  unfoldable pub handle_series : String → Query → Exec Server Reply
  handle_series id q =
      from_store id site_series
        (series (parse_window now q.window).0 (window_start q) (buckets_of q.buckets) now)

  -- `handleOverview`
  unfoldable pub handle_overview : Query → Exec Server Reply
  handle_overview q =
      attempt_result (in_storage (overview json now (parse_window now q.window).0 (window_start q)))
      >>= λ r. pure (answered site_overview r)
