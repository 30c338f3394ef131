-- ===== src/Site/Tests.antt =====
-- The site queries' theorems at a concrete window.
use uptime_monitor_api.Base.{◌≡◌, ◌≤◌, ◌<◌, refl, ℕ, ◌+◌, none, [], ◌∷◌, arith}
use uptime_monitor_api.Db.Runs.{Runs}
use uptime_monitor_api.Site.Tables.{ResultRow, SiteDb, empty_site}
use uptime_monitor_api.Db.{ok, ◌>>=◌}
use uptime_monitor_api.Base.Int.{pos}
use uptime_monitor_api.Site.Series.{Series, series, clamp_buckets, max_series_buckets}
use uptime_monitor_api.Site.Series.Laws.{IsSeries, series-Runs}
use uptime_monitor_api.Site.Query.Totals.{metrics-Runs}
use uptime_monitor_api.Site.Query.{Metrics, metrics, percentile, latencies}
use uptime_monitor_api.Site.Query.Laws.{AtQuantile, percentile-Runs}

abbrev check : ℕ → ℕ → ℕ → ResultRow
check ts up ms = record {
  id = ts;
  ts = ts;
  up = up;
  status_code = 200;
  response_ms = ms;
  failed_checks = none;
  error = none;
}

abbrev window : SiteDb
window = record empty_site {
  check_results = check 1 1 90 ∷ check 2 0 7 ∷ check 3 1 30 ∷ check 4 1 60 ∷ [];
}

percentile-Runs_example :
    (v : ℕ) × AtQuantile 50 (latencies 0 window.check_results) v
    × Runs (percentile 0 50) window v window
percentile-Runs_example = percentile-Runs 0 50 window

metrics-Runs_example :
    (m : Metrics) × Runs (metrics "all" 0) window m window
    × (m.successful + m.failed ≡ m.checks)
    × AtQuantile 50 (latencies 0 window.check_results) m.p50_ms
    × AtQuantile 95 (latencies 0 window.check_results) m.p95_ms
    × AtQuantile 99 (latencies 0 window.check_results) m.p99_ms
    × (m.p50_ms ≤ m.p95_ms)
    × (m.p95_ms ≤ m.p99_ms)
metrics-Runs_example =
    metrics-Runs "all" 0 window (omega arith, (omega arith, (omega arith, (omega arith, tt))))

-- Two buckets of two seconds; the row at the upper edge counts in the last.
two_buckets :
    (series "w" 1 (pos 2) 4 window []).0
    ≡ ok (record {
      window = "w";
      from = 1;
      to = 4;
      bucket_seconds = 2;
      points =
          record { ts = 1; checks = 2; successful = 1; percent = 5000; avg_ms = 9000; p95_ms = 90 }
          ∷ record {
            ts = 3;
            checks = 2;
            successful = 2;
            percent = 10000;
            avg_ms = 4500;
            p95_ms = 30;
          }
          ∷ [];
    })
unfolding series ◌>>=◌
two_buckets = refl

series-Runs_example :
    (s : Series) × Runs (series "w" 1 (pos 2) 4) window s window
    × (s.window ≡ "w")
    × IsSeries 1 4 window.check_results (clamp_buckets (pos 2)) s
    × (0 < clamp_buckets (pos 2))
    × (clamp_buckets (pos 2) ≤ max_series_buckets)
series-Runs_example = series-Runs "w" 1 (pos 2) 4 window
