-- ===== src/Site/Query.antt =====
-- internal/storage/query.go: what is read back of a site. Fractions are in hundredths, by the exact
-- quotient that the source approximates in floating point.
pub mod Laws
pub mod Totals
use uptime_monitor_api.Base.{
  ℕ, zero, suc, ◌+◌, ◌-◌, ◌*◌, ◌/◌, Bool, true, false, ◌&&◌, Option, none, some, List, [], ◌∷◌,
  ◌++◌, map, String, ◌==◌, ltb, leb, if◌then◌else◌, length, filter, take, get_elem?,
}
use uptime_monitor_api.Base.Int.{ℤ, sub_ℕ}
use uptime_monitor_api.Db.{Exec, Result, ok, err, no_rows, query, update, pure, ◌>>=◌}
use uptime_monitor_api.Registry.Sites.{coalesce}
use uptime_monitor_api.Site.Tables.{ResultRow, IncidentRow, ErrorRow, SiteState, SiteDb}

pub record Uptime : Type 0 where
  pub window : String
  pub checks : ℕ
  pub successful : ℕ
  pub failed : ℕ
  pub percent : ℕ

abbrev pub since : ℕ → List ResultRow → List ResultRow
since ts rows = filter (λ r. leb ts r.ts) rows

-- SUM(up)
abbrev pub sum_up : List ResultRow → ℕ
sum_up [] = 0
sum_up (r ∷ rs) = r.up + sum_up rs

-- math.Round of a quotient: half goes up.
abbrev pub rounded : ℕ → ℕ → ℕ
rounded a b = (2 * a + b) / (2 * b)

abbrev pub percent_of : ℕ → ℕ → ℕ
percent_of successful checks = if checks == 0 then 0 else rounded (successful * 10000) checks

abbrev pub uptime_of : String → List ResultRow → Uptime
uptime_of window rows = record {
  window = window;
  checks = length rows;
  successful = sum_up rows;
  failed = length rows - sum_up rows;
  percent = percent_of (sum_up rows) (length rows);
}

-- `Uptime`
unfoldable pub uptime : String → ℕ → Exec SiteDb Uptime
uptime window ts = query (λ db. uptime_of window (since ts db.check_results))

-- ORDER BY response_ms, by insertion.
insert_ms : ℕ → List ℕ → List ℕ
insert_ms n [] = n ∷ []
insert_ms n (m ∷ ms) = let rest = m ∷ insert_ms n ms in if leb n m then n ∷ m ∷ ms else rest

unfoldable pub sorted_ms : List ℕ → List ℕ
unfolding insert_ms
sorted_ms [] = []
sorted_ms (n ∷ ns) = insert_ms n (sorted_ms ns)

-- `up = 1 AND response_ms IS NOT NULL`; RecordTick always writes a response time.
abbrev pub latencies : ℕ → List ResultRow → List ℕ
latencies ts rows = map (λ r. r.response_ms) (filter (λ r. r.up == 1) (since ts rows))

-- The row at quantile `q`, in hundredths, of `n`.
unfoldable pub offset : ℕ → ℕ → ℕ
offset q n = let o = q * n / 100 in if leb n o then n - 1 else o

abbrev pub at_offset : Option ℕ → SiteDb → Result ℕ × SiteDb
at_offset none db = (err no_rows, db)
at_offset (some v) db = (ok v, db)

-- `percentile`
unfoldable pub percentile : ℕ → ℕ → Exec SiteDb ℕ
unfolding offset sorted_ms
percentile ts q = query (λ db. length (latencies ts db.check_results)) >>= λ n.
    if n == 0
    then pure 0
    else update
        (λ db. at_offset (get_elem? (sorted_ms (latencies ts db.check_results)) (offset q n)) db)

-- AVG of the successful rows' response times, in hundredths; without one it is NULL, read as 0.
abbrev pub sum_ms : List ℕ → ℕ
sum_ms [] = 0
sum_ms (n ∷ ns) = n + sum_ms ns

unfoldable pub mean_ms : List ℕ → ℕ
mean_ms ms = if length ms == 0 then 0 else rounded (sum_ms ms * 100) (length ms)

pub record Metrics : Type 0 where
  pub window : String
  pub checks : ℕ
  pub successful : ℕ
  pub failed : ℕ
  pub avg_ms : ℕ
  pub p50_ms : ℕ
  pub p95_ms : ℕ
  pub p99_ms : ℕ

-- The counts and the mean, of one SELECT.
abbrev pub totals : ℕ → SiteDb → ℕ × ℕ × ℕ
totals ts db =
    let rows = since ts db.check_results in
    (length rows, sum_up rows, mean_ms (latencies ts db.check_results))

-- `Metrics`
unfoldable pub metrics : String → ℕ → Exec SiteDb Metrics
unfolding percentile mean_ms
metrics window ts = do
  t ← query (totals ts)
  p50 ← percentile ts 50
  p95 ← percentile ts 95
  p99 ← percentile ts 99
  pure (record {
    window = window;
    checks = t.0;
    successful = t.1;
    failed = t.0 - t.1;
    avg_ms = t.2;
    p50_ms = p50;
    p95_ms = p95;
    p99_ms = p99;
  })

-- Newest first: the rows stand in the order of their ids.
abbrev pub newest : {A : Type 0} → List A → List A
newest [] = []
newest (a ∷ rest) = newest rest ++ a ∷ []

-- `Errors`
unfoldable pub errors_since : ℕ → ℕ → Exec SiteDb (List ErrorRow)
errors_since ts limit = query (λ db. take limit (newest (filter (λ e. leb ts e.ts) db.errors)))

pub record Incident : Type 0 where
  pub id : ℕ
  pub started_at : ℕ
  pub resolved_at : Option ℕ
  pub cause : String
  pub duration_seconds : Option ℤ

abbrev pub duration : ℕ → Option ℕ → Option ℤ
duration started none = none
duration started (some resolved) = some (sub_ℕ resolved started)

abbrev pub incident_of : IncidentRow → Incident
incident_of r = record {
  id = r.id;
  started_at = r.started_at;
  resolved_at = r.resolved_at;
  cause = coalesce r.cause;
  duration_seconds = duration r.started_at r.resolved_at;
}

-- `Incidents`
unfoldable pub incidents_newest : ℕ → Exec SiteDb (List Incident)
incidents_newest limit = query (λ db. map incident_of (take limit (newest db.incidents)))

-- `Results`
unfoldable pub results_since : ℕ → ℕ → Exec SiteDb (List ResultRow)
results_since ts limit = query (λ db. take limit (newest (since ts db.check_results)))

pub record Status : Type 0 where
  pub monitoring_started_at : ℕ
  pub last_check_ts : Option ℕ
  pub up : Option Bool
  pub ongoing_incident_id : Option ℕ
  pub ssl_expires_at : Option ℤ
  pub ssl_last_checked : Option ℕ

abbrev pub or_zero : Option ℕ → ℕ
or_zero none = 0
or_zero (some n) = n

abbrev pub up_flag : Option ℕ → Option Bool
up_flag none = none
up_flag (some n) = some (n == 1)

abbrev pub status_of : Option SiteState → SiteDb → Result Status × SiteDb
status_of none db = (err no_rows, db)
status_of (some st) db = (
  ok (record {
    monitoring_started_at = or_zero st.monitoring_started_at;
    last_check_ts = st.last_check_ts;
    up = up_flag st.current_up;
    ongoing_incident_id = st.current_incident_id;
    ssl_expires_at = st.ssl_expires_at;
    ssl_last_checked = st.ssl_last_checked;
  }),
  db,
)

-- `Status`
unfoldable pub status : Exec SiteDb Status
status = update (λ db. status_of db.site_state db)
