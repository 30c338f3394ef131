-- ===== src/Site/Series.antt =====
-- internal/storage/series.go: a site's results in evenly spaced buckets. Fractions are in hundredths,
-- by the exact quotient that the source approximates in floating point.
pub mod Groups
pub mod Sums
pub mod Start
pub mod Laws
use uptime_monitor_api.Base.{
  ℕ, zero, suc, ◌+◌, ◌-◌, ◌*◌, ◌/◌, Bool, true, false, ◌&&◌, Option, none, some, List, [], ◌∷◌, map,
  String, ◌==◌, ltb, leb, if◌then◌else◌, length, filter, take,
}
use uptime_monitor_api.Base.Int.{ℤ, pos, negsuc}
use uptime_monitor_api.Db.{Exec, query, pure, ◌>>=◌}
use uptime_monitor_api.Site.Tables.{ResultRow, SiteDb}
use uptime_monitor_api.Site.Query.{sum_up, percent_of, mean_ms, sorted_ms}

-- `SeriesPoint`
pub record Point : Type 0 where
  pub ts : ℕ
  pub checks : ℕ
  pub successful : ℕ
  pub percent : ℕ
  pub avg_ms : ℕ
  pub p95_ms : ℕ

pub record Series : Type 0 where
  pub window : String
  pub from : ℕ
  pub to : ℕ
  pub bucket_seconds : ℕ
  pub points : List Point

abbrev pub default_series_buckets : ℕ
default_series_buckets = 96

abbrev pub max_series_buckets : ℕ
max_series_buckets = 1000

-- The number of buckets: the default for none, and never above the maximum.
unfoldable pub clamp_buckets : ℤ → ℕ
clamp_buckets (pos zero) = default_series_buckets
clamp_buckets (pos (suc n)) = if ltb max_series_buckets (suc n) then max_series_buckets else suc n
clamp_buckets (negsuc n) = default_series_buckets

-- MIN(ts)
abbrev pub earlier : ℕ → Option ℕ → Option ℕ
earlier t none = some t
earlier t (some s) = some (if leb t s then t else s)

abbrev pub min_ts : List ResultRow → Option ℕ
min_ts [] = none
min_ts (r ∷ rs) = earlier r.ts (min_ts rs)

-- The width of a bucket, rounded up.
unfoldable pub bucket_secs : (from to buckets : ℕ) → ℕ
bucket_secs from to buckets =
    let span = to - from in
    let span' = (if ltb span 1 then 1 else span) in
    let secs = (span' + buckets - 1) / buckets in if ltb secs 1 then 1 else secs

-- MIN((ts - from) / secs, last)
unfoldable pub bucket : (from secs last : ℕ) → ResultRow → ℕ
bucket from secs last r = let b = (r.ts - from) / secs in if leb b last then b else last

abbrev pub within : (from to : ℕ) → List ResultRow → List ResultRow
within from to rows = filter (λ r. leb from r.ts && leb r.ts to) rows

abbrev pub in_bucket : (ResultRow → ℕ) → ℕ → List ResultRow → List ResultRow
in_bucket key b rows = filter (λ r. key r == b) rows

abbrev pub if_any : {A : Type 0} → List ResultRow → A → A → A
if_any [] x y = y
if_any (r ∷ rs) x y = x

-- GROUP BY b ORDER BY b, over the `left` keys from `b` on: a key without a row has no group.
unfoldable pub groups : (ResultRow → ℕ) → List ResultRow → (b left : ℕ) → List (ℕ × List ResultRow)
groups key rows b zero = []
groups key rows b (suc left) =
    let rest = groups key rows (b + 1) left in
    let g = in_bucket key b rows in if_any g ((b, g) ∷ rest) rest

-- `points[b]`, which is left alone when there is no such element.
abbrev pub set_at : ℕ → (Point → Point) → List Point → List Point
set_at b f [] = []
set_at zero f (p ∷ ps) = f p ∷ ps
set_at (suc b) f (p ∷ ps) = p ∷ set_at b f ps

-- The loop over the rows that a grouped SELECT answers.
unfoldable pub fill :
    (List ResultRow → Point → Point) → List (ℕ × List ResultRow) → List Point → List Point
fill f [] ps = ps
fill f ((b, g) ∷ gs) ps = fill f gs (set_at b (f g) ps)

abbrev pub counted : List ResultRow → Point → Point
counted g p = record p {
  checks = length g;
  successful = sum_up g;
  percent = percent_of (sum_up g) (length g);
  avg_ms = mean_ms (map (λ r. r.response_ms) (filter (λ r. r.up == 1) g));
}

-- MAX over a list of response times; NULL is read as 0.
abbrev pub max_ms : List ℕ → ℕ
max_ms [] = 0
max_ms (n ∷ ns) = let m = max_ms ns in if leb n m then m else n

-- The rank at which the 95th percentile of `n` rows is read, counted from 1.
abbrev pub cut : ℕ → ℕ
cut n = let c = n * 95 / 100 in if leb c 1 then 1 else c

-- MAX(CASE WHEN rn <= cut THEN response_ms END)
unfoldable pub p95_of : List ℕ → ℕ
unfolding sorted_ms
p95_of ms = max_ms (take (cut (length ms)) (sorted_ms ms))

abbrev pub ranked : List ResultRow → Point → Point
ranked g p = record p { p95_ms = p95_of (map (λ r. r.response_ms) g) }

abbrev pub blank : ℕ → Point
blank ts = record { ts = ts; checks = 0; successful = 0; percent = 0; avg_ms = 0; p95_ms = 0 }

-- The points before anything is read, `left` of them from number `i` on.
unfoldable pub blanks : (from secs i left : ℕ) → List Point
blanks from secs i zero = []
blanks from secs i (suc left) = blank (from + i * secs) ∷ blanks from secs (i + 1) left

-- `fillSeriesP95`
unfoldable pub fill_series_p95 : (from secs buckets to : ℕ) → List Point → Exec SiteDb (List Point)
unfolding fill groups bucket p95_of
fill_series_p95 from secs buckets to ps = do
  gs ← query (λ db.
      groups (bucket from secs (buckets - 1))
        (filter (λ r. r.up == 1) (within from to db.check_results)) 0 buckets)
  pure (fill ranked gs ps)

-- What follows once the start of the window is known.
unfoldable pub series_from : String → (start now buckets : ℕ) → Exec SiteDb Series
unfolding fill groups bucket bucket_secs blanks mean_ms fill_series_p95
series_from window start now buckets =
    let from = (if ltb now start then now else start) in
    let secs = bucket_secs from now buckets in
    query
      (λ db. groups (bucket from secs (buckets - 1)) (within from now db.check_results) 0 buckets)
    >>= λ gs.
        fill_series_p95 from secs buckets now (fill counted gs (blanks from secs 0 buckets))
        >>= λ ps.
            pure (record {
              window = window;
              from = from;
              to = now;
              bucket_seconds = secs;
              points = ps;
            })

abbrev pub series_all : String → (now buckets : ℕ) → Option ℕ → Exec SiteDb Series
series_all window now buckets none =
    pure (record { window = window; from = now; to = now; bucket_seconds = 1; points = [] })
series_all window now buckets (some first) = series_from window first now buckets

-- `Series`; a window from 0 starts at the first row.
unfoldable pub series : String → (since : ℕ) → ℤ → (now : ℕ) → Exec SiteDb Series
unfolding series_from clamp_buckets
series window since buckets now =
    if since == 0
    then query (λ db. min_ts db.check_results) >>= series_all window now (clamp_buckets buckets)
    else series_from window since now (clamp_buckets buckets)
