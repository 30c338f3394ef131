-- ===== src/Site/Series/Laws.antt =====
-- internal/storage/series.go: the points of a series against a description of each from its rows.
use uptime_monitor_api.Base.{
  ℕ, zero, suc, ◌+◌, ◌-◌, ◌*◌, ◌≡◌, ◌<◌, ◌≤◌, refl, ap, ◌∙◌, Option, none, some, List, [], ◌∷◌,
  ◌==◌, ltb, if◌then◌else◌, length, filter, get_elem?, map, arith, Bool-cases, inl, inr, String,
  sym, subst, ==_iff,
}
use uptime_monitor_api.Base.Int.{ℤ}
use uptime_monitor_api.Db.Runs.{Runs, Runs-bind, Runs-query, Runs-pure}
use uptime_monitor_api.Site.Tables.{ResultRow, SiteDb}
use uptime_monitor_api.Site.Query.{sum_up, percent_of, mean_ms}
use uptime_monitor_api.Site.Series.{
  Point, Series, in_bucket, within, bucket, bucket_secs, groups, fill, counted, ranked, p95_of,
  blank, blanks, clamp_buckets, min_ts, fill_series_p95, series_from, series_all, series,
  max_series_buckets,
}
use uptime_monitor_api.Site.Series.Groups.{touched, fill-groups}
use mathlib.Core.Option.{map as map_option}
use uptime_monitor_api.Site.Series.Sums.{
  length-fill, length-blanks, total_checks, sum_below, total-sum_below, sum_below-in_bucket,
  bucket-lt, bucket_secs-reaches,
}
use uptime_monitor_api.Site.Series.Start.{
  StartsAt, given, first, clamp_buckets-pos, clamp_buckets-le, min_ts-none, min_ts-first,
}

abbrev pub successes : List ResultRow → List ResultRow
successes = filter (λ r. r.up == 1)

abbrev pub times : List ResultRow → List ℕ
times = map (λ r. r.response_ms)

-- The point of the rows `g`.
abbrev pub summary : ℕ → List ResultRow → Point
summary ts g = record {
  ts = ts;
  checks = length g;
  successful = sum_up g;
  percent = percent_of (sum_up g) (length g);
  avg_ms = mean_ms (times (successes g));
  p95_ms = p95_of (times (successes g));
}

touched-counted :
    (ts : ℕ) (g : List ResultRow)
    → touched counted g (blank ts) ≡ record (summary ts g) { p95_ms = 0 }
unfolding mean_ms
touched-counted ts [] = refl
touched-counted ts (r ∷ rs) = refl

touched-ranked :
    (p : Point) (g : List ResultRow)
    → p.p95_ms ≡ 0
    → touched ranked g p ≡ record p { p95_ms = p95_of (times g) }
unfolding p95_of
touched-ranked p [] e = ap (λ m. record p { p95_ms = m }) e
touched-ranked p (r ∷ rs) e = refl

in_bucket-successes :
    (key : ResultRow → ℕ) (i : ℕ) (rows : List ResultRow)
    → in_bucket key i (successes rows) ≡ successes (in_bucket key i rows)
in_bucket-successes key i [] = refl
in_bucket-successes key i (r ∷ rs) = ground (arith, in_bucket-successes key i rs)

get_elem-blanks :
    (from secs i left j : ℕ)
    → j < left
    → get_elem? (blanks from secs i left) j ≡ some (blank (from + (i + j) * secs))
unfolding blanks
get_elem-blanks from secs i zero j h = absurd (omega arith)
get_elem-blanks from secs i (suc left) zero h =
    ap (λ k. some (blank (from + k * secs))) (omega arith)
get_elem-blanks from secs i (suc left) (suc j) h =
    get_elem-blanks from secs (i + 1) left j (omega arith)
    ∙ ap (λ k. some (blank (from + k * secs))) (omega arith)

-- A window cut in `n` buckets: the rows of each, the number of points, and that no row is lost.
pub record Dense (rows : List ResultRow) (n : ℕ) (s : Series) : Type 0 where
  pub each :
      (i : ℕ)
      → i < n
      → get_elem? s.points i
        ≡ some (
            summary
              (s.from + i * s.bucket_seconds)
              (in_bucket (bucket s.from s.bucket_seconds (n - 1)) i (within s.from s.to rows)))
  pub size : length s.points ≡ n
  pub whole : total_checks s.points ≡ length (within s.from s.to rows)
  pub reaches : s.to ≤ s.from + n * s.bucket_seconds

module _ (from secs to n : ℕ) (rows : List ResultRow) where
  abbrev key : ResultRow → ℕ
  key = bucket from secs (n - 1)

  abbrev inside : List ResultRow
  inside = within from to rows

  abbrev filled : List Point
  filled =
      fill ranked (groups key (successes inside) 0 n)
        (fill counted (groups key inside 0 n) (blanks from secs 0 n))

  filled-each :
      (i : ℕ)
      → i < n
      → get_elem? filled i ≡ some (summary (from + i * secs) (in_bucket key i inside))
  filled-each i h =
      fill-groups key (successes inside) ranked 0 n i _ (omega arith) (omega arith)
      ∙ ap (map_option (touched ranked (in_bucket key i (successes inside)))) (
          fill-groups key inside counted 0 n i _ (omega arith) (omega arith)
          ∙ ap (map_option (touched counted (in_bucket key i inside))) (
              get_elem-blanks from secs 0 n i h
              ∙ ap (λ k. some (blank (from + k * secs))) (omega arith))
          ∙ ap some (touched-counted (from + i * secs) (in_bucket key i inside)))
      ∙ ap some (
          touched-ranked _ (in_bucket key i (successes inside)) refl
          ∙ ap (λ g. summary' g) (in_bucket-successes key i inside))
    where
      summary' : List ResultRow → Point
      summary' g = record (summary (from + i * secs) (in_bucket key i inside)) {
        p95_ms = p95_of (times g);
      }

  filled-length : length filled ≡ n
  filled-length = length-fill ranked _ _ ∙ length-fill counted _ _ ∙ length-blanks from secs 0 n

  filled-whole : 0 < n → total_checks filled ≡ length inside
  filled-whole h =
      total-sum_below filled (λ i. summary (from + i * secs) (in_bucket key i inside))
        (λ i l. filled-each i (rw⁻¹ filled-length l))
      ∙ ap (λ m. sum_below m (λ i. length (in_bucket key i inside))) filled-length
      ∙ sum_below-in_bucket key n (λ r. bucket-lt from secs n r h) inside

-- Either no start is given and there is no row, and no point, or the window from its start, and not
-- after its end, is cut in `n` buckets. It ends now.
pub data IsSeries (since now : ℕ) (rows : List ResultRow) (n : ℕ) (s : Series) : Type 0 where
  nothing :
      since ≡ 0
      → rows ≡ []
      → s.points ≡ []
      → s.from ≡ now
      → s.to ≡ now
      → IsSeries since now rows n s
  dense :
      (start : ℕ)
      → StartsAt since rows start
      → s.from ≡ (if ltb now start then now else start)
      → s.to ≡ now
      → Dense rows n s
      → IsSeries since now rows n s

series_from-Runs :
    (window : String) (start now n : ℕ) (db : SiteDb)
    → 0 < n
    → (s : Series) × Runs (series_from window start now n) db s db
      × (s.from ≡ (if ltb now start then now else start))
      × (s.to ≡ now)
      × (s.window ≡ window)
      × Dense db.check_results n s
unfolding series_from fill_series_p95
series_from-Runs window start now n db h =
    let from = (if ltb now start then now else start) in
    let secs = bucket_secs from now n in
    let rows = db.check_results in
    (
      record {
        window = window;
        from = from;
        to = now;
        bucket_seconds = secs;
        points = filled from secs now n rows;
      },
      Runs-bind _ (Runs-query _ db)
          (Runs-bind _ (Runs-bind _ (Runs-query _ db) (Runs-pure _ db)) (Runs-pure _ db)),
      refl,
      refl,
      refl,
      record {
        each = filled-each from secs now n rows;
        size = filled-length from secs now n rows;
        whole = filled-whole from secs now n rows h;
        reaches = bucket_secs-reaches from now n h;
      },
    )

series_all-Runs :
    (window : String) (now n : ℕ) (db : SiteDb) (first_ts : Option ℕ)
    → 0 < n
    → min_ts db.check_results ≡ first_ts
    → (s : Series) × Runs (series_all window now n first_ts) db s db
      × (s.window ≡ window)
      × IsSeries 0 now db.check_results n s
series_all-Runs window now n db none h e =
    (_, Runs-pure _ db, refl, nothing refl (min_ts-none db.check_results e) refl refl refl)
series_all-Runs window now n db (some start) h e =
    let (s, run, from, to, name, d) = series_from-Runs window start now n db h in
    let (here, least) = min_ts-first db.check_results start e in
    (s, run, name, dense start (first refl here least) from to d)

-- `Series` answers, unless the engine fails, and changes nothing. It asks for at most 1000 buckets
-- and at least one. Without a start and with no row stored it has no point. Otherwise its window, which
-- has the name that was asked for, goes from the given start, or else from the earliest row, to now; it
-- has exactly as many points as buckets, evenly spaced from the start of the window, each the summary
-- of the rows that its bucket holds (the two grouped queries agree on them), and together they count
-- every row of the window once.
pub series-Runs :
    (window : String) (since : ℕ) (buckets : ℤ) (now : ℕ) (db : SiteDb)
    → (s : Series) × Runs (series window since buckets now) db s db
      × (s.window ≡ window)
      × IsSeries since now db.check_results (clamp_buckets buckets) s
      × (0 < clamp_buckets buckets)
      × (clamp_buckets buckets ≤ max_series_buckets)
unfolding series
series-Runs window since buckets now db =
    let n = clamp_buckets buckets in
    let some_bucket = clamp_buckets-pos buckets in
    let few = clamp_buckets-le buckets in
    elim (Bool-cases (since == 0)) [
      | inl e ↦
          let (s, run, name, d) =
            series_all-Runs window now n db (min_ts db.check_results) some_bucket refl in
          let zero_since = sym ((==_iff since 0).0 e) in
          (
            s,
            rw e (Runs-bind _ (Runs-query _ db) run),
            name,
            subst (λ t. IsSeries t now db.check_results n s) zero_since d,
            some_bucket,
            few,
          )
      | inr e ↦
          let (s, run, from, to, name, d) = series_from-Runs window since now n db some_bucket in
          (s, rw e run, name, dense since (given e refl) from to d, some_bucket, few)
    ]
