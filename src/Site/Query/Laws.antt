-- ===== src/Site/Query/Laws.antt =====
-- The counts and the percentiles of a window (internal/storage/query.go).
use uptime_monitor_api.Base.{
  arith, ◌⊎◌, inl, inr, ◌≡◌, refl, ℕ, zero, suc, ◌+◌, ◌≤◌, ◌<◌, false, some, List, [], ◌∷◌, String,
  ◌==◌, length, All, get_elem?, ap, ◌∙◌,
}
use uptime_monitor_api.Db.Runs.{Runs, Runs-bind, Runs-query, Runs-update, Runs-pure}
use uptime_monitor_api.Site.Tables.{ResultRow, SiteDb}
use uptime_monitor_api.Site.Query.{
  Uptime, uptime, uptime_of, sum_up, since, insert_ms, sorted_ms, offset, percentile, latencies,
}

-- `up` is a 0 or a 1 in every row.
abbrev pub Flags : List ResultRow → Type 0
Flags rows = All (λ r. r.up ≤ 1) rows

pub sum_up-le : (rows : List ResultRow) → Flags rows → sum_up rows ≤ length rows
sum_up-le [] h = omega arith
sum_up-le (r ∷ rs) (p, h) = let rest = sum_up-le rs h in omega arith

offset-lt : (q n : ℕ) → 0 < n → offset q n < n
unfolding offset
offset-lt q n h = ground arith

length-insert_ms : (n : ℕ) (ms : List ℕ) → length (insert_ms n ms) ≡ suc (length ms)
unfolding insert_ms
length-insert_ms n [] = refl
length-insert_ms n (m ∷ ms) = let rest = length-insert_ms n ms in ground arith

length-sorted_ms : (ms : List ℕ) → length (sorted_ms ms) ≡ length ms
unfolding sorted_ms
length-sorted_ms [] = refl
length-sorted_ms (m ∷ ms) = length-insert_ms m (sorted_ms ms) ∙ ap suc (length-sorted_ms ms)

get_elem_of_lt : (n : ℕ) (ms : List ℕ) → n < length ms → (m : ℕ) × (get_elem? ms n ≡ some m)
get_elem_of_lt n [] h = absurd (omega arith)
get_elem_of_lt zero (m ∷ ms) h = (m, refl)
get_elem_of_lt (suc n) (m ∷ ms) h = get_elem_of_lt n ms (omega arith)

suc-nonzero : (n : ℕ) → (suc n == 0) ≡ false
suc-nonzero n = ground arith

-- `v` stands at the quantile of the latencies, or is 0 when there are none.
abbrev pub AtQuantile : ℕ → List ℕ → ℕ → Type 0
AtQuantile q ms v =
    ((length ms ≡ 0) × (v ≡ 0))
    ⊎ ((0 < length ms) × (get_elem? (sorted_ms ms) (offset q (length ms)) ≡ some v))

-- The offset that `percentile` computes always names a row: it answers 0 when the window has no
-- successful check, and otherwise the latency that stands at the offset in ascending order; it
-- never reports that there is no row.
pub percentile-Runs :
    (ts q : ℕ) (db : SiteDb)
    → (v : ℕ) × AtQuantile q (latencies ts db.check_results) v × Runs (percentile ts q) db v db
unfolding percentile
percentile-Runs ts q db = go (latencies ts db.check_results) refl
  where
    go :
        (ms : List ℕ)
        → latencies ts db.check_results ≡ ms
        → (v : ℕ) × AtQuantile q ms v × Runs (percentile ts q) db v db
    go [] e = (0, inl (refl, refl), Runs-bind _ (Runs-query _ db) (rw e (Runs-pure 0 db)))
    go (m ∷ ms) e =
        let inside = offset-lt q (length (m ∷ ms)) (omega arith) in
        let size = length-sorted_ms (m ∷ ms) in
        let (v, found) =
          get_elem_of_lt (offset q (length (m ∷ ms))) (sorted_ms (m ∷ ms)) (omega arith) in
        (
          v,
          inr (omega arith, found),
          Runs-bind _ (Runs-query _ db)
              (rw (e, suc-nonzero (length ms)) (Runs-update _ db v db (rw (e, found) refl))),
        )

-- Where every row's `up` is 0 or 1, the successful and the failed checks of a window add up to its
-- checks, which is what the SUM and the COUNT of one query answer together.
pub uptime-counts :
    (window : String) (ts : ℕ) (db : SiteDb)
    → Flags (since ts db.check_results)
    → (u : Uptime) × Runs (uptime window ts) db u db
      × (u.successful + u.failed ≡ u.checks)
      × (u.successful ≤ u.checks)
unfolding uptime
uptime-counts window ts db flags =
    let rows = since ts db.check_results in
    let few = sum_up-le rows flags in (uptime_of window rows, Runs-query _ db, omega arith, few)
