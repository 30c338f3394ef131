-- ===== src/Site/Query/Totals.antt =====
-- internal/storage/query.go: `Metrics`, whose three percentiles are read one after the other.
use uptime_monitor_api.Base.{
  arith, inl, inr, ◌≡◌, ℕ, zero, suc, ◌+◌, ◌*◌, leb, leb→le, Bool-cases, ◌≤◌, some, List, [], ◌∷◌,
  String, All, length, get_elem?,
}
use uptime_monitor_api.Db.Runs.{Runs, Runs-bind, Runs-query, Runs-pure}
use uptime_monitor_api.Site.Tables.{SiteDb}
use uptime_monitor_api.Site.Query.{
  Metrics, metrics, totals, since, insert_ms, sorted_ms, offset, latencies,
}
use uptime_monitor_api.Site.Query.Laws.{Flags, sum_up-le, AtQuantile, percentile-Runs}

abbrev Above : ℕ → List ℕ → Type 0
Above n ms = All (λ m. n ≤ m) ms

abbrev IsSorted : List ℕ → Type 0
IsSorted [] = Unit
IsSorted (m ∷ ms) = Above m ms × IsSorted ms

Above-le : (k n : ℕ) (ms : List ℕ) → k ≤ n → Above n ms → Above k ms
Above-le k n [] h a = tt
Above-le k n (m ∷ ms) h a = (omega arith, Above-le k n ms h a.1)

insert_ms-Above : (k n : ℕ) (ms : List ℕ) → k ≤ n → Above k ms → Above k (insert_ms n ms)
unfolding insert_ms
insert_ms-Above k n [] h a = (h, tt)
insert_ms-Above k n (m ∷ ms) h a = elim (Bool-cases (leb n m)) [
  | inl e ↦ rw e (h, a)
  | inr e ↦ rw e (a.0, insert_ms-Above k n ms h a.1)
]

insert_ms-IsSorted : (n : ℕ) (ms : List ℕ) → IsSorted ms → IsSorted (insert_ms n ms)
unfolding insert_ms
insert_ms-IsSorted n [] h = (tt, tt)
insert_ms-IsSorted n (m ∷ ms) h = elim (Bool-cases (leb n m)) [
  | inl e ↦ rw e ((leb→le n m e, Above-le n m ms (leb→le n m e) h.0), h)
  | inr e ↦ rw e (insert_ms-Above m n ms (ground arith) h.0, insert_ms-IsSorted n ms h.1)
]

sorted_ms-IsSorted : (ms : List ℕ) → IsSorted (sorted_ms ms)
unfolding sorted_ms
sorted_ms-IsSorted [] = tt
sorted_ms-IsSorted (m ∷ ms) = insert_ms-IsSorted m (sorted_ms ms) (sorted_ms-IsSorted ms)

Above-get : (k i v : ℕ) (ms : List ℕ) → Above k ms → get_elem? ms i ≡ some v → k ≤ v
Above-get k i v [] h e = absurd cc
Above-get k zero v (m ∷ ms) h e = ground arith
Above-get k (suc i) v (m ∷ ms) h e = Above-get k i v ms h.1 e

get_elem_mono :
    (i j v w : ℕ) (ms : List ℕ)
    → IsSorted ms
    → i ≤ j
    → get_elem? ms i ≡ some v
    → get_elem? ms j ≡ some w
    → v ≤ w
get_elem_mono i j v w [] s h e f = absurd cc
get_elem_mono zero zero v w (m ∷ ms) s h e f = ground arith
get_elem_mono zero (suc j) v w (m ∷ ms) s h e f = let k = Above-get m j w ms s.0 f in ground arith
get_elem_mono (suc i) zero v w (m ∷ ms) s h e f = absurd (omega arith)
get_elem_mono (suc i) (suc j) v w (m ∷ ms) s h e f = get_elem_mono i j v w ms s.1 (omega arith) e f

offset_mono : (p q n : ℕ) → p * n ≤ q * n → offset p n ≤ offset q n
unfolding offset
offset_mono p q n h = ground arith

AtQuantile-mono :
    (p q v w : ℕ) (ms : List ℕ)
    → p * length ms ≤ q * length ms
    → AtQuantile p ms v
    → AtQuantile q ms w
    → v ≤ w
AtQuantile-mono p q v w ms h (inl a) (inl b) = omega arith
AtQuantile-mono p q v w ms h (inl a) (inr b) = absurd (omega arith)
AtQuantile-mono p q v w ms h (inr a) (inl b) = absurd (omega arith)
AtQuantile-mono p q v w ms h (inr a) (inr b) =
    get_elem_mono (offset p (length ms)) (offset q (length ms)) v w (sorted_ms ms)
      (sorted_ms-IsSorted ms) (offset_mono p q (length ms) h) a.1 b.1

-- Where every row's `up` is 0 or 1, `Metrics` answers, unless the engine fails, with counts that add
-- up and with three percentiles that stand at their quantiles of one list of latencies and are in
-- order: the median is at most the 95th, which is at most the 99th.
pub metrics-Runs :
    (window : String) (ts : ℕ) (db : SiteDb)
    → Flags (since ts db.check_results)
    → (m : Metrics) × Runs (metrics window ts) db m db
      × (m.successful + m.failed ≡ m.checks)
      × AtQuantile 50 (latencies ts db.check_results) m.p50_ms
      × AtQuantile 95 (latencies ts db.check_results) m.p95_ms
      × AtQuantile 99 (latencies ts db.check_results) m.p99_ms
      × (m.p50_ms ≤ m.p95_ms)
      × (m.p95_ms ≤ m.p99_ms)
unfolding metrics
metrics-Runs window ts db flags =
    let ms = latencies ts db.check_results in
    let rows = since ts db.check_results in
    let few = sum_up-le rows flags in
    let (p50, at50, run50) = percentile-Runs ts 50 db in
    let (p95, at95, run95) = percentile-Runs ts 95 db in
    let (p99, at99, run99) = percentile-Runs ts 99 db in
    (
      _,
      Runs-bind _ (Runs-query (totals ts) db)
          (Runs-bind _ run50 (Runs-bind _ run95 (Runs-bind _ run99 (Runs-pure _ db)))),
      omega arith,
      at50,
      at95,
      at99,
      AtQuantile-mono 50 95 p50 p95 ms (omega arith) at50 at95,
      AtQuantile-mono 95 99 p95 p99 ms (omega arith) at95 at99,
    )
