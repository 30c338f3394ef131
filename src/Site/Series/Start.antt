-- ===== src/Site/Series/Start.antt =====
-- internal/storage/series.go: where a window starts, and the bounds of the number of buckets.
use uptime_monitor_api.Base.{
  ℕ, zero, suc, ◌≡◌, ◌<◌, ◌≤◌, refl, Option, none, some, List, [], ◌∷◌, ◌==◌, arith, Bool-cases,
  Option-cases, inl, inr, true, false, any, All, leb, subst, ==_iff,
}
use uptime_monitor_api.Base.Int.{ℤ, pos, negsuc}
use uptime_monitor_api.Site.Tables.{ResultRow}
use uptime_monitor_api.Site.Series.{clamp_buckets, min_ts, earlier, max_series_buckets}

-- Where a window starts: at the time that is given, or, when none is, at the first row.
pub data StartsAt (since : ℕ) (rows : List ResultRow) (start : ℕ) : Type 0 where
  given : (since == 0) ≡ false → start ≡ since → StartsAt since rows start
  first :
      since ≡ 0
      → any (λ r. r.ts == start) rows ≡ true
      → All (λ r. start ≤ r.ts) rows
      → StartsAt since rows start

pub clamp_buckets-pos : (b : ℤ) → 0 < clamp_buckets b
unfolding clamp_buckets
clamp_buckets-pos (pos zero) = omega arith
clamp_buckets-pos (pos (suc n)) = ground arith
clamp_buckets-pos (negsuc n) = omega arith

pub clamp_buckets-le : (b : ℤ) → clamp_buckets b ≤ max_series_buckets
unfolding clamp_buckets
clamp_buckets-le (pos zero) = omega arith
clamp_buckets-le (pos (suc n)) = ground arith
clamp_buckets-le (negsuc n) = omega arith

pub min_ts-none : (rows : List ResultRow) → min_ts rows ≡ none → rows ≡ []
min_ts-none [] h = refl
min_ts-none (r ∷ rs) h = absurd (go (min_ts rs) h)
  where
    go : (o : Option ℕ) → earlier r.ts o ≡ none → ⊥
    go none e = cc
    go (some t) e = cc

All-earlier :
    (t s : ℕ) (rows : List ResultRow) → t ≤ s → All (λ r. s ≤ r.ts) rows → All (λ r. t ≤ r.ts) rows
All-earlier t s [] h k = tt
All-earlier t s (r ∷ rs) h k = (let l = k.0 in omega arith, All-earlier t s rs h k.1)

pub min_ts-first :
    (rows : List ResultRow) (start : ℕ)
    → min_ts rows ≡ some start
    → (any (λ r. r.ts == start) rows ≡ true) × All (λ r. start ≤ r.ts) rows
min_ts-first [] start e = absurd cc
min_ts-first (r ∷ rs) start e = elim (Option-cases (min_ts rs)) [
  | inl none_left ↦
      let empty = min_ts-none rs none_left in
      let same = e in
      (ground (arith, none_left, ==_iff r.ts start), (ground (arith, none_left), rw empty tt))
  | inr (t, found) ↦
      let (here, least) = min_ts-first rs t found in
      elim (Bool-cases (leb r.ts t)) [
        | inl l ↦
            let at = start_is r t rs start found e l in
            (
              ground (arith, ==_iff r.ts start, at),
              (ground (arith, at), All-earlier start t rs (ground (arith, at)) least),
            )
        | inr l ↦
            let at = start_later r t rs start found e l in
            let here' = subst (λ u. any (λ x. x.ts == u) rs ≡ true) at here in
            (
              ground (arith, here'),
              (ground (arith, at), subst (λ u. All (λ x. u ≤ x.ts) rs) at least),
            )
      ]
]
  where
    start_is :
        (r : ResultRow) (t : ℕ) (rs : List ResultRow) (start : ℕ)
        → min_ts rs ≡ some t
        → earlier r.ts (min_ts rs) ≡ some start
        → leb r.ts t ≡ true
        → r.ts ≡ start
    start_is r t rs start f e l = ground arith

    start_later :
        (r : ResultRow) (t : ℕ) (rs : List ResultRow) (start : ℕ)
        → min_ts rs ≡ some t
        → earlier r.ts (min_ts rs) ≡ some start
        → leb r.ts t ≡ false
        → t ≡ start
    start_later r t rs start f e l = ground arith
