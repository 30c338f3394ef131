-- ===== src/Overview/Reads.antt =====
-- internal/storage/overview.go: each row against what the reads of its site's store answer.
use uptime_monitor_api.Base.{ℕ, ◌≡◌, refl, ap, subst, List, [], ◌∷◌, none, String}
use uptime_monitor_api.Config.{SiteConfig}
use uptime_monitor_api.Db.{Exec, Error, Faults, Result, ok, err, pure, ◌>>=◌, attempt_result}
use uptime_monitor_api.Registry.Sites.{Codec, list_sites}
use uptime_monitor_api.Site.Query.{Status, Uptime, Metrics, status, uptime, metrics}
use uptime_monitor_api.Stores.{get_store, on_store}
use uptime_monitor_api.Overview.{
  SiteOverview, Storage, of_registry, of_stores, blank_row, with_uptime, with_metrics, with_status,
  with_store, overview_row, overview_rows, overview,
}
use uptime_monitor_api.Overview.Rows.{Answered, OneEach, overview_rows-Always}

abbrev listed : Result (List SiteConfig) → List SiteConfig
listed (ok l) = l
listed (err e) = []

module _ {A : Type 0} where
  both :
      (P Q : A → Type 0) (r : Result A) → Answered P r → Answered Q r → Answered (λ a. P a × Q a) r
  both P Q (ok a) p q = (p, q)
  both P Q (err e) p q = p

module _ (json : Codec) (now : ℕ) (window : String) (since : ℕ) where
  abbrev pub opening : SiteConfig → Exec Storage String
  opening site = of_stores (get_store now site.id)

  abbrev pub reading_status : String → Exec Storage Status
  reading_status p = of_stores (on_store p status)

  abbrev pub reading_metrics : String → Exec Storage Metrics
  reading_metrics p = of_stores (on_store p (metrics window since))

  abbrev pub reading_uptime : String → Exec Storage Uptime
  reading_uptime p = of_stores (on_store p (uptime window since))

  -- A row of a site whose state was read.
  abbrev pub live_row : SiteConfig → Status → SiteOverview
  live_row site st = record {
    site = site;
    up = st.up;
    last_check_ts = st.last_check_ts;
    ongoing_incident_id = st.ongoing_incident_id;
    ssl_expires_at = st.ssl_expires_at;
    window = window;
    checks = 0;
    failed = 0;
    uptime_percent = 0;
    avg_ms = 0;
    error = "";
  }

  -- A row of a site of which nothing was read.
  abbrev pub dark_row : SiteConfig → String → SiteOverview
  dark_row site message = record {
    site = site;
    up = none;
    last_check_ts = none;
    ongoing_incident_id = none;
    ssl_expires_at = none;
    window = window;
    checks = 0;
    failed = 0;
    uptime_percent = 0;
    avg_ms = 0;
    error = message;
  }

  -- The row of a site, by what the four reads of its store answer one after the other, from the storage
  -- `s`.
  pub data RowAt (site : SiteConfig) (s : Storage) (fs : Faults) : SiteOverview → Type 0 where
    unopened :
        (e : Error) (s₁ : Storage) (fs₁ : Faults)
        → opening site s fs ≡ (err e, s₁, fs₁)
        → RowAt site s fs (dark_row site "site data unavailable")
    without_status :
        (p : String) (s₁ : Storage) (fs₁ : Faults) (e : Error) (s₂ : Storage) (fs₂ : Faults)
        → opening site s fs ≡ (ok p, s₁, fs₁)
        → reading_status p s₁ fs₁ ≡ (err e, s₂, fs₂)
        → RowAt site s fs (dark_row site "site status unavailable")
    without_metrics :
        (p : String) (s₁ : Storage) (fs₁ : Faults) (st : Status) (s₂ : Storage) (fs₂ : Faults)
        (e : Error) (s₃ : Storage) (fs₃ : Faults)
        → opening site s fs ≡ (ok p, s₁, fs₁)
        → reading_status p s₁ fs₁ ≡ (ok st, s₂, fs₂)
        → reading_metrics p s₂ fs₂ ≡ (err e, s₃, fs₃)
        → RowAt site s fs (record (live_row site st) { error = "site metrics unavailable" })
    without_uptime :
        (p : String) (s₁ : Storage) (fs₁ : Faults) (st : Status) (s₂ : Storage) (fs₂ : Faults)
        (m : Metrics) (s₃ : Storage) (fs₃ : Faults) (e : Error) (s₄ : Storage) (fs₄ : Faults)
        → opening site s fs ≡ (ok p, s₁, fs₁)
        → reading_status p s₁ fs₁ ≡ (ok st, s₂, fs₂)
        → reading_metrics p s₂ fs₂ ≡ (ok m, s₃, fs₃)
        → reading_uptime p s₃ fs₃ ≡ (err e, s₄, fs₄)
        → RowAt site s fs (record (live_row site st) {
          checks = m.checks;
          failed = m.failed;
          avg_ms = m.avg_ms;
          error = "site uptime unavailable";
        })
    complete :
        (p : String) (s₁ : Storage) (fs₁ : Faults) (st : Status) (s₂ : Storage) (fs₂ : Faults)
        (m : Metrics) (s₃ : Storage) (fs₃ : Faults) (u : Uptime) (s₄ : Storage) (fs₄ : Faults)
        → opening site s fs ≡ (ok p, s₁, fs₁)
        → reading_status p s₁ fs₁ ≡ (ok st, s₂, fs₂)
        → reading_metrics p s₂ fs₂ ≡ (ok m, s₃, fs₃)
        → reading_uptime p s₃ fs₃ ≡ (ok u, s₄, fs₄)
        → RowAt site s fs (record (live_row site st) {
          checks = m.checks;
          failed = m.failed;
          uptime_percent = u.percent;
          avg_ms = m.avg_ms;
        })

  -- The rows of the sites one after the other.
  unfoldable pub RowsFrom : List SiteConfig → Storage → Faults → List SiteOverview → Type 0
  RowsFrom [] s fs [] = Unit
  RowsFrom [] s fs (r ∷ rs) = ⊥
  RowsFrom (c ∷ cs) s fs [] = ⊥
  RowsFrom (c ∷ cs) s fs (r ∷ rs) =
      RowAt c s fs r
      × RowsFrom cs (overview_row json now window since c s fs).1
          (overview_row json now window since c s fs).2 rs

  module _ (site : SiteConfig) (s : Storage) (fs : Faults) where
    uptime-RowAt :
        (p : String) (s₁ : Storage) (fs₁ : Faults) (st : Status) (s₂ : Storage) (fs₂ : Faults)
        (m : Metrics) (s₃ : Storage) (fs₃ : Faults)
        → opening site s fs ≡ (ok p, s₁, fs₁)
        → reading_status p s₁ fs₁ ≡ (ok st, s₂, fs₂)
        → reading_metrics p s₂ fs₂ ≡ (ok m, s₃, fs₃)
        → (o : Result Uptime × Storage × Faults) → reading_uptime p s₃ fs₃ ≡ o
        → Answered
            (RowAt site s fs)
            (with_uptime json now window since
              (record (live_row site st) {
                checks = m.checks;
                failed = m.failed;
                avg_ms = m.avg_ms;
              })
              o.0
              o.1
              o.2).0
    unfolding pure
    uptime-RowAt p s₁ fs₁ st s₂ fs₂ m s₃ fs₃ a b c (ok u, s₄, fs₄) d =
        complete p s₁ fs₁ st s₂ fs₂ m s₃ fs₃ u s₄ fs₄ a b c d
    uptime-RowAt p s₁ fs₁ st s₂ fs₂ m s₃ fs₃ a b c (err e, s₄, fs₄) d =
        without_uptime p s₁ fs₁ st s₂ fs₂ m s₃ fs₃ e s₄ fs₄ a b c d

    metrics-RowAt :
        (p : String) (s₁ : Storage) (fs₁ : Faults) (st : Status) (s₂ : Storage) (fs₂ : Faults)
        → opening site s fs ≡ (ok p, s₁, fs₁)
        → reading_status p s₁ fs₁ ≡ (ok st, s₂, fs₂)
        → (o : Result Metrics × Storage × Faults) → reading_metrics p s₂ fs₂ ≡ o
        → Answered
            (RowAt site s fs)
            (with_metrics json now window since p (live_row site st) o.0 o.1 o.2).0
    unfolding pure ◌>>=◌ attempt_result
    metrics-RowAt p s₁ fs₁ st s₂ fs₂ a b (ok m, s₃, fs₃) c =
        uptime-RowAt p s₁ fs₁ st s₂ fs₂ m s₃ fs₃ a b c (reading_uptime p s₃ fs₃) refl
    metrics-RowAt p s₁ fs₁ st s₂ fs₂ a b (err e, s₃, fs₃) c =
        without_metrics p s₁ fs₁ st s₂ fs₂ e s₃ fs₃ a b c

    status-RowAt :
        (p : String) (s₁ : Storage) (fs₁ : Faults)
        → opening site s fs ≡ (ok p, s₁, fs₁)
        → (o : Result Status × Storage × Faults) → reading_status p s₁ fs₁ ≡ o
        → Answered
            (RowAt site s fs)
            (with_status json now window since p (blank_row window site) o.0 o.1 o.2).0
    unfolding pure ◌>>=◌ attempt_result
    status-RowAt p s₁ fs₁ a (ok st, s₂, fs₂) b =
        metrics-RowAt p s₁ fs₁ st s₂ fs₂ a b (reading_metrics p s₂ fs₂) refl
    status-RowAt p s₁ fs₁ a (err e, s₂, fs₂) b = without_status p s₁ fs₁ e s₂ fs₂ a b

    store-RowAt :
        (o : Result String × Storage × Faults)
        → opening site s fs ≡ o
        → Answered
            (RowAt site s fs)
            (with_store json now window since (blank_row window site) o.0 o.1 o.2).0
    unfolding pure ◌>>=◌ attempt_result
    store-RowAt (ok p, s₁, fs₁) a = status-RowAt p s₁ fs₁ a (reading_status p s₁ fs₁) refl
    store-RowAt (err e, s₁, fs₁) a = unopened e s₁ fs₁ a

    overview_row-RowAt : Answered (RowAt site s fs) (overview_row json now window since site s fs).0
    unfolding overview_row ◌>>=◌ attempt_result
    overview_row-RowAt = store-RowAt (opening site s fs) refl

  overview_rows-RowsFrom :
      (sites : List SiteConfig) (s : Storage) (fs : Faults)
      → Answered (RowsFrom sites s fs) (overview_rows json now window since sites s fs).0
  unfolding overview_rows ◌>>=◌ pure RowsFrom
  overview_rows-RowsFrom [] s fs = tt
  overview_rows-RowsFrom (c ∷ cs) s fs =
      after_row (overview_row json now window since c s fs).0 (overview_row-RowAt c s fs)
        (overview_rows-RowsFrom cs s' fs')
    where
      s' : Storage
      s' = (overview_row json now window since c s fs).1

      fs' : Faults
      fs' = (overview_row json now window since c s fs).2

      after_rest :
          (r : SiteOverview)
          → RowAt c s fs r
          → (o : Result (List SiteOverview) × Storage × Faults) → Answered (RowsFrom cs s' fs') o.0
          → Answered
              (RowsFrom (c ∷ cs) s fs)
              (let (x, t, gs) = o in
                elim x as (λ _. Result (List SiteOverview) × Storage × Faults) [
                  | ok rows ↦ (ok (r ∷ rows), t, gs)
                  | err e ↦ (err e, t, gs)
                ]).0
      after_rest r p (ok rows, t, gs) q = (p, q)
      after_rest r p (err e, t, gs) q = q

      after_row :
          (x : Result SiteOverview)
          → Answered (RowAt c s fs) x
          → Answered (RowsFrom cs s' fs') (overview_rows json now window since cs s' fs').0
          → Answered
              (RowsFrom (c ∷ cs) s fs)
              (elim x as (λ _. Result (List SiteOverview) × Storage × Faults) [
                | ok r ↦ (overview_rows json now window since cs >>= λ rows. pure (r ∷ rows)) s' fs'
                | err e ↦ (err e, s', fs')
              ]).0
      after_row (ok r) p q = after_rest r p (overview_rows json now window since cs s' fs') q
      after_row (err e) p q = p

  -- The dashboard's rows are those of the sites, in their order, and each tells of its own site's store.
  abbrev pub Dashboard : List SiteConfig → Storage → Faults → List SiteOverview → Type 0
  Dashboard sites s fs rows = OneEach sites rows × RowsFrom sites s fs rows

  list-Answered :
      (o : Result (List SiteConfig) × Storage × Faults) (sites : List SiteConfig)
      → o.0 ≡ ok sites
      → Answered
          (Dashboard sites o.1 o.2)
          (let (r, t, gs) = o in
            elim r as (λ _. Result (List SiteOverview) × Storage × Faults) [
              | ok x ↦ overview_rows json now window since x t gs
              | err e ↦ (err e, t, gs)
            ]).0
  list-Answered (ok x, t, gs) sites e =
      subst (λ l. Answered (Dashboard l t gs) (overview_rows json now window since x t gs).0)
        (ap listed e)
        (both (OneEach x) (RowsFrom x t gs) (overview_rows json now window since x t gs).0
          ((overview_rows-Always json now window since x).at t gs) (overview_rows-RowsFrom x t gs))
  list-Answered (err x, t, gs) sites e = absurd cc

  -- Once the registry has listed the sites, the dashboard has one row for each, in their order,
  -- whatever the stores do. Each row tells of its own site's store: where opening it or reading its
  -- state, its metrics or its uptime fails, the row carries the error of the first of these that did
  -- and what was read before; where none does, it carries no error and the figures that were read.
  pub overview-OneEach :
      (s : Storage) (fs : Faults) (sites : List SiteConfig)
      → (list_sites json s.registry fs).0 ≡ ok sites
      → (let listing = of_registry (list_sites json) s fs in
          Answered (Dashboard sites listing.1 listing.2) (overview json now window since s fs).0)
  unfolding overview of_registry ◌>>=◌
  overview-OneEach s fs sites h = list-Answered (of_registry (list_sites json) s fs) sites h
