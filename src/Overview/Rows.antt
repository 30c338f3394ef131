-- ===== src/Overview/Rows.antt =====
-- internal/storage/overview.go: the rows against the sites.
use uptime_monitor_api.Base.{ℕ, ◌≡◌, refl, ap, ◌∙◌, List, [], ◌∷◌, map, String}
use uptime_monitor_api.Config.{SiteConfig}
use uptime_monitor_api.Db.{Exec, Faults, Result, ok, err, pure, ◌>>=◌, attempt_result}
use uptime_monitor_api.Registry.Sites.{Codec}
use uptime_monitor_api.Site.Query.{Status, Uptime, Metrics}
use uptime_monitor_api.Overview.{
  SiteOverview, Storage, blank_row, with_uptime, with_metrics, with_status, with_store,
  overview_row, overview_rows,
}

module _ {A : Type 0} where
  abbrev pub Answered : (A → Type 0) → Result A → Type 0
  Answered Q (ok a) = Q a
  Answered Q (err e) = ⊥

  -- The action succeeds whatever the engine does, with an answer that has the property.
  pub record Always (Q : A → Type 0) (m : Exec Storage A) : Type 0 where
    pub at : (s : Storage) (fs : Faults) → Answered Q (m s fs).0

module _ {A : Type 0} {Q : A → Type 0} where
  Always-pure : (a : A) → Q a → Always Q (pure a)
  unfolding pure
  Always-pure a q = record { at = λ s fs. q }

module _ {A B : Type 0} {Q : A → Type 0} where
  Always-attempt :
      (m : Exec Storage B) (f : Result B → Exec Storage A)
      → ((r : Result B) → Always Q (f r))
      → Always Q (attempt_result m >>= f)
  unfolding ◌>>=◌ attempt_result
  Always-attempt m f h = record { at = λ s fs. let o = m s fs in (h o.0).at o.1 o.2 }

  Answered-bind :
      {P : B → Type 0} (f : B → Exec Storage A)
      → ((b : B) → P b → Always Q (f b))
      → (o : Result B × Storage × Faults) → Answered P o.0
      → Answered Q
          (let (r, t, gs) = o in
            elim r as (λ _. Result A × Storage × Faults) [
              | ok x ↦ f x t gs
              | err e ↦ (err e, t, gs)
            ]).0
  Answered-bind f h (ok b, t, gs) p = (h b p).at t gs
  Answered-bind f h (err e, t, gs) p = absurd p

  Always-bind :
      {P : B → Type 0} (m : Exec Storage B) (f : B → Exec Storage A)
      → Always P m
      → ((b : B) → P b → Always Q (f b))
      → Always Q (m >>= f)
  unfolding ◌>>=◌
  Always-bind m f hm h = record { at = λ s fs. Answered-bind f h (m s fs) (hm.at s fs) }

abbrev pub Of : SiteConfig → SiteOverview → Type 0
Of site row = row.site ≡ site

-- One row for each site, in the sites' order.
abbrev pub OneEach : List SiteConfig → List SiteOverview → Type 0
OneEach sites rows = map (λ row. row.site) rows ≡ sites

module _ (json : Codec) (now : ℕ) (window : String) (since : ℕ) where
  uptime-Always :
      (row : SiteOverview) (r : Result Uptime)
      → Always (Of row.site) (with_uptime json now window since row r)
  uptime-Always row (ok u) = Always-pure _ refl
  uptime-Always row (err e) = Always-pure _ refl

  metrics-Always :
      (p : String) (row : SiteOverview) (r : Result Metrics)
      → Always (Of row.site) (with_metrics json now window since p row r)
  metrics-Always p row (ok m) = Always-attempt _ _ (uptime-Always _)
  metrics-Always p row (err e) = Always-pure _ refl

  status-Always :
      (p : String) (row : SiteOverview) (r : Result Status)
      → Always (Of row.site) (with_status json now window since p row r)
  status-Always p row (ok st) = Always-attempt _ _ (metrics-Always p _)
  status-Always p row (err e) = Always-pure _ refl

  store-Always :
      (row : SiteOverview) (r : Result String)
      → Always (Of row.site) (with_store json now window since row r)
  store-Always row (ok p) = Always-attempt _ _ (status-Always p row)
  store-Always row (err e) = Always-pure _ refl

  overview_row-Always :
      (site : SiteConfig) → Always (Of site) (overview_row json now window since site)
  unfolding overview_row
  overview_row-Always site = Always-attempt _ _ (store-Always (blank_row window site))

  pub overview_rows-Always :
      (sites : List SiteConfig) → Always (OneEach sites) (overview_rows json now window since sites)
  unfolding overview_rows
  overview_rows-Always [] = Always-pure [] refl
  overview_rows-Always (site ∷ sites) = Always-bind _ _ (overview_row-Always site) λ row p.
      Always-bind _ _ (overview_rows-Always sites)
        λ rows q. Always-pure _ (ap (λ c. c ∷ map (λ r. r.site) rows) p ∙ ap (λ cs. site ∷ cs) q)
