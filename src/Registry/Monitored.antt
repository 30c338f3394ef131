-- ===== src/Registry/Monitored.antt =====
-- internal/storage/registry.go: which configuration is to be monitored under an id, and what the
-- writes of a site make of that.
use uptime_monitor_api.Base.{
  ◌≡◌, refl, ap, ◌∙◌, sym, true, false, not, Option, none, some, List, [], ◌∷◌, ◌++◌, String, find,
  filter, if◌then◌else◌, arith, Bool-cases, inl, inr,
}
use uptime_monitor_api.Base.Text.{str_eq, eq_iff}
use uptime_monitor_api.Db.{Result, ok, err}
use uptime_monitor_api.Config.{SiteConfig}
use uptime_monitor_api.Registry.Tables.{SiteRow, RegistryDb}
use uptime_monitor_api.Registry.Sites.{
  Codec, RoundTrips, has_site, scan_found, scan_site, site_row, set_site,
}
use uptime_monitor_api.Registry.Roundtrip.{scan_site-site_row}
use mathlib.Core.Option.{map as map_option}

abbrev pub row_of : String → List SiteRow → Option SiteRow
row_of k rows = find (λ r. str_eq r.id k) rows

abbrev pub enabled_site : Result SiteConfig → Option SiteConfig
enabled_site (ok s) = if s.enabled then some s else none
enabled_site (err e) = none

row_of-append :
    (r : SiteRow) (k : String) (rows : List SiteRow)
    → has_site r.id rows ≡ false
    → row_of k (rows ++ r ∷ []) ≡ (if str_eq r.id k then some r else row_of k rows)
row_of-append r k [] h = ground arith
row_of-append r k (x ∷ xs) h =
    ground (arith, eq_iff x.id k, eq_iff r.id k, eq_iff x.id r.id, row_of-append r k xs)

row_of-filter :
    (id k : String) (rows : List SiteRow)
    → row_of k (filter (λ r. not (str_eq r.id id)) rows)
      ≡ (if str_eq id k then none else row_of k rows)
row_of-filter id k [] = ground arith
row_of-filter id k (x ∷ xs) =
    ground (arith, eq_iff x.id k, eq_iff x.id id, eq_iff id k, row_of-filter id k xs)

pub row_of-absent :
    (k : String) (rows : List SiteRow) → has_site k rows ≡ false → row_of k rows ≡ none
row_of-absent k [] h = refl
row_of-absent k (x ∷ xs) h = ground (arith, row_of-absent k xs)

pub row_of-present :
    (k : String) (rows : List SiteRow) (r : SiteRow)
    → row_of k rows ≡ some r
    → (has_site k rows ≡ true) × (r.id ≡ k)
row_of-present k [] r h = absurd cc
row_of-present k (x ∷ xs) r h = ground (arith, eq_iff x.id k, row_of-present k xs r)

module _ (json : Codec) where
  abbrev stored : SiteConfig → SiteRow → SiteRow
  stored s r = record (site_row json s) { id = r.id; created_at = r.created_at }

  row_of-set_site :
      (s : SiteConfig) (k : String) (rows : List SiteRow)
      → row_of k (set_site json s rows)
        ≡ (if str_eq s.id k then map_option (stored s) (row_of k rows) else row_of k rows)
  unfolding site_row
  row_of-set_site s k [] = ground arith
  row_of-set_site s k (x ∷ xs) =
      ground (arith, eq_iff x.id k, eq_iff x.id s.id, eq_iff s.id k, row_of-set_site s k xs)

  stored-same :
      (s : SiteConfig) (r : SiteRow)
      → r.id ≡ s.id
      → r.created_at ≡ s.created_at
      → stored s r ≡ site_row json s
  unfolding site_row
  stored-same s r i c = rw (i, c) refl

  -- The enabled configuration that is stored under an id.
  abbrev pub monitored : RegistryDb → String → Option SiteConfig
  monitored db k = enabled_site (scan_found json (row_of k db.sites))

  pub monitored-create :
      (s : SiteConfig) (k : String) (db : RegistryDb)
      → has_site s.id db.sites ≡ false
      → RoundTrips json s.checks
      → monitored (record db { sites = db.sites ++ site_row json s ∷ [] }) k
        ≡ (if str_eq s.id k then enabled_site (ok s) else monitored db k)
  unfolding site_row
  monitored-create s k db h round =
      ap (λ o. enabled_site (scan_found json o)) (row_of-append (site_row json s) k db.sites h)
      ∙ (elim (Bool-cases (str_eq s.id k)) [
        | inl e ↦ rw e (ap enabled_site (scan_site-site_row json s round))
        | inr e ↦ rw e refl
      ])

  pub monitored-delete :
      (id k : String) (db : RegistryDb)
      → monitored (record db { sites = filter (λ r. not (str_eq r.id id)) db.sites }) k
        ≡ (if str_eq id k then none else monitored db k)
  monitored-delete id k db =
      ap (λ o. enabled_site (scan_found json o)) (row_of-filter id k db.sites)
      ∙ (elim (Bool-cases (str_eq id k)) [ inl e ↦ rw e refl | inr e ↦ rw e refl ])

  pub monitored-update :
      (s : SiteConfig) (k : String) (db : RegistryDb) (r : SiteRow)
      → row_of s.id db.sites ≡ some r
      → r.created_at ≡ s.created_at
      → RoundTrips json s.checks
      → monitored (record db { sites = set_site json s db.sites }) k
        ≡ (if str_eq s.id k then enabled_site (ok s) else monitored db k)
  monitored-update s k db r h c round =
      ap (λ o. enabled_site (scan_found json o)) (row_of-set_site s k db.sites)
      ∙ (elim (Bool-cases (str_eq s.id k)) [
        | inl e ↦ rw e (
            ap (λ j. enabled_site (scan_found json (map_option (stored s) (row_of j db.sites))))
              (sym ((eq_iff s.id k).0 e))
            ∙ ap (λ o. enabled_site (scan_found json (map_option (stored s) o))) h
            ∙ ap (λ x. enabled_site (scan_site json x))
                (stored-same s r (row_of-present s.id db.sites r h).1 c)
            ∙ ap enabled_site (scan_site-site_row json s round))
        | inr e ↦ rw e refl
      ])
