-- ===== src/Registry/Roundtrip.antt =====
-- `Create` then `Get`: what a row keeps of a site's configuration.
use uptime_monitor_api.Base.{
  arith, ◌≡◌, refl, Bool, true, false, some, List, [], ◌∷◌, ◌++◌, String, find, not, ◌==◌,
}
use uptime_monitor_api.Base.Text.{str_eq, eq_refl}
use uptime_monitor_api.Db.{◌>>◌, ok}
use uptime_monitor_api.Db.Runs.{Runs, Runs-bind, Runs-update}
use uptime_monitor_api.Config.{SiteConfig}
use uptime_monitor_api.Site.Tick.{null_string}
use uptime_monitor_api.Site.Tables.{bool_to_int}
use uptime_monitor_api.Registry.Tables.{SiteRow, RegistryDb}
use uptime_monitor_api.Registry.Sites.{
  Codec, RoundTrips, has_site, coalesce, scan_site, site_row, create_site, get_site,
}

find_append :
    (id : String) (rows : List SiteRow) (r : SiteRow)
    → has_site id rows ≡ false
    → str_eq r.id id ≡ true
    → find (λ r. str_eq r.id id) (rows ++ r ∷ []) ≡ some r
find_append id [] r h e = ground arith
find_append id (x ∷ xs) r h e = let rest = find_append id xs r in ground arith

coalesce-null_string : (s : String) → coalesce (null_string s) ≡ s
coalesce-null_string String.[] = refl
coalesce-null_string (String.◌∷◌ c s) = refl

enabled-bool_to_int : (b : Bool) → not (bool_to_int b == 0) ≡ b
enabled-bool_to_int true = refl
enabled-bool_to_int false = refl

module _ (json : Codec) where
  pub scan_site-site_row :
      (s : SiteConfig) → RoundTrips json s.checks → scan_site json (site_row json s) ≡ ok s
  unfolding scan_site site_row
  scan_site-site_row s round =
      rw (round, coalesce-null_string s.api_key_hash, enabled-bool_to_int s.enabled) refl

  abbrev pub with_site : SiteConfig → RegistryDb → RegistryDb
  with_site s db = record db { sites = db.sites ++ site_row json s ∷ [] }

  -- A site whose id is not yet registered, and whose checks JSON reads back, is stored by `Create` as
  -- one more row, and `Get` of its id then answers the configuration that was stored, in every field.
  pub get_site-create_site :
      (s : SiteConfig) (db : RegistryDb)
      → has_site s.id db.sites ≡ false
      → RoundTrips json s.checks
      → Runs (create_site json s >> get_site json s.id) db s (with_site s db)
  unfolding create_site get_site site_row
  get_site-create_site s db fresh round =
      Runs-bind _ (Runs-update _ db tt (with_site s db) (rw fresh refl)) (
        Runs-update _ (with_site s db) s (with_site s db) (
          rw (find_append s.id db.sites (site_row json s) fresh row_id, scan_site-site_row s round)
            refl))
    where
      row_id : str_eq (site_row json s).id s.id ≡ true
      row_id = eq_refl s.id
