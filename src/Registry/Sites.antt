-- ===== src/Registry/Sites.antt =====
-- internal/storage/registry.go: the monitored sites. The JSON of a site's checks is that of
-- encoding/json.
use uptime_monitor_api.Base.{
  ◌≡◌, Bool, true, false, not, ltb, ◌&&◌, ◌||◌, Option, none, some, List, [], ◌∷◌, ◌++◌, String,
  ◌==◌, if◌then◌else◌, any, find, filter,
}
use uptime_monitor_api.Base.Text.{str_eq, ◌⧺◌, code}
use uptime_monitor_api.Db.{Exec, Result, ok, err, not_found, plain, query, update}
use uptime_monitor_api.Config.{ChecksConfig, SiteConfig}
use uptime_monitor_api.Registry.Tables.{SiteRow, RegistryDb, primary_key_violation}
use uptime_monitor_api.Site.Tables.{bool_to_int}
use uptime_monitor_api.Site.Tick.{null_string}

-- json.Marshal and json.Unmarshal at ChecksConfig.
pub record Codec : Type 0 where
  pub marshal : ChecksConfig → String
  pub unmarshal : String → Option ChecksConfig

-- What `Marshal` writes of the checks, `Unmarshal` reads back.
abbrev pub RoundTrips : Codec → ChecksConfig → Type 0
RoundTrips json c = json.unmarshal (json.marshal c) ≡ some c

abbrev pub has_site : String → List SiteRow → Bool
has_site id rows = any (λ r. str_eq r.id id) rows

-- `COALESCE(api_key_hash, '')`
abbrev pub coalesce : Option String → String
coalesce none = ""
coalesce (some s) = s

-- The BINARY collation of TEXT: by the codes of the characters.
unfoldable pub text_le : String → String → Bool
text_le String.[] t = true
text_le (String.◌∷◌ c s) String.[] = false
text_le (String.◌∷◌ c s) (String.◌∷◌ d t) =
    let rest = text_le s t in ltb (code c) (code d) || code c == code d && rest

-- ORDER BY id, by insertion.
unfoldable pub insert_by_name : SiteRow → List SiteRow → List SiteRow
unfolding text_le
insert_by_name r [] = r ∷ []
insert_by_name r (s ∷ ss) =
    let rest = s ∷ insert_by_name r ss in if text_le r.id s.id then r ∷ s ∷ ss else rest

unfoldable pub order_by_name : List SiteRow → List SiteRow
unfolding insert_by_name
order_by_name [] = []
order_by_name (r ∷ rs) = insert_by_name r (order_by_name rs)

module _ (json : Codec) where
  open json use {marshal, unmarshal}

  abbrev pub decoded : SiteRow → Option ChecksConfig → Result SiteConfig
  decoded r none = err (plain ("decode checks for " ⧺ r.id))
  decoded r (some checks) = ok (record {
    id = r.id;
    name = r.name;
    url = r.url;
    interval_seconds = r.interval_seconds;
    slow_interval_seconds = r.slow_interval_seconds;
    enabled = not (r.enabled == 0);
    checks = checks;
    created_at = r.created_at;
    updated_at = r.updated_at;
    api_key_hash = coalesce r.api_key_hash;
  })

  -- `scanSite`
  unfoldable pub scan_site : SiteRow → Result SiteConfig
  scan_site r = decoded r (unmarshal r.checks_json)

  abbrev pub scan_found : Option SiteRow → Result SiteConfig
  scan_found none = err not_found
  scan_found (some r) = scan_site r

  abbrev pub scan_sites : List SiteRow → Result (List SiteConfig)
  scan_sites [] = ok []
  scan_sites (r ∷ rs) =
      let rest = scan_sites rs in
      elim (scan_site r) [
        | err e ↦ err e
        | ok c ↦ elim rest [ err e ↦ err e | ok cs ↦ ok (c ∷ cs) ]
      ]

  -- `List`; the first row that does not decode ends it.
  unfoldable pub list_sites : Exec RegistryDb (List SiteConfig)
  unfolding order_by_name
  list_sites = update (λ db. (scan_sites (order_by_name db.sites), db))

  -- `Get`
  unfoldable pub get_site : String → Exec RegistryDb SiteConfig
  get_site id = update (λ db. (scan_found (find (λ r. str_eq r.id id) db.sites), db))

  -- The columns that `Create` writes.
  unfoldable pub site_row : SiteConfig → SiteRow
  site_row s = record {
    id = s.id;
    name = s.name;
    url = s.url;
    interval_seconds = s.interval_seconds;
    slow_interval_seconds = s.slow_interval_seconds;
    enabled = bool_to_int s.enabled;
    checks_json = marshal s.checks;
    created_at = s.created_at;
    updated_at = s.updated_at;
    api_key_hash = null_string s.api_key_hash;
  }

  -- `Create`; `id` is the PRIMARY KEY.
  unfoldable pub create_site : SiteConfig → Exec RegistryDb (Unit {0})
  create_site s = update λ db.
      if has_site s.id db.sites
      then (err primary_key_violation, db)
      else (ok tt, record db { sites = db.sites ++ site_row s ∷ [] })

  -- The columns that `Update` sets: all but `id` and `created_at`.
  abbrev pub set_site : SiteConfig → List SiteRow → List SiteRow
  set_site s [] = []
  set_site s (r ∷ rs) =
      (if str_eq r.id s.id then record (site_row s) { id = r.id; created_at = r.created_at } else r)
      ∷ set_site s rs

  -- `Update`
  unfoldable pub update_site : SiteConfig → Exec RegistryDb (Unit {0})
  update_site s = update λ db.
      if has_site s.id db.sites
      then (ok tt, record db { sites = set_site s db.sites })
      else (err not_found, db)

-- `Exists`
unfoldable pub site_exists : String → Exec RegistryDb Bool
site_exists id = query (λ db. has_site id db.sites)

-- `Delete`
unfoldable pub delete_site : String → Exec RegistryDb (Unit {0})
delete_site id = update λ db.
    if has_site id db.sites
    then (ok tt, record db { sites = filter (λ r. not (str_eq r.id id)) db.sites })
    else (err not_found, db)
