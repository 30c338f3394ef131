-- ===== src/Api/Sites.antt =====
-- internal/api/api.go: the handlers of the site configurations. What encoding/json makes of a body is
-- an argument, and so is the key that `randomKey` draws, `none` when there is no entropy.
mod Tests
pub mod Synced
pub mod Laws
pub mod History
use uptime_monitor_api.Base.{
  ℕ, Bool, true, false, ◌||◌, Option, none, some, List, String, if◌then◌else◌,
}
use uptime_monitor_api.Base.Text.{is_empty, contains, ◌⧺◌}
use uptime_monitor_api.Config.{SiteConfig, Library, apply_defaults, validate}
use uptime_monitor_api.Db.{
  Exec, Result, ok, err, Error, plain, error_text, pure, ◌>>=◌, ◌>>◌, attempt, attempt_result,
}
use uptime_monitor_api.Registry.Sites.{
  Codec, list_sites, get_site, create_site, update_site, delete_site, site_exists,
}
use uptime_monitor_api.Scheduler.{start, stop, restart}
use uptime_monitor_api.Stores.{get_store, delete_store}
use uptime_monitor_api.Api.{
  registry_error, failed, Server, Crypto, Reply, Body, unreadable, invalid, decoded, error_reply,
  json_reply, no_content, too_large, invalid_json, one_site, all_sites, health, in_registry,
  in_stores, in_scheduler,
}

-- `keyInput`
pub record KeyInput : Type 0 where
  pub api_key : Option String
  pub generate_key : Bool

-- The decodings of one body: the site, whether "enabled" is given, and the key controls, where they
-- decode.
pub record SiteBody : Type 0 where
  pub site : SiteConfig
  pub enabled_given : Bool
  pub key_input : Option KeyInput

-- What is to be stored of the key, and the plain key to answer, empty for none.
pub record SiteKey : Type 0 where
  pub hash : String
  pub plain_key : String

-- `handleHealth`
unfoldable pub handle_health : ℕ → Exec Server Reply
handle_health now = pure (json_reply 200 (health now))

abbrev pub listed_sites : Result (List SiteConfig) → Reply
listed_sites (ok sites) = json_reply 200 (all_sites sites)
listed_sites (err e) = failed e

module _ (lib : Library) (json : Codec) (crypto : Crypto) (now : ℕ)
    (random_key : Option String) where
  open crypto use {hash_api_key}

  abbrev pub generated : Option String → Option SiteKey
  generated none = none
  generated (some key) = some (record { hash = hash_api_key key; plain_key = key })

  abbrev pub given : String → Option String → SiteKey
  given existing none = record { hash = existing; plain_key = "" }
  given existing (some key) = record {
    hash = if is_empty key then "" else hash_api_key key;
    plain_key = "";
  }

  -- `resolveSiteKey`
  unfoldable pub resolve_site_key : Option KeyInput → String → Option SiteKey
  resolve_site_key none existing = none
  resolve_site_key (some i) existing =
      if i.generate_key then generated random_key else some (given existing i.api_key)

  -- `handleListSites`
  unfoldable pub handle_list_sites : Exec Server Reply
  handle_list_sites = attempt_result (in_registry (list_sites json)) >>= λ r. pure (listed_sites r)

  abbrev pub conflict : SiteConfig → Reply
  conflict site = error_reply 409 ("site id already exists: " ⧺ site.id)

  abbrev pub create_refused : SiteConfig → Error → Reply
  create_refused site e =
      if contains (error_text e) "UNIQUE constraint" then conflict site else failed e

  -- What follows a successful insert; that the store does not open is only logged.
  abbrev pub created : SiteConfig → String → Result (Unit {0}) → Exec Server Reply
  created site plain_key (err e) = pure (create_refused site e)
  created site plain_key (ok _) =
      attempt (in_stores (get_store now site.id))
      >> (if site.enabled then in_scheduler (start site) else pure tt)
      >> pure (json_reply 201 (one_site site plain_key))

  abbrev pub create_absent : SiteConfig → String → Result Bool → Exec Server Reply
  create_absent site plain_key (err e) = pure (failed e)
  create_absent site plain_key (ok found) =
      if found
      then pure (conflict site)
      else attempt_result (in_registry (create_site json site)) >>= created site plain_key

  abbrev pub create_keyed : SiteConfig → Option SiteKey → Exec Server Reply
  create_keyed site none = pure (error_reply 500 "key generation failed")
  create_keyed site (some key) =
      let site' = record site { api_key_hash = key.hash; created_at = now; updated_at = now } in
      attempt_result (in_registry (site_exists site.id)) >>= create_absent site' key.plain_key

  abbrev pub create_valid : SiteConfig → Option KeyInput → Option String → Exec Server Reply
  create_valid site i (some e) = pure (error_reply 400 e)
  create_valid site i none = create_keyed site (resolve_site_key i "")

  -- The site that a body asks for: monitored unless it says otherwise.
  abbrev pub requested : SiteBody → SiteConfig
  requested b =
      apply_defaults lib (if b.enabled_given then b.site else record b.site { enabled = true })

  -- `handleCreateSite`
  unfoldable pub handle_create_site : Body SiteBody → Exec Server Reply
  unfolding resolve_site_key
  handle_create_site unreadable = pure too_large
  handle_create_site (invalid e) = pure (invalid_json e)
  handle_create_site (decoded b) =
      create_valid (requested b) b.key_input (validate lib (requested b))

  abbrev pub got_site : Result SiteConfig → Reply
  got_site (err e) = registry_error e
  got_site (ok site) = json_reply 200 (one_site site "")

  -- `handleGetSite`
  unfoldable pub handle_get_site : String → Exec Server Reply
  handle_get_site id = attempt_result (in_registry (get_site json id)) >>= λ r. pure (got_site r)

  -- The schedule follows what was stored.
  abbrev pub updated : SiteConfig → String → Result (Unit {0}) → Exec Server Reply
  updated site plain_key (err e) = pure (registry_error e)
  updated site plain_key (ok _) =
      in_scheduler (restart site) >> pure (json_reply 200 (one_site site plain_key))

  abbrev pub update_keyed : SiteConfig → Option SiteKey → Exec Server Reply
  update_keyed site none = pure (error_reply 500 "key generation failed")
  update_keyed site (some key) =
      let site' = record site { api_key_hash = key.hash; updated_at = now } in
      attempt_result (in_registry (update_site json site')) >>= updated site' key.plain_key

  abbrev pub update_valid :
      SiteConfig → SiteConfig → Option KeyInput → Option String → Exec Server Reply
  update_valid existing site i (some e) = pure (error_reply 400 e)
  update_valid existing site i none = update_keyed site (resolve_site_key i existing.api_key_hash)

  -- The id and the creation time are those of the stored site.
  abbrev pub replacing : String → SiteConfig → SiteBody → SiteConfig
  replacing id existing b =
      apply_defaults lib (record b.site { id = id; created_at = existing.created_at })

  abbrev pub update_found : String → Body SiteBody → Result SiteConfig → Exec Server Reply
  update_found id body (err e) = pure (registry_error e)
  update_found id unreadable (ok existing) = pure too_large
  update_found id (invalid e) (ok existing) = pure (invalid_json e)
  update_found id (decoded b) (ok existing) =
      let site = replacing id existing b in
      update_valid existing site b.key_input (validate lib site)

  -- `handleUpdateSite`
  unfoldable pub handle_update_site : String → Body SiteBody → Exec Server Reply
  unfolding resolve_site_key
  handle_update_site id body =
      attempt_result (in_registry (get_site json id)) >>= update_found id body

-- The data file stays unless the request purges it; that it cannot be removed is only logged.
abbrev pub deleted : String → Bool → Result (Unit {0}) → Exec Server Reply
deleted id purge (err e) = pure (registry_error e)
deleted id purge (ok _) =
    in_scheduler (stop id)
    >> (if purge then attempt (in_stores (delete_store id)) else pure tt)
    >> pure no_content

-- `handleDeleteSite`
unfoldable pub handle_delete_site : String → (purge : Bool) → Exec Server Reply
handle_delete_site id purge = attempt_result (in_registry (delete_site id)) >>= deleted id purge
