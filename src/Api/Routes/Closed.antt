-- ===== src/Api/Routes/Closed.antt =====
-- internal/api/api.go: the routes for a caller without credentials.
use uptime_monitor_api.Base.{
  arith, ℕ, ◌≡◌, refl, ap, sym, subst, ◌∙◌, ◌⊎◌, inl, inr, Bool, true, false, String, if◌then◌else◌,
}
use uptime_monitor_api.Db.{
  Exec, Faults, Result, ok, err, Error, pure, ◌>>=◌, not_found, alert_not_found, delivery_claimed,
  session_not_found, user_not_found, no_rows, sqlite, plain,
}
use uptime_monitor_api.Db.Hoare.{Hoare, Outcome, Hoare-pure, Hoare-update, Hoare-bind, Hoare-result}
use uptime_monitor_api.Config.{SiteConfig}
use uptime_monitor_api.Registry.Sites.{Codec, scan_found, get_site}
use uptime_monitor_api.Registry.Monitored.{row_of}
use uptime_monitor_api.Api.{
  Server, Settings, Crypto, Request, Reply, nothing, error_reply, registry_error, in_registry,
}
use uptime_monitor_api.Api.Hoare.{Hoare-in_registry}
use uptime_monitor_api.Api.Gates.{
  admin_ok, site_key_ok, site_gate, require_admin, require_site_read,
}
use uptime_monitor_api.Api.Gates.Laws.{Authorised, admin_ok-Authorised, admin_ok-answers}
use uptime_monitor_api.Api.Routes.{
  Outside, AdminRoute, DataRoute, Route, Query, admin, site_data, serve,
}
use uptime_monitor_api.Api.Routes.Untouched.{mask, admin_ok-Leaves}

-- A reply without data: unauthorised, not found, or a failure of the storage.
pub record IsRefusal (reply : Reply) : Type 0 where
  pub no_payload : reply.payload ≡ nothing
  pub refused : (reply.status ≡ 401) ⊎ ((reply.status ≡ 404) ⊎ (reply.status ≡ 500))

-- The server answers a refusal, and nothing but sessions has changed.
abbrev pub Refused : Server → Result Reply → Server → Type 0
Refused s = Outcome (λ reply t. IsRefusal reply × (mask t ≡ mask s)) (λ t. ⊥)

registry_error-IsRefusal : (e : Error) → IsRefusal (registry_error e)
registry_error-IsRefusal not_found = record { no_payload = refl; refused = inr (inl refl) }
registry_error-IsRefusal alert_not_found = record { no_payload = refl; refused = inr (inr refl) }
registry_error-IsRefusal delivery_claimed = record { no_payload = refl; refused = inr (inr refl) }
registry_error-IsRefusal session_not_found = record { no_payload = refl; refused = inr (inr refl) }
registry_error-IsRefusal user_not_found = record { no_payload = refl; refused = inr (inr refl) }
registry_error-IsRefusal no_rows = record { no_payload = refl; refused = inr (inr refl) }
registry_error-IsRefusal (sqlite code message) = record {
  no_payload = refl;
  refused = inr (inr refl);
}
registry_error-IsRefusal (plain message) = record { no_payload = refl; refused = inr (inr refl) }

module _ (crypto : Crypto) (clock : ℕ) (settings : Settings) (r : Request) (s : Server)
    (closed : ¬ Authorised crypto clock settings r s.registry) where
  abbrev Same : Server → Type 0
  Same t = t ≡ s

  abbrev Denied : Result Bool → Server → Type 0
  Denied o t = (o ≡ ok false) × (mask t ≡ mask s)

  admin_ok-Denied : Hoare Same (admin_ok crypto clock settings r) Denied
  admin_ok-Denied = record {
    at = λ t fs e. elim (admin_ok-answers crypto clock settings r t fs) [
      | inl h ↦ absurd (
          closed (
            subst (λ x. Authorised crypto clock settings r x.registry) e
              (admin_ok-Authorised crypto clock settings r t fs h)))
      | inr h ↦ (h, (admin_ok-Leaves crypto clock settings r (mask s)).at t fs (ap mask e))
    ];
  }

  unauthorised-Refused :
      (next : Exec Server Reply) (message : String) (b : Bool)
      → Hoare (Denied (ok b)) (if b then next else pure (error_reply 401 message)) (Refused s)
  unauthorised-Refused next message true = record {
    at = λ t fs p. absurd (let h = p.0 in ground arith);
  }
  unauthorised-Refused next message false =
      Hoare-pure _ (λ t p. (record { no_payload = refl; refused = inl refl }, p.1))

  require_admin-Refused :
      (next : Exec Server Reply)
      → Hoare Same (require_admin crypto clock settings r next) (Refused s)
  unfolding require_admin
  require_admin-Refused next =
      Hoare-bind Denied _ _ admin_ok-Denied (λ e t p. absurd (let h = p.0 in ground arith))
        (unauthorised-Refused next "admin credentials required")

  module _ (json : Codec) (id : String) where
    -- The caller does not have the key of the site that is stored.
    abbrev pub NoSiteKey : Type 0
    NoSiteKey =
        (site : SiteConfig)
        → scan_found json (row_of id s.registry.sites) ≡ ok site
        → site_key_ok crypto clock settings r site ≡ false

    abbrev Read : Result SiteConfig → Server → Type 0
    Read =
        Outcome (λ site t. Same t × (scan_found json (row_of id s.registry.sites) ≡ ok site)) Same

    scanned-Read :
        (t : Server) (x : Result SiteConfig)
        → Same t
        → scan_found json (row_of id t.registry.sites) ≡ x
        → Read x t
    scanned-Read t (ok site) p e =
        (p, ap (λ z. scan_found json (row_of id z.registry.sites)) (sym p) ∙ e)
    scanned-Read t (err x) p e = p

    get_site-Read : Hoare Same (in_registry (get_site json id)) Read
    unfolding get_site
    get_site-Read = Hoare-in_registry _ λ t.
        Hoare-update _ (λ db p. scanned-Read (record t { registry = db }) _ p refl) (λ e db p. p)

    site_gate-Refused :
        (next : Exec Server Reply) (x : Result SiteConfig)
        → NoSiteKey
        → Hoare (Read x) (site_gate crypto clock settings r next x) (Refused s)
    site_gate-Refused next (err e) k = Hoare-pure _ (λ t p. (registry_error-IsRefusal e, ap mask p))
    site_gate-Refused next (ok site) k = record {
      at = λ t fs p. (gate (site_key_ok crypto clock settings r site) (k site p.1)).at t fs p.0;
    }
      where
        gate :
            (b : Bool)
            → b ≡ false
            → Hoare Same
                (admin_ok crypto clock settings r >>= λ a.
                  if a
                  then next
                  else if b
                  then next
                  else pure (error_reply 401 "valid API key required for this site"))
                (Refused s)
        gate true e = absurd cc
        gate false e =
            Hoare-bind Denied _ _ admin_ok-Denied (λ x t p. absurd (let h = p.0 in ground arith))
              (unauthorised-Refused next "valid API key required for this site")

    require_site_read-Refused :
        (next : Exec Server Reply)
        → NoSiteKey
        → Hoare Same (require_site_read crypto clock settings json id r next) (Refused s)
    unfolding require_site_read
    require_site_read-Refused next k =
        Hoare-result Read _ _ get_site-Read (λ x. site_gate-Refused next x k)

-- What a caller needs for a route, besides the routes that are open to everyone.
pub data NeedsKey : Route → Type 0 where
  for_admin : (route : AdminRoute) → NeedsKey (admin route)
  for_site : (id : String) (route : DataRoute) (q : Query) → NeedsKey (site_data id route q)

module _ (o : Outside) (settings : Settings) (clock : ℕ) (r : Request) (s : Server) where
  -- The key of the site that a data route names is not presented.
  abbrev pub WithoutSiteKey : Route → Type 0
  WithoutSiteKey (site_data id route q) =
      (site : SiteConfig)
      → scan_found o.json (row_of id s.registry.sites) ≡ ok site
      → site_key_ok o.crypto clock settings r site ≡ false
  WithoutSiteKey _ = Unit

  -- Every route of the table but health, login and logout is closed to a caller who presents neither
  -- the API key, nor a live session, nor, for a data route, the key of the site: the answer is a 401,
  -- a 404 or a 500 without any data, and nothing on the server changes but its sessions, whatever the
  -- engine does.
  pub serve-Refused :
      (route : Route) (fs : Faults)
      → NeedsKey route
      → ¬ Authorised o.crypto clock settings r s.registry
      → WithoutSiteKey route
      → (let out = serve o settings clock r route s fs in Refused s out.0 out.1)
  unfolding serve
  serve-Refused route fs (for_admin a) closed k =
      (require_admin-Refused o.crypto clock settings r s closed _).at s fs refl
  serve-Refused route fs (for_site id a q) closed k =
      (require_site_read-Refused o.crypto clock settings r s closed o.json id _ k).at s fs refl
