-- ===== src/Monitor/Seeding.antt =====
-- cmd/monitor: what importing the seed file keeps.
use uptime_monitor_api.Base.{
  ℕ, ◌≡◌, inl, inr, Bool, true, false, Option, none, some, List, [], ◌∷◌, ◌++◌, String, Bool-cases,
}
use uptime_monitor_api.Config.{SiteConfig, Library, apply_defaults}
use uptime_monitor_api.Db.{Exec, Result, ok, err, Sqlite}
use uptime_monitor_api.Db.Hoare.{
  Hoare, Hoare-pure, Hoare-raise, Hoare-update, Hoare-query, Hoare-bind, Hoare-forget,
}
use uptime_monitor_api.Registry.Sites.{Codec, create_site, site_exists, has_site, site_row}
use uptime_monitor_api.Stores.{Stores}
use uptime_monitor_api.Api.{Server, Crypto}
use uptime_monitor_api.Api.Hoare.{Hoare-in_registry, Hoare-in_stores}
use uptime_monitor_api.Monitor.{import_absent, import_valid, seed_loop, seed}

-- A property of the server that opening stores and adding an absent site keep.
module _ (lib : Library) (json : Codec) (crypto : Crypto) (sql : Sqlite) (clock : ℕ)
    (I : Server → Type 0)
    (keeps_stores : (s : Server) (st : Stores) → I s → I (record s { stores = st }))
    (keeps_site : (s : Server) (site : SiteConfig)
      → has_site site.id s.registry.sites ≡ false
      → I s
      → I (record s {
        registry = record s.registry { sites = s.registry.sites ++ site_row json site ∷ [] };
      })) where
  abbrev Keeps : {A : Type 0} → Exec Server A → Type 0
  Keeps m = Hoare I m (λ r. I)

  import_absent-Keeps :
      (site : SiteConfig) (b : Bool) → Keeps (import_absent lib json crypto sql clock site b)
  unfolding create_site
  import_absent-Keeps site true = Hoare-pure tt (λ s p. p)
  import_absent-Keeps site false =
      Hoare-bind (λ r. I) _ _
        (Hoare-in_registry _ λ s.
          Hoare-update _
            (λ db p. elim (Bool-cases (has_site site.id db.sites)) [
              | inl e ↦ rw e p
              | inr e ↦ rw e (keeps_site (record s { registry = db }) _ e p)
            ])
            (λ e db p. p))
        (λ e s p. p) (λ _. Hoare-forget _ (Hoare-in_stores _ (λ s r st p. keeps_stores s st p)))

  import_valid-Keeps :
      (site : SiteConfig) (e : Option String)
      → Keeps (import_valid lib json crypto sql clock site e)
  unfolding site_exists
  import_valid-Keeps site (some e) = Hoare-pure tt (λ s p. p)
  import_valid-Keeps site none =
      Hoare-bind (λ r. I) _ _ (Hoare-in_registry _ λ s. Hoare-query _ (λ db p. p) (λ e db p. p))
        (λ e s p. p) (λ b. import_absent-Keeps site b)

  seed_loop-Keeps : (sites : List SiteConfig) → Keeps (seed_loop lib json crypto sql clock sites)
  unfolding seed_loop
  seed_loop-Keeps [] = Hoare-pure tt (λ s p. p)
  seed_loop-Keeps (site ∷ sites) =
      Hoare-bind (λ r. I) _ _ (import_valid-Keeps (apply_defaults lib site) _) (λ e s p. p)
        (λ _. seed_loop-Keeps sites)

  pub seed-Keeps :
      (file : Option (Result (List SiteConfig))) → Keeps (seed lib json crypto sql clock file)
  unfolding seed
  seed-Keeps none = Hoare-pure tt (λ s p. p)
  seed-Keeps (some (err e)) = Hoare-raise e (λ s p. p)
  seed-Keeps (some (ok sites)) = seed_loop-Keeps sites
