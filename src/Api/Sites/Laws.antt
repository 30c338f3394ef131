-- ===== src/Api/Sites/Laws.antt =====
-- internal/api/api.go: the site handlers, the registry and the scheduler, statement by statement.
use uptime_monitor_api.Base.{
  ℕ, ◌≡◌, refl, ap, ◌∙◌, Bool, true, false, Option, none, some, String, if◌then◌else◌, subst,
  Bool-cases, inl, inr,
}
use uptime_monitor_api.Base.Text.{is_empty}
use uptime_monitor_api.Config.{ChecksConfig, SiteConfig, Library, apply_defaults}
use uptime_monitor_api.Db.{Result, ok, err}
use uptime_monitor_api.Db.Hoare.{
  Hoare-forget, Hoare, Outcome, Hoare-if, Hoare-pure, Hoare-update, Hoare-query, Hoare-result,
  Hoare-attempt, Hoare-bind,
}
use uptime_monitor_api.Registry.Tables.{SiteRow}
use uptime_monitor_api.Registry.Sites.{
  Codec, RoundTrips, has_site, scan_found, get_site, create_site, update_site, delete_site,
  site_exists,
}
use uptime_monitor_api.Registry.Monitored.{
  monitored, enabled_site, row_of, row_of-absent, row_of-present, monitored-create,
  monitored-update, monitored-delete,
}
use uptime_monitor_api.Scheduler.{start, stop, restart}
use uptime_monitor_api.Scheduler.Running.{Plan, plan_stop, Follows}
use uptime_monitor_api.Api.{Server, Crypto, Reply, Body, unreadable, invalid, decoded, in_registry}
use uptime_monitor_api.Registry.Sites
use uptime_monitor_api.Api.Hoare.{Hoare-in_registry, Hoare-in_stores, Hoare-in_scheduler}
use uptime_monitor_api.Api.Sites.{
  KeyInput, SiteBody, SiteKey, created, create_absent, create_keyed, create_valid, requested,
  handle_create_site, updated, update_keyed, update_valid, replacing, update_found,
  handle_update_site, deleted, handle_delete_site,
}
use uptime_monitor_api.Api.Sites.Synced.{
  Synced, Pending, Started, restart-Synced, start-Synced, idle-Synced, stop-Synced,
}

module _ (lib : Library) (json : Codec) (crypto : Crypto) (now : ℕ)
    (random_key : Option String) where
  abbrev Ends : Result Reply → Server → Type 0
  Ends r s = Synced json s

  created-Synced :
      (site : SiteConfig) (plain_key : String) (r : Result (Unit {0}))
      → Hoare
          (Outcome (λ _. Started json site) (Synced json) r)
          (created lib json crypto now random_key site plain_key r)
          Ends
  created-Synced site plain_key (err e) = Hoare-pure _ (λ s p. p)
  created-Synced site plain_key (ok x) =
      Hoare-bind (λ r s. Synced json s) _ _
        (Hoare-attempt (Started json site) _ _ (Hoare-in_stores _ (λ s r st p. p)) (
          Hoare-if site.enabled
            (λ e. Hoare-in_scheduler (start site) (λ s p. start-Synced json site s e p))
            (λ e. Hoare-pure tt (λ s p. idle-Synced json site s e p))))
        (λ e s p. p) (λ _. Hoare-pure _ (λ s p. p))

  abbrev Absent : SiteConfig → Server → Type 0
  Absent site s = Synced json s × (has_site site.id s.registry.sites ≡ false)

  insert-Started :
      (site : SiteConfig)
      → RoundTrips json site.checks
      → Hoare
          (Absent site)
          (in_registry (create_site json site))
          (Outcome (λ _. Started json site) (Synced json))
  unfolding create_site
  insert-Started site round = Hoare-in_registry _ λ s.
      Hoare-update _
        (λ db p. rw (p.1) (
          record {
            before = monitored json db;
            follows = p.0;
            stored = λ k. monitored-create json site k db p.1 round;
          },
          ap (λ o. enabled_site (scan_found json o)) (row_of-absent site.id db.sites p.1),
        ))
        (λ e db p. p.0)

  create_absent-Synced :
      (site : SiteConfig) (plain_key : String) (r : Result Bool)
      → RoundTrips json site.checks
      → Hoare
          (Outcome (λ b s. Synced json s × (has_site site.id s.registry.sites ≡ b)) (Synced json) r)
          (create_absent lib json crypto now random_key site plain_key r)
          Ends
  create_absent-Synced site plain_key (err e) round = Hoare-pure _ (λ s p. p)
  create_absent-Synced site plain_key (ok true) round = Hoare-pure _ (λ s p. p.0)
  create_absent-Synced site plain_key (ok false) round =
      Hoare-result (Outcome (λ _. Started json site) (Synced json)) _ _ (insert-Started site round)
        (created-Synced site plain_key)

  create_keyed-Synced :
      (site : SiteConfig) (o : Option SiteKey)
      → RoundTrips json site.checks
      → Hoare (Synced json) (create_keyed lib json crypto now random_key site o) Ends
  unfolding site_exists
  create_keyed-Synced site none round = Hoare-pure _ (λ s p. p)
  create_keyed-Synced site (some key) round =
      Hoare-result
        (Outcome (λ b s. Synced json s × (has_site site.id s.registry.sites ≡ b)) (Synced json)) _ _
        (Hoare-in_registry _ λ s. Hoare-query _ (λ db p. (p, refl)) (λ e db p. p))
        (λ r. create_absent-Synced _ key.plain_key r round)

  create_valid-Synced :
      (site : SiteConfig) (i : Option KeyInput) (o : Option String)
      → RoundTrips json site.checks
      → Hoare (Synced json) (create_valid lib json crypto now random_key site i o) Ends
  create_valid-Synced site i (some e) round = Hoare-pure _ (λ s p. p)
  create_valid-Synced site i none round = create_keyed-Synced site _ round

  -- What JSON reads back of the checks that a body asks for.
  abbrev pub Readable : Body SiteBody → Type 0
  Readable (decoded b) = RoundTrips json (apply_defaults lib b.site).checks
  Readable _ = Unit

  requested-RoundTrips :
      (given : Bool) (site : SiteConfig)
      → RoundTrips json (apply_defaults lib site).checks
      → RoundTrips json
          (apply_defaults lib (if given then site else record site { enabled = true })).checks
  unfolding apply_defaults
  requested-RoundTrips true site h = h
  requested-RoundTrips false site h = h

  pub create-Synced :
      (body : Body SiteBody)
      → Readable body
      → Hoare (Synced json) (handle_create_site lib json crypto now random_key body) Ends
  unfolding handle_create_site apply_defaults
  create-Synced unreadable h = Hoare-pure _ (λ s p. p)
  create-Synced (invalid e) h = Hoare-pure _ (λ s p. p)
  create-Synced (decoded b) h =
      create_valid-Synced (requested lib json crypto now random_key b) b.key_input _
        (requested-RoundTrips b.enabled_given b.site h)

  -- The row that `Get` has read.
  abbrev Found : String → SiteConfig → Server → Type 0
  Found id existing s =
      Synced json s
      × (r : SiteRow) × (row_of id s.registry.sites ≡ some r)
      × (r.created_at ≡ existing.created_at)

  scanned-Found :
      (id : String) (s : Server) (o : Option SiteRow)
      → Synced json s
      → row_of id s.registry.sites ≡ o
      → Outcome (Found id) (Synced json) (scan_found json o) s
  unfolding Sites.scan_site
  scanned-Found id s none p e = p
  scanned-Found id s (some r) p e = go (json.unmarshal r.checks_json)
    where
      go : (c : Option ChecksConfig) → Outcome (Found id) (Synced json) (Sites.decoded json r c) s
      go none = p
      go (some c) = (p, r, e, refl)

  get-Found :
      (id : String)
      → Hoare (Synced json) (in_registry (get_site json id)) (Outcome (Found id) (Synced json))
  unfolding get_site
  get-Found id = Hoare-in_registry _ λ s.
      Hoare-update _
        (λ db p. scanned-Found id (record s { registry = db }) (row_of id db.sites) p refl)
        (λ e db p. p)

  updated-Synced :
      (site : SiteConfig) (plain_key : String) (r : Result (Unit {0}))
      → Hoare
          (Outcome (λ _. Pending json site) (Synced json) r)
          (updated lib json crypto now random_key site plain_key r)
          Ends
  updated-Synced site plain_key (err e) = Hoare-pure _ (λ s p. p)
  updated-Synced site plain_key (ok x) =
      Hoare-bind (λ r s. Synced json s) _ _
        (Hoare-in_scheduler (restart site) (λ s p. restart-Synced json site s p)) (λ e s p. p)
        (λ _. Hoare-pure _ (λ s p. p))

  write-Pending :
      (site existing : SiteConfig)
      → existing.created_at ≡ site.created_at
      → RoundTrips json site.checks
      → Hoare
          (Found site.id existing)
          (in_registry (update_site json site))
          (Outcome (λ _. Pending json site) (Synced json))
  unfolding update_site
  write-Pending site existing c round = Hoare-in_registry _ λ s.
      Hoare-update _
        (λ db p.
          let (synced, r, found, same) = p in
          rw ((row_of-present site.id db.sites r found).0) (record {
            before = monitored json db;
            follows = synced;
            stored = λ k. monitored-update json site k db r found (same ∙ c) round;
          }))
        (λ e db p. p.0)

  update_keyed-Synced :
      (site existing : SiteConfig) (o : Option SiteKey)
      → existing.created_at ≡ site.created_at
      → RoundTrips json site.checks
      → Hoare (Found site.id existing) (update_keyed lib json crypto now random_key site o) Ends
  update_keyed-Synced site existing none c round = Hoare-pure _ (λ s p. p.0)
  update_keyed-Synced site existing (some key) c round =
      Hoare-result (Outcome (λ _. Pending json _) (Synced json)) _ _
        (write-Pending _ existing c round) (updated-Synced _ key.plain_key)

  update_valid-Synced :
      (site existing : SiteConfig) (i : Option KeyInput) (o : Option String)
      → existing.created_at ≡ site.created_at
      → RoundTrips json site.checks
      → Hoare
          (Found site.id existing)
          (update_valid lib json crypto now random_key existing site i o)
          Ends
  update_valid-Synced site existing i (some e) c round = Hoare-pure _ (λ s p. p.0)
  update_valid-Synced site existing i none c round = update_keyed-Synced site existing _ c round

  replacing-id :
      (id : String) (existing : SiteConfig) (b : SiteBody)
      → is_empty id ≡ false
      → (replacing lib json crypto now random_key id existing b).id ≡ id
  unfolding apply_defaults
  replacing-id id existing b h = rw h refl

  update_found-Synced :
      (id : String) (body : Body SiteBody) (r : Result SiteConfig)
      → is_empty id ≡ false
      → Readable body
      → Hoare
          (Outcome (Found id) (Synced json) r)
          (update_found lib json crypto now random_key id body r)
          Ends
  unfolding apply_defaults
  update_found-Synced id body (err e) h k = Hoare-pure _ (λ s p. p)
  update_found-Synced id unreadable (ok existing) h k = Hoare-pure _ (λ s p. p.0)
  update_found-Synced id (invalid e) (ok existing) h k = Hoare-pure _ (λ s p. p.0)
  update_found-Synced id (decoded b) (ok existing) h k =
      subst
        (λ j.
          Hoare (Found j existing)
            (update_found lib json crypto now random_key id (decoded b) (ok existing)) Ends)
        (replacing-id id existing b h)
        (update_valid-Synced (replacing lib json crypto now random_key id existing b) existing
          b.key_input _ refl k)

  pub update-Synced :
      (id : String) (body : Body SiteBody)
      → is_empty id ≡ false
      → Readable body
      → Hoare (Synced json) (handle_update_site lib json crypto now random_key id body) Ends
  unfolding handle_update_site
  update-Synced id body h k =
      Hoare-result (Outcome (Found id) (Synced json)) _ _ (get-Found id)
        (λ r. update_found-Synced id body r h k)

module _ (json : Codec) where
  -- The registry has forgotten the site, and its loop is still to stop.
  abbrev Orphan : String → Server → Type 0
  Orphan id s =
      (f : Plan) × Follows s.scheduler f
      × ((k : String) → monitored json s.registry k ≡ plan_stop id f k)

  deleted-Synced :
      (id : String) (purge : Bool) (r : Result (Unit {0}))
      → Hoare (Outcome (λ _. Orphan id) (Synced json) r) (deleted id purge r) (λ _. Synced json)
  deleted-Synced id purge (err e) = Hoare-pure _ (λ s p. p)
  deleted-Synced id purge (ok x) =
      Hoare-bind (λ r s. Synced json s) _ _
        (Hoare-bind (λ r s. Synced json s) _ _
          (Hoare-in_scheduler (stop id) (λ s p. stop-Synced json id s p.0 p.1 p.2)) (λ e s p. p)
          (λ _.
            Hoare-if purge (λ e. Hoare-forget _ (Hoare-in_stores _ (λ s r st p. p)))
              (λ e. Hoare-pure tt (λ s p. p))))
        (λ e s p. p) (λ _. Hoare-pure _ (λ s p. p))

  pub delete-Synced :
      (id : String) (purge : Bool)
      → Hoare (Synced json) (handle_delete_site id purge) (λ _. Synced json)
  unfolding handle_delete_site delete_site
  delete-Synced id purge =
      Hoare-result (Outcome (λ _. Orphan id) (Synced json)) _ _
        (Hoare-in_registry _ λ s.
          Hoare-update _
            (λ db p. elim (Bool-cases (has_site id db.sites)) [
              | inl e ↦ rw e (monitored json db, p, λ k. monitored-delete json id k db)
              | inr e ↦ rw e p
            ])
            (λ e db p. p))
        (deleted-Synced id purge)
