-- ===== src/Api/Sites/Synced.antt =====
-- internal/api/api.go: when the scheduler is in step with the registry, and what puts it so.
use uptime_monitor_api.Base.{
  ◌≡◌, refl, ap, ◌∙◌, sym, Bool, true, false, none, some, String, if◌then◌else◌, Bool-cases, inl,
  inr,
}
use uptime_monitor_api.Base.Text.{str_eq, eq_iff}
use uptime_monitor_api.Config.{SiteConfig}
use uptime_monitor_api.Db.{ok}
use uptime_monitor_api.Registry.Tables.{RegistryDb}
use uptime_monitor_api.Registry.Sites.{Codec}
use uptime_monitor_api.Registry.Monitored.{monitored, enabled_site}
use uptime_monitor_api.Scheduler.{Manager, start, stop, restart}
use uptime_monitor_api.Alerts.Dispatcher.{Queue}
use uptime_monitor_api.Scheduler.Running.{
  Plan, plan_start, plan_stop, Follows, Follows-ext, Follows-start, Follows-stop, Follows-restart,
}
use uptime_monitor_api.Api.{Server}

module _ (json : Codec) where
  -- The check loops that are not cancelled are those of the enabled sites of the registry.
  abbrev pub Synced : Server → Type 0
  Synced s = Follows s.scheduler (monitored json s.registry)

  -- The registry has the site's new configuration, and the scheduler is still to hear of it.
  pub record PendingIn (site : SiteConfig) (m : Manager Queue) (db : RegistryDb) : Type 0 where
    pub before : Plan
    pub follows : Follows m before
    pub stored :
        (k : String)
        → monitored json db k ≡ (if str_eq site.id k then enabled_site (ok site) else before k)

  abbrev pub Pending : SiteConfig → Server → Type 0
  Pending site s = PendingIn site s.scheduler s.registry

  abbrev pub Started : SiteConfig → Server → Type 0
  Started site s = (p : Pending site s) × (p.before site.id ≡ none)

  plan_start-enabled :
      (site : SiteConfig) (f : Plan) (k : String) (b : Bool)
      → (if str_eq site.id k then (if b then some site else none) else f k)
        ≡ (if b then plan_start site f else plan_stop site.id f) k
  plan_start-enabled site f k true = refl
  plan_start-enabled site f k false = refl

  plan_stop-none : (f : Plan) (id k : String) → f id ≡ none → plan_stop id f k ≡ f k
  plan_stop-none f id k h = elim (Bool-cases (str_eq id k)) [
    | inl e ↦ rw e (sym h ∙ ap f ((eq_iff id k).0 e))
    | inr e ↦ rw e refl
  ]

  pub restart-Synced :
      (site : SiteConfig) (s : Server)
      → Pending site s
      → Synced (record s { scheduler = restart site s.scheduler })
  restart-Synced site s p =
      Follows-ext _ _ _ (λ k. sym (p.stored k ∙ plan_start-enabled site p.before k site.enabled))
        (Follows-restart site s.scheduler p.before p.follows)

  pub start-Synced :
      (site : SiteConfig) (s : Server)
      → site.enabled ≡ true
      → Started site s
      → Synced (record s { scheduler = start site s.scheduler })
  start-Synced site s e (p, fresh) =
      Follows-ext _ _ _
        (λ k. sym (
          p.stored k
          ∙ plan_start-enabled site p.before k site.enabled
          ∙ ap (λ b. (if b then plan_start site p.before else plan_stop site.id p.before) k) e))
        (Follows-start site s.scheduler p.before p.follows)

  pub idle-Synced :
      (site : SiteConfig) (s : Server) → site.enabled ≡ false → Started site s → Synced s
  idle-Synced site s e (p, fresh) =
      Follows-ext _ _ _
        (λ k. sym (
          p.stored k
          ∙ plan_start-enabled site p.before k site.enabled
          ∙ ap (λ b. (if b then plan_start site p.before else plan_stop site.id p.before) k) e
          ∙ plan_stop-none p.before site.id k fresh))
        p.follows

  pub stop-Synced :
      (id : String) (s : Server) (f : Plan)
      → Follows s.scheduler f
      → ((k : String) → monitored json s.registry k ≡ plan_stop id f k)
      → Synced (record s { scheduler = stop id s.scheduler })
  unfolding stop
  stop-Synced id s f h e = Follows-ext _ _ _ (λ k. sym (e k)) (Follows-stop id s.scheduler f h)
