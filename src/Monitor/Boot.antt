-- ===== src/Monitor/Boot.antt =====
-- cmd/monitor: the state in which the daemon begins to serve.
use uptime_monitor_api.Base.{
  ℕ, ◌≡◌, refl, ◌∙◌, Bool, true, false, not, ◌&&◌, none, List, [], ◌∷◌, ◌++◌, String, arith, ◌||◌,
  any, Bool-cases, inl, inr, ltb,
}
use uptime_monitor_api.Base.Text.{str_eq, eq_iff, is_empty}
use uptime_monitor_api.Config.{SiteConfig, Library}
use uptime_monitor_api.Base.Text.{trim_space}
use uptime_monitor_api.Db.{Exec, Result, ok, err, Sqlite, Faults, attempt}
use uptime_monitor_api.Db.Hoare.{
  Hoare, Outcome, Hoare-pure, Hoare-raise, Hoare-update, Hoare-query, Hoare-bind, Hoare-if,
  Hoare-forget,
}
use uptime_monitor_api.Registry.Tables.{RegistryDb, SiteRow}
use uptime_monitor_api.Registry.Sites.{
  Codec, has_site, list_sites, scan_sites, order_by_name, site_row,
}
use uptime_monitor_api.Registry.Users.{admin_user_count, create_admin_user, normalise_username}
use uptime_monitor_api.Registry.Sessions.{purge_expired_sessions}
use uptime_monitor_api.Scheduler.Running.{
  Follows, Follows-ext, Follows-start_all, Follows-on_transition,
}
use uptime_monitor_api.Api.{Server, Crypto, in_registry}
use uptime_monitor_api.Api.Hoare.{Hoare-in_registry, Hoare-in_scheduler}
use uptime_monitor_api.Api.Sites.Synced.{Synced}
use uptime_monitor_api.Monitor.{
  RunOpts, Environment, Ended, serving, one_shot, monitoring, admitted, run, seeded, seed_first,
  seed_admin_user,
}
use uptime_monitor_api.Monitor.Seeding.{seed-Keeps}
use uptime_monitor_api.Monitor.Seeds.{Distinct, plan_start_all-monitored}

-- No loop runs yet, and no id is stored twice.
abbrev pub Idle : Server → Type 0
Idle s = Follows s.scheduler (λ k. none) × Distinct s.registry.sites

has_site-append :
    (k : String) (rows : List SiteRow) (r : SiteRow)
    → has_site k (rows ++ r ∷ []) ≡ has_site k rows || str_eq r.id k
has_site-append k [] r = ground arith
has_site-append k (x ∷ xs) r = ground (arith, has_site-append k xs r)

Distinct-append :
    (rows : List SiteRow) (r : SiteRow)
    → has_site r.id rows ≡ false
    → Distinct rows
    → Distinct (rows ++ r ∷ [])
Distinct-append [] r h d = (refl, tt)
Distinct-append (x ∷ xs) r h d =
    let free = d.0 in
    (
      has_site-append x.id xs r ∙ ground (arith, eq_iff r.id x.id, eq_iff x.id r.id),
      Distinct-append xs r (ground arith) d.1,
    )

module _ (lib : Library) (json : Codec) (crypto : Crypto) (sql : Sqlite) (clock : ℕ) where
  abbrev Listed : Result (List SiteConfig) → Server → Type 0
  Listed =
      Outcome (λ sites s. Idle s × (scan_sites json (order_by_name s.registry.sites) ≡ ok sites))
        (λ s. Unit)

  listed :
      (s : Server) (x : Result (List SiteConfig))
      → scan_sites json (order_by_name s.registry.sites) ≡ x
      → Idle s
      → Listed x s
  listed s (ok sites) e p = (p, e)
  listed s (err x) e p = tt

  -- Serving, the scheduler runs the enabled sites.
  abbrev pub Boots : Result Ended → Server → Type 0
  Boots = Outcome (λ e s. e ≡ serving → Synced json s) (λ s. Unit)

  monitoring-Boots : Hoare Idle (monitoring lib json crypto sql clock) Boots
  unfolding list_sites
  monitoring-Boots =
      Hoare-bind Listed _ _
        (Hoare-bind (λ r. Idle) _ _
          (Hoare-in_scheduler _ (λ s p. (Follows-on_transition _ s.scheduler _ p.0, p.1)))
          (λ e s p. tt)
          (λ _. Hoare-in_registry _ λ s.
            Hoare-update _ (λ db p. listed (record s { registry = db }) _ refl p) (λ e db p. tt)))
        (λ e s p. tt)
        (λ sites.
          Hoare-bind Boots' _ _
            (Hoare-in_scheduler _ (λ s p.
              Follows-ext _ _ _ (λ k. plan_start_all-monitored json s.registry sites k p.1 p.0.1)
                (Follows-start_all sites s.scheduler (λ k. none) p.0.0)))
            (λ e s p. tt) (λ _. Hoare-pure serving (λ s p e. p)))
    where
      Boots' : Result (Unit {0}) → Server → Type 0
      Boots' = Outcome (λ e. Synced json) (λ s. Unit)

  purge-Idle :
      (now : ℕ) → Hoare Idle (attempt (in_registry (purge_expired_sessions now))) (λ r. Idle)
  unfolding purge_expired_sessions
  purge-Idle now =
      Hoare-forget _ (Hoare-in_registry _ λ s. Hoare-update _ (λ db p. p) (λ e db p. p))

  admitted-Boots :
      (o : RunOpts) (have : Bool) → Hoare Idle (admitted lib json crypto sql clock o have) Boots
  unfolding site_row
  admitted-Boots o have =
      Hoare-if (is_empty o.api_key && not have) (λ e. Hoare-raise _ (λ s p. tt))
        (λ e.
          Hoare-bind (λ r. Idle) _ _
            (Hoare-bind (λ r. Idle) _ _ (purge-Idle _) (λ e s p. p)
              (λ _.
                seed-Keeps lib json crypto sql clock Idle (λ s st p. p)
                  (λ s site h p. (p.0, Distinct-append s.registry.sites (site_row json site) h p.1))
                  o.seed_sites))
            (λ e s p. tt) (λ _. monitoring-Boots))

  abbrev Kept : {A : Type 0} → Server → Exec RegistryDb A → Type 0
  Kept s m =
      Hoare (λ db. Idle (record s { registry = db })) m (λ r db. Idle (record s { registry = db }))

  seeded-Kept :
      (s : Server) (user : String) (r : Result String)
      → Kept s (seeded lib json crypto sql clock user r)
  unfolding create_admin_user
  seeded-Kept s user (err e) = Hoare-raise e (λ db p. p)
  seeded-Kept s user (ok hash) =
      Hoare-bind (λ r db. Idle (record s { registry = db })) _ _
        (Hoare-update _
          (λ db p.
            elim (Bool-cases
              (any (λ x. str_eq x.username (normalise_username lib.unicode user)) db.admin_users)) [
                | inl e ↦ rw e p
                | inr e ↦ rw e p
              ])
          (λ e db p. p))
        (λ e db p. p) (λ id. Hoare-pure true (λ db p. p))

  seed_first-Kept :
      (s : Server) (env : Environment) → Kept s (seed_first lib json crypto sql clock env)
  unfolding seed_first trim_space
  seed_first-Kept s env =
      Hoare-if
        (is_empty (trim_space lib.unicode (env.getenv "UPTIME_ADMIN_USER"))
          || is_empty (env.getenv "UPTIME_ADMIN_PASSWORD"))
        (λ e. Hoare-pure false (λ db p. p)) (λ e. seeded-Kept s _ _)

  seed_admin_user-Kept :
      (s : Server) (env : Environment) → Kept s (seed_admin_user lib json crypto sql clock env)
  unfolding seed_admin_user admin_user_count
  seed_admin_user-Kept s env =
      Hoare-bind (λ r db. Idle (record s { registry = db })) _ _
        (Hoare-query _ (λ db p. p) (λ e db p. p)) (λ e db p. p)
        (λ n. Hoare-if (ltb 0 n) (λ e. Hoare-pure true (λ db p. p)) (λ e. seed_first-Kept s env))

  seed_admin_user-Idle :
      (env : Environment)
      → Hoare Idle (in_registry (seed_admin_user lib json crypto sql clock env)) (λ r. Idle)
  seed_admin_user-Idle env = Hoare-in_registry _ λ s. seed_admin_user-Kept s env

  -- The daemon begins to serve with the right loops: from a registry that stores no id twice and a
  -- new scheduler, whatever the seed file holds and the engine does, a run that comes to serving
  -- requests has a check loop for exactly the enabled sites of its registry.
  pub run-Boots :
      (env : Environment) (o : RunOpts) (s : Server) (fs : Faults)
      → Idle s
      → (let out = run lib json crypto sql clock env o s fs in Boots out.0 out.1)
  unfolding run
  run-Boots env o s fs p = go.at s fs p
    where
      go : Hoare Idle (run lib json crypto sql clock env o) Boots
      go =
          Hoare-if (not (is_empty o.set_pw_user))
            (λ e.
              Hoare-bind (λ r s. Unit) _ _ (record { at = λ s fs p. tt }) (λ e s p. tt)
                (λ _. Hoare-pure one_shot (λ s p e. absurd cc)))
            (λ e.
              Hoare-bind (λ r. Idle) _ _ (seed_admin_user-Idle env) (λ e s p. tt)
                (λ have. admitted-Boots o have))
