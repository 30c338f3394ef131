-- ===== src/Monitor/Starts.antt =====
-- cmd/monitor: under what condition the daemon serves.
use uptime_monitor_api.Base.{
  ℕ, ◌≡◌, ◌<◌, refl, ◌⊎◌, inl, inr, Bool, true, false, not, ◌&&◌, ◌||◌, String, length,
  length-append, any, Bool-cases, arith, ltb,
}
use uptime_monitor_api.Base.Text.{str_eq, is_empty, trim_space}
use uptime_monitor_api.Config.{Library}
use uptime_monitor_api.Db.{Exec, Result, ok, err, Sqlite, Faults}
use uptime_monitor_api.Db.Hoare.{
  Hoare, Outcome, Hoare-pure, Hoare-raise, Hoare-update, Hoare-query, Hoare-bind, Hoare-if,
  Hoare-forget, Hoare-before, Hoare-weaken,
}
use uptime_monitor_api.Registry.Tables.{RegistryDb}
use uptime_monitor_api.Registry.Sites.{Codec, list_sites}
use uptime_monitor_api.Registry.Users.{admin_user_count, create_admin_user, insert_user}
use uptime_monitor_api.Registry.Sessions.{purge_expired_sessions}
use uptime_monitor_api.Api.{Server, Crypto}
use uptime_monitor_api.Api.Hoare.{Hoare-in_registry, Hoare-in_scheduler}
use uptime_monitor_api.Monitor.Seeding.{seed-Keeps}
use uptime_monitor_api.Monitor.{
  Environment, RunOpts, Ended, one_shot, serving, seeded, seed_first, seed_admin_user, monitoring,
  admitted, run,
}

abbrev pub HasUser : RegistryDb → Type 0
HasUser db = 0 < length db.admin_users

module _ (lib : Library) (json : Codec) (crypto : Crypto) (sql : Sqlite) (clock : ℕ) where
  -- What `seedAdminUser` answers is true only of a registry with an account.
  abbrev Seeded : Result Bool → RegistryDb → Type 0
  Seeded = Outcome (λ b db. b ≡ true → HasUser db) (λ db. Unit)

  abbrev Any : RegistryDb → Type 0
  Any db = Unit

  insert_user-HasUser :
      (name hash : String) (now : ℕ) (db : RegistryDb)
      → (let o = insert_user sql name hash now db in Outcome (λ id. HasUser) (λ db. Unit) o.0 o.1)
  insert_user-HasUser name hash now db =
      elim (Bool-cases (any (λ x. str_eq x.username name) db.admin_users)) [
        | inl e ↦ rw e tt
        | inr e ↦ rw e (omega (arith, length-append db.admin_users))
      ]

  seeded-HasUser :
      (user : String) (r : Result String)
      → Hoare Any (seeded lib json crypto sql clock user r) Seeded
  unfolding create_admin_user
  seeded-HasUser user (err e) = Hoare-raise e (λ db p. tt)
  seeded-HasUser user (ok hash) =
      Hoare-bind (Outcome (λ id. HasUser) (λ db. Unit)) _ _
        (Hoare-update _ (λ db p. insert_user-HasUser _ hash _ db) (λ e db p. tt)) (λ e db p. tt)
        (λ id. Hoare-pure true (λ db p e. p))

  seed_first-Seeded :
      (env : Environment) → Hoare Any (seed_first lib json crypto sql clock env) Seeded
  unfolding seed_first
  seed_first-Seeded env =
      Hoare-if
        (is_empty (trim_space lib.unicode (env.getenv "UPTIME_ADMIN_USER"))
          || is_empty (env.getenv "UPTIME_ADMIN_PASSWORD"))
        (λ e. Hoare-pure false (λ db p q. absurd cc)) (λ e. seeded-HasUser _ _)

  seed_admin_user-Seeded :
      (env : Environment) → Hoare Any (seed_admin_user lib json crypto sql clock env) Seeded
  unfolding seed_admin_user admin_user_count
  seed_admin_user-Seeded env =
      Hoare-bind (Outcome (λ n db. n ≡ length db.admin_users) Any) _ _
        (Hoare-query _ (λ db p. refl) (λ e db p. tt)) (λ e db p. tt)
        (λ n.
          Hoare-if (ltb 0 n) (λ e. Hoare-pure true (λ db p q. ground arith))
            (λ e. Hoare-before _ (λ db p. tt) (seed_first-Seeded env)))

  -- The daemon has a credential: the key of its flags, or an account.
  abbrev pub Guarded : RunOpts → Server → Type 0
  Guarded o s = (is_empty o.api_key ≡ false) ⊎ HasUser s.registry

  abbrev Stay : {A : Type 0} → RunOpts → Exec Server A → Type 0
  Stay o m = Hoare (Guarded o) m (λ r. Guarded o)

  monitoring-Stay : (o : RunOpts) → Stay o (monitoring lib json crypto sql clock)
  unfolding list_sites
  monitoring-Stay o =
      Hoare-bind (λ r. Guarded o) _ _
        (Hoare-bind (λ r. Guarded o) _ _ (Hoare-in_scheduler _ (λ s p. p)) (λ e s p. p)
          (λ _. Hoare-in_registry _ λ s. Hoare-update _ (λ db p. p) (λ e db p. p)))
        (λ e s p. p)
        (λ sites.
          Hoare-bind (λ r. Guarded o) _ _ (Hoare-in_scheduler _ (λ s p. p)) (λ e s p. p)
            (λ _. Hoare-pure serving (λ s p. p)))

  -- What a run that ends with `e` implies.
  abbrev pub Serves : RunOpts → Result Ended → Server → Type 0
  Serves o = Outcome (λ e s. e ≡ serving → Guarded o s) (λ s. Unit)

  guarded :
      {H : Type 0} (no_key have : Bool)
      → (no_key && not have) ≡ false
      → (have ≡ true → H)
      → (no_key ≡ false) ⊎ H
  guarded false have e f = inl refl
  guarded true true e f = inr (f refl)
  guarded true false e f = absurd cc

  serves : (o : RunOpts) (r : Result Ended) (s : Server) → Guarded o s → Serves o r s
  serves o (ok e) s p = λ _. p
  serves o (err e) s p = tt

  Found : Result Bool → Server → Type 0
  Found = Outcome (λ b s. b ≡ true → HasUser s.registry) (λ s. Unit)

  found :
      (s : Server) (r : Result Bool) (db : RegistryDb)
      → Seeded r db
      → Found r (record s { registry = db })
  unfolding Found
  found s (ok b) db p = p
  found s (err e) db p = tt

  admitted-Serves :
      (o : RunOpts) (have : Bool)
      → Hoare (Found (ok have)) (admitted lib json crypto sql clock o have) (Serves o)
  unfolding purge_expired_sessions Found
  admitted-Serves o have =
      Hoare-if (is_empty o.api_key && not have) (λ e. Hoare-raise _ (λ s p. tt))
        (λ e.
          Hoare-before {R = Guarded o} _ (λ s p. guarded (is_empty o.api_key) have e p)
            (Hoare-weaken {R = λ r. Guarded o} _ (serves o) (
              Hoare-bind (λ r. Guarded o) _ _
                (Hoare-bind (λ r. Guarded o) _ _
                  (Hoare-forget _
                    (Hoare-in_registry _ λ s. Hoare-update _ (λ db p. p) (λ e db p. p)))
                  (λ e s p. p)
                  (λ _.
                    seed-Keeps lib json crypto sql clock (Guarded o) (λ t st p. p) (λ t site h p. p)
                      o.seed_sites))
                (λ e s p. p) (λ _. monitoring-Stay o))))

  -- The daemon does not start open: a run that comes to serving requests has an API key or a stored
  -- admin account, whatever the environment, the seed file and the engine do. A run that only sets a
  -- password does not serve.
  pub run-Serves :
      (env : Environment) (o : RunOpts) (s : Server) (fs : Faults)
      → (let out = run lib json crypto sql clock env o s fs in Serves o out.0 out.1)
  unfolding run Found
  run-Serves env o s fs = go.at s fs tt
    where
      go : Hoare (λ s. Unit) (run lib json crypto sql clock env o) (Serves o)
      go =
          Hoare-if (not (is_empty o.set_pw_user))
            (λ e.
              Hoare-bind (λ r s. Unit) _ _ (record { at = λ s fs p. tt }) (λ e s p. tt)
                (λ _. Hoare-pure one_shot (λ s p e. absurd cc)))
            (λ e.
              Hoare-bind Found _ _
                (Hoare-in_registry _
                  λ s. Hoare-weaken _ (λ r db p. found s r db p) (seed_admin_user-Seeded env))
                (λ e s p. tt) (λ have. admitted-Serves o have))
