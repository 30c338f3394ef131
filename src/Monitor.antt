-- ===== src/Monitor.antt =====
-- cmd/monitor: how the daemon starts. The flags, the environment, the terminal and the seed file are
-- arguments, and so is the time at which the transition hook is called.
mod Tests
pub mod Seeding
pub mod Starts
pub mod Seeds
pub mod Boot
use uptime_monitor_api.Base.{
  ℕ, ◌/◌, Bool, true, false, not, ◌&&◌, ◌||◌, Option, none, some, List, [], ◌∷◌, ◌++◌, String, ltb,
  ◌==◌, if◌then◌else◌,
}
use uptime_monitor_api.Base.Int.{ℤ, pos, ltb_ℤ}
use uptime_monitor_api.Base.Text.{Char, code, str_eq, is_empty, Unicode, trim_space}
use uptime_monitor_api.Config.{SiteConfig, Library, apply_defaults, validate}
use uptime_monitor_api.Db.{
  Exec, Result, ok, err, Error, user_not_found, plain, Sqlite, pure, raise, ◌>>=◌, ◌>>◌, attempt,
  attempt_result,
}
use uptime_monitor_api.Registry.Tables.{AdminUser, RegistryDb}
use uptime_monitor_api.Registry.Sites.{Codec, list_sites, create_site, site_exists}
use uptime_monitor_api.Registry.Users.{
  admin_user_count, admin_user_by_name, create_admin_user, set_admin_password,
}
use uptime_monitor_api.Registry.Sessions.{purge_expired_sessions}
use uptime_monitor_api.Site.Tick.{Transition}
use uptime_monitor_api.Stores.{get_store}
use uptime_monitor_api.Scheduler.{on_transition, start_all}
use uptime_monitor_api.Alerts.Dispatcher.{Queue, enqueue}
use uptime_monitor_api.Alerts.Smtp.{SmtpConfig}
use uptime_monitor_api.Api.{Server, Crypto, in_registry, in_stores, in_scheduler}
use uptime_monitor_api.Api.Login.{hash_password}

-- `envOr`
unfoldable pub env_or : String → String → String
env_or v def = if is_empty v then def else v

-- strings.Split at a comma: there is always a first part.
abbrev onto_first : Char → List String → List String
onto_first c [] = []
onto_first c (part ∷ parts) = String.◌∷◌ c part ∷ parts

unfoldable pub split_comma : String → List String
split_comma String.[] = String.[] ∷ []
split_comma (String.◌∷◌ c s) =
    let rest = split_comma s in if code c == 44 then String.[] ∷ rest else onto_first c rest

abbrev pub non_empty : Unicode → List String → List String
unfolding trim_space
non_empty u [] = []
non_empty u (o ∷ os) =
    let rest = non_empty u os in let o' = trim_space u o in if is_empty o' then rest else o' ∷ rest

-- `splitOrigins`
unfoldable pub split_origins : Unicode → String → List String
unfolding split_comma non_empty
split_origins u s = non_empty u (split_comma s)

-- The variables of the environment, and what strconv makes of the port.
pub record Environment : Type 0 where
  pub getenv : String → String
  pub smtp_port : Option ℤ

abbrev pub port_or : Option ℤ → ℤ
port_or none = pos 587
port_or (some p) = if ltb_ℤ (pos 0) p then p else pos 587

-- `smtpConfigFromEnv`
unfoldable pub smtp_config_from_env : Unicode → Environment → SmtpConfig
unfolding trim_space
smtp_config_from_env u env = record {
  host = trim_space u (env.getenv "UPTIME_SMTP_HOST");
  port = port_or env.smtp_port;
  username = env.getenv "UPTIME_SMTP_USER";
  password = env.getenv "UPTIME_SMTP_PASS";
  sender = trim_space u (env.getenv "UPTIME_SMTP_FROM");
  insecure_skip_verify = str_eq (env.getenv "UPTIME_SMTP_INSECURE") "true";
}

-- What `run` is told: `set_pw_user` is empty unless it is to set a password; `secrets` are the lines
-- that `readSecret` would read; `seed_sites` is what the seed file holds, where one is given.
pub record RunOpts : Type 0 where
  pub api_key : String
  pub set_pw_user : String
  pub secrets : Option String × Option String
  pub seed_sites : Option (Result (List SiteConfig))

pub data Ended : Type 0 where
  one_shot serving : Ended

module _ (lib : Library) (json : Codec) (crypto : Crypto) (sql : Sqlite) (clock : ℕ) where
  abbrev u : Unicode
  u = lib.unicode

  abbrev now : ℕ
  now = clock / 1000000000

  abbrev pub seeded : String → Result String → Exec RegistryDb Bool
  seeded user (err e) = raise e
  seeded user (ok hash) = create_admin_user sql u user hash now >>= λ id. pure true

  abbrev pub seed_first : Environment → Exec RegistryDb Bool
  unfolding trim_space
  seed_first env =
      let user = trim_space u (env.getenv "UPTIME_ADMIN_USER") in
      let pass = env.getenv "UPTIME_ADMIN_PASSWORD" in
      if is_empty user || is_empty pass
      then pure false
      else seeded user (hash_password crypto u clock pass)

  -- `seedAdminUser`, whose errors are wrapped
  unfoldable pub seed_admin_user : Environment → Exec RegistryDb Bool
  unfolding hash_password seed_first
  seed_admin_user env = admin_user_count >>= λ n. if ltb 0 n then pure true else seed_first env

  abbrev pub renewed : String → String → Result AdminUser → Exec RegistryDb (Unit {0})
  renewed username hash (ok user) = set_admin_password user.id hash now
  renewed username hash (err user_not_found) =
      create_admin_user sql u username hash now >>= λ id. pure tt
  renewed username hash (err e) = raise e

  abbrev pub with_hash : String → Result String → Exec RegistryDb (Unit {0})
  with_hash username (err e) = raise e
  with_hash username (ok hash) =
      attempt_result (admin_user_by_name u username) >>= renewed username hash

  -- `setPassword`
  unfoldable pub set_password : String → Option String × Option String → Exec RegistryDb (Unit {0})
  unfolding hash_password
  set_password username (some pw1, some pw2) =
      if str_eq pw1 pw2
      then with_hash username (hash_password crypto u clock pw1)
      else raise (plain "passwords do not match")
  set_password username _ = raise (plain "read password from stdin")

  abbrev pub import_absent : SiteConfig → Bool → Exec Server (Unit {0})
  import_absent s true = pure tt
  import_absent s false =
      in_registry (create_site json (record s { created_at = now; updated_at = now }))
      >> attempt (in_stores (get_store now s.id))

  abbrev pub import_valid : SiteConfig → Option String → Exec Server (Unit {0})
  import_valid s (some e) = pure tt
  import_valid s none = in_registry (site_exists s.id) >>= import_absent s

  -- The loop of `seed`: an invalid site and one that exists are skipped.
  unfoldable pub seed_loop : List SiteConfig → Exec Server (Unit {0})
  seed_loop [] = pure tt
  seed_loop (s ∷ ss) =
      let s' = apply_defaults lib s in import_valid s' (validate lib s') >> seed_loop ss

  -- `seed`
  unfoldable pub seed : Option (Result (List SiteConfig)) → Exec Server (Unit {0})
  unfolding seed_loop
  seed none = pure tt
  seed (some (err e)) = raise e
  seed (some (ok sites)) = seed_loop sites

  -- The hook only queues.
  unfoldable pub transition_hook : ℕ → SiteConfig → Transition → Queue → Queue
  unfolding enqueue
  transition_hook at site tr q = enqueue (record { site = site; transition = tr; at = at }) q

  abbrev pub refusal : Error
  refusal = plain "refusing to start: no admin credential configured"

  abbrev pub monitoring : Exec Server Ended
  monitoring =
      in_scheduler (on_transition (some (transition_hook clock)))
      >> in_registry (list_sites json)
      >>= (λ sites. in_scheduler (start_all sites) >> pure serving)

  abbrev pub admitted : RunOpts → Bool → Exec Server Ended
  admitted o have_admin_user =
      if is_empty o.api_key && not have_admin_user
      then raise refusal
      else attempt (in_registry (purge_expired_sessions now)) >> seed o.seed_sites >> monitoring

  -- `run`, from the opened databases to the first request
  unfoldable pub run : Environment → RunOpts → Exec Server Ended
  unfolding seed_admin_user set_password seed transition_hook
  run env o =
      if not (is_empty o.set_pw_user)
      then in_registry (set_password o.set_pw_user o.secrets) >> pure one_shot
      else in_registry (seed_admin_user env) >>= admitted o
