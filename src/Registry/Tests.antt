-- ===== src/Registry/Tests.antt =====
-- The registry's theorems at a concrete database.
use uptime_monitor_api.Base.{refl, ◌≢◌, some, []}
use uptime_monitor_api.Db.{◌>>=◌, ◌>>◌, delivery_claimed}
use uptime_monitor_api.Db.Runs.{Commits, Refuses, Runs}
use uptime_monitor_api.Db.Rowids.{counting}
use uptime_monitor_api.Registry.Tables.{RegistryDb}
use uptime_monitor_api.Registry.Sites.{create_site, get_site}
use uptime_monitor_api.Registry.Sessions.{lookup_session}
use uptime_monitor_api.Registry.Users.{set_admin_password}
use uptime_monitor_api.Registry.Deliveries.{Claim, claim_delivery}
use uptime_monitor_api.Registry.Claims.{claimed, claim_delivery-Refuses}
use uptime_monitor_api.Registry.Revocation.{
  repassworded, set_admin_password-Commits, set_admin_password-revokes,
}
use uptime_monitor_api.Registry.Roundtrip.{with_site, get_site-create_site}
use uptime_monitor_api.Samples.{registry, one_config, example_site, bob_session}

abbrev claim : Claim
claim = record {
  dedupe_key = "down:example:7:3";
  site_id = "example";
  kind = "site_down";
  channel_id = 3;
  incident_id = some 7;
  subject = "[DOWN] Example";
}

abbrev announced_registry : RegistryDb
announced_registry = claimed counting claim 1000 registry

claim_delivery-Refuses_example :
    Refuses (claim_delivery counting claim 2000) announced_registry delivery_claimed
claim_delivery-Refuses_example = claim_delivery-Refuses counting claim 2000 announced_registry refl

set_admin_password-Commits_example :
    Commits (set_admin_password 1 "$new" 400) registry tt (repassworded 1 "$new" 400 registry)
set_admin_password-Commits_example = set_admin_password-Commits 1 "$new" 400 registry refl

set_admin_password-revokes_example : bob_session.user_id ≢ 1
unfolding set_admin_password lookup_session ◌>>=◌
set_admin_password-revokes_example =
    set_admin_password-revokes 1 "$new" 400 registry [] (repassworded 1 "$new" 400 registry) [] refl
      "#bob" 500 [] bob_session (repassworded 1 "$new" 400 registry) [] refl

get_site-create_site_example :
    Runs
      (create_site one_config example_site >> get_site one_config "example")
      registry
      example_site
      (with_site one_config example_site registry)
get_site-create_site_example = get_site-create_site one_config example_site registry refl refl
