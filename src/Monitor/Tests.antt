-- ===== src/Monitor/Tests.antt =====
-- A start of the daemon on an empty server, with one site to seed.
use uptime_monitor_api.Base.{none, some, [], ◌∷◌}
use uptime_monitor_api.Db.{ok}
use uptime_monitor_api.Db.Rowids.{counting}
use uptime_monitor_api.Registry.Tables.{empty_registry}
use uptime_monitor_api.Scheduler.Running.{Follows-new}
use uptime_monitor_api.Api.{Server}
use uptime_monitor_api.Monitor.{RunOpts, Environment, run}
use uptime_monitor_api.Monitor.Starts.{Serves, run-Serves}
use uptime_monitor_api.Monitor.Boot.{Idle, Boots, run-Boots}
use uptime_monitor_api.Samples.{one_host, one_config, toy_crypto, example_site, server}

abbrev idle_server : Server
idle_server = record server { registry = empty_registry }

abbrev environment : Environment
environment = record { getenv = λ k. ""; smtp_port = none }

abbrev options : RunOpts
options = record {
  api_key = "secret";
  set_pw_user = "";
  secrets = (none, none);
  seed_sites = some (ok (example_site ∷ []));
}

idle_server-Idle : Idle idle_server
idle_server-Idle = (Follows-new [], tt)

run-Serves_example :
    let out =
      run one_host one_config toy_crypto counting 1000000000 environment options idle_server [] in
    Serves one_host one_config toy_crypto counting 1000000000 options out.0 out.1
run-Serves_example =
    run-Serves one_host one_config toy_crypto counting 1000000000 environment options idle_server []

run-Boots_example :
    let out =
      run one_host one_config toy_crypto counting 1000000000 environment options idle_server [] in
    Boots one_host one_config toy_crypto counting 1000000000 out.0 out.1
run-Boots_example =
    run-Boots one_host one_config toy_crypto counting 1000000000 environment options idle_server []
      idle_server-Idle
