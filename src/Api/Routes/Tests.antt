-- ===== src/Api/Routes/Tests.antt =====
-- A caller without credentials at a concrete server.
use uptime_monitor_api.Base.{sym, ap, true, false, none, [], ◌∷◌, Bool, arith}
use uptime_monitor_api.Config.{SiteConfig}
use uptime_monitor_api.Db.{Result, ok, err}
use uptime_monitor_api.Api.Gates.{site_key_ok}
use uptime_monitor_api.Db.Rowids.{counting}
use uptime_monitor_api.Registry.Sites.{site_row, scan_site}
use uptime_monitor_api.Api.{Server}
use uptime_monitor_api.Api.Gates.Laws.{Authorised, by_key, by_session}
use uptime_monitor_api.Api.Routes.{Outside, site_data, get_metrics, serve, Query}
use uptime_monitor_api.Api.Routes.Closed.{Refused, for_site, WithoutSiteKey, serve-Refused}
use uptime_monitor_api.Samples.{
  one_host, one_config, toy_crypto, server, settings, anonymous, registry, example_site,
}

abbrev outside : Outside
outside = record {
  lib = one_host;
  json = one_config;
  crypto = toy_crypto;
  sql = counting;
  is_address = λ a. true;
  sender = none;
  client_ip = "::1";
  token = none;
  random_key = none;
}

unfoldable monitoring : Server
unfolding site_row
monitoring = record server {
  registry = record registry { sites = site_row one_config example_site ∷ [] };
}

abbrev query : Query
query = record { window = "24h"; since = none; limit = none; buckets = none }

refused_caller : ¬ Authorised toy_crypto 400000000000 settings anonymous monitoring.registry
unfolding monitoring
refused_caller (by_key h k) = ground arith
refused_caller (by_session value sess p q l) = ground arith

abbrev key_ok : Result SiteConfig → Bool
key_ok (ok site) = site_key_ok toy_crypto 400000000000 settings anonymous site
key_ok (err e) = false

no_site_key :
    WithoutSiteKey outside settings 400000000000 anonymous monitoring
      (site_data "example" get_metrics query)
unfolding monitoring scan_site
no_site_key site h = sym (ap key_ok h)

serve-Refused_example :
    let out =
      serve outside settings 400000000000 anonymous
        (site_data "example" get_metrics query)
        monitoring
        [] in
    Refused monitoring out.0 out.1
serve-Refused_example =
    serve-Refused outside settings 400000000000 anonymous monitoring
      (site_data "example" get_metrics query) [] (for_site "example" get_metrics query)
      refused_caller no_site_key
